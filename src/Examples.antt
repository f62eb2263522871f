-- ===== src/Examples.antt =====
-- Concrete inputs, and the theorems applied to them. The stand-in for bcrypt stores the text itself.
pub mod Inputs
pub mod Auth
pub mod Gates
pub mod Jobs
pub mod Post
pub mod Files
pub mod Accounts
pub mod Content
pub mod Daily
pub mod Public
use gradconnect_api.Common.{
  ℕ, String, Bool, true, false, Option, none, some, List, [], ◌∷◌, ◌==◌, ◌+++◌, if◌then◌else◌,
}
use gradconnect_api.Ratelimit.{new_memory_limiter}
use gradconnect_api.Store.{Comparison, same, different, unreadable, Env, Db, empty_db, World}
use gradconnect_api.Store.Rows.{User, AppUser, Session, TokenRow}
use gradconnect_api.Data.Users.{zero_user}
use gradconnect_api.Data.Listing.{text_ltb}
use gradconnect_api.App.Http.{Request}

abbrev compare_texts : Option String → String → Comparison
compare_texts none text = unreadable
compare_texts (some hash) text = if hash == text then same else different

-- No query fails.
abbrev pub test_env : Env
test_env = record {
  fails = λ n. false;
  uuid = λ n. "id";
  uuid_of = λ text. if text == "" then none else some text;
  is_uuid = λ text. if text == "" then false else true;
  text_search = λ document search. document == search;
  vector_search = λ o employer industry search. o.title == search;
  ilike = λ text pattern. text == pattern;
  collates_before = λ s t. text_ltb s t;
  hash_password = λ n text. some text;
  compare_hash = compare_texts;
  random_token = λ n. some "ABCDEFGHIJKLMNOPQRSTUVWXYZ";
  sha256_hex = λ text. "sha:" +++ text;
  base_url = "https://api.example.org";
  frontend_url = "https://example.org";
  cookie_domain = "example.org";
  production = true;
}

abbrev pub alice : User
alice = record zero_user {
  id = "alice";
  email = "alice@example.org";
  password_hash = some "correct horse";
  first_name = "Alice";
  auth_provider = "email";
  email_verified = true;
}

abbrev pub alice_row : AppUser
alice_row = record {
  user = alice;
  deletion_reason = none;
  email_status = "active";
  email_status_updated_at = none;
}

abbrev pub alice_session : Session
alice_session = record {
  id = "s1";
  user_id = "alice";
  ip_address = "192.0.2.1";
  user_agent = "curl";
  created_at = 0;
  expires_at = 604800000000000;
}

-- One user with a session and a reset token.
abbrev pub one_user : Db
one_user = record empty_db {
  app_user = alice_row ∷ [];
  session = alice_session ∷ [];
  password_reset_token =
      record { user_id = "alice"; token_hash = "sha:ABCDEFGHIJKLMNOPQRSTUVWXYZ"; expires_at = 1000 }
      ∷ [];
}

abbrev pub world : World
world = record { db = one_user; limiter = new_memory_limiter; now = 5; year = 2026; queries = 0 }

abbrev pub request : Request
request = record {
  method = "POST";
  path = "/api/v1/auth/login";
  remote_ip = "192.0.2.1";
  user_agent = "curl";
  cookie = some "s1";
  origin = "";
  access_control_request_method = "";
}
