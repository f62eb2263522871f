-- ===== src/Data/Ids.antt =====
-- Ids that reach a statement as texts: their cast to uuid comes before anything else. With this, the
-- column types and foreign keys that several tables share.
use Prim.Native.String.{count}
use gradconnect_api.Common.{ℕ, String, ◌≡◌, refl, Bool, true, ◌&&◌, Option, none, some, leb}
use gradconnect_api.Common.Int.{ℤ, pos_part, neg_part}
use gradconnect_api.Store.{failure, Result, err, Env, Db, Sql}

abbrev pub on_uuid : {A : Type 0} → Option String → (String → Sql A) → Sql A
on_uuid none f now n db = (err failure, db)
on_uuid (some id) f now n db = f id now n db

-- `$1::uuid`, and the statement on the id that it stands for.
unfoldable pub with_uuid : ⦃env : Env⦄ {A : Type 0} → String → (String → Sql A) → Sql A
with_uuid ⦃env⦄ text f = on_uuid (env.uuid_of text) f

on_uuid-cases :
    {A : Type 0} (P : Result A × Db → Type 0) (o p : Option String) (f : String → Sql A) (now n : ℕ)
    (db : Db)
    → p ≡ o
    → (p ≡ none → P (err failure, db))
    → ((id : String) → p ≡ some id → P (f id now n db))
    → P (on_uuid o f now n db)
on_uuid-cases P none p f now n db same bad good = bad same
on_uuid-cases P (some id) p f now n db same bad good = good id same

pub with_uuid-cases :
    ⦃env : Env⦄ {A : Type 0} (P : Result A × Db → Type 0) (text : String) (f : String → Sql A)
    (now n : ℕ) (db : Db)
    → (env.uuid_of text ≡ none → P (err failure, db))
    → ((id : String) → env.uuid_of text ≡ some id → P (f id now n db))
    → P (with_uuid text f now n db)
unfolding with_uuid
with_uuid-cases ⦃env⦄ P text f now n db bad good =
    on_uuid-cases P (env.uuid_of text) (env.uuid_of text) f now n db refl bad good

-- VARCHAR(255), NULL allowed, and the range of INTEGER.
abbrev pub fits_opt : Option String → Bool
fits_opt none = true
fits_opt (some s) = leb (count s) 255

abbrev pub fits_int4 : ℤ → Bool
fits_int4 z = leb (pos_part z) 2147483647 && leb (neg_part z) 2147483648
