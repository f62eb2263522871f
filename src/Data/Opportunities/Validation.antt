-- ===== src/Data/Opportunities/Validation.antt =====
-- internal/data/opportunities.go: the inputs of the opportunity endpoints and their validators, and the
-- comparisons of types.go. A date is its day; `year` is what time.Now().Year() returns.
use gradconnect_api.Common.{
  ℕ, suc, ◌+◌, String, Bool, not, ◌||◌, Option, none, some, List, [], ◌∷◌, ◌==◌, ◌+++◌, ltb, leb,
  eqb, len, length,
}
use gradconnect_api.Common.Int.{ℤ, pos, lebℤ, sub_ℕ}
use gradconnect_api.Common.Decimal.{decimal}
use gradconnect_api.Validator.{Validator, check, ◌▸◌, permitted_value}
use gradconnect_api.Validator.Rx.{matches, url_rx}
use gradconnect_api.Store.{Env}
use gradconnect_api.Data.Users.Validation.{when_some, at_most_255}
use gradconnect_api.Data.Employers.Validation.{at_most_512, validate_slug}

pub record CreateOpportunityInput : Type 0 where
  pub employer_id : String
  pub title : String
  pub slug : String
  pub kind : String
  pub intake_year : ℤ
  pub description : String
  pub requirements : Option String
  pub location : String
  pub discipline_tags : List String
  pub opens_at : Option ℕ
  pub deadline : Option ℕ
  pub application_url : String
  pub is_active : Bool
  pub source_url : Option String

pub record UpdateOpportunityInput : Type 0 where
  pub employer_id : Option String
  pub title : Option String
  pub slug : Option String
  pub kind : Option String
  pub intake_year : Option ℤ
  pub description : Option String
  pub requirements : Option String
  pub location : Option String
  pub discipline_tags : Option (List String)
  pub opens_at : Option ℕ
  pub deadline : Option ℕ
  pub application_url : Option String
  pub source_url : Option String
  pub is_active : Option Bool

-- `BeforeDate` and `EqualDate`
abbrev pub before_date : ℕ → ℕ → Bool
before_date d other = ltb d other

abbrev pub equal_date : ℕ → ℕ → Bool
equal_date d other = eqb d other

abbrev pub permitted_opportunity_types : List String
permitted_opportunity_types =
    "graduate_trainee" ∷ "internship" ∷ "nysc" ∷ "industrial_attachment" ∷ []

abbrev pub validate_type : String → Validator → Validator
validate_type kind =
    check (permitted_value kind permitted_opportunity_types) "type"
      "must be one of: graduate_trainee, internship, nysc, industrial_attachment"

abbrev pub validate_intake_year : ℕ → ℤ → Validator → Validator
validate_intake_year year y v =
    v
    ▸ check (lebℤ (sub_ℕ year 1) y) "intake_year" "must not be more than one year in the past"
    ▸ check (lebℤ y (pos (year + 2))) "intake_year" "must not be more than two years in the future"

abbrev pub validate_requirements : String → Validator → Validator
validate_requirements s =
    check (leb (len s) 5000) "requirements" "must not be more than 5000 characters"

unfoldable pub validate_each_tag : ℕ → List String → Validator → Validator
unfolding decimal
validate_each_tag i [] v = v
validate_each_tag i (tag ∷ tags) v =
    let key = "discipline_tags[" +++ decimal i +++ "]" in
    validate_each_tag (suc i) tags (
      v
      ▸ check (not (tag == "")) key "must not be empty"
      ▸ check (leb (len tag) 100) key "must not be more than 100 characters")

abbrev pub validate_tags : List String → Validator → Validator
validate_tags tags v =
    v
    ▸ check (leb (length tags) 20) "discipline_tags" "must not have more than 20 tags"
    ▸ validate_each_tag 0 tags

abbrev pub validate_dates : Option ℕ → Option ℕ → Validator → Validator
validate_dates (some opens_at) (some deadline) v =
    check (before_date opens_at deadline || equal_date opens_at deadline) "opens_at"
      "must be before or equal to deadline" v
validate_dates (some opens_at) none v = v
validate_dates none deadline v = v

abbrev pub validate_url : String → String → Validator → Validator
validate_url key url v =
    v ▸ at_most_512 key url ▸ check (matches url url_rx) key "must be a valid URL"

module _ ⦃env : Env⦄ where
  unfoldable pub validate_create_opportunity_input :
      ℕ → CreateOpportunityInput → Validator → Validator
  unfolding validate_each_tag
  validate_create_opportunity_input year input v =
      v
      ▸ check (env.is_uuid input.employer_id) "employer_id" "must be a valid UUID"
      ▸ check (not (input.title == "")) "title" "must be provided"
      ▸ at_most_255 "title" input.title
      ▸ validate_slug "must be provided" input.slug
      ▸ validate_type input.kind
      ▸ validate_intake_year year input.intake_year
      ▸ check (not (input.description == "")) "description" "must be provided"
      ▸ when_some input.requirements validate_requirements
      ▸ check (not (input.location == "")) "location" "must be provided"
      ▸ at_most_255 "location" input.location
      ▸ validate_tags input.discipline_tags
      ▸ validate_dates input.opens_at input.deadline
      ▸ check (not (input.application_url == "")) "application_url" "must be provided"
      ▸ validate_url "application_url" input.application_url
      ▸ when_some input.source_url (validate_url "source_url")

-- A text of an update that may not be empty.
abbrev pub not_empty : String → String → Validator → Validator
not_empty key s = check (not (s == "")) key "must not be empty"

unfoldable pub validate_update_opportunity_input :
    ℕ → UpdateOpportunityInput → Validator → Validator
unfolding validate_each_tag
validate_update_opportunity_input year input v =
    v
    ▸ when_some input.title (λ s u. u ▸ not_empty "title" s ▸ at_most_255 "title" s)
    ▸ when_some input.slug (validate_slug "must not be empty")
    ▸ when_some input.kind validate_type
    ▸ when_some input.intake_year (validate_intake_year year)
    ▸ when_some input.description (not_empty "description")
    ▸ when_some input.requirements validate_requirements
    ▸ when_some input.location (λ s u. u ▸ not_empty "location" s ▸ at_most_255 "location" s)
    ▸ when_some input.discipline_tags validate_tags
    ▸ validate_dates input.opens_at input.deadline
    ▸ when_some input.application_url
        (λ s u. u ▸ not_empty "application_url" s ▸ validate_url "application_url" s)
    ▸ when_some input.source_url (validate_url "source_url")
