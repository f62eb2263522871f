-- ===== src/Examples/Public.antt =====
-- The public list of opportunities, with one that is open.
use gradconnect_api.Common.{◌≡◌, refl, ◌⊎◌, inl, [], ◌∷◌}
use gradconnect_api.Common.Int.{◌*ℤ◌, ◌-ℤ◌}
use gradconnect_api.Validator.{check, permitted_value}
use gradconnect_api.Filters.{validate_filters}
use gradconnect_api.Store.{World}
use gradconnect_api.Data.Opportunities
use gradconnect_api.Data.Opportunities.{Opportunity, enriched}
use gradconnect_api.App.Http.{respond, opportunities_page}
use gradconnect_api.App.Opportunities.{list_opportunities_handler}
use gradconnect_api.App.Opportunities.Laws.{list_opportunities_handler-public}
use gradconnect_api.Examples.{test_env, world}
use gradconnect_api.Examples.Content.{internship, acme, with_employer, one_page}

abbrev offering : World
offering = record world { db = record with_employer { opportunity = internship ∷ [] } }

abbrev shown_internship : Opportunity
shown_internship = enriched 0 internship acme

answered :
    (list_opportunities_handler ⦃env = test_env⦄ [] offering).0
    ≡ respond 200 (opportunities_page (shown_internship ∷ []) one_page)
unfolding list_opportunities_handler check permitted_value Opportunities.get_all ◌*ℤ◌ ◌-ℤ◌ enriched
    validate_filters
answered = refl

list_opportunities_handler-public_example :
    (shown_internship.status ≡ "open") ⊎ (shown_internship.status ≡ "upcoming")
list_opportunities_handler-public_example =
    list_opportunities_handler-public ⦃env = test_env⦄ [] offering (shown_internship ∷ []) one_page
      shown_internship answered (inl refl)
