-- ===== src/Data/Opportunities/Status.antt =====
-- The status that an opportunity is shown with, and the status filter of the lists
-- (internal/data/opportunities.go).
use gradconnect_api.Common.{
  ℕ, ◌≤◌, ◌<◌, ◌≡◌, refl, ◌⊎◌, inl, inr, String, Bool, true, false, not, ◌&&◌, ◌||◌, Option, none,
  some, ◌==◌, arith, ltb, if◌then◌else◌,
}
use gradconnect_api.Store.Content.{OpportunityRow}
use gradconnect_api.Data.Opportunities.{not_open_yet, is_over, status_of, has_status}

-- The dates are in order, where both are given.
abbrev pub InOrder : Option ℕ → Option ℕ → Type 0
InOrder (some opens_at) (some deadline) = opens_at ≤ deadline
InOrder (some opens_at) none = Unit
InOrder none deadline = Unit

-- Dates in order never are upcoming and closed at once.
apart :
    (today : ℕ) (opens_at deadline : Option ℕ)
    → InOrder opens_at deadline
    → not_open_yet today opens_at ≡ true
    → is_over today deadline ≡ false
apart today none deadline h e = cc
apart today (some a) none h e = refl
apart today (some a) (some d) h e = ground arith

-- The filter and the status shown, as functions of what they test.
abbrev filter_on : String → Bool → Bool → Bool → Bool
filter_on status active soon over =
    status == "all"
    || (status == "withdrawn" && not active)
    || (status == "upcoming" && active && soon)
    || (status == "closed" && active && over)
    || (status == "open" && active && not soon && not over)
    || (status == "open_or_upcoming" && active && not over)

abbrev shown_as : Bool → Bool → Bool → String
shown_as active soon over =
    if not active
    then "withdrawn"
    else if soon
    then "upcoming"
    else if over
    then "closed"
    else "open"

abbrev Agree : Bool → Bool → Bool → Type 0
Agree active soon over =
    let shown = shown_as active soon over in
    (filter_on "withdrawn" active soon over ≡ (shown == "withdrawn"))
    × (filter_on "upcoming" active soon over ≡ (shown == "upcoming"))
    × (filter_on "closed" active soon over ≡ (shown == "closed"))
    × (filter_on "open" active soon over ≡ (shown == "open"))
    × (filter_on "open_or_upcoming" active soon over ≡ (shown == "open" || shown == "upcoming"))
    × (filter_on "all" active soon over ≡ true)

agree : (active soon over : Bool) → (soon ≡ true → over ≡ false) → Agree active soon over
agree true true true h = absurd (cc (h refl))
agree true true false h = (refl, refl, refl, refl, refl, refl)
agree true false true h = (refl, refl, refl, refl, refl, refl)
agree true false false h = (refl, refl, refl, refl, refl, refl)
agree false true over h = (refl, refl, refl, refl, refl, refl)
agree false false over h = (refl, refl, refl, refl, refl, refl)

-- For an opportunity whose dates are in order, the list filter for a status selects exactly the
-- opportunities that are shown with it; open_or_upcoming selects those shown as one of the two, and all
-- selects every one.
pub has_status-status_of :
    (today : ℕ) (o : OpportunityRow)
    → InOrder o.opens_at o.deadline
    → (has_status "withdrawn" today o ≡ (status_of today o == "withdrawn"))
      × (has_status "upcoming" today o ≡ (status_of today o == "upcoming"))
      × (has_status "closed" today o ≡ (status_of today o == "closed"))
      × (has_status "open" today o ≡ (status_of today o == "open"))
      × (has_status "open_or_upcoming" today o
          ≡ (status_of today o == "open" || status_of today o == "upcoming"))
      × (has_status "all" today o ≡ true)
unfolding has_status status_of
has_status-status_of today o h =
    agree o.is_active (not_open_yet today o.opens_at) (is_over today o.deadline)
      (apart today o.opens_at o.deadline h)

-- Without the order, an opportunity can be shown as upcoming and be selected as closed.
pub has_status-inverted :
    (today opens_at deadline : ℕ) (o : OpportunityRow)
    → o.is_active ≡ true
    → o.opens_at ≡ some opens_at
    → o.deadline ≡ some deadline
    → deadline < today
    → today < opens_at
    → (status_of today o ≡ "upcoming")
      × (has_status "closed" today o ≡ true)
      × (has_status "open_or_upcoming" today o ≡ false)
unfolding has_status status_of
has_status-inverted today opens_at deadline o active opens ends past future =
    let soon : ltb today opens_at ≡ true = ground arith in
    let over : ltb deadline today ≡ true = ground arith in
    rw (active, opens, ends, soon, over) (refl, refl, refl)

abbrev OnOffer : Bool → Bool → Bool → Type 0
OnOffer active soon over =
    (shown_as active soon over ≡ "open") ⊎ (shown_as active soon over ≡ "upcoming")

public_filters :
    (active soon over : Bool)
    → (filter_on "open" active soon over ≡ true → OnOffer active soon over)
      × (filter_on "upcoming" active soon over ≡ true → OnOffer active soon over)
      × (filter_on "open_or_upcoming" active soon over ≡ true → OnOffer active soon over)
public_filters true true over = (λ h. inr refl, λ h. inr refl, λ h. inr refl)
public_filters true false true = (λ h. cc, λ h. cc, λ h. cc)
public_filters true false false = (λ h. inl refl, λ h. inl refl, λ h. inl refl)
public_filters false soon over = (λ h. cc, λ h. cc, λ h. cc)

-- Whatever its dates, an opportunity that a filter of the public list selects is shown as open or as
-- upcoming.
pub has_status-public :
    (today : ℕ) (o : OpportunityRow) (status : String)
    → (status ≡ "open") ⊎ ((status ≡ "upcoming") ⊎ (status ≡ "open_or_upcoming"))
    → has_status status today o ≡ true
    → (status_of today o ≡ "open") ⊎ (status_of today o ≡ "upcoming")
unfolding has_status status_of
has_status-public today o status which h =
    let (a, b, c) =
      public_filters o.is_active (not_open_yet today o.opens_at) (is_over today o.deadline) in
    elim which [ inl e ↦ a (rw e at h) | inr (inl e) ↦ b (rw e at h) | inr (inr e) ↦ c (rw e at h) ]
