-- ===== src/Common/Lists.antt =====
-- Lists measured by native numbers, Boolean filters and searches, and a predicate on every item.
use Prim.Native.Nat.{ℕ, suc, ◌+◌}
use mathlib.Core.Path.{◌≡◌, refl, sym, ap}
use mathlib.Core.Bool.{Bool, true, false, ◌||◌}
use mathlib.Core.Option.{Option, none, some}
use mathlib.Core.List.{List, [], ◌∷◌, ◌++◌, map}
use native.Mathlib.Omega.{arith}
use gradconnect_api.Common.Tests.{if◌then◌else◌, Bool-cases}
use mathlib.Core.Logic.{◌⊎◌, inl, inr}

module _ {ℓ} {A : Type ℓ} where
  abbrev pub length : List A → ℕ
  length [] = 0
  length (x ∷ xs) = suc (length xs)

  pub length-append : (xs ys : List A) → length (xs ++ ys) ≡ length xs + length ys
  length-append [] ys = omega arith
  length-append (x ∷ xs) ys = omega (arith, length-append xs ys)

  -- The rows that a `WHERE` clause selects.
  unfoldable pub select : (A → Bool) → List A → List A
  select p [] = []
  select p (x ∷ xs) = if p x then x ∷ select p xs else select p xs

  -- The first row that a `WHERE` clause selects.
  unfoldable pub find_first : (A → Bool) → List A → Option A
  find_first p [] = none
  find_first p (x ∷ xs) = if p x then some x else find_first p xs

  -- `UPDATE … SET f WHERE p`.
  unfoldable pub update_where : (A → Bool) → (A → A) → List A → List A
  update_where p f [] = []
  update_where p f (x ∷ xs) = (if p x then f x else x) ∷ update_where p f xs

  unfoldable pub any : (A → Bool) → List A → Bool
  any p [] = false
  any p (x ∷ xs) = p x || any p xs

module _ {ℓ κ} {A : Type ℓ} (P : A → Type κ) where
  abbrev pub All : List A → Type κ
  All [] = Unit
  All (x ∷ xs) = P x × All xs

  pub All-append : (xs ys : List A) → All xs → All ys → All (xs ++ ys)
  All-append [] ys hx hy = hy
  All-append (x ∷ xs) ys hx hy = (hx.0, All-append xs ys hx.1 hy)

module _ {A : Type 0} where
  -- Membership, by recursion.
  abbrev pub In : A → List A → Type 0
  In a [] = ⊥
  In a (x ∷ xs) = (a ≡ x) ⊎ In a xs

  pub In-append : (a : A) (xs ys : List A) → In a (xs ++ ys) → In a xs ⊎ In a ys
  In-append a [] ys h = inr h
  In-append a (x ∷ xs) ys (inl e) = inl (inl e)
  In-append a (x ∷ xs) ys (inr h) = elim (In-append a xs ys h) [
    | inl l ↦ inl (inr l)
    | inr r ↦ inr r
  ]

  pub In-append_left : (a : A) (xs ys : List A) → In a xs → In a (xs ++ ys)
  In-append_left a [] ys h = absurd h
  In-append_left a (x ∷ xs) ys (inl e) = inl e
  In-append_left a (x ∷ xs) ys (inr h) = inr (In-append_left a xs ys h)

  pub In-append_last : (a : A) (xs : List A) → In a (xs ++ a ∷ [])
  In-append_last a [] = inl refl
  In-append_last a (x ∷ xs) = inr (In-append_last a xs)

  pub find_first-some :
      (p : A → Bool) (xs : List A) {a : A} → find_first p xs ≡ some a → In a xs × (p a ≡ true)
  unfolding find_first
  find_first-some p [] h = cc
  find_first-some p (x ∷ xs) {a} h = elim (Bool-cases (p x)) [
    | inl e ↦ let same : x ≡ a = ground arith in (inl (sym same), rw (← same) e)
    | inr e ↦ let (found, holds) = find_first-some p xs {a = a} (ground arith) in (inr found, holds)
  ]

  pub find_first-none :
      (p : A → Bool) (xs : List A) (a : A) → find_first p xs ≡ none → In a xs → p a ≡ false
  unfolding find_first
  find_first-none p [] a h i = absurd i
  find_first-none p (x ∷ xs) a h (inl e) = rw e (ground arith)
  find_first-none p (x ∷ xs) a h (inr i) = find_first-none p xs a (ground arith) i

  pub find_first_eq_none :
      (p : A → Bool) (xs : List A) → ((a : A) → In a xs → p a ≡ false) → find_first p xs ≡ none
  unfolding find_first
  find_first_eq_none p [] h = refl
  find_first_eq_none p (x ∷ xs) h =
      rw (h x (inl refl)) (find_first_eq_none p xs (λ a i. h a (inr i)))

  pub In-select : (p : A → Bool) (xs : List A) (a : A) → In a (select p xs) → In a xs × (p a ≡ true)
  unfolding select
  In-select p [] a h = absurd h
  In-select p (x ∷ xs) a h = elim (Bool-cases (p x)) [
    | inl e ↦ elim (rw e at h) [
      | inl same ↦ (inl same, rw same e)
      | inr later ↦ let (i, holds) = In-select p xs a later in (inr i, holds)
    ]
    | inr e ↦ let (i, holds) = In-select p xs a (rw e at h) in (inr i, holds)
  ]

  pub In-select_intro :
      (p : A → Bool) (xs : List A) (a : A) → In a xs → p a ≡ true → In a (select p xs)
  unfolding select
  In-select_intro p [] a i h = absurd i
  In-select_intro p (x ∷ xs) a (inl e) h = let here : p x ≡ true = rw (← e) h in rw here (inl e)
  In-select_intro p (x ∷ xs) a (inr i) h = elim (Bool-cases (p x)) [
    | inl e ↦ rw e (inr (In-select_intro p xs a i h))
    | inr e ↦ rw e (In-select_intro p xs a i h)
  ]

  pub In-update_where :
      (p : A → Bool) (f : A → A) (xs : List A) (b : A)
      → In b (update_where p f xs)
      → (a : A) × In a xs × (b ≡ (if p a then f a else a))
  unfolding update_where
  In-update_where p f [] b h = absurd h
  In-update_where p f (x ∷ xs) b (inl e) = (x, inl refl, e)
  In-update_where p f (x ∷ xs) b (inr h) =
      let (a, i, e) = In-update_where p f xs b h in (a, inr i, e)

  pub In-update_where_intro :
      (p : A → Bool) (f : A → A) (xs : List A) (a : A)
      → In a xs
      → In (if p a then f a else a) (update_where p f xs)
  unfolding update_where
  In-update_where_intro p f [] a i = absurd i
  In-update_where_intro p f (x ∷ xs) a (inl e) = inl (rw e refl)
  In-update_where_intro p f (x ∷ xs) a (inr i) = inr (In-update_where_intro p f xs a i)

  pub any-eq-true :
      (p : A → Bool) (xs : List A) → any p xs ≡ true → (a : A) × In a xs × (p a ≡ true)
  unfolding any
  any-eq-true p [] h = cc
  any-eq-true p (x ∷ xs) h = elim (Bool-cases (p x)) [
    | inl e ↦ (x, inl refl, e)
    | inr e ↦ let (a, i, holds) = any-eq-true p xs (ground arith) in (a, inr i, holds)
  ]

  pub any-eq-false : (p : A → Bool) (xs : List A) (a : A) → any p xs ≡ false → In a xs → p a ≡ false
  unfolding any
  any-eq-false p [] a h i = absurd i
  any-eq-false p (x ∷ xs) a h (inl e) = rw e (ground arith)
  any-eq-false p (x ∷ xs) a h (inr i) = any-eq-false p xs a (ground arith) i

  pub any_intro : (p : A → Bool) (xs : List A) (a : A) → In a xs → p a ≡ true → any p xs ≡ true
  unfolding any
  any_intro p [] a i h = absurd i
  any_intro p (x ∷ xs) a (inl e) h = let here : p x ≡ true = rw (← e) h in rw here refl
  any_intro p (x ∷ xs) a (inr i) h = ground (arith, any_intro p xs a i h)

-- An UPDATE behind which no row is selected has written none.
pub update_where-none :
    {A : Type 0} (p : A → Bool) (f : A → A) (xs : List A)
    → ((a : A) → p a ≡ true → p (f a) ≡ true)
    → find_first p (update_where p f xs) ≡ none
    → update_where p f xs ≡ xs
unfolding find_first update_where
update_where-none p f [] kept h = refl
update_where-none p f (x ∷ xs) kept h = elim (Bool-cases (p x)) [
  | inl e ↦ absurd (cc (rw (e, kept x e) at h))
  | inr e ↦ rw e (ap (λ ys. x ∷ ys) (update_where-none p f xs kept (rw (e, e) at h)))
]

module _ {A B : Type 0} where
  pub In-map : (f : A → B) (xs : List A) (b : B) → In b (map f xs) → (a : A) × In a xs × (b ≡ f a)
  In-map f [] b h = absurd h
  In-map f (x ∷ xs) b (inl e) = (x, inl refl, e)
  In-map f (x ∷ xs) b (inr h) = let (a, i, e) = In-map f xs b h in (a, inr i, e)
