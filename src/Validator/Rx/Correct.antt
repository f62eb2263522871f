-- ===== src/Validator/Rx/Correct.antt =====
-- The matcher decides the language that each expression denotes.
use gradconnect_api.Common.{
  ℕ, String, ◌≡◌, refl, sym, ap, ◌↔◌, ◌⊎◌, inl, inr, Bool, true, false, List, [], ◌∷◌, ◌++◌, arith,
  if◌then◌else◌, codes, Bool-cases,
}
use gradconnect_api.Validator.Rx.{
  Rx, never, eps, chars, seq, alt, star, nullable, deriv, accepts, matches,
}

-- One or more non-empty pieces, or nothing.
pub data Repeats (P : List ℕ → Type 0) : List ℕ → Type 0 where
  done : (s : List ℕ) → s ≡ [] → Repeats P s
  more :
      (s : List ℕ) (c : ℕ) (t u : List ℕ) → s ≡ c ∷ (t ++ u) → P (c ∷ t) → Repeats P u → Repeats P s

-- The language of an expression, by recursion on it.
abbrev pub Matches : Rx → List ℕ → Type 0
Matches never s = ⊥
Matches eps s = s ≡ []
Matches (chars p) s = (c : ℕ) × (s ≡ c ∷ []) × (p c ≡ true)
Matches (seq a b) s = (t : List ℕ) × (u : List ℕ) × (s ≡ t ++ u) × Matches a t × Matches b u
Matches (alt a b) s = Matches a s ⊎ Matches b s
Matches (star a) s = Repeats (Matches a) s

nullable_sound : (r : Rx) → nullable r ≡ true → Matches r []
unfolding nullable
nullable_sound never h = cc
nullable_sound eps h = refl
nullable_sound (chars p) h = cc
nullable_sound (seq a b) h =
    ([], [], refl, nullable_sound a (ground arith), nullable_sound b (ground arith))
nullable_sound (alt a b) h = elim (Bool-cases (nullable a)) [
  | inl e ↦ inl (nullable_sound a e)
  | inr e ↦ inr (nullable_sound b (ground arith))
]
nullable_sound (star a) h = done [] refl

nil-append : (t u : List ℕ) → [] ≡ t ++ u → (t ≡ []) × (u ≡ [])
nil-append [] u h = (refl, sym h)
nil-append (c ∷ t) u h = cc

nullable_complete : (r : Rx) → Matches r [] → nullable r ≡ true
unfolding nullable
nullable_complete never h = absurd h
nullable_complete eps h = refl
nullable_complete (chars p) (c, e, h) = cc
nullable_complete (seq a b) (t, u, e, ha, hb) =
    let (et, eu) = nil-append t u e in
    rw (nullable_complete a (rw et at ha), nullable_complete b (rw eu at hb))
nullable_complete (alt a b) (inl h) = rw (nullable_complete a h)
nullable_complete (alt a b) (inr h) = ground (arith, nullable_complete b h)
nullable_complete (star a) h = refl

cons-append :
    (c : ℕ) (s t u : List ℕ)
    → c ∷ s ≡ t ++ u
    → ((t ≡ []) × (u ≡ c ∷ s)) ⊎ ((v : List ℕ) × (t ≡ c ∷ v) × (s ≡ v ++ u))
cons-append c s [] u h = inl (refl, sym h)
cons-append c s (d ∷ v) u h = inr (v, cc, cc)

module _ (c : ℕ) (a b : Rx) where
  seq-left :
      ((t : List ℕ) → Matches (deriv c a) t → Matches a (c ∷ t))
      → (s : List ℕ) → Matches (seq (deriv c a) b) s
      → Matches (seq a b) (c ∷ s)
  seq-left ih s (t, u, e, ha, hb) = (c ∷ t, u, ap (λ v. c ∷ v) e, ih t ha, hb)

  seq-either :
      ((t : List ℕ) → Matches (deriv c a) t → Matches a (c ∷ t))
      → ((t : List ℕ) → Matches (deriv c b) t → Matches b (c ∷ t))
      → nullable a ≡ true
      → (s : List ℕ) → Matches (alt (seq (deriv c a) b) (deriv c b)) s
      → Matches (seq a b) (c ∷ s)
  seq-either iha ihb e s (inl m) = seq-left iha s m
  seq-either iha ihb e s (inr m) = ([], c ∷ s, refl, nullable_sound a e, ihb s m)

deriv_sound : (c : ℕ) (r : Rx) (s : List ℕ) → Matches (deriv c r) s → Matches r (c ∷ s)
unfolding deriv
deriv_sound c never s m = absurd m
deriv_sound c eps s m = absurd m
deriv_sound c (chars p) s m = elim (Bool-cases (p c)) [
  | inl e ↦ let m' : s ≡ [] = rw e at m in (c, ap (λ u. c ∷ u) m', e)
  | inr e ↦ let m' : ⊥ = rw e at m in absurd m'
]
deriv_sound c (seq a b) s m = elim (Bool-cases (nullable a)) [
  | inl e ↦ seq-either c a b (deriv_sound c a) (deriv_sound c b) e s (rw e at m)
  | inr e ↦ seq-left c a b (deriv_sound c a) s (rw e at m)
]
deriv_sound c (alt a b) s (inl m) = inl (deriv_sound c a s m)
deriv_sound c (alt a b) s (inr m) = inr (deriv_sound c b s m)
deriv_sound c (star a) s (t, u, e, ha, hb) =
    more (c ∷ s) c t u (ap (λ v. c ∷ v) e) (deriv_sound c a t ha) hb

module _ (c : ℕ) (a b : Rx) (iha : (t : List ℕ) → Matches a (c ∷ t) → Matches (deriv c a) t) where
  seq-split :
      (s t u : List ℕ)
      → c ∷ s ≡ t ++ u
      → Matches a t
      → Matches b u
      → Matches (seq (deriv c a) b) s ⊎ (Matches a [] × Matches b (c ∷ s))
  seq-split s t u e ha hb = elim (cons-append c s t u e) [
    | inl (et, eu) ↦ inr (rw et at ha, rw eu at hb)
    | inr (v, et, es) ↦ inl (v, u, es, iha v (rw et at ha), hb)
  ]

deriv_complete : (c : ℕ) (r : Rx) (s : List ℕ) → Matches r (c ∷ s) → Matches (deriv c r) s
unfolding deriv
deriv_complete c never s m = absurd m
deriv_complete c eps s m = absurd (cc)
deriv_complete c (chars p) s (d, e, h) =
    let same : c ≡ d = cc in
    let empty : s ≡ [] = cc in let holds : p c ≡ true = rw same h in rw holds empty
deriv_complete c (seq a b) s (t, u, e, ha, hb) =
    seq_cases (nullable a) refl (seq-split c a b (deriv_complete c a) s t u e ha hb)
      (deriv_complete c b s)
  where
    seq_cases :
        (n : Bool)
        → nullable a ≡ n
        → Matches (seq (deriv c a) b) s ⊎ (Matches a [] × Matches b (c ∷ s))
        → (Matches b (c ∷ s) → Matches (deriv c b) s)
        → Matches (if n then alt (seq (deriv c a) b) (deriv c b) else seq (deriv c a) b) s
    seq_cases true e (inl m) ihb = inl m
    seq_cases true e (inr (ha, hb)) ihb = inr (ihb hb)
    seq_cases false e (inl m) ihb = m
    seq_cases false e (inr (ha, hb)) ihb = cc (nullable_complete a ha)
deriv_complete c (alt a b) s (inl m) = inl (deriv_complete c a s m)
deriv_complete c (alt a b) s (inr m) = inr (deriv_complete c b s m)
deriv_complete c (star a) s (done _ e) = cc
deriv_complete c (star a) s (more _ d t u e h hs) =
    let same : c ≡ d = cc in
    let rest : s ≡ t ++ u = cc in (t, u, rest, deriv_complete c a t (rw same h), hs)

accepts_sound : (s : List ℕ) (r : Rx) → accepts r s ≡ true → Matches r s
unfolding accepts
accepts_sound [] r h = nullable_sound r h
accepts_sound (c ∷ s) r h = deriv_sound c r s (accepts_sound s (deriv c r) h)

accepts_complete : (s : List ℕ) (r : Rx) → Matches r s → accepts r s ≡ true
unfolding accepts
accepts_complete [] r m = nullable_complete r m
accepts_complete (c ∷ s) r m = accepts_complete s (deriv c r) (deriv_complete c r s m)

-- The matcher accepts a text exactly when the text is in the language of the expression.
pub matches_iff : (value : String) (rx : Rx) → (matches value rx ≡ true) ↔ Matches rx (codes value)
unfolding matches
matches_iff value rx = (accepts_sound (codes value) rx, accepts_complete (codes value) rx)
