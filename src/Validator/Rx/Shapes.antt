-- ===== src/Validator/Rx/Shapes.antt =====
-- What a text that matches one of the patterns of internal/validator/validator.go looks like.
use gradconnect_api.Common.{
  ℕ, String, ◌≡◌, ◌⊎◌, inl, inr, true, List, ◌∷◌, ◌++◌, arith, eqb, codes, All, All-append,
}
use gradconnect_api.Validator.Rx.{
  Rx, never, eps, chars, seq, alt, star, matches, slug_rx, is_lower_alnum, one, plus,
}
use gradconnect_api.Validator.Rx.Correct.{Repeats, done, more, Matches, matches_iff}

module _ (P : ℕ → Type 0) where
  -- Every character that an expression can take satisfies `P`.
  abbrev Within : Rx → Type 0
  Within never = Unit
  Within eps = Unit
  Within (chars p) = (c : ℕ) → p c ≡ true → P c
  Within (seq a b) = Within a × Within b
  Within (alt a b) = Within a × Within b
  Within (star a) = Within a

  Repeats-All :
      {Q : List ℕ → Type 0} {s : List ℕ} → ((t : List ℕ) → Q t → All P t) → Repeats Q s → All P s
  Repeats-All h (done s e) = rw e tt
  Repeats-All h (more s c t u e q r) =
      let (here, later) = h (c ∷ t) q in rw e (here, All-append P t u later (Repeats-All h r))

  Matches-All : (r : Rx) → Within r → (s : List ℕ) → Matches r s → All P s
  Matches-All never w s m = absurd m
  Matches-All eps w s m = rw m tt
  Matches-All (chars p) w s (c, e, h) = rw e (w c h, tt)
  Matches-All (seq a b) (wa, wb) s (t, u, e, ma, mb) =
      rw e (All-append P t u (Matches-All a wa t ma) (Matches-All b wb u mb))
  Matches-All (alt a b) (wa, wb) s (inl m) = Matches-All a wa s m
  Matches-All (alt a b) (wa, wb) s (inr m) = Matches-All b wb s m
  Matches-All (star a) w s m = Repeats-All (Matches-All a w) m

-- Lower-case letters, digits and the hyphen.
abbrev pub IsSlugChar : ℕ → Type 0
IsSlugChar c = (is_lower_alnum c ≡ true) ⊎ (c ≡ b'-')

-- An accepted slug is not empty, is made of lower-case letters, digits and hyphens, and does not
-- begin with a hyphen.
pub matches-slug_rx :
    (value : String)
    → matches value slug_rx ≡ true
    → (c : ℕ) × (rest : List ℕ) × (codes value ≡ c ∷ rest)
      × (is_lower_alnum c ≡ true)
      × All IsSlugChar rest
unfolding slug_rx
matches-slug_rx value h =
    let (t, u, e, (first, more_chars, e', (c, ec, hc), m), r) = (matches_iff value _).0 h in
    let alnum : (d : ℕ) → is_lower_alnum d ≡ true → IsSlugChar d = λ d p. inl p in
    let dash : (d : ℕ) → eqb b'-' d ≡ true → IsSlugChar d = λ d p. inr (ground arith) in
    (
      c,
      more_chars ++ u,
      rw (e, e', ec),
      hc,
      All-append IsSlugChar more_chars u
          (Matches-All IsSlugChar (star (chars is_lower_alnum)) alnum more_chars m)
          (Matches-All IsSlugChar (star (seq (one b'-') (plus (chars is_lower_alnum))))
            (dash, (alnum, alnum)) u r),
    )
