-- ===== src/Validator/Rx/Emails.antt =====
-- The email addresses that EmailRX of internal/validator/validator.go accepts, without expressions.
use gradconnect_api.Common.{
  ℕ, zero, suc, ◌≤◌, String, ◌≡◌, ◌≢◌, ◌↔◌, refl, sym, ap, subst, ◌∙◌, ◌⊎◌, inl, inr, Bool, true,
  List, [], ◌∷◌, ◌++◌, arith, codes, All, In, length,
}
use mathlib.Core.List.{append-nil}
use gradconnect_api.Validator.Rx.{
  chars, seq, star, matches, at_most, label, email_rx, is_alnum, is_alnum_dash, is_local, one, plus,
  one_of,
}
use gradconnect_api.Validator.Rx.Correct.{Repeats, done, more, Matches, matches_iff}

abbrev pub IsAlnum : ℕ → Type 0
IsAlnum c = ((b'0' ≤ c) × (c ≤ b'9')) ⊎ (((b'A' ≤ c) × (c ≤ b'Z')) ⊎ ((b'a' ≤ c) × (c ≤ b'z')))

abbrev pub IsLocalChar : ℕ → Type 0
IsLocalChar c = IsAlnum c ⊎ In c (codes ".!#$%&'*+/=?^_`{|}~-")

abbrev pub IsLabelChar : ℕ → Type 0
IsLabelChar c = IsAlnum c ⊎ (c ≡ b'-')

-- One to 63 letters, digits and hyphens, of which the first and the last are no hyphens.
abbrev pub IsLabel : List ℕ → Type 0
IsLabel s =
    ((c : ℕ) × (s ≡ c ∷ []) × IsAlnum c)
    ⊎ ((c : ℕ) × (inner : List ℕ) × (d : ℕ) × (s ≡ c ∷ (inner ++ d ∷ []))
        × IsAlnum c
        × IsAlnum d
        × All IsLabelChar inner
        × (length inner ≤ 61))

-- Labels with a dot between two of them.
pub data IsDomain : List ℕ → Type 0 where
  last_label : (s : List ℕ) → IsLabel s → IsDomain s
  dot : (s t u : List ℕ) → s ≡ t ++ b'.' ∷ u → IsLabel t → IsDomain u → IsDomain s

IsAlnum-iff : (c : ℕ) → (is_alnum c ≡ true) ↔ IsAlnum c
IsAlnum-iff c = ((λ h. ground arith), (λ h. ground arith))

IsLabelChar-iff : (c : ℕ) → (is_alnum_dash c ≡ true) ↔ IsLabelChar c
IsLabelChar-iff c = ((λ h. ground (arith, IsAlnum-iff c)), (λ h. ground (arith, IsAlnum-iff c)))

one_of_iff : (s : List ℕ) (c : ℕ) → (one_of s c ≡ true) ↔ In c s
one_of_iff [] c = ((λ h. absurd (cc h)), (λ h. absurd h))
one_of_iff (d ∷ s) c = (λ h. ground (arith, one_of_iff s c), λ h. ground (arith, one_of_iff s c))

IsLocalChar-iff : (c : ℕ) → (is_local c ≡ true) ↔ IsLocalChar c
IsLocalChar-iff c = (
  λ h. ground (arith, IsAlnum-iff c, one_of_iff (codes ".!#$%&'*+/=?^_`{|}~-") c),
  λ h. ground (arith, IsAlnum-iff c, one_of_iff (codes ".!#$%&'*+/=?^_`{|}~-") c),
)

module _ (p : ℕ → Bool) (P : ℕ → Type 0) (same : (c : ℕ) → (p c ≡ true) ↔ P c) where
  star-All : (s : List ℕ) → Matches (star (chars p)) s → All P s
  star-All s (done _ e) = rw e tt
  star-All s (more _ c t u e (d, ed, h) r) =
      let is : s ≡ d ∷ u = e ∙ ap (λ l. l ++ u) ed in rw is ((same d).0 h, star-All u r)

  All-star : (s : List ℕ) → All P s → Matches (star (chars p)) s
  All-star [] h = done [] refl
  All-star (c ∷ s) (h, hs) = more (c ∷ s) c [] s refl (c, refl, (same c).1 h) (All-star s hs)

  at_most-All : (n : ℕ) (s : List ℕ) → Matches (at_most n (chars p)) s → All P s × (length s ≤ n)
  unfolding at_most
  at_most-All zero s e = rw e (tt, omega arith)
  at_most-All (suc n) s (inl e) = rw e (tt, omega arith)
  at_most-All (suc n) s (inr (t, u, e, (c, et, h), m)) =
      let (all, short) = at_most-All n u m in rw (e, et) (((same c).0 h, all), omega (arith, short))

  All-at_most : (n : ℕ) (s : List ℕ) → All P s → length s ≤ n → Matches (at_most n (chars p)) s
  unfolding at_most
  All-at_most zero [] h short = refl
  All-at_most zero (c ∷ s) h short = absurd (omega arith)
  All-at_most (suc n) [] h short = inl refl
  All-at_most (suc n) (c ∷ s) (h, hs) short =
      inr (c ∷ [], s, refl, (c, refl, (same c).1 h), All-at_most n s hs (omega arith))

IsLabel-sound : (s : List ℕ) → Matches label s → IsLabel s
unfolding label
IsLabel-sound s (t, u, e, (c, et, hc), inl eu) =
    let is : s ≡ c ∷ [] = rw (et, eu) at e in inl (c, is, (IsAlnum-iff c).0 hc)
IsLabel-sound s (t, u, e, (c, et, hc), inr (v, w, ev, mv, (d, ew, hd))) =
    let (all, short) = at_most-All is_alnum_dash IsLabelChar IsLabelChar-iff 61 v mv in
    let is : s ≡ c ∷ (v ++ d ∷ []) = rw (et, ev, ew) at e in
    inr (c, v, d, is, (IsAlnum-iff c).0 hc, (IsAlnum-iff d).0 hd, all, short)

IsLabel-complete : (s : List ℕ) → IsLabel s → Matches label s
unfolding label
IsLabel-complete s (inl (c, is, hc)) = (c ∷ [], [], is, (c, refl, (IsAlnum-iff c).1 hc), inl refl)
IsLabel-complete s (inr (c, v, d, is, hc, hd, all, short)) = (
  c ∷ [],
  v ++ d ∷ [],
  is,
  (c, refl, (IsAlnum-iff c).1 hc),
  inr (
    v,
    d ∷ [],
    refl,
    All-at_most is_alnum_dash IsLabelChar IsLabelChar-iff 61 v all short,
    (d, refl, (IsAlnum-iff d).1 hd),
  ),
)

abbrev IsDotLabel : List ℕ → Type 0
IsDotLabel s = Matches (seq (one b'.') label) s

IsDomain-sound : (s t u : List ℕ) → s ≡ t ++ u → IsLabel t → Repeats IsDotLabel u → IsDomain s
IsDomain-sound s t u e h (done _ eu) =
    let is : s ≡ t = e ∙ ap (λ l. t ++ l) eu ∙ append-nil t in
    last_label s (subst (λ l. IsLabel l) (sym is) h)
IsDomain-sound s t u e h (more _ c v w eu (dot_text, u', ev, (b, eb, hb), m) r) =
    let same : b ≡ b'.' = ground arith in
    let split : c ∷ v ≡ b'.' ∷ u' = ev ∙ ap (λ l. l ++ u') (eb ∙ ap (λ d. d ∷ []) same) in
    let behind : u ≡ b'.' ∷ (u' ++ w) = eu ∙ ap (λ l. l ++ w) split in
    dot s t (u' ++ w) (e ∙ ap (λ l. t ++ l) behind) h
      (IsDomain-sound (u' ++ w) u' w refl (IsLabel-sound u' m) r)

IsDomain-complete : (s : List ℕ) → IsDomain s → Matches (seq label (star (seq (one b'.') label))) s
IsDomain-complete s (last_label _ h) =
    (s, [], sym (append-nil s), IsLabel-complete s h, done [] refl)
IsDomain-complete s (dot _ t u e h d) =
    let (t', u', e', m, r) = IsDomain-complete u d in
    (
      t,
      b'.' ∷ u,
      e,
      IsLabel-complete t h,
      more (b'.' ∷ u) b'.' t' u' (ap (λ l. b'.' ∷ l) e')
          (b'.' ∷ [], t', refl, (b'.', refl, refl), m) r,
    )

-- A local part, an @ and a domain.
abbrev pub IsEmail : List ℕ → Type 0
IsEmail s =
    (local : List ℕ) × (domain : List ℕ) × (s ≡ local ++ b'@' ∷ domain)
    × (local ≢ [])
    × All IsLocalChar local
    × IsDomain domain

local_complete :
    (local : List ℕ) → local ≢ [] → All IsLocalChar local → Matches (plus (chars is_local)) local
local_complete [] some_char all = absurd (some_char refl)
local_complete (c ∷ rest) some_char (h, hs) = (
  c ∷ [],
  rest,
  refl,
  (c, refl, (IsLocalChar-iff c).1 h),
  All-star is_local IsLocalChar IsLocalChar-iff rest hs,
)

IsEmail-sound : (s : List ℕ) → Matches email_rx s → IsEmail s
unfolding email_rx
IsEmail-sound s
      (
        local,
        rest,
        e,
        (t, u, el, (c, et, hc), m),
        (at, domain, er, (b, eb, hb), (v, w, ed, ml, r)),
      ) =
    let same : b ≡ b'@' = ground arith in
    let sign : at ≡ b'@' ∷ [] = eb ∙ ap (λ d. d ∷ []) same in
    let behind : rest ≡ b'@' ∷ domain = er ∙ ap (λ l. l ++ domain) sign in
    let is : local ≡ c ∷ u = el ∙ ap (λ l. l ++ u) et in
    (
      local,
      domain,
      e ∙ ap (λ l. local ++ l) behind,
      (λ empty. cc (empty, is)),
      rw is ((IsLocalChar-iff c).0 hc, star-All is_local IsLocalChar IsLocalChar-iff u m),
      IsDomain-sound domain v w ed (IsLabel-sound v ml) r,
    )

-- EmailRX accepts a text exactly if it is an email address: a local part of one or more letters, digits
-- and characters of .!#$%&'*+/=?^_`{|}~-, an @, and labels with a dot between two of them, each of 1 to 63
-- letters, digits and hyphens that neither begins nor ends with a hyphen.
pub matches-email_rx_iff :
    (value : String) → (matches value email_rx ≡ true) ↔ IsEmail (codes value)
unfolding email_rx
matches-email_rx_iff value = (
  λ h. IsEmail-sound (codes value) ((matches_iff value email_rx).0 h),
  λ (local, domain, e, some_char, all, labels). (matches_iff value email_rx).1 (
    local,
    b'@' ∷ domain,
    e,
    local_complete local some_char all,
    (b'@' ∷ [], domain, refl, (b'@', refl, refl), IsDomain-complete domain labels),
  ),
)
