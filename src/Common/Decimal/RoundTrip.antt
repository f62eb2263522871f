-- ===== src/Common/Decimal/RoundTrip.antt =====
-- A number that is printed is read back.
use Prim.Native.Nat.{ℕ, zero, suc, ◌+◌, ◌*◌, ◌/◌, ◌%◌, ◌≤◌, ◌<◌}
use Prim.Native.Char.{code}
use Prim.Native.String.{String}
use mathlib.Core.Path.{◌≡◌, refl, ap, ◌∙◌}
use mathlib.Core.Bool.{true}
use mathlib.Core.Logic.{inl, inr}
use mathlib.Core.Option.{some}
use native.Mathlib.Omega.{arith}
use gradconnect_api.Common.Tests.{ltb, Bool-cases}
use mathlib.Core.List.{List, ◌∷◌}
use gradconnect_api.Common.Int.{ℤ, pos, negsuc, pos_part, neg_part}
use gradconnect_api.Common.Decimal.{
  digit_char, digits, decimal, decimalℤ, print, split_spaces, is_digit, scan_digits, read_digits,
  bounded, parse_int,
}

scan-digit_char :
    (d : ℕ) (out : String) (acc : ℕ)
    → d < 10
    → scan_digits (String.◌∷◌ (digit_char d) out) acc ≡ scan_digits out (acc * 10 + d)
unfolding scan_digits digit_char is_digit
scan-digit_char zero out acc h = ap (λ k. scan_digits out k) (omega arith)
scan-digit_char (suc zero) out acc h = ap (λ k. scan_digits out k) (omega arith)
scan-digit_char (suc (suc zero)) out acc h = ap (λ k. scan_digits out k) (omega arith)
scan-digit_char (suc (suc (suc zero))) out acc h = ap (λ k. scan_digits out k) (omega arith)
scan-digit_char (suc (suc (suc (suc zero)))) out acc h = ap (λ k. scan_digits out k) (omega arith)
scan-digit_char (suc (suc (suc (suc (suc zero))))) out acc h =
    ap (λ k. scan_digits out k) (omega arith)
scan-digit_char (suc (suc (suc (suc (suc (suc zero)))))) out acc h =
    ap (λ k. scan_digits out k) (omega arith)
scan-digit_char (suc (suc (suc (suc (suc (suc (suc zero))))))) out acc h =
    ap (λ k. scan_digits out k) (omega arith)
scan-digit_char (suc (suc (suc (suc (suc (suc (suc (suc zero)))))))) out acc h =
    ap (λ k. scan_digits out k) (omega arith)
scan-digit_char (suc (suc (suc (suc (suc (suc (suc (suc (suc zero))))))))) out acc h =
    ap (λ k. scan_digits out k) (omega arith)
scan-digit_char (suc (suc (suc (suc (suc (suc (suc (suc (suc (suc n)))))))))) out acc h =
    absurd (omega arith)

-- The text starts with a digit.
abbrev IsStart : String → Type 0
IsStart String.[] = ⊥
IsStart (String.◌∷◌ c s) = is_digit (code c) ≡ true

digit_char-IsStart : (d : ℕ) (out : String) → d < 10 → IsStart (String.◌∷◌ (digit_char d) out)
unfolding digit_char is_digit
digit_char-IsStart zero out h = refl
digit_char-IsStart (suc zero) out h = refl
digit_char-IsStart (suc (suc zero)) out h = refl
digit_char-IsStart (suc (suc (suc zero))) out h = refl
digit_char-IsStart (suc (suc (suc (suc zero)))) out h = refl
digit_char-IsStart (suc (suc (suc (suc (suc zero))))) out h = refl
digit_char-IsStart (suc (suc (suc (suc (suc (suc zero)))))) out h = refl
digit_char-IsStart (suc (suc (suc (suc (suc (suc (suc zero))))))) out h = refl
digit_char-IsStart (suc (suc (suc (suc (suc (suc (suc (suc zero)))))))) out h = refl
digit_char-IsStart (suc (suc (suc (suc (suc (suc (suc (suc (suc zero))))))))) out h = refl
digit_char-IsStart (suc (suc (suc (suc (suc (suc (suc (suc (suc (suc n)))))))))) out h =
    absurd (omega arith)

scan-digits :
    (fuel n : ℕ) (out : String) → n < fuel → scan_digits (digits fuel n out) 0 ≡ scan_digits out n
unfolding digits
scan-digits zero n out h = absurd (omega arith)
scan-digits (suc fuel) n out h = elim (Bool-cases (ltb n 10)) [
  | inl small ↦
      rw small (scan-digit_char n out 0 (ground arith) ∙ ap (λ k. scan_digits out k) (omega arith))
  | inr large ↦ rw large (
      scan-digits fuel (n / 10) (String.◌∷◌ (digit_char (n % 10)) out) (ground arith)
      ∙ scan-digit_char (n % 10) out (n / 10) (omega arith)
      ∙ ap (λ k. scan_digits out k) (omega arith))
]

digits-IsStart : (fuel n : ℕ) (out : String) → n < fuel → IsStart (digits fuel n out)
unfolding digits
digits-IsStart zero n out h = absurd (omega arith)
digits-IsStart (suc fuel) n out h = elim (Bool-cases (ltb n 10)) [
  | inl small ↦ rw small (digit_char-IsStart n out (ground arith))
  | inr large ↦
      rw large (digits-IsStart fuel (n / 10) (String.◌∷◌ (digit_char (n % 10)) out) (ground arith))
]

read-start : (s : String) → IsStart s → read_digits s ≡ scan_digits s 0
unfolding read_digits
read-start String.[] h = absurd h
read-start (String.◌∷◌ c s) h = refl

parse-start :
    (most least : ℕ) (s : String)
    → IsStart s
    → parse_int most least s ≡ bounded most pos (read_digits s)
unfolding parse_int is_digit
parse-start most least String.[] h = absurd h
parse-start most least (String.◌∷◌ c s) h = ground arith

read-decimal : (n : ℕ) → read_digits (decimal n) ≡ some n
unfolding decimal
read-decimal n =
    read-start (digits (suc n) n "") (digits-IsStart (suc n) n "" (omega arith))
    ∙ scan-digits (suc n) n "" (omega arith)
    ∙ unfold scan_digits in refl

-- A digit is no space.
digit_char-split :
    (d : ℕ) (out part : String) (parts : List String)
    → d < 10
    → split_spaces out ≡ part ∷ parts
    → split_spaces (String.◌∷◌ (digit_char d) out) ≡ String.◌∷◌ (digit_char d) part ∷ parts
unfolding split_spaces digit_char
digit_char-split zero out part parts h e = rw e refl
digit_char-split (suc zero) out part parts h e = rw e refl
digit_char-split (suc (suc zero)) out part parts h e = rw e refl
digit_char-split (suc (suc (suc zero))) out part parts h e = rw e refl
digit_char-split (suc (suc (suc (suc zero)))) out part parts h e = rw e refl
digit_char-split (suc (suc (suc (suc (suc zero))))) out part parts h e = rw e refl
digit_char-split (suc (suc (suc (suc (suc (suc zero)))))) out part parts h e = rw e refl
digit_char-split (suc (suc (suc (suc (suc (suc (suc zero))))))) out part parts h e = rw e refl
digit_char-split (suc (suc (suc (suc (suc (suc (suc (suc zero)))))))) out part parts h e = rw e refl
digit_char-split (suc (suc (suc (suc (suc (suc (suc (suc (suc zero))))))))) out part parts h e =
    rw e refl
digit_char-split (suc (suc (suc (suc (suc (suc (suc (suc (suc (suc n)))))))))) out part parts h e =
    absurd (omega arith)

digits-split :
    (fuel n : ℕ) (out part : String) (parts : List String)
    → n < fuel
    → split_spaces out ≡ part ∷ parts
    → split_spaces (digits fuel n out) ≡ digits fuel n part ∷ parts
unfolding digits
digits-split zero n out part parts h e = absurd (omega arith)
digits-split (suc fuel) n out part parts h e = elim (Bool-cases (ltb n 10)) [
  | inl small ↦ rw small (digit_char-split n out part parts (ground arith) e)
  | inr large ↦ rw large (
      digits-split fuel (n / 10) (String.◌∷◌ (digit_char (n % 10)) out)
        (String.◌∷◌ (digit_char (n % 10)) part) parts (ground arith)
        (digit_char-split (n % 10) out part parts (omega arith) e))
]

-- An integer that is printed in front of a text is the start of its first part.
pub split-print :
    (z : ℤ) (out part : String) (parts : List String)
    → split_spaces out ≡ part ∷ parts
    → split_spaces (print z out) ≡ print z part ∷ parts
unfolding print
split-print (pos n) out part parts e = digits-split (suc n) n out part parts (omega arith) e
split-print (negsuc n) out part parts e =
    unfold split_spaces in
    rw (digits-split (suc (suc n)) (suc n) out part parts (omega arith) e) refl

-- What `%d` prints of an integer in the range of a type, ParseInt reads back.
pub parse_int-decimalℤ :
    (most least : ℕ) (z : ℤ)
    → pos_part z ≤ most
    → neg_part z ≤ least
    → parse_int most least (decimalℤ z) ≡ some z
unfolding decimalℤ print decimal
parse_int-decimalℤ most least (pos n) hm hl =
    parse-start most least (decimal n) (unfold decimal in digits-IsStart (suc n) n "" (omega arith))
    ∙ rw (read-decimal n) (ground arith)
parse_int-decimalℤ most least (negsuc n) hm hl =
    unfold parse_int in rw (read-decimal (suc n)) (ground arith)
