-- ===== src/Common/Texts.antt =====
-- Texts: concatenation, code points, and the two models of Go's maps with text keys: an association
-- list where the program looks at the whole map, a function where it only reads and writes keys.
use Prim.Native.Nat.{ℕ}
use Prim.Native.Char.{code}
use Prim.Native.String
use Prim.Native.String.{String}
use mathlib.Core.Path.{◌≡◌}
use mathlib.Core.Bool.{Bool, false, ◌||◌}
use mathlib.Core.Logic.{◌≢◌, inl, inr}
use text.Mathlib.TextPositions.{eq_refl}
use mathlib.Core.Option.{Option, none, some}
use mathlib.Core.List.{List, [], ◌∷◌}
use text.Mathlib.Text.{◌==◌}
use text.Mathlib.TextEquality.{eq_iff}
use gradconnect_api.Common.Tests.{if◌then◌else◌, Bool-cases}

infixr 65 ◌+++◌
abbrev pub ◌+++◌ : String → String → String
s +++ t = String.◌++◌ s t

-- The code points of a text.
abbrev pub codes : String → List ℕ
codes (String.◌∷◌ first rest) = code first ∷ codes rest
codes String.[] = []

-- `slices.Contains`
unfoldable pub contains : List String → String → Bool
contains [] s = false
contains (x ∷ xs) s = x == s || contains xs s

module _ {ℓ} {V : Type ℓ} where
  -- `m[k]` with its presence flag. A write is an entry in front.
  unfoldable pub lookup : String → List (String × V) → Option V
  lookup key [] = none
  lookup key (entry ∷ rest) = if entry.0 == key then some entry.1 else lookup key rest

  -- `m[k] = v` and `delete(m, k)` on a map that is read by key only
  abbrev pub assign : String → V → (String → Option V) → String → Option V
  assign k v m j = if k == j then some v else m j

  abbrev pub remove : String → (String → Option V) → String → Option V
  remove k m j = if k == j then none else m j

pub eq-eq-false : (s t : String) → s ≢ t → (s == t) ≡ false
eq-eq-false s t apart = elim (Bool-cases (s == t)) [
  | inl e ↦ absurd (apart ((eq_iff s t).0 e))
  | inr e ↦ e
]

pub ne_of-eq-false : (s t : String) → (s == t) ≡ false → s ≢ t
ne_of-eq-false s t e same = cc (e, same, eq_refl t)
