-- ===== src/Base/Text.antt =====
-- Texts: their order by code points, which for UTF-8 is Go's order by bytes.
use Prim.Native.Nat.{ℕ, Ordering, compare as compare_ℕ}
use Prim.Native.Char.{code}
use Prim.Native.String.{String, compare, then}
use Prim.Native.String.compare
use text.Mathlib.Text.{is_lt}
use text.Mathlib.TextEquality.{path_by_compare}
use text.Mathlib.TextPositions.{compare_refl}
use mathlib.Core.Path.{◌≡◌, sym, ◌∙◌}
use mathlib.Core.Logic.{◌≢◌, inl, inr}
use mathlib.Core.Bool.{Bool, true, false}
use native.Mathlib.Omega.{arith}
use gpu_bouncer.Base.Tests.{Bool-cases}

-- `a < b` of two Go strings.
pub str_lt : String → String → Bool
str_lt s t = is_lt (compare s t)

then_trans :
    (a b c : ℕ) (o p q : Ordering)
    → (o ≡ Ordering.lt → p ≡ Ordering.lt → q ≡ Ordering.lt)
    → then (compare_ℕ a b) o ≡ Ordering.lt
    → then (compare_ℕ b c) p ≡ Ordering.lt
    → then (compare_ℕ a c) q ≡ Ordering.lt
then_trans a b c o p q k h g = ground arith

-- Nothing comes before the empty text.
is_lt-compare-nil : (s : String) → compare s String.[] ≢ Ordering.lt
is_lt-compare-nil String.[] h = cc (compare.nil-nil)
is_lt-compare-nil (String.◌∷◌ c s) h = cc (compare.cons-nil c s)

then_swap :
    (a b : ℕ) (o p : Ordering)
    → (o ≡ Ordering.gt → p ≡ Ordering.lt)
    → then (compare_ℕ a b) o ≡ Ordering.gt
    → then (compare_ℕ b a) p ≡ Ordering.lt
then_swap a b o p k h = ground arith

compare_trans :
    (s t u : String)
    → compare s t ≡ Ordering.lt
    → compare t u ≡ Ordering.lt
    → compare s u ≡ Ordering.lt
compare_trans s String.[] u h g = absurd (is_lt-compare-nil s h)
compare_trans s (String.◌∷◌ d t) String.[] h g = cc (compare.cons-nil d t)
compare_trans String.[] (String.◌∷◌ d t) (String.◌∷◌ e u) h g = compare.nil-cons e u
compare_trans (String.◌∷◌ c s) (String.◌∷◌ d t) (String.◌∷◌ e u) h g =
    compare.cons-cons c e s u
    ∙ then_trans (code c) (code d) (code e) (compare s t) (compare t u) (compare s u)
        (compare_trans s t u) (sym (compare.cons-cons c d s t) ∙ h)
        (sym (compare.cons-cons d e t u) ∙ g)

compare_swap : (s t : String) → compare s t ≡ Ordering.gt → compare t s ≡ Ordering.lt
compare_swap String.[] String.[] h = cc (compare.nil-nil)
compare_swap String.[] (String.◌∷◌ d t) h = cc (compare.nil-cons d t)
compare_swap (String.◌∷◌ c s) String.[] h = compare.nil-cons c s
compare_swap (String.◌∷◌ c s) (String.◌∷◌ d t) h =
    compare.cons-cons d c t s
    ∙ then_swap (code c) (code d) (compare s t) (compare t s) (compare_swap s t)
        (sym (compare.cons-cons c d s t) ∙ h)

pub str_lt_irrefl : (s : String) → str_lt s s ≡ false
unfolding str_lt
str_lt_irrefl s = rw (compare_refl s)

pub str_lt_trans : (s t u : String) → str_lt s t ≡ true → str_lt t u ≡ true → str_lt s u ≡ true
unfolding str_lt
str_lt_trans s t u h g = ground (arith, compare_trans s t u)

-- The order is total: texts that are in neither order are one text.
pub str_lt_total : (s t : String) → str_lt s t ≡ false → str_lt t s ≡ false → s ≡ t
unfolding str_lt
str_lt_total s t h g = ground (arith, compare_swap s t, path_by_compare s t)

pub str_lt_asym : (s t : String) → str_lt s t ≡ true → str_lt t s ≡ false
str_lt_asym s t h = ground (arith, str_lt_trans s t s h, str_lt_irrefl s)

-- "Not before" is transitive too.
pub str_lt_neg_trans :
    (s t u : String) → str_lt t s ≡ false → str_lt u t ≡ false → str_lt u s ≡ false
str_lt_neg_trans s t u h g = elim (Bool-cases (str_lt s t)) [
  | inl e ↦ ground (arith, str_lt_trans u s t)
  | inr e ↦ rw (str_lt_total s t e h) g
]
