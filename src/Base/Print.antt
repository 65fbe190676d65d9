-- ===== src/Base/Print.antt =====
-- Texts built from parts: concatenation, `strings.Join` and the digits of a number.
use Prim.Native.Nat.{ℕ, zero, suc, ◌/◌, ◌%◌}
use Prim.Native.String.{String, ◌++◌ as append_string}
use mathlib.Core.Path.{◌≡◌, refl}
use mathlib.Core.List.{List, [], ◌∷◌}
use gpu_bouncer.Base.Tests.{eqb, if◌then◌else◌}

abbrev pub append_text : String → String → String
append_text s t = append_string s t

-- `strings.Join(texts, ", ")`
unfoldable pub join : List String → String
join [] = ""
join (s ∷ []) = s
join (s ∷ t ∷ ts) = append_text s (append_text ", " (join (t ∷ ts)))

pub join_nil : join [] ≡ ""
unfolding join
join_nil = refl

abbrev digit : ℕ → String
digit d =
    if eqb d 0
    then "0"
    else if eqb d 1
    then "1"
    else if eqb d 2
    then "2"
    else if eqb d 3
    then "3"
    else if eqb d 4
    then "4"
    else if eqb d 5
    then "5"
    else if eqb d 6
    then "6"
    else if eqb d 7
    then "7"
    else if eqb d 8
    then "8"
    else "9"

unfoldable pub digits : ℕ → ℕ → String
digits zero n = ""
digits (suc places) n =
    let more = digits places (n / 10) in
    if eqb (n / 10) 0 then digit (n % 10) else append_text more (digit (n % 10))

-- `%d`: a 64-bit number has at most 20 digits.
pub decimal : ℕ → String
decimal n = digits 20 n
