-- ===== src/Base/Cutting.antt =====
-- Texts taken apart: `strings.TrimSpace`, `strings.Split` at line ends and `strings.Cut`.
use Prim.Native.Nat.{ℕ}
use Prim.Native.Char.{code}
use Prim.Native.String.{String}
use mathlib.Core.Bool.{Bool, true, false, ◌&&◌, ◌||◌}
use mathlib.Core.Option.{Option, none, some}
use mathlib.Core.List.{List, [], ◌∷◌}
use gpu_bouncer.Base.Tests.{leb, eqb, if◌then◌else◌}

-- `unicode.IsSpace`
abbrev pub is_space : ℕ → Bool
is_space c =
    (leb 9 c && leb c 13)
    || eqb c 32
    || eqb c 133
    || eqb c 160
    || eqb c 5760
    || (leb 8192 c && leb c 8202)
    || eqb c 8232
    || eqb c 8233
    || eqb c 8239
    || eqb c 8287
    || eqb c 12288

unfoldable pub trim_left : String → String
trim_left String.[] = String.[]
trim_left (String.◌∷◌ c s) =
    let rest = trim_left s in if is_space (code c) then rest else String.◌∷◌ c s

abbrev pub is_empty : String → Bool
is_empty String.[] = true
is_empty (String.◌∷◌ c s) = false

unfoldable pub trim_right : String → String
trim_right String.[] = String.[]
trim_right (String.◌∷◌ c s) =
    let rest = trim_right s in
    if is_empty rest && is_space (code c) then String.[] else String.◌∷◌ c rest

unfoldable pub trim_text : String → String
trim_text s = trim_right (trim_left s)

abbrev pub newline : ℕ
newline = 10

abbrev pub at_front : List String → (String → String) → List String
at_front [] f = f String.[] ∷ []
at_front (l ∷ ls) f = f l ∷ ls

unfoldable pub split_lines : String → List String
split_lines String.[] = String.[] ∷ []
split_lines (String.◌∷◌ c s) =
    let rest = split_lines s in
    if eqb (code c) newline then String.[] ∷ rest else at_front rest (String.◌∷◌ c)

-- `strings.Split(text, ", ")`
unfoldable pub split_list : String → List String
split_list String.[] = "" ∷ []
split_list (String.◌∷◌ c String.[]) = String.◌∷◌ c String.[] ∷ []
split_list (String.◌∷◌ c (String.◌∷◌ d s)) = elim (eqb (code c) 44 && eqb (code d) 32) [
  | true ↦ "" ∷ split_list s
  | false ↦ at_front (split_list (String.◌∷◌ d s)) (λ t. String.◌∷◌ c t)
]

abbrev pub in_first : (String → String) → Option (String × String) → Option (String × String)
in_first f none = none
in_first f (some (k, v)) = some (f k, v)

-- At the first code: what stands before it and what after, or none.
unfoldable pub cut_at : ℕ → String → Option (String × String)
cut_at sep String.[] = none
cut_at sep (String.◌∷◌ c s) =
    let rest = cut_at sep s in
    if eqb (code c) sep then some (String.[], s) else in_first (String.◌∷◌ c) rest
