-- ===== src/Config/Unit.antt =====
-- internal/config/config.go: the names that a service and a systemd unit may have.
use gpu_bouncer.Base.{
  ℕ, String, ◌==◌, Bool, true, false, not, ◌&&◌, ◌||◌, Option, none, some, List, [], ◌∷◌, ltb, leb,
  eqb, if◌then◌else◌,
}
use Prim.Native.Char.{code}
use Prim.Native.String.{len}

-- The classes of the two regular expressions, and the strings over a class.
abbrev pub is_alphanumeric : ℕ → Bool
is_alphanumeric c =
    (leb b'0' c && leb c b'9') || (leb b'A' c && leb c b'Z') || (leb b'a' c && leb c b'z')

abbrev pub in_name : ℕ → Bool
in_name c = is_alphanumeric c || eqb c b'_' || eqb c b'.' || eqb c b'-'

abbrev pub in_unit_name : ℕ → Bool
in_unit_name c = in_name c || eqb c b':' || eqb c 92 || eqb c b'@'

abbrev pub all_codes : (ℕ → Bool) → String → Bool
all_codes p String.[] = true
all_codes p (String.◌∷◌ c s) = p (code c) && all_codes p s

-- A letter or a digit, and then the class.
abbrev pub matches : (ℕ → Bool) → String → Bool
matches p String.[] = false
matches p (String.◌∷◌ c s) = is_alphanumeric (code c) && all_codes p s

-- `strings.HasSuffix`, and what `strings.TrimSuffix` leaves where there is that suffix.
abbrev pub has_suffix : String → String → Bool
has_suffix String.[] suffix = suffix == ""
has_suffix (String.◌∷◌ c s) suffix =
    let rest = has_suffix s suffix in String.◌∷◌ c s == suffix || rest

abbrev pub trim_suffix : String → String → String
trim_suffix String.[] suffix = String.[]
trim_suffix (String.◌∷◌ c s) suffix =
    let rest = trim_suffix s suffix in
    if String.◌∷◌ c s == suffix then String.[] else String.◌∷◌ c rest

abbrev pub unit_types : List String
unit_types =
    ".service" ∷ ".socket" ∷ ".device" ∷ ".mount" ∷ ".automount" ∷ ".swap" ∷ ".target" ∷ ".path"
    ∷ ".timer" ∷ ".slice" ∷ ".scope" ∷ []

abbrev pub max_unit_name : ℕ
max_unit_name = 255

pub data UnitFault : Type 0 where
  too_long : (bytes : ℕ) → UnitFault
  no_unit_type : UnitFault
  bad_unit_name : (suffix : String) → UnitFault

-- The loop over the types: the first that the unit ends in.
abbrev pub type_of : String → List String → Option String
type_of unit [] = none
type_of unit (known ∷ rest) =
    if has_suffix unit known && ltb (len known) (len unit) then some known else type_of unit rest

abbrev pub name_fault : String → Option String → Option UnitFault
name_fault unit none = some no_unit_type
name_fault unit (some suffix) =
    if not (matches in_unit_name (trim_suffix unit suffix))
    then some (bad_unit_name suffix)
    else none

-- `validateUnit`: none where the unit is accepted.
unfoldable pub validate_unit : String → Option UnitFault
validate_unit unit =
    if ltb max_unit_name (len unit)
    then some (too_long (len unit))
    else name_fault unit (type_of unit unit_types)
