-- ===== src/Config/Bounds.antt =====
-- internal/config/config.go: the ranges of the numeric keys, checked on the raw values of a file.
pub mod Ranges
use gpu_bouncer.Base.{
  ℕ, ◌*◌, String, ◌==◌, Bool, true, false, not, ◌&&◌, Option, none, some, List, [], ◌∷◌,
  if◌then◌else◌,
}
use gpu_bouncer.Base.Int.{ℤ, pos, leb_ℤ, ltb_ℤ, eqb_ℤ}
use gpu_bouncer.Base.Dict.{Dict, lookup}
use gpu_bouncer.Config.Types.{second}

-- A value as the TOML decoder gives it.
pub data Raw : Type 0 where
  raw_int : ℤ → Raw
  raw_text : String → Raw
  raw_other : Raw

pub record Bound : Type 0 where
  pub table : String
  pub key : String
  pub duration : Bool
  pub min : ℤ
  pub max : ℤ
  pub signed : Bool

-- The texts of the refusals.
pub data BoundFault : Type 0 where
  not_a_duration not_positive below_min above_max negative_number below_number : BoundFault

abbrev pub min_poll_interval : ℕ
min_poll_interval = second

abbrev pub max_drain_timeout : ℕ
max_drain_timeout = 600 * second

abbrev pub max_service_timeout : ℕ
max_service_timeout = 3600 * second

abbrev pub at_least : String → String → Bool → ℕ → ℕ → Bound
at_least table key duration min max = record {
  table = table;
  key = key;
  duration = duration;
  min = pos min;
  max = pos max;
  signed = false;
}

abbrev pub numeric_bounds : List Bound
numeric_bounds =
    at_least "policy" "vram_floor_mib" false 0 0
    ∷ at_least "policy" "min_effect_mib" false 0 0
    ∷ at_least "policy" "gpu_index" false 0 0
    ∷ at_least "policy" "poll_interval" true min_poll_interval 0
    ∷ at_least "policy" "action_cooldown" true 1 0
    ∷ record (at_least "service" "priority" false 0 0) { signed = true }
    ∷ at_least "service" "timeout" true 1 max_service_timeout
    ∷ at_least "service" "drain_timeout" true 1 max_drain_timeout
    ∷ []

-- A duration that does not parse is left to the typed decode, and so is a number that is none.
abbrev pub duration_fault : Bound → Option ℤ → Option BoundFault
duration_fault b none = none
duration_fault b (some d) =
    if eqb_ℤ b.min (pos 1) && leb_ℤ d (pos 0)
    then some not_positive
    else if ltb_ℤ d b.min
    then some below_min
    else if ltb_ℤ (pos 0) b.max && ltb_ℤ b.max d
    then some above_max
    else none

abbrev pub number_fault : Bound → ℤ → Option BoundFault
number_fault b n =
    if ltb_ℤ n b.min
    then some (if eqb_ℤ b.min (pos 0) then negative_number else below_number)
    else none

-- `time.ParseDuration` is a parameter.
module _ (parse_duration : String → Option ℤ) where
  abbrev pub range_fault : Bound → Bool → Raw → Option BoundFault
  range_fault b true (raw_text text) = duration_fault b (parse_duration text)
  range_fault b true (raw_int n) = some not_a_duration
  range_fault b true raw_other = some not_a_duration
  range_fault b false (raw_int n) = number_fault b n
  range_fault b false (raw_text text) = none
  range_fault b false raw_other = none

  unfoldable pub check_bound : Bound → Raw → Option BoundFault
  check_bound b raw = if b.signed then none else range_fault b b.duration raw

  abbrev pub present_fault : Bound → Option Raw → Option BoundFault
  present_fault b none = none
  present_fault b (some raw) = check_bound b raw

  -- The loop over the bounds stops at the first fault.
  unfoldable pub check_bounds : List Bound → String → Dict Raw → Option BoundFault
  check_bounds [] table raw = none
  check_bounds (b ∷ bs) table raw =
      let rest = check_bounds bs table raw in
      if not (b.table == table)
      then rest
      else (elim (present_fault b (lookup b.key raw)) [ some f ↦ some f | none ↦ rest ])
