-- ===== src/Config/Files.antt =====
-- internal/config/config.go: one file of configuration laid over what the files before it set. The
-- decoder of TOML, time.ParseDuration and slices.Sort are parameters.
pub mod Over
pub mod Layered
use gpu_bouncer.Base.{
  ℕ, suc, String, ◌==◌, Bool, not, Option, none, some, List, [], ◌∷◌, if◌then◌else◌, Result, done,
  failed, get_elem?,
}
use gpu_bouncer.Base.Int.{ℤ}
use gpu_bouncer.Base.Dict.{Dict, lookup}
use gpu_bouncer.Adapter.Http.{Bytes}
use gpu_bouncer.Config.Types.{Service, Policy, Config}
use gpu_bouncer.Config.Bounds.{
  Raw, raw_int, raw_text, raw_other, BoundFault, numeric_bounds, check_bounds,
}
use gpu_bouncer.Config.Unit.{UnitFault, validate_unit}
use gpu_bouncer.Config.Validate.{contains}
use gpu_bouncer.Config.Merge.{
  Block, is_set, Merged, merged, block_has_no_name, defined_twice_in_file, merge_blocks,
}

-- A file decoded into a `Config`, with the keys that found no field.
pub record Layer : Type 0 where
  pub policy : Policy
  pub services : List Service
  pub undecoded : List String

-- A file decoded into a map: a table, an array of tables, an array of anything, or another value.
pub data RawTop : Type 0 where
  raw_table : Dict Raw → RawTop
  raw_tables : List (Dict Raw) → RawTop
  raw_list : List (Option (Dict Raw)) → RawTop
  raw_value : RawTop

-- What a message calls a block: the name that it sets, or its number.
pub data Label : Type 0 where
  block_number : ℕ → Label
  service_named : String → Label

pub data MergeFault : Type 0 where
  undecodable : (text : String) → MergeFault
  unknown_service_keys : Label → List String → MergeFault
  unknown_keys : List String → MergeFault
  policy_out_of_range : BoundFault → MergeFault
  service_out_of_range : Label → BoundFault → MergeFault
  service_unit : Label → UnitFault → MergeFault
  has_no_name : (number : ℕ) → MergeFault
  twice_in_file : (name : String) → MergeFault

abbrev pub service_keys : List String
service_keys =
    "name" ∷ "adapter" ∷ "endpoint" ∷ "unit" ∷ "user_unit" ∷ "priority" ∷ "allow_stop" ∷ "timeout"
    ∷ "drain_timeout" ∷ []

abbrev pub sub_keys : Option RawTop → Dict Raw
sub_keys (some (raw_table table)) = table
sub_keys _ = []

-- An array with an item that is no table has no blocks.
abbrev pub add_table : Option (Dict Raw) → Option (List (Dict Raw)) → Option (List (Dict Raw))
add_table (some t) (some ts) = some (t ∷ ts)
add_table _ _ = none

abbrev pub all_tables : List (Option (Dict Raw)) → Option (List (Dict Raw))
all_tables [] = some []
all_tables (item ∷ items) = add_table item (all_tables items)

abbrev or_empty : Option (List (Dict Raw)) → List (Dict Raw)
or_empty none = []
or_empty (some ts) = ts

abbrev pub service_blocks : Option RawTop → List (Dict Raw)
service_blocks (some (raw_tables tables)) = tables
service_blocks (some (raw_list items)) = or_empty (all_tables items)
service_blocks _ = []

abbrev block_label : ℕ → Option Service → Label
block_label i none = block_number (suc i)
block_label i (some svc) = if svc.name == "" then block_number (suc i) else service_named svc.name

abbrev pub label : List Service → ℕ → Label
label services i = block_label i (get_elem? services i)

-- The keys of a block that no field answers to.
unfoldable pub unknown_in : Dict Raw → List String
unknown_in [] = []
unknown_in ((key, raw) ∷ block) =
    let rest = unknown_in block in if contains service_keys key then rest else key ∷ rest

-- `slices.Compact`
unfoldable pub compact : List String → List String
compact [] = []
compact (a ∷ []) = a ∷ []
compact (a ∷ b ∷ more) = let rest = compact (b ∷ more) in if a == b then rest else a ∷ rest

abbrev pub or_next {ℓ} : {A : Type ℓ} → Option A → Option A → Option A
or_next (some f) next = some f
or_next none next = next

-- Each typed block with the keys that its raw block sets.
unfoldable pub pair_blocks : List Service → List (Dict Raw) → List Block
pair_blocks [] keys = []
pair_blocks (svc ∷ services) [] = (svc, []) ∷ pair_blocks services []
pair_blocks (svc ∷ services) (keys ∷ more) = (svc, keys) ∷ pair_blocks services more

-- A policy's keys that are set, over the policy before.
unfoldable pub merge_policy : Policy → Policy → Dict Raw → Policy
merge_policy dst src keys = record {
  vram_floor_mib = if is_set keys "vram_floor_mib" then src.vram_floor_mib else dst.vram_floor_mib;
  default_workload =
      if is_set keys "default_workload" then src.default_workload else dst.default_workload;
  reactive = if is_set keys "reactive" then src.reactive else dst.reactive;
  poll_interval = if is_set keys "poll_interval" then src.poll_interval else dst.poll_interval;
  gpu_index = if is_set keys "gpu_index" then src.gpu_index else dst.gpu_index;
  min_effect_mib = if is_set keys "min_effect_mib" then src.min_effect_mib else dst.min_effect_mib;
  action_cooldown =
      if is_set keys "action_cooldown" then src.action_cooldown else dst.action_cooldown;
}

abbrev pub with_merged : Config → Merged → Result MergeFault Config
with_merged cfg (merged services) = done (record cfg { services = services })
with_merged cfg (block_has_no_name number) = failed (has_no_name number)
with_merged cfg (defined_twice_in_file name) = failed (twice_in_file name)

-- The merge of a decoded file, once it has passed the checks.
unfoldable pub lay_over : Config → Layer → Dict RawTop → Result MergeFault Config
lay_over cfg layer raw =
    with_merged
      (record cfg {
        policy = merge_policy cfg.policy layer.policy (sub_keys (lookup "policy" raw));
      })
      (merge_blocks 0 [] (pair_blocks layer.services (service_blocks (lookup "service" raw)))
        cfg.services)

abbrev pub unless_fault : Option MergeFault → Result MergeFault Config → Result MergeFault Config
unless_fault (some f) result = failed f
unless_fault none result = result

module _ (sort : List String → List String) (parse_duration : String → Option ℤ) where
  abbrev pub unknown_fault : Label → List String → Option MergeFault
  unknown_fault at [] = none
  unknown_fault at (key ∷ keys) = some (unknown_service_keys at (sort (key ∷ keys)))

  -- The first block with a key that is unknown.
  unfoldable pub unknown_faults : List Service → ℕ → List (Dict Raw) → Option MergeFault
  unknown_faults services i [] = none
  unknown_faults services i (block ∷ blocks) =
      or_next (unknown_fault (label services i) (unknown_in block))
        (unknown_faults services (suc i) blocks)

  abbrev pub undecoded_fault : List String → Option MergeFault
  undecoded_fault [] = none
  undecoded_fault (key ∷ keys) = some (unknown_keys (compact (sort (key ∷ keys))))

  abbrev pub wrap_fault {ℓ} : {A : Type ℓ} → (A → MergeFault) → Option A → Option MergeFault
  wrap_fault f none = none
  wrap_fault f (some a) = some (f a)

  abbrev pub raw_unit_fault : Option Raw → Option UnitFault
  raw_unit_fault none = none
  raw_unit_fault (some (raw_text unit)) = validate_unit unit
  raw_unit_fault (some (raw_int n)) = none
  raw_unit_fault (some raw_other) = none

  -- The raw values of each block, in range and with a unit that is legal.
  unfoldable pub block_faults : List Service → ℕ → List (Dict Raw) → Option MergeFault
  block_faults services i [] = none
  block_faults services i (block ∷ blocks) =
      or_next
        (wrap_fault (service_out_of_range (label services i))
          (check_bounds parse_duration numeric_bounds "service" block))
        (or_next
          (wrap_fault (service_unit (label services i)) (raw_unit_fault (lookup "unit" block)))
          (block_faults services (suc i) blocks))

  -- The checks of a decoded file, in the order of the source.
  unfoldable pub layer_fault : Layer → Dict RawTop → Option MergeFault
  layer_fault layer raw =
      let blocks = service_blocks (lookup "service" raw) in
      or_next (unknown_faults layer.services 0 blocks) (
        or_next (undecoded_fault layer.undecoded) (
          or_next
            (wrap_fault policy_out_of_range (
              check_bounds parse_duration numeric_bounds "policy" (sub_keys (lookup "policy" raw))))
            (block_faults layer.services 0 blocks)))

  abbrev pub merge_decoded :
      Config → Result String Layer → Result String (Dict RawTop) → Result MergeFault Config
  merge_decoded cfg (failed text) raw = failed (undecodable text)
  merge_decoded cfg (done layer) (failed text) = failed (undecodable text)
  merge_decoded cfg (done layer) (done raw) =
      unless_fault (layer_fault layer raw) (lay_over cfg layer raw)

  module _ (decode : Bytes → Result String Layer)
      (decode_raw : Bytes → Result String (Dict RawTop)) where
    unfoldable pub merge_file : Config → Bytes → Result MergeFault Config
    merge_file cfg data_read = merge_decoded cfg (decode data_read) (decode_raw data_read)
