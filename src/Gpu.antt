-- ===== src/Gpu.antt =====
-- internal/gpu/gpu.go: what a GPU source reports, and the choice of one device by its index.
pub mod Sysfs
pub mod Nvml
use gpu_bouncer.Base.{
  ℕ, ◌+◌, ◌-◌, ◌≤◌, ◌≡◌, String, ◌==◌, Option, none, some, List, [], ◌∷◌, arith, ltb, if◌then◌else◌,
}
use gpu_bouncer.Base.Int.{ℤ, eqb_ℤ}

-- `uint64` figures are numbers. `unreadable` says why the memory could not be read, if it is not empty.
pub record Device : Type 0 where
  pub index : ℤ
  pub uuid : String
  pub name : String
  pub bus_id : String
  pub vendor : String
  pub total_mib : ℕ
  pub used_mib : ℕ
  pub unreadable : String

-- The zero value of the struct.
abbrev pub no_device : Device
no_device = record {
  index = ℤ.pos 0;
  uuid = "";
  name = "";
  bus_id = "";
  vendor = "";
  total_mib = 0;
  used_mib = 0;
  unreadable = "";
}

unfoldable pub free_mib : Device → ℕ
free_mib d = if ltb d.total_mib d.used_mib then 0 else d.total_mib - d.used_mib

pub vendor_name : Device → String
vendor_name d =
    if d.vendor == "0x10de"
    then "NVIDIA"
    else if d.vendor == "0x1002"
    then "AMD"
    else if d.vendor == "0x8086"
    then "Intel"
    else ""

unfoldable pub device_by_index : List Device → ℤ → Option Device
device_by_index [] index = none
device_by_index (d ∷ ds) index = if eqb_ℤ d.index index then some d else device_by_index ds index

-- The free figure never exceeds the card, and with the used figure it makes up the total whenever
-- the reading is consistent.
free_mib_bounds :
    (d : Device)
    → (free_mib d ≤ d.total_mib)
      × (d.used_mib ≤ d.total_mib → free_mib d + d.used_mib ≡ d.total_mib)
unfolding free_mib
free_mib_bounds d = ground arith
