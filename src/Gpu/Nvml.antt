-- ===== src/Gpu/Nvml.antt =====
-- internal/gpu/nvml_cgo.go and the choice of a source in internal/gpu/gpu.go: what is read through
-- the NVIDIA library. The library is a parameter: `Nvml` answers each of its calls.
pub mod Processes
use Prim.Native.Char.{code}
use Prim.Native.String.{len}
use gpu_bouncer.Base.{
  ℕ, zero, suc, ◌+◌, ◌*◌, ◌/◌, String, ◌==◌, Bool, true, false, not, ◌&&◌, ◌||◌, Option, none, some,
  List, [], ◌∷◌, ◌++◌, ltb, eqb, if◌then◌else◌, Result, done, failed, append_text, decimal,
}
use gpu_bouncer.Base.Int.{ℤ, pos}
use gpu_bouncer.Base.Sort.{sort_stable}
use gpu_bouncer.Gpu.{Device, no_device}
use gpu_bouncer.Gpu.Sysfs.{Files, SysfsSource, SysfsFault, open_sysfs}
use gpu_bouncer.Gpu.Sysfs.Reading
use gpu_bouncer.Gpu.Sysfs.Reading.{bytes_per_mib}

-- `Process`
pub record Process : Type 0 where
  pub pid : ℕ
  pub used_mib : ℕ

-- A process as the library lists it, in bytes.
pub record ProcessInfo : Type 0 where
  pub pid : ℕ
  pub used_gpu_memory : ℕ

-- An answer that is not SUCCESS is its error string. `bus_id` and `vendor` are what the PCI info
-- gives, and the vendor is spelled as sysfs spells it.
pub record Nvml : Type 0 where
  pub init : Option String
  pub device_get_count : Result String ℕ
  pub handle : ℕ → Option String
  pub memory_info : ℕ → Result String (ℕ × ℕ)
  pub device_name : ℕ → Option String
  pub device_uuid : ℕ → Option String
  pub pci : ℕ → Option (String × String)
  pub compute_processes : ℕ → Result String (List ProcessInfo)
  pub graphics_processes : ℕ → Result String (List ProcessInfo)

pub data NvmlFault : Type 0 where
  init_failed : (cause : String) → NvmlFault
  count_failed : (cause : String) → NvmlFault
  no_nvml_devices : NvmlFault
  device_failed : (index : ℕ) (cause : String) → NvmlFault
  memory_failed : (index : ℕ) (cause : String) → NvmlFault
  compute_failed : (index : ℕ) (cause : String) → NvmlFault
  graphics_failed : (index : ℕ) (cause : String) → NvmlFault

abbrev or_empty : Option String → String
or_empty none = ""
or_empty (some s) = s

abbrev with_pci : Option (String × String) → Device → Device
with_pci none dev = dev
with_pci (some (bus_id, vendor)) dev = record dev { bus_id = bus_id; vendor = vendor }

-- `seen`: the larger of the figures of a process in the two lists.
unfoldable pub note_process : ProcessInfo → List Process → List Process
note_process info [] =
    record { pid = info.pid; used_mib = info.used_gpu_memory / bytes_per_mib } ∷ []
note_process info (p ∷ ps) =
    let rest = note_process info ps in
    if eqb p.pid info.pid
    then (if ltb p.used_mib (info.used_gpu_memory / bytes_per_mib)
        then record p { used_mib = info.used_gpu_memory / bytes_per_mib }
        else p)
      ∷ ps
    else p ∷ rest

unfoldable pub note_processes : List ProcessInfo → List Process → List Process
note_processes [] seen = seen
note_processes (info ∷ infos) seen = note_processes infos (note_process info seen)

-- The order of `sortProcesses`: the larger figure first, and then the smaller PID.
unfoldable pub listed_before : Process → Process → Bool
listed_before p q =
    if not (eqb p.used_mib q.used_mib) then ltb q.used_mib p.used_mib else ltb p.pid q.pid

abbrev pub merged : List ProcessInfo → List ProcessInfo → List Process
merged compute graphics = sort_stable listed_before (note_processes (compute ++ graphics) [])

module _ (nvml : Nvml) where
  -- `openNVML`
  unfoldable pub open_nvml : Option NvmlFault
  open_nvml = elim nvml.init [
    | some e ↦ some (init_failed e)
    | none ↦ elim nvml.device_get_count [
      | failed e ↦ some (count_failed e)
      | done count ↦ if eqb count 0 then some no_nvml_devices else none
    ]
  ]

  abbrev device_of : ℕ → ℕ × ℕ → Device
  device_of i (total, used) = with_pci (nvml.pci i) (record no_device {
    index = pos i;
    total_mib = total / bytes_per_mib;
    used_mib = used / bytes_per_mib;
    name = or_empty (nvml.device_name i);
    uuid = or_empty (nvml.device_uuid i);
  })

  abbrev with_device : Device → Result NvmlFault (List Device) → Result NvmlFault (List Device)
  with_device dev (failed e) = failed e
  with_device dev (done ds) = done (dev ∷ ds)

  -- The loop of `Devices`, for `n` devices from the i-th.
  unfoldable pub read_devices : ℕ → ℕ → Result NvmlFault (List Device)
  read_devices zero i = done []
  read_devices (suc n) i = elim (nvml.handle i) [
    | some e ↦ failed (device_failed i e)
    | none ↦ elim (nvml.memory_info i) [
      | failed e ↦ failed (memory_failed i e)
      | done mem ↦ with_device (device_of i mem) (read_devices n (suc i))
    ]
  ]

  unfoldable pub devices : Result NvmlFault (List Device)
  devices = elim nvml.device_get_count [
    | failed e ↦ failed (count_failed e)
    | done count ↦ read_devices count 0
  ]

  unfoldable pub processes : ℕ → Result NvmlFault (List Process)
  processes index = elim (nvml.handle index) [
    | some e ↦ failed (device_failed index e)
    | none ↦ elim (nvml.compute_processes index) [
      | failed e ↦ failed (compute_failed index e)
      | done compute ↦ elim (nvml.graphics_processes index) [
        | failed e ↦ failed (graphics_failed index e)
        | done graphics ↦ done (merged compute graphics)
      ]
    ]
  ]

-- `Source`
pub data Source : Type 0 where
  nvml_source : Source
  sysfs_source : SysfsSource → Source

pub data OpenFault : Type 0 where
  no_usable_source : (nvml : NvmlFault) (sysfs : SysfsFault) → OpenFault

-- `Open`: the failure of NVML is kept on the sysfs source, as a text.
unfoldable pub open_source : (NvmlFault → String) → Nvml → Files → Result OpenFault Source
open_source text nvml fs = elim (open_nvml nvml) [
  | none ↦ done nvml_source
  | some e ↦ elim (open_sysfs fs "/sys/class/drm") [
    | failed f ↦ failed (no_usable_source e f)
    | done s ↦ done (sysfs_source (record s { nvml_err = some (append_text "nvml: " (text e)) }))
  ]
]
