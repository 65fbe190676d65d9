-- ===== src/Gpu/Sysfs/Reading.antt =====
-- internal/gpu/sysfs.go: one card's identity and counters, and why they cannot be read.
use Prim.Native.Char.{code}
use Prim.Native.String.{len}
use gpu_bouncer.Base.{
  ℕ, suc, ◌*◌, ◌/◌, String, ◌==◌, Bool, false, not, ◌&&◌, ◌||◌, Option, none, some, List, [], ◌∷◌,
  leb, eqb, if◌then◌else◌, Result, done, failed, append_text,
}
use gpu_bouncer.Base.Int.{pos}
use gpu_bouncer.Base.Cutting.{trim_text, cut_at}
use gpu_bouncer.Config.Unit.{all_codes}
use gpu_bouncer.Gpu.{Device, no_device, vendor_name}
use gpu_bouncer.Gpu.Sysfs.{
  Files, SysfsCard, SysfsSource, NumberFault, invalid_syntax, out_of_range, parse_uint, path_join,
}

abbrev is_hex : ℕ → Bool
is_hex c = (leb b'0' c && leb c b'9') || (leb b'a' c && leb c b'f') || (leb b'A' c && leb c b'F')

abbrev two_hex : String → Bool
two_hex s = eqb (len s) 2 && all_codes is_hex s

abbrev slot_and_function : Option (String × String) → Bool
slot_and_function none = false
slot_and_function (some (slot, function)) =
    two_hex slot && eqb (len function) 1 && all_codes is_hex function

abbrev bus_and_rest : Option (String × String) → Bool
bus_and_rest none = false
bus_and_rest (some (bus, rest)) = two_hex bus && slot_and_function (cut_at b'.' rest)

-- `pciAddressRE`
unfoldable pub is_pci_address : String → Bool
is_pci_address s = elim (cut_at b':' s) [
  | none ↦ false
  | some (domain, rest) ↦
      leb 4 (len domain) && all_codes is_hex domain && bus_and_rest (cut_at b':' rest)
]

abbrev has_slash : String → Bool
has_slash String.[] = false
has_slash (String.◌∷◌ c s) = eqb (code c) b'/' || has_slash s

-- `filepath.Base` of a path that does not end in a slash.
unfoldable pub base_name : String → String
base_name String.[] = String.[]
base_name (String.◌∷◌ c s) =
    let rest = base_name s in
    if has_slash s then rest else if eqb (code c) b'/' then s else String.◌∷◌ c s

abbrev address_of : Option String → String
address_of none = ""
address_of (some resolved) = if is_pci_address (base_name resolved) then base_name resolved else ""

abbrev pub nvidia : String
nvidia = "0x10de"

-- `unreadableReason`: what it says depends on the vendor and on why NVML was not used.
unfoldable pub unreadable_reason : String → Option String → Bool → String
unreadable_reason vendor nvml_err built_in =
    if not (vendor == nvidia)
    then append_text "sysfs exposes no mem_info_vram_total for this card (vendor "
        (append_text vendor "), so its VRAM cannot be read")
    else if not built_in
    then "this build has no NVML support (built without cgo), and sysfs exposes no VRAM counters for an NVIDIA card: reading it needs a gpu-bouncer build with cgo and the NVIDIA driver, see INSTALL.md"
    else elim nvml_err [
      | some e ↦
          append_text e
            "; sysfs exposes no VRAM counters for an NVIDIA card, and NVML, which this build has, could not be opened: check that libnvidia-ml.so.1 from the NVIDIA driver is installed and loadable by this process, see INSTALL.md"
      | none ↦
          "sysfs exposes no VRAM counters for an NVIDIA card: reading it needs NVML, which needs a gpu-bouncer build with cgo and the NVIDIA driver, see INSTALL.md"
    ]

-- `strings.TrimPrefix(s, "0x")`
abbrev trim_0x : String → String
trim_0x (String.◌∷◌ a (String.◌∷◌ b s)) =
    if eqb (code a) b'0' && eqb (code b) b'x' then s else String.◌∷◌ a (String.◌∷◌ b s)
trim_0x s = s

abbrev label_of : Device → String → String
label_of dev device =
    if not (vendor_name dev == "") && not (device == "")
    then append_text (vendor_name dev) (append_text " device " device)
    else if not (dev.vendor == "") && not (device == "")
    then append_text "PCI " (append_text (trim_0x dev.vendor) (append_text ":" (trim_0x device)))
    else "unknown GPU"

abbrev trimmed : Result String String → String
trimmed (failed e) = ""
trimmed (done data_) = trim_text data_

abbrev number_fault_text : NumberFault → String
number_fault_text invalid_syntax = "invalid syntax"
number_fault_text out_of_range = "value out of range"

-- A reading that failed after the card's place was fixed.
abbrev pub fails : String → Device → Device
fails reason dev = record dev { unreadable = reason }

abbrev pub bytes_per_mib : ℕ
bytes_per_mib = 1024 * 1024

module _ (fs : Files) where
  unfoldable pub sysfs_bus_id : String → String
  sysfs_bus_id device_path = address_of (fs.eval_symlinks device_path)

  -- `sysfsCardName`
  unfoldable pub sysfs_card_name : String → Device → String
  sysfs_card_name device_path dev =
      let product = trimmed (fs.read_file (path_join device_path "product_name")) in
      if not (product == "")
      then product
      else label_of dev (trimmed (fs.read_file (path_join device_path "device")))

  abbrev not_a_count : String → String → NumberFault → String
  not_a_count path text e = append_text "read " (
      append_text path (
        append_text ": " (
          append_text (fs.quote text) (
            append_text " is not a byte count: strconv.ParseUint: parsing "
              (append_text (fs.quote text) (append_text ": " (number_fault_text e)))))))

  abbrev counted : String → String → Result NumberFault ℕ → Result String ℕ
  counted path text (done n) = done n
  counted path text (failed e) = failed (not_a_count path text e)

  -- `readUintFile`
  unfoldable pub read_uint_file : String → Result String ℕ
  read_uint_file path = elim (fs.read_file path) [
    | failed e ↦ failed (append_text "read " (append_text path (append_text ": " e)))
    | done data_ ↦ counted path (trim_text data_) (parse_uint (trim_text data_))
  ]

  abbrev pub with_used : ℕ → Result String ℕ → Device → Device
  with_used total (failed e) dev = fails e dev
  with_used total (done used) dev = record dev {
    total_mib = total / bytes_per_mib;
    used_mib = used / bytes_per_mib;
  }

  abbrev pub with_total : String → Result String ℕ → Device → Device
  with_total path (failed e) dev = fails e dev
  with_total path (done total) dev =
      with_used total (read_uint_file (path_join path "mem_info_vram_used")) dev

  abbrev pub with_counters : Option String → Bool → String → Device → Device
  with_counters nvml_err built_in path dev = elim (fs.stat (path_join path "mem_info_vram_total")) [
    | failed e ↦ fails (unreadable_reason dev.vendor nvml_err built_in) dev
    | done is_dir ↦ with_total path (read_uint_file (path_join path "mem_info_vram_total")) dev
  ]

  abbrev pub named : String → String → Device → Device
  named path vendor dev = record dev {
    vendor = vendor;
    name = sysfs_card_name path (record dev { vendor = vendor });
  }

  abbrev pub with_vendor : Option String → Bool → String → Result String String → Device → Device
  with_vendor nvml_err built_in path (failed e) dev =
      fails (append_text "the card's vendor file cannot be read: " e) dev
  with_vendor nvml_err built_in path (done vendor) dev =
      with_counters nvml_err built_in path (named path (trim_text vendor) dev)

  abbrev pub blank : ℕ → String → Device
  blank index path = record no_device {
    index = pos index;
    bus_id = sysfs_bus_id path;
    name = "unknown GPU";
  }

  abbrev pub read_with : Option String → Option String → Bool → ℕ → String → Device
  read_with (some e) nvml_err built_in index path =
      fails (append_text "the card's device directory cannot be read: " e) (blank index path)
  read_with none nvml_err built_in index path =
      with_vendor nvml_err built_in path (fs.read_file (path_join path "vendor")) (blank index path)

  -- `readCard`: whatever fails, the device keeps its place. `built_in` is `nvmlBuiltIn`.
  unfoldable pub read_card : Option String → Bool → ℕ → SysfsCard → Device
  read_card nvml_err built_in index c = read_with c.vendor_err nvml_err built_in index c.device_path

  unfoldable pub read_cards : Option String → Bool → ℕ → List SysfsCard → List Device
  read_cards nvml_err built_in index [] = []
  read_cards nvml_err built_in index (c ∷ cs) =
      read_card nvml_err built_in index c ∷ read_cards nvml_err built_in (suc index) cs

  -- `Devices`, where the context is not done.
  unfoldable pub devices : Bool → SysfsSource → List Device
  devices built_in s = read_cards s.nvml_err built_in 0 s.cards
