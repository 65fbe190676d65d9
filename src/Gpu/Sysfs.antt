-- ===== src/Gpu/Sysfs.antt =====
-- internal/gpu/sysfs.go: the DRM cards that the kernel lists, and the reading of each one.
-- The file system and `strconv.Quote` are parameters: `Files` answers each call, and an open and a
-- reading see one state of it. The order of directory entries of equal number is the one listed.
pub mod Reading
pub mod Real
pub mod Cards
use gpu_bouncer.Base.{
  ℕ, ◌+◌, ◌-◌, ◌*◌, ◌/◌, ◌^◌, String, ◌==◌, Bool, true, false, not, ◌&&◌, ◌||◌, Option, none, some,
  List, [], ◌∷◌, leb, ltb, eqb, if◌then◌else◌, Result, done, failed, append_text,
}
use Prim.Native.Char.{code}
use gpu_bouncer.Base.Int.{ℤ, pos, negsuc, ltb_ℤ}
use gpu_bouncer.Base.Sort.{sort_stable}
use gpu_bouncer.Base.Cutting.{trim_text, is_empty}

pub data FileFault : Type 0 where
  not_exist : (text : String) → FileFault
  other_fault : (text : String) → FileFault

abbrev pub fault_text : FileFault → String
fault_text (not_exist text) = text
fault_text (other_fault text) = text

-- `stat` says whether the path is a directory.
pub record Files : Type 0 where
  pub lstat : String → Option FileFault
  pub stat : String → Result FileFault Bool
  pub read_dir : String → Result String (List String)
  pub read_file : String → Result String String
  pub eval_symlinks : String → Option String
  pub quote : String → String

-- `vendor_err` is the text of the error, if there is one.
pub record SysfsCard : Type 0 where
  pub num : ℤ
  pub device_path : String
  pub vendor_err : Option String

pub record SysfsSource : Type 0 where
  pub root : String
  pub cards : List SysfsCard
  pub nvml_err : Option String

pub data CardClass : Type 0 where
  is_virtual : CardClass
  is_real : (vendor_err : Option String) → CardClass

abbrev is_digit : ℕ → Bool
is_digit c = leb b'0' c && leb c b'9'

-- A decimal of at most 64 bits: the error `strconv.ParseUint` gives, or the value.
pub data NumberFault : Type 0 where
  invalid_syntax out_of_range : NumberFault

unfoldable pub parse_digits : String → ℕ → Result NumberFault ℕ
parse_digits String.[] acc = done acc
parse_digits (String.◌∷◌ c s) acc =
    let rest = parse_digits s (acc * 10 + (code c - b'0')) in
    if not (is_digit (code c))
    then failed invalid_syntax
    else if leb (2 ^ 64) (acc * 10 + (code c - b'0'))
    then failed out_of_range
    else rest

unfoldable pub parse_uint : String → Result NumberFault ℕ
parse_uint s = if is_empty s then failed invalid_syntax else parse_digits s 0

-- `strconv.Atoi`: a sign, and a value of an `int64`.
abbrev as_positive : Result NumberFault ℕ → Option ℤ
as_positive (failed e) = none
as_positive (done n) = if ltb n (2 ^ 63) then some (pos n) else none

abbrev as_negative : Result NumberFault ℕ → Option ℤ
as_negative (failed e) = none
as_negative (done n) =
    if eqb n 0 then some (pos 0) else if leb n (2 ^ 63) then some (negsuc (n - 1)) else none

unfoldable pub atoi : String → Option ℤ
atoi String.[] = none
atoi (String.◌∷◌ c s) =
    if eqb (code c) b'-'
    then as_negative (parse_uint s)
    else if eqb (code c) b'+'
    then as_positive (parse_uint s)
    else as_positive (parse_uint (String.◌∷◌ c s))

abbrev pub path_join : String → String → String
path_join dir name = append_text dir (append_text "/" name)

-- `strings.CutPrefix(name, "card")`
abbrev pub cut_card : String → Option String
cut_card (String.◌∷◌ c (String.◌∷◌ a (String.◌∷◌ r (String.◌∷◌ d s)))) =
    if eqb (code c) b'c' && eqb (code a) b'a' && eqb (code r) b'r' && eqb (code d) b'd'
    then some s
    else none
cut_card _ = none

abbrev pub card_number : Option String → Option ℤ
card_number none = none
card_number (some part) = atoi part

abbrev pub card_of : ℤ → String → CardClass → Option SysfsCard
card_of num path is_virtual = none
card_of num path (is_real e) = some (record { num = num; device_path = path; vendor_err = e })

unfoldable pub by_number : SysfsCard → SysfsCard → Bool
by_number a b = ltb_ℤ a.num b.num

pub data SysfsFault : Type 0 where
  root_unread : (root cause : String) → SysfsFault
  no_cards : SysfsFault

abbrev pub opened : String → List SysfsCard → Result SysfsFault SysfsSource
opened root [] = failed no_cards
opened root (c ∷ cs) =
    done (record { root = root; cards = sort_stable by_number (c ∷ cs); nvml_err = none })

module _ (fs : Files) where
  abbrev pub class_of_vendor : Result FileFault Bool → CardClass
  class_of_vendor (done is_dir) = is_real none
  class_of_vendor (failed (not_exist text)) = is_virtual
  class_of_vendor (failed (other_fault text)) = is_real (some text)

  abbrev pub class_of_device : String → Result FileFault Bool → CardClass
  class_of_device path (failed e) = is_real (some (fault_text e))
  class_of_device path (done is_dir) =
      if not is_dir
      then is_real (some (append_text path " is not a directory"))
      else class_of_vendor (fs.stat (path_join path "vendor"))

  -- `classifyCard`: a card that might be real is never virtual.
  unfoldable pub classify_card : String → CardClass
  classify_card path = elim (fs.lstat path) [
    | some (not_exist text) ↦ is_virtual
    | some (other_fault text) ↦ is_real (some text)
    | none ↦ class_of_device path (fs.stat path)
  ]

  -- One directory entry: a card, or none for another name or a virtual card.
  unfoldable pub entry_card : String → String → Option SysfsCard
  entry_card root name = elim (card_number (cut_card name)) [
    | none ↦ none
    | some num ↦
        card_of num (path_join (path_join root name) "device")
          (classify_card (path_join (path_join root name) "device"))
  ]

  unfoldable pub found_cards : String → List String → List SysfsCard
  found_cards root [] = []
  found_cards root (name ∷ names) =
      let rest = found_cards root names in
      elim (entry_card root name) [ none ↦ rest | some card ↦ card ∷ rest ]

  unfoldable pub open_sysfs : String → Result SysfsFault SysfsSource
  open_sysfs root = elim (fs.read_dir root) [
    | failed e ↦ failed (root_unread root e)
    | done names ↦ opened root (found_cards root names)
  ]
