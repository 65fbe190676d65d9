-- ===== src/Gpu/Sysfs/Real.antt =====
-- internal/gpu/sysfs.go: which entries of the directory are cards that keep a place in the numbering.
use gpu_bouncer.Base.{
  ◌≡◌, refl, ap, ◌∙◌, arith, eqb, ◌&&◌, Bool-cases, ◌⊎◌, inl, inr, String, Bool, true, false,
  Option, none, some, List, [], ◌∷◌, Result, done, failed, Option-cases,
}
use gpu_bouncer.Gpu.Sysfs.{
  Files, FileFault, not_exist, other_fault, SysfsCard, CardClass, is_virtual, is_real, path_join,
  cut_card, card_number, atoi, class_of_vendor, class_of_device, classify_card, entry_card,
  found_cards,
}
use Prim.Native.Char.{Char, code}
use gpu_bouncer.Base.Int.{ℤ}

abbrev pub device_under : String → String → String
device_under root name = path_join (path_join root name) "device"

-- The name is "card", by the codes of its characters, and the text of a number.
abbrev pub IsCardName : String → ℤ → Type 0
IsCardName name num =
    (c a r d : Char) × (part : String) × (name
      ≡ String.◌∷◌ c (String.◌∷◌ a (String.◌∷◌ r (String.◌∷◌ d part))))
    × (code c ≡ 99)
    × (code a ≡ 97)
    × (code r ≡ 114)
    × (code d ≡ 100)
    × (atoi part ≡ some num)

card_number-IsCardName :
    (name : String) (num : ℤ) → card_number (cut_card name) ≡ some num → IsCardName name num
card_number-IsCardName String.[] num e = cc e
card_number-IsCardName (String.◌∷◌ c String.[]) num e = cc e
card_number-IsCardName (String.◌∷◌ c (String.◌∷◌ a String.[])) num e = cc e
card_number-IsCardName (String.◌∷◌ c (String.◌∷◌ a (String.◌∷◌ r String.[]))) num e = cc e
card_number-IsCardName (String.◌∷◌ c (String.◌∷◌ a (String.◌∷◌ r (String.◌∷◌ d part)))) num e =
    let spelt = eqb (code c) 99 && eqb (code a) 97 && eqb (code r) 114 && eqb (code d) 100 in
    elim (Bool-cases spelt) [
      | inr q ↦ cc (rw q at e)
      | inl q ↦ (
        c,
        a,
        r,
        d,
        part,
        refl,
        ground (arith, q),
        ground (arith, q),
        ground (arith, q),
        ground (arith, q),
        rw q at e,
      )
    ]

IsCardName-card_number :
    (name : String) (num : ℤ) → IsCardName name num → card_number (cut_card name) ≡ some num
IsCardName-card_number name num (c, a, r, d, part, e, h1, h2, h3, h4, n) =
    ap (λ s. card_number (cut_card s)) e ∙ rw (h1, h2, h3, h4) n

module _ (fs : Files) where
  -- There is no device here, or its directory can be reached and has no vendor file.
  abbrev pub IsVirtual : String → Type 0
  IsVirtual path =
      ((text : String) × (fs.lstat path ≡ some (not_exist text)))
      ⊎ ((fs.lstat path ≡ none)
          × (fs.stat path ≡ done true)
          × (text : String) × (fs.stat (path_join path "vendor") ≡ failed (not_exist text)))

  -- The cards of a directory, in the order of its entries: an entry is left out if its name is not
  -- "card" and a number or it is virtual, and every other one is a card of that number.
  pub data RealCards (root : String) : List String → List SysfsCard → Type 0 where
    nothing_left : RealCards root [] []
    not_a_card :
        (name : String) (names : List String) (cards : List SysfsCard)
        → ((num : ℤ) → IsCardName name num → ⊥) ⊎ IsVirtual (device_under root name)
        → RealCards root names cards
        → RealCards root (name ∷ names) cards
    a_card :
        (name : String) (names : List String) (card : SysfsCard) (cards : List SysfsCard)
        → IsCardName name card.num
        → card.device_path ≡ device_under root name
        → (IsVirtual (device_under root name) → ⊥)
        → RealCards root names cards
        → RealCards root (name ∷ names) (card ∷ cards)

  IsVirtual-vendor :
      (r : Result FileFault Bool)
      → class_of_vendor fs r ≡ is_virtual
      → (text : String) × (r ≡ failed (not_exist text))
  IsVirtual-vendor (done is_dir) e = cc e
  IsVirtual-vendor (failed (not_exist text)) e = (text, refl)
  IsVirtual-vendor (failed (other_fault text)) e = cc e

  IsVirtual-device :
      (path : String) (r : Result FileFault Bool)
      → class_of_device fs path r ≡ is_virtual
      → (r ≡ done true)
        × (text : String) × (fs.stat (path_join path "vendor") ≡ failed (not_exist text))
  IsVirtual-device path (failed e) h = cc h
  IsVirtual-device path (done true) h =
      let (text, v) = IsVirtual-vendor (fs.stat (path_join path "vendor")) h in (refl, text, v)
  IsVirtual-device path (done false) h = cc h

  IsVirtual-entry :
      (path : String) (l : Option FileFault)
      → fs.lstat path ≡ l
      → classify_card fs path ≡ is_virtual
      → IsVirtual path
  unfolding classify_card
  IsVirtual-entry path (some (not_exist text)) q e = inl (text, q)
  IsVirtual-entry path (some (other_fault text)) q e = cc (rw (q, classify_card) at e)
  IsVirtual-entry path none q e =
      let (s, text, v) = IsVirtual-device path (fs.stat path) (rw (q, classify_card) at e) in
      inr (q, s, text, v)

  IsVirtual-classify_card : (path : String) → IsVirtual path → classify_card fs path ≡ is_virtual
  unfolding classify_card
  IsVirtual-classify_card path (inl (text, q)) = rw (q, classify_card) refl
  IsVirtual-classify_card path (inr (q, s, text, v)) = rw (q, s, v, classify_card) refl

  by_class :
      (root name : String) (names : List String) (c : CardClass)
      → classify_card fs (device_under root name) ≡ c
      → RealCards root names (found_cards fs root names)
      → RealCards root (name ∷ names) (found_cards fs root (name ∷ names))
  unfolding found_cards entry_card
  by_class root name names is_virtual q rest = elim (Option-cases (card_number (cut_card name))) [
    | inl n ↦
        rw (n, found_cards, entry_card)
          (not_a_card name names _ (inl (λ num k. cc (n, IsCardName-card_number name num k))) rest)
    | inr (num, n) ↦
        rw (n, q, found_cards, entry_card)
          (not_a_card name names _
            (inr
              (IsVirtual-entry (device_under root name) (fs.lstat (device_under root name)) refl q))
            rest)
  ]
  by_class root name names (is_real e) q rest = elim (Option-cases (card_number (cut_card name))) [
    | inl n ↦
        rw (n, found_cards, entry_card)
          (not_a_card name names _ (inl (λ num k. cc (n, IsCardName-card_number name num k))) rest)
    | inr (num, n) ↦
        rw (n, q, found_cards, entry_card)
          (a_card name names _ _ (card_number-IsCardName name num n) refl
            (λ v. cc (q, IsVirtual-classify_card (device_under root name) v)) rest)
  ]

  pub found_cards-RealCards :
      (root : String) (names : List String) → RealCards root names (found_cards fs root names)
  unfolding found_cards
  found_cards-RealCards root [] = nothing_left
  found_cards-RealCards root (name ∷ names) =
      by_class root name names (classify_card fs (device_under root name)) refl
        (found_cards-RealCards root names)
