-- ===== src/Gpu/Sysfs/Cards.antt =====
-- internal/gpu/sysfs.go: the places of the cards do not depend on what can be read of them.
use gpu_bouncer.Base.{
  ℕ, zero, suc, ◌+◌, ◌≡◌, refl, ap, subst, ◌∙◌, String, Bool, Option, none, some, List, [], ◌∷◌,
  arith, if◌then◌else◌, eqb, inl, inr, Result, done, failed, Result-cases, get_elem?, Permᴰ,
  Pairwise, Pairwise-imp, true, false,
}
use gpu_bouncer.Base.Int.{pos, eqb_ℤ, leb_ℤ}
use gpu_bouncer.Base.Sort.{IsOrder, IsSorted, sort_stable, sort_stable-perm, sort_stable-IsSorted}
use gpu_bouncer.Gpu.{Device, device_by_index}
use gpu_bouncer.Gpu.Sysfs.{
  Files, SysfsCard, SysfsSource, found_cards, by_number, opened, open_sysfs, path_join,
}
use gpu_bouncer.Gpu.Sysfs.Real.{RealCards, found_cards-RealCards}
use gpu_bouncer.Gpu.Sysfs.Reading.{
  with_used, with_total, with_counters, with_vendor, blank, read_with, read_card, read_cards,
  devices,
}

by_number-IsOrder : IsOrder by_number
unfolding by_number
by_number-IsOrder = record { asym = λ a b h. ground arith; trans = λ a b c h g. ground arith }

device_by_index-cons :
    (d : Device) (ds : List Device) (j i : ℕ)
    → d.index ≡ pos j
    → device_by_index (d ∷ ds) (pos i) ≡ (if eqb j i then some d else device_by_index ds (pos i))
unfolding device_by_index
device_by_index-cons d ds j i e =
    ap (λ k. if eqb_ℤ k (pos i) then some d else device_by_index ds (pos i)) e ∙ ground arith

opened-Listed :
    (root : String) (found : List SysfsCard) (s : SysfsSource)
    → opened root found ≡ done s
    → Permᴰ s.cards found × IsSorted by_number s.cards
opened-Listed root [] s h = cc
opened-Listed root (c ∷ cs) s h =
    let same : sort_stable by_number (c ∷ cs) ≡ s.cards =
      let whole : record { root = root; cards = sort_stable by_number (c ∷ cs); nvml_err = none }
          ≡ s =
        cc in
      ap (λ x. x.cards) whole in
    subst (λ l. Permᴰ l (c ∷ cs) × IsSorted by_number l) same
      (
        sort_stable-perm by_number (c ∷ cs),
        sort_stable-IsSorted by_number by_number-IsOrder (c ∷ cs),
      )

in_order : (a b : SysfsCard) → by_number b a ≡ false → leb_ℤ a.num b.num ≡ true
unfolding by_number
in_order a b h = ground arith

module _ (fs : Files) where
  -- No step of a reading moves the device.
  with_used-index :
      (n : ℕ) (r : Result String ℕ) (dev : Device) → (with_used fs n r dev).index ≡ dev.index
  with_used-index n (failed e) dev = refl
  with_used-index n (done u) dev = refl

  with_total-index :
      (path : String) (r : Result String ℕ) (dev : Device)
      → (with_total fs path r dev).index ≡ dev.index
  with_total-index path (failed e) dev = refl
  with_total-index path (done n) dev = with_used-index n _ dev

  with_counters-index :
      (e : Option String) (built_in : Bool) (path : String) (dev : Device)
      → (with_counters fs e built_in path dev).index ≡ dev.index
  with_counters-index e built_in path dev =
      elim (Result-cases (fs.stat (path_join path "mem_info_vram_total"))) [
        | inr (f, q) ↦ rw (q, with_counters)
        | inl (d, q) ↦ rw (q, with_counters) (with_total-index path _ dev)
      ]

  with_vendor-index :
      (e : Option String) (built_in : Bool) (path : String) (r : Result String String)
      (dev : Device)
      → (with_vendor fs e built_in path r dev).index ≡ dev.index
  with_vendor-index e built_in path (failed f) dev = refl
  with_vendor-index e built_in path (done vendor) dev = with_counters-index e built_in path _

  read_with-index :
      (v e : Option String) (built_in : Bool) (i : ℕ) (path : String)
      → (read_with fs v e built_in i path).index ≡ pos i
  read_with-index (some f) e built_in i path = refl
  read_with-index none e built_in i path = with_vendor-index e built_in path _ (blank fs i path)

  read_card-index :
      (e : Option String) (built_in : Bool) (i : ℕ) (c : SysfsCard)
      → (read_card fs e built_in i c).index ≡ pos i
  unfolding read_card
  read_card-index e built_in i c = read_with-index c.vendor_err e built_in i c.device_path

  read_cards-get :
      (e : Option String) (built_in : Bool) (cs : List SysfsCard) (first i : ℕ) (c : SysfsCard)
      → get_elem? cs i ≡ some c
      → device_by_index (read_cards fs e built_in first cs) (pos (first + i))
        ≡ some (read_card fs e built_in (first + i) c)
  unfolding read_cards device_by_index
  read_cards-get e built_in [] first i c h = cc
  read_cards-get e built_in (d ∷ cs) first zero c h =
      let same : d ≡ c = cc in
      device_by_index-cons (read_card fs e built_in first d)
        (read_cards fs e built_in (suc first) cs) first (first + 0)
        (read_card-index e built_in first d)
      ∙ ground (arith, same)
  read_cards-get e built_in (d ∷ cs) first (suc i) c h =
      let next = read_cards-get e built_in cs (suc first) i c h in
      let place : suc first + i ≡ first + suc i = omega arith in
      device_by_index-cons (read_card fs e built_in first d)
        (read_cards fs e built_in (suc first) cs) first (first + suc i)
        (read_card-index e built_in first d)
      ∙ ground arith
      ∙ subst
          (λ k.
            device_by_index (read_cards fs e built_in (suc first) cs) (pos k)
            ≡ some (read_card fs e built_in k c))
          place next

  -- The cards of a source: the real ones of its directory, in the order of their numbers.
  abbrev pub Listed : String → List SysfsCard → Type 0
  Listed root cards =
      (names : List String) × (found : List SysfsCard) × (fs.read_dir root ≡ done names)
      × RealCards fs root names found
      × Permᴰ cards found
      × Pairwise (λ (a b : SysfsCard). leb_ℤ a.num b.num ≡ true) cards

  open_sysfs-Listed :
      (root : String) (s : SysfsSource) → open_sysfs fs root ≡ done s → Listed root s.cards
  unfolding open_sysfs
  open_sysfs-Listed root s h = elim (Result-cases (fs.read_dir root)) [
    | inr (f, q) ↦ cc (rw (q, open_sysfs) at h)
    | inl (names, q) ↦
        let (perm, sorted) =
          opened-Listed root (found_cards fs root names) s (rw (q, open_sysfs) at h) in
        (
          names,
          found_cards fs root names,
          q,
          found_cards-RealCards fs root names,
          perm,
          Pairwise-imp (λ x y. by_number y x ≡ false) _ s.cards in_order sorted,
        )
  ]

  -- An opened source lists every real card of its directory, each one once and the lower numbers
  -- first: the entries named "card" and a number, but for those without a device or, behind a device
  -- directory that can be reached, without a vendor file. The device that answers to an index is the
  -- card at that place in the list, whatever can or cannot be read of it and of the others.
  pub open_sysfs-Places :
      (root : String) (s : SysfsSource) (built_in : Bool) (i : ℕ) (c : SysfsCard)
      → open_sysfs fs root ≡ done s
      → get_elem? s.cards i ≡ some c
      → Listed root s.cards
        × (device_by_index (devices fs built_in s) (pos i)
            ≡ some (read_card fs s.nvml_err built_in i c))
  unfolding devices
  open_sysfs-Places root s built_in i c h e =
      let place : 0 + i ≡ i = omega arith in
      (
        open_sysfs-Listed root s h,
        subst
            (λ k.
              device_by_index (read_cards fs s.nvml_err built_in 0 s.cards) (pos k)
              ≡ some (read_card fs s.nvml_err built_in k c))
            place (read_cards-get s.nvml_err built_in s.cards 0 i c e),
      )
