-- ===== src/Base/Sort.antt =====
-- `sort.SliceStable`: a stable sort is determined by its order, and this is one.
use mathlib.Core.Path.{◌≡◌, refl}
use mathlib.Core.Logic.{inl, inr}
use mathlib.Core.Bool.{Bool, true, false}
use mathlib.Core.List.{List, [], ◌∷◌, Memᴰ, Permᴰ}
use mathlib.Core.List.Permᴰ
use gpu_bouncer.Base.Tests.{if◌then◌else◌, Bool-cases}
use gpu_bouncer.Base.Lists.{All, All-imp, Pairwise}

-- What `less` must satisfy for "not less" to be an order.
pub record IsOrder {ℓ} {A : Type ℓ} (less : A → A → Bool) : Type ℓ where
  pub asym : (x y : A) → less x y ≡ true → less y x ≡ false
  pub trans : (x y z : A) → less y x ≡ false → less z y ≡ false → less z x ≡ false

module _ {ℓ} {A : Type ℓ} (less : A → A → Bool) where
  -- Before the first element that is not less.
  insert_sorted : A → List A → List A
  insert_sorted x [] = x ∷ []
  insert_sorted x (y ∷ ys) = if less y x then y ∷ insert_sorted x ys else x ∷ y ∷ ys

  unfoldable pub sort_stable : List A → List A
  unfolding insert_sorted
  sort_stable [] = []
  sort_stable (x ∷ xs) = insert_sorted x (sort_stable xs)

  -- Nothing stands behind an element that is less than it.
  abbrev pub IsSorted : List A → Type 0
  IsSorted = Pairwise (λ x y. less y x ≡ false)

  insert_sorted-perm : (x : A) (xs : List A) → Permᴰ (insert_sorted x xs) (x ∷ xs)
  unfolding insert_sorted
  insert_sorted-perm x [] = Permᴰ.refl _
  insert_sorted-perm x (y ∷ ys) = elim (Bool-cases (less y x)) [
    | inl e ↦ rw e (Permᴰ.trans (Permᴰ.cons refl (insert_sorted-perm x ys)) (Permᴰ.swap refl refl))
    | inr e ↦ rw e (Permᴰ.refl _)
  ]

  -- The sorted list is a permutation.
  pub sort_stable-perm : (xs : List A) → Permᴰ (sort_stable xs) xs
  unfolding sort_stable
  sort_stable-perm [] = Permᴰ.nil
  sort_stable-perm (x ∷ xs) =
      Permᴰ.trans (insert_sorted-perm x (sort_stable xs)) (Permᴰ.cons refl (sort_stable-perm xs))

  All-insert_sorted {κ} :
      (P : A → Type κ) (x : A) (xs : List A) → P x → All P xs → All P (insert_sorted x xs)
  unfolding insert_sorted
  All-insert_sorted P x [] px h = (px, tt)
  All-insert_sorted P x (y ∷ ys) px h = elim (Bool-cases (less y x)) [
    | inl e ↦ rw e (h.0, All-insert_sorted P x ys px h.1)
    | inr e ↦ rw e (px, h)
  ]

  pub All-sort_stable {κ} : (P : A → Type κ) (xs : List A) → All P xs → All P (sort_stable xs)
  unfolding sort_stable
  All-sort_stable P [] h = tt
  All-sort_stable P (x ∷ xs) h =
      All-insert_sorted P x (sort_stable xs) h.0 (All-sort_stable P xs h.1)

  insert_sorted-mem : (a x : A) (xs : List A) → Memᴰ a (x ∷ xs) → Memᴰ a (insert_sorted x xs)
  unfolding insert_sorted
  insert_sorted-mem a x [] m = m
  insert_sorted-mem a x (y ∷ ys) m = elim (Bool-cases (less y x)) [
    | inl e ↦ rw e (elim m [
      | Memᴰ.head p ↦ Memᴰ.tail (insert_sorted-mem a x ys (Memᴰ.head p))
      | Memᴰ.tail (Memᴰ.head p) ↦ Memᴰ.head p
      | Memᴰ.tail (Memᴰ.tail t) ↦ Memᴰ.tail (insert_sorted-mem a x ys (Memᴰ.tail t))
    ])
    | inr e ↦ rw e m
  ]

  -- Sorting loses nothing.
  pub sort_stable-mem : (a : A) (xs : List A) → Memᴰ a xs → Memᴰ a (sort_stable xs)
  unfolding sort_stable
  sort_stable-mem a [] m = m
  sort_stable-mem a (x ∷ xs) (Memᴰ.head p) = insert_sorted-mem a x (sort_stable xs) (Memᴰ.head p)
  sort_stable-mem a (x ∷ xs) (Memᴰ.tail m) =
      insert_sorted-mem a x (sort_stable xs) (Memᴰ.tail (sort_stable-mem a xs m))

  -- A symmetric relation between all pairs does not see the order.
  module _ {κ} (R : A → A → Type κ) (R_sym : (x y : A) → R x y → R y x) where
    insert_sorted-Pairwise :
        (x : A) (xs : List A) → All (R x) xs → Pairwise R xs → Pairwise R (insert_sorted x xs)
    unfolding insert_sorted
    insert_sorted-Pairwise x [] r h = (tt, tt)
    insert_sorted-Pairwise x (y ∷ ys) r h = elim (Bool-cases (less y x)) [
      | inl e ↦
          rw e
            (All-insert_sorted (R y) x ys (R_sym x y r.0) h.0, insert_sorted-Pairwise x ys r.1 h.1)
      | inr e ↦ rw e (r, h)
    ]

    pub sort_stable-Pairwise : (xs : List A) → Pairwise R xs → Pairwise R (sort_stable xs)
    unfolding sort_stable
    sort_stable-Pairwise [] h = tt
    sort_stable-Pairwise (x ∷ xs) h =
        insert_sorted-Pairwise x (sort_stable xs) (All-sort_stable (R x) xs h.0)
          (sort_stable-Pairwise xs h.1)

  module _ (order : IsOrder less) where
    insert_sorted-IsSorted : (x : A) (xs : List A) → IsSorted xs → IsSorted (insert_sorted x xs)
    unfolding insert_sorted
    insert_sorted-IsSorted x [] h = (tt, tt)
    insert_sorted-IsSorted x (y ∷ ys) h = elim (Bool-cases (less y x)) [
      | inl e ↦ rw e (
        All-insert_sorted (λ z. less z y ≡ false) x ys (order.asym y x e) h.0,
        insert_sorted-IsSorted x ys h.1,
      )
      | inr e ↦ rw e ((e, All-imp _ _ ys (λ z f. order.trans x y z e f) h.0), h)
    ]

    pub sort_stable-IsSorted : (xs : List A) → IsSorted (sort_stable xs)
    unfolding sort_stable
    sort_stable-IsSorted [] = tt
    sort_stable-IsSorted (x ∷ xs) =
        insert_sorted-IsSorted x (sort_stable xs) (sort_stable-IsSorted xs)
