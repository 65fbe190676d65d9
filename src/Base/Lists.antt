-- ===== src/Base/Lists.antt =====
-- Lists measured by native numbers, and predicates over lists that are read by recursion.
use Prim.Native.Nat.{ℕ, zero, suc, ◌+◌}
use mathlib.Core.Option.{Option, none, some}
use mathlib.Core.Path.{◌≡◌, refl, subst, sym}
use mathlib.Core.List.{List, [], ◌∷◌, ◌++◌, map, Memᴰ}
use native.Mathlib.Omega.{arith}

module _ {ℓ} {A : Type ℓ} where
  abbrev pub length : List A → ℕ
  length [] = 0
  length (x ∷ xs) = suc (length xs)

  -- The element at a position, or none past the end.
  abbrev pub get_elem? : List A → ℕ → Option A
  get_elem? [] i = none
  get_elem? (x ∷ xs) zero = some x
  get_elem? (x ∷ xs) (suc i) = get_elem? xs i

  pub length-append : (xs ys : List A) → length (xs ++ ys) ≡ length xs + length ys
  length-append [] ys = omega arith
  length-append (x ∷ xs) ys = omega (arith, length-append xs ys)

  abbrev pub All {κ} : (A → Type κ) → List A → Type κ
  All P [] = Unit
  All P (x ∷ xs) = P x × All P xs

  -- The relation holds between each element and every later one.
  abbrev pub Pairwise {κ} : (A → A → Type κ) → List A → Type κ
  Pairwise R [] = Unit
  Pairwise R (x ∷ xs) = All (R x) xs × Pairwise R xs

module _ {ℓ κ} {A : Type ℓ} where
  pub All-append : (P : A → Type κ) (xs ys : List A) → All P xs → All P ys → All P (xs ++ ys)
  All-append P [] ys hx hy = hy
  All-append P (x ∷ xs) ys hx hy = (hx.0, All-append P xs ys hx.1 hy)

  pub All-left : (P : A → Type κ) (xs ys : List A) → All P (xs ++ ys) → All P xs
  All-left P [] ys h = tt
  All-left P (x ∷ xs) ys h = (h.0, All-left P xs ys h.1)

  pub All-right : (P : A → Type κ) (xs ys : List A) → All P (xs ++ ys) → All P ys
  All-right P [] ys h = h
  All-right P (x ∷ xs) ys h = All-right P xs ys h.1

  pub All-imp {μ} :
      (P : A → Type κ) (Q : A → Type μ) (xs : List A) → ((x : A) → P x → Q x) → All P xs → All Q xs
  All-imp P Q [] f h = tt
  All-imp P Q (x ∷ xs) f h = (f x h.0, All-imp P Q xs f h.1)

  pub Pairwise-imp {μ} :
      (P : A → A → Type κ) (Q : A → A → Type μ) (xs : List A)
      → ((x y : A) → P x y → Q x y)
      → Pairwise P xs
      → Pairwise Q xs
  Pairwise-imp P Q [] f h = tt
  Pairwise-imp P Q (x ∷ xs) f h =
      (All-imp (P x) (Q x) xs (λ y k. f x y k) h.0, Pairwise-imp P Q xs f h.1)

  pub All-map {μ} :
      {B : Type μ} (P : A → Type κ) (f : B → A) (ys : List B)
      → ((y : B) → P (f y))
      → All P (map f ys)
  All-map P f [] h = tt
  All-map P f (y ∷ ys) h = (h y, All-map P f ys h)

  pub map-All {μ} :
      {B : Type μ} (P : A → Type κ) (f : B → A) (ys : List B)
      → All (λ y. P (f y)) ys
      → All P (map f ys)
  map-All P f [] h = tt
  map-All P f (y ∷ ys) h = (h.0, map-All P f ys h.1)

  -- What holds of every member holds along the list, and the other way round.
  pub All-of_mem : (P : A → Type κ) (xs : List A) → ((x : A) → Memᴰ x xs → P x) → All P xs
  All-of_mem P [] f = tt
  All-of_mem P (x ∷ xs) f = (f x (Memᴰ.head refl), All-of_mem P xs (λ y m. f y (Memᴰ.tail m)))

  pub mem_of_All : (P : A → Type κ) (xs : List A) → All P xs → (x : A) → Memᴰ x xs → P x
  mem_of_All P [] h x m = elim m [ ]
  mem_of_All P (y ∷ ys) h x (Memᴰ.head e) = subst P (sym e) h.0
  mem_of_All P (y ∷ ys) h x (Memᴰ.tail m) = mem_of_All P ys h.1 x m

module _ {ℓ} {A : Type ℓ} where
  pub mem_left : (a : A) (xs ys : List A) → Memᴰ a xs → Memᴰ a (xs ++ ys)
  mem_left a [] ys m = elim m [ ]
  mem_left a (x ∷ xs) ys (Memᴰ.head e) = Memᴰ.head e
  mem_left a (x ∷ xs) ys (Memᴰ.tail m) = Memᴰ.tail (mem_left a xs ys m)

  pub mem_right : (a : A) (xs ys : List A) → Memᴰ a ys → Memᴰ a (xs ++ ys)
  mem_right a [] ys m = m
  mem_right a (x ∷ xs) ys m = Memᴰ.tail (mem_right a xs ys m)
