-- ===== src/Base/Dict.antt =====
-- Go maps keyed by a name, as association lists.
use Prim.Native.String.{String}
use text.Mathlib.Text.{◌==◌}
use text.Mathlib.TextEquality.{eq_iff}
use mathlib.Core.Path.{◌≡◌, refl, ap, subst, ◌∙◌}
use mathlib.Core.Logic.{inl, inr}
use mathlib.Core.Bool.{Bool}
use mathlib.Core.Option.{Option, none, some}
use mathlib.Core.List.{List, [], ◌∷◌}
use native.Mathlib.Omega.{arith}
use gpu_bouncer.Base.Tests.{if◌then◌else◌, Bool-cases}
use gpu_bouncer.Base.Lists.{All}

abbrev pub Dict {ℓ} : Type ℓ → Type ℓ
Dict V = List (String × V)

module _ {ℓ} {V : Type ℓ} where
  unfoldable pub lookup : String → Dict V → Option V
  lookup name [] = none
  lookup name ((key, value) ∷ rest) = if key == name then some value else lookup name rest

  unfoldable pub delete : String → Dict V → Dict V
  delete name [] = []
  delete name ((key, value) ∷ more) =
      let rest = delete name more in if key == name then rest else (key, value) ∷ rest

  unfoldable pub insert : String → V → Dict V → Dict V
  insert name value [] = (name, value) ∷ []
  insert name value ((key, old) ∷ more) =
      let rest = insert name value more in
      if key == name then (name, value) ∷ more else (key, old) ∷ rest

  -- `for k, v := range m`, deleting the entries that fail the test.
  unfoldable pub keep_if : (V → Bool) → Dict V → Dict V
  keep_if p [] = []
  keep_if p ((j, w) ∷ m) = let rest = keep_if p m in if p w then (j, w) ∷ rest else rest

  pub lookup-insert :
      (name other : String) (value : V) (m : Dict V)
      → lookup other (insert name value m) ≡ (if name == other then some value else lookup other m)
  unfolding lookup insert
  lookup-insert name other value [] = ground arith
  lookup-insert name other value ((key, old) ∷ m) =
      let rest = lookup-insert name other value m in
      ground (arith, rest, eq_iff key name, eq_iff key other, eq_iff name other)

  pub lookup-delete :
      (k j : String) (m : Dict V) → lookup j (delete k m) ≡ (if k == j then none else lookup j m)
  unfolding lookup delete
  lookup-delete k j [] = ground arith
  lookup-delete k j ((i, w) ∷ m) =
      ground (arith, eq_iff k j, eq_iff i k, eq_iff i j, lookup-delete k j m)

  -- What holds of every entry still does.
  module _ {κ} (P : String → V → Type κ) where
    abbrev pub Entries : Dict V → Type κ
    Entries = All (λ e. P e.0 e.1)

    pub Entries-insert :
        (k : String) (v : V) (m : Dict V) → P k v → Entries m → Entries (insert k v m)
    unfolding insert
    Entries-insert k v [] p h = (p, tt)
    Entries-insert k v ((j, w) ∷ m) p h = elim (Bool-cases (j == k)) [
      | inl e ↦ rw e (p, h.1)
      | inr e ↦ rw e (h.0, Entries-insert k v m p h.1)
    ]

    pub Entries-delete : (k : String) (m : Dict V) → Entries m → Entries (delete k m)
    unfolding delete
    Entries-delete k [] h = tt
    Entries-delete k ((j, w) ∷ m) h = elim (Bool-cases (j == k)) [
      | inl e ↦ rw e (Entries-delete k m h.1)
      | inr e ↦ rw e (h.0, Entries-delete k m h.1)
    ]

    pub Entries-keep_if : (p : V → Bool) (m : Dict V) → Entries m → Entries (keep_if p m)
    unfolding keep_if
    Entries-keep_if p [] h = tt
    Entries-keep_if p ((j, w) ∷ m) h = elim (Bool-cases (p w)) [
      | inl e ↦ rw e (h.0, Entries-keep_if p m h.1)
      | inr e ↦ rw e (Entries-keep_if p m h.1)
    ]

  pub lookup-Entry {κ} :
      (P : String → V → Type κ) (k : String) (m : Dict V) {v : V}
      → Entries P m
      → lookup k m ≡ some v
      → P k v
  unfolding lookup
  lookup-Entry P k [] h e = cc
  lookup-Entry P k ((j, w) ∷ m) {v} h e = elim (Bool-cases (j == k)) [
    | inl q ↦
        let same : some w ≡ some v = rw q at e in
        subst (λ x. P x v) ((eq_iff j k).0 q) (subst (P j) (cc same) h.0)
    | inr q ↦ lookup-Entry P k m h.1 (rw q at e)
  ]

  -- A Go map has each key once.
  abbrev pub Absent : String → Dict V → Type ℓ
  Absent k m = lookup k m ≡ none

  abbrev pub Unique : Dict V → Type ℓ
  Unique [] = Unit
  Unique ((j, w) ∷ m) = Absent j m × Unique m

  pub Unique-insert : (k : String) (v : V) (m : Dict V) → Unique m → Unique (insert k v m)
  unfolding insert lookup
  Unique-insert k v [] h = (refl, tt)
  Unique-insert k v ((j, w) ∷ m) h = elim (Bool-cases (j == k)) [
    | inl e ↦ rw e (subst (λ x. Absent x m) ((eq_iff j k).0 e) h.0, h.1)
    | inr e ↦ rw e (
      lookup-insert k j v m ∙ ground (arith, eq_iff j k, eq_iff k j, h.0),
      Unique-insert k v m h.1,
    )
  ]

  pub Unique-delete : (k : String) (m : Dict V) → Unique m → Unique (delete k m)
  unfolding delete lookup
  Unique-delete k [] h = tt
  Unique-delete k ((j, w) ∷ m) h = elim (Bool-cases (j == k)) [
    | inl e ↦ rw e (Unique-delete k m h.1)
    | inr e ↦ rw e (lookup-delete k j m ∙ ground (arith, h.0), Unique-delete k m h.1)
  ]

  abbrev pub pass : (V → Bool) → Option V → Option V
  pass p none = none
  pass p (some v) = if p v then some v else none

  pub lookup-keep_if :
      (p : V → Bool) (k : String) (m : Dict V)
      → Unique m
      → lookup k (keep_if p m) ≡ pass p (lookup k m)
  unfolding lookup keep_if
  lookup-keep_if p k [] h = refl
  lookup-keep_if p k ((j, w) ∷ m) h =
      ground (arith, eq_iff j k, lookup-keep_if p k m h.1, lookup-keep_if p j m h.1, h.0)

  pub Unique-keep_if : (p : V → Bool) (m : Dict V) → Unique m → Unique (keep_if p m)
  unfolding keep_if lookup
  Unique-keep_if p [] h = tt
  Unique-keep_if p ((j, w) ∷ m) h = elim (Bool-cases (p w)) [
    | inl e ↦ rw e (lookup-keep_if p j m h.1 ∙ ap (pass p) h.0, Unique-keep_if p m h.1)
    | inr e ↦ rw e (Unique-keep_if p m h.1)
  ]
