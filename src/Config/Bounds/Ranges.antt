-- ===== src/Config/Bounds/Ranges.antt =====
-- What a file that passes the range checks may hold.
use gpu_bouncer.Base.{
  ◌≡◌, ◌≢◌, ◌↔◌, ◌⊎◌, refl, String, ◌==◌, eq_iff, Bool, true, false, Option, none, some, List, [],
  ◌∷◌, All, Bool-cases, Option-cases, inl, inr, arith,
}
use gpu_bouncer.Base.Int.{ℤ, pos, leb_ℤ, ltb_ℤ}
use gpu_bouncer.Base.Dict.{Dict, lookup}
use gpu_bouncer.Config.Bounds.{
  Raw, raw_int, raw_text, raw_other, Bound, duration_fault, range_fault, check_bound, present_fault,
  check_bounds,
}

-- At least the minimum, and at most the maximum if there is one.
pub record Within (b : Bound) (d : ℤ) : Type 0 where
  pub above : leb_ℤ b.min d ≡ true
  pub below : ltb_ℤ (pos 0) b.max ≡ true → leb_ℤ d b.max ≡ true

module _ (parse_duration : String → Option ℤ) where
  -- What may stand under a bounded key. Under the key of a duration: a text, within the bound if it
  -- parses as a duration. Under another: a number that is large enough, or what is no number at all,
  -- which is left to the typed decode.
  abbrev pub InRange : Bound → Bool → Raw → Type 0
  InRange b true (raw_text text) = (d : ℤ) → parse_duration text ≡ some d → Within b d
  InRange b true (raw_int n) = ⊥
  InRange b true raw_other = ⊥
  InRange b false (raw_int n) = leb_ℤ b.min n ≡ true
  InRange b false (raw_text text) = Unit
  InRange b false raw_other = Unit

  duration_fault-Within : (b : Bound) (d : ℤ) → duration_fault b (some d) ≡ none → Within b d
  duration_fault-Within b d e = record { above = ground arith; below = λ h. ground arith }

  range_fault-InRange :
      (b : Bound) (duration : Bool) (raw : Raw)
      → range_fault parse_duration b duration raw ≡ none
      → InRange b duration raw
  range_fault-InRange b true (raw_text text) e = λ d p. duration_fault-Within b d (rw p at e)
  range_fault-InRange b true (raw_int n) e = cc e
  range_fault-InRange b true raw_other e = cc e
  range_fault-InRange b false (raw_int n) e = ground arith
  range_fault-InRange b false (raw_text text) e = tt
  range_fault-InRange b false raw_other e = tt

  -- What a table may hold under the keys of a bound that checks it.
  abbrev pub Passes : String → Dict Raw → Bound → Type 0
  Passes table raw b =
      (b.table ≢ table)
      ⊎ ((b.signed ≡ true)
          ⊎ ((lookup b.key raw ≡ none)
              ⊎ ((v : Raw) × (lookup b.key raw ≡ some v) × InRange b b.duration v)))

  Within-duration_fault : (b : Bound) (d : ℤ) → Within b d → duration_fault b (some d) ≡ none
  Within-duration_fault b d w = elim (Bool-cases (ltb_ℤ (pos 0) b.max)) [
    | inl m ↦ ground (arith, w.above, w.below m)
    | inr m ↦ ground (arith, w.above, m)
  ]

  InRange-range_fault :
      (b : Bound) (duration : Bool) (raw : Raw)
      → InRange b duration raw
      → range_fault parse_duration b duration raw ≡ none
  InRange-range_fault b true (raw_text text) h = elim (Option-cases (parse_duration text)) [
    | inl p ↦ rw p refl
    | inr (d, p) ↦ rw p (Within-duration_fault b d (h d p))
  ]
  InRange-range_fault b true (raw_int n) h = absurd h
  InRange-range_fault b true raw_other h = absurd h
  InRange-range_fault b false (raw_int n) h = ground (arith, h)
  InRange-range_fault b false (raw_text text) h = refl
  InRange-range_fault b false raw_other h = refl

  present-Passes :
      (table : String) (raw : Dict Raw) (b : Bound) (v : Option Raw)
      → lookup b.key raw ≡ v
      → present_fault parse_duration b v ≡ none
      → Passes table raw b
  unfolding check_bound
  present-Passes table raw b none l e = inr (inr (inl l))
  present-Passes table raw b (some v) l e = elim (Bool-cases b.signed) [
    | inl s ↦ inr (inl s)
    | inr s ↦ inr (inr (inr (v, l, range_fault-InRange b b.duration v (rw s at e))))
  ]

  signed-present :
      (b : Bound) (v : Option Raw) → b.signed ≡ true → present_fault parse_duration b v ≡ none
  unfolding check_bound
  signed-present b none s = refl
  signed-present b (some v) s = rw s refl

  Passes-present :
      (table : String) (raw : Dict Raw) (b : Bound)
      → b.table ≡ table
      → Passes table raw b
      → present_fault parse_duration b (lookup b.key raw) ≡ none
  unfolding check_bound
  Passes-present table raw b t (inl n) = absurd (n t)
  Passes-present table raw b t (inr (inl s)) = signed-present b (lookup b.key raw) s
  Passes-present table raw b t (inr (inr (inl l))) = rw l refl
  Passes-present table raw b t (inr (inr (inr (v, l, h)))) = elim (Bool-cases b.signed) [
    | inl s ↦ signed-present b (lookup b.key raw) s
    | inr s ↦ rw (l, s) (InRange-range_fault b b.duration v h)
  ]

  check_bounds-Passes :
      (bs : List Bound) (table : String) (raw : Dict Raw)
      → check_bounds parse_duration bs table raw ≡ none
      → All (Passes table raw) bs
  unfolding check_bounds
  check_bounds-Passes [] table raw e = tt
  check_bounds-Passes (b ∷ bs) table raw e = elim (Bool-cases (b.table == table)) [
    | inr q ↦ (
      inl (λ t. cc (q, (eq_iff b.table table).1 t)),
      check_bounds-Passes bs table raw (rw (q, check_bounds) at e),
    )
    | inl q ↦ elim (Option-cases (present_fault parse_duration b (lookup b.key raw))) [
      | inr (f, p) ↦ cc (rw (q, p, check_bounds) at e)
      | inl p ↦ (
        present-Passes table raw b (lookup b.key raw) refl p,
        check_bounds-Passes bs table raw (rw (q, p, check_bounds) at e),
      )
    ]
  ]

  Passes-check_bounds :
      (bs : List Bound) (table : String) (raw : Dict Raw)
      → All (Passes table raw) bs
      → check_bounds parse_duration bs table raw ≡ none
  unfolding check_bounds
  Passes-check_bounds [] table raw h = refl
  Passes-check_bounds (b ∷ bs) table raw (h, hs) =
      let rest = Passes-check_bounds bs table raw hs in
      elim (Bool-cases (b.table == table)) [
        | inr q ↦ rw (q, check_bounds) rest
        | inl q ↦
            rw (q, Passes-present table raw b ((eq_iff b.table table).0 q) h, check_bounds) rest
      ]

  -- The range checks let a table pass exactly if, for each bound of that table, the key is one that
  -- may be negative, or is not set, or: for a duration, holds a text that is within the bound if it
  -- parses as a duration; for another key, holds a number that is large enough, or no number at all,
  -- which only the typed decode refuses.
  pub check_bounds-InRange :
      (bs : List Bound) (table : String) (raw : Dict Raw)
      → check_bounds parse_duration bs table raw ≡ none ↔ All (Passes table raw) bs
  check_bounds-InRange bs table raw =
      (check_bounds-Passes bs table raw, Passes-check_bounds bs table raw)
