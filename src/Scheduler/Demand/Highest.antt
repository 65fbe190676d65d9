-- ===== src/Scheduler/Demand/Highest.antt =====
-- Whom reactive mode defends when no default workload is up.
use gpu_bouncer.Base.{
  ◌≡◌, refl, ap, ◌∙◌, ◌⊎◌, inl, inr, ◌==◌, true, false, not, ◌||◌, if◌then◌else◌, Option, none,
  some, List, [], ◌∷◌, Memᴰ, All, All-imp, Bool-cases, str_lt, str_lt_asym, str_lt_irrefl,
  str_lt_neg_trans, arith,
}
use gpu_bouncer.Base.Int.{ltb_ℤ, eqb_ℤ_sound}
use gpu_bouncer.Scheduler.Types.{ServiceState}
use gpu_bouncer.Scheduler.Demand.{beats, is_live, highest_from, highest_priority_up}

beats_irrefl : (a : ServiceState) → beats a (some a) ≡ false
unfolding beats
beats_irrefl a = ground (arith, str_lt_irrefl a.name)

beats_asym : (a b : ServiceState) → beats a (some b) ≡ true → beats b (some a) ≡ false
unfolding beats
beats_asym a b h = ground (arith, str_lt_asym a.name b.name)

beats_trans :
    (a b c : ServiceState)
    → beats b (some a) ≡ false
    → beats c (some b) ≡ false
    → beats c (some a) ≡ false
unfolding beats
beats_trans a b c h g = ground (arith, str_lt_neg_trans a.name b.name c.name)

-- A live service stands behind it: its priority is lower, or it is equal and its name is not earlier.
abbrev pub Behind : ServiceState → ServiceState → Type 0
Behind r s =
    (ltb_ℤ s.priority r.priority ≡ true)
    ⊎ ((s.priority ≡ r.priority) × (str_lt s.name r.name ≡ false))

abbrev pub Leads : ServiceState → ServiceState → Type 0
Leads r s = is_live s ≡ true → Behind r s

abbrev Unbeaten : ServiceState → ServiceState → Type 0
Unbeaten r s = is_live s ≡ true → beats s (some r) ≡ false

beats-Behind : (r s : ServiceState) → beats s (some r) ≡ false → Behind r s
unfolding beats
beats-Behind r s h = elim (Bool-cases (ltb_ℤ s.priority r.priority)) [
  | inl l ↦ inl l
  | inr l ↦
      let same : s.priority ≡ r.priority = eqb_ℤ_sound s.priority r.priority (ground arith) in
      inr (same, ground (arith, same))
]

abbrev Best : Option ServiceState → List ServiceState → Type 0
Best best ss =
    (r : ServiceState) × (best ≡ some r) × Memᴰ r ss × (is_live r ≡ true) × All (Unbeaten r) ss

abbrev pub Highest : Option ServiceState → List ServiceState → Type 0
Highest best ss =
    (r : ServiceState) × (best ≡ some r) × Memᴰ r ss × (is_live r ≡ true) × All (Leads r) ss

-- The three steps of the loop.
skip_dead :
    (b : Option ServiceState) (s : ServiceState) (ss : List ServiceState)
    → is_live s ≡ false
    → highest_from b (s ∷ ss) ≡ highest_from b ss
unfolding highest_from
skip_dead b s ss h =
    ap (λ x. highest_from x ss)
      (let e : (if not s.up || not (s.probe_err == "") then b else if beats s b then some s else b)
            ≡ b =
          ground arith in
        e)

take_live :
    (b : Option ServiceState) (s : ServiceState) (ss : List ServiceState)
    → is_live s ≡ true
    → highest_from b (s ∷ ss) ≡ highest_from (if beats s b then some s else b) ss
unfolding highest_from
take_live b s ss h =
    ap (λ x. highest_from x ss)
      (let e : (if not s.up || not (s.probe_err == "") then b else if beats s b then some s else b)
            ≡ (if beats s b then some s else b) =
          ground arith in
        e)

insert_second :
    {r b s : ServiceState} {ss : List ServiceState} → Memᴰ r (b ∷ ss) → Memᴰ r (b ∷ s ∷ ss)
insert_second (Memᴰ.head e) = Memᴰ.head e
insert_second (Memᴰ.tail m) = Memᴰ.tail (Memᴰ.tail m)

from_live :
    (b : ServiceState) (ss : List ServiceState)
    → is_live b ≡ true
    → Best (highest_from (some b) ss) (b ∷ ss)
unfolding highest_from
from_live b [] l = (b, refl, Memᴰ.head refl, l, ((λ _. beats_irrefl b), tt))
from_live b (s ∷ ss) l = elim (Bool-cases (is_live s)) [
  | inr dead ↦
      let (r, e, m, lr, (hb, hs)) = from_live b ss l in
      (r, skip_dead (some b) s ss dead ∙ e, insert_second m, lr, (hb, ((λ k. cc (dead, k)), hs)))
  | inl k ↦ elim (Bool-cases (beats s (some b))) [
    | inl t ↦
        let (r, e, m, lr, (hn, hs)) = from_live s ss k in
        (
          r,
          take_live (some b) s ss k ∙ rw t e,
          Memᴰ.tail m,
          lr,
          ((λ _. beats_trans r s b (hn k) (beats_asym s b t)), (hn, hs)),
        )
    | inr f ↦
        let (r, e, m, lr, (hb, hs)) = from_live b ss l in
        (
          r,
          take_live (some b) s ss k ∙ rw f e,
          insert_second m,
          lr,
          (hb, ((λ _. beats_trans r b s (hb l) f), hs)),
        )
  ]
]

highest_priority_up-Best :
    (ss : List ServiceState)
    → Best (highest_priority_up ss) ss
      ⊎ ((highest_priority_up ss ≡ none) × All (λ s. is_live s ≡ false) ss)
unfolding highest_priority_up highest_from beats
highest_priority_up-Best [] = inr (refl, tt)
highest_priority_up-Best (s ∷ ss) = elim (Bool-cases (is_live s)) [
  | inl k ↦ let (r, e, m, l, h) = from_live s ss k in inl (r, take_live none s ss k ∙ e, m, l, h)
  | inr dead ↦ elim (highest_priority_up-Best ss) [
    | inl (r, e, m, l, h) ↦
        inl (r, skip_dead none s ss dead ∙ e, Memᴰ.tail m, l, ((λ k. cc (dead, k)), h))
    | inr (e, h) ↦ inr (skip_dead none s ss dead ∙ e, (dead, h))
  ]
]

-- The service that reactive mode falls back to is observed, up and probed without an error, and no other such
-- service has a higher priority, or the same priority and an earlier name; there is none only if
-- no service is up.
pub highest_priority_up-Highest :
    (ss : List ServiceState)
    → Highest (highest_priority_up ss) ss
      ⊎ ((highest_priority_up ss ≡ none) × All (λ s. is_live s ≡ false) ss)
highest_priority_up-Highest ss = elim (highest_priority_up-Best ss) [
  | inl (r, e, m, l, h) ↦
      inl (r, e, m, l, All-imp (Unbeaten r) (Leads r) ss (λ s k i. beats-Behind r s (k i)) h)
  | inr n ↦ inr n
]
