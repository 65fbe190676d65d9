-- ===== src/Scheduler/Eviction/Order.antt =====
-- The order in which candidates are freed.
use gpu_bouncer.Base.{
  ◌≡◌, ◌<◌, ◌⊎◌, inl, inr, true, false, arith, Bool-cases, ltb, str_lt, str_lt_asym,
  str_lt_neg_trans,
}
use gpu_bouncer.Base.Int.{ltb_ℤ, eqb_ℤ_sound}
use gpu_bouncer.Base.Sort.{IsOrder}
use gpu_bouncer.Scheduler.Types.{ServiceState}
use gpu_bouncer.Scheduler.Eviction.{freed_before}

freed_before-asym : (a b : ServiceState) → freed_before a b ≡ true → freed_before b a ≡ false
unfolding freed_before
freed_before-asym a b h = ground (arith, str_lt_asym a.name b.name)

freed_before_trans :
    (a b c : ServiceState)
    → freed_before b a ≡ false
    → freed_before c b ≡ false
    → freed_before c a ≡ false
unfolding freed_before
freed_before_trans a b c h g = ground (arith, str_lt_neg_trans a.name b.name c.name)

-- The first goes before the second: its priority is lower; or equal, and it holds more memory; or it
-- holds as much, and its name is not later.
abbrev pub GoesFirst : ServiceState → ServiceState → Type 0
GoesFirst a b =
    (ltb_ℤ a.priority b.priority ≡ true)
    ⊎ ((a.priority ≡ b.priority)
        × ((b.held_mib < a.held_mib)
            ⊎ ((a.held_mib ≡ b.held_mib) × (str_lt b.name a.name ≡ false))))

pub freed_before-GoesFirst : (a b : ServiceState) → freed_before b a ≡ false → GoesFirst a b
unfolding freed_before
freed_before-GoesFirst a b h = elim (Bool-cases (ltb_ℤ a.priority b.priority)) [
  | inl l ↦ inl l
  | inr l ↦
      let same : a.priority ≡ b.priority = eqb_ℤ_sound a.priority b.priority (ground arith) in
      inr (
        same,
        elim (Bool-cases (ltb b.held_mib a.held_mib)) [
          | inl m ↦ inl (ground (arith, m))
          | inr m ↦ inr (ground (arith, h, m, same), ground (arith, h, m, same))
        ],
      )
]

pub freed_before-IsOrder : IsOrder freed_before
freed_before-IsOrder = record { asym = freed_before-asym; trans = freed_before_trans }
