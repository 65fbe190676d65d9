-- ===== src/Daemon/Resting.antt =====
-- The services that a round of the poll loop leaves alone.
use gpu_bouncer.Base.{
  ◌<◌, ◌≡◌, ◌≢◌, refl, sym, ap, ◌∙◌, String, true, false, some, All, All-imp, All-map, map-All,
  mem_of_All, Option-cases, inl, inr, arith, ltb,
}
use gpu_bouncer.Base.Dict.{Dict, lookup, keep_if, lookup-keep_if, pass}
use gpu_bouncer.Scheduler.Types.{ServiceState, Observation}
use gpu_bouncer.Scheduler.Planning.{decide}
use gpu_bouncer.Scheduler.Planning.Safety.{Grounds, decide-IsJustified}
use gpu_bouncer.Observe.{Env, observe}
use gpu_bouncer.Daemon.State.{
  Daemon, State, Cooldown, mark_busy, apply_inflight, mark_cooling, apply_cooldowns, observation,
}
use gpu_bouncer.Daemon.Handlers.{cooled_observation, tick}
use gpu_bouncer.Daemon.Valid.{IsValid}

module _ (name : String) where
  -- The service of that name is marked.
  abbrev Busy : ServiceState → Type 0
  Busy s = s.name ≡ name → s.action_in_flight ≡ true

  abbrev Cooling : Cooldown → ServiceState → Type 0
  Cooling c s = s.name ≡ name → s.cooldown_until ≡ c.until

  mark_busy-Busy :
      (m : Dict (Unit {0})) (x : Unit {0}) (s : ServiceState)
      → lookup name m ≡ some x
      → Busy (mark_busy m s)
  mark_busy-Busy m x s e = elim (Option-cases (lookup s.name m)) [
    | inl k ↦ rw (k, mark_busy) (λ q. cc (q, k, e))
    | inr (y, k) ↦ rw (k, mark_busy) (λ q. refl)
  ]

  mark_cooling-Busy : (m : Dict Cooldown) (s : ServiceState) → Busy s → Busy (mark_cooling m s)
  mark_cooling-Busy m s b = elim (Option-cases (lookup s.name m)) [
    | inl k ↦ rw (k, mark_cooling) b
    | inr (y, k) ↦ rw (k, mark_cooling) b
  ]

  mark_cooling-Cooling :
      (m : Dict Cooldown) (c : Cooldown) (s : ServiceState)
      → lookup name m ≡ some c
      → Cooling c (mark_cooling m s)
  mark_cooling-Cooling m c s e = elim (Option-cases (lookup s.name m)) [
    | inl k ↦ rw (k, mark_cooling) (λ q. cc (q, k, e))
    | inr (y, k) ↦ rw (k, mark_cooling) (λ q. cc (q, k, e))
  ]

-- A service that `decide` may act on is neither marked as busy nor as cooling.
decide_spares :
    (d : Daemon) (obs : Observation) (name : String) (P : ServiceState → Type 0)
    → All (λ s. s.name ≡ name → P s) obs.services
    → ((s : ServiceState) → P s → s.cooldown_until ≡ 0 → s.action_in_flight ≡ false → ⊥)
    → All (λ a. a.service ≢ name) (decide d.cfg obs).actions
decide_spares d obs name P marked clash =
    All-imp (Grounds obs (decide d.cfg obs)) _ (decide d.cfg obs).actions
      (λ a (b, found, j, known, short) e.
        clash j.victim
          (mem_of_All (λ s. s.name ≡ name → P s) obs.services marked j.victim j.listed
            (sym j.named ∙ e))
          j.eligible.rested j.eligible.slot_free)
      (decide-IsJustified d.cfg obs)

module _ (env : Env) (d : Daemon) (s : State) (name : String) where
  -- The plan of a round is the one of its observation.
  tick-plan : (tick env d s).0 ≡ decide d.cfg (cooled_observation env d s).0
  unfolding tick
  tick-plan = refl

  -- While a recorded cooldown lasts, a round of the poll loop plans no action on its service: the
  -- time at which the round looks is before its end.
  pub tick_spares_cooling :
      (c : Cooldown)
      → IsValid d.cfg s
      → lookup name s.cooldowns ≡ some c
      → env.now (observation env d s).1.calls < c.until
      → All (λ a. a.service ≢ name) (tick env d s).0.actions
  unfolding cooled_observation apply_cooldowns observation
  tick_spares_cooling c v e before =
      let now = env.now (observation env d s).1.calls in
      let seen = observation env d s in
      let cooling : Dict Cooldown = keep_if (λ x. ltb now x.until) seen.1.cooldowns in
      let found : lookup name cooling ≡ some c =
        lookup-keep_if (λ x. ltb now x.until) name s.cooldowns v.cooldowns_unique
        ∙ ap (pass (λ x. ltb now x.until)) e
        ∙ ground arith in
      rw tick-plan (
        decide_spares d (cooled_observation env d s).0 name (λ x. x.cooldown_until ≡ c.until)
          (All-map (Cooling name c) (mark_cooling cooling) seen.0.services
            (λ x. mark_cooling-Cooling name cooling c x found))
          (λ x k z b. omega (arith, k, z, before)))

  -- While an action on a service is in flight, a round plans no other action on it.
  pub tick_spares_busy :
      (x : Unit {0})
      → lookup name s.inflight ≡ some x
      → All (λ a. a.service ≢ name) (tick env d s).0.actions
  unfolding cooled_observation apply_cooldowns observation apply_inflight
  tick_spares_busy x e = rw tick-plan (
      decide_spares d (cooled_observation env d s).0 name (λ y. y.action_in_flight ≡ true)
        (map-All (Busy name) (mark_cooling _) _ (
          All-imp (Busy name) _ _ (λ y. mark_cooling-Busy name _ y)
            (All-map (Busy name) (mark_busy s.inflight) (observe env d.observer s.calls).0.services
              (λ y. mark_busy-Busy name s.inflight x y e))))
        (λ y k z b. cc (k, b)))
