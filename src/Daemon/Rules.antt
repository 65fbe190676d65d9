-- ===== src/Daemon/Rules.antt =====
-- A relation between the daemon's states that holds across its basic steps holds across its actions.
use gpu_bouncer.Base.{
  ℕ, ◌≡◌, refl, String, Bool, true, false, not, ◌&&◌, some, List, [], ◌∷◌, Option-cases, inl, inr,
  arith, if◌then◌else◌,
}
use gpu_bouncer.Base.Dict.{lookup}
use gpu_bouncer.Config.Types.{Service, service}
use gpu_bouncer.Scheduler.Types.{Action, Verb, verb_stop, Plan, Observation}
use gpu_bouncer.Observe.{Trace, Env}
use gpu_bouncer.Ipc.{Request, ActionResult}
use gpu_bouncer.Daemon.State.{
  Daemon, State, M, pure, acquire, release_slot, apply_cooldowns, record_effect, observation,
}
use gpu_bouncer.Daemon.Execute.{
  announce, read_free, run_verb, act, is_stop, permitted, checked, execute_one, run_in_slot,
  execute_guarded, execute_all, free_after,
}
use gpu_bouncer.Daemon.Handlers.{cooled_observation, tick}
use gpu_bouncer.Daemon.Steps.{
  IsPreorder, Respects, Added, ReadOnly, device-ReadOnly, observe-ReadOnly,
}

-- The basic steps: reading, a permitted verb, and the operations on the tables.
pub record IsKept (env : Env) (d : Daemon) (R : State → State → Type 0) : Type 0 where
  pub preorder : IsPreorder R
  pub reads : (s : State) (t : Trace) → Added ReadOnly s.calls t → R s (record s { calls = t })
  pub verbs :
      (name : String) (v : Verb) (svc : Service)
      → service d.cfg.services name ≡ some svc
      → d.dry_run ≡ false
      → (v ≡ verb_stop → svc.allow_stop ≡ true)
      → Respects R (run_verb env d name v)
  pub acquires : (name : String) → Respects R (acquire name)
  pub releases : (name : String) → Respects R (release_slot name)
  pub records : (now : ℕ) (r : ActionResult) → Respects R (record_effect d.cfg.policy now r)
  pub cools : (now : ℕ) (obs : Observation) → Respects R (apply_cooldowns now obs)
  pub announces :
      (req : Request) (can_send : Bool) (plan : Plan)
      → Respects R (announce d.cfg req can_send plan)

module _ (env : Env) (d : Daemon) {R : State → State → Type 0} (kept : IsKept env d R) where
  open kept use {preorder, reads, verbs, acquires, releases, records, cools, announces}

  abbrev pub Keeps : {A : Type 0} → M A → Type 0
  Keeps = Respects R

  pub stays : {A : Type 0} (a : A) → Keeps (pure a)
  stays a s = preorder.rel_refl s

  pub chain : (s t u : State) → R s t → R t u → R s u
  chain = preorder.rel_trans

  read_free-Keeps : Keeps (read_free env d)
  unfolding read_free
  read_free-Keeps s = reads s _ (device-ReadOnly env d.observer s.calls)

  act-Keeps :
      (a : Action) (r : ActionResult)
      → Keeps (run_verb env d a.service a.verb)
      → Keeps (act env d a r)
  unfolding act
  act-Keeps a r h s =
      let t = (run_verb env d a.service a.verb s).1 in
      let u = (read_free env d t).1 in
      chain s u _ (chain s t u (h s) (read_free-Keeps t)) (records _ _ u)

  -- The branches of a test.
  pub if-Keeps :
      {A : Type 0} (b : Bool) (m n : M A)
      → (b ≡ true → Keeps m)
      → (b ≡ false → Keeps n)
      → Keeps (if b then m else n)
  if-Keeps true m n f g = f refl
  if-Keeps false m n f g = g refl

  permitted-Keeps :
      (svc : Service) (a : Action) (r : ActionResult)
      → service d.cfg.services a.service ≡ some svc
      → Keeps (permitted env d svc a r)
  unfolding permitted
  permitted-Keeps svc a r e =
      if-Keeps (is_stop env d a.verb && not svc.allow_stop) _ _ (λ _. preorder.rel_refl)
        λ fine.
          if-Keeps d.dry_run _ _ (λ _. preorder.rel_refl)
            λ wet. act-Keeps a r (verbs a.service a.verb svc e wet (λ k. ground arith))

  checked-Keeps : (a : Action) (r : ActionResult) → Keeps (checked env d a r)
  unfolding checked
  checked-Keeps a r s = elim (Option-cases (service d.cfg.services a.service)) [
    | inl e ↦ rw (e, checked) (preorder.rel_refl s)
    | inr (svc, e) ↦ elim (Option-cases (lookup a.service d.observer.adapters)) [
      | inl k ↦ rw (e, k, checked) (preorder.rel_refl s)
      | inr (kind, k) ↦ rw (e, k, checked) (permitted-Keeps svc a r e s)
    ]
  ]

  execute_one-Keeps : (a : Action) → Keeps (execute_one env d a)
  unfolding execute_one
  execute_one-Keeps a s =
      let t = (read_free env d s).1 in chain s t _ (read_free-Keeps s) (checked-Keeps a _ t)

  run_in_slot-Keeps : (free : Bool) (a : Action) → Keeps (run_in_slot env d free a)
  unfolding run_in_slot
  run_in_slot-Keeps false a s = preorder.rel_refl s
  run_in_slot-Keeps true a s =
      let t = (execute_one env d a s).1 in
      chain s t _ (execute_one-Keeps a s) (releases a.service t)

  execute_guarded-Keeps : (a : Action) → Keeps (execute_guarded env d a)
  unfolding execute_guarded
  execute_guarded-Keeps a s =
      let t = acquire a.service s in
      chain s t.1 _ (acquires a.service s) (run_in_slot-Keeps t.0 a t.1)

  execute_all-Keeps : (actions : List Action) → Keeps (execute_all env d actions)
  unfolding execute_all
  execute_all-Keeps [] s = preorder.rel_refl s
  execute_all-Keeps (a ∷ rest) s =
      let t = (execute_guarded env d a s).1 in
      chain s t _ (execute_guarded-Keeps a s) (execute_all-Keeps rest t)

  free_after-Keeps : (rs : List ActionResult) → Keeps (free_after env d rs)
  unfolding free_after
  free_after-Keeps [] s = preorder.rel_refl s
  free_after-Keeps (r ∷ rs) s = read_free-Keeps s

  pub observation-Keeps : Keeps (observation env d)
  unfolding observation
  observation-Keeps s = reads s _ (observe-ReadOnly env d.observer s.calls)

  pub cooled_observation-Keeps : Keeps (cooled_observation env d)
  unfolding cooled_observation
  cooled_observation-Keeps s =
      let t = observation env d s in chain s t.1 _ (observation-Keeps s) (cools _ t.0 t.1)

  pub tick-Keeps : Keeps (tick env d)
  unfolding tick
  tick-Keeps s =
      let t = (cooled_observation env d s).1 in
      chain s t _ (cooled_observation-Keeps s) (execute_all-Keeps _ t)

  -- A plan is announced, carried out, and measured.
  pub carry_out-Keeps :
      (req : Request) (can_send : Bool) (plan : Plan) (s : State)
      → let told = (announce d.cfg req can_send plan s).1 in
        let done = execute_all env d plan.actions told in R s (free_after env d done.0 done.1).1
  carry_out-Keeps req can_send plan s =
      let told = (announce d.cfg req can_send plan s).1 in
      let done = execute_all env d plan.actions told in
      chain s told _ (announces req can_send plan s)
        (chain told done.1 _ (execute_all-Keeps plan.actions told) (free_after-Keeps done.0 done.1))
