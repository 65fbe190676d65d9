-- ===== src/Daemon/Overlap/Alone.antt =====
-- internal/daemon/daemon.go: a job that runs without interruption is one guarded execution, and jobs
-- that are left to run give their slots back.
use gpu_bouncer.Base.{
  ℕ, zero, suc, ◌≡◌, refl, ap, ◌∙◌, Bool, true, false, not, ◌&&◌, inl, inr, if◌then◌else◌,
  Option-cases,
}
use gpu_bouncer.Base.Dict.{lookup}
use gpu_bouncer.Scheduler.Types.{Action}
use gpu_bouncer.Config.Types.{Service, service}
use gpu_bouncer.Observe.{Env}
use gpu_bouncer.Ipc.{ActionResult}
use gpu_bouncer.Daemon.State.{Daemon, State, M, pure, acquire, release_slot}
use gpu_bouncer.Daemon.Execute.{
  read_free, is_stop, blank_result, act, permitted, checked, execute_one, run_in_slot,
  execute_guarded,
}
use gpu_bouncer.Daemon.Overlap.{
  Phase, waiting, holding, ready, leaving, finished, checked_phase, permitted_phase, skipped,
  advance,
}

module _ (env : Env) (d : Daemon) where
  -- So many steps of one job, with nothing between them.
  unfoldable pub run_alone : ℕ → Action → Phase → M Phase
  run_alone zero a phase s = (phase, s)
  run_alone (suc n) a phase s =
      let (phase', s') = advance env d a phase s in run_alone n a phase' s'

  -- A finished job stays as it is.
  run_alone-finished :
      (n : ℕ) (a : Action) (r : ActionResult) (s : State)
      → run_alone n a (finished r) s ≡ (finished r, s)
  unfolding run_alone advance
  run_alone-finished zero a r s = refl
  run_alone-finished (suc n) a r s = run_alone-finished n a r s

  step_alone :
      (n : ℕ) (a : Action) (phase phase' : Phase) (s s' : State)
      → advance env d a phase s ≡ (phase', s')
      → run_alone (suc n) a phase s ≡ run_alone n a phase' s'
  unfolding run_alone
  step_alone n a phase phase' s s' e = ap (λ p. run_alone n a p.0 p.1) e

  -- What is left of a job that holds its slot, with the result that the checks lead to.
  abbrev ends_with : Action → ActionResult × State → Phase × State
  ends_with a (r, s) = (finished r, (release_slot a.service s).1)

  leaving-run :
      (n : ℕ) (a : Action) (r : ActionResult) (s : State)
      → run_alone (suc n) a (leaving r) s ≡ ends_with a (r, s)
  unfolding advance
  leaving-run n a r s =
      step_alone n a (leaving r) (finished r) s (release_slot a.service s).1 refl
      ∙ run_alone-finished n a r (release_slot a.service s).1

  ready-run :
      (a : Action) (r : ActionResult) (s : State)
      → run_alone 4 a (ready r) s ≡ ends_with a (act env d a r s)
  unfolding run_alone advance act
  ready-run a r s = refl

  -- The two refusals of `permitted`, and the action behind them.
  flags-run :
      (stop_refused dry : Bool) (a : Action) (r stopped idle : ActionResult) (s : State)
      → run_alone 4 a
          (if stop_refused then leaving stopped else if dry then leaving idle else ready r)
          s
        ≡ ends_with a
            ((if stop_refused then pure stopped else if dry then pure idle else act env d a r) s)
  flags-run true dry a r stopped idle s = leaving-run 3 a stopped s
  flags-run false true a r stopped idle s = leaving-run 3 a idle s
  flags-run false false a r stopped idle s = ready-run a r s

  permitted-run :
      (svc : Service) (a : Action) (r : ActionResult) (s : State)
      → run_alone 4 a (permitted_phase env d svc a r) s ≡ ends_with a (permitted env d svc a r s)
  unfolding permitted
  permitted-run svc a r s =
      flags-run (is_stop env d a.verb && not svc.allow_stop) d.dry_run a r _ _ s

  checked-run :
      (a : Action) (r : ActionResult) (s : State)
      → run_alone 4 a (checked_phase env d a r) s ≡ ends_with a (checked env d a r s)
  unfolding checked checked_phase
  checked-run a r s = elim (Option-cases (service d.cfg.services a.service)) [
    | inl q ↦ rw (q, checked, checked_phase) (leaving-run 3 a _ s)
    | inr (svc, q) ↦ elim (Option-cases (lookup a.service d.observer.adapters)) [
      | inl p ↦ rw (q, p, checked, checked_phase) (leaving-run 3 a _ s)
      | inr (kind, p) ↦ rw (q, p, checked, checked_phase) (permitted-run svc a r s)
    ]
  ]

  holding-run :
      (a : Action) (s : State) → run_alone 5 a holding s ≡ ends_with a (execute_one env d a s)
  unfolding advance execute_one
  holding-run a s =
      let (before, s') = read_free env d s in
      step_alone 4 a holding (checked_phase env d a (blank_result env d a before)) s s' refl
      ∙ checked-run a (blank_result env d a before) s'

  acquired-run :
      (free : Bool) (a : Action) (s : State)
      → run_alone 5 a (if free then holding else finished (skipped env d a)) s
        ≡ (finished (run_in_slot env d free a s).0, (run_in_slot env d free a s).1)
  unfolding run_in_slot
  acquired-run true a s = holding-run a s
  acquired-run false a s = run_alone-finished 5 a (skipped env d a) s

  -- `executeGuarded` is what a job does that is left alone for its six steps.
  run_alone-execute_guarded :
      (a : Action) (s : State)
      → run_alone 6 a waiting s
        ≡ (finished (execute_guarded env d a s).0, (execute_guarded env d a s).1)
  unfolding advance execute_guarded
  run_alone-execute_guarded a s =
      let (free, s') = acquire a.service s in
      step_alone 5 a waiting (if free then holding else finished (skipped env d a)) s s' refl
      ∙ acquired-run free a s'
