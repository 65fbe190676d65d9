-- ===== src/Daemon/Overlap/Fair.antt =====
-- internal/daemon/daemon.go: actions that each get their turns end, and give every slot back.
use gpu_bouncer.Base.{
  ℕ, zero, suc, ◌+◌, ◌-◌, ◌≤◌, ◌≡◌, refl, String, Bool, true, false, none, List, [], ◌∷◌, All,
  arith, inl, inr, eqb, if◌then◌else◌, Option-cases,
}
use gpu_bouncer.Base.Dict.{lookup}
use gpu_bouncer.Scheduler.Types.{Action}
use gpu_bouncer.Config.Types.{service}
use gpu_bouncer.Observe.{Env}
use gpu_bouncer.Ipc.{ActionResult}
use gpu_bouncer.Daemon.State.{Daemon, State, M, acquire}
use gpu_bouncer.Daemon.Overlap.{
  Phase, waiting, holding, ready, performed, effect, leaving, finished, Job, checked_phase, skipped,
  advance, advance_job, advance_at, Runs, then_step, moves,
}
use gpu_bouncer.Daemon.Overlap.Slots.{here, holders, taken, Runs-IsGuarded}

-- The steps that a job has left at most.
abbrev pub rank : Phase → ℕ
rank waiting = 6
rank holding = 5
rank (ready r) = 4
rank (performed o r) = 3
rank (effect r) = 2
rank (leaving r) = 1
rank (finished r) = 0

abbrev pub rank_at : ℕ → List Job → ℕ
rank_at k [] = 0
rank_at zero (j ∷ js) = rank j.phase
rank_at (suc k) (j ∷ js) = rank_at k js

abbrev pub IsFinished : Phase → Type 0
IsFinished (finished r) = Unit
IsFinished _ = ⊥

-- The turns of the k-th job in a schedule.
abbrev pub turns : ℕ → List ℕ → ℕ
turns k [] = 0
turns k (i ∷ is) = (if eqb i k then 1 else 0) + turns k is

module _ (env : Env) (d : Daemon) where
  -- The jobs move in the order of the schedule.
  unfoldable pub run_schedule : List ℕ → List Job → M (List Job)
  run_schedule [] jobs s = (jobs, s)
  run_schedule (i ∷ is) jobs s =
      let (jobs', s') = advance_at env d i jobs s in run_schedule is jobs' s'

  rank-checked_phase : (a : Action) (r : ActionResult) → rank (checked_phase env d a r) ≤ 4
  unfolding checked_phase
  rank-checked_phase a r = elim (Option-cases (service d.cfg.services a.service)) [
    | inl q ↦ rw (q, checked_phase) (omega arith)
    | inr (svc, q) ↦ elim (Option-cases (lookup a.service d.observer.adapters)) [
      | inl p ↦ rw (q, p, checked_phase) (omega arith)
      | inr (kind, p) ↦ rw (q, p, checked_phase) (ground arith)
    ]
  ]

  rank-acquired :
      (free : Bool) (a : Action) → rank (if free then holding else finished (skipped env d a)) ≤ 5
  rank-acquired true a = omega arith
  rank-acquired false a = omega arith

  rank-advance :
      (a : Action) (phase : Phase) (s : State) → rank (advance env d a phase s).0 ≤ rank phase - 1
  unfolding advance
  rank-advance a waiting s = omega (arith, rank-acquired (acquire a.service s).0 a)
  rank-advance a holding s = omega (arith, rank-checked_phase a _)
  rank-advance a (ready r) s = omega arith
  rank-advance a (performed o r) s = omega arith
  rank-advance a (effect r) s = omega arith
  rank-advance a (leaving r) s = omega arith
  rank-advance a (finished r) s = omega arith

  rank_at-advance_at :
      (i k : ℕ) (jobs : List Job) (s : State)
      → rank_at k (advance_at env d i jobs s).0 ≤ rank_at k jobs - (if eqb i k then 1 else 0)
  unfolding advance_at advance_job
  rank_at-advance_at i k [] s = omega arith
  rank_at-advance_at zero zero (j ∷ js) s = rank-advance j.action j.phase s
  rank_at-advance_at zero (suc k) (j ∷ js) s = ground arith
  rank_at-advance_at (suc i) zero (j ∷ js) s = ground arith
  rank_at-advance_at (suc i) (suc k) (j ∷ js) s = ground (arith, rank_at-advance_at i k js s)

  rank_at-run_schedule :
      (schedule : List ℕ) (k : ℕ) (jobs : List Job) (s : State)
      → rank_at k (run_schedule schedule jobs s).0 ≤ rank_at k jobs - turns k schedule
  unfolding run_schedule
  rank_at-run_schedule [] k jobs s = omega arith
  rank_at-run_schedule (i ∷ is) k jobs s =
      let (jobs', s') = advance_at env d i jobs s in
      omega (arith, rank_at-advance_at i k jobs s, rank_at-run_schedule is k jobs' s')

  run_schedule-Runs :
      (s₀ : State) (schedule : List ℕ) (jobs : List Job) (s : State)
      → Runs env d s₀ jobs s
      → Runs env d s₀ (run_schedule schedule jobs s).0 (run_schedule schedule jobs s).1
  unfolding run_schedule
  run_schedule-Runs s₀ [] jobs s run = run
  run_schedule-Runs s₀ (i ∷ is) jobs s run =
      let (jobs', s') = advance_at env d i jobs s in
      run_schedule-Runs s₀ is jobs' s' (then_step jobs jobs' s s' run (moves i jobs s))

  holders-idle :
      (name : String) (jobs : List Job)
      → All (λ (j : Job). IsFinished j.phase) jobs
      → holders name jobs ≡ 0
  holders-idle name [] h = refl
  holders-idle name (j ∷ js) h =
      omega (arith, here-idle j.action j.phase h.0, holders-idle name js h.1)
    where
      here-idle : (a : Action) (phase : Phase) → IsFinished phase → here name a phase ≡ 0
      here-idle a (finished r) e = refl
      here-idle a waiting e = absurd e
      here-idle a holding e = absurd e
      here-idle a (ready r) e = absurd e
      here-idle a (performed o r) e = absurd e
      here-idle a (effect r) e = absurd e
      here-idle a (leaving r) e = absurd e

  rank-IsFinished : (phase : Phase) → rank phase ≡ 0 → IsFinished phase
  rank-IsFinished (finished r) e = tt
  rank-IsFinished waiting e = absurd (omega (arith, e))
  rank-IsFinished holding e = absurd (omega (arith, e))
  rank-IsFinished (ready r) e = absurd (omega (arith, e))
  rank-IsFinished (performed o r) e = absurd (omega (arith, e))
  rank-IsFinished (effect r) e = absurd (omega (arith, e))
  rank-IsFinished (leaving r) e = absurd (omega (arith, e))

  rank_at-Finished :
      (jobs : List Job)
      → ((k : ℕ) → rank_at k jobs ≡ 0)
      → All (λ (j : Job). IsFinished j.phase) jobs
  rank_at-Finished [] h = tt
  rank_at-Finished (j ∷ js) h =
      (rank-IsFinished j.phase (h zero), rank_at-Finished js (λ k. h (suc k)))

  -- However the turns of the jobs are ordered, in a run of a daemon that starts with no slot taken: once
  -- each job has had as many turns as it has steps left, six for a new one, every one of them has
  -- finished and no service has its slot taken.
  pub run_schedule_frees :
      (s₀ s : State) (jobs : List Job) (schedule : List ℕ) (name : String)
      → ((n : String) → lookup n s₀.inflight ≡ none)
      → Runs env d s₀ jobs s
      → ((k : ℕ) → rank_at k jobs ≤ turns k schedule)
      → All (λ (j : Job). IsFinished j.phase) (run_schedule schedule jobs s).0
        × (taken name (run_schedule schedule jobs s).1.inflight ≡ 0)
  run_schedule_frees s₀ s jobs schedule name free run fair =
      let (jobs', s') = run_schedule schedule jobs s in
      let ended =
        rank_at-Finished jobs'
          (λ k. omega (arith, rank_at-run_schedule schedule k jobs s, fair k)) in
      let idle = holders-idle name jobs' ended in
      let (guarded, one) =
        Runs-IsGuarded env d s₀ s' jobs' name free (run_schedule-Runs s₀ schedule jobs s run) in
      (ended, omega (arith, guarded, idle))
