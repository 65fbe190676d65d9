-- ===== src/Daemon/Overlap.antt =====
-- internal/daemon/daemon.go: actions that overlap. `execute` starts a goroutine for each action; here
-- a job is such a goroutine between two of its uses of the shared state, and a step moves one job, or
-- starts the jobs of a plan, or is one of the daemon's other work, which takes no slot.
pub mod Slots
pub mod Alone
pub mod Fair
use gpu_bouncer.Base.{
  ℕ, zero, suc, ◌+◌, ◌≡◌, String, ◌==◌, Bool, true, false, not, ◌&&◌, Option, none, some, List, [],
  ◌∷◌, ◌++◌, map, if◌then◌else◌,
}
use gpu_bouncer.Base.Dict.{lookup}
use gpu_bouncer.Config.Types.{Service, service}
use gpu_bouncer.Adapter.{Outcome}
use gpu_bouncer.Scheduler.Types.{Action}
use gpu_bouncer.Observe.{Env}
use gpu_bouncer.Ipc.{ActionResult}
use gpu_bouncer.Daemon.State.{
  Daemon, State, M, ◌>>=◌, ◌>>◌, pure, acquire, release_slot, record_effect,
}
use gpu_bouncer.Daemon.Execute.{read_free, run_verb, is_stop, blank_result, with_outcome}

-- Where `executeGuarded` stands. From `holding` to `leaving` it has the slot of its service.
pub data Phase : Type 0 where
  waiting : Phase
  holding : Phase
  ready : (r : ActionResult) → Phase
  performed : (o : Outcome × Option String) (r : ActionResult) → Phase
  effect : (r : ActionResult) → Phase
  leaving : (r : ActionResult) → Phase
  finished : (r : ActionResult) → Phase

pub record Job : Type 0 where
  pub action : Action
  pub phase : Phase

abbrev pub new_job : Action → Job
new_job a = record { action = a; phase = waiting }

module _ (env : Env) (d : Daemon) where
  abbrev pub skipped : Action → ActionResult
  skipped a = record (blank_result env d a none) {
    detail = "skipped, an action on it is already in flight";
  }

  -- The checks of `executeOne`: the verb is run next, or the result is there.
  abbrev pub permitted_phase : Service → Action → ActionResult → Phase
  permitted_phase svc a r =
      if is_stop env d a.verb && not svc.allow_stop
      then leaving (record r { error = "refusing to stop: allow_stop is not set for this service" })
      else if d.dry_run
      then leaving
          (record r { detail = "dry run, nothing was done"; free_after_mib = r.free_before_mib })
      else ready r

  unfoldable pub checked_phase : Action → ActionResult → Phase
  checked_phase a r = elim (service d.cfg.services a.service) [
    | none ↦ leaving (record r { error = "service is not in the config" })
    | some svc ↦ elim (lookup a.service d.observer.adapters) [
      | none ↦ leaving (record r { error = "no adapter" })
      | some kind ↦ permitted_phase svc a r
    ]
  ]

  -- From one use of the shared state to the next.
  unfoldable pub advance : Action → Phase → M Phase
  advance a waiting s =
      let (free, s') = acquire a.service s in (if free then holding else finished (skipped a), s')
  advance a holding s =
      let (before, s') = read_free env d s in (checked_phase a (blank_result env d a before), s')
  advance a (ready r) s = let (o, s') = run_verb env d a.service a.verb s in (performed o r, s')
  advance a (performed o r) s =
      let (after, s') = read_free env d s in
      (effect (record (with_outcome o r) { free_after_mib = after }), s')
  advance a (effect r) s =
      let (u, s') = record_effect d.cfg.policy (env.now s.calls) r s in (leaving r, s')
  advance a (leaving r) s = let (u, s') = release_slot a.service s in (finished r, s')
  advance a (finished r) s = (finished r, s)

  unfoldable pub advance_job : Job → M Job
  advance_job j s = let (phase, s') = advance j.action j.phase s in (record j { phase = phase }, s')

  -- The i-th job moves.
  unfoldable pub advance_at : ℕ → List Job → M (List Job)
  advance_at i [] s = ([], s)
  advance_at zero (j ∷ js) s = let (j', s') = advance_job j s in (j' ∷ js, s')
  advance_at (suc i) (j ∷ js) s = let (js', s') = advance_at i js s in (j ∷ js', s')

  pub data Step : List Job → State → List Job → State → Type 0 where
    starts :
        (actions : List Action) (jobs : List Job) (s : State)
        → Step jobs s (map new_job actions ++ jobs) s
    moves :
        (i : ℕ) (jobs : List Job) (s : State)
        → Step jobs s (advance_at i jobs s).0 (advance_at i jobs s).1
    elsewhere : (jobs : List Job) (s s' : State) → s'.inflight ≡ s.inflight → Step jobs s jobs s'

  -- What may come of a daemon that has just started.
  pub data Runs (s₀ : State) : List Job → State → Type 0 where
    at_start : Runs s₀ [] s₀
    then_step :
        (jobs jobs' : List Job) (s s' : State)
        → Runs s₀ jobs s
        → Step jobs s jobs' s'
        → Runs s₀ jobs' s'
