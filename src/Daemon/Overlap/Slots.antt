-- ===== src/Daemon/Overlap/Slots.antt =====
-- internal/daemon/daemon.go: one action at a time on each service, in every interleaving.
use gpu_bouncer.Base.{
  ℕ, zero, suc, ◌+◌, ◌≤◌, ◌≡◌, refl, ap, sym, subst, ◌∙◌, String, ◌==◌, eq_iff, Bool, true, false,
  ◌&&◌, none, some, List, [], ◌∷◌, ◌++◌, map, arith, inl, inr, if◌then◌else◌, Option-cases,
}
use gpu_bouncer.Base.Dict.{Dict, lookup, insert, delete, lookup-insert, lookup-delete}
use gpu_bouncer.Scheduler.Types.{Action, Verb, verb_release, verb_stop, verb_other}
use gpu_bouncer.Config.Types.{Policy, Service, service}
use gpu_bouncer.Observe.{Env, device}
use gpu_bouncer.Ipc.{ActionResult}
use gpu_bouncer.Daemon.State.{Daemon, State, acquire, release_slot, record_effect}
use gpu_bouncer.Daemon.Execute.{read_free, run_verb}
use gpu_bouncer.Daemon.Overlap.{
  Phase, waiting, holding, ready, performed, effect, leaving, finished, Job, new_job, checked_phase,
  permitted_phase, advance, advance_job, advance_at, Step, starts, moves, elsewhere, Runs, at_start,
  then_step,
}

-- From the acquiring of the slot to its release.
abbrev pub holds : Phase → Bool
holds waiting = false
holds (finished r) = false
holds _ = true

abbrev pub here : String → Action → Phase → ℕ
here name a phase = if holds phase && a.service == name then 1 else 0

-- How many jobs are at work on a service.
abbrev pub holders : String → List Job → ℕ
holders name [] = 0
holders name (j ∷ js) = here name j.action j.phase + holders name js

-- Whether the service's slot is taken.
abbrev pub taken : String → Dict (Unit {0}) → ℕ
taken name inflight = elim (lookup name inflight) [ none ↦ 0 | some u ↦ 1 ]

taken-insert :
    (n name : String) (m : Dict (Unit {0}))
    → taken name (insert n tt m) ≡ (if n == name then 1 else taken name m)
taken-insert n name m = ground (arith, lookup-insert n name tt m)

taken-delete :
    (n name : String) (m : Dict (Unit {0}))
    → taken name (delete n m) ≡ (if n == name then 0 else taken name m)
taken-delete n name m = ground (arith, lookup-delete n name m)

record_effect-inflight :
    (p : Policy) (now : ℕ) (r : ActionResult) (s : State)
    → (record_effect p now r s).1.inflight ≡ s.inflight
unfolding record_effect
record_effect-inflight p now r s = ground arith

-- With the slot of a service goes a holder of it.
taken-insert_free :
    (n name : String) (m : Dict (Unit {0}))
    → lookup n m ≡ none
    → (if n == name then 1 else 0) + taken name m ≡ taken name (insert n tt m)
taken-insert_free n name m q = ground (arith, eq_iff n name, taken-insert n name m, free)
  where
    free : n ≡ name → taken name m ≡ 0
    free e = ap (λ k. taken k m) (sym e) ∙ ap (λ o. elim o [ none ↦ 0 | some u ↦ 1 ]) q

taken-delete_held :
    (n name : String) (m : Dict (Unit {0}))
    → 1 ≤ taken n m
    → taken name m ≡ (if n == name then 1 else 0) + taken name (delete n m)
taken-delete_held n name m q = ground (arith, eq_iff n name, taken-delete n name m, held, one)
  where
    held : n ≡ name → 1 ≤ taken name m
    held e = subst (λ k. 1 ≤ taken k m) e q

    one : taken name m ≤ 1
    one = ground arith

module _ (env : Env) (d : Daemon) where
  run_verb-inflight :
      (name : String) (v : Verb) (s : State) → (run_verb env d name v s).1.inflight ≡ s.inflight
  unfolding run_verb
  run_verb-inflight name verb_release s = refl
  run_verb-inflight name verb_stop s = refl
  run_verb-inflight name (verb_other text) s = refl

  holds-permitted_phase :
      (svc : Service) (a : Action) (r : ActionResult) → holds (permitted_phase env d svc a r) ≡ true
  holds-permitted_phase svc a r = ground arith

  holds-checked_phase : (a : Action) (r : ActionResult) → holds (checked_phase env d a r) ≡ true
  unfolding checked_phase
  holds-checked_phase a r = elim (Option-cases (service d.cfg.services a.service)) [
    | inl q ↦ rw (q, checked_phase)
    | inr (svc, q) ↦ elim (Option-cases (lookup a.service d.observer.adapters)) [
      | inl p ↦ rw (q, p, checked_phase)
      | inr (kind, p) ↦ rw (q, p, checked_phase) (holds-permitted_phase svc a r)
    ]
  ]

  -- What a move changes in the holders it changes in the slots.
  abbrev Balanced : String → Action → Phase → State → Type 0
  Balanced name a phase s =
      here name a (advance env d a phase s).0 + taken name s.inflight
      ≡ here name a phase + taken name (advance env d a phase s).1.inflight

  advance-Balanced :
      (a : Action) (phase : Phase) (s : State) (name : String)
      → here a.service a phase ≤ taken a.service s.inflight
      → Balanced name a phase s
  unfolding advance acquire release_slot read_free run_verb device
  advance-Balanced a waiting s name h = elim (Option-cases (lookup a.service s.inflight)) [
    | inl q ↦
        rw (q, advance, acquire) (omega (arith, taken-insert_free a.service name s.inflight q))
    | inr (u, q) ↦ rw (q, advance, acquire) refl
  ]
  advance-Balanced a holding s name h =
      ap (λ b. (if b && a.service == name then 1 else 0) + taken name s.inflight)
        (holds-checked_phase a _)
  advance-Balanced a (ready r) s name h =
      ap (λ m. (if a.service == name then 1 else 0) + taken name m)
        (sym (run_verb-inflight a.service a.verb s))
  advance-Balanced a (performed o r) s name h = refl
  advance-Balanced a (effect r) s name h =
      ap (λ m. (if a.service == name then 1 else 0) + taken name m)
        (sym (record_effect-inflight d.cfg.policy (env.now s.calls) r s))
  advance-Balanced a (leaving r) s name h = omega (
    arith,
    taken-delete_held a.service name s.inflight (ground (arith, h, eq_iff a.service a.service)),
  )
  advance-Balanced a (finished r) s name h = refl

  -- Every job at work has its slot.
  abbrev pub Covered : List Job → State → Type 0
  Covered jobs s = (name : String) → holders name jobs ≤ taken name s.inflight

  advance_at-Balanced :
      (i : ℕ) (jobs : List Job) (s : State) (name : String)
      → Covered jobs s
      → holders name (advance_at env d i jobs s).0 + taken name s.inflight
        ≡ holders name jobs + taken name (advance_at env d i jobs s).1.inflight
  unfolding advance_at advance_job
  advance_at-Balanced i [] s name h = refl
  advance_at-Balanced zero (j ∷ js) s name h =
      omega (arith, advance-Balanced j.action j.phase s name (omega (arith, h j.action.service)))
  advance_at-Balanced (suc i) (j ∷ js) s name h =
      omega (arith, advance_at-Balanced i js s name (λ n. omega (arith, h n)))

  -- The slots of the daemon's table are those of the jobs at work, one for each.
  abbrev pub IsGuarded : List Job → State → Type 0
  IsGuarded jobs s = (name : String) → holders name jobs ≡ taken name s.inflight

  holders-starts :
      (name : String) (actions : List Action) (jobs : List Job)
      → holders name (map new_job actions ++ jobs) ≡ holders name jobs
  holders-starts name [] jobs = refl
  holders-starts name (a ∷ more) jobs = omega (arith, holders-starts name more jobs)

  Step-IsGuarded :
      (jobs : List Job) (s : State) (jobs' : List Job) (s' : State)
      → Step env d jobs s jobs' s'
      → IsGuarded jobs s
      → IsGuarded jobs' s'
  Step-IsGuarded jobs s _ _ (starts actions _ _) g name = holders-starts name actions jobs ∙ g name
  Step-IsGuarded jobs s _ _ (moves i _ _) g name =
      omega (arith, advance_at-Balanced i jobs s name (λ n. omega (arith, g n)), g name)
  Step-IsGuarded jobs s _ s' (elsewhere _ _ _ e) g name = g name ∙ ap (taken name) (sym e)

  taken-one : (name : String) (m : Dict (Unit {0})) → taken name m ≤ 1
  taken-one name m = ground arith

  Guarded-Runs :
      (s₀ : State) (jobs : List Job) (s : State)
      → ((n : String) → lookup n s₀.inflight ≡ none)
      → Runs env d s₀ jobs s
      → IsGuarded jobs s
  Guarded-Runs s₀ _ _ free at_start name =
      ap (λ o. elim o [ none ↦ 0 | some u ↦ 1 ]) (sym (free name))
  Guarded-Runs s₀ _ _ free (then_step jobs jobs' s s' run step) name =
      Step-IsGuarded jobs s jobs' s' step (Guarded-Runs s₀ jobs s free run) name

  -- Whatever the interleaving of the actions' steps with each other, with the start of other plans and
  -- with the daemon's other work: the slots taken are exactly those of the actions at work, and at most
  -- one action is at work on a service.
  pub Runs-IsGuarded :
      (s₀ s : State) (jobs : List Job) (name : String)
      → ((n : String) → lookup n s₀.inflight ≡ none)
      → Runs env d s₀ jobs s
      → (holders name jobs ≡ taken name s.inflight) × (holders name jobs ≤ 1)
  Runs-IsGuarded s₀ s jobs name free run =
      let guarded = Guarded-Runs s₀ jobs s free run name in
      (guarded, omega (arith, guarded, taken-one name s.inflight))
