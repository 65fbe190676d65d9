-- ===== src/Scheduler/Planning.antt =====
-- internal/scheduler/scheduler.go: `Decide`, `Evict` and `EvictAllExcept`.
pub mod Loop
pub mod Picked
pub mod Cases
pub mod Safety
pub mod Economy
pub mod Evictions
pub mod Keeping
use gpu_bouncer.Base.{
  ℕ, ◌-◌, String, ◌==◌, str_lt, Bool, true, false, not, Option, none, some, List, [], ◌∷◌, ◌++◌,
  ltb, leb, add_u64, if◌then◌else◌,
}
use gpu_bouncer.Base.Sort.{sort_stable}
use gpu_bouncer.Gpu.{free_mib}
use gpu_bouncer.Config.Types.{Config}
use gpu_bouncer.Scheduler.Types.{
  Verb, Trigger, trigger_none, trigger_evict, ServiceState, Observation, VerbReason, Reason, below,
  explicitly_evicted, Action, Note, device_unknown, already_free, not_configured,
  target_met_without, skipped, best_effort, skipped_not_in_config, skipped_probe_failed,
  skipped_not_running, skipped_in_flight, refusing_all, Plan, new_plan, find_service,
}
use gpu_bouncer.Scheduler.Demand.{Demand, select_demand}
use gpu_bouncer.Scheduler.Eviction.{eviction_candidates, Choice, chosen, refused, choose_verb}

-- What the candidate loop of `Decide` has built so far.
pub record Progress : Type 0 where
  pub freed : ℕ
  pub actions : List Action
  pub notes : List Note

abbrev pub release_for : ServiceState → ServiceState → Verb → VerbReason → Action
release_for benefit c verb reason = record {
  service = c.name;
  verb = verb;
  reason = below c.priority benefit.name benefit.priority reason;
  expect_free_mib = c.held_mib;
}

-- The body of the loop.
abbrev pub consider_choice : ServiceState → ServiceState → Choice → Progress → Progress
consider_choice benefit c (refused reason) p = record p {
  notes = p.notes ++ skipped c.name reason ∷ [];
}
consider_choice benefit c (chosen verb reason) p = record p {
  actions = p.actions ++ release_for benefit c verb reason ∷ [];
  freed = add_u64 p.freed c.held_mib;
}

unfoldable pub consider : ServiceState → ℕ → ServiceState → Progress → Progress
consider benefit needed c p =
    if leb needed p.freed
    then record p { notes = p.notes ++ target_met_without c.name ∷ [] }
    else consider_choice benefit c (choose_verb c) p

unfoldable pub free_candidates : ServiceState → ℕ → List ServiceState → Progress → Progress
free_candidates benefit needed [] p = p
free_candidates benefit needed (c ∷ cs) p =
    free_candidates benefit needed cs (consider benefit needed c p)

-- `Decide` once the beneficiary is known: its target is above what is free.
unfoldable pub free_for : Plan → List ServiceState → ServiceState → Plan
unfolding eviction_candidates
free_for plan services benefit =
    let needed = plan.target_free_mib - plan.current_free_mib in
    let (candidates, passed_over) = eviction_candidates services benefit in
    let p =
      free_candidates benefit needed candidates
        (record { freed = 0; actions = plan.actions; notes = plan.notes ++ passed_over }) in
    record plan {
      actions = p.actions;
      notes = if ltb p.freed needed then p.notes ++ best_effort p.freed needed ∷ [] else p.notes;
    }

abbrev pub wants_nothing : Trigger → Bool
wants_nothing trigger_none = true
wants_nothing _ = false

-- `Decide` with a readable device and a demand.
unfoldable pub answer : Plan → List ServiceState → Plan
answer plan services =
    if wants_nothing plan.trigger
    then plan
    else if leb plan.target_free_mib plan.current_free_mib
    then record plan {
      notes = plan.notes ++ already_free plan.current_free_mib plan.target_free_mib ∷ [];
    }
    else (elim (find_service services plan.beneficiary) [
      | none ↦ record plan {
        notes = plan.notes ++ not_configured plan.beneficiary ∷ [];
        trigger = trigger_none;
      }
      | some benefit ↦ free_for plan services benefit
    ])

abbrev pub demand_plan : Observation → Demand → Plan
demand_plan obs d = record {
  trigger = d.trigger;
  beneficiary = d.beneficiary;
  current_free_mib = free_mib obs.device;
  target_free_mib = d.target;
  total_mib = obs.device.total_mib;
  actions = [];
  notes = d.notes;
}

unfoldable pub decide : Config → Observation → Plan
decide cfg obs =
    if not obs.device_known
    then record (new_plan trigger_none) { notes = device_unknown obs.device_err ∷ [] }
    else answer (demand_plan obs (select_demand cfg obs)) obs.services

-- The verdict of `Evict` on one named service: an action or the note that refuses it.
abbrev pub evict_action : String → ServiceState → Verb → VerbReason → Action
evict_action name svc verb reason = record {
  service = name;
  verb = verb;
  reason = explicitly_evicted reason;
  expect_free_mib = svc.held_mib;
}

abbrev pub evict_choice : String → ServiceState → Choice → Plan → Plan
evict_choice name svc (refused reason) plan = record plan {
  notes = plan.notes ++ skipped name reason ∷ [];
}
evict_choice name svc (chosen verb reason) plan = record plan {
  actions = plan.actions ++ evict_action name svc verb reason ∷ [];
}

unfoldable pub evict_found : String → ServiceState → Plan → Plan
evict_found name svc plan =
    if not (svc.probe_err == "")
    then record plan { notes = plan.notes ++ skipped_probe_failed name svc.probe_err ∷ [] }
    else if not svc.up
    then record plan { notes = plan.notes ++ skipped_not_running name ∷ [] }
    else if svc.action_in_flight
    then record plan { notes = plan.notes ++ skipped_in_flight name ∷ [] }
    else evict_choice name svc (choose_verb svc) plan

-- The body of the loop of `Evict`.
unfoldable pub evict_one : List ServiceState → String → Plan → Plan
unfolding evict_found
evict_one services name plan = elim (find_service services name) [
  | none ↦ record plan { notes = plan.notes ++ skipped_not_in_config name ∷ [] }
  | some svc ↦ evict_found name svc plan
]

unfoldable pub evict_names : List ServiceState → List String → Plan → Plan
evict_names services [] plan = plan
evict_names services (name ∷ names) plan = evict_names services names (evict_one services name plan)

abbrev pub read_plan : Observation → Plan → Plan
read_plan obs plan = record plan {
  current_free_mib = free_mib obs.device;
  total_mib = obs.device.total_mib;
}

unfoldable pub evict : Observation → List String → Plan
evict obs names =
    if not obs.device_known
    then record (new_plan trigger_evict) { notes = device_unknown obs.device_err ∷ [] }
    else evict_names obs.services names (read_plan obs (new_plan trigger_evict))

unfoldable pub names_except : String → List ServiceState → List String
names_except keep [] = []
names_except keep (s ∷ ss) =
    let rest = names_except keep ss in if not (s.name == keep) then s.name ∷ rest else rest

unfoldable pub refuse_all : Observation → String → Plan
refuse_all obs keep =
    let plan = record (new_plan trigger_evict) { notes = refusing_all keep ∷ [] } in
    if obs.device_known
    then read_plan obs plan
    else record plan { notes = plan.notes ++ device_unknown obs.device_err ∷ [] }

unfoldable pub evict_all_except : Observation → String → Plan
unfolding evict refuse_all
evict_all_except obs keep = elim (find_service obs.services keep) [
  | none ↦ refuse_all obs keep
  | some _ ↦ record (evict obs (sort_stable str_lt (names_except keep obs.services))) {
    beneficiary = keep;
  }
]
