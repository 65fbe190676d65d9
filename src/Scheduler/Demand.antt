-- ===== src/Scheduler/Demand.antt =====
-- internal/scheduler/scheduler.go: who wants the GPU, and how much free VRAM they need.
pub mod Order
pub mod Claims
pub mod Highest
use gpu_bouncer.Base.{
  ℕ, String, ◌==◌, str_lt, Bool, true, false, not, ◌&&◌, ◌||◌, Option, none, some, List, [], ◌∷◌,
  ◌++◌, ltb, leb, eqb, if◌then◌else◌,
}
use gpu_bouncer.Base.Int.{ℤ, ltb_ℤ, eqb_ℤ}
use gpu_bouncer.Base.Sort.{sort_stable}
use gpu_bouncer.Gpu.{free_mib}
use gpu_bouncer.Config.Types.{Config, Service, service}
use gpu_bouncer.Scheduler.Types.{
  Trigger, trigger_none, trigger_request, trigger_reactive, ServiceState, Claim, Observation, Note,
  claims_unconfigured, reactive_off, no_floor, nobody_up, above_floor, workload_not_up,
  find_service,
}

-- A claim with its service's priority (`scored` in `bestClaim`).
pub record Scored : Type 0 where
  pub claim : Claim
  pub priority : ℤ

-- The claims on configured services, with their priorities.
unfoldable pub live : List Service → List Claim → List Scored
live services [] = []
live services (c ∷ cs) =
    let rest = live services cs in
    elim (service services c.service) [
      | some svc ↦ record { claim = c; priority = svc.priority } ∷ rest
      | none ↦ rest
    ]

-- The comparison of `bestClaim`.
unfoldable pub outranks : Scored → Scored → Bool
outranks a b =
    if not (eqb_ℤ a.priority b.priority)
    then ltb_ℤ b.priority a.priority
    else if not (eqb a.claim.at b.claim.at)
    then ltb a.claim.at b.claim.at
    else str_lt a.claim.service b.claim.service

abbrev pub first_claim : List Scored → Option Claim
first_claim [] = none
first_claim (s ∷ ss) = some s.claim

unfoldable pub best_claim : Config → Observation → Option Claim
best_claim cfg obs = first_claim (sort_stable outranks (live cfg.services obs.claims))

-- The test of `highestPriorityUp` for a service to replace the best one so far.
unfoldable pub beats : ServiceState → Option ServiceState → Bool
beats s none = true
beats s (some best) =
    ltb_ℤ best.priority s.priority || (eqb_ℤ s.priority best.priority && str_lt s.name best.name)

abbrev pub is_live : ServiceState → Bool
is_live s = s.up && s.probe_err == ""

unfoldable pub highest_from : Option ServiceState → List ServiceState → Option ServiceState
highest_from best [] = best
highest_from best (s ∷ ss) =
    highest_from
      (if not s.up || not (s.probe_err == "") then best else if beats s best then some s else best)
      ss

unfoldable pub highest_priority_up : List ServiceState → Option ServiceState
highest_priority_up = highest_from none

-- The four results of `selectDemand`.
pub record Demand : Type 0 where
  pub beneficiary : String
  pub target : ℕ
  pub trigger : Trigger
  pub notes : List Note

abbrev pub nobody : List Note → Demand
nobody notes = record { beneficiary = ""; target = 0; trigger = trigger_none; notes = notes }

abbrev pub defend : String → ℕ → List Note → Demand
defend name floor notes = record {
  beneficiary = name;
  target = floor;
  trigger = trigger_reactive;
  notes = notes;
}

-- The last step: the highest priority service that is up.
unfoldable pub fall_back : ℕ → List ServiceState → List Note → Demand
fall_back floor services notes = elim (highest_priority_up services) [
  | some top ↦ defend top.name floor notes
  | none ↦ nobody (notes ++ nobody_up ∷ [])
]

-- The configured default workload, if it is up.
unfoldable pub defend_workload : String → ℕ → List ServiceState → List Note → Demand
unfolding fall_back
defend_workload workload floor services notes =
    if not (workload == "")
    then (elim (find_service services workload) [
      | some svc ↦
          if is_live svc
          then defend workload floor notes
          else fall_back floor services (notes ++ workload_not_up workload ∷ [])
      | none ↦ fall_back floor services (notes ++ workload_not_up workload ∷ [])
    ])
    else fall_back floor services notes

-- Reactive policy, when no claim decides.
unfoldable pub reactive_demand : Config → Observation → List Note → Demand
unfolding defend_workload
reactive_demand cfg obs notes =
    let floor = cfg.policy.vram_floor_mib in
    let free = free_mib obs.device in
    if not cfg.policy.reactive
    then nobody (notes ++ reactive_off ∷ [])
    else if eqb floor 0
    then nobody (notes ++ no_floor ∷ [])
    else if leb floor free
    then nobody (notes ++ above_floor free floor ∷ [])
    else defend_workload cfg.policy.default_workload floor obs.services notes

abbrev pub claimed : ℕ → Claim → Demand
claimed floor best = record {
  beneficiary = best.service;
  target = if eqb best.need_mib 0 then floor else best.need_mib;
  trigger = trigger_request;
  notes = [];
}

abbrev pub any_claims : List Claim → Bool
any_claims [] = false
any_claims (c ∷ cs) = true

unfoldable pub select_demand : Config → Observation → Demand
unfolding reactive_demand
select_demand cfg obs =
    if any_claims obs.claims
    then (elim (best_claim cfg obs) [
      | some best ↦ claimed cfg.policy.vram_floor_mib best
      | none ↦ reactive_demand cfg obs (claims_unconfigured ∷ [])
    ])
    else reactive_demand cfg obs []
