-- ===== src/Scheduler/Types.antt =====
-- internal/scheduler/scheduler.go: observations, claims, actions and plans.
-- A time is a number of nanoseconds, and 0 is Go's zero time. A note or a reason is a constructor
-- with the values that the source prints into its text.
use gpu_bouncer.Base.{
  ℕ, String, ◌==◌, Bool, true, false, Option, none, some, List, [], ◌∷◌, ltb, ◌&&◌, add_u64,
  if◌then◌else◌,
}
use gpu_bouncer.Base.Int.{ℤ}
use gpu_bouncer.Gpu.{Device}
use gpu_bouncer.Config.Types.{AdapterKind}

-- `verb_other` is a text that names no verb.
pub data Verb : Type 0 where
  verb_release verb_stop : Verb
  verb_other : String → Verb

pub data Trigger : Type 0 where
  trigger_none trigger_request trigger_reactive trigger_evict : Trigger

pub record ServiceState : Type 0 where
  pub name : String
  pub priority : ℤ
  pub adapter : AdapterKind
  pub up : Bool
  pub held_mib : ℕ
  pub held_estimated : Bool
  pub can_release : Bool
  pub allow_stop : Bool
  pub stop_unit : Bool
  pub idle : Bool
  pub idle_known : Bool
  pub probe_err : String
  pub cooldown_until : ℕ
  pub action_in_flight : Bool

pub record Claim : Type 0 where
  pub service : String
  pub need_mib : ℕ
  pub at : ℕ

pub record Observation : Type 0 where
  pub device : Device
  pub device_known : Bool
  pub device_err : String
  pub services : List ServiceState
  pub claims : List Claim

-- The texts that `chooseVerb` returns.
pub data VerbReason : Type 0 where
  busy has_release_api stop_permitted stop_forbidden no_way : VerbReason

-- The texts of `Action.Reason`.
pub data Reason : Type 0 where
  below : (priority : ℤ) (beneficiary : String) (beneficiary_priority : ℤ) → VerbReason → Reason
  explicitly_evicted : VerbReason → Reason

pub record Action : Type 0 where
  pub service : String
  pub verb : Verb
  pub reason : Reason
  pub expect_free_mib : ℕ

pub data Note : Type 0 where
  device_unknown : (err : String) → Note
  already_free : (free target : ℕ) → Note
  not_configured : (service : String) → Note
  target_met_without : (service : String) → Note
  skipped : (service : String) → VerbReason → Note
  best_effort : (freed needed : ℕ) → Note
  claims_unconfigured reactive_off no_floor nobody_up : Note
  above_floor : (free floor : ℕ) → Note
  workload_not_up : (workload : String) → Note
  probe_failed : (service err : String) → Note
  not_running : (service : String) → Note
  priority_not_below :
      (service : String) (priority : ℤ) (beneficiary : String) (beneficiary_priority : ℤ) → Note
  holds_nothing : (service : String) → Note
  cooling_down : (service : String) (until : ℕ) → Note
  in_flight : (service : String) → Note
  skipped_not_in_config : (service : String) → Note
  skipped_probe_failed : (service err : String) → Note
  skipped_not_running : (service : String) → Note
  skipped_in_flight : (service : String) → Note
  refusing_all : (keep : String) → Note

pub record Plan : Type 0 where
  pub trigger : Trigger
  pub beneficiary : String
  pub current_free_mib : ℕ
  pub target_free_mib : ℕ
  pub total_mib : ℕ
  pub actions : List Action
  pub notes : List Note

abbrev pub new_plan : Trigger → Plan
new_plan trigger = record {
  trigger = trigger;
  beneficiary = "";
  current_free_mib = 0;
  target_free_mib = 0;
  total_mib = 0;
  actions = [];
  notes = [];
}

-- `Plan.Empty`
abbrev pub no_actions : List Action → Bool
no_actions [] = true
no_actions (a ∷ rest) = false

-- The loop of `ExpectedFreeMiB`; a `uint64` sum wraps.
unfoldable pub add_expected : ℕ → List Action → ℕ
add_expected total [] = total
add_expected total (a ∷ rest) = add_expected (add_u64 total a.expect_free_mib) rest

unfoldable pub expected_free_mib : Plan → ℕ
expected_free_mib p =
    let total = add_expected p.current_free_mib p.actions in
    if ltb 0 p.total_mib && ltb p.total_mib total then p.total_mib else total

unfoldable pub find_service : List ServiceState → String → Option ServiceState
find_service [] name = none
find_service (s ∷ ss) name = if s.name == name then some s else find_service ss name
