-- ===== src/Ipc.antt =====
-- internal/ipc/ipc.go: the control protocol's messages, and how long a client waits.
pub mod Client
pub mod Listen
use gpu_bouncer.Base.{
  ℕ, ◌*◌, String, ◌==◌, Bool, true, false, Option, none, some, List, [], if◌then◌else◌,
}
use gpu_bouncer.Base.Int.{ℤ, pos, leb_ℤ, add_int64}
use gpu_bouncer.Gpu.{Device, free_mib}
use gpu_bouncer.Config.Types.{AdapterKind, second}
use gpu_bouncer.Scheduler.Types.{Verb, Reason, Plan}

-- `op_other` is a text that names no operation.
pub data Op : Type 0 where
  op_ping op_status op_plan op_request op_release op_evict : Op
  op_other : String → Op

pub record Request : Type 0 where
  pub op : Op
  pub service : String
  pub need_mib : ℕ
  pub all_except : Bool
  pub dry_run : Bool
  pub plan_first : Bool

-- A reading that failed is `none`.
pub record ActionResult : Type 0 where
  pub service : String
  pub verb : Verb
  pub reason : Reason
  pub acted : Bool
  pub detail : String
  pub error : String
  pub free_before_mib : Option ℕ
  pub free_after_mib : Option ℕ

pub record GpuReport : Type 0 where
  pub known : Bool
  pub index : ℤ
  pub name : String
  pub bus_id : String
  pub vendor : String
  pub source : String
  pub total_mib : ℕ
  pub used_mib : ℕ
  pub free_mib : ℕ
  pub error : String

abbrev pub gpu_report_of : Device → String → GpuReport
gpu_report_of dev source = record {
  known = dev.unreadable == "";
  index = dev.index;
  name = dev.name;
  bus_id = dev.bus_id;
  vendor = dev.vendor;
  source = source;
  total_mib = dev.total_mib;
  used_mib = dev.used_mib;
  free_mib = free_mib dev;
  error = dev.unreadable;
}

-- The text of one item: its name, the memory it holds, and its detail.
pub record ItemLabel : Type 0 where
  pub name : String
  pub vram_mib : Option ℕ
  pub detail : String

pub record ServiceReport : Type 0 where
  pub name : String
  pub adapter : AdapterKind
  pub priority : ℤ
  pub up : Bool
  pub version : String
  pub items : List ItemLabel
  pub held_mib : ℕ
  pub held_estimated : Bool
  pub idle : Bool
  pub idle_known : Bool
  pub allow_stop : Bool
  pub error : String

pub record ClaimReport : Type 0 where
  pub service : String
  pub need_mib : ℕ
  pub at : ℕ

pub record ConfigReport : Type 0 where
  pub path : String
  pub paths : List String
  pub sha256 : String
  pub digest_recipe : String
  pub loaded_at : ℕ

-- The texts of a cooldown's reason. The gain is an `int64`.
pub data CooldownReason : Type 0 where
  freed_too_little : Verb → (gain : ℤ) → (min_effect : ℕ) → CooldownReason
  failed : Verb → (error : String) → CooldownReason

pub record CooldownReport : Type 0 where
  pub service : String
  pub until : ℕ
  pub reason : CooldownReason

-- The texts of `Response.Error`, and those of `Response.Message`.
pub data Refusal : Type 0 where
  unknown_operation : String → Refusal
  needs_service_name : Op → Refusal
  service_not_in_config : (elided : String) → Refusal

pub data Message : Type 0 where
  daemon_running request_dry_run_daemon dry_run_nothing_done release_dry_run_daemon : Message
  updated_claim : (since : ℕ) → Message
  dry_holds_no_claim dry_would_release held_no_claim released_claim : (service : String) → Message

-- What the daemon sends back. A field that it may leave out is an `Option`.
pub record Response : Type 0 where
  pub ok : Bool
  pub error : Option Refusal
  pub preliminary : Bool
  pub longest_action_ms : ℤ
  pub gpu : Option GpuReport
  pub services : List ServiceReport
  pub plan : Option Plan
  pub executed : List ActionResult
  pub target_met : Option Bool
  pub free_after_mib : Option ℕ
  pub claims : List ClaimReport
  pub cooldowns : List CooldownReport
  pub message : Option Message
  pub daemon_config : Option ConfigReport
  pub daemon_dry_run : Option Bool

-- The zero value with `OK` set.
abbrev pub okay : Response
okay = record {
  ok = true;
  error = none;
  preliminary = false;
  longest_action_ms = pos 0;
  gpu = none;
  services = [];
  plan = none;
  executed = [];
  target_met = none;
  free_after_mib = none;
  claims = [];
  cooldowns = [];
  message = none;
  daemon_config = none;
  daemon_dry_run = none;
}

abbrev pub refuse : Refusal → Response
refuse e = record okay { ok = false; error = some e }

abbrev pub client_slack : ℕ
client_slack = 10 * second

abbrev pub plan_wait : ℕ
plan_wait = 90 * second

unfoldable pub wait_for : ℤ → ℤ
wait_for longest =
    if leb_ℤ longest (pos 0) then pos plan_wait else add_int64 longest (pos client_slack)
