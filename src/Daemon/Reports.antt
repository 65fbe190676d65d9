-- ===== src/Daemon/Reports.antt =====
-- internal/daemon/daemon.go: the values that replies are made of.
use gpu_bouncer.Base.{
  ℕ, String, Bool, true, false, Option, none, some, List, [], ◌∷◌, map, ltb, leb, join,
  if◌then◌else◌,
}
use Prim.Native.String.{len, slice, ◌++◌ as append_text}
use gpu_bouncer.Config.Types.{Config, service, digest_recipe}
use gpu_bouncer.Adapter.{Item}
use gpu_bouncer.Scheduler.Types.{Claim, Plan}
use gpu_bouncer.Observe.{ServiceStatus}
use gpu_bouncer.Ipc.{ActionResult, ItemLabel, ServiceReport, ClaimReport, ConfigReport}

-- `elide`, by bytes.
abbrev pub elide : String → String
elide name = if leb (len name) 80 then name else append_text (slice name 0 80) "..."

abbrev pub config_report : Config → ConfigReport
config_report cfg = record {
  path = join cfg.sources;
  paths = cfg.sources;
  sha256 = cfg.hash;
  digest_recipe = digest_recipe;
  loaded_at = cfg.loaded_at;
}

abbrev pub item_label : Item → ItemLabel
item_label item = record {
  name = item.name;
  vram_mib = if ltb 0 item.vram_mib then some item.vram_mib else none;
  detail = item.detail;
}

abbrev pub error_text : Option String → String
error_text none = ""
error_text (some e) = e

abbrev pub service_report : ServiceStatus → ServiceReport
service_report s = record {
  name = s.service.name;
  adapter = s.service.adapter;
  priority = s.service.priority;
  up = s.status.up;
  version = s.status.version;
  items = map item_label s.status.items;
  held_mib = s.status.held_mib;
  held_estimated = s.status.held_estimated;
  idle = s.status.idle;
  idle_known = s.status.idle_known;
  allow_stop = s.service.allow_stop;
  error = error_text s.err;
}

abbrev pub claim_report : Claim → ClaimReport
claim_report c = record { service = c.service; need_mib = c.need_mib; at = c.at }

abbrev pub is_configured : Config → String → Bool
is_configured cfg name = elim (service cfg.services name) [ none ↦ false | some svc ↦ true ]

-- The last action's own reading, if there is one.
abbrev pub last_free : ℕ → List ActionResult → ℕ
last_free free [] = free
last_free free (r ∷ []) = elim r.free_after_mib [ none ↦ free | some after ↦ after ]
last_free free (r ∷ q ∷ rs) = last_free free (q ∷ rs)

abbrev pub measured_free : Plan → List ActionResult → Option ℕ → ℕ
measured_free plan executed (some after) = after
measured_free plan executed none = last_free plan.current_free_mib executed
