-- ===== src/Tests.antt =====
-- A configuration and an observation of a small machine, for the examples.
pub mod Plans
pub mod Control
pub mod Settings
pub mod Sockets
pub mod Loading
pub mod Services
pub mod Machine
pub mod Overlap
use gpu_bouncer.Base.{String, Bool, true, false, List, [], ◌∷◌, some, none, Option, ℕ, ◌*◌}
use gpu_bouncer.Base.Int.{ℤ, pos}
use gpu_bouncer.Gpu.{Device}
use gpu_bouncer.Config.Types.{
  AdapterKind, adapter_ollama, adapter_comfyui, adapter_systemd_unit, Service, Policy, Config,
  second,
}
use gpu_bouncer.Adapter.{Status, Capabilities}
use gpu_bouncer.Scheduler.Types.{ServiceState, Claim, Observation}
use gpu_bouncer.Observe.{Env, Observer, ok}
use gpu_bouncer.Daemon.State.{Daemon}

abbrev pub llm : Service
llm = record {
  name = "llm";
  adapter = adapter_ollama;
  endpoint = "http://127.0.0.1:11434";
  unit = "";
  user_unit = false;
  priority = pos 5;
  allow_stop = false;
  timeout = pos (5 * second);
  drain_timeout = pos (30 * second);
}

abbrev pub draw : Service
draw = record llm {
  name = "draw";
  adapter = adapter_comfyui;
  endpoint = "http://127.0.0.1:8188";
  priority = pos 10;
}

abbrev pub batch : Service
batch = record llm {
  name = "batch";
  adapter = adapter_systemd_unit;
  endpoint = "";
  unit = "batch.service";
  priority = pos 1;
  allow_stop = true;
}

abbrev pub house : Config
house = record {
  policy = record {
    vram_floor_mib = 512;
    default_workload = "";
    reactive = true;
    poll_interval = pos (5 * second);
    gpu_index = pos 0;
    min_effect_mib = 64;
    action_cooldown = pos (60 * second);
  };
  services = llm ∷ draw ∷ batch ∷ [];
  sources = [];
  hash = "";
  loaded_at = 0;
}

abbrev pub card : Device
card = record {
  index = pos 0;
  uuid = "";
  name = "card";
  bus_id = "";
  vendor = "0x10de";
  total_mib = 24000;
  used_mib = 20000;
  unreadable = "";
}

abbrev pub llm_up : ServiceState
llm_up = record {
  name = "llm";
  priority = pos 5;
  adapter = adapter_ollama;
  up = true;
  held_mib = 12000;
  held_estimated = false;
  can_release = true;
  allow_stop = false;
  stop_unit = false;
  idle = true;
  idle_known = true;
  probe_err = "";
  cooldown_until = 0;
  action_in_flight = false;
}

abbrev pub draw_up : ServiceState
draw_up = record llm_up {
  name = "draw";
  priority = pos 10;
  adapter = adapter_comfyui;
  held_mib = 0;
}

abbrev pub batch_up : ServiceState
batch_up = record llm_up {
  name = "batch";
  priority = pos 1;
  adapter = adapter_systemd_unit;
  held_mib = 8000;
  can_release = false;
  allow_stop = true;
  stop_unit = true;
  idle = false;
  idle_known = false;
}

-- Somebody wants 30000 MiB for drawing.
abbrev pub draw_claim : Claim
draw_claim = record { service = "draw"; need_mib = 30000; at = 7 }

abbrev pub scene : Observation
scene = record {
  device = card;
  device_known = true;
  device_err = "";
  services = llm_up ∷ draw_up ∷ batch_up ∷ [];
  claims = draw_claim ∷ [];
}

abbrev pub works : Status
works = record {
  up = true;
  version = "1";
  items = [];
  held_mib = 8000;
  held_estimated = false;
  idle = true;
  idle_known = true;
}

-- A world in which everything answers.
abbrev pub world : Env
world = record {
  has_source = true;
  devices = λ t. ok (card ∷ []);
  capabilities = λ name. record { can_release = true; can_report_idle = true; can_stop = false };
  probe_reply = λ name t. ok works;
  release_reply = λ name t. (record { acted = true; targets = []; detail = "unloaded" }, none);
  stop_reply = λ name t. (record { acted = true; targets = []; detail = "stopped" }, none);
  now = λ t. 100;
  device_error_text = λ e. "unreadable";
  quote = λ s. s;
}

abbrev pub keeper : Daemon
keeper = record {
  cfg = house;
  observer = record {
    cfg = house;
    adapters =
        ("llm", adapter_ollama) ∷ ("draw", adapter_comfyui) ∷ ("batch", adapter_systemd_unit) ∷ [];
  };
  dry_run = false;
}
