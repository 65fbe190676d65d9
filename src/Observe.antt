-- ===== src/Observe.antt =====
-- internal/observe/observe.go: from live readings to the scheduler's observation.
-- The program's surroundings answer each call as a function of the calls made before it, so any
-- behaviour of a GPU driver or a service is an instance. Services are probed in config order: the
-- source probes them at once, and a probe changes nothing.
pub mod Complete
use gpu_bouncer.Base.{
  ℕ, String, ◌==◌, Bool, true, false, not, Option, none, some, List, [], ◌∷◌, length, if◌then◌else◌,
}
use gpu_bouncer.Base.Int.{ℤ}
use gpu_bouncer.Base.Dict.{Dict, lookup, insert}
use gpu_bouncer.Gpu.{Device, no_device, device_by_index}
use gpu_bouncer.Config.Types.{AdapterKind, Service, Config}
use gpu_bouncer.Adapter.{
  Status, no_status, Capabilities, no_capabilities, Outcome, has_adapter, err_not_supported,
}
use gpu_bouncer.Scheduler.Types.{ServiceState, Observation}

-- A call to the world outside. `release` and `stop` change a service; the others only read.
pub data Call : Type 0 where
  read_devices : Call
  probe release stop : (service : String) → Call

-- The calls made so far, the last one first.
abbrev pub Trace : Type 0
Trace = List Call

-- Why the arbitrated device could not be read.
pub data DeviceError : Type 0 where
  no_source no_devices : DeviceError
  source_failed : (err : String) → DeviceError
  index_names_no_device : (index : ℤ) (devices : ℕ) → DeviceError
  unreadable : (reason : String) (index : ℤ) (name bus_id : String) → DeviceError

pub data Reply {ℓ} (A : Type ℓ) : Type ℓ where
  ok : A → Reply A
  err : String → Reply A

-- The driver behind `gpu.Source`, the services behind their adapters, the clock, and the texts of
-- `fmt`, `strconv.Quote` and `Error()`.
pub record Env : Type 0 where
  pub has_source : Bool
  pub devices : Trace → Reply (List Device)
  pub capabilities : String → Capabilities
  pub probe_reply : String → Trace → Reply Status
  pub release_reply : String → Trace → Outcome × Option String
  pub stop_reply : String → Trace → Outcome × Option String
  pub now : Trace → ℕ
  pub device_error_text : DeviceError → String
  pub quote : String → String

pub record Observer : Type 0 where
  pub cfg : Config
  pub adapters : Dict AdapterKind

-- The loop of `New`: one adapter for each service, or none at all.
unfoldable pub build_adapters : List Service → Dict AdapterKind → Option (Dict AdapterKind)
build_adapters [] adapters = some adapters
build_adapters (s ∷ ss) adapters = elim (has_adapter s.adapter) [
  | true ↦ build_adapters ss (insert s.name s.adapter adapters)
  | false ↦ none
]

unfoldable pub new_observer : Config → Option Observer
new_observer cfg = elim (build_adapters cfg.services []) [
  | none ↦ none
  | some adapters ↦ some (record { cfg = cfg; adapters = adapters })
]

-- A device reading: the device, and the error if it could not be read.
abbrev pub Reading : Type 0
Reading = Device × Option DeviceError

abbrev pub readable : ℤ → Device → Reading
readable index dev =
    if not (dev.unreadable == "")
    then (dev, some (unreadable dev.unreadable index dev.name dev.bus_id))
    else (dev, none)

abbrev pub pick_device : ℤ → List Device → Reading
pick_device index [] = (no_device, some no_devices)
pick_device index (d ∷ ds) = elim (device_by_index (d ∷ ds) index) [
  | none ↦ (no_device, some (index_names_no_device index (length (d ∷ ds))))
  | some dev ↦ readable index dev
]

abbrev pub choose_device : ℤ → Reply (List Device) → Reading
choose_device index (err e) = (no_device, some (source_failed e))
choose_device index (ok devices) = pick_device index devices

-- One service as `status` reports it.
pub record ServiceStatus : Type 0 where
  pub service : Service
  pub status : Status
  pub caps : Capabilities
  pub err : Option String

module _ (env : Env) (o : Observer) where
  -- `Device`: a source that could not be opened is not asked.
  unfoldable pub device : Trace → Reading × Trace
  device t =
      if env.has_source
      then (choose_device o.cfg.policy.gpu_index (env.devices t), read_devices ∷ t)
      else ((no_device, some no_source), t)

  abbrev pub blank_state : Service → ServiceState
  blank_state svc = record {
    name = svc.name;
    priority = svc.priority;
    adapter = svc.adapter;
    up = false;
    held_mib = 0;
    held_estimated = false;
    can_release = false;
    allow_stop = svc.allow_stop;
    stop_unit = false;
    idle = false;
    idle_known = false;
    probe_err = "";
    cooldown_until = 0;
    action_in_flight = false;
  }

  abbrev pub with_capabilities : Capabilities → ServiceState → ServiceState
  with_capabilities caps s = record s { can_release = caps.can_release; stop_unit = caps.can_stop }

  abbrev pub with_status : Reply Status → ServiceState → ServiceState
  with_status (err e) s = record s { probe_err = e }
  with_status (ok status) s = record s {
    up = status.up;
    held_mib = status.held_mib;
    held_estimated = status.held_estimated;
    idle = status.idle;
    idle_known = status.idle_known;
  }

  unfoldable pub probe_one : Service → Trace → ServiceState × Trace
  probe_one svc t = elim (lookup svc.name o.adapters) [
    | none ↦ (record (blank_state svc) { probe_err = "no adapter" }, t)
    | some kind ↦ (
      with_status (env.probe_reply svc.name t)
          (with_capabilities (env.capabilities svc.name) (blank_state svc)),
      probe svc.name ∷ t,
    )
  ]

  unfoldable pub probe_all : List Service → Trace → List ServiceState × Trace
  probe_all [] t = ([], t)
  probe_all (s ∷ ss) t =
      let (state, t') = probe_one s t in
      let (states, t'') = probe_all ss t' in (state ∷ states, t'')

  abbrev pub seen : Reading → List ServiceState → Observation
  seen (dev, none) states = record {
    device = dev;
    device_known = true;
    device_err = "";
    services = states;
    claims = [];
  }
  seen (dev, some e) states = record {
    device = no_device;
    device_known = false;
    device_err = env.device_error_text e;
    services = states;
    claims = [];
  }

  unfoldable pub observe : Trace → Observation × Trace
  observe t =
      let (reading, t') = device t in
      let (states, t'') = probe_all o.cfg.services t' in (seen reading states, t'')

  abbrev pub status_of : Service → Capabilities → Reply Status → ServiceStatus
  status_of svc caps (ok status) = record {
    service = svc;
    status = status;
    caps = caps;
    err = none;
  }
  status_of svc caps (err e) = record {
    service = svc;
    status = no_status;
    caps = caps;
    err = some e;
  }

  unfoldable pub status_one : Service → Trace → ServiceStatus × Trace
  status_one svc t = elim (lookup svc.name o.adapters) [
    | none ↦ (status_of svc no_capabilities (err err_not_supported), t)
    | some kind ↦
        (status_of svc (env.capabilities svc.name) (env.probe_reply svc.name t), probe svc.name ∷ t)
  ]

  -- `Statuses`
  unfoldable pub statuses : List Service → Trace → List ServiceStatus × Trace
  statuses [] t = ([], t)
  statuses (s ∷ ss) t =
      let (entry, t') = status_one s t in
      let (entries, t'') = statuses ss t' in (entry ∷ entries, t'')
