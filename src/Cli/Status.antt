-- ===== src/Cli/Status.antt =====
-- internal/cli/commands.go and internal/cli/output.go: what `status` reports, and whether the daemon
-- runs on files that have changed since. The texts of the notes are constructors.
pub mod Fresh
use gpu_bouncer.Base.{
  ℕ, String, ◌==◌, Bool, true, false, not, ◌&&◌, Option, none, some, List, [], ◌∷◌, map, join,
  if◌then◌else◌, Result, done, failed,
}
use gpu_bouncer.Base.Int.{ℤ}
use gpu_bouncer.Base.Cutting.{split_list}
use gpu_bouncer.Gpu.{Device}
use gpu_bouncer.Config.Types.{Config, digest_recipe}
use gpu_bouncer.Config.Load.{System, LoadFault, content_digest}
use gpu_bouncer.Ipc.{
  GpuReport, gpu_report_of, ServiceReport, ClaimReport, ConfigReport, CooldownReport, Response,
}
use gpu_bouncer.Ipc.Client.{ExchangeFault, no_daemon, daemon_failed, ConnectionFault}
use gpu_bouncer.Observe.{
  Env, Observer, DeviceError, Reading, Reply, ok, err, Trace, read_devices, device, statuses,
}
use gpu_bouncer.Daemon.Reports.{service_report}

-- A daemon that is too old to send the list sends the joined form.
abbrev pub listed_or_split : List String → String → List String
listed_or_split (p ∷ ps) path = p ∷ ps
listed_or_split [] path = if path == "" then [] else split_list path

unfoldable pub paths_of : ConfigReport → List String
paths_of report = listed_or_split report.paths report.path

abbrev pub config_out : Option ConfigReport → Option ConfigReport
config_out none = none
config_out (some report) = some (record report { paths = paths_of report })

pub data ConfigNote : Type 0 where
  no_note : ConfigNote
  loaded_no_file : ConfigNote
  recipe_unnamed : ConfigNote
  recipe_not_implemented : (recipe : String) → ConfigNote
  unreadable_now : LoadFault → ConfigNote
  loaded_different : (joined : String) (loaded_at : ℕ) → ConfigNote
  reports_no_config : ConfigNote

unfoldable pub recipe_note : String → ConfigNote
recipe_note recipe = if recipe == "" then recipe_unnamed else recipe_not_implemented recipe

abbrev pub compared :
    ConfigReport → List String → Result LoadFault String → Option Bool × ConfigNote
compared report paths (failed e) = (none, unreadable_now e)
compared report paths (done now) =
    if not (now == report.sha256)
    then (some true, loaded_different (join paths) report.loaded_at)
    else (some false, no_note)

abbrev pub drift_of : System → ConfigReport → List String → Option Bool × ConfigNote
drift_of sys report [] = (some false, loaded_no_file)
drift_of sys report (p ∷ ps) =
    if not (report.digest_recipe == digest_recipe)
    then (none, recipe_note report.digest_recipe)
    else compared report (p ∷ ps) (content_digest sys (p ∷ ps))

-- `configDrift`: whether the files that the daemon loaded have changed, if that can be told.
unfoldable pub config_drift : System → ConfigReport → Option Bool × ConfigNote
config_drift sys report = drift_of sys report (paths_of report)

-- What `status` knows of a daemon. `note` is the failure of one that could not be asked.
pub record DaemonView : Type 0 where
  pub up : Bool
  pub dry : Option Bool
  pub note : Option ConnectionFault
  pub claims : List ClaimReport
  pub cooldowns : List CooldownReport
  pub config : Option ConfigReport
  pub stale : Option Bool
  pub config_note : ConfigNote

abbrev pub no_view : DaemonView
no_view = record {
  up = false;
  dry = none;
  note = none;
  claims = [];
  cooldowns = [];
  config = none;
  stale = none;
  config_note = no_note;
}

abbrev with_tables : Result ExchangeFault Response → DaemonView → DaemonView
with_tables (failed e) v = v
with_tables (done resp) v = record v { claims = resp.claims; cooldowns = resp.cooldowns }

abbrev with_config : System → Option ConfigReport → DaemonView → DaemonView
with_config sys none v = record v { config_note = reports_no_config }
with_config sys (some report) v =
    let (stale, note) = config_drift sys report in
    record v { config = some report; stale = stale; config_note = note }

-- The daemon's answers to a ping and, behind it, to a status.
unfoldable pub daemon_view :
    System → Result ExchangeFault Response → Result ExchangeFault Response → DaemonView
daemon_view sys (failed (no_daemon tried last)) tables = no_view
daemon_view sys (failed (daemon_failed e)) tables = record no_view { up = true; note = some e }
daemon_view sys (done resp) tables =
    if resp.ok
    then with_config sys resp.daemon_config
        (with_tables tables (record no_view { up = true; dry = resp.daemon_dry_run }))
    else no_view

-- `source_err` is the failure of `gpu.Open`.
abbrev gpu_error : Env → Option String → Device → DeviceError → String
gpu_error env (some e) dev fault = e
gpu_error env none dev fault =
    if not (dev.unreadable == "") then dev.unreadable else env.device_error_text fault

unfoldable pub status_gpu : Env → String → Option String → ℤ → Reading → GpuReport
status_gpu env name source_err index (dev, none) = gpu_report_of dev name
status_gpu env name source_err index (dev, some fault) =
    let report = gpu_report_of dev name in
    record report {
      known = false;
      index = if dev.name == "" && dev.bus_id == "" then index else report.index;
      error = gpu_error env source_err dev fault;
    }

abbrev device_reports : String → Reply (List Device) → List GpuReport
device_reports name (err e) = []
device_reports name (ok devices) = map (λ dev. gpu_report_of dev name) devices

-- `Devices`, for the list of the other cards.
unfoldable pub all_devices : Env → String → Trace → List GpuReport × Trace
all_devices env name t =
    if env.has_source then (device_reports name (env.devices t), read_devices ∷ t) else ([], t)

-- `statusOutput`, where a list is never absent.
pub record StatusOutput : Type 0 where
  pub gpu : GpuReport
  pub devices : List GpuReport
  pub services : List ServiceReport
  pub claims : List ClaimReport
  pub cooldowns : List CooldownReport
  pub daemon_running : Bool
  pub daemon_dry_run : Option Bool
  pub daemon_config : Option ConfigReport
  pub config_stale : Option Bool
  pub config : Option String

abbrev joined_sources : List String → Option String
joined_sources [] = none
joined_sources (p ∷ ps) = some (join (p ∷ ps))

-- The report of `runStatus`, once the configuration is loaded and the source opened; the last
-- arguments are the daemon's answers.
unfoldable pub run_status :
    System
    → Env
    → Observer
    → String
    → Option String
    → Trace
    → Result ExchangeFault Response
    → Result ExchangeFault Response
    → StatusOutput × DaemonView
run_status sys env o name source_err t ping tables =
    let (reading, t1) = device env o t in
    let (devices, t2) = all_devices env name t1 in
    let (entries, t3) = statuses env o o.cfg.services t2 in
    let view = daemon_view sys ping tables in
    (
      record {
        gpu = status_gpu env name source_err o.cfg.policy.gpu_index reading;
        devices = devices;
        services = map service_report entries;
        claims = view.claims;
        cooldowns = view.cooldowns;
        daemon_running = view.up;
        daemon_dry_run = view.dry;
        daemon_config = config_out view.config;
        config_stale = view.stale;
        config = joined_sources o.cfg.sources;
      },
      view,
    )
