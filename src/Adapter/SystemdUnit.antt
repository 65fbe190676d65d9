-- ===== src/Adapter/SystemdUnit.antt =====
-- internal/adapter/systemdunit.go: a systemd unit's state, and its stop where the config allows it.
-- The program systemctl is not in the repository: `Systemctl` answers each invocation as a function
-- of those before it.
pub mod Properties
pub mod Permitted
use gpu_bouncer.Base.{
  ℕ, String, ◌==◌, Bool, true, false, not, ◌&&◌, ◌||◌, Option, none, some, List, [], ◌∷◌,
  if◌then◌else◌, Result, done, failed, append_text,
}
use gpu_bouncer.Base.Dict.{Dict, lookup, insert}
use gpu_bouncer.Base.Cutting.{trim_text, split_lines, cut_at, is_empty}
use gpu_bouncer.Config.Types.{Service}
use gpu_bouncer.Adapter.{
  Status, no_status, Capabilities, Outcome, no_outcome, err_not_supported, err_not_permitted,
}

-- `systemdUnitAdapter`; the timeouts, the program and its runner are in `Systemctl`.
pub record SystemdUnit : Type 0 where
  pub name : String
  pub unit : String
  pub user_unit : Bool
  pub allow_stop : Bool

pub new_systemd_unit : Service → SystemdUnit
new_systemd_unit svc = record {
  name = svc.name;
  unit = svc.unit;
  user_unit = svc.user_unit;
  allow_stop = svc.allow_stop;
}

-- How a run ended: its output, and why it failed if it did.
pub record Exit : Type 0 where
  pub stdout : String
  pub stderr : String
  pub failure : Option String

-- The arguments of the runs so far, the last one first.
abbrev pub Runs : Type 0
Runs = List (List String)

abbrev pub Systemctl : Type 0
Systemctl = List String → Runs → Exit

-- The error of `runSystemctl`, with the trimmed stderr where there is any.
pub data RunFault : Type 0 where
  run_failed : (args : List String) (cause : String) → RunFault
  run_failed_saying : (args : List String) (cause msg : String) → RunFault

pub data SystemdFault : Type 0 where
  not_run : (name : String) (cause : RunFault) → SystemdFault
  no_state : (name unit : String) → SystemdFault
  unknown_unit : (name unit : String) → SystemdFault
  no_graceful_release : (unit cause : String) → SystemdFault
  stop_not_permitted : (name unit cause : String) → SystemdFault

abbrev pub capabilities : Capabilities
capabilities = record { can_release = false; can_report_idle = false; can_stop = true }

abbrev pub run_error : List String → Exit → Option RunFault
run_error args exit = elim exit.failure [
  | none ↦ none
  | some cause ↦
      if trim_text exit.stderr == ""
      then some (run_failed args cause)
      else some (run_failed_saying args cause (trim_text exit.stderr))
]

-- `parseSystemctlShow`: a line with a key and `=` sets the key.
abbrev pub set_property : Option (String × String) → Dict String → Dict String
set_property none props = props
set_property (some (key, value)) props = if is_empty key then props else insert key value props

unfoldable pub parse_lines : List String → Dict String → Dict String
parse_lines [] props = props
parse_lines (line ∷ lines) props =
    parse_lines lines (set_property (cut_at b'=' (trim_text line)) props)

unfoldable pub parse_systemctl_show : String → Dict String
parse_systemctl_show out = parse_lines (split_lines out) []

-- A missing key reads as the empty text.
abbrev pub property : String → Dict String → String
property key props = elim (lookup key props) [ none ↦ "" | some value ↦ value ]

abbrev describe_pid : String → String → String
describe_pid pid detail =
    if not (pid == "") && not (pid == "0")
    then append_text detail (append_text ", main PID " pid)
    else detail

abbrev pub describe : String → Dict String → String
describe state props =
    if property "SubState" props == ""
    then state
    else describe_pid (property "MainPID" props)
        (append_text state (append_text " (" (append_text (property "SubState" props) ")")))

module _ (systemctl : Systemctl) (a : SystemdUnit) where
  -- `--user` stands before the verb.
  abbrev pub systemctl_args : List String → List String
  systemctl_args rest = if not a.user_unit then rest else ("--user" ∷ rest)

  -- `runSystemctl`: the output comes with the error.
  unfoldable pub run_systemctl : List String → Runs → (String × Option RunFault) × Runs
  run_systemctl args runs =
      let exit = systemctl args runs in ((exit.stdout, run_error args exit), args ∷ runs)

  -- An answer that cannot be read is not taken for a missing unit.
  unfoldable pub not_found : Runs → Bool × Runs
  not_found runs =
      let ((out, err), runs') =
        run_systemctl (systemctl_args ("show" ∷ "--property=LoadState" ∷ a.unit ∷ [])) runs in
      (
        elim err [
          | some e ↦ false
          | none ↦ property "LoadState" (parse_systemctl_show out) == "not-found"
        ],
        runs',
      )

  unfoldable pub detail : String → Runs → String × Runs
  detail state runs =
      let ((out, err), runs') =
        run_systemctl
          (systemctl_args ("show" ∷ "--property=ActiveState,SubState,MainPID" ∷ a.unit ∷ []))
          runs in
      (elim err [ some e ↦ state | none ↦ describe state (parse_systemctl_show out) ], runs')

  abbrev stopped_status : Status
  stopped_status = record no_status { held_estimated = true }

  abbrev active_status : String → Status
  active_status text = record stopped_status {
    up = true;
    items = record { name = a.unit; vram_mib = 0; detail = text } ∷ [];
  }

  abbrev silent : Option RunFault → SystemdFault
  silent none = no_state a.name a.unit
  silent (some e) = not_run a.name e

  -- The state that is-active printed, trimmed, and how it exited.
  abbrev pub probe_state : String → Option RunFault → Runs → Result SystemdFault Status × Runs
  probe_state state err runs =
      if state == ""
      then (failed (silent err), runs)
      else if state == "active"
      then (let (text, runs') = detail state runs in (done (active_status text), runs'))
      else (let (missing, runs') = not_found runs in
          (if missing then failed (unknown_unit a.name a.unit) else done stopped_status, runs'))

  unfoldable pub probe : Runs → Result SystemdFault Status × Runs
  probe runs =
      let ((out, err), runs') = run_systemctl (systemctl_args ("is-active" ∷ a.unit ∷ [])) runs in
      probe_state (trim_text out) err runs'

  unfoldable pub release : Runs → (Outcome × Option SystemdFault) × Runs
  release runs = ((no_outcome, some (no_graceful_release a.unit err_not_supported)), runs)

  abbrev pub stopped : Option RunFault → Outcome × Option SystemdFault
  stopped (some e) = (no_outcome, some (not_run a.name e))
  stopped none =
      (record { acted = true; targets = a.unit ∷ []; detail = append_text "stopped " a.unit }, none)

  -- The refusal comes before any run.
  unfoldable pub stop : Runs → (Outcome × Option SystemdFault) × Runs
  stop runs =
      if not a.allow_stop
      then ((no_outcome, some (stop_not_permitted a.name a.unit err_not_permitted)), runs)
      else (let ((out, err), runs') = run_systemctl (systemctl_args ("stop" ∷ a.unit ∷ [])) runs in
          (stopped err, runs'))
