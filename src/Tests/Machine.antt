-- ===== src/Tests/Machine.antt =====
-- A machine's units, cards, sockets and arguments, for the examples.
use gpu_bouncer.Base.{
  Pairwise, Option, Result, ℕ, ◌≡◌, ◌↔◌, refl, String, ◌==◌, Bool, true, false, none, some, List,
  [], ◌∷◌, ◌++◌, arith, Permᴰ, if◌then◌else◌, done, failed,
}
use gpu_bouncer.Base.Int.{pos}
use gpu_bouncer.Base.Sort.{sort_stable}
use gpu_bouncer.Base.Dict.{Dict, lookup}
use gpu_bouncer.Base.Cutting.{trim_right}
use gpu_bouncer.Gpu.{device_by_index}
use gpu_bouncer.Gpu.Sysfs.{
  Files, SysfsCard, SysfsSource, other_fault, by_number, open_sysfs, found_cards, entry_card,
  classify_card, parse_digits, parse_uint, atoi,
}
use gpu_bouncer.Gpu.Sysfs.Reading.{read_card, devices}
use gpu_bouncer.Gpu.Sysfs.Cards.{Listed, open_sysfs-Places}
use gpu_bouncer.Gpu.Nvml.{Process, ProcessInfo, Nvml, processes, note_processes, note_process}
use gpu_bouncer.Gpu.Nvml.Processes.{GoesFirst, figure, largest, DistinctPids, processes-Largest}
use gpu_bouncer.Adapter.SystemdUnit.{SystemdUnit, Systemctl, parse_systemctl_show}
use gpu_bouncer.Adapter.SystemdUnit.Permitted.{Adds, operate, stopping, operate-StopsPermitted}
use gpu_bouncer.Adapter.SystemdUnit.Properties.{print_properties, parse_systemctl_show-print}
use gpu_bouncer.Ipc.{Response, Request, op_status, okay}
use gpu_bouncer.Ipc.Client.{ExchangeFault, Sockets, eof, exchange}
use gpu_bouncer.Cli.Flags.{FlagSet, bool_flag, parse_args}
use gpu_bouncer.Cli.Flags.Anywhere.{scan, reading, parse_args-scan}
use gpu_bouncer.Cli.Calls.{Shown, call_daemon, exit_code_of}
use gpu_bouncer.Cli.Calls.Codes.{Succeeds, call_daemon-Succeeds}

abbrev obeying : Systemctl
obeying args runs = record { stdout = "active"; stderr = ""; failure = none }

abbrev batch_unit : SystemdUnit
batch_unit = record { name = "batch"; unit = "batch.service"; user_unit = false; allow_stop = true }

operate-StopsPermitted_example :
    Adds obeying batch_unit stopping [] (operate obeying batch_unit stopping [])
operate-StopsPermitted_example = operate-StopsPermitted obeying batch_unit stopping []

abbrev shown_properties : Dict String
shown_properties = ("SubState", "running") ∷ ("MainPID", "42") ∷ []

parse_systemctl_show-print_example :
    lookup "MainPID" (parse_systemctl_show (print_properties shown_properties))
    ≡ lookup "MainPID" shown_properties
unfolding lookup trim_right
parse_systemctl_show-print_example =
    parse_systemctl_show-print shown_properties "MainPID"
      (((refl, refl), (refl, refl)), (((refl, refl), (refl, refl)), tt)) (refl, (refl, tt))

-- Two cards: the vendor of the second cannot be read.
abbrev two_cards : Files
two_cards = record {
  lstat = λ path. none;
  stat = λ path.
      if path == "/sys/class/drm/card1/device/vendor"
      then failed (other_fault "EACCES")
      else done true;
  read_dir = λ path. done ("card1" ∷ "card0" ∷ "card0-DP-1" ∷ []);
  read_file = λ path. failed "EACCES";
  eval_symlinks = λ path. none;
  quote = λ s. s;
}

abbrev card_0 : SysfsCard
card_0 = record { num = pos 0; device_path = "/sys/class/drm/card0/device"; vendor_err = none }

abbrev card_1 : SysfsCard
card_1 = record {
  num = pos 1;
  device_path = "/sys/class/drm/card1/device";
  vendor_err = some "EACCES";
}

abbrev drm : SysfsSource
drm = record { root = "/sys/class/drm"; cards = card_0 ∷ card_1 ∷ []; nvml_err = none }

open_sysfs-Places_example :
    Listed two_cards "/sys/class/drm" (card_0 ∷ card_1 ∷ [])
    × (device_by_index (devices two_cards false drm) (pos 1)
        ≡ some (read_card two_cards none false 1 card_1))
unfolding open_sysfs found_cards entry_card classify_card by_number sort_stable parse_digits
    parse_uint atoi
open_sysfs-Places_example =
    open_sysfs-Places two_cards "/sys/class/drm" drm false 1 card_1 refl refl

abbrev compute_list : List ProcessInfo
compute_list = record { pid = 7; used_gpu_memory = 3_145_728 } ∷ []

abbrev graphics_list : List ProcessInfo
graphics_list = record { pid = 7; used_gpu_memory = 1_048_576 } ∷ []

abbrev nvml_card : Nvml
nvml_card = record {
  init = none;
  device_get_count = done 1;
  handle = λ i. none;
  memory_info = λ i. failed "";
  device_name = λ i. none;
  device_uuid = λ i. none;
  pci = λ i. none;
  compute_processes = λ i. done compute_list;
  graphics_processes = λ i. done graphics_list;
}

abbrev listed : List Process
listed = record { pid = 7; used_mib = 3 } ∷ []

processes-Largest_example :
    Pairwise GoesFirst listed
    × (seen : List Process) × Permᴰ listed seen
    × DistinctPids seen
    × ((pid : ℕ) → figure pid seen ≡ largest pid (compute_list ++ graphics_list))
unfolding processes note_processes note_process sort_stable
processes-Largest_example =
    processes-Largest nvml_card 0 listed compute_list graphics_list refl refl refl

-- Nothing listens in the session, and the system's daemon answers.
abbrev sockets : Sockets
sockets = record {
  socket_override = "";
  runtime_dir = "/run/user/1000";
  peer = λ path req. record {
    dial_err = if path == "/run/gpu-bouncer/gpu-bouncer.sock" then none else some "ENOENT";
    write_err = none;
    first = λ wait. record { chunks = ([], false) ∷ []; fault = eof };
    second = λ wait. record { chunks = []; fault = eof };
  };
  encode_err = λ req. none;
  decode = λ line. done okay;
  remaining = none;
}

abbrev asking : Request
asking = record {
  op = op_status;
  service = "";
  need_mib = 0;
  all_except = false;
  dry_run = false;
  plan_first = false;
}

-- Of its flags the command keeps whether --json was given.
abbrev json_flag : FlagSet Bool
json_flag = record {
  kind = λ name. if name == "json" then some bool_flag else none;
  set = λ name value s. some true;
}

parse_args-scan_example :
    parse_args json_flag 3 false ("llm" ∷ "--json" ∷ []) []
    ≡ some (scan json_flag (reading none) false ("llm" ∷ "--json" ∷ []))
parse_args-scan_example = parse_args-scan json_flag 3 false ("llm" ∷ "--json" ∷ []) (omega arith)

abbrev unwritable : Shown → Option String
unwritable shown = some "broken pipe"

abbrev answer_of : Request → Result ExchangeFault Response
answer_of req = (exchange sockets req).0

call_daemon-Succeeds_example :
    exit_code_of (call_daemon true unwritable answer_of asking).0 ≡ 0
    ↔ Succeeds true unwritable (answer_of (record asking { plan_first = true }))
call_daemon-Succeeds_example = call_daemon-Succeeds true unwritable answer_of asking
