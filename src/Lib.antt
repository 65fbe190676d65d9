-- ===== src/Lib.antt =====
-- gpu-bouncer arbitrates the memory of one GPU between the services of a configuration file. A
-- daemon polls the card and the services, decides what to free for whom, and asks services to
-- release memory or stops their units; a client talks to it over a control socket.
--
-- Files, and the code that each is about (paths are under internal/):
-- Base is the shared names and lemmas: tests on numbers, lists, texts, Go's int64, stable sorting,
--   and maps keyed by a name.
-- Gpu is gpu/gpu.go, the devices that a source reports: Sysfs is gpu/sysfs.go, with the reading of
--   a card in Sysfs/Reading, the cards that count in Sysfs/Real and their places in Sysfs/Cards, and
--   Nvml is gpu/nvml_cgo.go and Open, with the processes of a device in Nvml/Processes.
-- Config is config/config.go, the configuration: Types has its data and the lookup of a service,
--   Bounds the ranges of numeric keys, Merge the services of one file laid over another's, Files
--   mergeFile (Files/Over and Files/Layered: what a merged file leaves), Load the search path,
--   LoadFrom and ContentDigest (Load/Sources: which files are in the digest), Unit the names that
--   are allowed, Validate and Accepted what is refused or filled in.
-- Adapter is adapter/adapter.go, what an adapter reports, and bytesToMiB. Http is
--   adapter/httpclient.go, one exchange (Http/Answered: what a success says). Ollama, Comfyui,
--   Llamaswap and SystemdUnit are the adapters of the files of those names (Ollama/Drain and
--   Ollama/Unload, Comfyui/Idle, Llamaswap/Confirmed, SystemdUnit/Permitted and
--   SystemdUnit/Properties: what their results and calls rest on).
-- Scheduler is scheduler/scheduler.go. Types has its data, Demand who wants memory (selectDemand,
--   bestClaim, highestPriorityUp), Eviction which services may be freed and how
--   (evictionCandidates, chooseVerb), Planning the plans (Decide, Evict, EvictAllExcept).
-- Observe is observe/observe.go, from readings to the observation of the scheduler; Complete
--   which adapters it has and which services it lists.
-- Ipc is ipc/ipc.go, the messages of the control protocol, and WaitFor; Client is an exchange over
--   the search path and one connection of the daemon, Client/First which socket answers, and
--   Listen the binding of the socket (Listen/Safe: what it never does).
-- Daemon is daemon/daemon.go. State has the tables of claims, cooldowns and slots, Execute the
--   carrying out of actions, Reports the parts of replies, Handlers the poll round (tick) and the
--   operations (handle). Steps and Rules are proof rules for them; Allowed, Claims, Valid, Reached,
--   Resting, Waits, Effects and Dry hold the theorems about them. Run is New and Run, on a list of
--   the events that reach a daemon. Overlap has the actions of plans as jobs whose steps interleave
--   (Slots, Fair and Alone hold the theorems about them).
-- Cli is cli/commands.go and cli/cli.go: Flags is parseArgs over flag.FlagSet.Parse (Flags/Anywhere:
--   one pass), Calls the requests of the commands, callDaemon and the exit codes (Calls/Codes),
--   Output the figures and the text that is shown, Shapes what --json prints of a reply
--   (cli/output.go), Status the report of status, and whether the daemon runs on older files
--   (Status/Fresh), Printed the lines of it, and Main is Main and dispatch.
-- Tests is a small machine, with an example for each result.
--
-- How the pieces meet: Observe.observe turns the answers of the world into an Observation; the
-- daemon adds its claims, slots and cooldowns; Scheduler.Planning.decide or evict answers
-- with a Plan; Daemon.Execute carries it out, calling the services, and records what it did.
--
-- State: an operation of the daemon is a function from the state to a result and the next state
-- (M in Daemon/State). The world outside, that is the GPU driver, the services behind their
-- adapters, the clock, and the texts of fmt and Error(), is the parameter Env of
-- Observe: it answers each call as any function of the calls made before. The state records the
-- calls, so that a result can say which calls are made.
--
-- Numbers: uint64 sums wrap where the source adds them (add_u64), int64 arithmetic wraps
-- (Base/Int), a time is a number of nanoseconds with 0 for Go's zero time, and a duration an
-- int64 of nanoseconds. The daemon's loops run over finite lists and are recursions on them. Two
-- loops run on fuel: the wait for unloaded models (wait_drained), where each poll takes time and so
-- one more than the drain timeout in nanoseconds is enough, and parseArgs (parse_args), where each
-- round takes an argument and so one more than the arguments is enough. A text that the source
-- formats is a constructor with the printed values, or the text where a later step reads it.
--
-- The adapters stand beside Env and not behind it: each is a function of the requests that it sent
-- before (Sent, Runs), as an adapter's parameter Net or Systemctl answers them, and Env gives the
-- daemon the status and outcomes that such an adapter reports.
--
-- Go's goroutines: the probes of a round, and the actions of a plan, run in order in the operations
-- of the daemon, and an operation or a round runs to its end before the next. This is one of the
-- orders that may happen; Daemon/Overlap has them all for the actions, at the grain of their uses of
-- the shared state. The tables are only used under the daemon's mutex, so each of their operations is
-- one step.
--
-- Not modelled: the daemon command, the loop that accepts connections, the timer of the rounds, the
-- spelling of a PCI address from NVML (nvmlBusID), and the log lines. Parameters: net/http,
-- encoding/json, the TOML decoder, url.Parse, time.ParseDuration, slices.Sort, SHA-256,
-- systemctl, the environment, the file system, the sockets and the NVIDIA library.
pub mod Base
pub mod Gpu
pub mod Config
pub mod Scheduler
pub mod Adapter
pub mod Observe
pub mod Ipc
pub mod Daemon
pub mod Cli
pub mod Tests
