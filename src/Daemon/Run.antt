-- ===== src/Daemon/Run.antt =====
-- internal/daemon/daemon.go: New and Run. What reaches the running daemon is a list of events, in the
-- order in which they are handled.
use gpu_bouncer.Base.{String, Bool, Option, none, some, List, [], ◌∷◌, Result, done, failed}
use gpu_bouncer.Base.Int.{ℤ}
use gpu_bouncer.Config.Types.{Config}
use gpu_bouncer.Observe.{Env, Observer, new_observer, DeviceError, device}
use gpu_bouncer.Ipc.{Request}
use gpu_bouncer.Ipc.Listen.{Host, ListenFault, listen, set_budget}
use gpu_bouncer.Daemon.State.{Daemon, State}
use gpu_bouncer.Daemon.Execute.{conn_budget}
use gpu_bouncer.Daemon.Handlers.{tick, handle}
use gpu_bouncer.Daemon.Valid.{IsValid, with_world}
use gpu_bouncer.Daemon.Reached.{serve, poll, Step-IsValid}

abbrev with_observer : Config → Bool → Option Observer → Option Daemon
with_observer cfg dry_run none = none
with_observer cfg dry_run (some o) = some (record { cfg = cfg; observer = o; dry_run = dry_run })

-- `New`, beside the tables of `start`.
unfoldable pub new_daemon : Config → Bool → Option Daemon
new_daemon cfg dry_run = with_observer cfg dry_run (new_observer cfg)

pub data Event : Type 0 where
  asked : Request → (can_send : Bool) → Event
  poll_due : Event
  cancelled : Event
  serve_ended : (err : Option String) → Event

pub data RunFault : Type 0 where
  no_reading : DeviceError → RunFault
  not_listening : ListenFault → RunFault
  control_socket : (err : String) → RunFault

-- How a run stands: it waits for the next event, or it has ended.
pub data Standing : Type 0 where
  waiting : Standing
  ended : Option RunFault → Standing

abbrev serve_fault : Option String → Option RunFault
serve_fault none = none
serve_fault (some e) = some (control_socket e)

module _ (env : Env) (d : Daemon) where
  unfoldable pub run_loop : List Event → State → Standing × State
  run_loop [] s = (waiting, s)
  run_loop (asked req can_send ∷ events) s = run_loop events (handle env d req can_send s).1
  run_loop (poll_due ∷ events) s = run_loop events (tick env d s).1
  run_loop (cancelled ∷ events) s = (ended none, s)
  run_loop (serve_ended err ∷ events) s = (ended (serve_fault err), s)

  abbrev on_socket : Result ListenFault String → List Event → State → Standing × State
  on_socket (failed e) events s = (ended (some (not_listening e)), s)
  on_socket (done path) events s = run_loop events s

  -- A daemon that cannot read its device does not start.
  abbrev on_reading : Host → String → List Event → Option DeviceError → State → Standing × State
  on_reading host path events (some e) s = (ended (some (no_reading e)), s)
  on_reading host path events none s = on_socket (listen host path []).0 events s

  unfoldable pub run : Host → String → List Event → State → Standing × State
  run host path events s =
      let (reading, t) = device env d.observer s.calls in
      on_reading host path events reading.1 (record s { calls = t })

  -- The budget of the listener that `Run` serves, in place of the one it has.
  pub run_budget : ℤ → ℤ
  run_budget budget = set_budget (conn_budget d.cfg) budget

  run_loop-IsValid :
      (events : List Event) (s : State) → IsValid d.cfg s → IsValid d.cfg (run_loop events s).1
  unfolding run_loop
  run_loop-IsValid [] s v = v
  run_loop-IsValid (asked req can_send ∷ events) s v =
      run_loop-IsValid events (handle env d req can_send s).1
        (Step-IsValid env d s _ (serve req can_send s) v)
  run_loop-IsValid (poll_due ∷ events) s v =
      run_loop-IsValid events (tick env d s).1 (Step-IsValid env d s _ (poll s) v)
  run_loop-IsValid (cancelled ∷ events) s v = v
  run_loop-IsValid (serve_ended err ∷ events) s v = v

  on_socket-IsValid :
      (r : Result ListenFault String) (events : List Event) (s : State)
      → IsValid d.cfg s
      → IsValid d.cfg (on_socket r events s).1
  on_socket-IsValid (failed e) events s v = v
  on_socket-IsValid (done path) events s v = run_loop-IsValid events s v

  on_reading-IsValid :
      (host : Host) (path : String) (events : List Event) (e : Option DeviceError) (s : State)
      → IsValid d.cfg s
      → IsValid d.cfg (on_reading host path events e s).1
  on_reading-IsValid host path events (some e) s v = v
  on_reading-IsValid host path events none s v =
      on_socket-IsValid (listen host path []).0 events s v

  -- However a run ends, and at each moment of it, the tables are valid if they were at its start.
  run-IsValid :
      (host : Host) (path : String) (events : List Event) (s : State)
      → IsValid d.cfg s
      → IsValid d.cfg (run host path events s).1
  unfolding run
  run-IsValid host path events s v =
      let (reading, t) = device env d.observer s.calls in
      on_reading-IsValid host path events reading.1 (record s { calls = t })
        (with_world d.cfg s t s.sent v)
