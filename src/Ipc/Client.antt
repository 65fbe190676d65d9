-- ===== src/Ipc/Client.antt =====
-- internal/ipc/ipc.go: a client's exchange with the first daemon that accepts a connection, and one
-- connection on the daemon's side. The sockets and encoding/json are parameters: `Sockets` says for
-- each path how its peer behaves. A connection's reads are the chunks that arrive and the error after.
pub mod First
use gpu_bouncer.Base.{
  ℕ, ◌*◌, ◌%◌, u64_mod, String, ◌==◌, Bool, true, false, not, ◌&&◌, ◌||◌, Option, none, some, List,
  [], ◌∷◌, ◌++◌, length, ltb, map, if◌then◌else◌, Result, done, failed, append_text,
}
use gpu_bouncer.Base.Int.{ℤ, pos, to_int64, to_uint64}
use gpu_bouncer.Adapter.Http.{Bytes}
use gpu_bouncer.Ipc.{Request, Response, plan_wait, wait_for}

-- What a socket's read or write fails with.
pub data IoFault : Type 0 where
  deadline_exceeded : IoFault
  eof unexpected_eof connection_reset broken_pipe : IoFault
  other_io : (text : String) → IoFault

-- `ReadLine`'s chunks of one line, whether each is a prefix, and the error behind the last.
pub record Arriving : Type 0 where
  pub chunks : List (Bytes × Bool)
  pub fault : IoFault

pub data LineFault : Type 0 where
  line_io : IoFault → LineFault
  message_exceeds : (limit : ℕ) → LineFault

unfoldable pub read_chunks : ℕ → Bytes → List (Bytes × Bool) → IoFault → Result LineFault Bytes
read_chunks limit buf [] fault = failed (line_io fault)
read_chunks limit buf ((chunk, is_prefix) ∷ more) fault =
    let rest = read_chunks limit (buf ++ chunk) more fault in
    if ltb limit (length (buf ++ chunk))
    then failed (message_exceeds limit)
    else if not is_prefix
    then done (buf ++ chunk)
    else rest

-- `readLine`
unfoldable pub read_line : ℕ → Arriving → Result LineFault Bytes
read_line limit a = read_chunks limit [] a.chunks a.fault

abbrev pub max_request : ℕ
max_request = 1024 * 1024

-- How the socket at one path behaves towards a request: dialling it, writing to it, and what arrives
-- for the first and for the second answer when the client waits so long.
pub record Peer : Type 0 where
  pub dial_err : Option String
  pub write_err : Option IoFault
  pub first : ℤ → Arriving
  pub second : ℤ → Arriving

-- `remaining` is the time left until the context's deadline, if it has one.
pub record Sockets : Type 0 where
  pub socket_override : String
  pub runtime_dir : String
  pub peer : String → Request → Peer
  pub encode_err : Request → Option String
  pub decode : Bytes → Result String Response
  pub remaining : Option ℤ

pub data ConnectionFault : Type 0 where
  no_answer_within : (wait : ℤ) → ConnectionFault
  closed_connection : ConnectionFault
  read_response_failed : (cause : LineFault) → ConnectionFault
  not_decoded : (cause : String) → ConnectionFault

-- `connectionError`
unfoldable pub connection_error : LineFault → ℤ → ConnectionFault
connection_error (line_io deadline_exceeded) wait = no_answer_within wait
connection_error (line_io eof) wait = closed_connection
connection_error (line_io unexpected_eof) wait = closed_connection
connection_error (line_io connection_reset) wait = closed_connection
connection_error (line_io broken_pipe) wait = closed_connection
connection_error (line_io (other_io text)) wait = read_response_failed (line_io (other_io text))
connection_error (message_exceeds limit) wait = read_response_failed (message_exceeds limit)

-- What one exchange comes to: a response, a failure before a daemon took it, or one of the daemon.
pub data Exchanged : Type 0 where
  answered : Response → Exchanged
  unconnected : (cause : String) → Exchanged
  broken : ConnectionFault → Exchanged

pub data ExchangeFault : Type 0 where
  no_daemon : (tried : List String) (last : Option String) → ExchangeFault
  daemon_failed : ConnectionFault → ExchangeFault

abbrev system_socket : String
system_socket = "/run/gpu-bouncer/gpu-bouncer.sock"

abbrev socket_in : String → String
socket_in dir = append_text dir "/gpu-bouncer.sock"

-- `time.Duration(ms) * time.Millisecond`, an `int64`.
unfoldable pub from_milliseconds : ℤ → ℤ
from_milliseconds ms = to_int64 ((to_uint64 ms * 1_000_000) % u64_mod)

-- The paths dialled so far, in order.
abbrev pub Dialled : Type 0
Dialled = List String

module _ (net : Sockets) where
  unfoldable pub socket_path : String
  socket_path =
      if not (net.socket_override == "")
      then net.socket_override
      else if not (net.runtime_dir == "")
      then socket_in net.runtime_dir
      else system_socket

  unfoldable pub search_paths : List String
  search_paths =
      if not (net.socket_override == "")
      then net.socket_override ∷ []
      else if not (net.runtime_dir == "")
      then socket_in net.runtime_dir ∷ system_socket ∷ []
      else system_socket ∷ []

  abbrev decoded : Result LineFault Bytes → ℤ → Result ConnectionFault Response
  decoded (failed e) wait = failed (connection_error e wait)
  decoded (done line) wait = elim (net.decode line) [
    | failed e ↦ failed (not_decoded e)
    | done resp ↦ done resp
  ]

  unfoldable pub read_response : Arriving → ℤ → Result ConnectionFault Response
  read_response a wait = decoded (read_line max_request a) wait

  abbrev first_wait : Option ℤ → ℤ
  first_wait none = pos plan_wait
  first_wait (some wait) = wait

  abbrev pub plan_time : Response → ℤ
  plan_time resp = wait_for (from_milliseconds resp.longest_action_ms)

  abbrev final_answer : Result ConnectionFault Response → Exchanged
  final_answer (failed e) = broken e
  final_answer (done resp) = answered resp

  -- An announced plan is waited for as long as it can take.
  abbrev first_answer : Peer → Result ConnectionFault Response → Exchanged
  first_answer peer (failed e) = broken e
  first_answer peer (done resp) =
      if not resp.preliminary
      then answered resp
      else final_answer (read_response (peer.second (plan_time resp)) (plan_time resp))

  abbrev after_write : Option IoFault → Peer → ℤ → Exchanged
  after_write (some e) peer wait = broken (connection_error (line_io e) wait)
  after_write none peer wait = first_answer peer (read_response (peer.first wait) wait)

  abbrev after_encode : Option String → Peer → Exchanged
  after_encode (some e) peer = unconnected e
  after_encode none peer = after_write peer.write_err peer (first_wait net.remaining)

  abbrev after_dial : Option String → Request → Peer → Exchanged
  after_dial (some e) req peer = unconnected e
  after_dial none req peer = after_encode (net.encode_err req) peer

  unfoldable pub do_at : Request → String → Exchanged
  do_at req path = after_dial (net.peer path req).dial_err req (net.peer path req)

  -- An exchange at a path dials it.
  abbrev pub dial_at : Request → String → Dialled → Exchanged × Dialled
  dial_at req path dialled = (do_at req path, dialled ++ path ∷ [])

  unfoldable pub try_paths :
      Request → List String → Option String → Dialled → Result ExchangeFault Response × Dialled
  try_paths req [] last dialled = (failed (no_daemon search_paths last), dialled)
  try_paths req (path ∷ paths) last dialled =
      let (outcome, dialled') = dial_at req path dialled in
      elim outcome [
        | answered resp ↦ (done resp, dialled')
        | broken e ↦ (failed (daemon_failed e), dialled')
        | unconnected e ↦ try_paths req paths (some e) dialled'
      ]

  unfoldable pub exchange : Request → Result ExchangeFault Response × Dialled
  exchange req = try_paths req search_paths none []

  -- `Do`
  pub do_once : Request → Result ExchangeFault Response × Dialled
  do_once req = exchange (record req { plan_first = false })

-- What the daemon writes on a connection: the handler's replies, or why it had none.
pub data Written : Type 0 where
  reply : Response → Written
  request_unread : (cause : LineFault) → Written
  request_undecoded : (cause : String) → Written

abbrev as_preliminary : Response → Written
as_preliminary resp = reply (record resp { preliminary = true })

abbrev handled : (Request → List Response × Response) → Result String Request → List Written
handled handle (failed e) = request_undecoded e ∷ []
handled handle (done req) =
    let (early, final) = handle req in map as_preliminary early ++ reply final ∷ []

-- `serveConn`: the handler's early replies are marked preliminary here.
unfoldable pub serve_conn :
    (Bytes → Result String Request) → (Request → List Response × Response) → Arriving → List Written
serve_conn decode handle a = elim (read_line max_request a) [
  | failed e ↦ request_unread e ∷ []
  | done line ↦ handled handle (decode line)
]
