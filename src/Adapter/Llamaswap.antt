-- ===== src/Adapter/Llamaswap.antt =====
-- internal/adapter/llamaswap.go: llama-swap's status, and the unloading of all it runs in one call.
-- The decoding of a reply by encoding/json is a parameter.
pub mod Confirmed
use gpu_bouncer.Base.{
  String, ◌==◌, true, false, Option, none, some, List, [], ◌∷◌, map, if◌then◌else◌, Result, done,
  failed, append_text, join,
}
use gpu_bouncer.Config.Types.{Service}
use gpu_bouncer.Adapter.{Item, Status, no_status, Capabilities, Outcome, no_outcome}
use gpu_bouncer.Adapter.Http.{
  method_get, method_post, Bytes, Request, Sent, Net, HttpFault, json_request, text_request,
  do_json, do_text,
}

-- `llamaSwapAdapter`; the timeouts and the client are in `Net`.
pub record Llamaswap : Type 0 where
  pub name : String
  pub base : String
  pub api_key : String

-- The key is read from the environment when the adapter is made.
pub new_llamaswap : Service → String → Llamaswap
new_llamaswap svc api_key = record { name = svc.name; base = svc.endpoint; api_key = api_key }

-- `llamaSwapProcess`
pub record Process : Type 0 where
  pub model : String
  pub state : String

-- `unload_msg` is the reply of `llamaSwapUnloadResponse`.
pub record Decoder : Type 0 where
  pub running : Bytes → Result String (List Process)
  pub unload_msg : Bytes → Result String String

pub data LlamaswapFault : Type 0 where
  not_reached : (name : String) (cause : HttpFault) → LlamaswapFault
  unload_failed : (name : String) (cause : HttpFault) → LlamaswapFault
  unload_unconfirmed : (name msg : String) → LlamaswapFault
  cannot_stop_process : LlamaswapFault

abbrev pub capabilities : Capabilities
capabilities = record { can_release = true; can_report_idle = false; can_stop = false }

abbrev pub item_of : Process → Item
item_of p = record { name = p.model; vram_mib = 0; detail = append_text "state " p.state }

abbrev pub model_of : Process → String
model_of p = p.model

module _ (net : Net) (json : Decoder) (a : Llamaswap) where
  abbrev pub auth_header : List (String × String)
  auth_header =
      if a.api_key == "" then [] else (("Authorization", append_text "Bearer " a.api_key) ∷ [])

  abbrev pub health_request : Request
  health_request = text_request method_get (append_text a.base "/health") none auth_header

  abbrev pub running_request : Request
  running_request = json_request method_get (append_text a.base "/running") none auth_header

  abbrev pub unload_call : Request
  unload_call = json_request method_post (append_text a.base "/api/models/unload") none auth_header

  unfoldable pub running : Sent → Result HttpFault (List Process) × Sent
  running sent = do_json net json.running running_request sent

  abbrev probed : Result HttpFault (List Process) → Result LlamaswapFault Status
  probed (failed e) = failed (not_reached a.name e)
  probed (done processes) =
      done (record no_status { up = true; items = map item_of processes; held_estimated = true })

  unfoldable pub probe : Sent → Result LlamaswapFault Status × Sent
  probe sent = elim (do_text net health_request sent).0 [
    | failed e ↦ (failed (not_reached a.name e), (do_text net health_request sent).1)
    | done health ↦
        let (processes, sent') = running (do_text net health_request sent).1 in
        (probed processes, sent')
  ]

  abbrev pub unloaded : List String → Result HttpFault String → Outcome × Option LlamaswapFault
  unloaded targets (failed e) = (no_outcome, some (unload_failed a.name e))
  unloaded targets (done msg) =
      if msg == "ok"
      then (
        record { acted = true; targets = targets; detail = append_text "unloaded " (join targets) },
        none,
      )
      else (no_outcome, some (unload_unconfirmed a.name msg))

  abbrev pub release_running : List Process → Sent → (Outcome × Option LlamaswapFault) × Sent
  release_running [] sent = ((record no_outcome { detail = "no models were running" }, none), sent)
  release_running (p ∷ ps) sent =
      let (reply, sent') = do_json net json.unload_msg unload_call sent in
      (unloaded (map model_of (p ∷ ps)) reply, sent')

  unfoldable pub release : Sent → (Outcome × Option LlamaswapFault) × Sent
  release sent = elim (running sent).0 [
    | failed e ↦ ((no_outcome, some (not_reached a.name e)), (running sent).1)
    | done processes ↦ release_running processes (running sent).1
  ]

  -- `Stop`
  pub stop : Sent → (Outcome × Option LlamaswapFault) × Sent
  stop sent = ((no_outcome, some cannot_stop_process), sent)
