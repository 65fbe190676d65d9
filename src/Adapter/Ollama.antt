-- ===== src/Adapter/Ollama.antt =====
-- internal/adapter/ollama.go: Ollama's status, and the unloading of every loaded model.
-- `Status.items` lists the loaded models. The decoding of a reply by encoding/json is a parameter;
-- an expiry is the text of its time, or none for the zero time.
pub mod Unload
pub mod Drain
use gpu_bouncer.Base.{
  ℕ, zero, suc, ◌+◌, ◌-◌, String, ◌==◌, Bool, true, false, not, Option, none, some, List, [], ◌∷◌,
  ◌++◌, map, ltb, if◌then◌else◌, add_u64, Result, done, failed, append_text, decimal, join,
}
use gpu_bouncer.Base.Int.{ℤ, pos_part}
use gpu_bouncer.Config.Types.{Service}
use gpu_bouncer.Adapter.{
  Item, Status, no_status, Capabilities, Outcome, bytes_to_mib, no_outcome, err_not_supported,
}
use gpu_bouncer.Adapter.Http.{
  Method, method_get, method_post, Json, unload_request, Bytes, Request, Sent, Net, HttpFault,
  json_request, do_json,
}

-- `ollamaAdapter`: the timeouts are nanoseconds. The client and the polling interval are in `Net`.
pub record Ollama : Type 0 where
  pub name : String
  pub base : String
  pub drain_timeout : ℕ

pub new_ollama : Service → Ollama
new_ollama svc = record {
  name = svc.name;
  base = svc.endpoint;
  drain_timeout = pos_part svc.drain_timeout;
}

-- `ollamaPSModel`
pub record LoadedModel : Type 0 where
  pub name : String
  pub size : ℕ
  pub size_vram : ℕ
  pub expires_at : Option String

-- `ollamaGenerateResponse`
pub record Generated : Type 0 where
  pub done_reason : String

pub record Decoder : Type 0 where
  pub version : Bytes → Result String String
  pub models : Bytes → Result String (List LoadedModel)
  pub generated : Bytes → Result String Generated

pub data OllamaFault : Type 0 where
  not_reached : (name : String) (cause : HttpFault) → OllamaFault
  unload_failed : (name model : String) (cause : HttpFault) → OllamaFault
  not_an_unload : (name model done_reason : String) → OllamaFault
  poll_failed : (name : String) (cause : HttpFault) → OllamaFault
  wait_cancelled : (name cause : String) → OllamaFault
  still_loaded : (name : String) (targets : List String) → OllamaFault
  cannot_stop_process : OllamaFault

abbrev pub capabilities : Capabilities
capabilities = record { can_release = true; can_report_idle = false; can_stop = false }

abbrev spill_detail : LoadedModel → String
spill_detail m =
    if ltb m.size_vram m.size
    then append_text (decimal (bytes_to_mib (m.size - m.size_vram))) " MiB spilled to host RAM"
    else ""

abbrev with_expiry : String → Option String → String
with_expiry detail none = detail
with_expiry detail (some at_) =
    append_text (if detail == "" then "" else append_text detail ", ") (append_text "expires " at_)

abbrev pub item_of : LoadedModel → Item
item_of m = record {
  name = m.name;
  vram_mib = bytes_to_mib m.size_vram;
  detail = with_expiry (spill_detail m) m.expires_at;
}

-- The loop of `Probe` over the loaded models.
unfoldable pub add_models : List LoadedModel → Status → Status
add_models [] status = status
add_models (m ∷ ms) status = add_models ms (record status {
  items = status.items ++ item_of m ∷ [];
  held_mib = add_u64 status.held_mib (item_of m).vram_mib;
})

-- How the wait for the unloaded models ended.
pub data Drained : Type 0 where
  drained : Drained
  not_drained : Drained
  drain_failed : OllamaFault → Drained

abbrev pub names_model : List String → LoadedModel → Bool
names_model [] m = false
names_model (n ∷ ns) m = if n == m.name then true else names_model ns m

-- The inner loop of `waitDrained`.
unfoldable pub still_there : List String → List LoadedModel → Bool
still_there names [] = false
still_there names (m ∷ ms) = if names_model names m then true else still_there names ms

-- The result of a release that failed after these models.
abbrev pub partial_ : List String → Outcome
partial_ [] = no_outcome
partial_ (t ∷ ts) = record { acted = true; targets = t ∷ ts; detail = "" }

module _ (net : Net) (json : Decoder) (a : Ollama) where
  abbrev pub version_request : Request
  version_request = json_request method_get (append_text a.base "/api/version") none []

  abbrev pub ps_request : Request
  ps_request = json_request method_get (append_text a.base "/api/ps") none []

  abbrev pub unload_call : String → Request
  unload_call model =
      json_request method_post (append_text a.base "/api/generate") (some (unload_request model)) []

  unfoldable pub loaded : Sent → Result HttpFault (List LoadedModel) × Sent
  loaded sent = do_json net json.models ps_request sent

  abbrev up_status : String → Status
  up_status version = record no_status { up = true; version = version }

  abbrev probed : String → Result HttpFault (List LoadedModel) → Result OllamaFault Status
  probed version (failed e) = failed (not_reached a.name e)
  probed version (done models) = done (add_models models (up_status version))

  unfoldable pub probe : Sent → Result OllamaFault Status × Sent
  probe sent = elim (do_json net json.version version_request sent).0 [
    | failed e ↦ (failed (not_reached a.name e), (do_json net json.version version_request sent).1)
    | done version ↦
        let (models, sent') = loaded (do_json net json.version version_request sent).1 in
        (probed version models, sent')
  ]

  -- The answer of an unload, which must say that it was one.
  abbrev unload_answer : String → Result HttpFault Generated → Option OllamaFault
  unload_answer model (failed e) = some (unload_failed a.name model e)
  unload_answer model (done g) =
      if g.done_reason == "unload" then none else some (not_an_unload a.name model g.done_reason)

  unfoldable pub unload : String → Sent → Option OllamaFault × Sent
  unload model sent =
      let (reply, sent') = do_json net json.generated (unload_call model) sent in
      (unload_answer model reply, sent')

  -- The loop of `Release`: the models unloaded so far, and the error that ended it.
  unfoldable pub unload_all :
      List LoadedModel → List String → Sent → (List String × Option OllamaFault) × Sent
  unload_all [] targets sent = ((targets, none), sent)
  unload_all (m ∷ ms) targets sent = elim (unload m.name sent).0 [
    | some e ↦ ((targets, some e), (unload m.name sent).1)
    | none ↦ unload_all ms (targets ++ m.name ∷ []) (unload m.name sent).1
  ]

  -- `waitDrained` polls until no named model is listed, the deadline passes, the context ends, or
  -- the poll fails. It runs on fuel: none where the fuel is used up.
  unfoldable pub wait_drained : ℕ → ℕ → List String → Sent → Option Drained × Sent
  wait_drained zero deadline names sent = (none, sent)
  wait_drained (suc fuel) deadline names sent = elim (loaded sent).0 [
    | failed e ↦ (some (drain_failed (poll_failed a.name e)), (loaded sent).1)
    | done models ↦ elim (still_there names models) [
      | false ↦ (some drained, (loaded sent).1)
      | true ↦ elim (ltb deadline (net.now (loaded sent).1)) [
        | true ↦ (some not_drained, (loaded sent).1)
        | false ↦ elim (net.cancelled (loaded sent).1) [
          | some e ↦ (some (drain_failed (wait_cancelled a.name e)), (loaded sent).1)
          | none ↦ wait_drained fuel deadline names (loaded sent).1
        ]
      ]
    ]
  ]

  -- The result of `Release` once every model was asked to go.
  abbrev pub concluded : List String → Drained → Outcome × Option OllamaFault
  concluded targets drained = (
    record { acted = true; targets = targets; detail = append_text "unloaded " (join targets) },
    none,
  )
  concluded targets not_drained = (
    record {
      acted = false;
      targets = targets;
      detail = append_text "asked Ollama to expire " (join targets);
    },
    some (still_loaded a.name targets),
  )
  concluded targets (drain_failed e) = (partial_ targets, some e)

  abbrev pub drain_then :
      ℕ → (List String × Option OllamaFault) × Sent → Option (Outcome × Option OllamaFault) × Sent
  drain_then fuel ((targets, some e), sent) = (some (partial_ targets, some e), sent)
  drain_then fuel ((targets, none), sent) =
      let (end_, sent') = wait_drained fuel (net.now sent + a.drain_timeout) targets sent in
      (elim end_ [ none ↦ none | some d ↦ some (concluded targets d) ], sent')

  abbrev pub release_models :
      ℕ → List LoadedModel → Sent → Option (Outcome × Option OllamaFault) × Sent
  release_models fuel [] sent =
      (some (record no_outcome { detail = "no models were loaded" }, none), sent)
  release_models fuel (m ∷ ms) sent = drain_then fuel (unload_all (m ∷ ms) [] sent)

  unfoldable pub release : ℕ → Sent → Option (Outcome × Option OllamaFault) × Sent
  release fuel sent = elim (loaded sent).0 [
    | failed e ↦ (some (no_outcome, some (not_reached a.name e)), (loaded sent).1)
    | done models ↦ release_models fuel models (loaded sent).1
  ]

  -- `Stop`
  pub stop : Sent → (Outcome × Option OllamaFault) × Sent
  stop sent = ((no_outcome, some cannot_stop_process), sent)
