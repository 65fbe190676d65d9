-- ===== src/Tests/Services.antt =====
-- Services that answer as their documentation says, for the examples of the adapters.
use gpu_bouncer.Base.{
  ℕ, ◌≡◌, ◌≢◌, refl, true, Option, none, some, [], ◌∷◌, map, arith, length, join, append_text, eqb,
  if◌then◌else◌, done, failed,
}
use gpu_bouncer.Base.Int.{pos}
use gpu_bouncer.Adapter.{Outcome}
use gpu_bouncer.Adapter.Http.{
  Bytes, Response, Net, answered, do_json, send, encoded, receive, read_body, take,
}
use gpu_bouncer.Adapter.Http.Answered.{IsAnswered, do_json-IsAnswered}
use gpu_bouncer.Adapter.Ollama
use gpu_bouncer.Adapter.Ollama.{Ollama, LoadedModel, OllamaFault}
use gpu_bouncer.Adapter.Ollama.Drain.{Advances, Gone}
use gpu_bouncer.Adapter.Ollama.Unload.{name_of, release-Gone, release_ends}
use gpu_bouncer.Adapter.Comfyui
use gpu_bouncer.Adapter.Comfyui.Idle.{FreedWhileIdle, release-FreedWhileIdle}
use gpu_bouncer.Adapter.Llamaswap
use gpu_bouncer.Adapter.Llamaswap.Confirmed.{Confirms, release-Confirms}

-- Every request is answered with 200, and the body counts the requests before it.
abbrev counting : Net
counting = record {
  answer = λ req sent. answered (record {
    status = 200;
    location = "";
    body = record { bytes = length sent ∷ []; broken = none };
  });
  encode = λ body. done [];
  builds = λ method url. none;
  redact_url = λ url. url;
  now = λ sent. length sent;
  cancelled = λ sent. none;
}

abbrev first_byte : Bytes → ℕ
first_byte [] = 0
first_byte (b ∷ bs) = b

abbrev llama : LoadedModel
llama = record { name = "llama"; size = 100; size_vram = 100; expires_at = none }

-- One model until the unload, and none behind it.
abbrev ollama_json : Ollama.Decoder
ollama_json = record {
  version = λ bs. done "0.33.2";
  models = λ bs. done (if eqb (first_byte bs) 0 then (llama ∷ []) else []);
  generated = λ bs. done (record { done_reason = "unload" });
}

abbrev ollama : Ollama
ollama = record { name = "llm"; base = "http://127.0.0.1:11434"; drain_timeout = 30 }

abbrev unloaded_llama : Outcome × Option OllamaFault
unloaded_llama = (
  record {
    acted = true;
    targets = "llama" ∷ [];
    detail = append_text "unloaded " (join ("llama" ∷ []));
  },
  none,
)

counting-Advances : Advances counting
counting-Advances req sent = omega arith

do_json-IsAnswered_example :
    (r : Response) × IsAnswered counting (Ollama.ps_request counting ollama_json ollama) [] r
    × (ollama_json.models r.body.bytes ≡ done (llama ∷ []))
    × ((do_json counting ollama_json.models (Ollama.ps_request counting ollama_json ollama) []).1
        ≡ Ollama.ps_request counting ollama_json ollama ∷ [])
unfolding do_json send encoded receive read_body take
do_json-IsAnswered_example =
    do_json-IsAnswered counting ollama_json.models (Ollama.ps_request counting ollama_json ollama)
      [] (llama ∷ []) refl

release-Gone_example :
    (unloaded_llama.0.targets ≡ map name_of (llama ∷ []))
    × (unloaded_llama.0.acted ≡ true)
    × Gone counting ollama_json ollama unloaded_llama.0.targets
        (Ollama.release counting ollama_json ollama 31 []).1
unfolding Ollama.release Ollama.loaded Ollama.unload_all Ollama.unload Ollama.wait_drained
    Ollama.still_there do_json send encoded receive read_body take
release-Gone_example =
    release-Gone counting ollama_json ollama 31 [] llama [] unloaded_llama.0 refl refl

release_ends_example :
    (r : Outcome × Option OllamaFault) × ((Ollama.release counting ollama_json ollama 31 []).0
      ≡ some r)
release_ends_example =
    release_ends counting ollama_json ollama 31 [] counting-Advances (omega arith)

abbrev comfyui_json : Comfyui.Decoder
comfyui_json = record { system_stats = λ bs. failed ""; queue_remaining = λ bs. done (pos 0) }

abbrev comfyui : Comfyui.Comfyui
comfyui = record { name = "draw"; base = "http://127.0.0.1:8188"; gpu_index = pos 0 }

abbrev llamaswap_json : Llamaswap.Decoder
llamaswap_json = record {
  running = λ bs. done (record { model = "qwen"; state = "ready" } ∷ []);
  unload_msg = λ bs. done "ok";
}

abbrev llamaswap : Llamaswap.Llamaswap
llamaswap = record { name = "swap"; base = "http://127.0.0.1:9292"; api_key = "" }

release-FreedWhileIdle_example : FreedWhileIdle counting comfyui_json comfyui []
unfolding Comfyui.release Comfyui.queue_remaining do_json send encoded receive read_body take
release-FreedWhileIdle_example = release-FreedWhileIdle counting comfyui_json comfyui [] refl

abbrev qwen : Llamaswap.Process
qwen = record { model = "qwen"; state = "ready" }

release-Confirms_example :
    ((qwen ∷ []) ≢ [])
    × ((Llamaswap.release counting llamaswap_json llamaswap []).0.0.targets ≡ "qwen" ∷ [])
    × Confirms counting llamaswap_json llamaswap
        (qwen ∷ [])
        (Llamaswap.running_request counting llamaswap_json llamaswap ∷ [])
    × ((Llamaswap.release counting llamaswap_json llamaswap []).1
        ≡ Llamaswap.unload_call counting llamaswap_json llamaswap
          ∷ Llamaswap.running_request counting llamaswap_json llamaswap
          ∷ [])
unfolding Llamaswap.release Llamaswap.running do_json send encoded receive read_body take
release-Confirms_example =
    release-Confirms counting llamaswap_json llamaswap [] (qwen ∷ []) refl refl
