-- ===== src/Adapter/Comfyui.antt =====
-- internal/adapter/comfyui.go: ComfyUI's status, and the release that an idle server is asked for.
-- The decoding of a reply by encoding/json is a parameter.
pub mod Idle
use gpu_bouncer.Base.{
  ℕ, ◌-◌, String, Bool, true, false, Option, none, some, List, [], ◌∷◌, ltb, if◌then◌else◌, Result,
  done, failed, append_text, decimal,
}
use gpu_bouncer.Base.Int.{ℤ, pos, pos_part, eqb_ℤ, ltb_ℤ}
use gpu_bouncer.Config.Types.{Service}
use gpu_bouncer.Adapter.{Item, Status, no_status, Capabilities, Outcome, no_outcome, bytes_to_mib}
use gpu_bouncer.Adapter.Http.{
  method_get, method_post, free_request, Bytes, Request, Sent, Net, HttpFault, json_request,
  do_json, discard,
}

-- `comfyUIAdapter`; the timeout and the client are in `Net`.
pub record Comfyui : Type 0 where
  pub name : String
  pub base : String
  pub gpu_index : ℤ

pub new_comfyui : Service → ℤ → Comfyui
new_comfyui svc gpu_index = record { name = svc.name; base = svc.endpoint; gpu_index = gpu_index }

-- `comfyUIDevice`: `index` is none where it is null.
pub record TorchDevice : Type 0 where
  pub name : String
  pub kind : String
  pub index : Option ℤ
  pub torch_vram_total : ℕ
  pub torch_vram_free : ℕ

-- `comfyUISystemStats`
pub record SystemStats : Type 0 where
  pub version : String
  pub devices : List TorchDevice

-- `queue_remaining` is the reply of `comfyUIPrompt`.
pub record Decoder : Type 0 where
  pub system_stats : Bytes → Result String SystemStats
  pub queue_remaining : Bytes → Result String ℤ

pub data ComfyuiFault : Type 0 where
  not_reached : (name : String) (cause : HttpFault) → ComfyuiFault
  no_torch_devices : (name : String) → ComfyuiFault
  cannot_stop_process : ComfyuiFault

abbrev pub capabilities : Capabilities
capabilities = record { can_release = true; can_report_idle = true; can_stop = false }

-- A missing index matches no device.
abbrev pub has_index : ℤ → Option ℤ → Bool
has_index gpu_index none = false
has_index gpu_index (some i) = eqb_ℤ i gpu_index

unfoldable pub device : ℤ → List TorchDevice → Option TorchDevice
device gpu_index [] = none
device gpu_index (d ∷ ds) = if has_index gpu_index d.index then some d else device gpu_index ds

-- What live tensors hold: no figure where the free one exceeds the total.
unfoldable pub active_bytes : TorchDevice → ℕ
active_bytes d =
    if ltb d.torch_vram_free d.torch_vram_total then d.torch_vram_total - d.torch_vram_free else 0

abbrev print_ℤ : ℤ → String
print_ℤ (pos n) = decimal n
print_ℤ (ℤ.negsuc n) = append_text "-" (decimal (ℕ.suc n))

abbrev device_detail : ℤ → TorchDevice → String
device_detail gpu_index d = append_text "torch allocator on " (
    append_text d.kind (
      append_text " device " (
        append_text (print_ℤ gpu_index) (
          append_text ", " (
            append_text (decimal (bytes_to_mib d.torch_vram_free))
              " MiB reclaimable by cache empty alone; ComfyUI reports no per model inventory")))))

abbrev with_device : ℤ → Option TorchDevice → Status → Status
with_device gpu_index none status = status
with_device gpu_index (some d) status = record status {
  held_mib = bytes_to_mib (active_bytes d);
  items =
      record {
        name = d.name;
        vram_mib = bytes_to_mib (active_bytes d);
        detail = device_detail gpu_index d;
      }
      ∷ [];
}

unfoldable pub stats_status : ℤ → SystemStats → Status
stats_status gpu_index stats =
    with_device gpu_index (device gpu_index stats.devices)
      (record no_status { up = true; version = stats.version; held_estimated = true })

module _ (net : Net) (json : Decoder) (a : Comfyui) where
  abbrev pub stats_request : Request
  stats_request = json_request method_get (append_text a.base "/api/system_stats") none []

  abbrev pub prompt_request : Request
  prompt_request = json_request method_get (append_text a.base "/api/prompt") none []

  abbrev pub free_call : Request
  free_call =
      json_request method_post (append_text a.base "/api/free") (some (free_request true true)) []

  unfoldable pub queue_remaining : Sent → Result HttpFault ℤ × Sent
  queue_remaining sent = do_json net json.queue_remaining prompt_request sent

  abbrev with_queue : Status → Result HttpFault ℤ → Result ComfyuiFault Status
  with_queue status (failed e) = failed (not_reached a.name e)
  with_queue status (done remaining) =
      done (record status { idle = eqb_ℤ remaining (pos 0); idle_known = true })

  abbrev pub probe_stats : SystemStats → Sent → Result ComfyuiFault Status × Sent
  probe_stats stats sent = elim stats.devices [
    | [] ↦ (failed (no_torch_devices a.name), sent)
    | d ∷ ds ↦
        let (remaining, sent') = queue_remaining sent in
        (with_queue (stats_status a.gpu_index stats) remaining, sent')
  ]

  unfoldable pub probe : Sent → Result ComfyuiFault Status × Sent
  probe sent = elim (do_json net json.system_stats stats_request sent).0 [
    | failed e ↦
        (failed (not_reached a.name e), (do_json net json.system_stats stats_request sent).1)
    | done stats ↦ probe_stats stats (do_json net json.system_stats stats_request sent).1
  ]

  abbrev not_attempted : ℤ → Outcome
  not_attempted remaining = record no_outcome {
    detail = append_text "not attempted: " (
        append_text (print_ℤ remaining)
          " item(s) queued or running, and ComfyUI defers a free until the current prompt finishes, so the request would have been silently deferred");
  }

  abbrev pub asked_to_free : Outcome
  asked_to_free = record {
    acted = true;
    targets = [];
    detail =
        "asked ComfyUI to unload all models and empty the torch cache while idle; the effect lands on the executor thread, so the freed amount is whatever the daemon's before and after VRAM figures show";
  }

  abbrev pub freed : Result {0, 0} HttpFault Unit → Outcome × Option ComfyuiFault
  freed (failed e) = (no_outcome, some (not_reached a.name e))
  freed (done u) = (asked_to_free, none)

  -- The free is sent only where nothing is queued or running.
  unfoldable pub release : Sent → (Outcome × Option ComfyuiFault) × Sent
  release sent = elim (queue_remaining sent).0 [
    | failed e ↦ ((no_outcome, some (not_reached a.name e)), (queue_remaining sent).1)
    | done remaining ↦
        if ltb_ℤ (pos 0) remaining
        then ((not_attempted remaining, none), (queue_remaining sent).1)
        else (let (reply, sent') = do_json net discard free_call (queue_remaining sent).1 in
            (freed reply, sent'))
  ]

  -- `Stop`
  pub stop : Sent → (Outcome × Option ComfyuiFault) × Sent
  stop sent = ((no_outcome, some cannot_stop_process), sent)
