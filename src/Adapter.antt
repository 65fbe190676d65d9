-- ===== src/Adapter.antt =====
-- internal/adapter/adapter.go: what an adapter reports, and which configurations have one.
-- What the services answer over their APIs is not part of the program: see `Observe.Env`.
pub mod Http
pub mod Ollama
pub mod Comfyui
pub mod Llamaswap
pub mod SystemdUnit
use gpu_bouncer.Base.{
  ℕ, ◌+◌, ◌*◌, ◌/◌, ◌<◌, ◌≤◌, String, Bool, false, List, [], ltb, eqb, if◌then◌else◌, arith,
}
use gpu_bouncer.Config.Types.{AdapterKind, valid}

pub record Item : Type 0 where
  pub name : String
  pub vram_mib : ℕ
  pub detail : String

pub record Status : Type 0 where
  pub up : Bool
  pub version : String
  pub items : List Item
  pub held_mib : ℕ
  pub held_estimated : Bool
  pub idle : Bool
  pub idle_known : Bool

-- The zero value of the struct.
abbrev pub no_status : Status
no_status = record {
  up = false;
  version = "";
  items = [];
  held_mib = 0;
  held_estimated = false;
  idle = false;
  idle_known = false;
}

pub record Capabilities : Type 0 where
  pub can_release : Bool
  pub can_report_idle : Bool
  pub can_stop : Bool

abbrev pub no_capabilities : Capabilities
no_capabilities = record { can_release = false; can_report_idle = false; can_stop = false }

-- `Result`
pub record Outcome : Type 0 where
  pub acted : Bool
  pub targets : List String
  pub detail : String

abbrev pub no_outcome : Outcome
no_outcome = record { acted = false; targets = []; detail = "" }

-- `ErrNotSupported` and `ErrNotPermitted`
abbrev pub err_not_supported : String
err_not_supported = "action not supported by this adapter"

abbrev pub err_not_permitted : String
err_not_permitted = "action not permitted by this service's config"

-- `New` fails for a kind that no adapter serves.
abbrev pub has_adapter : AdapterKind → Bool
has_adapter kind = valid kind

unfoldable pub bytes_to_mib : ℕ → ℕ
bytes_to_mib b =
    if eqb b 0 then 0 else (let mib = b / (1024 * 1024) in if ltb 0 mib then mib else 1)

-- A service that reports a byte shows as holding something, and a figure of at least a MiB is
-- rounded down.
bytes_to_mib_bounds :
    (b : ℕ)
    → (0 < b → 0 < bytes_to_mib b)
      × (1024 * 1024 ≤ b
          → (bytes_to_mib b * (1024 * 1024) ≤ b) × (b < (bytes_to_mib b + 1) * (1024 * 1024)))
unfolding bytes_to_mib
bytes_to_mib_bounds b = ground arith
