-- ===== src/Config/Types.antt =====
-- internal/config/config.go: the configuration's data, and looking a service up by name.
-- A duration is an `int64` of nanoseconds, held as an integer.
use gpu_bouncer.Base.{
  ℕ, String, ◌==◌, Bool, true, false, Option, none, some, List, [], ◌∷◌, if◌then◌else◌,
}
use gpu_bouncer.Base.Int.{ℤ, pos}

-- `adapter_other` is a kind that no adapter serves.
pub data AdapterKind : Type 0 where
  adapter_ollama adapter_comfyui adapter_llama_swap adapter_systemd_unit : AdapterKind
  adapter_other : String → AdapterKind

-- `AdapterKind.valid`
abbrev pub valid : AdapterKind → Bool
valid (adapter_other s) = false
valid _ = true

abbrev pub needs_endpoint : AdapterKind → Bool
needs_endpoint adapter_ollama = true
needs_endpoint adapter_comfyui = true
needs_endpoint adapter_llama_swap = true
needs_endpoint _ = false

abbrev pub is_systemd_unit : AdapterKind → Bool
is_systemd_unit adapter_systemd_unit = true
is_systemd_unit _ = false

pub record Service : Type 0 where
  pub name : String
  pub adapter : AdapterKind
  pub endpoint : String
  pub unit : String
  pub user_unit : Bool
  pub priority : ℤ
  pub allow_stop : Bool
  pub timeout : ℤ
  pub drain_timeout : ℤ

pub record Policy : Type 0 where
  pub vram_floor_mib : ℕ
  pub default_workload : String
  pub reactive : Bool
  pub poll_interval : ℤ
  pub gpu_index : ℤ
  pub min_effect_mib : ℕ
  pub action_cooldown : ℤ

-- `hash` and `loaded_at` identify the files read; nothing is decided by them.
pub record Config : Type 0 where
  pub policy : Policy
  pub services : List Service
  pub sources : List String
  pub hash : String
  pub loaded_at : ℕ

-- How `hash` is computed.
abbrev pub digest_recipe : String
digest_recipe = "content-v1"

abbrev pub second : ℕ
second = 1_000_000_000

-- `Defaults`
unfoldable pub defaults : Config
defaults = record {
  policy = record {
    vram_floor_mib = 512;
    default_workload = "";
    reactive = false;
    poll_interval = pos 5_000_000_000;
    gpu_index = pos 0;
    min_effect_mib = 64;
    action_cooldown = pos 60_000_000_000;
  };
  services = [];
  sources = [];
  hash = "";
  loaded_at = 0;
}

-- `Config.Service`, on the list of services.
unfoldable pub service : List Service → String → Option Service
service [] name = none
service (s ∷ ss) name = if s.name == name then some s else service ss name
