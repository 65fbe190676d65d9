-- ===== src/Cli/Printed.antt =====
-- internal/cli/commands.go: the lines that `status` prints. The spelling of times, and of the errors
-- and reasons that the model keeps as constructors, is that of `Spelling`.
use Prim.Native.String.{len}
use gpu_bouncer.Base.{
  ℕ, zero, suc, ◌-◌, String, ◌==◌, Bool, true, false, not, Option, none, some, List, [], ◌∷◌, ◌++◌,
  map, if◌then◌else◌, append_text,
}
use gpu_bouncer.Base.Int.{ℤ, eqb_ℤ}
use gpu_bouncer.Config.Types.{
  AdapterKind, adapter_ollama, adapter_comfyui, adapter_llama_swap, adapter_systemd_unit,
  adapter_other,
}
use gpu_bouncer.Config.Load.{System, LoadFault, search_paths}
use gpu_bouncer.Ipc.{
  GpuReport, ItemLabel, ServiceReport, ClaimReport, CooldownReport, CooldownReason,
}
use gpu_bouncer.Ipc.Client.{ConnectionFault}
use gpu_bouncer.Cli.Output.{texts, print_ℤ, mib, gpu_heading}
use gpu_bouncer.Cli.Status.{
  ConfigNote, no_note, loaded_no_file, recipe_unnamed, recipe_not_implemented, unreadable_now,
  loaded_different, reports_no_config, DaemonView, StatusOutput,
}

pub record Spelling : Type 0 where
  pub time : ℕ → String
  pub connection : ConnectionFault → String
  pub cooldown : CooldownReason → String
  pub load_fault : LoadFault → String
  pub quote : String → String

abbrev blanks : ℕ → String
blanks zero = ""
blanks (suc n) = append_text " " (blanks n)

-- `%-16s` and the like.
abbrev pad_right : ℕ → String → String
pad_right width text = append_text text (blanks (width - len text))

abbrev kind_text : AdapterKind → String
kind_text adapter_ollama = "ollama"
kind_text adapter_comfyui = "comfyui"
kind_text adapter_llama_swap = "llama-swap"
kind_text adapter_systemd_unit = "systemd-unit"
kind_text (adapter_other kind) = kind

abbrev vram_text : Option ℕ → String
vram_text none = ""
vram_text (some v) = texts (" (" ∷ mib v ∷ ")" ∷ [])

abbrev item_text : ItemLabel → String
item_text item = texts (
    item.name
    ∷ vram_text item.vram_mib
    ∷ (if not (item.detail == "") then append_text " " item.detail else "")
    ∷ [])

abbrev lines_if : Bool → List String → List String
lines_if true ls = ls
lines_if false ls = []

abbrev pub gpu_lines : GpuReport → List String
gpu_lines g =
    if g.known
    then (gpu_heading g
        ∷ texts (
            "  "
            ∷ mib g.used_mib
            ∷ " used of "
            ∷ mib g.total_mib
            ∷ ", "
            ∷ mib g.free_mib
            ∷ " free  (source: "
            ∷ g.source
            ∷ ")"
            ∷ [])
        ∷ [])
    else if not (g.name == "")
    then (gpu_heading g
        ∷ texts ("  state unavailable  (source: " ∷ g.source ∷ ")" ∷ [])
        ∷ append_text "  " g.error
        ∷ [])
    else ("GPU  state unavailable" ∷ lines_if (not (g.error == "")) (append_text "  " g.error ∷ []))

abbrev other_line : GpuReport → String
other_line d =
    if d.known
    then texts ("  " ∷ gpu_heading d ∷ ", " ∷ mib d.used_mib ∷ " used of " ∷ mib d.total_mib ∷ [])
    else texts ("  " ∷ gpu_heading d ∷ ", unreadable" ∷ [])

abbrev other_lines : ℤ → List GpuReport → List String
other_lines index [] = []
other_lines index (d ∷ ds) =
    let rest = other_lines index ds in if eqb_ℤ d.index index then rest else other_line d ∷ rest

abbrev headed_others : ℤ → List String → List String
headed_others index [] = []
headed_others index (l ∷ ls) =
    texts ("Other GPUs, not arbitrated (policy.gpu_index = " ∷ print_ℤ index ∷ "):" ∷ []) ∷ l ∷ ls

abbrev searched_lines : System → Option String → List String
searched_lines sys (some sources) = []
searched_lines sys none =
    "No config file was found. Searched:" ∷ map (append_text "  ") (search_paths sys)

abbrev none_configured : System → Option String → List ServiceReport → List String
none_configured sys config (s ∷ ss) = []
none_configured sys config [] =
    "No services are configured, so gpu-bouncer will never act." ∷ searched_lines sys config
    ++ "" ∷ []

abbrev pub service_lines : ServiceReport → List String
service_lines s =
    texts (
      pad_right 16 s.name
      ∷ " "
      ∷ pad_right 13 (kind_text s.adapter)
      ∷ " priority "
      ∷ pad_right 4 (print_ℤ s.priority)
      ∷ " "
      ∷ (if s.up then "up" else "down")
      ∷ [])
    ∷ (if not (s.error == "")
        then (append_text "  error: " s.error ∷ "" ∷ [])
        else (lines_if (not (s.version == "")) (append_text "  version " s.version ∷ [])
            ++ texts (
                "  holding "
                ∷ mib s.held_mib
                ∷ (if s.held_estimated then " (estimated)" else "")
                ∷ [])
              ∷ lines_if s.idle_known ((if s.idle then "  idle" else "  busy") ∷ [])
            ++ map (λ item. append_text "  - " (item_text item)) s.items
            ++ lines_if s.allow_stop ("  allow_stop is set: gpu-bouncer may stop this unit" ∷ [])
            ++ "" ∷ []))

abbrev all_service_lines : List ServiceReport → List String
all_service_lines [] = []
all_service_lines (s ∷ ss) = service_lines s ++ all_service_lines ss

abbrev headed : String → List String → List String
headed title [] = []
headed title (l ∷ ls) = title ∷ l ∷ ls ++ "" ∷ []

module _ (sp : Spelling) where
  abbrev claim_line : ClaimReport → String
  claim_line c =
      texts ("  " ∷ c.service ∷ " wants " ∷ mib c.need_mib ∷ " since " ∷ sp.time c.at ∷ [])

  abbrev cooldown_line : CooldownReport → String
  cooldown_line c =
      texts ("  " ∷ c.service ∷ " until " ∷ sp.time c.until ∷ ": " ∷ sp.cooldown c.reason ∷ [])

  abbrev running_line : Bool → Option Bool → String
  running_line false dry = "No daemon is running: gpu-bouncer is observing only, and will not act."
  running_line true none = texts (
      "A daemon is running. It is older than this client and does not report "
      ∷ "whether it is in dry-run mode, so it may be planning and never acting." ∷ [])
  running_line true (some true) = "A daemon is running in dry-run mode: it plans and never acts."
  running_line true (some false) = "A daemon is running."

  abbrev pub daemon_line : Option ConnectionFault → Bool → Option Bool → String
  daemon_line (some e) up dry = texts (
      "A daemon is running: "
      ∷ sp.connection e
      ∷ ", so what it has loaded and whether it is acting cannot be reported."
      ∷ [])
  daemon_line none up dry = running_line up dry

  abbrev untold : String
  untold = "so whether it is running on an older edit cannot be told"

  abbrev pub config_note_lines : ConfigNote → List String
  config_note_lines no_note = []
  config_note_lines loaded_no_file = "the daemon loaded no config file" ∷ []
  config_note_lines recipe_unnamed =
      texts (
        "the daemon is older than this client and does not say how it computed the digest of "
        ∷ "the config it loaded, " ∷ untold ∷ [])
      ∷ []
  config_note_lines (recipe_not_implemented recipe) =
      texts (
        "the daemon computed that digest as "
        ∷ sp.quote recipe
        ∷ ", which this client does not implement, "
        ∷ untold
        ∷ [])
      ∷ []
  config_note_lines (unreadable_now e) =
      texts (
        "the config the daemon loaded cannot be read now (" ∷ sp.load_fault e ∷ "), " ∷ untold ∷ [])
      ∷ []
  config_note_lines (loaded_different joined at) =
      texts (
        "the daemon loaded a different config ("
        ∷ joined
        ∷ ", loaded "
        ∷ sp.time at
        ∷ "); restart it to apply your edit"
        ∷ [])
      ∷ []
  config_note_lines reports_no_config =
      texts (
        "the daemon is older than this client and does not report which config it loaded, " ∷ untold
        ∷ [])
      ∷ []

  abbrev config_lines : Option String → List String
  config_lines none = []
  config_lines (some sources) = append_text "Config: " sources ∷ []

  -- `printStatus`, a line for each.
  unfoldable pub print_status : System → ℤ → StatusOutput → DaemonView → List String
  print_status sys index out view =
      gpu_lines out.gpu
      ++ headed_others index (other_lines index out.devices)
      ++ "" ∷ none_configured sys out.config out.services
      ++ all_service_lines out.services
      ++ headed "Outstanding claims:" (map claim_line out.claims)
      ++ headed "Cooling down, left alone by reactive plans:" (map cooldown_line out.cooldowns)
      ++ daemon_line view.note view.up view.dry ∷ config_lines out.config
      ++ config_note_lines view.config_note
