-- ===== src/Config/Load.antt =====
-- internal/config/config.go: the files that are read, in order, and the digest of what they hold.
-- The file system, the environment, SHA-256 and the clock are parameters.
pub mod Sources
use gpu_bouncer.Base.{
  ℕ, String, ◌==◌, Bool, not, Option, none, some, List, [], ◌∷◌, ◌++◌, if◌then◌else◌, Result, done,
  failed,
}
use gpu_bouncer.Base.Int.{ℤ}
use gpu_bouncer.Base.Dict.{Dict}
use gpu_bouncer.Adapter.Http.{Bytes}
use gpu_bouncer.Config.Types.{Config, defaults}
use gpu_bouncer.Config.Validate.{Url, Fault, Checked, accepted, rejected, validate}
use gpu_bouncer.Config.Files.{Layer, RawTop, MergeFault, merge_file}

abbrev pub env_config : String
env_config = "GPU_BOUNCER_CONFIG"

-- What `os.ReadFile` gives.
pub data FileRead : Type 0 where
  contents : Bytes → FileRead
  missing : FileRead
  unreadable : (text : String) → FileRead

pub data LoadFault : Type 0 where
  missing_file : (path : String) → LoadFault
  unreadable_file : (path text : String) → LoadFault
  in_file : (path : String) → MergeFault → LoadFault
  invalid : Fault → LoadFault

-- What `Load` calls outside: the environment, the file system, the decoders, SHA-256 in hex, the
-- clock, and the standard library's parsers and sort.
pub record System : Type 0 where
  pub getenv : String → String
  pub home : Option String
  pub join_path : String → String → String
  pub read_file : String → FileRead
  pub decode : Bytes → Result String Layer
  pub decode_raw : Bytes → Result String (Dict RawTop)
  pub sort : List String → List String
  pub parse_duration : String → Option ℤ
  pub parse_url : String → Option Url
  pub sha256_hex : Bytes → String
  pub now : ℕ

abbrev config_under : (String → String → String) → Option String → String
config_under join_path none = ""
config_under join_path (some home) = join_path home ".config"

unfoldable pub user_config_dir : System → String
user_config_dir sys =
    let xdg = sys.getenv "XDG_CONFIG_HOME" in
    if not (xdg == "") then xdg else config_under sys.join_path sys.home

abbrev user_paths : System → List String
user_paths sys =
    let dir = user_config_dir sys in
    if dir == "" then [] else sys.join_path dir "gpu-bouncer/config.toml" ∷ []

unfoldable pub search_paths : System → List String
search_paths sys =
    let override = sys.getenv env_config in
    if not (override == "") then override ∷ [] else "/etc/gpu-bouncer/config.toml" ∷ user_paths sys

-- A file's bytes and a zero, behind what was written before.
unfoldable pub write_digest : Bytes → Bytes → Bytes
write_digest digest file = digest ++ file ++ (0 ∷ [])

module _ (sys : System) where
  abbrev pub is_explicit : Bool
  is_explicit = not (sys.getenv env_config == "")

  abbrev pub add_file :
      String → Bytes → Bytes → Result MergeFault Config → Result LoadFault (Config × Bytes)
  add_file path file digest (failed f) = failed (in_file path f)
  add_file path file digest (done cfg) =
      done (record cfg { sources = cfg.sources ++ (path ∷ []) }, write_digest digest file)

  abbrev pub load_read : String → Config → Bytes → FileRead → Result LoadFault (Config × Bytes)
  load_read path cfg digest missing =
      if is_explicit then failed (missing_file path) else done (cfg, digest)
  load_read path cfg digest (unreadable text) = failed (unreadable_file path text)
  load_read path cfg digest (contents file) =
      add_file path file digest
        (merge_file sys.sort sys.parse_duration sys.decode sys.decode_raw cfg file)

  -- One round of the loop; after a failure nothing is read.
  abbrev pub load_file :
      String → Result LoadFault (Config × Bytes) → Result LoadFault (Config × Bytes)
  load_file path (failed f) = failed f
  load_file path (done (cfg, digest)) = load_read path cfg digest (sys.read_file path)

  unfoldable pub load_files :
      List String → Result LoadFault (Config × Bytes) → Result LoadFault (Config × Bytes)
  load_files [] loaded = loaded
  load_files (path ∷ paths) loaded = load_files paths (load_file path loaded)

  abbrev pub stamped : Bytes → Checked Config → Result LoadFault Config
  stamped digest (rejected f) = failed (invalid f)
  stamped digest (accepted cfg) =
      done (record cfg { hash = sys.sha256_hex digest; loaded_at = sys.now })

  abbrev pub validated : Result LoadFault (Config × Bytes) → Result LoadFault Config
  validated (failed f) = failed f
  validated (done (cfg, digest)) = stamped digest (validate sys.parse_url cfg)

  unfoldable pub load_from : List String → Result LoadFault Config
  load_from paths = validated (load_files paths (done (defaults, [])))

  unfoldable pub load : Result LoadFault Config
  load = load_from (search_paths sys)

  abbrev pub digest_read : String → Bytes → FileRead → Result LoadFault Bytes
  digest_read path digest missing = failed (missing_file path)
  digest_read path digest (unreadable text) = failed (unreadable_file path text)
  digest_read path digest (contents file) = done (write_digest digest file)

  abbrev pub digest_file : String → Result LoadFault Bytes → Result LoadFault Bytes
  digest_file path (failed f) = failed f
  digest_file path (done digest) = digest_read path digest (sys.read_file path)

  unfoldable pub digest_files : List String → Result LoadFault Bytes → Result LoadFault Bytes
  digest_files [] digest = digest
  digest_files (path ∷ paths) digest = digest_files paths (digest_file path digest)

  abbrev pub hashed : Result LoadFault Bytes → Result LoadFault String
  hashed (failed f) = failed f
  hashed (done digest) = done (sys.sha256_hex digest)

  unfoldable pub content_digest : List String → Result LoadFault String
  content_digest paths = hashed (digest_files paths (done []))
