-- ===== src/Tests/Loading.antt =====
-- Examples for the files of the configuration: a system file with the services of the house, and no
-- file of the user's.
use gpu_bouncer.Base.{
  ◌≡◌, refl, String, ◌==◌, Option, some, List, [], ◌∷◌, if◌then◌else◌, Result, done, false,
}
use gpu_bouncer.Base.Dict.{Dict, lookup}
use gpu_bouncer.Base.Int.{ℤ, pos}
use gpu_bouncer.Adapter.Http.{Bytes}
use gpu_bouncer.Config.Types.{Config, Service, defaults}
use gpu_bouncer.Config.Bounds.{Raw, raw_int, raw_text, check_bound, check_bounds}
use gpu_bouncer.Config.Unit.{validate_unit}
use gpu_bouncer.Config.Validate.{validate, validate_services, service_fault, validate_endpoint}
use gpu_bouncer.Config.Merge.{put_service, merge_blocks}
use gpu_bouncer.Config.Files.{
  Layer, RawTop, raw_table, raw_tables, unknown_in, pair_blocks, merge_policy, lay_over,
  unknown_faults, block_faults, layer_fault, merge_file,
}
use gpu_bouncer.Config.Files.Layered.{IsLayered, merge_file-IsLayered}
use gpu_bouncer.Config.Load.{
  System, contents, missing, user_config_dir, search_paths, load_files, load_from, content_digest,
}
use gpu_bouncer.Config.Load.Sources.{present, load_from-digest}
use gpu_bouncer.Daemon.Reports.{config_report}
use gpu_bouncer.Cli.Status.{config_drift}
use gpu_bouncer.Cli.Status.Fresh.{config_drift-fresh}
use gpu_bouncer.Tests.{house}

abbrev same_order : List String → List String
same_order keys = keys

abbrev five_seconds_each : String → Option ℤ
five_seconds_each text = some (pos 5_000_000_000)

abbrev house_file : Bytes
house_file = 104 ∷ 111 ∷ []

abbrev house_layer : Layer
house_layer = record {
  policy = record house.policy { vram_floor_mib = 1024 };
  services = house.services;
  undecoded = [];
}

abbrev block_of : Service → Dict Raw
block_of svc = ("name", raw_text svc.name) ∷ ("priority", raw_int svc.priority) ∷ []

abbrev blocks_of : List Service → List (Dict Raw)
blocks_of [] = []
blocks_of (svc ∷ services) = block_of svc ∷ blocks_of services

abbrev house_raw : Dict RawTop
house_raw =
    ("policy", raw_table (("vram_floor_mib", raw_int (pos 1024)) ∷ []))
    ∷ ("service", raw_tables (blocks_of house.services))
    ∷ []

abbrev decode_house : Bytes → Result String Layer
decode_house file = done house_layer

abbrev decode_house_raw : Bytes → Result String (Dict RawTop)
decode_house_raw file = done house_raw

abbrev laid : Config
laid = record defaults {
  policy =
      merge_policy defaults.policy house_layer.policy (("vram_floor_mib", raw_int (pos 1024)) ∷ []);
  services = house.services;
}

house_merges :
    merge_file same_order five_seconds_each decode_house decode_house_raw defaults house_file
    ≡ done laid
unfolding merge_file layer_fault unknown_faults unknown_in block_faults check_bounds check_bound
    lookup lay_over pair_blocks merge_blocks put_service defaults
house_merges = refl

merge_file-IsLayered_example :
    (layer : Layer) × (raw : Dict RawTop) × (decode_house house_file ≡ done layer)
    × (decode_house_raw house_file ≡ done raw)
    × IsLayered same_order five_seconds_each defaults laid layer raw "llm"
merge_file-IsLayered_example =
    merge_file-IsLayered same_order five_seconds_each decode_house decode_house_raw defaults laid
      house_file "llm" house_merges

-- The sum of a file is only a name here.
abbrev machine : System
machine = record {
  getenv = λ name. "";
  home = some "/home/me";
  join_path = λ dir file. "/home/me/.config/gpu-bouncer/config.toml";
  read_file =
      λ path. if path == "/etc/gpu-bouncer/config.toml" then contents house_file else missing;
  decode = decode_house;
  decode_raw = decode_house_raw;
  sort = same_order;
  parse_duration = five_seconds_each;
  parse_url = λ text. some (record { host = "127.0.0.1"; has_user = false });
  sha256_hex = λ bytes. "c0ffee";
  now = 100;
}

abbrev loaded_house : Config
loaded_house = record laid {
  sources = "/etc/gpu-bouncer/config.toml" ∷ [];
  hash = "c0ffee";
  loaded_at = 100;
}

house_loads : load_from machine (search_paths machine) ≡ done loaded_house
unfolding load_from load_files search_paths user_config_dir merge_file layer_fault unknown_faults
    unknown_in block_faults check_bounds check_bound lookup lay_over pair_blocks merge_blocks
    put_service defaults validate validate_services service_fault validate_endpoint validate_unit
    merge_policy
house_loads = refl

load_from-digest_example :
    (loaded_house.sources ≡ present machine (search_paths machine))
    × (content_digest machine loaded_house.sources ≡ done loaded_house.hash)
load_from-digest_example = load_from-digest machine (search_paths machine) loaded_house house_loads

-- A client with a configuration of its own beside the same files.
abbrev client : System
client = record machine { getenv = λ name. "/tmp/mine.toml" }

config_drift-fresh_example : (config_drift client (config_report loaded_house)).0 ≡ some false
config_drift-fresh_example =
    config_drift-fresh client machine (search_paths machine) loaded_house house_loads refl refl
