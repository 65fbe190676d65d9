-- ===== src/Cli/Status/Fresh.antt =====
-- internal/cli/commands.go: what configDrift makes of a daemon whose files are as it read them.
use gpu_bouncer.Base.{
  ◌≡◌, refl, ap, ◌∙◌, String, eq_iff, false, some, List, [], ◌∷◌, join, join_nil, Result, done,
  failed, arith,
}
use gpu_bouncer.Adapter.Http.{Bytes}
use gpu_bouncer.Config.Types.{Config}
use gpu_bouncer.Config.Load.{
  System, FileRead, missing, unreadable, contents, LoadFault, load_from, digest_read, digest_file,
  digest_files, hashed, content_digest,
}
use gpu_bouncer.Config.Load.Sources.{load_from-digest}
use gpu_bouncer.Daemon.Reports.{config_report}
use gpu_bouncer.Cli.Status.{listed_or_split, paths_of, compared, drift_of, config_drift}

own_paths : (paths : List String) → listed_or_split paths (join paths) ≡ paths
own_paths [] = rw join_nil refl
own_paths (p ∷ ps) = refl

paths_of-config_report : (cfg : Config) → paths_of (config_report cfg) ≡ cfg.sources
unfolding paths_of
paths_of-config_report cfg = own_paths cfg.sources

-- Two machines with the same files take the same digest of them.
module _ (here sys : System) where
  digest_read_same :
      (path : String) (digest : Bytes) (file : FileRead)
      → digest_read here path digest file ≡ digest_read sys path digest file
  digest_read_same path digest missing = refl
  digest_read_same path digest (unreadable text) = refl
  digest_read_same path digest (contents file) = refl

  digest_file_same :
      (path : String) (digest : Result LoadFault Bytes)
      → here.read_file ≡ sys.read_file
      → digest_file here path digest ≡ digest_file sys path digest
  digest_file_same path (failed f) e = refl
  digest_file_same path (done digest) e =
      ap (λ f. digest_read here path digest (f path)) e
      ∙ digest_read_same path digest (sys.read_file path)

  digest_files_same :
      (paths : List String) (digest : Result LoadFault Bytes)
      → here.read_file ≡ sys.read_file
      → digest_files here paths digest ≡ digest_files sys paths digest
  unfolding digest_files
  digest_files_same [] digest e = refl
  digest_files_same (path ∷ paths) digest e =
      ap (digest_files here paths) (digest_file_same path digest e)
      ∙ digest_files_same paths (digest_file sys path digest) e

  hashed_same :
      (r : Result LoadFault Bytes) → here.sha256_hex ≡ sys.sha256_hex → hashed here r ≡ hashed sys r
  hashed_same (failed f) e = refl
  hashed_same (done digest) e = ap (λ h. done (h digest)) e

  content_digest_same :
      (paths : List String)
      → here.read_file ≡ sys.read_file
      → here.sha256_hex ≡ sys.sha256_hex
      → content_digest here paths ≡ content_digest sys paths
  unfolding content_digest
  content_digest_same paths files sums =
      ap (hashed here) (digest_files_same paths (done []) files)
      ∙ hashed_same (digest_files sys paths (done [])) sums

  compared-fresh :
      (cfg : Config) (paths : List String)
      → (compared (config_report cfg) paths (done cfg.hash)).0 ≡ some false
  compared-fresh cfg paths = ground (arith, eq_iff cfg.hash cfg.hash)

  drift_of-fresh :
      (cfg : Config) (paths : List String)
      → content_digest here paths ≡ done cfg.hash
      → (drift_of here (config_report cfg) paths).0 ≡ some false
  drift_of-fresh cfg [] e = refl
  drift_of-fresh cfg (p ∷ ps) e =
      ap (λ r. (compared (config_report cfg) (p ∷ ps) r).0) e ∙ compared-fresh cfg (p ∷ ps)

  -- A client on a machine whose files are those that the daemon loaded, whatever its own
  -- environment and search path, finds that the daemon's configuration has not changed.
  pub config_drift-fresh :
      (paths : List String) (cfg : Config)
      → load_from sys paths ≡ done cfg
      → here.read_file ≡ sys.read_file
      → here.sha256_hex ≡ sys.sha256_hex
      → (config_drift here (config_report cfg)).0 ≡ some false
  unfolding config_drift
  config_drift-fresh paths cfg e files sums =
      ap (λ l. (drift_of here (config_report cfg) l).0) (paths_of-config_report cfg)
      ∙ drift_of-fresh cfg cfg.sources
          (content_digest_same cfg.sources files sums ∙ (load_from-digest sys paths cfg e).1)
