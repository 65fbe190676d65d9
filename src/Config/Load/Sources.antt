-- ===== src/Config/Load/Sources.antt =====
-- internal/config/config.go: which files a loaded configuration comes from, and its digest.
use gpu_bouncer.Base.{
  ◌≡◌, refl, sym, ap, subst, ◌∙◌, String, Bool, true, false, List, [], ◌∷◌, ◌++◌, Result, done,
  failed, Bool-cases, inl, inr, if◌then◌else◌,
}
use mathlib.Core.List.{append_assoc, append-nil}
use gpu_bouncer.Adapter.Http.{Bytes}
use gpu_bouncer.Config.Types.{Config, defaults}
use gpu_bouncer.Config.Validate.{Checked, accepted, rejected, validate}
use gpu_bouncer.Config.Accepted.{validate-IsAcceptable}
use gpu_bouncer.Config.Files.{MergeFault, merge_file}
use gpu_bouncer.Config.Files.Layered.{merge_file-sources}
use gpu_bouncer.Config.Load.{
  FileRead, contents, missing, unreadable, LoadFault, System, is_explicit, add_file, load_read,
  load_file, load_files, stamped, validated, load_from, digest_read, digest_file, digest_files,
  hashed, content_digest,
}

abbrev pub is_there : FileRead → Bool
is_there (contents file) = true
is_there (unreadable text) = false
is_there missing = false

module _ (sys : System) where
  -- The paths at which there is a file.
  abbrev pub present : List String → List String
  present [] = []
  present (path ∷ paths) =
      let rest = present paths in if is_there (sys.read_file path) then path ∷ rest else rest

  digest_files-snoc :
      (paths : List String) (path : String) (digest : Result LoadFault Bytes)
      → digest_files sys (paths ++ (path ∷ [])) digest
        ≡ digest_file sys path (digest_files sys paths digest)
  unfolding digest_files
  digest_files-snoc [] path digest = refl
  digest_files-snoc (p ∷ paths) path digest =
      digest_files-snoc paths path (digest_file sys p digest)

  -- What has been loaded so far, from the paths before: the sources are the ones with a file, and
  -- the digest is theirs.
  abbrev Digested : List String → Result LoadFault (Config × Bytes) → Type 0
  Digested before (failed f) = Unit
  Digested before (done (cfg, digest)) =
      (cfg.sources ≡ before) × (digest_files sys cfg.sources (done []) ≡ done digest)

  abbrev taken : List String → String → FileRead → List String
  taken before path file = if is_there file then before ++ (path ∷ []) else before

  add_file-Digested :
      (before : List String) (path : String) (file : Bytes) (cfg : Config) (digest : Bytes)
      (r : Result MergeFault Config)
      → sys.read_file path ≡ contents file
      → merge_file sys.sort sys.parse_duration sys.decode sys.decode_raw cfg file ≡ r
      → Digested before (done (cfg, digest))
      → Digested (before ++ (path ∷ [])) (add_file sys path file digest r)
  add_file-Digested before path file cfg digest (failed f) q m h = tt
  add_file-Digested before path file cfg digest (done out) q m (s, d) =
      let same =
        merge_file-sources sys.sort sys.parse_duration sys.decode sys.decode_raw cfg out file m in
      let all : out.sources ++ (path ∷ []) ≡ cfg.sources ++ (path ∷ []) =
        ap (λ l. l ++ (path ∷ [])) same in
      (
        all ∙ ap (λ l. l ++ (path ∷ [])) s,
        ap (λ l. digest_files sys l (done [])) all
            ∙ digest_files-snoc cfg.sources path (done [])
            ∙ ap (digest_file sys path) d
            ∙ ap (digest_read sys path digest) q,
      )

  load_read-Digested :
      (before : List String) (path : String) (cfg : Config) (digest : Bytes) (file : FileRead)
      → sys.read_file path ≡ file
      → Digested before (done (cfg, digest))
      → Digested (taken before path file) (load_read sys path cfg digest file)
  load_read-Digested before path cfg digest missing q h = elim (Bool-cases (is_explicit sys)) [
    | inl e ↦ rw e tt
    | inr e ↦ rw e h
  ]
  load_read-Digested before path cfg digest (unreadable text) q h = tt
  load_read-Digested before path cfg digest (contents file) q h =
      add_file-Digested before path file cfg digest _ q refl h

  load_file-Digested :
      (before : List String) (path : String) (loaded : Result LoadFault (Config × Bytes))
      → Digested before loaded
      → Digested (taken before path (sys.read_file path)) (load_file sys path loaded)
  load_file-Digested before path (failed f) h = tt
  load_file-Digested before path (done (cfg, digest)) h =
      load_read-Digested before path cfg digest (sys.read_file path) refl h

  taken-present :
      (before : List String) (path : String) (paths : List String)
      → taken before path (sys.read_file path) ++ present paths ≡ before ++ present (path ∷ paths)
  taken-present before path paths = elim (Bool-cases (is_there (sys.read_file path))) [
    | inl e ↦ rw e (append_assoc before (path ∷ []) (present paths))
    | inr e ↦ rw e refl
  ]

  load_files-Digested :
      (before paths : List String) (loaded : Result LoadFault (Config × Bytes))
      → Digested before loaded
      → Digested (before ++ present paths) (load_files sys paths loaded)
  unfolding load_files
  load_files-Digested before [] loaded h =
      subst (λ l. Digested l loaded) (sym (append-nil before)) h
  load_files-Digested before (path ∷ paths) loaded h =
      subst (λ l. Digested l (load_files sys paths (load_file sys path loaded)))
        (taken-present before path paths)
        (load_files-Digested (taken before path (sys.read_file path)) paths
          (load_file sys path loaded) (load_file-Digested before path loaded h))

  stamped-done :
      (digest : Bytes) (cfg out : Config) (c : Checked Config)
      → validate sys.parse_url cfg ≡ c
      → stamped sys digest c ≡ done out
      → (out.sources ≡ cfg.sources) × (out.hash ≡ sys.sha256_hex digest)
  stamped-done digest cfg out (rejected f) v e = cc e
  stamped-done digest cfg out (accepted kept) v e =
      let same : record kept { hash = sys.sha256_hex digest; loaded_at = sys.now } ≡ out = cc e in
      let o = (validate-IsAcceptable sys.parse_url cfg kept v).1 in
      (sym (ap (λ c. c.sources) same) ∙ ap (λ c. c.sources) o, sym (ap (λ c. c.hash) same))

  loaded_digest :
      (paths : List String) (out : Config) (loaded : Result LoadFault (Config × Bytes))
      → Digested paths loaded
      → validated sys loaded ≡ done out
      → (out.sources ≡ paths) × (content_digest sys out.sources ≡ done out.hash)
  unfolding content_digest
  loaded_digest paths out (failed f) h e = cc e
  loaded_digest paths out (done (cfg, digest)) (s, d) e =
      let (o, k) = stamped-done digest cfg out _ refl e in
      (o ∙ s, ap (λ l. content_digest sys l) o ∙ ap (hashed sys) d ∙ ap done (sym k))

  -- A configuration that `LoadFrom` loads names as its sources the given paths at which there is a
  -- file, in their order, and the digest that `ContentDigest` takes of those sources, while the files
  -- are as they were, is the hash that it carries.
  pub load_from-digest :
      (paths : List String) (out : Config)
      → load_from sys paths ≡ done out
      → (out.sources ≡ present paths) × (content_digest sys out.sources ≡ done out.hash)
  unfolding load_from digest_files defaults
  load_from-digest paths out =
      loaded_digest (present paths) out (load_files sys paths (done (defaults, [])))
        (load_files-Digested [] paths (done (defaults, [])) (refl, refl))
