-- ===== src/Config/Files/Layered.antt =====
-- internal/config/config.go: what a file that merges holds, and what it leaves behind.
use gpu_bouncer.Base.{
  Bool-cases, inl, inr, true, sym, subst, ℕ, suc, ◌≡◌, refl, ap, ◌∙◌, String, Option, none, some,
  List, [], ◌∷◌, Result, done, failed, All,
}
use gpu_bouncer.Base.Int.{ℤ}
use gpu_bouncer.Base.Dict.{Dict, lookup}
use gpu_bouncer.Adapter.Http.{Bytes}
use gpu_bouncer.Config.Types.{service, Service, Config}
use gpu_bouncer.Config.Bounds.{Raw, numeric_bounds}
use gpu_bouncer.Config.Files.Over.{
  PolicyOver, LaidOver, merge_policy-PolicyOver, merge_blocks-LaidOver,
}
use gpu_bouncer.Config.Bounds.Ranges.{Passes, check_bounds-InRange}
use gpu_bouncer.Config.Validate.{contains}
use gpu_bouncer.Config.Merge.{
  Merged, merged, block_has_no_name, defined_twice_in_file, merge_blocks-service,
}
use gpu_bouncer.Config.Files.{
  Layer, RawTop, Label, label, MergeFault, sub_keys, service_blocks, unknown_in, service_keys,
  or_next, merge_policy, with_merged, lay_over, unless_fault, unknown_fault, unknown_faults,
  undecoded_fault, wrap_fault, raw_unit_fault, block_faults, layer_fault, merge_decoded, merge_file,
}

or_next-none : {A : Type 0} → (a b : Option A) → or_next a b ≡ none → (a ≡ none) × (b ≡ none)
or_next-none none b e = (refl, e)
or_next-none (some x) b e = cc e

with_merged-done :
    (cfg out : Config) (m : Merged)
    → with_merged cfg m ≡ done out
    → (services : List Service) × (m ≡ merged services) × (out ≡ record cfg { services = services })
with_merged-done cfg out (merged services) e = (services, refl, cc e)
with_merged-done cfg out (block_has_no_name number) e = cc e
with_merged-done cfg out (defined_twice_in_file name) e = cc e

unless_fault-done :
    (f : Option MergeFault) (r : Result MergeFault Config) (out : Config)
    → unless_fault f r ≡ done out
    → (f ≡ none) × (r ≡ done out)
unless_fault-done none r out e = (refl, e)
unless_fault-done (some f) r out e = cc e

unknown_in-known :
    (block : Dict Raw)
    → unknown_in block ≡ []
    → All (λ (e : String × Raw). contains service_keys e.0 ≡ true) block
unfolding unknown_in
unknown_in-known [] e = tt
unknown_in-known ((key, raw) ∷ block) e = elim (Bool-cases (contains service_keys key)) [
  | inl c ↦ (c, unknown_in-known block (rw (c, unknown_in) at e))
  | inr c ↦ cc (rw (c, unknown_in) at e)
]

module _ (sort : List String → List String) (parse_duration : String → Option ℤ) where
  -- A block that passes: all its keys are known, its numbers are in range, and its unit is legal.
  abbrev pub Clean : Dict Raw → Type 0
  Clean block =
      All (λ (e : String × Raw). contains service_keys e.0 ≡ true) block
      × All (Passes parse_duration "service" block) numeric_bounds
      × (raw_unit_fault sort parse_duration (lookup "unit" block) ≡ none)

  unknown_fault-none :
      (at : Label) (keys : List String)
      → unknown_fault sort parse_duration at keys ≡ none
      → keys ≡ []
  unknown_fault-none at [] e = refl
  unknown_fault-none at (key ∷ keys) e = cc e

  undecoded_fault-none :
      (keys : List String) → undecoded_fault sort parse_duration keys ≡ none → keys ≡ []
  undecoded_fault-none [] e = refl
  undecoded_fault-none (key ∷ keys) e = cc e

  wrap_fault-none :
      {A : Type 0}
      → (f : A → MergeFault) (a : Option A) → wrap_fault sort parse_duration f a ≡ none
      → a ≡ none
  wrap_fault-none f none e = refl
  wrap_fault-none f (some a) e = cc e

  blocks-Clean :
      (services : List Service) (i : ℕ) (blocks : List (Dict Raw))
      → unknown_faults sort parse_duration services i blocks ≡ none
      → block_faults sort parse_duration services i blocks ≡ none
      → All Clean blocks
  unfolding unknown_faults block_faults
  blocks-Clean services i [] e f = tt
  blocks-Clean services i (block ∷ blocks) e f =
      let (known, es) = or_next-none _ _ e in
      let (ranged, rest) = or_next-none _ _ f in
      let (unit, fs) = or_next-none _ _ rest in
      (
        (
          unknown_in-known block (unknown_fault-none (label services i) (unknown_in block) known),
          (check_bounds-InRange parse_duration numeric_bounds "service" block).0
              (wrap_fault-none _ _ ranged),
          wrap_fault-none _ _ unit,
        ),
        blocks-Clean services (suc i) blocks es fs,
      )

  -- What a merge of this file leaves: nothing in it is unknown or out of range, the policy is the
  -- file's over the policy before, and the service `j` is what the blocks of that name lay over it.
  pub record IsLayered (cfg out : Config) (layer : Layer) (raw : Dict RawTop) (j : String)
      : Type 0 where
    pub clean : All Clean (service_blocks (lookup "service" raw))
    pub decoded : layer.undecoded ≡ []
    pub ranged :
        All (Passes parse_duration "policy" (sub_keys (lookup "policy" raw))) numeric_bounds
    pub policy : PolicyOver (sub_keys (lookup "policy" raw)) layer.policy cfg.policy out.policy
    pub layered :
        LaidOver j layer.services
          (service_blocks (lookup "service" raw))
          (service cfg.services j)
          (service out.services j)
    pub sources : out.sources ≡ cfg.sources

  layer-IsLayered :
      (cfg out : Config) (layer : Layer) (raw : Dict RawTop) (j : String)
      → unless_fault (layer_fault sort parse_duration layer raw) (lay_over cfg layer raw) ≡ done out
      → IsLayered cfg out layer raw j
  unfolding layer_fault lay_over
  layer-IsLayered cfg out layer raw j e =
      let (sound, laid) = unless_fault-done _ _ out e in
      let (known, rest) = or_next-none _ _ sound in
      let (decoded, rest') = or_next-none _ _ rest in
      let (ranged, faults) = or_next-none _ _ rest' in
      let keys = sub_keys (lookup "policy" raw) in
      let raws = service_blocks (lookup "service" raw) in
      let held = service cfg.services j in
      let with_policy : Config = record cfg {
        policy = merge_policy cfg.policy layer.policy keys;
      } in
      let (services, m, o) = with_merged-done with_policy out _ laid in
      record {
        clean = blocks-Clean layer.services 0 _ known faults;
        decoded = undecoded_fault-none layer.undecoded decoded;
        ranged =
            (check_bounds-InRange parse_duration numeric_bounds "policy" keys).0
              (wrap_fault-none _ _ ranged);
        policy =
            subst (λ (c : Config). PolicyOver keys layer.policy cfg.policy c.policy) (sym o)
              (merge_policy-PolicyOver keys layer.policy cfg.policy);
        layered =
            subst (LaidOver j layer.services raws held)
              (sym (
                ap (λ c. service c.services j) o
                ∙ merge_blocks-service 0 [] _ cfg.services services m j))
              (merge_blocks-LaidOver j 0 [] layer.services raws cfg.services services held m);
        sources = ap (λ c. c.sources) o;
      }

  module _ (decode : Bytes → Result String Layer)
      (decode_raw : Bytes → Result String (Dict RawTop)) where
    merge_decoded-IsLayered :
        (cfg out : Config) (l : Result String Layer) (r : Result String (Dict RawTop)) (j : String)
        → merge_decoded sort parse_duration cfg l r ≡ done out
        → (layer : Layer) × (raw : Dict RawTop) × (l ≡ done layer)
          × (r ≡ done raw)
          × IsLayered cfg out layer raw j
    merge_decoded-IsLayered cfg out (failed text) r j e = cc e
    merge_decoded-IsLayered cfg out (done layer) (failed text) j e = cc e
    merge_decoded-IsLayered cfg out (done layer) (done raw) j e =
        (layer, raw, refl, refl, layer-IsLayered cfg out layer raw j e)

    -- A file that is merged decodes; it has no key that is unknown, the values of its keys pass the
    -- range checks, and its units are legal; each field of the policy is the file's where the file sets
    -- its key and as before where not; the service of a name that the file has no block of is as before,
    -- and one that it has a block of, which is the only one, is new, or has each field that the block
    -- sets, the others as before; and the list of the sources is unchanged.
    pub merge_file-IsLayered :
        (cfg out : Config) (file : Bytes) (j : String)
        → merge_file sort parse_duration decode decode_raw cfg file ≡ done out
        → (layer : Layer) × (raw : Dict RawTop) × (decode file ≡ done layer)
          × (decode_raw file ≡ done raw)
          × IsLayered cfg out layer raw j
    unfolding merge_file
    merge_file-IsLayered cfg out file j =
        merge_decoded-IsLayered cfg out (decode file) (decode_raw file) j

    pub merge_file-sources :
        (cfg out : Config) (file : Bytes)
        → merge_file sort parse_duration decode decode_raw cfg file ≡ done out
        → out.sources ≡ cfg.sources
    merge_file-sources cfg out file e =
        let (layer, raw, l, r, h) = merge_file-IsLayered cfg out file "" e in h.sources
