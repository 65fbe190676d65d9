-- ===== src/Config/Merge.antt =====
-- internal/config/config.go: the services of one file laid over those of the files before it. Each
-- block of the file comes with the keys that it sets.
use gpu_bouncer.Base.{
  ℕ, suc, ◌≡◌, refl, sym, ap, ◌∙◌, String, ◌==◌, eq_iff, Bool, true, false, Option, none, some,
  List, [], ◌∷◌, Bool-cases, inl, inr, arith, if◌then◌else◌,
}
use gpu_bouncer.Base.Dict.{Dict, lookup}
use gpu_bouncer.Config.Types.{Service, service}
use gpu_bouncer.Config.Validate.{contains}
use gpu_bouncer.Config.Bounds.{Raw}

abbrev pub Block : Type 0
Block = Service × Dict Raw

abbrev pub is_set : Dict Raw → String → Bool
is_set keys key = elim (lookup key keys) [ none ↦ false | some raw ↦ true ]

-- `mergeService`: the name stays, and a field changes if its key is set.
unfoldable pub merge_service : Service → Service → Dict Raw → Service
merge_service dst src keys = record {
  name = dst.name;
  adapter = if is_set keys "adapter" then src.adapter else dst.adapter;
  endpoint = if is_set keys "endpoint" then src.endpoint else dst.endpoint;
  unit = if is_set keys "unit" then src.unit else dst.unit;
  user_unit = if is_set keys "user_unit" then src.user_unit else dst.user_unit;
  priority = if is_set keys "priority" then src.priority else dst.priority;
  allow_stop = if is_set keys "allow_stop" then src.allow_stop else dst.allow_stop;
  timeout = if is_set keys "timeout" then src.timeout else dst.timeout;
  drain_timeout = if is_set keys "drain_timeout" then src.drain_timeout else dst.drain_timeout;
}

-- One block: merged into the first service of its name, or else added at the end.
unfoldable pub put_service : Block → List Service → List Service
put_service (src, keys) [] = src ∷ []
put_service (src, keys) (s ∷ ss) =
    let rest = put_service (src, keys) ss in
    if s.name == src.name then merge_service s src keys ∷ ss else s ∷ rest

pub data Merged : Type 0 where
  merged : List Service → Merged
  block_has_no_name : (number : ℕ) → Merged
  defined_twice_in_file : (name : String) → Merged

-- The loop over the blocks, with the names of those before.
unfoldable pub merge_blocks : ℕ → List String → List Block → List Service → Merged
merge_blocks i seen [] services = merged services
merge_blocks i seen ((src, keys) ∷ blocks) services =
    let rest = merge_blocks (suc i) (src.name ∷ seen) blocks (put_service (src, keys) services) in
    if src.name == ""
    then block_has_no_name (suc i)
    else if contains seen src.name
    then defined_twice_in_file src.name
    else rest

-- A block over what stood under its name.
abbrev pub over : Block → Option Service → Service
over (src, keys) none = src
over (src, keys) (some dst) = merge_service dst src keys

-- The blocks of the name `j` over what stood there before the file.
abbrev pub overlay : String → List Block → Option Service → Option Service
overlay j [] held = held
overlay j (b ∷ blocks) held = overlay j blocks (if b.0.name == j then some (over b held) else held)

put_service-service :
    (b : Block) (ss : List Service) (j : String)
    → service (put_service b ss) j
      ≡ (if b.0.name == j then some (over b (service ss j)) else service ss j)
unfolding put_service service merge_service
put_service-service (src, keys) [] j = refl
put_service-service (src, keys) (s ∷ ss) j =
    let rest = put_service-service (src, keys) ss j in
    elim (Bool-cases (s.name == src.name)) [
      | inl e ↦
          rw (e, put_service)
            (ground (arith, e, eq_iff s.name src.name, eq_iff s.name j, eq_iff src.name j))
      | inr e ↦
          rw (e, put_service)
            (ground (arith, e, rest, eq_iff s.name src.name, eq_iff s.name j, eq_iff src.name j))
    ]

-- When a file is merged, the service under each name is what its blocks lay over the service that
-- stood there before: a field that no block of that name sets stays as it was, and a service that the
-- file does not name is untouched.
pub merge_blocks-service :
    (i : ℕ) (seen : List String) (blocks : List Block) (services out : List Service)
    → merge_blocks i seen blocks services ≡ merged out
    → (j : String) → service out j ≡ overlay j blocks (service services j)
unfolding merge_blocks
merge_blocks-service i seen [] services out e j =
    let same : services ≡ out = cc e in ap (λ l. service l j) (sym same)
merge_blocks-service i seen ((src, keys) ∷ blocks) services out e j =
    let next = put_service (src, keys) services in
    let rest : merge_blocks (suc i) (src.name ∷ seen) blocks next ≡ merged out =
      elim (Bool-cases (src.name == "")) [
        | inl q ↦ cc (rw q at e)
        | inr q ↦ elim (Bool-cases (contains seen src.name)) [
          | inl c ↦ cc (rw (q, c) at e)
          | inr c ↦ rw (q, c) at e
        ]
      ] in
    merge_blocks-service (suc i) (src.name ∷ seen) blocks next out rest j
    ∙ ap (overlay j blocks) (put_service-service (src, keys) services j)
