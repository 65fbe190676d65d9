-- ===== src/Config/Files/Over.antt =====
-- internal/config/config.go: what a file's keys do to a policy and to a service, field by field.
use gpu_bouncer.Base.{
  ℕ, zero, suc, ◌≡◌, ◌≢◌, refl, sym, ap, subst, ◌∙◌, ◌⊎◌, inl, inr, arith, String, ◌==◌, eq_iff,
  Bool, true, false, Bool-cases, Option, none, some, Option-cases, List, [], ◌∷◌, ◌++◌, length, All,
  get_elem?, if◌then◌else◌,
}
use gpu_bouncer.Base.Dict.{Dict, lookup}
use gpu_bouncer.Config.Types.{Service, Policy}
use gpu_bouncer.Config.Bounds.{Raw}
use gpu_bouncer.Config.Validate.{contains}
use gpu_bouncer.Config.Merge.{
  Block, merged, is_set, merge_service, merge_blocks, put_service, over, overlay,
}
use gpu_bouncer.Config.Files.{merge_policy, pair_blocks}

-- The key is set, and the new value stands; or it is not, and the old one does.
abbrev pub Over {ℓ} : {A : Type ℓ} → Dict Raw → String → A → A → A → Type ℓ
Over keys key new old out =
    ((raw : Raw) × (lookup key keys ≡ some raw) × (out ≡ new))
    ⊎ ((lookup key keys ≡ none) × (out ≡ old))

is_set-Over {ℓ} :
    {A : Type ℓ}
    → (keys : Dict Raw) (key : String) (new old : A)
    → Over keys key new old (if is_set keys key then new else old)
is_set-Over keys key new old = elim (Option-cases (lookup key keys)) [
  | inl e ↦ inr (e, ap (λ l. if is_some l then new else old) e)
  | inr (raw, e) ↦ inl (raw, e, ap (λ l. if is_some l then new else old) e)
]
  where
    is_some : Option Raw → Bool
    is_some l = elim l [ none ↦ false | some raw ↦ true ]

pub record PolicyOver (keys : Dict Raw) (new old out : Policy) : Type 0 where
  pub vram_floor_mib :
      Over keys "vram_floor_mib" new.vram_floor_mib old.vram_floor_mib out.vram_floor_mib
  pub default_workload :
      Over keys "default_workload" new.default_workload old.default_workload out.default_workload
  pub reactive : Over keys "reactive" new.reactive old.reactive out.reactive
  pub poll_interval :
      Over keys "poll_interval" new.poll_interval old.poll_interval out.poll_interval
  pub gpu_index : Over keys "gpu_index" new.gpu_index old.gpu_index out.gpu_index
  pub min_effect_mib :
      Over keys "min_effect_mib" new.min_effect_mib old.min_effect_mib out.min_effect_mib
  pub action_cooldown :
      Over keys "action_cooldown" new.action_cooldown old.action_cooldown out.action_cooldown

pub merge_policy-PolicyOver :
    (keys : Dict Raw) (new old : Policy) → PolicyOver keys new old (merge_policy old new keys)
unfolding merge_policy
merge_policy-PolicyOver keys new old = record {
  vram_floor_mib = is_set-Over keys "vram_floor_mib" new.vram_floor_mib old.vram_floor_mib;
  default_workload = is_set-Over keys "default_workload" new.default_workload old.default_workload;
  reactive = is_set-Over keys "reactive" new.reactive old.reactive;
  poll_interval = is_set-Over keys "poll_interval" new.poll_interval old.poll_interval;
  gpu_index = is_set-Over keys "gpu_index" new.gpu_index old.gpu_index;
  min_effect_mib = is_set-Over keys "min_effect_mib" new.min_effect_mib old.min_effect_mib;
  action_cooldown = is_set-Over keys "action_cooldown" new.action_cooldown old.action_cooldown;
}

pub record ServiceOver (keys : Dict Raw) (new old out : Service) : Type 0 where
  pub name : out.name ≡ old.name
  pub adapter : Over keys "adapter" new.adapter old.adapter out.adapter
  pub endpoint : Over keys "endpoint" new.endpoint old.endpoint out.endpoint
  pub unit : Over keys "unit" new.unit old.unit out.unit
  pub user_unit : Over keys "user_unit" new.user_unit old.user_unit out.user_unit
  pub priority : Over keys "priority" new.priority old.priority out.priority
  pub allow_stop : Over keys "allow_stop" new.allow_stop old.allow_stop out.allow_stop
  pub timeout : Over keys "timeout" new.timeout old.timeout out.timeout
  pub drain_timeout :
      Over keys "drain_timeout" new.drain_timeout old.drain_timeout out.drain_timeout

merge_service-ServiceOver :
    (keys : Dict Raw) (new old : Service) → ServiceOver keys new old (merge_service old new keys)
unfolding merge_service
merge_service-ServiceOver keys new old = record {
  name = refl;
  adapter = is_set-Over keys "adapter" new.adapter old.adapter;
  endpoint = is_set-Over keys "endpoint" new.endpoint old.endpoint;
  unit = is_set-Over keys "unit" new.unit old.unit;
  user_unit = is_set-Over keys "user_unit" new.user_unit old.user_unit;
  priority = is_set-Over keys "priority" new.priority old.priority;
  allow_stop = is_set-Over keys "allow_stop" new.allow_stop old.allow_stop;
  timeout = is_set-Over keys "timeout" new.timeout old.timeout;
  drain_timeout = is_set-Over keys "drain_timeout" new.drain_timeout old.drain_timeout;
}

-- A block over the service that stood under its name, if one did.
abbrev pub BlockOver : Dict Raw → Service → Option Service → Option Service → Type 0
BlockOver keys new none out = out ≡ some new
BlockOver keys new (some old) out =
    (svc : Service) × (out ≡ some svc) × ServiceOver keys new old svc

abbrev pub Unnamed : String → Service → Type 0
Unnamed j s = s.name ≢ j

-- The keys that the block at a place sets, none if the file as a map has no block there.
abbrev pub keys_at : List (Dict Raw) → ℕ → Dict Raw
keys_at raws i = elim (get_elem? raws i) [ none ↦ [] | some keys ↦ keys ]

-- What the typed services of a file, with their raw blocks, make of the service `j`: without one of
-- that name it stays; with one, which is the only one, that block goes over it.
abbrev pub LaidOver :
    String → List Service → List (Dict Raw) → Option Service → Option Service → Type 0
LaidOver j services raws held out =
    (All (Unnamed j) services × (out ≡ held))
    ⊎ ((before : List Service) × (new : Service) × (after : List Service) × (services
          ≡ before ++ new ∷ after)
        × (new.name ≡ j)
        × All (Unnamed j) (before ++ after)
        × BlockOver (keys_at raws (length before)) new held out)

over-BlockOver :
    (keys : Dict Raw) (new : Service) (held : Option Service)
    → BlockOver keys new held (some (over (new, keys) held))
over-BlockOver keys new none = refl
over-BlockOver keys new (some old) =
    (merge_service old new keys, refl, merge_service-ServiceOver keys new old)

merge_blocks-cons :
    (i : ℕ) (seen : List String) (src : Service) (keys : Dict Raw) (blocks : List Block)
    (ss out : List Service)
    → merge_blocks i seen ((src, keys) ∷ blocks) ss ≡ merged out
    → (contains seen src.name ≡ false)
      × (merge_blocks (suc i) (src.name ∷ seen) blocks (put_service (src, keys) ss) ≡ merged out)
unfolding merge_blocks
merge_blocks-cons i seen src keys blocks ss out e = elim (Bool-cases (src.name == "")) [
  | inl q ↦ cc (rw q at e)
  | inr q ↦ elim (Bool-cases (contains seen src.name)) [
    | inl c ↦ cc (rw (q, c) at e)
    | inr c ↦ (c, rw (q, c) at e)
  ]
]

other_keys : List (Dict Raw) → List (Dict Raw)
other_keys [] = []
other_keys (keys ∷ raws) = raws

pair_blocks-cons :
    (svc : Service) (services : List Service) (raws : List (Dict Raw))
    → pair_blocks (svc ∷ services) raws
      ≡ (svc, keys_at raws zero) ∷ pair_blocks services (other_keys raws)
unfolding pair_blocks other_keys
pair_blocks-cons svc services [] = refl
pair_blocks-cons svc services (keys ∷ raws) = refl

keys_at-suc : (raws : List (Dict Raw)) (i : ℕ) → keys_at raws (suc i) ≡ keys_at (other_keys raws) i
unfolding other_keys
keys_at-suc [] i = refl
keys_at-suc (keys ∷ raws) i = refl

-- A name that was seen before stands in none of the blocks that follow.
seen-Unnamed :
    (j : String) (i : ℕ) (seen : List String) (services : List Service) (raws : List (Dict Raw))
    (ss out : List Service)
    → contains seen j ≡ true
    → merge_blocks i seen (pair_blocks services raws) ss ≡ merged out
    → All (Unnamed j) services
seen-Unnamed j i seen [] raws ss out c e = tt
seen-Unnamed j i seen (svc ∷ services) raws ss out c e =
    let keys = keys_at raws zero in
    let (fresh, rest) =
      merge_blocks-cons i seen svc keys (pair_blocks services (other_keys raws)) ss out
        (ap (λ l. merge_blocks i seen l ss) (sym (pair_blocks-cons svc services raws)) ∙ e) in
    (
      (λ q. cc (c, fresh, q)),
      seen-Unnamed j (suc i) (svc.name ∷ seen) services (other_keys raws)
          (put_service (svc, keys) ss) out (ground (arith, c)) rest,
    )

overlay-Unnamed :
    (j : String) (services : List Service) (raws : List (Dict Raw)) (held : Option Service)
    → All (Unnamed j) services
    → overlay j (pair_blocks services raws) held ≡ held
unfolding pair_blocks
overlay-Unnamed j [] raws held h = refl
overlay-Unnamed j (svc ∷ services) raws held (n, h) =
    ap (λ l. overlay j l held) (pair_blocks-cons svc services raws)
    ∙ elim (Bool-cases (svc.name == j)) [
      | inl q ↦ absurd (n ((eq_iff svc.name j).0 q))
      | inr q ↦ rw (q, overlay) (overlay-Unnamed j services (other_keys raws) held h)
    ]

-- What stands before is put in front.
later-LaidOver :
    (j : String) (svc : Service) (services : List Service) (raws : List (Dict Raw))
    (held out : Option Service)
    → svc.name ≢ j
    → LaidOver j services (other_keys raws) held out
    → LaidOver j (svc ∷ services) raws held out
later-LaidOver j svc services raws held out n (inl (h, e)) = inl ((n, h), e)
later-LaidOver j svc services raws held out n (inr (before, new, after, s, q, h, b)) = inr (
  svc ∷ before,
  new,
  after,
  ap (λ l. svc ∷ l) s,
  q,
  (n, h),
  subst (λ k. BlockOver k new held out) (sym (keys_at-suc raws (length before))) b,
)

pub merge_blocks-LaidOver :
    (j : String) (i : ℕ) (seen : List String) (services : List Service) (raws : List (Dict Raw))
    (ss out : List Service) (held : Option Service)
    → merge_blocks i seen (pair_blocks services raws) ss ≡ merged out
    → LaidOver j services raws held (overlay j (pair_blocks services raws) held)
unfolding pair_blocks
merge_blocks-LaidOver j i seen [] raws ss out held e = inl (tt, refl)
merge_blocks-LaidOver j i seen (svc ∷ services) raws ss out held e =
    let keys = keys_at raws zero in
    let blocks = pair_blocks services (other_keys raws) in
    let next = put_service (svc, keys) ss in
    let (fresh, rest) =
      merge_blocks-cons i seen svc keys blocks ss out
        (ap (λ l. merge_blocks i seen l ss) (sym (pair_blocks-cons svc services raws)) ∙ e) in
    subst (λ l. LaidOver j (svc ∷ services) raws held (overlay j l held))
      (sym (pair_blocks-cons svc services raws))
      (elim (Bool-cases (svc.name == j)) [
        | inl q ↦
            let named : svc.name ≡ j = (eq_iff svc.name j).0 q in
            let alone =
              seen-Unnamed j (suc i) (svc.name ∷ seen) services (other_keys raws) next out
                (rw q refl) rest in
            rw (q, overlay)
              (inr (
                [],
                svc,
                services,
                refl,
                named,
                alone,
                subst (BlockOver keys svc held)
                    (sym (
                      overlay-Unnamed j services (other_keys raws) (some (over (svc, keys) held))
                        alone))
                    (over-BlockOver keys svc held),
              ))
        | inr q ↦
            rw (q, overlay)
              (later-LaidOver j svc services raws held _ (λ k. cc (q, (eq_iff svc.name j).1 k))
                (merge_blocks-LaidOver j (suc i) (svc.name ∷ seen) services (other_keys raws) next
                  out held rest))
      ])
