-- ===== src/Observe/Complete.antt =====
-- internal/observe/observe.go: the adapters that are built, and the services that are observed.
use gpu_bouncer.Base.{
  ◌≡◌, refl, ap, ◌∙◌, String, ◌==◌, eq_iff, true, none, some, List, [], ◌∷◌, map, All, Bool-cases,
  inl, inr, arith,
}
use gpu_bouncer.Base.Dict.{Dict, lookup, insert, lookup-insert}
use gpu_bouncer.Config.Types.{AdapterKind, Service, Config}
use gpu_bouncer.Adapter.{has_adapter}
use gpu_bouncer.Scheduler.Types.{ServiceState}
use gpu_bouncer.Observe.{
  Env, Observer, Trace, Reading, build_adapters, new_observer, probe_one, probe_all, observe,
  device, seen,
}

-- The name has an adapter.
abbrev pub Present : Dict AdapterKind → String → Type 0
Present m name = (kind : AdapterKind) × (lookup name m ≡ some kind)

Present-insert :
    (m : Dict AdapterKind) (k : String) (v : AdapterKind) (name : String)
    → Present m name
    → Present (insert k v m) name
Present-insert m k v name (kind, e) = elim (Bool-cases (k == name)) [
  | inl q ↦ (v, lookup-insert k name v m ∙ ground (arith, q))
  | inr q ↦ (kind, lookup-insert k name v m ∙ ground (arith, q, e))
]

insert-Present : (m : Dict AdapterKind) (k : String) (v : AdapterKind) → Present (insert k v m) k
insert-Present m k v = (v, lookup-insert k k v m ∙ ground (arith, eq_iff k k))

-- The loop keeps the adapters it has, and adds one for each service.
build_adapters-Present :
    (ss : List Service) (m : Dict AdapterKind)
    → All (λ s. has_adapter s.adapter ≡ true) ss
    → (out : Dict AdapterKind) × (build_adapters ss m ≡ some out)
      × ((name : String) → Present m name → Present out name)
      × All (λ s. Present out s.name) ss
unfolding build_adapters
build_adapters-Present [] m h = (m, refl, (λ name p. p), tt)
build_adapters-Present (s ∷ ss) m h =
    let (out, e, keeps, all) = build_adapters-Present ss (insert s.name s.adapter m) h.1 in
    rw (h.0, build_adapters)
      (
        out,
        e,
        (λ name p. keeps name (Present-insert m s.name s.adapter name p)),
        (keeps s.name (insert-Present m s.name s.adapter), all),
      )

-- If each service's kind is one that an adapter serves, the observer is built, and holds an adapter under
-- each service's name.
new_observer_complete :
    (cfg : Config)
    → All (λ s. has_adapter s.adapter ≡ true) cfg.services
    → (o : Observer) × (new_observer cfg ≡ some o)
      × (o.cfg ≡ cfg)
      × All (λ s. Present o.adapters s.name) cfg.services
unfolding new_observer
new_observer_complete cfg h =
    let (out, e, keeps, all) = build_adapters-Present cfg.services [] h in
    rw (e, new_observer) (record { cfg = cfg; adapters = out }, refl, refl, all)

module _ (env : Env) (o : Observer) where
  abbrev state_names : List ServiceState → List String
  state_names = map (λ s. s.name)

  probe_one_name : (svc : Service) (t : Trace) → (probe_one env o svc t).0.name ≡ svc.name
  unfolding probe_one
  probe_one_name svc t = ground arith

  probe_all_names :
      (ss : List Service) (t : Trace) → state_names (probe_all env o ss t).0 ≡ map (λ s. s.name) ss
  unfolding probe_all
  probe_all_names [] t = refl
  probe_all_names (s ∷ ss) t = cc (probe_one_name s t, probe_all_names ss (probe_one env o s t).1)

  seen_services :
      (r : Reading) (states : List ServiceState) → (seen env o r states).services ≡ states
  seen_services (dev, none) states = refl
  seen_services (dev, some e) states = refl

  -- An observation lists the configured services, each once and in the order of the configuration,
  -- whatever the world answers.
  observe_names :
      (t : Trace)
      → map (λ s. s.name) (observe env o t).0.services ≡ map (λ s. s.name) o.cfg.services
  unfolding observe
  observe_names t =
      ap state_names (seen_services (device env o t).0 _) ∙ probe_all_names o.cfg.services _
