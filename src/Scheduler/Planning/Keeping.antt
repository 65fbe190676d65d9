-- ===== src/Scheduler/Planning/Keeping.antt =====
-- `evict --all-except`: everything but one service.
use gpu_bouncer.Base.{
  ◌≡◌, ◌≢◌, refl, ap, ◌∙◌, inl, inr, String, ◌==◌, str_lt, eq_iff, true, some, List, [], ◌∷◌, Memᴰ,
  All, All-imp, mem_of_All, Bool-cases, Option-cases, arith,
}
use gpu_bouncer.Base.Sort.{sort_stable, sort_stable-mem, All-sort_stable}
use gpu_bouncer.Scheduler.Types.{Action, Observation, ServiceState, Verb, find_service}
use gpu_bouncer.Scheduler.Eviction.Verbs.{Permits, NotBusy}
use gpu_bouncer.Scheduler.Planning.{names_except, refuse_all, evict, evict_all_except}
use gpu_bouncer.Scheduler.Planning.Evictions.{
  IsEvictable, IsOrdered, evict-IsOrdered, evict_exhaustive,
}

names_except-All :
    (keep : String) (ss : List ServiceState) → All (λ n. n ≢ keep) (names_except keep ss)
unfolding names_except
names_except-All keep [] = tt
names_except-All keep (s ∷ ss) = elim (Bool-cases (s.name == keep)) [
  | inl e ↦ rw e (names_except-All keep ss)
  | inr e ↦ rw e ((λ p. cc (e, (eq_iff s.name keep).1 p)), names_except-All keep ss)
]

names_except-mem :
    (keep : String) (s : ServiceState) (ss : List ServiceState)
    → s.name ≢ keep
    → Memᴰ s ss
    → Memᴰ s.name (names_except keep ss)
unfolding names_except
names_except-mem keep s [] n m = elim m [ ]
names_except-mem keep s (x ∷ xs) n m = elim (Bool-cases (x.name == keep)) [
  | inl e ↦ rw e (elim m [
    | Memᴰ.head p ↦ absurd (n (ap (λ (t : ServiceState). t.name) p ∙ (eq_iff x.name keep).0 e))
    | Memᴰ.tail t ↦ names_except-mem keep s xs n t
  ])
  | inr e ↦ rw e (elim m [
    | Memᴰ.head p ↦ Memᴰ.head (ap (λ (t : ServiceState). t.name) p)
    | Memᴰ.tail t ↦ Memᴰ.tail (names_except-mem keep s xs n t)
  ])
]

-- The names that are evicted.
others : Observation → String → List String
others obs keep = sort_stable str_lt (names_except keep obs.services)

refuse_all_empty : (obs : Observation) (keep : String) → (refuse_all obs keep).actions ≡ []
unfolding refuse_all
refuse_all_empty obs keep = ground arith

-- The kept service is never acted on, and there are actions only if the GPU could be read and the
-- kept service is observed.
pub evict_all_except_keeps :
    (obs : Observation) (keep : String)
    → All
        (λ a.
          (a.service ≢ keep)
          × (obs.device_known ≡ true)
          × (s : ServiceState) × (find_service obs.services keep ≡ some s))
        (evict_all_except obs keep).actions
unfolding evict_all_except others
evict_all_except_keeps obs keep = elim (Option-cases (find_service obs.services keep)) [
  | inl e ↦ rw (e, evict_all_except) (rw (refuse_all_empty obs keep) tt)
  | inr (s, e) ↦
      rw (e, evict_all_except)
        (All-imp (λ a. IsOrdered obs.services (others obs keep) a × (obs.device_known ≡ true)) _
          (evict obs (others obs keep)).actions
          (λ a h. (
            mem_of_All (λ n. n ≢ keep) (others obs keep)
                (All-sort_stable str_lt (λ n. n ≢ keep) _ (names_except-All keep obs.services))
                a.service h.0.asked,
            h.1,
            s,
            refl,
          ))
          (evict-IsOrdered obs (others obs keep)))
]

-- With a card that can be read and the kept service observed, an eviction of all others acts on each
-- other service, observed first under its name, that is up and probed without an error, has no
-- action in flight, is not busy, and permits a verb.
pub evict_all_except_exhaustive :
    (obs : Observation) (keep : String) (kept s : ServiceState) (v : Verb)
    → obs.device_known ≡ true
    → find_service obs.services keep ≡ some kept
    → Memᴰ s obs.services
    → find_service obs.services s.name ≡ some s
    → s.name ≢ keep
    → IsEvictable s
    → NotBusy s
    → Permits s v
    → (a : Action) × Memᴰ a (evict_all_except obs keep).actions × (a.service ≡ s.name)
unfolding evict_all_except
evict_all_except_exhaustive obs keep kept s v k f m e n ev nb p =
    rw (f, evict_all_except)
      (evict_exhaustive obs _ s.name s v k
        (sort_stable-mem str_lt s.name _ (names_except-mem keep s obs.services n m)) e ev nb p)
