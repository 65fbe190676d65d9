-- ===== src/Scheduler/Planning/Evictions.antt =====
-- The operator override: what `Evict` acts on, and what it refuses.
use gpu_bouncer.Base.{
  ◌≡◌, refl, sym, subst, ◌∙◌, inl, inr, String, ◌==◌, eq_iff, true, false, none, some, List, [],
  ◌∷◌, ◌++◌, Memᴰ, All, All-imp, All-append, mem_left, mem_right, Bool-cases, Option-cases, arith,
}
use gpu_bouncer.Scheduler.Types.{
  Action, Observation, ServiceState, Verb, VerbReason, Plan, new_plan, trigger_evict, find_service,
}
use gpu_bouncer.Scheduler.Eviction.{chosen, choose_verb}
use gpu_bouncer.Scheduler.Eviction.Verbs.{
  Permits, NotBusy, choose_verb-Permits, choose_verb_refuses,
}
use gpu_bouncer.Scheduler.Planning.{
  evict_action, evict_found, evict_one, evict_names, evict, read_plan,
}
use gpu_bouncer.Scheduler.Planning.Loop.{Choice-cases}

-- Seen up, and no action is in flight on it.
pub record IsEvictable (s : ServiceState) : Type 0 where
  pub probed : s.probe_err ≡ ""
  pub running : s.up ≡ true
  pub slot_free : s.action_in_flight ≡ false

-- Why an action may stand in an eviction: it was asked for by name, and the observed service of
-- that name is evictable, not busy, and permits the verb.
pub record IsOrdered (services : List ServiceState) (names : List String) (a : Action)
    : Type 0 where
  pub victim : ServiceState
  pub asked : Memᴰ a.service names
  pub found : find_service services a.service ≡ some victim
  pub evictable : IsEvictable victim
  pub permitted : Permits victim a.verb
  pub not_busy : NotBusy victim
  pub expected : a.expect_free_mib ≡ victim.held_mib

-- The action on one name, if there is one.
pub data Evicted (name : String) (s : ServiceState) (plan after : Plan) : Type 0 where
  kept : after.actions ≡ plan.actions → Evicted name s plan after
  acted :
      (v : Verb) (r : VerbReason)
      → IsEvictable s
      → choose_verb s ≡ chosen v r
      → after.actions ≡ plan.actions ++ evict_action name s v r ∷ []
      → Evicted name s plan after

evict_found-Evicted :
    (name : String) (s : ServiceState) (plan : Plan) → Evicted name s plan (evict_found name s plan)
unfolding evict_found
evict_found-Evicted name s plan = elim (Bool-cases (s.probe_err == "")) [
  | inr e ↦ Evicted.kept (rw e)
  | inl e ↦ elim (Bool-cases s.up) [
    | inr u ↦ Evicted.kept (ground arith)
    | inl u ↦ elim (Bool-cases s.action_in_flight) [
      | inl f ↦ Evicted.kept (ground arith)
      | inr f ↦ elim (Choice-cases (choose_verb s)) [
        | inl (r, q) ↦ Evicted.kept (ground arith)
        | inr (v, r, q) ↦
            Evicted.acted v r
              (record { probed = (eq_iff s.probe_err "").0 e; running = u; slot_free = f }) q
              (ground arith)
      ]
    ]
  ]
]

module _ (services : List ServiceState) where
  -- What one round of the loop does.
  evict_one_kept :
      (name : String) (plan : Plan)
      → find_service services name ≡ none
      → (evict_one services name plan).actions ≡ plan.actions
  unfolding evict_one
  evict_one_kept name plan e = rw (e, evict_one)

  evict_one-Evicted :
      (name : String) (plan : Plan) (s : ServiceState)
      → find_service services name ≡ some s
      → Evicted name s plan (evict_one services name plan)
  unfolding evict_one
  evict_one-Evicted name plan s e = rw (e, evict_one) (evict_found-Evicted name s plan)

  evict_one_acted :
      (name : String) (plan : Plan) (s : ServiceState)
      → find_service services name ≡ some s
      → IsEvictable s
      → (v : Verb) (r : VerbReason) → choose_verb s ≡ chosen v r
      → (evict_one services name plan).actions ≡ plan.actions ++ evict_action name s v r ∷ []
  unfolding evict_one evict_found
  evict_one_acted name plan s e ev v r q =
      rw (e, evict_one) (ground (arith, (eq_iff s.probe_err "").1 ev.probed))

  evict_one-IsOrdered :
      (names : List String) (name : String) (plan : Plan)
      → Memᴰ name names
      → All (IsOrdered services names) plan.actions
      → All (IsOrdered services names) (evict_one services name plan).actions
  evict_one-IsOrdered names name plan m h = elim (Option-cases (find_service services name)) [
    | inl e ↦ rw (evict_one_kept name plan e) h
    | inr (s, e) ↦ elim (evict_one-Evicted name plan s e) [
      | Evicted.kept k ↦ rw k h
      | Evicted.acted v r ev q k ↦ rw k (
          All-append (IsOrdered services names) plan.actions _ h (
            record {
              victim = s;
              asked = m;
              found = e;
              evictable = ev;
              permitted = (choose_verb-Permits s v r q).0;
              not_busy = (choose_verb-Permits s v r q).1;
              expected = refl;
            },
            tt,
          ))
    ]
  ]

  evict_names-IsOrdered :
      (names rest : List String) (plan : Plan)
      → ((n : String) → Memᴰ n rest → Memᴰ n names)
      → All (IsOrdered services names) plan.actions
      → All (IsOrdered services names) (evict_names services rest plan).actions
  unfolding evict_names
  evict_names-IsOrdered names [] plan sub h = h
  evict_names-IsOrdered names (name ∷ rest) plan sub h =
      evict_names-IsOrdered names rest (evict_one services name plan) (λ n m. sub n (Memᴰ.tail m))
        (evict_one-IsOrdered names name plan (sub name (Memᴰ.head refl)) h)

  -- Actions are only added.
  evict_one-mem :
      (a : Action) (name : String) (plan : Plan)
      → Memᴰ a plan.actions
      → Memᴰ a (evict_one services name plan).actions
  evict_one-mem a name plan m = elim (Option-cases (find_service services name)) [
    | inl e ↦ rw (evict_one_kept name plan e) m
    | inr (s, e) ↦ elim (evict_one-Evicted name plan s e) [
      | Evicted.kept k ↦ rw k m
      | Evicted.acted v r ev q k ↦ rw k (mem_left a plan.actions _ m)
    ]
  ]

  evict_names-mem :
      (a : Action) (names : List String) (plan : Plan)
      → Memᴰ a plan.actions
      → Memᴰ a (evict_names services names plan).actions
  unfolding evict_names
  evict_names-mem a [] plan m = m
  evict_names-mem a (name ∷ names) plan m =
      evict_names-mem a names (evict_one services name plan) (evict_one-mem a name plan m)

  -- An evictable service that is named, not busy and permits a verb is acted on.
  evict_one_acts :
      (name : String) (plan : Plan) (s : ServiceState) (v : Verb)
      → find_service services name ≡ some s
      → IsEvictable s
      → NotBusy s
      → Permits s v
      → (a : Action) × Memᴰ a (evict_one services name plan).actions × (a.service ≡ name)
  evict_one_acts name plan s v e ev n p = elim (Choice-cases (choose_verb s)) [
    | inl (r, q) ↦ absurd (choose_verb_refuses s v r q n p)
    | inr (w, r, q) ↦ (
      evict_action name s w r,
      rw (evict_one_acted name plan s e ev w r q) (mem_right _ plan.actions _ (Memᴰ.head refl)),
      refl,
    )
  ]

  evict_names_acts :
      (name : String) (names : List String) (plan : Plan) (s : ServiceState) (v : Verb)
      → Memᴰ name names
      → find_service services name ≡ some s
      → IsEvictable s
      → NotBusy s
      → Permits s v
      → (a : Action) × Memᴰ a (evict_names services names plan).actions × (a.service ≡ name)
  unfolding evict_names
  evict_names_acts name [] plan s v m e ev n p = elim m [ ]
  evict_names_acts name (x ∷ xs) plan s v (Memᴰ.head q) e ev n p =
      let (a, k, l) =
        evict_one_acts x plan s v (subst (λ y. find_service services y ≡ some s) q e) ev n p in
      (a, evict_names-mem a xs (evict_one services x plan) k, l ∙ sym q)
  evict_names_acts name (x ∷ xs) plan s v (Memᴰ.tail m) e ev n p =
      evict_names_acts name xs (evict_one services x plan) s v m e ev n p

evict_known :
    (obs : Observation) (names : List String)
    → obs.device_known ≡ true
    → evict obs names ≡ evict_names obs.services names (read_plan obs (new_plan trigger_evict))
unfolding evict
evict_known obs names k = simp k

-- An eviction acts only on a card that can be read, and each action has been asked for.
pub evict-IsOrdered :
    (obs : Observation) (names : List String)
    → All
        (λ a. IsOrdered obs.services names a × (obs.device_known ≡ true))
        (evict obs names).actions
unfolding evict
evict-IsOrdered obs names = elim (Bool-cases obs.device_known) [
  | inr k ↦ simp k tt
  | inl k ↦
      All-imp (IsOrdered obs.services names) _ (evict obs names).actions (λ a h. (h, k))
        (subst (λ (p : Plan). All (IsOrdered obs.services names) p.actions)
          (sym (evict_known obs names k))
          (evict_names-IsOrdered obs.services names names _ (λ n m. m) tt))
]

-- With a card that can be read, an eviction acts on each named service that is observed up and probed without an
-- error, has no action in flight, is not busy, and permits a verb.
pub evict_exhaustive :
    (obs : Observation) (names : List String) (name : String) (s : ServiceState) (v : Verb)
    → obs.device_known ≡ true
    → Memᴰ name names
    → find_service obs.services name ≡ some s
    → IsEvictable s
    → NotBusy s
    → Permits s v
    → (a : Action) × Memᴰ a (evict obs names).actions × (a.service ≡ name)
unfolding evict
evict_exhaustive obs names name s v k m e ev n p =
    simp k (evict_names_acts obs.services name names _ s v m e ev n p)
