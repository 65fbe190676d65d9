-- ===== src/Scheduler/Planning/Economy.antt =====
-- How much a plan of `Decide` frees, and in which order.
use gpu_bouncer.Base.{
  ℕ, ◌<◌, ◌≡◌, ◌≢◌, refl, sym, subst, ap, ◌∙◌, inl, inr, String, false, List, [], ◌∷◌, map, Memᴰ,
  All, All-imp, Pairwise, Pairwise-imp,
}
use gpu_bouncer.Config.Types.{Config}
use gpu_bouncer.Base.Sort.{sort_stable-IsSorted}
use gpu_bouncer.Scheduler.Types.{
  Action, ServiceState, Observation, Verb, VerbReason, Plan, add_expected,
}
use gpu_bouncer.Scheduler.Eviction.{chosen, choose_verb, eviction_candidates, freed_before}
use gpu_bouncer.Scheduler.Eviction.Order.{GoesFirst, freed_before-GoesFirst, freed_before-IsOrder}
use gpu_bouncer.Scheduler.Eviction.Eligible.{
  IsEligible, Listed, Distinct, candidates-Listed, candidates-mem, candidates-Distinct,
}
use gpu_bouncer.Scheduler.Eviction.Verbs.{Permits, NotBusy, choose_verb_refuses}
use gpu_bouncer.Scheduler.Planning.{release_for, decide}
use gpu_bouncer.Scheduler.Planning.Loop.{Choice-cases, actions_on}
use gpu_bouncer.Scheduler.Planning.Picked.{
  WhileNeeded, All-picked, picked-All, picked-WhileNeeded, picked-Pairwise, picked_all,
}
use gpu_bouncer.Scheduler.Planning.Cases.{Frees, needed, victims, ActsOn, decide_cases}

-- Each action of a plan of `Decide` is needed: the actions before it do not yet free what the target
-- lacks.
pub decide-WhileNeeded :
    (cfg : Config) (obs : Observation)
    → WhileNeeded (needed (decide cfg obs)) 0 (decide cfg obs).actions
decide-WhileNeeded cfg obs = elim (decide_cases cfg obs) [
  | inl (e, _) ↦ rw e tt
  | inr (k, (b, f, acts)) ↦
      subst (WhileNeeded (needed (decide cfg obs)) 0) (sym acts)
        (picked-WhileNeeded b (needed (decide cfg obs)) 0 _)
]

abbrev action_names : List Action → List String
action_names = map (λ a. a.service)

abbrev names : List ServiceState → List String
names = map (λ s. s.name)

actions_on-names :
    (b : ServiceState) (n : ℕ) (cs : List ServiceState)
    → All (λ c. (v : Verb) × (r : VerbReason) × (choose_verb c ≡ chosen v r)) cs
    → action_names (actions_on b n cs) ≡ names cs
unfolding actions_on
actions_on-names b n [] h = refl
actions_on-names b n (c ∷ cs) h =
    rw (h.0.2, actions_on) (ap (λ l. c.name ∷ l) (actions_on-names b n cs h.1))

victims-chosen :
    (services : List ServiceState) (plan : Plan) (b : ServiceState)
    → All
        (λ c. (v : Verb) × (r : VerbReason) × (choose_verb c ≡ chosen v r))
        (victims services plan b)
victims-chosen services plan b =
    All-imp _ _ (victims services plan b) (λ c k. (k.1, k.2, k.3))
      (picked-All b (needed plan) (Listed b services) 0 _ (candidates-Listed b services))

-- The actions name observed services in the order of the candidates, and none twice if the observed
-- names are distinct.
abbrev pub InOrder : Observation → Plan → Type 0
InOrder obs plan =
    (acted : List ServiceState) × (map (λ a. a.service) plan.actions ≡ map (λ s. s.name) acted)
    × All (λ s. Memᴰ s obs.services) acted
    × Pairwise GoesFirst acted
    × (Distinct obs.services → Distinct acted)

-- The actions of a plan of `Decide` name observed services sorted by lowest priority, then by most
-- memory held, then by name; and no service is named twice if the observed names are distinct.
pub decide-InOrder : (cfg : Config) (obs : Observation) → InOrder obs (decide cfg obs)
unfolding eviction_candidates
decide-InOrder cfg obs = elim (decide_cases cfg obs) [
  | inl (e, _) ↦ ([], ap action_names e, tt, tt, λ d. tt)
  | inr (k, (b, f, acts)) ↦ (
    victims obs.services (decide cfg obs) b,
    ap action_names acts ∙ actions_on-names b _ _ (victims-chosen obs.services (decide cfg obs) b),
    All-picked b (needed (decide cfg obs)) (λ s. Memᴰ s obs.services) 0 _
        (All-imp (Listed b obs.services) _ _ (λ s k. k.0) (candidates-Listed b obs.services)),
    Pairwise-imp (λ x y. freed_before y x ≡ false) GoesFirst _ freed_before-GoesFirst
        (picked-Pairwise b (needed (decide cfg obs)) (λ x y. freed_before y x ≡ false) 0 _
          (sort_stable-IsSorted freed_before freed_before-IsOrder _)),
    λ d.
        picked-Pairwise b (needed (decide cfg obs)) (λ s t. s.name ≢ t.name) 0 _
          (candidates-Distinct b obs.services d),
  )
]

-- An action of the plan names the service.
abbrev pub Named : List Action → ServiceState → Type 0
Named actions s = (a : Action) × Memᴰ a actions × (a.service ≡ s.name)

actions_on-Named :
    (b : ServiceState) (n : ℕ) (cs : List ServiceState) (c : ServiceState) {v : Verb}
    {r : VerbReason}
    → choose_verb c ≡ chosen v r
    → Memᴰ c cs
    → Named (actions_on b n cs) c
unfolding actions_on
actions_on-Named b n [] c h m = elim m [ ]
actions_on-Named b n (x ∷ xs) c {v} {r} h (Memᴰ.head p) =
    let q : choose_verb x ≡ chosen v r = ap choose_verb (sym p) ∙ h in
    rw (q, actions_on)
      (release_for b x v r, Memᴰ.head refl, ap (λ (s : ServiceState). s.name) (sym p))
actions_on-Named b n (x ∷ xs) c h (Memᴰ.tail m) =
    let (a, k, e) = actions_on-Named b n xs c h m in
    elim (Choice-cases (choose_verb x)) [
      | inl (r, q) ↦ rw (q, actions_on) (a, k, e)
      | inr (v, r, q) ↦ rw (q, actions_on) (a, Memᴰ.tail k, e)
    ]

exhausts :
    (services : List ServiceState) (plan : Plan) (b : ServiceState)
    → ActsOn services plan b
    → add_expected 0 plan.actions < needed plan
    → (s : ServiceState) (v : Verb) → Memᴰ s services
    → IsEligible b s
    → NotBusy s
    → Permits s v
    → Named plan.actions s
exhausts services plan b acts less s v m e n p = elim (Choice-cases (choose_verb s)) [
  | inl (r, q) ↦ absurd (choose_verb_refuses s v r q n p)
  | inr (w, r, q) ↦
      subst (λ l. Named l s) (sym acts)
        (actions_on-Named b (needed plan) _ s q (
          picked_all b (needed plan) 0 _ s (subst (λ l. add_expected 0 l < needed plan) acts less) q
            (candidates-mem b s services e m)))
]

-- A plan that wants memory for `b` and expects less than what its target lacks has left nothing
-- undone: it names every eligible service that is not busy and permits a verb.
pub decide_exhaustive :
    (cfg : Config) (obs : Observation) (b s : ServiceState) (v : Verb)
    → Frees obs.services (decide cfg obs) b
    → add_expected 0 (decide cfg obs).actions < needed (decide cfg obs)
    → Memᴰ s obs.services
    → IsEligible b s
    → NotBusy s
    → Permits s v
    → Named (decide cfg obs).actions s
decide_exhaustive cfg obs b s v f less m e n p = elim (decide_cases cfg obs) [
  | inl (_, idle) ↦ absurd (idle b f)
  | inr (k, (b', f', acts)) ↦
      let same : b ≡ b' = cc (f.found, f'.found) in
      exhausts obs.services (decide cfg obs) b' acts less s v m (subst (λ x. IsEligible x s) same e)
        n p
]
