-- ===== src/Scheduler/Planning/Safety.antt =====
-- What a plan of `Decide` may contain.
use gpu_bouncer.Base.{
  ℕ, ◌<◌, ◌≡◌, refl, sym, subst, inl, inr, true, some, List, [], ◌∷◌, Memᴰ, All, All-imp,
}
use gpu_bouncer.Config.Types.{Config}
use gpu_bouncer.Scheduler.Types.{Action, ServiceState, Observation, Plan, find_service}
use gpu_bouncer.Scheduler.Eviction.{choose_verb}
use gpu_bouncer.Scheduler.Eviction.Eligible.{IsEligible, Listed, candidates-Listed}
use gpu_bouncer.Scheduler.Eviction.Verbs.{Permits, NotBusy, choose_verb-Permits}
use gpu_bouncer.Scheduler.Planning.{decide}
use gpu_bouncer.Scheduler.Planning.Loop.{Choice-cases, actions_on}
use gpu_bouncer.Scheduler.Planning.Picked.{All-picked}
use gpu_bouncer.Scheduler.Planning.Cases.{needed, victims, decide_cases}

-- Why an action may stand in a plan for `benefit`: it names an observed service that is up, was
-- probed without an error, has a lower priority, holds memory, is not busy, cooling down or being
-- acted on, and permits the verb; the figure is what it holds.
pub record IsJustified (services : List ServiceState) (benefit : ServiceState) (a : Action)
    : Type 0 where
  pub victim : ServiceState
  pub listed : Memᴰ victim services
  pub named : a.service ≡ victim.name
  pub eligible : IsEligible benefit victim
  pub permitted : Permits victim a.verb
  pub not_busy : NotBusy victim
  pub expected : a.expect_free_mib ≡ victim.held_mib

actions_on-IsJustified :
    (services : List ServiceState) (b : ServiceState) (n : ℕ) (cs : List ServiceState)
    → All (Listed b services) cs
    → All (IsJustified services b) (actions_on b n cs)
unfolding actions_on
actions_on-IsJustified services b n [] h = tt
actions_on-IsJustified services b n (c ∷ cs) h = elim (Choice-cases (choose_verb c)) [
  | inl (r, q) ↦ rw (q, actions_on) (actions_on-IsJustified services b n cs h.1)
  | inr (v, r, q) ↦
      rw (q, actions_on)
        (
          record {
            victim = c;
            listed = h.0.0;
            named = refl;
            eligible = h.0.1;
            permitted = (choose_verb-Permits c v r q).0;
            not_busy = (choose_verb-Permits c v r q).1;
            expected = refl;
          },
          actions_on-IsJustified services b n cs h.1,
        )
]

victims-Listed :
    (services : List ServiceState) (plan : Plan) (b : ServiceState)
    → All (Listed b services) (victims services plan b)
victims-Listed services plan b =
    All-picked b (needed plan) (Listed b services) 0 _ (candidates-Listed b services)

abbrev pub Grounds : Observation → Plan → Action → Type 0
Grounds obs plan a =
    (b : ServiceState) × (find_service obs.services plan.beneficiary ≡ some b)
    × IsJustified obs.services b a
    × (obs.device_known ≡ true)
    × (plan.current_free_mib < plan.target_free_mib)

-- Every action of a plan of `Decide` is justified for the plan's beneficiary, which is an observed
-- service; the GPU could be read, and what was free is below the target.
pub decide-IsJustified :
    (cfg : Config) (obs : Observation) → All (Grounds obs (decide cfg obs)) (decide cfg obs).actions
decide-IsJustified cfg obs = elim (decide_cases cfg obs) [
  | inl (e, _) ↦ rw e tt
  | inr (k, (b, f, acts)) ↦ subst (All (Grounds obs (decide cfg obs))) (sym acts) (
      All-imp (IsJustified obs.services b) (Grounds obs (decide cfg obs)) _
        (λ a j. (b, f.found, j, k, f.short))
        (actions_on-IsJustified obs.services b _ _
          (victims-Listed obs.services (decide cfg obs) b)))
]
