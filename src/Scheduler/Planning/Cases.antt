-- ===== src/Scheduler/Planning/Cases.antt =====
-- The ways through `Decide`: a plan is empty, or its actions are those of the candidate loop.
use gpu_bouncer.Base.{
  ℕ, ◌-◌, ◌<◌, ◌≡◌, refl, sym, subst, ap, ◌∙◌, ◌⊎◌, inl, inr, true, false, some, List, [], ◌++◌,
  leb, leb_false→lt, leb→le, arith, Bool-cases, Option-cases,
}
use gpu_bouncer.Config.Types.{Config}
use gpu_bouncer.Scheduler.Types.{ServiceState, Observation, Plan, find_service}
use gpu_bouncer.Scheduler.Demand.{select_demand}
use gpu_bouncer.Scheduler.Eviction.{eviction_candidates}
use gpu_bouncer.Scheduler.Planning.{free_for, wants_nothing, answer, demand_plan, decide}
use gpu_bouncer.Scheduler.Planning.Loop.{picked, actions_on, free_candidates-AppendsTo}

-- A plan that frees memory for `benefit`.
pub record Frees (services : List ServiceState) (plan : Plan) (benefit : ServiceState)
    : Type 0 where
  pub found : find_service services plan.beneficiary ≡ some benefit
  pub wanted : wants_nothing plan.trigger ≡ false
  pub short : plan.current_free_mib < plan.target_free_mib

abbrev pub needed : Plan → ℕ
needed plan = plan.target_free_mib - plan.current_free_mib

-- The services that the plan acts on, in order.
abbrev pub victims : List ServiceState → Plan → ServiceState → List ServiceState
victims services plan benefit =
    picked benefit (needed plan) 0 (eviction_candidates services benefit).0

abbrev pub ActsOn : List ServiceState → Plan → ServiceState → Type 0
ActsOn services plan benefit =
    plan.actions ≡ actions_on benefit (needed plan) (victims services plan benefit)

free_for-ActsOn :
    (plan : Plan) (services : List ServiceState) (benefit : ServiceState)
    → plan.actions ≡ []
    → ActsOn services (free_for plan services benefit) benefit
unfolding free_for
free_for-ActsOn plan services benefit e =
    (free_candidates-AppendsTo benefit (needed plan) (eviction_candidates services benefit).0 _).0
    ∙ ap (λ l. l ++ actions_on benefit (needed plan) (victims services plan benefit)) e

abbrev pub FreesFor : List ServiceState → Plan → Type 0
FreesFor services plan = (b : ServiceState) × Frees services plan b × ActsOn services plan b

free_for-Frees :
    (plan : Plan) (services : List ServiceState) (b : ServiceState)
    → Frees services plan b
    → Frees services (free_for plan services b) b
unfolding free_for
free_for-Frees plan services b h = record { found = h.found; wanted = h.wanted; short = h.short }

answer-free_for :
    (plan : Plan) (services : List ServiceState) (b : ServiceState)
    → wants_nothing plan.trigger ≡ false
    → leb plan.target_free_mib plan.current_free_mib ≡ false
    → find_service services plan.beneficiary ≡ some b
    → answer plan services ≡ free_for plan services b
unfolding answer
answer-free_for plan services b w l f = rw (w, l, f, answer)

-- A plan that frees memory for nobody.
abbrev pub Idle : List ServiceState → Plan → Type 0
Idle services plan = (plan.actions ≡ []) × ((b : ServiceState) → Frees services plan b → ⊥)

abbrev Outcome : List ServiceState → Plan → Type 0
Outcome services plan = Idle services plan ⊎ FreesFor services plan

not_wanted :
    (services : List ServiceState) (plan : Plan)
    → wants_nothing plan.trigger ≡ true
    → (b : ServiceState) → Frees services plan b
    → ⊥
not_wanted services plan w b f = cc (f.wanted)

answer_cases :
    (plan : Plan) (services : List ServiceState)
    → plan.actions ≡ []
    → Outcome services (answer plan services)
unfolding answer
answer_cases plan services e = elim (Bool-cases (wants_nothing plan.trigger)) [
  | inl w ↦ inl (rw w (e, not_wanted services plan w))
  | inr w ↦ elim (Bool-cases (leb plan.target_free_mib plan.current_free_mib)) [
    | inl l ↦ inl (
        rw (w, l)
          (e, λ b f. omega (arith, leb→le plan.target_free_mib plan.current_free_mib l, f.short)))
    | inr l ↦ elim (Option-cases (find_service services plan.beneficiary)) [
      | inl f ↦ inl (rw (w, l, f, answer) (e, not_wanted services _ refl))
      | inr (b, f) ↦ inr (
          subst (FreesFor services) (sym (answer-free_for plan services b w l f)) (
            b,
            free_for-Frees plan services b (record {
              found = f;
              wanted = w;
              short = leb_false→lt plan.target_free_mib plan.current_free_mib l;
            }),
            free_for-ActsOn plan services b e,
          ))
    ]
  ]
]

decide_known :
    (cfg : Config) (obs : Observation)
    → obs.device_known ≡ true
    → decide cfg obs ≡ answer (demand_plan obs (select_demand cfg obs)) obs.services
unfolding decide
decide_known cfg obs k = simp k

decide_unknown :
    (cfg : Config) (obs : Observation)
    → obs.device_known ≡ false
    → Idle obs.services (decide cfg obs)
unfolding decide
decide_unknown cfg obs k = simp k (refl, not_wanted obs.services _ refl)

-- A plan of `Decide` is idle, or the GPU could be read and the plan frees memory for a beneficiary.
pub decide_cases :
    (cfg : Config) (obs : Observation)
    → Idle obs.services (decide cfg obs)
      ⊎ ((obs.device_known ≡ true) × FreesFor obs.services (decide cfg obs))
decide_cases cfg obs = elim (Bool-cases obs.device_known) [
  | inl k ↦ elim (answer_cases (demand_plan obs (select_demand cfg obs)) obs.services refl) [
    | inl e ↦ inl (subst (Idle obs.services) (sym (decide_known cfg obs k)) e)
    | inr f ↦ inr (k, subst (FreesFor obs.services) (sym (decide_known cfg obs k)) f)
  ]
  | inr k ↦ inl (decide_unknown cfg obs k)
]
