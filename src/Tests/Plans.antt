-- ===== src/Tests/Plans.antt =====
-- Examples for the scheduler's theorems.
use gpu_bouncer.Base.{
  map, ◌≡◌, ◌≢◌, refl, ◌⊎◌, ◌<◌, true, false, none, some, [], ◌∷◌, All, Memᴰ, arith,
}
use gpu_bouncer.Base.Sort.{sort_stable}
use gpu_bouncer.Gpu.{free_mib}
use gpu_bouncer.Config.Types.{service}
use gpu_bouncer.Scheduler.Types.{
  Action, verb_release, verb_stop, find_service, Claim, ServiceState, add_expected,
}
use gpu_bouncer.Scheduler.Demand.{
  best_claim, highest_priority_up, is_live, select_demand, live, outranks,
}
use gpu_bouncer.Scheduler.Demand.Claims.{Wins, best_claim-Wins}
use gpu_bouncer.Scheduler.Demand.Highest.{Highest, highest_priority_up-Highest}
use gpu_bouncer.Scheduler.Eviction.{
  eviction_candidates, eligible, passed_over_notes, judge, freed_before, choose_verb,
}
use gpu_bouncer.Scheduler.Eviction.Eligible.{IsEligible}
use gpu_bouncer.Scheduler.Planning.{
  decide, answer, free_for, free_candidates, consider, evict, evict_all_except,
}
use gpu_bouncer.Scheduler.Planning.Picked.{WhileNeeded}
use gpu_bouncer.Scheduler.Planning.Cases.{needed, Frees}
use gpu_bouncer.Scheduler.Planning.Safety.{Grounds, decide-IsJustified}
use gpu_bouncer.Scheduler.Planning.Economy.{
  decide-WhileNeeded, InOrder, decide-InOrder, Named, decide_exhaustive,
}
use gpu_bouncer.Scheduler.Planning.Evictions.{
  IsOrdered, IsEvictable, evict-IsOrdered, evict_exhaustive,
}
use gpu_bouncer.Scheduler.Planning.Keeping.{evict_all_except_keeps, evict_all_except_exhaustive}
use gpu_bouncer.Tests.{house, scene, llm_up, draw_up, batch_up}

decide-IsJustified_example : All (Grounds scene (decide house scene)) (decide house scene).actions
decide-IsJustified_example = decide-IsJustified house scene

decide-WhileNeeded_example :
    WhileNeeded (needed (decide house scene)) 0 (decide house scene).actions
decide-WhileNeeded_example = decide-WhileNeeded house scene

decide-InOrder_example : InOrder scene (decide house scene)
decide-InOrder_example = decide-InOrder house scene

-- The batch job is stopped, and then the llm is asked to unload.
decide_names : map (λ a. a.service) (decide house scene).actions ≡ "batch" ∷ "llm" ∷ []
unfolding decide answer select_demand best_claim live service sort_stable outranks find_service
    free_for free_candidates consider choose_verb eviction_candidates eligible judge
    passed_over_notes freed_before free_mib add_expected
decide_names = refl

wanting : Frees scene.services (decide house scene) draw_up
unfolding decide answer select_demand best_claim live service sort_stable outranks find_service
    free_for free_candidates consider choose_verb eviction_candidates free_mib
wanting = record { found = refl; wanted = refl; short = omega arith }

lacking : add_expected 0 (decide house scene).actions < needed (decide house scene)
unfolding decide answer select_demand best_claim live service sort_stable outranks find_service
    free_for free_candidates consider choose_verb eviction_candidates eligible judge
    passed_over_notes freed_before free_mib add_expected
lacking = omega arith

batch-IsEligible : IsEligible draw_up batch_up
batch-IsEligible = record {
  other = λ e. cc e;
  probed = refl;
  running = refl;
  lower = refl;
  holding = omega arith;
  rested = refl;
  slot_free = refl;
}

decide_exhaustive_example : Named (decide house scene).actions batch_up
decide_exhaustive_example =
    decide_exhaustive house scene draw_up batch_up verb_stop wanting lacking
      (Memᴰ.tail (Memᴰ.tail (Memᴰ.head refl))) batch-IsEligible (λ k. cc k) (refl, refl, refl)

best_claim-Wins_example :
    ((c : Claim) × (best_claim house scene ≡ some c) × Wins house.services scene.claims c)
    ⊎ ((best_claim house scene ≡ none)
        × ((d : Claim) → Memᴰ d scene.claims → service house.services d.service ≡ none))
best_claim-Wins_example = best_claim-Wins house scene

highest_priority_up-Highest_example :
    Highest (highest_priority_up scene.services) scene.services
    ⊎ ((highest_priority_up scene.services ≡ none) × All (λ s. is_live s ≡ false) scene.services)
highest_priority_up-Highest_example = highest_priority_up-Highest scene.services

evict-IsOrdered_example :
    All
      (λ a. IsOrdered scene.services ("llm" ∷ "gone" ∷ []) a × (scene.device_known ≡ true))
      (evict scene ("llm" ∷ "gone" ∷ [])).actions
evict-IsOrdered_example = evict-IsOrdered scene ("llm" ∷ "gone" ∷ [])

llm-IsEvictable : IsEvictable llm_up
llm-IsEvictable = record { probed = refl; running = refl; slot_free = refl }

llm_found : find_service scene.services "llm" ≡ some llm_up
unfolding find_service
llm_found = refl

evict_exhaustive_example :
    (a : Action) × Memᴰ a (evict scene ("llm" ∷ [])).actions × (a.service ≡ "llm")
evict_exhaustive_example =
    evict_exhaustive scene ("llm" ∷ []) "llm" llm_up verb_release refl (Memᴰ.head refl) llm_found
      llm-IsEvictable (λ k. refl) refl

evict_all_except_keeps_example :
    All
      (λ a.
        (a.service ≢ "draw")
        × (scene.device_known ≡ true)
        × (s : ServiceState) × (find_service scene.services "draw" ≡ some s))
      (evict_all_except scene "draw").actions
evict_all_except_keeps_example = evict_all_except_keeps scene "draw"

draw_found : find_service scene.services "draw" ≡ some draw_up
unfolding find_service
draw_found = refl

evict_all_except_exhaustive_example :
    (a : Action) × Memᴰ a (evict_all_except scene "draw").actions × (a.service ≡ "llm")
evict_all_except_exhaustive_example =
    evict_all_except_exhaustive scene "draw" draw_up llm_up verb_release refl draw_found
      (Memᴰ.head refl) llm_found (λ e. cc e) llm-IsEvictable (λ k. refl) refl
