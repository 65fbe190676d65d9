-- ===== src/Scheduler/Planning/Loop.antt =====
-- The candidate loop of `Decide` against a recursion that returns its actions.
use gpu_bouncer.Base.{
  ℕ, ◌≡◌, refl, sym, ◌∙◌, ◌⊎◌, inl, inr, true, false, List, [], ◌∷◌, ◌++◌, Bool-cases, leb, add_u64,
}
use mathlib.Core.List.{append-nil, append_assoc}
use gpu_bouncer.Scheduler.Types.{Action, ServiceState, Verb, VerbReason, add_expected}
use gpu_bouncer.Scheduler.Eviction.{Choice, chosen, refused, choose_verb}
use gpu_bouncer.Scheduler.Planning.{Progress, release_for, consider, free_candidates}

pub Choice-cases :
    (c : Choice)
    → ((r : VerbReason) × (c ≡ refused r)) ⊎ ((v : Verb) × (r : VerbReason) × (c ≡ chosen v r))
Choice-cases (chosen v r) = inr (v, r, refl)
Choice-cases (refused r) = inl (r, refl)

module _ (benefit : ServiceState) (needed : ℕ) where
  -- The services that are acted on, and the actions.
  pub picked : ℕ → List ServiceState → List ServiceState
  picked freed [] = []
  picked freed (c ∷ cs) = elim (leb needed freed) [
    | true ↦ []
    | false ↦ elim (choose_verb c) [
      | refused r ↦ picked freed cs
      | chosen v r ↦ c ∷ picked (add_u64 freed c.held_mib) cs
    ]
  ]

  abbrev pub action_by : ServiceState → Choice → List Action → List Action
  action_by c (refused r) rest = rest
  action_by c (chosen v r) rest = release_for benefit c v r ∷ rest

  unfoldable pub actions_on : List ServiceState → List Action
  actions_on [] = []
  actions_on (c ∷ cs) = action_by c (choose_verb c) (actions_on cs)

  -- The three steps of the loop.
  pub data Step (freed : ℕ) (c : ServiceState) (cs : List ServiceState) : Type 0 where
    enough : leb needed freed ≡ true → picked freed (c ∷ cs) ≡ [] → Step freed c cs
    refuse :
        (r : VerbReason)
        → leb needed freed ≡ false
        → choose_verb c ≡ refused r
        → picked freed (c ∷ cs) ≡ picked freed cs
        → Step freed c cs
    pick :
        (v : Verb) (r : VerbReason)
        → leb needed freed ≡ false
        → choose_verb c ≡ chosen v r
        → picked freed (c ∷ cs) ≡ c ∷ picked (add_u64 freed c.held_mib) cs
        → Step freed c cs

  pub step_of : (freed : ℕ) (c : ServiceState) (cs : List ServiceState) → Step freed c cs
  unfolding picked
  step_of freed c cs = elim (Bool-cases (leb needed freed)) [
    | inl e ↦ Step.enough e (rw (e, picked))
    | inr e ↦ elim (Choice-cases (choose_verb c)) [
      | inl (r, q) ↦ Step.refuse r e q (rw (e, q, picked))
      | inr (v, r, q) ↦ Step.pick v r e q (rw (e, q, picked))
    ]
  ]

  pub picked-nil : (freed : ℕ) → picked freed [] ≡ []
  unfolding picked
  picked-nil freed = refl

  abbrev AppendsTo : Progress → Progress → List Action → Type 0
  AppendsTo p q actions =
      (q.actions ≡ p.actions ++ actions) × (q.freed ≡ add_expected p.freed actions)

  -- Once enough is freed, the rest of the loop adds notes only.
  free_candidates_enough :
      (cs : List ServiceState) (p : Progress)
      → leb needed p.freed ≡ true
      → AppendsTo p (free_candidates benefit needed cs p) []
  unfolding free_candidates add_expected consider
  free_candidates_enough [] p h = (sym (append-nil p.actions), refl)
  free_candidates_enough (c ∷ cs) p h =
      rw (h, free_candidates, consider) (free_candidates_enough cs _ h)

  -- The loop appends the actions on the picked services, and counts what they hold.
  pub free_candidates-AppendsTo :
      (cs : List ServiceState) (p : Progress)
      → AppendsTo p (free_candidates benefit needed cs p) (actions_on (picked p.freed cs))
  unfolding free_candidates actions_on add_expected consider
  free_candidates-AppendsTo [] p = rw (picked-nil p.freed) (sym (append-nil p.actions), refl)
  free_candidates-AppendsTo (c ∷ cs) p = elim (step_of p.freed c cs) [
    | Step.enough e q ↦ rw q (free_candidates_enough (c ∷ cs) p e)
    | Step.refuse r e h q ↦ rw (q, e, h, free_candidates, consider) (free_candidates-AppendsTo cs _)
    | Step.pick v r e h q ↦
        let ih = free_candidates-AppendsTo cs (record p {
          actions = p.actions ++ release_for benefit c v r ∷ [];
          freed = add_u64 p.freed c.held_mib;
        }) in
        rw (q, e, h, free_candidates, consider, actions_on)
          (ih.0 ∙ append_assoc p.actions (release_for benefit c v r ∷ []) _, ih.1)
  ]
