-- ===== src/Scheduler/Planning/Picked.antt =====
-- What the candidate loop of `Decide` picks: in order, while it is needed, and until it is enough.
use gpu_bouncer.Base.{
  ℕ, ◌<◌, ◌≡◌, sym, ap, ◌∙◌, List, [], ◌∷◌, Memᴰ, All, All-imp, Pairwise, leb_false→lt, leb→le,
  add_u64, arith,
}
use gpu_bouncer.Scheduler.Types.{Action, ServiceState, Verb, VerbReason, add_expected}
use gpu_bouncer.Scheduler.Eviction.{chosen, refused, choose_verb}
use gpu_bouncer.Scheduler.Planning.Loop.{Step, picked, picked-nil, step_of, actions_on}

refused-ne-chosen : {r s : VerbReason} {v : Verb} → refused r ≡ chosen v s → ⊥
refused-ne-chosen e = cc

-- Each action is taken while the actions before it free less than what is needed.
abbrev pub WhileNeeded : ℕ → ℕ → List Action → Type 0
WhileNeeded needed freed [] = Unit
WhileNeeded needed freed (a ∷ rest) =
    (freed < needed) × WhileNeeded needed (add_u64 freed a.expect_free_mib) rest

module _ (benefit : ServiceState) (needed : ℕ) where
  -- A picked candidate has a verb.
  pub picked-All {κ} :
      (P : ServiceState → Type κ) (freed : ℕ) (cs : List ServiceState)
      → All P cs
      → All
          (λ c. P c × (v : Verb) × (r : VerbReason) × (choose_verb c ≡ chosen v r))
          (picked benefit needed freed cs)
  picked-All P freed [] h = rw (picked-nil benefit needed freed) tt
  picked-All P freed (c ∷ cs) h = elim (step_of benefit needed freed c cs) [
    | Step.enough e q ↦ rw q tt
    | Step.refuse r e k q ↦ rw q (picked-All P freed cs h.1)
    | Step.pick v r e k q ↦ rw q ((h.0, v, r, k), picked-All P (add_u64 freed c.held_mib) cs h.1)
  ]

  pub All-picked {κ} :
      (P : ServiceState → Type κ) (freed : ℕ) (cs : List ServiceState)
      → All P cs
      → All P (picked benefit needed freed cs)
  All-picked P freed cs h = All-imp _ P _ (λ c k. k.0) (picked-All P freed cs h)

  pub picked-Pairwise {κ} :
      (R : ServiceState → ServiceState → Type κ) (freed : ℕ) (cs : List ServiceState)
      → Pairwise R cs
      → Pairwise R (picked benefit needed freed cs)
  picked-Pairwise R freed [] h = rw (picked-nil benefit needed freed) tt
  picked-Pairwise R freed (c ∷ cs) h = elim (step_of benefit needed freed c cs) [
    | Step.enough e q ↦ rw q tt
    | Step.refuse r e k q ↦ rw q (picked-Pairwise R freed cs h.1)
    | Step.pick v r e k q ↦
        rw q (All-picked (R c) _ cs h.0, picked-Pairwise R (add_u64 freed c.held_mib) cs h.1)
  ]

  pub picked-WhileNeeded :
      (freed : ℕ) (cs : List ServiceState)
      → WhileNeeded needed freed (actions_on benefit needed (picked benefit needed freed cs))
  unfolding actions_on
  picked-WhileNeeded freed [] = rw (picked-nil benefit needed freed) tt
  picked-WhileNeeded freed (c ∷ cs) = elim (step_of benefit needed freed c cs) [
    | Step.enough e q ↦ rw q tt
    | Step.refuse r e k q ↦ rw q (picked-WhileNeeded freed cs)
    | Step.pick v r e k q ↦
        rw (q, k, actions_on)
          (leb_false→lt needed freed e, picked-WhileNeeded (add_u64 freed c.held_mib) cs)
  ]

  -- If the picked candidates are not enough, no candidate with a verb is left out.
  pub picked_all :
      (freed : ℕ) (cs : List ServiceState) (c : ServiceState) {v : Verb} {r : VerbReason}
      → add_expected freed (actions_on benefit needed (picked benefit needed freed cs)) < needed
      → choose_verb c ≡ chosen v r
      → Memᴰ c cs
      → Memᴰ c (picked benefit needed freed cs)
  unfolding actions_on add_expected
  picked_all freed [] c short k m = elim m [ ]
  picked_all freed (x ∷ xs) c short k m = elim (step_of benefit needed freed x xs) [
    | Step.enough e q ↦
        absurd (omega (arith, leb→le needed freed e, (let s : freed < needed = rw q at short in s)))
    | Step.refuse r e l q ↦
        let short' : add_expected freed (actions_on benefit needed (picked benefit needed freed xs))
            < needed =
          rw q at short in
        rw q (elim m [
          | Memᴰ.head p ↦ absurd (refused-ne-chosen (sym l ∙ ap choose_verb (sym p) ∙ k))
          | Memᴰ.tail t ↦ picked_all freed xs c short' k t
        ])
    | Step.pick v r e l q ↦
        let short' : add_expected (add_u64 freed x.held_mib)
              (actions_on benefit needed (picked benefit needed (add_u64 freed x.held_mib) xs))
            < needed =
          rw (q, l, actions_on) at short in
        rw q (elim m [
          | Memᴰ.head p ↦ Memᴰ.head p
          | Memᴰ.tail t ↦ Memᴰ.tail (picked_all (add_u64 freed x.held_mib) xs c short' k t)
        ])
  ]
