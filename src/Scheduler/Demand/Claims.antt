-- ===== src/Scheduler/Demand/Claims.antt =====
-- Which claim wins.
use gpu_bouncer.Base.{
  ◌≡◌, refl, ap, subst, ◌<◌, str_lt, ◌⊎◌, inl, inr, true, false, none, some, List, [], ◌∷◌, Memᴰ,
  All, All-imp, mem_of_All, Option-cases, arith,
}
use gpu_bouncer.Base.Sort.{
  sort_stable, sort_stable-mem, All-sort_stable, sort_stable-IsSorted, IsSorted,
}
use gpu_bouncer.Base.Int.{ltb_ℤ}
use gpu_bouncer.Config.Types.{Config, Service, service}
use gpu_bouncer.Scheduler.Types.{Claim, Observation}
use gpu_bouncer.Scheduler.Demand.{Scored, live, outranks, first_claim, best_claim}
use gpu_bouncer.Scheduler.Demand.Order.{outranks_irrefl, outranks-IsOrder}

-- An outstanding claim on a configured service, with that service's priority.
pub record IsLive (services : List Service) (claims : List Claim) (s : Scored) : Type 0 where
  pub outstanding : Memᴰ s.claim claims
  pub svc : Service
  pub configured : service services s.claim.service ≡ some svc
  pub scored : s.priority ≡ svc.priority

IsLive-tail :
    (services : List Service) (c : Claim) (cs : List Claim) (s : Scored)
    → IsLive services cs s
    → IsLive services (c ∷ cs) s
IsLive-tail services c cs s h = record {
  outstanding = Memᴰ.tail h.outstanding;
  svc = h.svc;
  configured = h.configured;
  scored = h.scored;
}

live-IsLive :
    (services : List Service) (cs : List Claim) → All (IsLive services cs) (live services cs)
unfolding live
live-IsLive services [] = tt
live-IsLive services (c ∷ cs) =
    let rest =
      All-imp _ (IsLive services (c ∷ cs)) (live services cs) (IsLive-tail services c cs)
        (live-IsLive services cs) in
    elim (Option-cases (service services c.service)) [
      | inl e ↦ rw (e, live) rest
      | inr (svc, e) ↦
          rw (e, live)
            (
              record { outstanding = Memᴰ.head refl; svc = svc; configured = e; scored = refl },
              rest,
            )
    ]

live-mem :
    (services : List Service) (cs : List Claim) (c : Claim) (svc : Service)
    → Memᴰ c cs
    → service services c.service ≡ some svc
    → Memᴰ (record { claim = c; priority = svc.priority }) (live services cs)
unfolding live
live-mem services [] c svc m e = elim m [ ]
live-mem services (x ∷ xs) c svc (Memᴰ.head p) e =
    let q : service services x.service ≡ some svc =
      subst (λ (y : Claim). service services y.service ≡ some svc) p e in
    rw (q, live) (Memᴰ.head (ap (λ y. record { claim = y; priority = svc.priority }) p))
live-mem services (x ∷ xs) c svc (Memᴰ.tail m) e =
    elim (Option-cases (service services x.service)) [
      | inl q ↦ rw (q, live) (live-mem services xs c svc m e)
      | inr (svc', q) ↦ rw (q, live) (Memᴰ.tail (live-mem services xs c svc m e))
    ]

-- The first of two claims is served first: a higher priority, then an earlier time, then the name.
abbrev pub Precedes : Scored → Scored → Type 0
Precedes a b =
    (ltb_ℤ b.priority a.priority ≡ true)
    ⊎ ((a.priority ≡ b.priority)
        × ((a.claim.at < b.claim.at)
            ⊎ ((a.claim.at ≡ b.claim.at) × (str_lt a.claim.service b.claim.service ≡ true))))

not-Precedes : (a b : Scored) → outranks a b ≡ false → Precedes a b → ⊥
unfolding outranks
not-Precedes a b h p = ground arith

-- The winner is outstanding on a configured service, and no such claim comes before it.
pub record Wins (services : List Service) (claims : List Claim) (c : Claim) : Type 0 where
  pub winner : Scored
  pub named : winner.claim ≡ c
  pub is_live : IsLive services claims winner
  pub unbeaten :
      (d : Claim) (svc : Service)
      → Memᴰ d claims
      → service services d.service ≡ some svc
      → Precedes (record { claim = d; priority = svc.priority }) winner
      → ⊥

module _ (services : List Service) (claims : List Claim) where
  first-Wins :
      (l : List Scored) (c : Claim)
      → IsSorted outranks l
      → All (IsLive services claims) l
      → ((d : Scored) → Memᴰ d (live services claims) → Memᴰ d l)
      → first_claim l ≡ some c
      → Wins services claims c
  first-Wins [] c sorted lives all e = cc
  first-Wins (s ∷ ss) c sorted lives all e = record {
    winner = s;
    named = cc;
    is_live = lives.0;
    unbeaten = λ d svc m q. not-Precedes _ s (
        mem_of_All (λ x. outranks x s ≡ false) (s ∷ ss) (outranks_irrefl s, sorted.0) _
          (all _ (live-mem services claims d svc m q)));
  }

  none-live :
      (l : List Scored)
      → ((d : Scored) → Memᴰ d (live services claims) → Memᴰ d l)
      → first_claim l ≡ none
      → (d : Claim) → Memᴰ d claims
      → service services d.service ≡ none
  none-live [] all e d m = elim (Option-cases (service services d.service)) [
    | inl q ↦ q
    | inr (svc, q) ↦ elim (all _ (live-mem services claims d svc m q)) [ ]
  ]
  none-live (s ∷ ss) all e d m = cc

-- An explicit demand goes to the claim that wins among those on configured services, and
-- `bestClaim` finds none only if no claim names a configured service.
pub best_claim-Wins :
    (cfg : Config) (obs : Observation)
    → ((c : Claim) × (best_claim cfg obs ≡ some c) × Wins cfg.services obs.claims c)
      ⊎ ((best_claim cfg obs ≡ none)
          × ((d : Claim) → Memᴰ d obs.claims → service cfg.services d.service ≡ none))
unfolding best_claim
best_claim-Wins cfg obs =
    let lives = live cfg.services obs.claims in
    let all = λ (d : Scored). sort_stable-mem outranks d lives in
    elim (Option-cases (first_claim (sort_stable outranks lives))) [
      | inl e ↦ inr (e, none-live cfg.services obs.claims _ all e)
      | inr (c, e) ↦ inl (
        c,
        e,
        first-Wins cfg.services obs.claims _ c
            (sort_stable-IsSorted outranks outranks-IsOrder lives)
            (All-sort_stable outranks (IsLive cfg.services obs.claims) lives
              (live-IsLive cfg.services obs.claims))
            all e,
      )
    ]
