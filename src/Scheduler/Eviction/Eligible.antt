-- ===== src/Scheduler/Eviction/Eligible.antt =====
-- Which services may be freed, said without the order of the tests.
use gpu_bouncer.Base.{
  ◌<◌, ◌≡◌, ◌≢◌, refl, sym, subst, ◌⊎◌, inl, inr, eq_iff, true, false, List, [], ◌∷◌, Memᴰ, All,
  All-imp, Pairwise, arith,
}
use gpu_bouncer.Base.Int.{ltb_ℤ}
use gpu_bouncer.Base.Sort.{sort_stable-mem, All-sort_stable, sort_stable-Pairwise}
use gpu_bouncer.Scheduler.Types.{ServiceState, Note}
use gpu_bouncer.Scheduler.Eviction.{
  Verdict, itself, passed_over, candidate, judge, eligible, freed_before, eviction_candidates,
}

-- Seen up and holding memory, of lower priority than the beneficiary, and not to be left alone.
pub record IsEligible (beneficiary s : ServiceState) : Type 0 where
  pub other : s.name ≢ beneficiary.name
  pub probed : s.probe_err ≡ ""
  pub running : s.up ≡ true
  pub lower : ltb_ℤ s.priority beneficiary.priority ≡ true
  pub holding : 0 < s.held_mib
  pub rested : s.cooldown_until ≡ 0
  pub slot_free : s.action_in_flight ≡ false

-- The loop takes a service exactly when it is eligible.
pub judge-IsEligible : (b s : ServiceState) → judge b s ≡ candidate → IsEligible b s
unfolding judge
judge-IsEligible b s h = ground (arith, eq_iff s.name b.name, eq_iff s.probe_err "")

pub IsEligible-judge : (b s : ServiceState) → IsEligible b s → judge b s ≡ candidate
unfolding judge
IsEligible-judge b s e = ground (arith, eq_iff s.name b.name, eq_iff s.probe_err "")

Verdict-cases :
    (v : Verdict) → (v ≡ candidate) ⊎ ((v ≡ itself) ⊎ ((note : Note) × (v ≡ passed_over note)))
Verdict-cases itself = inr (inl refl)
Verdict-cases (passed_over note) = inr (inr (note, refl))
Verdict-cases candidate = inl refl

abbrev pub Listed : ServiceState → List ServiceState → ServiceState → Type 0
Listed b services s = Memᴰ s services × IsEligible b s

eligible-Listed : (b : ServiceState) (ss : List ServiceState) → All (Listed b ss) (eligible b ss)
unfolding eligible
eligible-Listed b [] = tt
eligible-Listed b (s ∷ ss) =
    let rest =
      All-imp (Listed b ss) (Listed b (s ∷ ss)) (eligible b ss) (λ x (m, e). (Memᴰ.tail m, e))
        (eligible-Listed b ss) in
    elim (Verdict-cases (judge b s)) [
      | inl e ↦ rw (e, eligible) ((Memᴰ.head refl, judge-IsEligible b s e), rest)
      | inr (inl e) ↦ rw (e, eligible) rest
      | inr (inr (note, e)) ↦ rw (e, eligible) rest
    ]

-- Each candidate is a listed, eligible service.
pub candidates-Listed :
    (b : ServiceState) (ss : List ServiceState) → All (Listed b ss) (eviction_candidates ss b).0
unfolding eviction_candidates
candidates-Listed b ss =
    All-sort_stable freed_before (Listed b ss) (eligible b ss) (eligible-Listed b ss)

-- And each listed, eligible service is a candidate.
eligible-mem :
    (b s : ServiceState) (ss : List ServiceState)
    → IsEligible b s
    → Memᴰ s ss
    → Memᴰ s (eligible b ss)
unfolding eligible
eligible-mem b s [] e m = elim m [ ]
eligible-mem b s (x ∷ xs) e (Memᴰ.head p) =
    rw (subst (λ y. judge b y ≡ candidate) p (IsEligible-judge b s e), eligible) (Memᴰ.head p)
eligible-mem b s (x ∷ xs) e (Memᴰ.tail m) = elim (Verdict-cases (judge b x)) [
  | inl p ↦ rw (p, eligible) (Memᴰ.tail (eligible-mem b s xs e m))
  | inr (inl p) ↦ rw (p, eligible) (eligible-mem b s xs e m)
  | inr (inr (note, p)) ↦ rw (p, eligible) (eligible-mem b s xs e m)
]

pub candidates-mem :
    (b s : ServiceState) (ss : List ServiceState)
    → IsEligible b s
    → Memᴰ s ss
    → Memᴰ s (eviction_candidates ss b).0
unfolding eviction_candidates
candidates-mem b s ss e m = sort_stable-mem freed_before s (eligible b ss) (eligible-mem b s ss e m)

-- Distinct names stay distinct.
abbrev pub Distinct : List ServiceState → Type 0
Distinct = Pairwise (λ s t. s.name ≢ t.name)

All-eligible {κ} :
    (P : ServiceState → Type κ) (b : ServiceState) (ss : List ServiceState)
    → All P ss
    → All P (eligible b ss)
unfolding eligible
All-eligible P b [] h = tt
All-eligible P b (s ∷ ss) h = elim (Verdict-cases (judge b s)) [
  | inl p ↦ rw (p, eligible) (h.0, All-eligible P b ss h.1)
  | inr (inl p) ↦ rw (p, eligible) (All-eligible P b ss h.1)
  | inr (inr (note, p)) ↦ rw (p, eligible) (All-eligible P b ss h.1)
]

eligible-Distinct :
    (b : ServiceState) (ss : List ServiceState) → Distinct ss → Distinct (eligible b ss)
unfolding eligible
eligible-Distinct b [] h = tt
eligible-Distinct b (s ∷ ss) h = elim (Verdict-cases (judge b s)) [
  | inl p ↦
      rw (p, eligible) (All-eligible (λ t. s.name ≢ t.name) b ss h.0, eligible-Distinct b ss h.1)
  | inr (inl p) ↦ rw (p, eligible) (eligible-Distinct b ss h.1)
  | inr (inr (note, p)) ↦ rw (p, eligible) (eligible-Distinct b ss h.1)
]

pub candidates-Distinct :
    (b : ServiceState) (ss : List ServiceState)
    → Distinct ss
    → Distinct (eviction_candidates ss b).0
unfolding eviction_candidates
candidates-Distinct b ss h =
    sort_stable-Pairwise freed_before (λ s t. s.name ≢ t.name) (λ s t n e. n (sym e))
      (eligible b ss) (eligible-Distinct b ss h)
