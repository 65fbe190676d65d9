-- ===== src/Daemon/Claims.antt =====
-- What the control operations and the poll round do to the table of claims.
use gpu_bouncer.Base.{
  ℕ, ◌≡◌, refl, ap, ◌∙◌, String, ◌==◌, eq_iff, inl, inr, Bool, true, not, ◌&&◌, ◌||◌, Option, none,
  some, Bool-cases, arith, if◌then◌else◌,
}
use gpu_bouncer.Base.Dict.{lookup, lookup-insert, lookup-delete}
use gpu_bouncer.Scheduler.Types.{Claim, Verb, verb_release, verb_stop, verb_other}
use gpu_bouncer.Scheduler.Planning.{decide}
use gpu_bouncer.Observe.{Env}
use gpu_bouncer.Ipc.{
  Op, op_ping, op_status, op_plan, op_request, op_release, op_evict, op_other, Request, Response,
}
use gpu_bouncer.Daemon.State.{
  Daemon, State, M, pure, acquire, release_slot, apply_cooldowns, record_effect, observation,
}
use gpu_bouncer.Daemon.Execute.{announce, run_verb}
use gpu_bouncer.Daemon.Handlers.{
  tick, handle_plan, handle_status, claim_for, record_claim, request_observation, act_on_request,
  serve_request, handle_request, drop_claim, handle_release_claim, eviction_plan, act_on_eviction,
  serve_eviction, handle_evict, dispatch, handle,
}
use gpu_bouncer.Daemon.Reports.{is_configured}
use gpu_bouncer.Daemon.Steps.{IsPreorder}
use gpu_bouncer.Daemon.Rules.{
  IsKept, if-Keeps, carry_out-Keeps, observation-Keeps, cooled_observation-Keeps, tick-Keeps,
}

-- Both states hold the same claims.
abbrev SameClaims : State → State → Type 0
SameClaims s t = t.claims ≡ s.claims

SameClaims-IsPreorder : IsPreorder SameClaims
SameClaims-IsPreorder = record { rel_refl = λ s. refl; rel_trans = λ s t u e f. f ∙ e }

run_verb-SameClaims :
    (env : Env) (d : Daemon) (name : String) (v : Verb) (s : State)
    → SameClaims s (run_verb env d name v s).1
unfolding run_verb
run_verb-SameClaims env d name verb_release s = refl
run_verb-SameClaims env d name verb_stop s = refl
run_verb-SameClaims env d name (verb_other text) s = refl

acquire-SameClaims : (name : String) (s : State) → SameClaims s (acquire name s).1
unfolding acquire
acquire-SameClaims name s = ground arith

SameClaims-IsKept : (env : Env) (d : Daemon) → IsKept env d SameClaims
unfolding release_slot record_effect apply_cooldowns announce
SameClaims-IsKept env d = record {
  preorder = SameClaims-IsPreorder;
  reads = λ s t h. refl;
  verbs = λ name v svc e n k. run_verb-SameClaims env d name v;
  acquires = acquire-SameClaims;
  releases = λ name s. refl;
  records = λ now r s. ground arith;
  cools = λ now obs s. refl;
  announces = λ req can_send plan s. ground arith;
}

-- The operation is not refused and is to change something.
abbrev pub accepts : Daemon → Request → Bool
accepts d req =
    not (req.service == "") && is_configured d.cfg req.service && not (req.dry_run || d.dry_run)

-- When a claim was first asked for.
abbrev pub first_asked : ℕ → Option Claim → ℕ
first_asked now none = now
first_asked now (some held) = held.at

abbrev pub named_claim : Op → Request → ℕ → Option Claim → Option Claim
named_claim op_request req now held =
    some (record { service = req.service; need_mib = req.need_mib; at = first_asked now held })
named_claim op_release req now held = none
named_claim _ req now held = held

-- The claim under the name `j` after an operation, by its claim before.
abbrev pub claim_after : Daemon → Op → Request → ℕ → String → Option Claim → Option Claim
claim_after d op req now j held =
    if accepts d req && req.service == j then named_claim op req now held else held

module _ (env : Env) (d : Daemon) where
  abbrev kept : IsKept env d SameClaims
  kept = SameClaims-IsKept env d

  -- What the request's own step does; the rest of the operation keeps the table.
  serve_request_claims :
      (req : Request) (can_send : Bool) (s : State)
      → (serve_request env d req can_send s).1.claims ≡ (record_claim env d req s).1.claims
  unfolding serve_request request_observation act_on_request
  serve_request_claims req can_send s =
      let recorded = record_claim env d req s in
      let seen = request_observation env d req recorded.0.0 recorded.1 in
      if-Keeps env d kept d.dry_run _ _ (λ _ t. refl)
        (λ _.
          if-Keeps env d kept req.dry_run _ _ (λ _ t. refl)
            (λ _. carry_out-Keeps env d kept req can_send (decide d.cfg seen.0)))
        seen.1

  serve_eviction_claims :
      (req : Request) (can_send : Bool) (s : State)
      → (serve_eviction env d req can_send s).1.claims ≡ s.claims
  unfolding serve_eviction act_on_eviction
  serve_eviction_claims req can_send s =
      let seen = observation env d s in
      if-Keeps env d kept (req.dry_run || d.dry_run) _ _ (λ _ t. refl)
        (λ _. carry_out-Keeps env d kept req can_send (eviction_plan env d req seen.0)) seen.1
      ∙ observation-Keeps env d kept s

  asked_claim : Request → ℕ → Option Claim → Claim
  asked_claim req now held = record {
    service = req.service;
    need_mib = req.need_mib;
    at = first_asked now held;
  }

  claim_for-asked_claim :
      (req : Request) (now : ℕ) (held : Option Claim)
      → claim_for env d req now held ≡ asked_claim req now held
  unfolding asked_claim
  claim_for-asked_claim req now none = refl
  claim_for-asked_claim req now (some c) = refl

  record_claim-After :
      (req : Request) (s : State) (j : String)
      → not (req.service == "") && is_configured d.cfg req.service ≡ true
      → lookup j (record_claim env d req s).1.claims
        ≡ claim_after d op_request req (env.now s.calls) j (lookup j s.claims)
  unfolding record_claim asked_claim
  record_claim-After req s j c = elim (Bool-cases (req.dry_run || d.dry_run)) [
    | inl dry ↦ rw (c, dry) refl
    | inr wet ↦
        rw
          (
            c,
            wet,
            claim_for-asked_claim req (env.now s.calls) (lookup req.service s.claims),
            lookup-insert,
          )
          (elim (Bool-cases (req.service == j)) [
            | inl e ↦ rw (e, (eq_iff req.service j).0 e) refl
            | inr e ↦ rw e refl
          ])
  ]

  drop_claim-After :
      (req : Request) (s : State) (j : String)
      → not (req.service == "") && is_configured d.cfg req.service ≡ true
      → lookup j (drop_claim env d req s).1.claims
        ≡ claim_after d op_release req (env.now s.calls) j (lookup j s.claims)
  unfolding drop_claim
  drop_claim-After req s j c = elim (Bool-cases d.dry_run) [
    | inl dry ↦ rw (c, dry, drop_claim) ground arith
    | inr wet ↦ elim (Bool-cases req.dry_run) [
      | inl dry ↦ rw (c, wet, dry, drop_claim) refl
      | inr real ↦ rw (c, wet, real, drop_claim) (rw lookup-delete refl)
    ]
  ]

  -- The checks that the control operations share.
  abbrev guarded : Request → Response → Response → M Response → M Response
  guarded req m n serve =
      if req.service == ""
      then pure m
      else if not (is_configured d.cfg req.service)
      then pure n
      else serve

  named-After :
      (op : Op) (req : Request) (m n : Response) (serve : M Response) (s : State) (j : String)
      → (not (req.service == "") && is_configured d.cfg req.service ≡ true
          → lookup j (serve s).1.claims
            ≡ claim_after d op req (env.now s.calls) j (lookup j s.claims))
      → lookup j (guarded req m n serve s).1.claims
        ≡ claim_after d op req (env.now s.calls) j (lookup j s.claims)
  named-After op req m n serve s j h = elim (Bool-cases (req.service == "")) [
    | inl e ↦ rw e refl
    | inr e ↦ elim (Bool-cases (is_configured d.cfg req.service)) [
      | inl c ↦
          ap (λ (r : Response × State). lookup j r.1.claims) {x = guarded req m n serve s}
            {y = serve s} (rw (e, c) refl)
          ∙ h (rw (e, c) refl)
      | inr c ↦ rw (e, c) refl
    ]
  ]

  dispatch-After :
      (op : Op) (req : Request) (can_send : Bool) (s : State) (j : String)
      → lookup j (dispatch env d op req can_send s).1.claims
        ≡ claim_after d op req (env.now s.calls) j (lookup j s.claims)
  unfolding handle_status handle_plan handle_request handle_release_claim handle_evict
  dispatch-After op_ping req can_send s j = ground arith
  dispatch-After op_status req can_send s j = ground arith
  dispatch-After op_plan req can_send s j =
      ap (lookup j) (cooled_observation-Keeps env d kept s) ∙ ground arith
  dispatch-After op_request req can_send s j =
      named-After op_request req _ _ (serve_request env d req can_send) s j
        λ c. ap (lookup j) (serve_request_claims req can_send s) ∙ record_claim-After req s j c
  dispatch-After op_release req can_send s j =
      named-After op_release req _ _ (drop_claim env d req) s j (drop_claim-After req s j)
  dispatch-After op_evict req can_send s j =
      named-After op_evict req _ _ (serve_eviction env d req can_send) s j
        λ c. ap (lookup j) (serve_eviction_claims req can_send s) ∙ ground arith
  dispatch-After (op_other text) req can_send s j = ground arith

-- The claim under each name after an operation: an accepted request puts a claim of its need under its
-- service's name, keeping the time at which a claim held there was first asked for, and an accepted release
-- leaves none there. All else leaves every claim as it is: another operation, another name, a name
-- that is empty or not configured, and a dry run of the request or of the daemon.
pub handle_claims :
    (env : Env) (d : Daemon) (req : Request) (can_send : Bool) (s : State) (j : String)
    → lookup j (handle env d req can_send s).1.claims
      ≡ claim_after d req.op req (env.now s.calls) j (lookup j s.claims)
unfolding handle
handle_claims env d req can_send s j = dispatch-After env d req.op req can_send s j

-- A round of the poll loop neither makes nor drops a claim.
pub tick_claims : (env : Env) (d : Daemon) (s : State) → (tick env d s).1.claims ≡ s.claims
tick_claims env d = tick-Keeps env d (SameClaims-IsKept env d)
