-- ===== src/Daemon/Reached.antt =====
-- The states that the daemon can reach, and what holds in all of them.
use gpu_bouncer.Base.{
  ℕ, ◌≡◌, refl, ◌==◌, Bool, true, not, ◌||◌, Option, none, some, Bool-cases, if_both, inl, inr,
  if◌then◌else◌, ltb,
}
use gpu_bouncer.Base.Dict.{lookup, Unique-delete, Unique-keep_if}
use gpu_bouncer.Config.Types.{Config}
use gpu_bouncer.Scheduler.Types.{Claim}
use gpu_bouncer.Scheduler.Planning.{decide}
use gpu_bouncer.Observe.{Env}
use gpu_bouncer.Ipc.{
  Op, op_ping, op_status, op_plan, op_request, op_release, op_evict, op_other, Request, Response,
}
use gpu_bouncer.Daemon.State.{
  Daemon, State, M, pure, start, release_slot, apply_cooldowns, observation,
}
use gpu_bouncer.Daemon.Handlers.{
  tick, handle_plan, handle_status, claim_for, record_claim, request_observation, act_on_request,
  serve_request, handle_request, drop_claim, handle_release_claim, eviction_plan, act_on_eviction,
  serve_eviction, handle_evict, dispatch, handle,
}
use gpu_bouncer.Daemon.Reports.{is_configured}
use gpu_bouncer.Daemon.Rules.{
  IsKept, if-Keeps, carry_out-Keeps, observation-Keeps, cooled_observation-Keeps, tick-Keeps,
}
use gpu_bouncer.Daemon.Valid.{
  IsValid, Stays, with_cooldowns, with_inflight, with_world, with_claim, without_claim,
  Stays-IsPreorder, record_effect-Stays, acquire-Stays, announce-Stays, run_verb-Stays,
}

module _ (env : Env) (d : Daemon) where
  Stays-IsKept : IsKept env d (Stays d.cfg)
  unfolding release_slot apply_cooldowns
  Stays-IsKept = record {
    preorder = Stays-IsPreorder d.cfg;
    reads = λ s t h. with_world d.cfg s t s.sent;
    verbs = λ name v svc e n k. run_verb-Stays d.cfg env d name v;
    acquires = acquire-Stays d.cfg;
    releases =
        λ name s v. with_inflight d.cfg s _ (Unique-delete name s.inflight v.inflight_unique) v;
    records = record_effect-Stays d.cfg d.cfg.policy;
    cools = λ now obs s v.
        with_cooldowns d.cfg s _
          (Unique-keep_if (λ c. ltb now c.until) s.cooldowns v.cooldowns_unique) v;
    announces = announce-Stays d.cfg;
  }

  claim_for-service :
      (req : Request) (now : ℕ) (held : Option Claim)
      → (claim_for env d req now held).service ≡ req.service
  claim_for-service req now none = refl
  claim_for-service req now (some c) = refl

  abbrev StaysValid : {A : Type 0} → M A → Type 0
  StaysValid m = (s : State) → Stays d.cfg s (m s).1

  record_claim-Stays :
      (req : Request) → is_configured d.cfg req.service ≡ true → StaysValid (record_claim env d req)
  unfolding record_claim
  record_claim-Stays req k s v = if_both (IsValid d.cfg) (req.dry_run || d.dry_run) _ _ v (
      with_claim d.cfg s req.service _
        (claim_for-service req (env.now s.calls) (lookup req.service s.claims)) k v)

  drop_claim-Stays : (req : Request) → StaysValid (drop_claim env d req)
  unfolding drop_claim
  drop_claim-Stays req s v = elim (Bool-cases d.dry_run) [
    | inl dry ↦ rw (dry, drop_claim) v
    | inr wet ↦ elim (Bool-cases req.dry_run) [
      | inl dry ↦ rw (wet, dry, drop_claim) v
      | inr real ↦ rw (wet, real, drop_claim) (without_claim d.cfg s req.service v)
    ]
  ]

  serve_request-Stays :
      (req : Request) (can_send : Bool)
      → is_configured d.cfg req.service ≡ true
      → StaysValid (serve_request env d req can_send)
  unfolding serve_request request_observation act_on_request
  serve_request-Stays req can_send k s v =
      let recorded = record_claim env d req s in
      let seen = request_observation env d req recorded.0.0 recorded.1 in
      if-Keeps env d Stays-IsKept d.dry_run _ _ (λ _ t w. w)
        (λ _.
          if-Keeps env d Stays-IsKept req.dry_run _ _ (λ _ t w. w)
            (λ _. carry_out-Keeps env d Stays-IsKept req can_send (decide d.cfg seen.0)))
        seen.1 (with_world d.cfg recorded.1 _ recorded.1.sent (record_claim-Stays req k s v))

  serve_eviction-Stays :
      (req : Request) (can_send : Bool) → StaysValid (serve_eviction env d req can_send)
  unfolding serve_eviction act_on_eviction
  serve_eviction-Stays req can_send s v =
      let seen = observation env d s in
      if-Keeps env d Stays-IsKept (req.dry_run || d.dry_run) _ _ (λ _ t w. w)
        (λ _. carry_out-Keeps env d Stays-IsKept req can_send (eviction_plan env d req seen.0))
        seen.1 (observation-Keeps env d Stays-IsKept s v)

  -- The checks that the three control operations share.
  named-Stays :
      (req : Request) (m n : Response) (serve : M Response)
      → (is_configured d.cfg req.service ≡ true → StaysValid serve)
      → StaysValid (
          if req.service == ""
          then pure m
          else if not (is_configured d.cfg req.service)
          then pure n
          else serve)
  named-Stays req m n serve h s v = elim (Bool-cases (req.service == "")) [
    | inl e ↦ rw e v
    | inr e ↦ elim (Bool-cases (is_configured d.cfg req.service)) [
      | inl c ↦ rw (e, c) (h c s v)
      | inr c ↦ rw (e, c) v
    ]
  ]

  dispatch-Stays :
      (op : Op) (req : Request) (can_send : Bool) → StaysValid (dispatch env d op req can_send)
  unfolding handle_status handle_plan handle_request handle_release_claim handle_evict
  dispatch-Stays op_ping req can_send s v = v
  dispatch-Stays op_status req can_send s v = with_world d.cfg s _ s.sent v
  dispatch-Stays op_plan req can_send s v = cooled_observation-Keeps env d Stays-IsKept s v
  dispatch-Stays op_request req can_send s v =
      named-Stays req _ _ (serve_request env d req can_send) (serve_request-Stays req can_send) s v
  dispatch-Stays op_release req can_send s v =
      named-Stays req _ _ (drop_claim env d req) (λ k. drop_claim-Stays req) s v
  dispatch-Stays op_evict req can_send s v =
      named-Stays req _ _ (serve_eviction env d req can_send)
        (λ k. serve_eviction-Stays req can_send) s v
  dispatch-Stays (op_other text) req can_send s v = v

-- The daemon's first tables are valid.
pub start-IsValid : (cfg : Config) → IsValid cfg start
start-IsValid cfg = record {
  claims_unique = tt;
  cooldowns_unique = tt;
  inflight_unique = tt;
  own_names = tt;
  configured = tt;
}

-- A step of the daemon: a control operation or a round of the poll loop.
pub data Step (env : Env) (d : Daemon) : State → State → Type 0 where
  serve :
      (req : Request) (can_send : Bool) (s : State) → Step env d s (handle env d req can_send s).1
  poll : (s : State) → Step env d s (tick env d s).1

pub data Reachable (env : Env) (d : Daemon) : State → Type 0 where
  first : Reachable env d start
  next : (s t : State) → Reachable env d s → Step env d s t → Reachable env d t

pub Step-IsValid :
    (env : Env) (d : Daemon) (s t : State) → Step env d s t → IsValid d.cfg s → IsValid d.cfg t
unfolding handle
Step-IsValid env d s _ (serve req can_send _) v = dispatch-Stays env d req.op req can_send s v
Step-IsValid env d s _ (poll _) v = tick-Keeps env d (Stays-IsKept env d) s v

-- In every state that the daemon can reach by serving requests and polling, whatever the world
-- answers, each table has a name once, and each claim stands under its own service's name, which
-- is configured.
pub Reachable-IsValid : (env : Env) (d : Daemon) (s : State) → Reachable env d s → IsValid d.cfg s
Reachable-IsValid env d _ first = start-IsValid d.cfg
Reachable-IsValid env d _ (next r s r' step) =
    Step-IsValid env d r s step (Reachable-IsValid env d r r')
