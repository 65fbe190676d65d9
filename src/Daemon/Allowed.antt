-- ===== src/Daemon/Allowed.antt =====
-- The safety boundary: which calls the daemon makes to the world outside.
use gpu_bouncer.Base.{
  ℕ, ◌≡◌, refl, sym, subst, String, ◌==◌, Bool, true, false, not, ◌||◌, some, [], ◌∷◌, All-imp,
  arith, if◌then◌else◌,
}
use gpu_bouncer.Config.Types.{Config, Service, service}
use gpu_bouncer.Scheduler.Types.{
  Verb, verb_release, verb_stop, verb_other, Plan, Observation, Claim,
}
use gpu_bouncer.Observe.{Call, read_devices, probe, release, stop, Trace, Env}
use gpu_bouncer.Ipc.{
  Request, Response, Op, op_ping, op_status, op_plan, op_request, op_release, op_evict, op_other,
}
use gpu_bouncer.Scheduler.Planning.{decide}
use gpu_bouncer.Daemon.State.{Daemon, State, M, pure, apply_cooldowns, observation}
use gpu_bouncer.Daemon.Execute.{announce, run_verb}
use gpu_bouncer.Daemon.Handlers.{
  tick, handle_plan, handle_status, record_claim, request_observation, serve_request,
  handle_request, drop_claim, handle_release_claim, serve_eviction, handle_evict, dispatch, handle,
  eviction_plan,
}
use gpu_bouncer.Daemon.Reports.{is_configured}
use gpu_bouncer.Daemon.Rules.{
  IsKept, if-Keeps, carry_out-Keeps, observation-Keeps, cooled_observation-Keeps, tick-Keeps,
}
use gpu_bouncer.Daemon.Steps.{
  Respects, Added, Added-refl, Added-trans, Calls, Calls-IsPreorder, ReadOnly, device-ReadOnly,
  observe-ReadOnly, statuses-ReadOnly, acquire_calls, release_slot_calls, record_effect_calls,
}

-- A service is changed only if it is configured and the daemon is no dry run; it is stopped only if
-- its configuration allows that.
abbrev pub Allowed : Daemon → Call → Type 0
Allowed d read_devices = Unit
Allowed d (probe name) = Unit
Allowed d (release name) =
    (svc : Service) × (service d.cfg.services name ≡ some svc) × (d.dry_run ≡ false)
Allowed d (stop name) =
    (svc : Service) × (service d.cfg.services name ≡ some svc)
    × (d.dry_run ≡ false)
    × (svc.allow_stop ≡ true)

ReadOnly-Allowed : (d : Daemon) (c : Call) → ReadOnly c → Allowed d c
ReadOnly-Allowed d read_devices r = tt
ReadOnly-Allowed d (probe name) r = tt
ReadOnly-Allowed d (release name) r = absurd r
ReadOnly-Allowed d (stop name) r = absurd r

announce_calls :
    (cfg : Config) (req : Request) (can_send : Bool) (plan : Plan) (s : State)
    → (announce cfg req can_send plan s).1.calls ≡ s.calls
unfolding announce
announce_calls cfg req can_send plan s = ground arith

pub record_claim_calls :
    (env : Env) (d : Daemon) (req : Request) (s : State)
    → (record_claim env d req s).1.calls ≡ s.calls
unfolding record_claim
record_claim_calls env d req s = ground arith

pub drop_claim_calls :
    (env : Env) (d : Daemon) (req : Request) (s : State)
    → (drop_claim env d req s).1.calls ≡ s.calls
unfolding drop_claim
drop_claim_calls env d req s = ground arith

apply_cooldowns_calls :
    (now : ℕ) (obs : Observation) (s : State) → (apply_cooldowns now obs s).1.calls ≡ s.calls
unfolding apply_cooldowns
apply_cooldowns_calls now obs s = refl

-- An operation that only touches the tables makes no call.
still : (P : Call → Type 0) (t u : Trace) → u ≡ t → Added P t u
still P t u e = subst (Added P t) (sym e) (Added-refl P t)

-- A verb that is permitted makes at most its one call.
run_verb-Allowed :
    (env : Env) (d : Daemon) (name : String) (v : Verb) (svc : Service)
    → service d.cfg.services name ≡ some svc
    → d.dry_run ≡ false
    → (v ≡ verb_stop → svc.allow_stop ≡ true)
    → Respects (Calls (Allowed d)) (run_verb env d name v)
unfolding run_verb
run_verb-Allowed env d name verb_release svc e n k s = (release name ∷ [], refl, ((svc, e, n), tt))
run_verb-Allowed env d name verb_stop svc e n k s =
    (stop name ∷ [], refl, ((svc, e, n, k refl), tt))
run_verb-Allowed env d name (verb_other text) svc e n k s = Added-refl (Allowed d) s.calls

Allowed-IsKept : (env : Env) (d : Daemon) → IsKept env d (Calls (Allowed d))
Allowed-IsKept env d = record {
  preorder = Calls-IsPreorder (Allowed d);
  reads = λ s t (f, e, h). (f, e, All-imp ReadOnly (Allowed d) f (ReadOnly-Allowed d) h);
  verbs = run_verb-Allowed env d;
  acquires = λ name s. still (Allowed d) _ _ (acquire_calls name s);
  releases = λ name s. still (Allowed d) _ _ (release_slot_calls name s);
  records = λ now r s. still (Allowed d) _ _ (record_effect_calls d.cfg.policy now r s);
  cools = λ now obs s. still (Allowed d) _ _ (apply_cooldowns_calls now obs s);
  announces =
      λ req can_send plan s. still (Allowed d) _ _ (announce_calls d.cfg req can_send plan s);
}

module _ (env : Env) (d : Daemon) where
  abbrev Within : {A : Type 0} → M A → Type 0
  Within = Respects (Calls (Allowed d))

  abbrev rules : IsKept env d (Calls (Allowed d))
  rules = Allowed-IsKept env d

  follow : (t u v : Trace) → Added (Allowed d) t u → Added (Allowed d) u v → Added (Allowed d) t v
  follow = Added-trans (Allowed d)

  reading : (t u : Trace) → Added ReadOnly t u → Added (Allowed d) t u
  reading t u (f, e, h) = (f, e, All-imp ReadOnly (Allowed d) f (ReadOnly-Allowed d) h)

  handle_status-Within : Within (handle_status env d)
  unfolding handle_status
  handle_status-Within s = reading s.calls _ (
      Added-trans ReadOnly s.calls _ _ (device-ReadOnly env d.observer s.calls)
        (statuses-ReadOnly env d.observer d.cfg.services _))

  request_observation-Within :
      (req : Request) (c : Claim) → Within (request_observation env d req c)
  unfolding request_observation
  request_observation-Within req c s = reading s.calls _ (observe-ReadOnly env d.observer s.calls)

  serve_request-Within :
      (req : Request) (can_send : Bool) → Within (serve_request env d req can_send)
  unfolding serve_request
  serve_request-Within req can_send s =
      let recorded = record_claim env d req s in
      let seen = request_observation env d req recorded.0.0 recorded.1 in
      follow s.calls recorded.1.calls _ (still (Allowed d) _ _ (record_claim_calls env d req s)) (
        follow recorded.1.calls seen.1.calls _
          (request_observation-Within req recorded.0.0 recorded.1)
          (if-Keeps env d rules d.dry_run _ _ (λ _ t. Added-refl (Allowed d) t.calls)
            (λ _.
              if-Keeps env d rules req.dry_run _ _ (λ _ t. Added-refl (Allowed d) t.calls)
                (λ _. carry_out-Keeps env d rules req can_send (decide d.cfg seen.0)))
            seen.1))

  serve_eviction-Within :
      (req : Request) (can_send : Bool) → Within (serve_eviction env d req can_send)
  unfolding serve_eviction
  serve_eviction-Within req can_send s =
      let seen = observation env d s in
      follow s.calls seen.1.calls _ (observation-Keeps env d rules s) (
        if-Keeps env d rules (req.dry_run || d.dry_run) _ _ (λ _ t. Added-refl (Allowed d) t.calls)
          (λ _. carry_out-Keeps env d rules req can_send (eviction_plan env d req seen.0)) seen.1)

  -- The checks that the three control operations share.
  named-Within :
      (req : Request) (m n : Response) (serve : M Response)
      → Within serve
      → Within (
          if req.service == ""
          then pure m
          else if not (is_configured d.cfg req.service)
          then pure n
          else serve)
  named-Within req m n serve h =
      if-Keeps env d rules (req.service == "") _ _ (λ _ t. Added-refl (Allowed d) t.calls)
        (λ _.
          if-Keeps env d rules (not (is_configured d.cfg req.service)) _ _
            (λ _ t. Added-refl (Allowed d) t.calls) (λ _. h))

  dispatch-Within :
      (op : Op) (req : Request) (can_send : Bool) → Within (dispatch env d op req can_send)
  unfolding handle_plan handle_request handle_release_claim handle_evict
  dispatch-Within op_ping req can_send s = Added-refl (Allowed d) s.calls
  dispatch-Within op_status req can_send s = handle_status-Within s
  dispatch-Within op_plan req can_send s = cooled_observation-Keeps env d rules s
  dispatch-Within op_request req can_send s =
      named-Within req _ _ (serve_request env d req can_send) (serve_request-Within req can_send) s
  dispatch-Within op_release req can_send s =
      named-Within req _ _ (drop_claim env d req)
        (λ t. still (Allowed d) t.calls _ (drop_claim_calls env d req t)) s
  dispatch-Within op_evict req can_send s =
      named-Within req _ _ (serve_eviction env d req can_send) (serve_eviction-Within req can_send)
        s
  dispatch-Within (op_other text) req can_send s = Added-refl (Allowed d) s.calls

-- Whatever is asked of the daemon, whatever its tables hold and whatever the world outside answers,
-- each call that a control operation makes is allowed: it reads, or it changes a configured service
-- while the daemon is no dry run, and it stops one only with `allow_stop`.
pub handle-Allowed :
    (env : Env) (d : Daemon) (req : Request) (can_send : Bool) (s : State)
    → Added (Allowed d) s.calls (handle env d req can_send s).1.calls
unfolding handle
handle-Allowed env d req can_send = dispatch-Within env d req.op req can_send

-- Each call that a round of the poll loop makes, its actions included, reads, or changes a configured
-- service while the daemon is no dry run, and it stops one only with `allow_stop`.
pub tick-Allowed :
    (env : Env) (d : Daemon) (s : State) → Added (Allowed d) s.calls (tick env d s).1.calls
tick-Allowed env d = tick-Keeps env d (Allowed-IsKept env d)
