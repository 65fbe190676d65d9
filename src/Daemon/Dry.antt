-- ===== src/Daemon/Dry.antt =====
-- internal/daemon/daemon.go: the calls of a dry run.
use gpu_bouncer.Base.{◌≡◌, refl, sym, subst, ◌==◌, Bool, true, false, not, ◌||◌, if◌then◌else◌}
use gpu_bouncer.Observe.{Env, Trace}
use gpu_bouncer.Ipc.{
  Op, op_ping, op_status, op_plan, op_request, op_release, op_evict, op_other, Request, Response,
}
use gpu_bouncer.Daemon.State.{Daemon, State, M, pure, observation, apply_cooldowns}
use gpu_bouncer.Daemon.Handlers.{
  cooled_observation, handle_plan, handle_status, record_claim, request_observation, serve_request,
  handle_request, drop_claim, handle_release_claim, serve_eviction, handle_evict, dispatch, handle,
}
use gpu_bouncer.Daemon.Reports.{is_configured}
use gpu_bouncer.Daemon.Steps.{
  Added, Added-refl, Added-trans, ReadOnly, device-ReadOnly, observe-ReadOnly, statuses-ReadOnly,
}
use gpu_bouncer.Daemon.Allowed.{record_claim_calls, drop_claim_calls}

-- The operation only reads.
abbrev Reads : {A : Type 0} → M A → State → Type 0
Reads m s = Added ReadOnly s.calls (m s).1.calls

-- A test decides which of two operations is run.
if-Reads :
    {A : Type 0} (b : Bool) (m n : M A) (s : State) (t : Trace)
    → (b ≡ true → Added ReadOnly t (m s).1.calls)
    → (b ≡ false → Added ReadOnly t (n s).1.calls)
    → Added ReadOnly t ((if b then m else n) s).1.calls
if-Reads true m n s t f g = f refl
if-Reads false m n s t f g = g refl

module _ (env : Env) (d : Daemon) (req : Request) (dry : req.dry_run || d.dry_run ≡ true) where
  serve_request-Reads : (can_send : Bool) (s : State) → Reads (serve_request env d req can_send) s
  unfolding serve_request request_observation
  serve_request-Reads can_send s =
      let recorded = record_claim env d req s in
      let seen = request_observation env d req recorded.0.0 recorded.1 in
      let read : Added ReadOnly s.calls seen.1.calls =
        subst (λ t. Added ReadOnly t seen.1.calls) (record_claim_calls env d req s)
          (observe-ReadOnly env d.observer recorded.1.calls) in
      if-Reads d.dry_run _ _ seen.1 s.calls (λ _. read)
        (λ e. if-Reads req.dry_run _ _ seen.1 s.calls (λ _. read) (λ f. cc (dry, e, f)))

  serve_eviction-Reads : (can_send : Bool) (s : State) → Reads (serve_eviction env d req can_send) s
  unfolding serve_eviction observation
  serve_eviction-Reads can_send s =
      if-Reads (req.dry_run || d.dry_run) _ _ (observation env d s).1 s.calls
        (λ _. observe-ReadOnly env d.observer s.calls) (λ f. cc (dry, f))

  named-Reads :
      (m n : Response) (serve : M Response) (s : State)
      → Reads serve s
      → Reads
          (if req.service == ""
            then pure m
            else if not (is_configured d.cfg req.service)
            then pure n
            else serve)
          s
  named-Reads m n serve s h =
      if-Reads (req.service == "") _ _ s s.calls (λ _. Added-refl ReadOnly s.calls)
        (λ _.
          if-Reads (not (is_configured d.cfg req.service)) _ _ s s.calls
            (λ _. Added-refl ReadOnly s.calls) (λ _. h))

  dispatch-Reads :
      (op : Op) (can_send : Bool) (s : State) → Reads (dispatch env d op req can_send) s
  unfolding handle_status handle_plan handle_request handle_release_claim handle_evict
      cooled_observation apply_cooldowns observation
  dispatch-Reads op_ping can_send s = Added-refl ReadOnly s.calls
  dispatch-Reads op_status can_send s =
      Added-trans ReadOnly s.calls _ _ (device-ReadOnly env d.observer s.calls)
        (statuses-ReadOnly env d.observer d.cfg.services _)
  dispatch-Reads op_plan can_send s = observe-ReadOnly env d.observer s.calls
  dispatch-Reads op_request can_send s =
      named-Reads _ _ (serve_request env d req can_send) s (serve_request-Reads can_send s)
  dispatch-Reads op_release can_send s = named-Reads _ _ (drop_claim env d req) s (
      subst (Added ReadOnly s.calls) (sym (drop_claim_calls env d req s))
        (Added-refl ReadOnly s.calls))
  dispatch-Reads op_evict can_send s =
      named-Reads _ _ (serve_eviction env d req can_send) s (serve_eviction-Reads can_send s)
  dispatch-Reads (op_other text) can_send s = Added-refl ReadOnly s.calls

-- In a dry run of the request or of the daemon, a control operation calls nothing that changes a
-- service: it reads the card and probes.
pub dry_run-ReadOnly :
    (env : Env) (d : Daemon) (req : Request) (can_send : Bool) (s : State)
    → req.dry_run || d.dry_run ≡ true
    → Added ReadOnly s.calls (handle env d req can_send s).1.calls
unfolding handle
dry_run-ReadOnly env d req can_send s dry = dispatch-Reads env d req dry req.op can_send s
