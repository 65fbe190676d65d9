-- ===== src/Daemon/Handlers.antt =====
-- internal/daemon/daemon.go: the poll loop's round and the control operations.
use gpu_bouncer.Base.{
  ℕ, ◌==◌, Bool, true, false, not, ◌||◌, Option, none, some, [], ◌∷◌, ◌++◌, map, leb, if◌then◌else◌,
}
use gpu_bouncer.Base.Dict.{lookup, insert, delete}
use gpu_bouncer.Scheduler.Types.{Claim, Observation, Plan}
use gpu_bouncer.Scheduler.Planning.{decide, evict, evict_all_except}
use gpu_bouncer.Observe.{Env, Reading, device, observe, statuses}
use gpu_bouncer.Ipc.{
  Op, op_ping, op_status, op_plan, op_request, op_release, op_evict, op_other, Request, GpuReport,
  gpu_report_of, unknown_operation, needs_service_name, service_not_in_config, Message,
  daemon_running, request_dry_run_daemon, dry_run_nothing_done, release_dry_run_daemon,
  updated_claim, dry_holds_no_claim, dry_would_release, held_no_claim, released_claim, Response,
  okay, refuse,
}
use gpu_bouncer.Daemon.State.{
  Daemon, M, ◌>>=◌, ◌>>◌, pure, apply_inflight, apply_cooldowns, snapshot_claims,
  snapshot_cooldowns, observation,
}
use gpu_bouncer.Daemon.Execute.{announce, execute_all, free_after}
use gpu_bouncer.Daemon.Reports.{
  elide, config_report, service_report, claim_report, is_configured, measured_free,
}

module _ (env : Env) (d : Daemon) where
  abbrev pub clock : M ℕ
  clock s = (env.now s.calls, s)

  -- An observation with the cooling services marked: what the poll loop decides on.
  unfoldable pub cooled_observation : M Observation
  cooled_observation = do obs ← observation env d; now ← clock; apply_cooldowns now obs

  -- The round's actions run on goroutines of their own; here they run before the next operation.
  unfoldable pub tick : M Plan
  unfolding cooled_observation
  tick = do
    obs ← cooled_observation
    let plan = decide d.cfg obs
    executed ← execute_all env d plan.actions
    pure plan

  unfoldable pub handle_plan : M Response
  unfolding cooled_observation
  handle_plan = do obs ← cooled_observation; pure (record okay { plan = some (decide d.cfg obs) })

  abbrev pub gpu_report : Reading → GpuReport
  gpu_report (dev, none) = gpu_report_of dev ""
  gpu_report (dev, some e) = record (gpu_report_of dev "") {
    known = false;
    error = env.device_error_text e;
  }

  unfoldable pub handle_status : M Response
  handle_status s =
      let (reading, t) = device env d.observer s.calls in
      let (entries, t') = statuses env d.observer d.cfg.services t in
      (
        record okay {
          gpu = some (gpu_report reading);
          services = map service_report entries;
          claims = map claim_report (snapshot_claims s.claims);
          cooldowns = snapshot_cooldowns (env.now t') s.cooldowns;
          daemon_config = some (config_report d.cfg);
          daemon_dry_run = some d.dry_run;
        },
        record s { calls = t' },
      )

  -- A claim that is asked for again keeps the time it was first asked at.
  abbrev pub claim_for : Request → ℕ → Option Claim → Claim
  claim_for req now none = record { service = req.service; need_mib = req.need_mib; at = now }
  claim_for req now (some existing) = record {
    service = req.service;
    need_mib = req.need_mib;
    at = existing.at;
  }

  abbrev pub update_message : Option Claim → Option Message
  update_message none = none
  update_message (some existing) = some (updated_claim existing.at)

  -- `handleRequest` once the service is known: the claim is recorded, unless this is a dry run.
  unfoldable pub record_claim : Request → M (Claim × Option Message)
  record_claim req s =
      let existing = lookup req.service s.claims in
      let claim = claim_for req (env.now s.calls) existing in
      (
        (claim, update_message existing),
        if req.dry_run || d.dry_run
            then s
            else record s { claims = insert req.service claim s.claims },
      )

  -- The observation of a request ignores cooldowns, and counts a dry run's claim.
  unfoldable pub request_observation : Request → Claim → M Observation
  request_observation req claim s =
      let (obs, t) = observe env d.observer s.calls in
      let held = snapshot_claims s.claims in
      (
        apply_inflight s.inflight
            (record obs { claims = if req.dry_run || d.dry_run then held ++ claim ∷ [] else held }),
        record s { calls = t },
      )

  unfoldable pub act_on_request : Request → Bool → Option Message → Plan → M Response
  act_on_request req can_send updated plan = do
    announce d.cfg req can_send plan
    executed ← execute_all env d plan.actions
    after ← free_after env d executed
    pure (record okay {
      plan = some plan;
      message = updated;
      executed = executed;
      free_after_mib = after;
      target_met = some (leb plan.target_free_mib (measured_free plan executed after));
    })

  unfoldable pub serve_request : Request → Bool → M Response
  unfolding record_claim request_observation act_on_request
  serve_request req can_send = do
    (claim, updated) ← record_claim req
    obs ← request_observation req claim
    let plan = decide d.cfg obs
    if d.dry_run
        then pure (record okay { plan = some plan; message = some request_dry_run_daemon })
        else if req.dry_run
        then pure (record okay { plan = some plan; message = some dry_run_nothing_done })
        else act_on_request req can_send updated plan

  unfoldable pub handle_request : Request → Bool → M Response
  unfolding serve_request
  handle_request req can_send =
      if req.service == ""
      then pure (refuse (needs_service_name op_request))
      else if not (is_configured d.cfg req.service)
      then pure (refuse (service_not_in_config (elide req.service)))
      else serve_request req can_send

  abbrev pub had : {A : Type 0} → Option A → Bool
  had none = false
  had (some a) = true

  unfoldable pub drop_claim : Request → M Response
  drop_claim req s =
      let holds = had (lookup req.service s.claims) in
      if d.dry_run
      then (record okay { message = some release_dry_run_daemon }, s)
      else if req.dry_run
      then (
        record okay {
          message =
              some (
                if not holds
                then dry_holds_no_claim req.service
                else dry_would_release req.service);
        },
        s,
      )
      else (
        record okay {
          message =
              some (if not holds then held_no_claim req.service else released_claim req.service);
        },
        record s { claims = delete req.service s.claims },
      )

  unfoldable pub handle_release_claim : Request → M Response
  unfolding drop_claim
  handle_release_claim req =
      if req.service == ""
      then pure (refuse (needs_service_name op_release))
      else if not (is_configured d.cfg req.service)
      then pure (refuse (service_not_in_config (elide req.service)))
      else drop_claim req

  abbrev pub eviction_plan : Request → Observation → Plan
  eviction_plan req obs =
      if req.all_except then evict_all_except obs req.service else evict obs (req.service ∷ [])

  unfoldable pub act_on_eviction : Request → Bool → Plan → M Response
  act_on_eviction req can_send plan = do
    announce d.cfg req can_send plan
    executed ← execute_all env d plan.actions
    after ← free_after env d executed
    pure (record okay { plan = some plan; executed = executed; free_after_mib = after })

  unfoldable pub serve_eviction : Request → Bool → M Response
  unfolding act_on_eviction
  serve_eviction req can_send = do
    obs ← observation env d
    let plan = eviction_plan req obs
    if req.dry_run || d.dry_run
        then pure (record okay { plan = some plan; message = some dry_run_nothing_done })
        else act_on_eviction req can_send plan

  unfoldable pub handle_evict : Request → Bool → M Response
  unfolding serve_eviction
  handle_evict req can_send =
      if req.service == ""
      then pure (refuse (needs_service_name op_evict))
      else if not (is_configured d.cfg req.service)
      then pure (refuse (service_not_in_config (elide req.service)))
      else serve_eviction req can_send

  -- `handle`; `can_send` says whether a preliminary reply can be delivered.
  abbrev pub dispatch : Op → Request → Bool → M Response
  dispatch op_ping req can_send = pure (record okay {
    message = some daemon_running;
    daemon_dry_run = some d.dry_run;
    daemon_config = some (config_report d.cfg);
  })
  dispatch op_status req can_send = handle_status
  dispatch op_plan req can_send = handle_plan
  dispatch op_request req can_send = handle_request req can_send
  dispatch op_release req can_send = handle_release_claim req
  dispatch op_evict req can_send = handle_evict req can_send
  dispatch (op_other text) req can_send = pure (refuse (unknown_operation text))

  unfoldable pub handle : Request → Bool → M Response
  handle req can_send = dispatch req.op req can_send
