-- ===== src/Daemon/Execute.antt =====
-- internal/daemon/daemon.go: carrying out actions, and the time they may take.
-- `execute` starts its actions at once, each under its own service's slot; here they run one after
-- another, which is one of the orders that may happen.
use gpu_bouncer.Base.{
  ℕ, ◌+◌, ◌-◌, ◌*◌, ◌/◌, ◌^◌, String, Bool, true, false, not, ◌&&◌, ◌||◌, Option, none, some, List,
  [], ◌∷◌, ◌++◌, eqb, if◌then◌else◌,
}
use Prim.Native.String.{◌++◌ as append_text}
use gpu_bouncer.Base.Int.{ℤ, pos, negsuc, ltb_ℤ, add_int64}
use gpu_bouncer.Base.Dict.{lookup}
use gpu_bouncer.Gpu.{free_mib}
use gpu_bouncer.Config.Types.{Config, Service, service, second}
use gpu_bouncer.Adapter.{Outcome, no_outcome}
use gpu_bouncer.Scheduler.Types.{
  Verb, verb_release, verb_stop, verb_other, Action, Plan, no_actions,
}
use gpu_bouncer.Observe.{Env, Reading, device, release, stop}
use gpu_bouncer.Ipc.{Request, Response, ActionResult, okay, wait_for}
use gpu_bouncer.Daemon.State.{Daemon, M, ◌>>=◌, ◌>>◌, pure, acquire, release_slot, record_effect}

abbrev pub max_action_bound : ℕ
max_action_bound = (2 ^ 63 - 1) / 4

unfoldable pub action_bound : Service → ℤ
action_bound svc =
    if ltb_ℤ (pos max_action_bound) svc.timeout || ltb_ℤ (pos max_action_bound) svc.drain_timeout
    then pos max_action_bound
    else (let bound = add_int64 svc.timeout svc.drain_timeout in
        if ltb_ℤ bound (pos max_action_bound) then bound else pos max_action_bound)

abbrev pub longer : ℤ → ℤ → ℤ
longer longest bound = if ltb_ℤ longest bound then bound else longest

-- The loop of `longestAction`, over the actions, and that of `connBudget`, over the services.
unfoldable pub longest_of_actions : List Service → ℤ → List Action → ℤ
longest_of_actions services longest [] = longest
longest_of_actions services longest (a ∷ rest) =
    longest_of_actions services
      (elim (service services a.service) [
        | none ↦ longest
        | some svc ↦ longer longest (action_bound svc)
      ])
      rest

unfoldable pub longest_action : Config → Plan → ℤ
longest_action cfg plan = longest_of_actions cfg.services (pos 0) plan.actions

unfoldable pub longest_of_services : ℤ → List Service → ℤ
longest_of_services longest [] = longest
longest_of_services longest (svc ∷ rest) =
    longest_of_services (longer longest (action_bound svc)) rest

unfoldable pub conn_budget : Config → ℤ
conn_budget cfg =
    add_int64 (wait_for (longest_of_services (pos 0) cfg.services)) (pos (60 * second))

abbrev pub milliseconds : ℤ → ℤ
milliseconds (pos n) = pos (n / 1_000_000)
milliseconds (negsuc n) = let q = (n + 1) / 1_000_000 in if eqb q 0 then pos 0 else negsuc (q - 1)

abbrev pub announcement : Config → Plan → Response
announcement cfg plan = record okay {
  plan = some plan;
  longest_action_ms = milliseconds (longest_action cfg plan);
}

-- A plan that will act is announced to a client that asked for it.
unfoldable pub announce : Config → Request → Bool → Plan → M (Unit {0})
announce cfg req can_send plan s =
    if not can_send || not req.plan_first || no_actions plan.actions
    then (tt, s)
    else (tt, record s { sent = s.sent ++ announcement cfg plan ∷ [] })

abbrev pub free_of : Reading → Option ℕ
free_of (dev, none) = some (free_mib dev)
free_of (dev, some e) = none

abbrev pub with_outcome : Outcome × Option String → ActionResult → ActionResult
with_outcome (o, none) r = record r { acted = o.acted; detail = o.detail }
with_outcome (o, some e) r = record r { acted = o.acted; detail = o.detail; error = e }

module _ (env : Env) (d : Daemon) where
  unfoldable pub read_free : M (Option ℕ)
  read_free s =
      let (reading, t) = device env d.observer s.calls in (free_of reading, record s { calls = t })

  unfoldable pub run_verb : String → Verb → M (Outcome × Option String)
  run_verb name verb_release s =
      (env.release_reply name s.calls, record s { calls = release name ∷ s.calls })
  run_verb name verb_stop s =
      (env.stop_reply name s.calls, record s { calls = stop name ∷ s.calls })
  run_verb name (verb_other text) s =
      ((no_outcome, some (append_text "unknown verb " (env.quote text))), s)

  abbrev pub is_stop : Verb → Bool
  is_stop verb_stop = true
  is_stop _ = false

  abbrev pub blank_result : Action → Option ℕ → ActionResult
  blank_result action before = record {
    service = action.service;
    verb = action.verb;
    reason = action.reason;
    acted = false;
    detail = "";
    error = "";
    free_before_mib = before;
    free_after_mib = none;
  }

  -- The action itself, once nothing forbids it.
  unfoldable pub act : Action → ActionResult → M ActionResult
  unfolding read_free run_verb
  act action r = do
    outcome ← run_verb action.service action.verb
    after ← read_free
    let result = record (with_outcome outcome r) { free_after_mib = after }
    now ← (λ s. (env.now s.calls, s))
    record_effect d.cfg.policy now result
    pure result

  -- The checks before it: a stop has to be allowed, and a dry run does nothing.
  unfoldable pub permitted : Service → Action → ActionResult → M ActionResult
  permitted svc action r =
      if is_stop action.verb && not svc.allow_stop
      then pure (record r { error = "refusing to stop: allow_stop is not set for this service" })
      else if d.dry_run
      then pure
          (record r { detail = "dry run, nothing was done"; free_after_mib = r.free_before_mib })
      else act action r

  -- And before those: the service has to be configured, and to have an adapter.
  unfoldable pub checked : Action → ActionResult → M ActionResult
  checked action r = elim (service d.cfg.services action.service) [
    | none ↦ pure (record r { error = "service is not in the config" })
    | some svc ↦ elim (lookup action.service d.observer.adapters) [
      | none ↦ pure (record r { error = "no adapter" })
      | some kind ↦ permitted svc action r
    ]
  ]

  unfoldable pub execute_one : Action → M ActionResult
  unfolding read_free
  execute_one action = do before ← read_free; checked action (blank_result action before)

  -- With the slot the action runs and gives the slot back; without it the action is skipped.
  unfoldable pub run_in_slot : Bool → Action → M ActionResult
  run_in_slot false action = pure (record (blank_result action none) {
    detail = "skipped, an action on it is already in flight";
  })
  run_in_slot true action = do result ← execute_one action; release_slot action.service; pure result

  unfoldable pub execute_guarded : Action → M ActionResult
  execute_guarded action = do free ← acquire action.service; run_in_slot free action

  unfoldable pub execute_all : List Action → M (List ActionResult)
  execute_all [] = pure []
  execute_all (a ∷ rest) = do
    result ← execute_guarded a
    results ← execute_all rest
    pure (result ∷ results)

  abbrev pub is_empty : List ActionResult → Bool
  is_empty [] = true
  is_empty (r ∷ rs) = false

  -- The reading after the whole plan; none where nothing ran.
  unfoldable pub free_after : List ActionResult → M (Option ℕ)
  free_after executed = if is_empty executed then pure none else read_free
