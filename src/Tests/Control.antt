-- ===== src/Tests/Control.antt =====
-- Examples for the daemon's theorems.
use gpu_bouncer.Base.{
  none, done, ◌+◌, ◌*◌, ◌≡◌, ◌≢◌, refl, ◌==◌, true, false, some, [], ◌∷◌, All, arith, if◌then◌else◌,
}
use gpu_bouncer.Base.Int.{pos, add_int64}
use gpu_bouncer.Base.Dict.{lookup}
use gpu_bouncer.Config.Types.{second, service}
use gpu_bouncer.Scheduler.Types.{
  Plan, new_plan, trigger_evict, verb_release, explicitly_evicted, has_release_api,
}
use gpu_bouncer.Scheduler.Planning.{release_for}
use gpu_bouncer.Ipc.{
  okay, Request, op_request, op_evict, ActionResult, client_slack, freed_too_little,
}
use gpu_bouncer.Daemon.State.{State, start, Cooldown, record_effect}
use gpu_bouncer.Daemon.Execute.{
  announcement, longest_action, longest_of_actions, action_bound, conn_budget,
}
use gpu_bouncer.Daemon.Handlers.{handle, tick}
use gpu_bouncer.Daemon.Steps.{Added, ReadOnly}
use gpu_bouncer.Daemon.Allowed.{Allowed, handle-Allowed, tick-Allowed}
use gpu_bouncer.Daemon.Claims.{claim_after, handle_claims}
use gpu_bouncer.Daemon.Valid.{IsValid}
use gpu_bouncer.Daemon.Reached.{Reachable, Reachable-IsValid, Step}
use gpu_bouncer.Daemon.Resting.{tick_spares_cooling, tick_spares_busy}
use gpu_bouncer.Ipc.Client.{Peer, Sockets, eof, plan_time}
use gpu_bouncer.Daemon.Waits.{AtMost, conn_budget_outlasts}
use gpu_bouncer.Daemon.Effects.{verdict, record_effect-verdict}
use gpu_bouncer.Daemon.Dry.{dry_run-ReadOnly}
use gpu_bouncer.Tests.{draw_claim, world, keeper, house, llm_up, draw_up}

abbrev ask : Request
ask = record {
  op = op_request;
  service = "draw";
  need_mib = 30000;
  all_except = false;
  dry_run = false;
  plan_first = true;
}

handle-Allowed_example :
    Added (Allowed keeper) start.calls (handle world keeper ask true start).1.calls
handle-Allowed_example = handle-Allowed world keeper ask true start

-- The state after the request.
abbrev asked : State
asked = (handle world keeper ask true start).1

tick-Allowed_example : Added (Allowed keeper) asked.calls (tick world keeper asked).1.calls
tick-Allowed_example = tick-Allowed world keeper asked

handle_claims_example :
    lookup "draw" (handle world keeper ask true start).1.claims
    ≡ claim_after keeper op_request ask 100 "draw" (lookup "draw" start.claims)
handle_claims_example = handle_claims world keeper ask true start "draw"

Reachable-IsValid_example : IsValid house (tick world keeper asked).1
Reachable-IsValid_example = Reachable-IsValid world keeper (tick world keeper asked).1 (
    Reachable.next asked (tick world keeper asked).1
      (Reachable.next start asked Reachable.first (Step.serve ask true start)) (Step.poll asked))

abbrev rest : Cooldown
rest = record { until = 200; reason = freed_too_little verb_release (pos 3) 64 }

-- The drawing service holds a claim, the llm is cooling down, and an action on the batch service is
-- in flight.
abbrev resting : State
resting = record start {
  claims = ("draw", draw_claim) ∷ [];
  cooldowns = ("llm", rest) ∷ [];
  inflight = ("batch", tt) ∷ [];
}

resting-IsValid : IsValid house resting
unfolding lookup service
resting-IsValid = record {
  claims_unique = (refl, tt);
  cooldowns_unique = (refl, tt);
  inflight_unique = (refl, tt);
  own_names = (refl, tt);
  configured = (refl, tt);
}

llm_rests : lookup "llm" resting.cooldowns ≡ some rest
unfolding lookup
llm_rests = refl

batch_acts : lookup "batch" resting.inflight ≡ some tt
unfolding lookup
batch_acts = refl

tick_spares_cooling_example : All (λ a. a.service ≢ "llm") (tick world keeper resting).0.actions
tick_spares_cooling_example =
    tick_spares_cooling world keeper resting "llm" rest resting-IsValid llm_rests (omega arith)

tick_spares_busy_example : All (λ a. a.service ≢ "batch") (tick world keeper resting).0.actions
tick_spares_busy_example = tick_spares_busy world keeper resting "batch" tt batch_acts

abbrev llm_plan : Plan
llm_plan = record (new_plan trigger_evict) {
  actions = release_for draw_up llm_up verb_release has_release_api ∷ [];
}

llm_plan_longest : longest_action house llm_plan ≡ pos (35 * second)
unfolding longest_action longest_of_actions action_bound service add_int64
llm_plan_longest = refl

-- Sockets at which nothing listens.
abbrev silent : Peer
silent = record {
  dial_err = some "ENOENT";
  write_err = none;
  first = λ wait. record { chunks = []; fault = eof };
  second = λ wait. record { chunks = []; fault = eof };
}

abbrev unreached : Sockets
unreached = record {
  socket_override = "";
  runtime_dir = "";
  peer = λ path req. silent;
  encode_err = λ req. none;
  decode = λ line. done okay;
  remaining = none;
}

conn_budget_outlasts_example :
    (plan_time unreached (announcement house llm_plan) ≡ pos (35 * second + client_slack))
    × AtMost (pos (35 * second + client_slack + 60 * second)) (conn_budget house)
conn_budget_outlasts_example =
    conn_budget_outlasts unreached house llm_plan (35 * second) llm_plan_longest (omega arith)

-- A release that freed nothing.
abbrev idle_release : ActionResult
idle_release = record {
  service = "llm";
  verb = verb_release;
  reason = explicitly_evicted has_release_api;
  acted = true;
  detail = "";
  error = "";
  free_before_mib = some 4000;
  free_after_mib = some 4000;
}

record_effect-verdict_example :
    lookup "llm" (record_effect house.policy 100 idle_release start).1.cooldowns ≡ (
      if "llm" == "llm"
      then verdict 64 100 (60 * second) idle_release (lookup "llm" start.cooldowns)
      else lookup "llm" start.cooldowns)
record_effect-verdict_example =
    record_effect-verdict house.policy (60 * second) 100 idle_release start "llm" refl (omega arith)
      (omega arith) (omega arith)

abbrev rehearse : Request
rehearse = record ask { op = op_evict; dry_run = true }

dry_run-ReadOnly_example :
    Added ReadOnly start.calls (handle world keeper rehearse true start).1.calls
dry_run-ReadOnly_example = dry_run-ReadOnly world keeper rehearse true start refl
