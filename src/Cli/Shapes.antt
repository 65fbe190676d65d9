-- ===== src/Cli/Shapes.antt =====
-- internal/cli/output.go: what --json prints of a daemon's reply.
use gpu_bouncer.Base.{ℕ, Bool, Option, none, List}
use gpu_bouncer.Scheduler.Types.{Plan}
use gpu_bouncer.Ipc.{Op, op_request, op_release, ActionResult, Message, Refusal, Response}
use gpu_bouncer.Cli.Output.{plan_of, plan_free_after}

-- `actionOutput` and `releaseOutput`, where a list is never absent.
pub record ActionOutput : Type 0 where
  pub ok : Bool
  pub error : Option Refusal
  pub message : Option Message
  pub plan : Plan
  pub executed : List ActionResult
  pub free_after_mib : Option ℕ
  pub target_met : Option Bool

pub data CommandOutput : Type 0 where
  action_output : ActionOutput → CommandOutput
  release_output : (ok : Bool) → Option Message → CommandOutput

abbrev met_of : Op → Option Bool → Option Bool
met_of op_request met = met
met_of _ met = none

abbrev action_output_of : Op → Response → ActionOutput
action_output_of op r = record {
  ok = r.ok;
  error = r.error;
  message = r.message;
  plan = plan_of r.plan;
  executed = r.executed;
  free_after_mib = plan_free_after r.free_after_mib r.executed r.plan;
  target_met = met_of op r.target_met;
}

-- `outputOf`
unfoldable pub output_of : Op → Response → CommandOutput
output_of op_release r = release_output r.ok r.message
output_of op r = action_output (action_output_of op r)
