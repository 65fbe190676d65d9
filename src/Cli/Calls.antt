-- ===== src/Cli/Calls.antt =====
-- internal/cli/cli.go and the commands of internal/cli/commands.go that ask the daemon: the request a
-- command line makes, and the exit code it comes to. What is printed is in `Output`.
pub mod Codes
use gpu_bouncer.Base.{
  ℕ, zero, suc, ◌+◌, String, ◌==◌, Bool, true, false, not, ◌&&◌, ◌||◌, Option, none, some, List, [],
  ◌∷◌, length, ltb, eqb, if◌then◌else◌, Result, done, failed,
}
use gpu_bouncer.Ipc.{Op, op_request, op_release, op_evict, Request, ActionResult, Refusal, Response}
use gpu_bouncer.Ipc.Client.{ExchangeFault, no_daemon, daemon_failed}
use gpu_bouncer.Cli.Flags.{FlagFault, help_wanted}

-- `globals`, with the flags of `request` and `evict`.
pub record Globals : Type 0 where
  pub as_json : Bool
  pub verbose : Bool
  pub dry_run : Bool

-- The texts of a command's error. `exit_with` is `exitCode`, and `misuse` a `usageError`.
pub data CommandFault : Type 0 where
  bad_flags : FlagFault → CommandFault
  needs_service : (command : String) → CommandFault
  one_service_only : (command : String) (count : ℕ) → CommandFault
  takes_no_arguments : (command first : String) → CommandFault
  service_or_all_except : CommandFault
  start_a_daemon : ExchangeFault → CommandFault
  daemon_unanswering : ExchangeFault → CommandFault
  refused : Refusal → CommandFault
  exit_with : ℕ → CommandFault
  not_written : (cause : String) → CommandFault
  cancelled : CommandFault
  misuse : (text : String) → CommandFault

unfoldable pub one_service : List String → String → Result CommandFault String
one_service [] command = failed (needs_service command)
one_service (s ∷ []) command = done s
one_service (s ∷ t ∷ ts) command = failed (one_service_only command (length (s ∷ t ∷ ts)))

-- `noPositionals`, behind the parse.
unfoldable pub no_positionals : List String → String → Option CommandFault
no_positionals [] command = none
no_positionals (p ∷ ps) command = some (takes_no_arguments command p)

abbrev plain_request : Op → Globals → String → Request
plain_request op g service = record {
  op = op;
  service = service;
  need_mib = 0;
  all_except = false;
  dry_run = g.dry_run;
  plan_first = false;
}

abbrev asked_for : ℕ → Globals → Result CommandFault String → Result CommandFault Request
asked_for need g (failed e) = failed e
asked_for need g (done service) =
    done (record (plain_request op_request g service) { need_mib = need })

-- `runRequest`, up to the call.
unfoldable pub request_of : ℕ → Globals → List String → Result CommandFault Request
request_of need g args = asked_for need g (one_service args "request")

abbrev asked_with : Op → Globals → Result CommandFault String → Result CommandFault Request
asked_with op g (failed e) = failed e
asked_with op g (done service) = done (plain_request op g service)

-- `runReleaseClaim`
unfoldable pub release_of : Globals → List String → Result CommandFault Request
release_of g args = asked_with op_release g (one_service args "release")

abbrev is_nil : List String → Bool
is_nil [] = true
is_nil (s ∷ ss) = false

-- `runEvict`
unfoldable pub evict_of : String → Globals → List String → Result CommandFault Request
evict_of all_except g args =
    if not (all_except == "") && not (is_nil args)
    then failed service_or_all_except
    else if not (all_except == "")
    then done (record (plain_request op_evict g all_except) { all_except = true })
    else asked_with op_evict g (one_service args "evict")

-- The count of the actions that failed.
unfoldable pub failed_count : List ActionResult → ℕ
failed_count [] = 0
failed_count (r ∷ rs) = let more = failed_count rs in if not (r.error == "") then suc more else more

-- What `callDaemon` shows: the response, and how many of its actions failed.
pub record Shown : Type 0 where
  pub response : Response
  pub failed_actions : ℕ

abbrev call_fault : ExchangeFault → CommandFault
call_fault (no_daemon tried last) = start_a_daemon (no_daemon tried last)
call_fault (daemon_failed e) = daemon_unanswering (daemon_failed e)

-- `writeJSON` may fail, which is the command's failure then. What printing text returns is ignored.
module _ (as_json : Bool) (write_json : Shown → Option String) where
  abbrev pub write_fault : Shown → Option String
  write_fault shown = if as_json then write_json shown else none

  abbrev pub unless_unwritten :
      Option CommandFault → Shown → Option String → Option CommandFault × Option Shown
  unless_unwritten fault shown (some e) = (some (not_written e), none)
  unless_unwritten fault shown none = (fault, some shown)

  abbrev pub some_failed : Response → ℕ → Shown
  some_failed resp failing = record {
    response = record resp { ok = false };
    failed_actions = failing;
  }

  abbrev pub all_well : Response → Shown
  all_well resp = record { response = resp; failed_actions = 0 }

  -- An action that failed is a failed command.
  abbrev pub shown_with : Response → ℕ → Option CommandFault × Option Shown
  shown_with resp failing =
      if ltb 0 failing
      then unless_unwritten (some (exit_with 1)) (some_failed resp failing)
          (write_fault (some_failed resp failing))
      else unless_unwritten none (all_well resp) (write_fault (all_well resp))

  abbrev pub answered_with : Response → Option Refusal → Option CommandFault × Option Shown
  answered_with resp (some e) = (some (refused e), none)
  answered_with resp none = shown_with resp (failed_count resp.executed)

  abbrev pub called : Result ExchangeFault Response → Option CommandFault × Option Shown
  called (failed e) = (some (call_fault e), none)
  called (done resp) = answered_with resp resp.error

  module _ (exchange : Request → Result ExchangeFault Response) where
    -- `callDaemon`
    unfoldable pub call_daemon : Request → Option CommandFault × Option Shown
    call_daemon req = called (exchange (record req { plan_first = true }))

-- The end of `Main`: the exit code of what `dispatch` returned.
unfoldable pub exit_code_of : Option CommandFault → ℕ
exit_code_of none = 0
exit_code_of (some (bad_flags help_wanted)) = 0
exit_code_of (some cancelled) = 0
exit_code_of (some (exit_with code)) = code
exit_code_of (some (misuse text)) = 2
exit_code_of (some e) = 1
