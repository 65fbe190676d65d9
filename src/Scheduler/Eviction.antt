-- ===== src/Scheduler/Eviction.antt =====
-- internal/scheduler/scheduler.go: which services may be freed for a beneficiary, in which order,
-- and by which verb.
pub mod Eligible
pub mod Order
pub mod Verbs
use gpu_bouncer.Base.{
  ℕ, String, ◌==◌, str_lt, Bool, true, false, not, ◌&&◌, Option, none, some, List, [], ◌∷◌, ltb,
  eqb, if◌then◌else◌,
}
use gpu_bouncer.Base.Int.{ℤ, ltb_ℤ, leb_ℤ, eqb_ℤ}
use gpu_bouncer.Base.Sort.{sort_stable}
use gpu_bouncer.Scheduler.Types.{
  Verb, verb_release, verb_stop, ServiceState, VerbReason, busy, has_release_api, stop_permitted,
  stop_forbidden, no_way, Note, probe_failed, not_running, priority_not_below, holds_nothing,
  cooling_down, in_flight,
}

-- What the loop of `evictionCandidates` does with one service.
pub data Verdict : Type 0 where
  itself : Verdict
  passed_over : Note → Verdict
  candidate : Verdict

unfoldable pub judge : ServiceState → ServiceState → Verdict
judge beneficiary s =
    if s.name == beneficiary.name
    then itself
    else if not (s.probe_err == "")
    then passed_over (probe_failed s.name s.probe_err)
    else if not s.up
    then passed_over (not_running s.name)
    else if leb_ℤ beneficiary.priority s.priority
    then passed_over (priority_not_below s.name s.priority beneficiary.name beneficiary.priority)
    else if eqb s.held_mib 0
    then passed_over (holds_nothing s.name)
    else if not (eqb s.cooldown_until 0)
    then passed_over (cooling_down s.name s.cooldown_until)
    else if s.action_in_flight
    then passed_over (in_flight s.name)
    else candidate

-- The candidates and the notes of the loop, both in the order of the services.
unfoldable pub eligible : ServiceState → List ServiceState → List ServiceState
eligible beneficiary [] = []
eligible beneficiary (s ∷ ss) =
    let rest = eligible beneficiary ss in
    elim (judge beneficiary s) [ candidate ↦ s ∷ rest | _ ↦ rest ]

unfoldable pub passed_over_notes : ServiceState → List ServiceState → List Note
passed_over_notes beneficiary [] = []
passed_over_notes beneficiary (s ∷ ss) =
    let rest = passed_over_notes beneficiary ss in
    elim (judge beneficiary s) [ passed_over note ↦ note ∷ rest | _ ↦ rest ]

-- The comparison of `evictionCandidates`.
unfoldable pub freed_before : ServiceState → ServiceState → Bool
freed_before a b =
    if not (eqb_ℤ a.priority b.priority)
    then ltb_ℤ a.priority b.priority
    else if not (eqb a.held_mib b.held_mib)
    then ltb b.held_mib a.held_mib
    else str_lt a.name b.name

unfoldable pub eviction_candidates :
    List ServiceState → ServiceState → List ServiceState × List Note
eviction_candidates services beneficiary = (
  sort_stable freed_before (eligible beneficiary services),
  passed_over_notes beneficiary services,
)

-- The three results of `chooseVerb`: a verb and its reason, or the reason why there is none.
pub data Choice : Type 0 where
  chosen : Verb → VerbReason → Choice
  refused : VerbReason → Choice

unfoldable pub choose_verb : ServiceState → Choice
choose_verb s =
    if s.idle_known && not s.idle
    then refused busy
    else if s.can_release
    then chosen verb_release has_release_api
    else if s.stop_unit && s.allow_stop
    then chosen verb_stop stop_permitted
    else if s.stop_unit && not s.allow_stop
    then refused stop_forbidden
    else refused no_way
