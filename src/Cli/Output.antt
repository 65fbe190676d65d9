-- ===== src/Cli/Output.antt =====
-- internal/cli/output.go, internal/cli/version.go and the printing of internal/cli/commands.go: the
-- figures and lines that a command shows. The texts of verbs, triggers, reasons, notes, messages and
-- errors, which the model keeps as constructors, are those of `Texts`.
use gpu_bouncer.Base.{
  ℕ, suc, ◌-◌, String, ◌==◌, Bool, true, false, not, ◌&&◌, ◌||◌, Option, none, some, List, [], ◌∷◌,
  ◌++◌, map, ltb, leb, if◌then◌else◌, append_text, decimal, join,
}
use gpu_bouncer.Base.Int.{ℤ, pos, negsuc, to_int64, sub_int64}
use gpu_bouncer.Scheduler.Types.{
  Verb, Trigger, trigger_none, Reason, Action, Note, Plan, new_plan, no_actions, expected_free_mib,
}
use gpu_bouncer.Ipc.{GpuReport, ActionResult, Message, Response}

pub record Texts : Type 0 where
  pub trigger : Trigger → String
  pub verb : Verb → String
  pub reason : Reason → String
  pub note : Note → String
  pub message : Message → String

abbrev pub texts : List String → String
texts [] = ""
texts (s ∷ ss) = append_text s (texts ss)

-- `mib` and `mibOrUnknown`
pub mib : ℕ → String
mib v = append_text (decimal v) " MiB"

pub mib_or_unknown : Option ℕ → String
mib_or_unknown none = "unknown"
mib_or_unknown (some v) = mib v

-- `planOf`
unfoldable pub plan_of : Option Plan → Plan
plan_of none = new_plan trigger_none
plan_of (some plan) = plan

abbrev reading_of : Plan → Option ℕ
reading_of plan = if ltb 0 plan.total_mib then some plan.current_free_mib else none

-- `planFreeAfter`: the reading behind the plan, or the plan's own where nothing ran.
unfoldable pub plan_free_after : Option ℕ → List ActionResult → Option Plan → Option ℕ
plan_free_after (some free) executed plan = some free
plan_free_after none (r ∷ rs) plan = none
plan_free_after none [] plan = reading_of (plan_of plan)

-- What `shortfallLine` says, and whether it adds that the target was not met.
pub data Shortfall : Type 0 where
  already_free : (target : ℕ) → Shortfall
  freed_unknown : (asked : ℕ) (not_met : Bool) → Shortfall
  freed_of : (freed asked : ℕ) (not_met : Bool) → Shortfall

abbrev is_unmet : Option Bool → Bool
is_unmet none = false
is_unmet (some met) = not met

abbrev last_after : ActionResult → List ActionResult → Option ℕ
last_after r [] = r.free_after_mib
last_after r (q ∷ qs) = last_after q qs

abbrev or_last : Option ℕ → Option ℕ → Option ℕ
or_last none last = last
or_last (some v) last = some v

abbrev between : Option ℕ → Option ℕ → Option ℕ
between (some first) (some last) = if ltb first last then some (last - first) else some 0
between _ _ = none

-- How much the actions freed, if it was measured.
unfoldable pub freed_by : Option ℕ → List ActionResult → Option ℕ
freed_by after [] = some 0
freed_by after (r ∷ rs) = between r.free_before_mib (or_last after (last_after r rs))

abbrev shortfall_from : ℕ → Bool → Option ℕ → Shortfall
shortfall_from asked not_met none = freed_unknown asked not_met
shortfall_from asked not_met (some freed) = freed_of freed asked not_met

unfoldable pub shortfall : Response → Shortfall
shortfall resp =
    let plan = plan_of resp.plan in
    if leb plan.target_free_mib plan.current_free_mib
    then already_free plan.target_free_mib
    else shortfall_from (plan.target_free_mib - plan.current_free_mib) (is_unmet resp.target_met)
        (freed_by resp.free_after_mib resp.executed)

abbrev unmet_text : Bool → String
unmet_text true = ", target not met"
unmet_text false = ""

pub shortfall_line : Shortfall → String
shortfall_line (already_free target) =
    texts ("the " ∷ mib target ∷ " asked for were already free" ∷ [])
shortfall_line (freed_unknown asked not_met) = texts (
    "how much of the "
    ∷ mib asked
    ∷ " asked for was freed is not known: the GPU could not be read"
    ∷ unmet_text not_met
    ∷ [])
shortfall_line (freed_of freed asked not_met) =
    texts ("freed " ∷ mib freed ∷ " of the " ∷ mib asked ∷ " asked for" ∷ unmet_text not_met ∷ [])

-- `resolveVersion`: `recorded` is the module version of the build, if there is one.
unfoldable pub resolve_version : String → Option String → String
resolve_version ldflag recorded =
    if not (ldflag == "") && not (ldflag == "dev") then ldflag else elim recorded [
      | none ↦ "dev"
      | some v ↦ if not (v == "") && not (v == "(devel)") then v else "dev"
    ]

abbrev pub print_ℤ : ℤ → String
print_ℤ (pos n) = decimal n
print_ℤ (negsuc n) = append_text "-" (decimal (suc n))

abbrev named_part : String → String → List String
named_part label text = if not (text == "") then (append_text label text ∷ []) else []

abbrev in_brackets : List String → String
in_brackets [] = ""
in_brackets (p ∷ ps) = texts ("  (" ∷ join (p ∷ ps) ∷ ")" ∷ [])

-- `gpuHeading`
pub gpu_heading : GpuReport → String
gpu_heading g = texts (
    "GPU "
    ∷ print_ℤ g.index
    ∷ "  "
    ∷ g.name
    ∷ in_brackets (named_part "PCI " g.bus_id ++ named_part "vendor " g.vendor)
    ∷ [])

module _ (t : Texts) where
  abbrev action_lines : ℕ → List Action → List String
  action_lines i [] = []
  action_lines i (a ∷ more) =
      texts (
        "  "
        ∷ decimal i
        ∷ ". "
        ∷ t.verb a.verb
        ∷ " "
        ∷ a.service
        ∷ "  (expects to free "
        ∷ mib a.expect_free_mib
        ∷ ")"
        ∷ [])
      ∷ texts ("     because " ∷ t.reason a.reason ∷ [])
      ∷ action_lines (suc i) more

  abbrev trigger_line : Plan → String
  trigger_line plan = texts (
      "Trigger: "
      ∷ t.trigger plan.trigger
      ∷ (if not (plan.beneficiary == "")
          then texts (" (for " ∷ plan.beneficiary ∷ ")" ∷ [])
          else "")
      ∷ [])

  abbrev free_line : Plan → String
  free_line plan =
      if ltb 0 plan.target_free_mib
      then texts (
          "Free VRAM: "
          ∷ mib plan.current_free_mib
          ∷ " now, target "
          ∷ mib plan.target_free_mib
          ∷ [])
      else texts ("Free VRAM: " ∷ mib plan.current_free_mib ∷ [])

  abbrev plan_lines : Plan → List String
  plan_lines plan =
      if no_actions plan.actions
      then ("No action." ∷ [])
      else ("Would do, in order:" ∷ action_lines 1 plan.actions
          ++ ""
            ∷ texts ("Expected free VRAM afterwards: " ∷ mib (expected_free_mib plan) ∷ [])
            ∷ [])

  abbrev note_line : Note → String
  note_line n = texts ("  - " ∷ t.note n ∷ [])

  abbrev note_lines : Bool → Plan → List Note → List String
  note_lines verbose plan [] = []
  note_lines verbose plan (n ∷ ns) =
      if verbose || no_actions plan.actions then ("" ∷ "Notes:" ∷ map note_line (n ∷ ns)) else []

  -- `printPlan`, a line for each.
  unfoldable pub print_plan : Plan → String → Bool → List String
  print_plan plan origin verbose =
      trigger_line plan ∷ free_line plan ∷ "" ∷ plan_lines plan
      ++ note_lines verbose plan plan.notes
      ++ "" ∷ texts ("Source: " ∷ origin ∷ []) ∷ []

  abbrev outcome_word : ActionResult → String
  outcome_word r =
      if not (r.error == "") then "failed" else if r.acted then "acted" else "no change"

  -- `%+d`
  abbrev signed : ℤ → String
  signed (pos n) = append_text "+" (decimal n)
  signed (negsuc n) = append_text "-" (decimal (suc n))

  abbrev change_text : Option ℕ → Option ℕ → String
  change_text (some before) (some after) = texts (
      mib before
      ∷ " to "
      ∷ mib after
      ∷ " ("
      ∷ signed (sub_int64 (to_int64 after) (to_int64 before))
      ∷ " MiB)"
      ∷ [])
  change_text before after = texts (mib_or_unknown before ∷ " to " ∷ mib_or_unknown after ∷ [])

  abbrev result_lines : List ActionResult → List String
  result_lines [] = []
  result_lines (r ∷ rs) =
      texts (
          "  "
          ∷ t.verb r.verb
          ∷ " "
          ∷ r.service
          ∷ ": "
          ∷ outcome_word r
          ∷ ", free VRAM "
          ∷ change_text r.free_before_mib r.free_after_mib
          ∷ [])
        ∷ named_part "    " r.detail
      ++ named_part "    error: " r.error
      ++ result_lines rs

  abbrev message_lines : Option Message → List String
  message_lines none = []
  message_lines (some m) = t.message m ∷ []

  abbrev shown_plan : Bool → Option Plan → List ActionResult → List String
  shown_plan verbose none executed = []
  shown_plan verbose (some plan) [] = print_plan plan "the running daemon" verbose ++ "" ∷ []
  shown_plan verbose (some plan) (r ∷ rs) =
      if verbose then (print_plan plan "the running daemon" verbose ++ "" ∷ []) else []

  abbrev done_lines : List ActionResult → List String
  done_lines [] = []
  done_lines (r ∷ rs) = "Done:" ∷ result_lines (r ∷ rs)

  -- `printOutcome`, a line for each.
  unfoldable pub print_outcome : Response → Bool → List String
  print_outcome resp verbose =
      message_lines resp.message
      ++ shown_plan verbose resp.plan resp.executed
      ++ done_lines resp.executed
