-- ===== src/Tests/Overlap.antt =====
-- Two plans that release the same service at once, for the examples.
use gpu_bouncer.Base.{All, ℕ, zero, suc, ◌≤◌, ◌≡◌, refl, String, none, List, [], ◌∷◌, arith}
use gpu_bouncer.Base.Dict.{lookup}
use gpu_bouncer.Scheduler.Types.{Action, verb_release, explicitly_evicted, has_release_api}
use gpu_bouncer.Daemon.State.{start}
use gpu_bouncer.Daemon.Overlap.{Job, new_job, Runs, at_start, then_step, starts}
use gpu_bouncer.Daemon.Overlap.Slots.{holders, taken, Runs-IsGuarded}
use gpu_bouncer.Daemon.Overlap.Fair.{IsFinished, run_schedule, rank_at, turns, run_schedule_frees}
use gpu_bouncer.Tests.{world, keeper}

abbrev release_llm : Action
release_llm = record {
  service = "llm";
  verb = verb_release;
  reason = explicitly_evicted has_release_api;
  expect_free_mib = 8000;
}

abbrev both_jobs : List Job
both_jobs = new_job release_llm ∷ new_job release_llm ∷ []

both_started : Runs world keeper start both_jobs start
both_started =
    then_step [] both_jobs start start at_start (starts (release_llm ∷ release_llm ∷ []) [] start)

nothing_taken : (n : String) → lookup n start.inflight ≡ none
unfolding lookup
nothing_taken n = refl

abbrev in_turn : List ℕ
in_turn = 0 ∷ 1 ∷ 0 ∷ 1 ∷ 0 ∷ 1 ∷ 0 ∷ 1 ∷ 0 ∷ 1 ∷ 0 ∷ 1 ∷ []

in_turn_fair : (k : ℕ) → rank_at k both_jobs ≤ turns k in_turn
in_turn_fair zero = omega arith
in_turn_fair (suc zero) = omega arith
in_turn_fair (suc (suc k)) = omega arith

Runs-IsGuarded_example :
    (holders "llm" both_jobs ≡ taken "llm" start.inflight) × (holders "llm" both_jobs ≤ 1)
Runs-IsGuarded_example =
    Runs-IsGuarded world keeper start start both_jobs "llm" nothing_taken both_started

run_schedule_frees_example :
    All (λ (j : Job). IsFinished j.phase) (run_schedule world keeper in_turn both_jobs start).0
    × (taken "llm" (run_schedule world keeper in_turn both_jobs start).1.inflight ≡ 0)
run_schedule_frees_example =
    run_schedule_frees world keeper start start both_jobs in_turn "llm" nothing_taken both_started
      in_turn_fair
