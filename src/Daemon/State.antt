-- ===== src/Daemon/State.antt =====
-- internal/daemon/daemon.go: the daemon's state, and the operations on its tables. Each holds the
-- mutex for all of its work, so it is one step on the state.
use gpu_bouncer.Base.{
  ℕ, ◌+◌, ◌-◌, String, ◌==◌, str_lt, Bool, true, false, not, ◌&&◌, Option, none, some, List, [],
  map, ltb, eqb, if◌then◌else◌,
}
use gpu_bouncer.Base.Int.{ℤ, pos_part, neg_part, leb_ℤ, to_int64, sub_int64}
use gpu_bouncer.Base.Dict.{Dict, lookup, insert, delete, keep_if}
use gpu_bouncer.Base.Sort.{sort_stable}
use gpu_bouncer.Config.Types.{Config, Policy}
use gpu_bouncer.Scheduler.Types.{ServiceState, Claim, Observation}
use gpu_bouncer.Observe.{Trace, Env, Observer, observe}
use gpu_bouncer.Ipc.{
  ActionResult, CooldownReason, freed_too_little, failed, CooldownReport, Response,
}

pub record Cooldown : Type 0 where
  pub until : ℕ
  pub reason : CooldownReason

-- What is fixed when the daemon starts.
pub record Daemon : Type 0 where
  pub cfg : Config
  pub observer : Observer
  pub dry_run : Bool

-- What changes: the tables, the calls made so far, and the preliminary replies sent.
pub record State : Type 0 where
  pub claims : Dict Claim
  pub cooldowns : Dict Cooldown
  pub inflight : Dict (Unit {0})
  pub calls : Trace
  pub sent : List Response

-- The tables of `New`.
abbrev pub start : State
start = record { claims = []; cooldowns = []; inflight = []; calls = []; sent = [] }

abbrev pub M : Type 0 → Type 0
M A = State → A × State

infixl 5 ◌>>=◌ ◌>>◌
abbrev pub ◌>>=◌ : {A B : Type 0} → M A → (A → M B) → M B
◌>>=◌ m f s = let (a, s') = m s in f a s'

abbrev pub ◌>>◌ : {B : Type 0} → M (Unit {0}) → M B → M B
m >> k = m >>= λ _. k

abbrev pub pure : {A : Type 0} → A → M A
pure a s = (a, s)

-- An operation on the world outside.
abbrev pub outside : {A : Type 0} → (Trace → A × Trace) → M A
outside f s = let (a, t) = f s.calls in (a, record s { calls = t })

abbrev pub mark_busy : Dict (Unit {0}) → ServiceState → ServiceState
mark_busy inflight s = elim (lookup s.name inflight) [
  | none ↦ s
  | some _ ↦ record s { action_in_flight = true }
]

-- `applyInflight`
unfoldable pub apply_inflight : Dict (Unit {0}) → Observation → Observation
apply_inflight inflight obs = record obs { services = map (mark_busy inflight) obs.services }

unfoldable pub acquire : String → M Bool
acquire service s = elim (lookup service s.inflight) [
  | some _ ↦ (false, s)
  | none ↦ (true, record s { inflight = insert service tt s.inflight })
]

unfoldable pub release_slot : String → M (Unit {0})
release_slot service s = (tt, record s { inflight = delete service s.inflight })

abbrev pub mark_cooling : Dict Cooldown → ServiceState → ServiceState
mark_cooling cooldowns s = elim (lookup s.name cooldowns) [
  | none ↦ s
  | some c ↦ record s { cooldown_until = c.until }
]

-- `applyCooldowns` at the time `now`: a cooldown ends at exactly its recorded time.
unfoldable pub apply_cooldowns : ℕ → Observation → M Observation
apply_cooldowns now obs s =
    let cooling = keep_if (λ c. ltb now c.until) s.cooldowns in
    (
      record obs { services = map (mark_cooling cooling) obs.services },
      record s { cooldowns = cooling },
    )

-- A time and a duration.
abbrev pub add_time : ℕ → ℤ → ℕ
add_time t d = t + pos_part d - neg_part d

-- The gain that was measured, 0 if a reading failed.
abbrev pub measured : Option ℕ → Option ℕ → Bool
measured (some before) (some after) = true
measured _ _ = false

abbrev pub gain : Option ℕ → Option ℕ → ℤ
gain (some before) (some after) = sub_int64 (to_int64 after) (to_int64 before)
gain _ _ = ℤ.pos 0

-- `recordEffect` at the time `now`.
unfoldable pub record_effect : Policy → ℕ → ActionResult → M (Unit {0})
record_effect policy now r s =
    let known = measured r.free_before_mib r.free_after_mib in
    let gained = gain r.free_before_mib r.free_after_mib in
    if r.error == "" && known && leb_ℤ (to_int64 policy.min_effect_mib) gained
    then (tt, record s { cooldowns = delete r.service s.cooldowns })
    else if r.error == "" && not known
    then (tt, s)
    else (
      tt,
      record s {
        cooldowns =
            insert r.service
              (record {
                until = add_time now policy.action_cooldown;
                reason =
                    if not (r.error == "")
                    then failed r.verb r.error
                    else freed_too_little r.verb gained policy.min_effect_mib;
              })
              s.cooldowns;
      },
    )

-- `snapshotClaims`: the oldest claim first.
unfoldable pub claim_before : Claim → Claim → Bool
claim_before a b = if not (eqb a.at b.at) then ltb a.at b.at else str_lt a.service b.service

unfoldable pub snapshot_claims : Dict Claim → List Claim
snapshot_claims claims = sort_stable claim_before (map (λ e. e.1) claims)

abbrev pub report_cooldown : String × Cooldown → CooldownReport
report_cooldown (name, c) = record { service = name; until = c.until; reason = c.reason }

abbrev pub cooldown_before : CooldownReport → CooldownReport → Bool
cooldown_before a b = str_lt a.service b.service

-- `snapshotCooldowns` at the time `now`
unfoldable pub snapshot_cooldowns : ℕ → Dict Cooldown → List CooldownReport
snapshot_cooldowns now cooldowns =
    sort_stable cooldown_before (map report_cooldown (keep_if (λ c. ltb now c.until) cooldowns))

-- `observation`: what the world shows, with the current claims and the slots in use.
unfoldable pub observation : Env → Daemon → M Observation
observation env d s =
    let (obs, t) = observe env d.observer s.calls in
    (
      apply_inflight s.inflight (record obs { claims = snapshot_claims s.claims }),
      record s { calls = t },
    )
