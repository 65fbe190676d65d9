-- ===== src/Daemon/Effects.antt =====
-- internal/daemon/daemon.go, recordEffect: what an action's effect does to the cooldowns.
use gpu_bouncer.Base.{
  ℕ, ◌+◌, ◌<◌, ◌^◌, ◌≡◌, refl, ap, ◌∙◌, String, ◌==◌, not, Option, none, some, Bool-cases, inl, inr,
  arith, leb, if◌then◌else◌,
}
use gpu_bouncer.Base.Int.{pos, leb_ℤ, to_int64, sub_ℕ, sub_int64_small}
use gpu_bouncer.Base.Dict.{lookup, lookup-insert, lookup-delete}
use gpu_bouncer.Config.Types.{Policy}
use gpu_bouncer.Scheduler.Types.{Verb}
use gpu_bouncer.Ipc.{ActionResult, freed_too_little, failed}
use gpu_bouncer.Daemon.State.{Cooldown, State, record_effect, gain, measured, add_time}

-- A reading that an `int64` holds.
abbrev pub Fits : Option ℕ → Type 0
Fits none = Unit
Fits (some v) = v < 2 ^ 63

-- Two readings of the free memory, before and after: without both, things stay as they are; a growth
-- of at least the smallest effect ends the cooldown; and any other starts one.
abbrev pub judged : ℕ → ℕ → Verb → Option ℕ → Option ℕ → Option Cooldown → Option Cooldown
judged smallest until verb (some before) (some after) held =
    if leb (before + smallest) after
    then none
    else some
        (record { until = until; reason = freed_too_little verb (sub_ℕ after before) smallest })
judged smallest until verb (some before) none held = held
judged smallest until verb none after held = held

-- The verdict on an action that has ended at `now`: one that failed starts a cooldown, and one that
-- did not is judged by its readings.
abbrev pub verdict : ℕ → ℕ → ℕ → ActionResult → Option Cooldown → Option Cooldown
verdict smallest now cooldown r held =
    if r.error == ""
    then judged smallest (now + cooldown) r.verb r.free_before_mib r.free_after_mib held
    else some (record { until = now + cooldown; reason = failed r.verb r.error })

gain_small :
    (before after : ℕ)
    → before < 2 ^ 63
    → after < 2 ^ 63
    → gain (some before) (some after) ≡ sub_ℕ after before
gain_small before after h k = ground (arith, sub_int64_small after before k h)

enough_gain :
    (smallest before after : ℕ)
    → smallest < 2 ^ 63
    → leb_ℤ (to_int64 smallest) (sub_ℕ after before) ≡ leb (before + smallest) after
enough_gain smallest before after h = ground arith

-- The same judgement by the gain in `int64`.
abbrev by_gain : ℕ → ℕ → Verb → Option ℕ → Option ℕ → Option Cooldown → Option Cooldown
by_gain smallest until verb before after held =
    if not (measured before after)
    then held
    else if leb_ℤ (to_int64 smallest) (gain before after)
    then none
    else some
        (record { until = until; reason = freed_too_little verb (gain before after) smallest })

by_gain-judged :
    (smallest until : ℕ) (verb : Verb) (before after : Option ℕ) (held : Option Cooldown)
    → smallest < 2 ^ 63
    → Fits before
    → Fits after
    → by_gain smallest until verb before after held ≡ judged smallest until verb before after held
by_gain-judged smallest until verb none after held l h k = refl
by_gain-judged smallest until verb (some before) none held l h k = refl
by_gain-judged smallest until verb (some before) (some after) held l h k =
    rw (gain_small before after h k, enough_gain smallest before after l) refl

abbrev by_gain_verdict : Policy → ℕ → ActionResult → Option Cooldown → Option Cooldown
by_gain_verdict policy now r held =
    let until = add_time now policy.action_cooldown in
    if r.error == ""
    then by_gain policy.min_effect_mib until r.verb r.free_before_mib r.free_after_mib held
    else some (record { until = until; reason = failed r.verb r.error })

record_effect-by_gain :
    (policy : Policy) (now : ℕ) (r : ActionResult) (s : State) (j : String)
    → lookup j (record_effect policy now r s).1.cooldowns ≡ (
        if r.service == j
        then by_gain_verdict policy now r (lookup j s.cooldowns)
        else lookup j s.cooldowns)
unfolding record_effect
record_effect-by_gain policy now r s j =
    let worked = leb_ℤ (to_int64 policy.min_effect_mib) (gain r.free_before_mib r.free_after_mib) in
    elim (Bool-cases (r.error == "")) [
      | inr e ↦ rw (e, record_effect) (lookup-insert r.service j _ s.cooldowns)
      | inl e ↦ elim (Bool-cases (measured r.free_before_mib r.free_after_mib)) [
        | inr m ↦ rw (e, m, record_effect) (ground arith)
        | inl m ↦ elim (Bool-cases worked) [
          | inl w ↦ rw (e, m, w, record_effect) (lookup-delete r.service j s.cooldowns)
          | inr w ↦ rw (e, m, w, record_effect) (lookup-insert r.service j _ s.cooldowns)
        ]
      ]
    ]

-- After an action, if no figure is past an `int64`, the cooldown of its service is the verdict on the
-- action: a failure starts one, to end the configured time later; without both readings of the free
-- memory it stays; a growth of at least the smallest effect ends it; and any other starts one that
-- names the growth. The other services' cooldowns are as before.
pub record_effect-verdict :
    (policy : Policy) (cooldown now : ℕ) (r : ActionResult) (s : State) (j : String)
    → policy.action_cooldown ≡ pos cooldown
    → policy.min_effect_mib < 2 ^ 63
    → Fits r.free_before_mib
    → Fits r.free_after_mib
    → lookup j (record_effect policy now r s).1.cooldowns ≡ (
        if r.service == j
        then verdict policy.min_effect_mib now cooldown r (lookup j s.cooldowns)
        else lookup j s.cooldowns)
record_effect-verdict policy cooldown now r s j span small before after =
    let held = lookup j s.cooldowns in
    let until : add_time now policy.action_cooldown ≡ now + cooldown = rw span (omega arith) in
    let same : by_gain_verdict policy now r held
        ≡ verdict policy.min_effect_mib now cooldown r held =
      ap
        (λ u.
          if r.error == ""
          then by_gain policy.min_effect_mib u r.verb r.free_before_mib r.free_after_mib held
          else some (record { until = u; reason = failed r.verb r.error }))
        until
      ∙ ap
          (λ c.
            if r.error == ""
            then c
            else some (record { until = now + cooldown; reason = failed r.verb r.error }))
          (by_gain-judged policy.min_effect_mib (now + cooldown) r.verb r.free_before_mib
            r.free_after_mib held small before after) in
    record_effect-by_gain policy now r s j ∙ ap (λ c. if r.service == j then c else held) same
