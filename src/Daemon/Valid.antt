-- ===== src/Daemon/Valid.antt =====
-- What always holds of the daemon's tables.
use gpu_bouncer.Base.{
  ℕ, ◌≡◌, String, ◌==◌, Bool, true, not, ◌&&◌, ◌||◌, List, Bool-cases, Option-cases, inl, inr,
}
use gpu_bouncer.Base.Dict.{
  Dict, lookup, insert, delete, Entries, Entries-insert, Entries-delete, Unique, Unique-insert,
  Unique-delete,
}
use gpu_bouncer.Base.Int.{leb_ℤ, to_int64}
use gpu_bouncer.Config.Types.{Config, Policy}
use gpu_bouncer.Scheduler.Types.{Claim, Plan, no_actions, Verb, verb_release, verb_stop, verb_other}
use gpu_bouncer.Observe.{Env, Trace}
use gpu_bouncer.Ipc.{Request, ActionResult, Response}
use gpu_bouncer.Daemon.State.{Daemon, State, acquire, record_effect, measured, gain, Cooldown}
use gpu_bouncer.Daemon.Execute.{announce, run_verb}
use gpu_bouncer.Daemon.Reports.{is_configured}
use gpu_bouncer.Daemon.Steps.{IsPreorder}

-- Each table has a name once; a claim stands under its own service's name, which is configured.
pub record IsValid (cfg : Config) (s : State) : Type 0 where
  pub claims_unique : Unique s.claims
  pub cooldowns_unique : Unique s.cooldowns
  pub inflight_unique : Unique s.inflight
  pub own_names : Entries (λ name c. c.service ≡ name) s.claims
  pub configured : Entries (λ name c. is_configured cfg name ≡ true) s.claims

module _ (cfg : Config) where
  abbrev pub Stays : State → State → Type 0
  Stays s t = IsValid cfg s → IsValid cfg t

  pub with_cooldowns :
      (s : State) (m : Dict Cooldown) → Unique m → Stays s (record s { cooldowns = m })
  with_cooldowns s m u v = record {
    claims_unique = v.claims_unique;
    cooldowns_unique = u;
    inflight_unique = v.inflight_unique;
    own_names = v.own_names;
    configured = v.configured;
  }

  pub with_inflight :
      (s : State) (m : Dict (Unit {0})) → Unique m → Stays s (record s { inflight = m })
  with_inflight s m u v = record {
    claims_unique = v.claims_unique;
    cooldowns_unique = v.cooldowns_unique;
    inflight_unique = u;
    own_names = v.own_names;
    configured = v.configured;
  }

  -- The calls made and the replies sent do not matter.
  pub with_world :
      (s : State) (t : Trace) (r : List Response) → Stays s (record s { calls = t; sent = r })
  with_world s t r v = record {
    claims_unique = v.claims_unique;
    cooldowns_unique = v.cooldowns_unique;
    inflight_unique = v.inflight_unique;
    own_names = v.own_names;
    configured = v.configured;
  }

  pub with_claim :
      (s : State) (name : String) (c : Claim)
      → c.service ≡ name
      → is_configured cfg name ≡ true
      → Stays s (record s { claims = insert name c s.claims })
  with_claim s name c e k v = record {
    claims_unique = Unique-insert name c s.claims v.claims_unique;
    cooldowns_unique = v.cooldowns_unique;
    inflight_unique = v.inflight_unique;
    own_names = Entries-insert (λ n x. x.service ≡ n) name c s.claims e v.own_names;
    configured = Entries-insert (λ n x. is_configured cfg n ≡ true) name c s.claims k v.configured;
  }

  pub without_claim :
      (s : State) (name : String) → Stays s (record s { claims = delete name s.claims })
  without_claim s name v = record {
    claims_unique = Unique-delete name s.claims v.claims_unique;
    cooldowns_unique = v.cooldowns_unique;
    inflight_unique = v.inflight_unique;
    own_names = Entries-delete (λ n x. x.service ≡ n) name s.claims v.own_names;
    configured = Entries-delete (λ n x. is_configured cfg n ≡ true) name s.claims v.configured;
  }

  pub Stays-IsPreorder : IsPreorder Stays
  Stays-IsPreorder = record { rel_refl = λ s v. v; rel_trans = λ s t u f g v. g (f v) }

  pub record_effect-Stays :
      (policy : Policy) (now : ℕ) (r : ActionResult) (s : State)
      → Stays s (record_effect policy now r s).1
  unfolding record_effect
  record_effect-Stays policy now r s v =
      let known = measured r.free_before_mib r.free_after_mib in
      let gained = gain r.free_before_mib r.free_after_mib in
      elim (Bool-cases (r.error == "" && known && leb_ℤ (to_int64 policy.min_effect_mib) gained)) [
        | inl e ↦
            rw (e, record_effect)
              (with_cooldowns s _ (Unique-delete r.service s.cooldowns v.cooldowns_unique) v)
        | inr e ↦ elim (Bool-cases (r.error == "" && not known)) [
          | inl k ↦ rw (e, k, record_effect) v
          | inr k ↦
              rw (e, k, record_effect)
                (with_cooldowns s _ (Unique-insert r.service _ s.cooldowns v.cooldowns_unique) v)
        ]
      ]

  pub acquire-Stays : (name : String) (s : State) → Stays s (acquire name s).1
  unfolding acquire
  acquire-Stays name s v = elim (Option-cases (lookup name s.inflight)) [
    | inl e ↦
        rw (e, acquire) (with_inflight s _ (Unique-insert name tt s.inflight v.inflight_unique) v)
    | inr (x, e) ↦ rw (e, acquire) v
  ]

  pub announce-Stays :
      (req : Request) (can_send : Bool) (plan : Plan) (s : State)
      → Stays s (announce cfg req can_send plan s).1
  unfolding announce
  announce-Stays req can_send plan s v =
      elim (Bool-cases (not can_send || not req.plan_first || no_actions plan.actions)) [
        | inl e ↦ rw (e, announce) v
        | inr e ↦ rw (e, announce) (with_world s s.calls _ v)
      ]

  pub run_verb-Stays :
      (env : Env) (d : Daemon) (name : String) (v : Verb) (s : State)
      → Stays s (run_verb env d name v s).1
  unfolding run_verb
  run_verb-Stays env d name verb_release s v = with_world s _ s.sent v
  run_verb-Stays env d name verb_stop s v = with_world s _ s.sent v
  run_verb-Stays env d name (verb_other text) s v = v
