-- ===== src/Scheduler/Eviction/Verbs.antt =====
-- What `chooseVerb` permits.
use gpu_bouncer.Base.{◌≡◌, true, false, arith}
use gpu_bouncer.Scheduler.Types.{
  ServiceState, Verb, verb_release, verb_stop, verb_other, VerbReason,
}
use gpu_bouncer.Scheduler.Eviction.{chosen, refused, choose_verb}

-- A release wants an API for it; a stop wants a unit, the permission, and that there is no such API.
abbrev pub Permits : ServiceState → Verb → Type 0
Permits s verb_release = s.can_release ≡ true
Permits s verb_stop = (s.can_release ≡ false) × (s.stop_unit ≡ true) × (s.allow_stop ≡ true)
Permits s (verb_other text) = ⊥

-- A service that says it is working is never chosen.
abbrev pub NotBusy : ServiceState → Type 0
NotBusy s = s.idle_known ≡ true → s.idle ≡ true

pub choose_verb-Permits :
    (s : ServiceState) (v : Verb) (r : VerbReason)
    → choose_verb s ≡ chosen v r
    → Permits s v × NotBusy s
unfolding choose_verb
choose_verb-Permits s verb_release r h = ground arith
choose_verb-Permits s verb_stop r h = ground arith
choose_verb-Permits s (verb_other text) r h = ground arith

-- It refuses only a busy service, or one that no permitted verb fits.
pub choose_verb_refuses :
    (s : ServiceState) (v : Verb) (r : VerbReason)
    → choose_verb s ≡ refused r
    → NotBusy s
    → Permits s v
    → ⊥
unfolding choose_verb
choose_verb_refuses s verb_release r h b p = ground arith
choose_verb_refuses s verb_stop r h b p = ground arith
choose_verb_refuses s (verb_other text) r h b p = p
