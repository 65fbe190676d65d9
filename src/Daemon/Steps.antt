-- ===== src/Daemon/Steps.antt =====
-- Proof rules for the daemon's operations: a relation between states that is a preorder holds
-- across a sequence of operations if it holds across each.
use gpu_bouncer.Base.{
  ◌≡◌, refl, sym, ap, ◌∙◌, List, [], ◌∷◌, ◌++◌, All, All-append, Bool-cases, Option-cases, inl, inr,
  arith, String, ℕ,
}
use mathlib.Core.List.{append_assoc}
use gpu_bouncer.Base.Dict.{lookup}
use gpu_bouncer.Config.Types.{Service, Policy}
use gpu_bouncer.Observe.{
  Call, read_devices, probe, Trace, Env, Observer, device, probe_one, probe_all, observe,
  status_one, statuses,
}
use gpu_bouncer.Ipc.{ActionResult}
use gpu_bouncer.Daemon.State.{State, M, ◌>>=◌, pure, acquire, release_slot, record_effect}

pub record IsPreorder (R : State → State → Type 0) : Type 0 where
  pub rel_refl : (s : State) → R s s
  pub rel_trans : (s t u : State) → R s t → R t u → R s u

-- The operation moves from each state to a related one.
abbrev pub Respects : (State → State → Type 0) → {A : Type 0} → M A → Type 0
Respects R m = (s : State) → R s (m s).1

module _ {R : State → State → Type 0} (pre : IsPreorder R) where
  pub Respects-pure : {A : Type 0} (a : A) → Respects R (pure a)
  Respects-pure a s = pre.rel_refl s

  pub Respects-bind :
      {A B : Type 0} (m : M A) (f : A → M B)
      → Respects R m
      → ((a : A) → Respects R (f a))
      → Respects R (m >>= f)
  Respects-bind m f hm hf s =
      pre.rel_trans s (m s).1 (f (m s).0 (m s).1).1 (hm s) (hf (m s).0 (m s).1)

-- The tables and the replies stay as they are, and the calls are extended by calls that satisfy `P`.
abbrev pub Added : (Call → Type 0) → Trace → Trace → Type 0
Added P t u = (fresh : List Call) × (u ≡ fresh ++ t) × All P fresh

pub Added-refl : (P : Call → Type 0) (t : Trace) → Added P t t
Added-refl P t = ([], refl, tt)

pub Added-trans : (P : Call → Type 0) (t u v : Trace) → Added P t u → Added P u v → Added P t v
Added-trans P t u v (f, e, h) (g, d, k) =
    (g ++ f, d ∙ ap (λ x. g ++ x) e ∙ sym (append_assoc g f t), All-append P g f k h)

abbrev pub Calls : (Call → Type 0) → State → State → Type 0
Calls P s t = Added P s.calls t.calls

pub Calls-IsPreorder : (P : Call → Type 0) → IsPreorder (Calls P)
Calls-IsPreorder P = record {
  rel_refl = λ s. Added-refl P s.calls;
  rel_trans = λ s t u. Added-trans P s.calls t.calls u.calls;
}

-- A read of the GPU and a probe change nothing outside.
abbrev pub ReadOnly : Call → Type 0
ReadOnly read_devices = Unit
ReadOnly (probe name) = Unit
ReadOnly _ = ⊥

module _ (env : Env) (o : Observer) where
  pub device-ReadOnly : (t : Trace) → Added ReadOnly t (device env o t).1
  unfolding device
  device-ReadOnly t = elim (Bool-cases env.has_source) [
    | inl e ↦ simp e (read_devices ∷ [], refl, (tt, tt))
    | inr e ↦ simp e (Added-refl ReadOnly t)
  ]

  probe_one-ReadOnly : (svc : Service) (t : Trace) → Added ReadOnly t (probe_one env o svc t).1
  unfolding probe_one
  probe_one-ReadOnly svc t = elim (Option-cases (lookup svc.name o.adapters)) [
    | inl e ↦ rw (e, probe_one) (Added-refl ReadOnly t)
    | inr (k, e) ↦ rw (e, probe_one) (probe svc.name ∷ [], refl, (tt, tt))
  ]

  probe_all-ReadOnly : (ss : List Service) (t : Trace) → Added ReadOnly t (probe_all env o ss t).1
  unfolding probe_all
  probe_all-ReadOnly [] t = Added-refl ReadOnly t
  probe_all-ReadOnly (s ∷ ss) t =
      Added-trans ReadOnly t _ _ (probe_one-ReadOnly s t)
        (probe_all-ReadOnly ss (probe_one env o s t).1)

  pub observe-ReadOnly : (t : Trace) → Added ReadOnly t (observe env o t).1
  unfolding observe
  observe-ReadOnly t =
      Added-trans ReadOnly t _ _ (device-ReadOnly t) (probe_all-ReadOnly o.cfg.services _)

  status_one-ReadOnly : (svc : Service) (t : Trace) → Added ReadOnly t (status_one env o svc t).1
  unfolding status_one
  status_one-ReadOnly svc t = elim (Option-cases (lookup svc.name o.adapters)) [
    | inl e ↦ rw (e, status_one) (Added-refl ReadOnly t)
    | inr (k, e) ↦ rw (e, status_one) (probe svc.name ∷ [], refl, (tt, tt))
  ]

  pub statuses-ReadOnly : (ss : List Service) (t : Trace) → Added ReadOnly t (statuses env o ss t).1
  unfolding statuses
  statuses-ReadOnly [] t = Added-refl ReadOnly t
  statuses-ReadOnly (s ∷ ss) t =
      Added-trans ReadOnly t _ _ (status_one-ReadOnly s t)
        (statuses-ReadOnly ss (status_one env o s t).1)

-- What only touches the tables makes no call.
pub acquire_calls : (name : String) (s : State) → (acquire name s).1.calls ≡ s.calls
unfolding acquire
acquire_calls name s = ground arith

pub release_slot_calls : (name : String) (s : State) → (release_slot name s).1.calls ≡ s.calls
unfolding release_slot
release_slot_calls name s = refl

pub record_effect_calls :
    (policy : Policy) (now : ℕ) (r : ActionResult) (s : State)
    → (record_effect policy now r s).1.calls ≡ s.calls
unfolding record_effect
record_effect_calls policy now r s = ground arith
