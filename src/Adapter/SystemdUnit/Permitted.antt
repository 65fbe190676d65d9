-- ===== src/Adapter/SystemdUnit/Permitted.antt =====
-- internal/adapter/systemdunit.go: only a permitted stop runs a verb that changes the unit.
use mathlib.Core.List.{append_assoc}
use gpu_bouncer.Base.{
  ◌≡◌, refl, sym, ◌∙◌, String, ◌==◌, true, List, [], ◌∷◌, ◌++◌, ◌⊎◌, inl, inr, Bool-cases, All,
  All-append, Option,
}
use gpu_bouncer.Base.Cutting.{trim_text}
use gpu_bouncer.Adapter.SystemdUnit.{
  SystemdUnit, Systemctl, Runs, RunFault, systemctl_args, run_systemctl, not_found, detail, probe,
  probe_state, release, stop,
}

pub data Operation : Type 0 where
  probing releasing stopping : Operation

module _ (systemctl : Systemctl) (a : SystemdUnit) where
  -- The runs of systemctl after an operation of the adapter.
  abbrev pub operate : Operation → Runs → Runs
  operate probing runs = (probe systemctl a runs).1
  operate releasing runs = (release systemctl a runs).1
  operate stopping runs = (stop systemctl a runs).1

  -- A verb that only reads.
  abbrev pub Reads : List String → Type 0
  Reads args =
      (rest : List String) × ((args ≡ systemctl_args systemctl a ("is-active" ∷ rest))
        ⊎ (args ≡ systemctl_args systemctl a ("show" ∷ rest)))

  -- The stop of this unit, asked for where the config allows it.
  abbrev pub StopsPermitted : Operation → List String → Type 0
  StopsPermitted op args =
      (op ≡ stopping)
      × (a.allow_stop ≡ true)
      × (args ≡ systemctl_args systemctl a ("stop" ∷ a.unit ∷ []))

  abbrev pub Adds : Operation → Runs → Runs → Type 0
  Adds op runs runs' =
      (new : Runs) × (runs' ≡ new ++ runs) × All (λ args. Reads args ⊎ StopsPermitted op args) new

  probe_state-Adds :
      (state : String) (err : Option RunFault) (runs : Runs)
      → Adds probing runs (probe_state systemctl a state err runs).1
  unfolding detail not_found run_systemctl
  probe_state-Adds state err runs = elim (Bool-cases (state == "")) [
    | inl e ↦ ([], rw (e, probe_state), tt)
    | inr e ↦ elim (Bool-cases (state == "active")) [
      | inl k ↦ (
        systemctl_args systemctl a
              ("show" ∷ "--property=ActiveState,SubState,MainPID" ∷ a.unit ∷ [])
            ∷ [],
        rw (e, k, probe_state),
        (inl (_, inr refl), tt),
      )
      | inr k ↦ (
        systemctl_args systemctl a ("show" ∷ "--property=LoadState" ∷ a.unit ∷ []) ∷ [],
        rw (e, k, probe_state),
        (inl (_, inr refl), tt),
      )
    ]
  ]

  -- Whatever systemctl answers, an operation of the adapter runs it only with the verbs is-active and
  -- show, except for a stop with `allow_stop`, which runs the stop of the configured unit; the flag
  -- --user stands before the verb for a user unit.
  pub operate-StopsPermitted : (op : Operation) (runs : Runs) → Adds op runs (operate op runs)
  unfolding probe release stop run_systemctl
  operate-StopsPermitted probing runs =
      let args = systemctl_args systemctl a ("is-active" ∷ a.unit ∷ []) in
      let ran = run_systemctl systemctl a args runs in
      let (new, p, h) = probe_state-Adds (trim_text ran.0.0) ran.0.1 (args ∷ runs) in
      (
        new ++ args ∷ [],
        p ∙ sym (append_assoc new (args ∷ []) runs),
        All-append _ new (args ∷ []) h (inl (_, inl refl), tt),
      )
  operate-StopsPermitted releasing runs = ([], refl, tt)
  operate-StopsPermitted stopping runs = elim (Bool-cases a.allow_stop) [
    | inl e ↦
        (systemctl_args systemctl a ("stop" ∷ a.unit ∷ []) ∷ [], rw e, (inr (refl, e, refl), tt))
    | inr e ↦ ([], rw e, tt)
  ]
