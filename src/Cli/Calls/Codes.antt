-- ===== src/Cli/Calls/Codes.antt =====
-- internal/cli: when a command that asks the daemon exits with 0.
use gpu_bouncer.Base.{
  ℕ, ◌≡◌, ◌↔◌, ◌⊎◌, refl, ap, subst, ◌∙◌, String, ◌==◌, Bool, true, false, ltb, Option, none, some,
  List, [], ◌∷◌, arith, inl, inr, Bool-cases, Result, done, failed, All, eq_iff,
}
use gpu_bouncer.Ipc.{Request, ActionResult, Response, Refusal}
use gpu_bouncer.Ipc.Client.{ExchangeFault, no_daemon, daemon_failed}
use gpu_bouncer.Cli.Calls.{
  CommandFault, Shown, exit_with, write_fault, unless_unwritten, some_failed, all_well,
  failed_count, shown_with, answered_with, called, call_daemon, exit_code_of,
}

failed_count_none :
    (rs : List ActionResult) → failed_count rs ≡ 0 → All (λ (a : ActionResult). a.error ≡ "") rs
unfolding failed_count
failed_count_none [] h = tt
failed_count_none (r ∷ rs) h = elim (Bool-cases (r.error == "")) [
  | inl e ↦ ((eq_iff r.error "").0 e, failed_count_none rs (ground (arith, h, e)))
  | inr e ↦ absurd (ground (arith, h, e))
]

failed_count-All :
    (rs : List ActionResult) → All (λ (a : ActionResult). a.error ≡ "") rs → failed_count rs ≡ 0
unfolding failed_count
failed_count-All [] h = refl
failed_count-All (r ∷ rs) h = ground (arith, eq_iff r.error "", h.0, failed_count-All rs h.1)

module _ (as_json : Bool) (write_json : Shown → Option String) where
  -- The output was written: as text, or as JSON without a failure.
  abbrev pub IsWritten : Response → Type 0
  IsWritten resp =
      (as_json ≡ false) ⊎ (write_json (record { response = resp; failed_actions = 0 }) ≡ none)

  -- The daemon took the request, no action of it failed, and the output was written.
  abbrev pub Succeeds : Result ExchangeFault Response → Type 0
  Succeeds r =
      (resp : Response) × (r ≡ done resp)
      × (resp.error ≡ none)
      × All (λ (a : ActionResult). a.error ≡ "") resp.executed
      × IsWritten resp

  code_of : Result ExchangeFault Response → ℕ
  code_of r = exit_code_of (called as_json write_json r).0

  code_with : Option CommandFault → Shown → Option String → ℕ
  code_with fault shown e = exit_code_of (unless_unwritten as_json write_json fault shown e).0

  unwritten-zero :
      (fault : Option CommandFault) (shown : Shown) (e : Option String)
      → code_with fault shown e ≡ 0
      → (e ≡ none) × (exit_code_of fault ≡ 0)
  unfolding code_with exit_code_of
  unwritten-zero fault shown none h = (refl, h)
  unwritten-zero fault shown (some e) h = absurd (omega (arith, h))

  written :
      (shown : Shown)
      → write_fault as_json write_json shown ≡ none
      → (as_json ≡ false) ⊎ (write_json shown ≡ none)
  written shown e = elim (Bool-cases as_json) [ inr j ↦ inl j | inl j ↦ inr (rw j at e) ]

  shown_with-zero :
      (resp : Response) (n : ℕ)
      → exit_code_of (shown_with as_json write_json resp n).0 ≡ 0
      → (n ≡ 0) × IsWritten resp
  unfolding code_with exit_code_of
  shown_with-zero resp n h = elim (Bool-cases (ltb 0 n)) [
    | inl q ↦
        let shown = some_failed as_json write_json resp n in
        let (w, one) =
          unwritten-zero (some (exit_with 1)) shown (write_fault as_json write_json shown)
            (rw q at h) in
        absurd (omega (arith, one))
    | inr q ↦
        let shown = all_well as_json write_json resp in
        let (w, zero) =
          unwritten-zero none shown (write_fault as_json write_json shown) (rw q at h) in
        (ground (arith, q), written shown w)
  ]

  write_fault-none :
      (resp : Response)
      → IsWritten resp
      → write_fault as_json write_json (all_well as_json write_json resp) ≡ none
  write_fault-none resp (inl j) = rw j refl
  write_fault-none resp (inr w) = elim (Bool-cases as_json) [
    | inl j ↦ rw (j, w) refl
    | inr j ↦ rw j refl
  ]

  zero-shown_with :
      (resp : Response) (n : ℕ)
      → n ≡ 0
      → IsWritten resp
      → exit_code_of (shown_with as_json write_json resp n).0 ≡ 0
  unfolding exit_code_of
  zero-shown_with resp n e w =
      ap (λ k. exit_code_of (shown_with as_json write_json resp k).0) e
      ∙ ap
          (λ f.
            exit_code_of
              (unless_unwritten as_json write_json none (all_well as_json write_json resp) f).0)
          (write_fault-none resp w)

  answered_with-zero :
      (resp : Response) (o : Option Refusal)
      → exit_code_of (answered_with as_json write_json resp o).0 ≡ 0
      → (o ≡ none)
        × (exit_code_of (shown_with as_json write_json resp (failed_count resp.executed)).0 ≡ 0)
  unfolding exit_code_of
  answered_with-zero resp none h = (refl, h)
  answered_with-zero resp (some e) h = absurd (omega (arith, h))

  called-Succeeds : (r : Result ExchangeFault Response) → code_of r ≡ 0 → Succeeds r
  unfolding code_of exit_code_of
  called-Succeeds (failed (no_daemon tried last)) h = absurd (omega (arith, h))
  called-Succeeds (failed (daemon_failed e)) h = absurd (omega (arith, h))
  called-Succeeds (done resp) h =
      let (q, k) = answered_with-zero resp resp.error h in
      let (n, w) = shown_with-zero resp _ k in (resp, refl, q, failed_count_none resp.executed n, w)

  Succeeds-called : (r : Result ExchangeFault Response) → Succeeds r → code_of r ≡ 0
  unfolding code_of
  Succeeds-called (failed e) (resp, q, k, h, w) = cc
  Succeeds-called (done r) (resp, q, k, h, w) =
      let same : resp ≡ r = cc in
      subst (λ x. code_of (done x) ≡ 0) same
        (ap (λ o. exit_code_of (answered_with as_json write_json resp o).0) k
          ∙ zero-shown_with resp _ (failed_count-All resp.executed h) w)

  -- `callDaemon`, which request, release and evict end with, leads to the exit code 0 exactly if a
  -- daemon answered, refused nothing, every action that it carried out ended without an error, and the
  -- output, if it is JSON, could be written.
  pub call_daemon-Succeeds :
      (exchange : Request → Result ExchangeFault Response) (req : Request)
      → exit_code_of (call_daemon as_json write_json exchange req).0 ≡ 0
        ↔ Succeeds (exchange (record req { plan_first = true }))
  unfolding call_daemon code_of
  call_daemon-Succeeds exchange req =
      let r = exchange (record req { plan_first = true }) in (called-Succeeds r, Succeeds-called r)
