-- ===== src/Adapter/Llamaswap/Confirmed.antt =====
-- internal/adapter/llamaswap.go: models count as unloaded where llama-swap says so.
use gpu_bouncer.Base.{
  ◌≡◌, ◌≢◌, ap, sym, ◌∙◌, String, ◌==◌, true, List, [], ◌∷◌, map, inl, inr, eq_iff, Bool-cases,
  Result, done, failed,
}
use gpu_bouncer.Adapter.Http.{Sent, Net, Response, HttpFault, do_json}
use gpu_bouncer.Adapter.Http.Answered.{IsAnswered, do_json-IsAnswered}
use gpu_bouncer.Adapter.Llamaswap.{
  Llamaswap, Decoder, Process, running, running_request, unload_call, release, model_of,
  release_running, unloaded,
}

module _ (net : Net) (json : Decoder) (a : Llamaswap) where
  -- What the second request of a release confirms.
  abbrev pub Confirms : List Process → Sent → Type 0
  Confirms processes before =
      (r : Response) × IsAnswered net (unload_call net json a) before r
      × (json.unload_msg r.body.bytes ≡ done "ok")

  running-sent :
      (sent : Sent) (processes : List Process)
      → (running net json a sent).0 ≡ done processes
      → (running net json a sent).1 ≡ running_request net json a ∷ sent
  unfolding running
  running-sent sent processes q =
      (do_json-IsAnswered net json.running (running_request net json a) sent processes q).3

  abbrev asked : Sent → Result HttpFault String × Sent
  asked sent =
      do_json net json.unload_msg (unload_call net json a) (running_request net json a ∷ sent)

  release-running :
      (sent : Sent) (processes : List Process)
      → (running net json a sent).0 ≡ done processes
      → release net json a sent
        ≡ release_running net json a processes (running_request net json a ∷ sent)
  unfolding release
  release-running sent processes q =
      rw (q, release) (ap (release_running net json a processes) (running-sent sent processes q))

  unloaded-acted :
      (targets : List String) (reply : Result HttpFault String)
      → (unloaded net json a targets reply).0.acted ≡ true
      → (reply ≡ done "ok") × ((unloaded net json a targets reply).0.targets ≡ targets)
  unloaded-acted targets (failed f) h = cc
  unloaded-acted targets (done msg) h = elim (Bool-cases (msg == "ok")) [
    | inl e ↦ (ap done ((eq_iff msg "ok").0 e), rw e)
    | inr e ↦ cc (rw e at h)
  ]

  -- `Release` sends nothing but the question to a server that runs nothing.
  release-nothing :
      (sent : Sent)
      → (running net json a sent).0 ≡ done []
      → (release net json a sent).1 ≡ running_request net json a ∷ sent
  release-nothing sent q = ap (λ p. p.1) (release-running sent [] q)

  -- Where `Release` acts, its targets are all the models that were running, at least one, and the
  -- server answered the one unload call with success and the message "ok".
  pub release-Confirms :
      (sent : Sent) (processes : List Process)
      → (running net json a sent).0 ≡ done processes
      → (release net json a sent).0.0.acted ≡ true
      → (processes ≢ [])
        × ((release net json a sent).0.0.targets ≡ map model_of processes)
        × Confirms processes (running_request net json a ∷ sent)
        × ((release net json a sent).1 ≡ unload_call net json a ∷ running_request net json a ∷ sent)
  release-Confirms sent [] q h = cc (release-running sent [] q)
  release-Confirms sent (p ∷ ps) q h =
      let e = release-running sent (p ∷ ps) q in
      let (ok, targets) =
        unloaded-acted (map model_of (p ∷ ps)) (asked sent).0 (sym (ap (λ p. p.0.0.acted) e) ∙ h) in
      let (r, answered_, decodes, sent') =
        do_json-IsAnswered net json.unload_msg (unload_call net json a)
          (running_request net json a ∷ sent) "ok" ok in
      (
        λ n. cc,
        ap (λ p. p.0.0.targets) e ∙ targets,
        (r, answered_, decodes),
        ap (λ p. p.1) e ∙ sent',
      )
