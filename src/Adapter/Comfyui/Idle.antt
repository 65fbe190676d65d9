-- ===== src/Adapter/Comfyui/Idle.antt =====
-- internal/adapter/comfyui.go: memory is asked for only of a server that has nothing to do.
use gpu_bouncer.Base.{
  ◌≡◌, refl, ap, sym, ◌∙◌, true, false, ◌∷◌, inl, inr, Bool-cases, Result, done, failed,
  Result-cases,
}
use gpu_bouncer.Base.Int.{ℤ, pos, ltb_ℤ}
use gpu_bouncer.Adapter.Http.{Sent, Net, Response, HttpFault, do_json, discard}
use gpu_bouncer.Adapter.Http.Answered.{IsAnswered, do_json-IsAnswered}
use gpu_bouncer.Adapter.Comfyui.{
  Comfyui, Decoder, queue_remaining, prompt_request, free_call, release, freed,
}

module _ (net : Net) (json : Decoder) (a : Comfyui) where
  -- The server answered that so much was queued or running.
  abbrev pub Queued : Sent → ℤ → Type 0
  Queued sent remaining = (queue_remaining net json a sent).0 ≡ done remaining

  queue_remaining-sent :
      (sent : Sent) (remaining : ℤ)
      → Queued sent remaining
      → (queue_remaining net json a sent).1 ≡ prompt_request net json a ∷ sent
  unfolding queue_remaining
  queue_remaining-sent sent remaining q =
      (do_json-IsAnswered net json.queue_remaining (prompt_request net json a) sent remaining q).3

  -- The answer to the free, sent right after the question.
  abbrev asked : Sent → Result {0, 0} HttpFault Unit × Sent
  asked sent = do_json net discard (free_call net json a) (prompt_request net json a ∷ sent)

  release-asked :
      (sent : Sent) (remaining : ℤ)
      → Queued sent remaining
      → ltb_ℤ (pos 0) remaining ≡ false
      → release net json a sent ≡ (freed net json a (asked sent).0, (asked sent).1)
  unfolding release
  release-asked sent remaining q b =
      rw (q, release, b)
        (ap
          (λ t. (
            freed net json a (do_json net discard (free_call net json a) t).0,
            (do_json net discard (free_call net json a) t).1,
          ))
          (queue_remaining-sent sent remaining q))

  freed-acted :
      (r : Result {0, 0} HttpFault Unit) → (freed net json a r).0.acted ≡ true → r ≡ done tt
  freed-acted (failed f) h = cc
  freed-acted (done u) h = refl

  -- What the free rests on.
  abbrev pub FreedWhileIdle : Sent → Type 0
  FreedWhileIdle sent =
      (remaining : ℤ) × (r : Response) × Queued sent remaining
      × (ltb_ℤ (pos 0) remaining ≡ false)
      × IsAnswered net (free_call net json a) (prompt_request net json a ∷ sent) r
      × ((release net json a sent).1 ≡ free_call net json a ∷ prompt_request net json a ∷ sent)

  -- Where `Release` acts, the server had just answered that nothing was left to do, and then it
  -- answered the free with a success; the free went out right after that question.
  pub release-FreedWhileIdle :
      (sent : Sent) → (release net json a sent).0.0.acted ≡ true → FreedWhileIdle sent
  unfolding release
  release-FreedWhileIdle sent h = elim (Result-cases (queue_remaining net json a sent).0) [
    | inr (f, q) ↦ cc (rw (q, release) at h)
    | inl (remaining, q) ↦ elim (Bool-cases (ltb_ℤ (pos 0) remaining)) [
      | inl b ↦ cc (rw (q, release, b) at h)
      | inr b ↦
          let e = release-asked sent remaining q b in
          let ok = freed-acted (asked sent).0 (sym (ap (λ p. p.0.0.acted) e) ∙ h) in
          let (r, answered_, decodes, sent') =
            do_json-IsAnswered net discard (free_call net json a) (prompt_request net json a ∷ sent)
              tt ok in
          (remaining, r, q, b, answered_, ap (λ p. p.1) e ∙ sent')
    ]
  ]

  -- `Release` of a busy server sends nothing but the question and acts on nothing.
  release-busy :
      (sent : Sent) (remaining : ℤ)
      → Queued sent remaining
      → ltb_ℤ (pos 0) remaining ≡ true
      → ((release net json a sent).1 ≡ prompt_request net json a ∷ sent)
        × ((release net json a sent).0.0.acted ≡ false)
  unfolding release
  release-busy sent remaining q b =
      (rw (q, release, b) (queue_remaining-sent sent remaining q), rw (q, release, b))
