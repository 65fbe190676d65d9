-- ===== src/Adapter/Ollama/Drain.antt =====
-- internal/adapter/ollama.go: the wait for unloaded models ends, and says what the last poll saw.
use gpu_bouncer.Base.{
  ℕ, zero, suc, ◌+◌, ◌<◌, ◌≤◌, ◌≡◌, ◌≢◌, String, ◌==◌, eq_iff, true, false, Option, some, List, [],
  ◌∷◌, All, arith, inl, inr, ltb, Bool-cases, Option-cases, done, Result-cases,
}
use gpu_bouncer.Adapter.Http.{Request, Sent, Net}
use gpu_bouncer.Adapter.Http.Answered.{do_json-IsAnswered}
use gpu_bouncer.Adapter.Ollama.{
  Ollama, LoadedModel, Decoder, Drained, drained, not_drained, drain_failed, names_model,
  still_there, ps_request, loaded, wait_drained, poll_failed, wait_cancelled,
}

-- Each request takes time.
abbrev pub Advances : Net → Type 0
Advances net = (req : Request) (sent : Sent) → net.now sent < net.now (req ∷ sent)

-- No listed model has one of the names.
abbrev pub Unlisted : List String → List LoadedModel → Type 0
Unlisted names models = All (λ (m : LoadedModel). All (λ n. n ≢ m.name) names) models

unnamed :
    (names : List String) (m : LoadedModel)
    → names_model names m ≡ false
    → All (λ n. n ≢ m.name) names
unnamed [] m e = tt
unnamed (n ∷ ns) m e = elim (Bool-cases (n == m.name)) [
  | inl q ↦ cc (rw q at e)
  | inr q ↦ ((λ k. cc (q, (eq_iff n m.name).1 k)), unnamed ns m (rw q at e))
]

still_there-Unlisted :
    (names : List String) (models : List LoadedModel)
    → still_there names models ≡ false
    → Unlisted names models
unfolding still_there
still_there-Unlisted names [] e = tt
still_there-Unlisted names (m ∷ ms) e = elim (Bool-cases (names_model names m)) [
  | inl q ↦ cc (rw (q, still_there) at e)
  | inr q ↦ (unnamed names m q, still_there-Unlisted names ms (rw (q, still_there) at e))
]

module _ (net : Net) (json : Decoder) (a : Ollama) where
  pub loaded-sent :
      (sent : Sent) (models : List LoadedModel)
      → (loaded net json a sent).0 ≡ done models
      → (loaded net json a sent).1 ≡ ps_request net json a ∷ sent
  unfolding loaded
  loaded-sent sent models e =
      (do_json-IsAnswered net json.models (ps_request net json a) sent models e).3

  -- The last poll listed none of the names.
  abbrev pub Gone : List String → Sent → Type 0
  Gone names sent' =
      (before : Sent) × (models : List LoadedModel) × ((loaded net json a before).0 ≡ done models)
      × Unlisted names models
      × (sent' ≡ ps_request net json a ∷ before)

  module _ (deadline : ℕ) (names : List String) where
    abbrev wait_more : ℕ → Sent → Option Drained × Sent
    wait_more fuel sent = wait_drained net json a fuel deadline names sent

    abbrev next : Sent → Sent
    next sent = (loaded net json a sent).1

    -- A round that found a model still listed.
    wait_drained-Gone_later :
        (fuel : ℕ) (sent : Sent) (models : List LoadedModel)
        → (loaded net json a sent).0 ≡ done models
        → still_there names models ≡ true
        → (wait_more (suc fuel) sent).0 ≡ some drained
        → ((wait_more fuel (next sent)).0 ≡ some drained
            → Gone names (wait_more fuel (next sent)).1)
        → Gone names (wait_more (suc fuel) sent).1
    unfolding wait_drained
    wait_drained-Gone_later fuel sent models q r e ih =
        elim (Bool-cases (ltb deadline (net.now (next sent)))) [
          | inl l ↦ cc (rw (q, r, l, wait_drained) at e)
          | inr l ↦ elim (Option-cases (net.cancelled (next sent))) [
            | inr (f, c) ↦ cc (rw (q, r, l, c, wait_drained) at e)
            | inl c ↦ rw (q, r, l, c, wait_drained) (ih (rw (q, r, l, c, wait_drained) at e))
          ]
        ]

    pub wait_drained-Gone :
        (fuel : ℕ) (sent : Sent)
        → (wait_more fuel sent).0 ≡ some drained
        → Gone names (wait_more fuel sent).1
    unfolding wait_drained
    wait_drained-Gone zero sent e = cc
    wait_drained-Gone (suc fuel) sent e = elim (Result-cases (loaded net json a sent).0) [
      | inr (f, q) ↦ cc (rw (q, wait_drained) at e)
      | inl (models, q) ↦ elim (Bool-cases (still_there names models)) [
        | inr r ↦ (
          sent,
          models,
          q,
          still_there-Unlisted names models r,
          rw (q, wait_drained, r) (loaded-sent sent models q),
        )
        | inl r ↦
            wait_drained-Gone_later fuel sent models q r e (wait_drained-Gone fuel (next sent))
      ]
    ]

    pub wait_drained_ends :
        (fuel : ℕ) (sent : Sent)
        → Advances net
        → net.now sent ≤ deadline
        → deadline < fuel + net.now sent
        → (d : Drained) × ((wait_more fuel sent).0 ≡ some d)
    unfolding wait_drained
    wait_drained_ends zero sent adv h k = absurd (omega arith)
    wait_drained_ends (suc fuel) sent adv h k = elim (Result-cases (loaded net json a sent).0) [
      | inr (f, q) ↦ (drain_failed (poll_failed a.name f), rw (q, wait_drained))
      | inl (models, q) ↦
          let later : net.now sent < net.now (next sent) =
            rw (loaded-sent sent models q) (adv (ps_request net json a) sent) in
          elim (Bool-cases (still_there names models)) [
            | inr r ↦ (drained, rw (q, wait_drained, r))
            | inl r ↦ elim (Bool-cases (ltb deadline (net.now (next sent)))) [
              | inl l ↦ (not_drained, rw (q, r, l, wait_drained))
              | inr l ↦ elim (Option-cases (net.cancelled (next sent))) [
                | inr (f, c) ↦
                    (drain_failed (wait_cancelled a.name f), rw (q, r, l, c, wait_drained))
                | inl c ↦
                    let (d, w) =
                      wait_drained_ends fuel (next sent) adv (ground (arith, l))
                        (omega (arith, later, k)) in
                    (d, rw (q, r, l, c, wait_drained) w)
              ]
            ]
          ]
    ]
