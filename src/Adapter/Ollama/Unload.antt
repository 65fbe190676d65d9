-- ===== src/Adapter/Ollama/Unload.antt =====
-- internal/adapter/ollama.go: what the result of a release says of the models that were loaded.
use gpu_bouncer.Base.{
  ℕ, ◌+◌, ◌<◌, ◌≡◌, refl, ap, subst, sym, ◌∙◌, String, true, Option, none, some, List, [], ◌∷◌,
  ◌++◌, map, arith, inl, inr, ◌⊎◌, Option-cases, done, Result-cases,
}
use mathlib.Core.List.{append_assoc, append-nil}
use gpu_bouncer.Adapter.{Outcome, no_outcome}
use gpu_bouncer.Adapter.Http.{Sent, Net}
use gpu_bouncer.Adapter.Ollama.{
  Ollama, LoadedModel, Decoder, OllamaFault, Drained, drained, not_drained, drain_failed, loaded,
  unload, unload_all, wait_drained, release, partial_, drain_then, release_models, concluded,
  not_reached,
}
use gpu_bouncer.Adapter.Ollama.Drain.{Gone, Advances, wait_drained-Gone, wait_drained_ends}

abbrev pub name_of : LoadedModel → String
name_of m = m.name

partial-targets : (ts : List String) → (partial_ ts).targets ≡ ts
partial-targets [] = refl
partial-targets (t ∷ ts) = refl

module _ (net : Net) (json : Decoder) (a : Ollama) where
  -- The targets of the result are the first of the models: all of them where there is no error, and
  -- then they are gone if there was any.
  abbrev Tells : List LoadedModel → Outcome × Option OllamaFault → Sent → Type 0
  Tells models (o, e) sent' =
      (rest : List String) × (map name_of models ≡ o.targets ++ rest)
      × (e ≡ none
          → (rest ≡ []) × ((models ≡ []) ⊎ ((o.acted ≡ true) × Gone net json a o.targets sent')))

  unload_all-prefix :
      (models : List LoadedModel) (targets : List String) (sent : Sent)
      → (rest : List String) × (targets ++ map name_of models
          ≡ (unload_all net json a models targets sent).0.0 ++ rest)
        × ((unload_all net json a models targets sent).0.1 ≡ none → rest ≡ [])
  unfolding unload_all
  unload_all-prefix [] targets sent = ([], refl, λ e. refl)
  unload_all-prefix (m ∷ ms) targets sent = elim (Option-cases (unload net json a m.name sent).0) [
    | inr (f, q) ↦ (map name_of (m ∷ ms), rw (q, unload_all), λ e. cc (rw (q, unload_all) at e))
    | inl q ↦
        let (rest, p, n) =
          unload_all-prefix ms (targets ++ m.name ∷ []) (unload net json a m.name sent).1 in
        (
          rest,
          sym (append_assoc targets (m.name ∷ []) (map name_of ms)) ∙ rw (q, unload_all) p,
          λ e. n (rw (q, unload_all) at e),
        )
  ]

  -- The wait's end, for the targets that were all unloaded.
  concluded-Tells :
      (models : List LoadedModel) (targets : List String) (d : Drained) (sent' : Sent)
      → map name_of models ≡ targets
      → (d ≡ drained → Gone net json a targets sent')
      → Tells models (concluded net json a targets d) sent'
  concluded-Tells models targets drained sent' p g =
      ([], p ∙ sym (append-nil targets), λ e. (refl, inr (refl, g refl)))
  concluded-Tells models targets not_drained sent' p g = ([], p ∙ sym (append-nil targets), λ e. cc)
  concluded-Tells models targets (drain_failed f) sent' p g = (
    [],
    p ∙ sym (append-nil targets) ∙ ap (λ t. t ++ []) (sym (partial-targets targets)),
    λ e. cc,
  )

  abbrev waited : ℕ → List String → Sent → Option Drained × Sent
  waited fuel targets sent =
      wait_drained net json a fuel (net.now sent + a.drain_timeout) targets sent

  drain_then-Tells :
      (fuel : ℕ) (models : List LoadedModel) (targets : List String) (e : Option OllamaFault)
      (sent : Sent) (rest : List String) (r : Outcome × Option OllamaFault)
      → map name_of models ≡ targets ++ rest
      → (e ≡ none → rest ≡ [])
      → (drain_then net json a fuel ((targets, e), sent)).0 ≡ some r
      → Tells models r (drain_then net json a fuel ((targets, e), sent)).1
  drain_then-Tells fuel models targets (some f) sent rest r p n h =
      let same : (partial_ targets, some f) ≡ r = cc in
      subst (λ x. Tells models x sent) same
        (rest, p ∙ ap (λ t. t ++ rest) (sym (partial-targets targets)), λ e. cc)
  drain_then-Tells fuel models targets none sent rest r p n h =
      elim (Option-cases (waited fuel targets sent).0) [
        | inl q ↦ cc (rw (q, drain_then) at h)
        | inr (d, q) ↦
            let same : concluded net json a targets d ≡ r = cc (rw (q, drain_then) at h) in
            subst (λ x. Tells models x (waited fuel targets sent).1) same
              (concluded-Tells models targets d (waited fuel targets sent).1
                (p ∙ ap (λ t. targets ++ t) (n refl) ∙ append-nil targets)
                (λ g.
                  wait_drained-Gone net json a (net.now sent + a.drain_timeout) targets fuel sent
                    (q ∙ ap some g)))
      ]

  release-loaded :
      (fuel : ℕ) (sent : Sent) (models : List LoadedModel)
      → (loaded net json a sent).0 ≡ done models
      → release net json a fuel sent
        ≡ release_models net json a fuel models (loaded net json a sent).1
  unfolding release
  release-loaded fuel sent models q = rw (q, release)

  release_models-Tells :
      (fuel : ℕ) (models : List LoadedModel) (r : Outcome × Option OllamaFault) (sent : Sent)
      → (release_models net json a fuel models sent).0 ≡ some r
      → Tells models r (release_models net json a fuel models sent).1
  release_models-Tells fuel [] r sent h =
      let same : (record no_outcome { detail = "no models were loaded" }, none) ≡ r = cc in
      subst (λ x. Tells [] x sent) same ([], refl, λ e. (refl, inl refl))
  release_models-Tells fuel (m ∷ ms) r sent h =
      let (rest, p, n) = unload_all-prefix (m ∷ ms) [] sent in
      let unloaded = unload_all net json a (m ∷ ms) [] sent in
      drain_then-Tells fuel (m ∷ ms) unloaded.0.0 unloaded.0.1 unloaded.1 rest r p n h

  release-Tells :
      (fuel : ℕ) (sent : Sent) (models : List LoadedModel) (r : Outcome × Option OllamaFault)
      → (loaded net json a sent).0 ≡ done models
      → (release net json a fuel sent).0 ≡ some r
      → Tells models r (release net json a fuel sent).1
  release-Tells fuel sent models r q =
      subst (λ p. p.0 ≡ some r → Tells models r p.1) (sym (release-loaded fuel sent models q))
        (release_models-Tells fuel models r (loaded net json a sent).1)

  -- A release that could list the models, found some and reports no error names them all as targets,
  -- in order, and says that it acted; the last request it sent was answered by a list in which none of
  -- them stands.
  pub release-Gone :
      (fuel : ℕ) (sent : Sent) (m : LoadedModel) (ms : List LoadedModel) (o : Outcome)
      → (loaded net json a sent).0 ≡ done (m ∷ ms)
      → (release net json a fuel sent).0 ≡ some (o, none)
      → (o.targets ≡ map name_of (m ∷ ms))
        × (o.acted ≡ true)
        × Gone net json a o.targets (release net json a fuel sent).1
  release-Gone fuel sent m ms o q h =
      let (rest, p, n) = release-Tells fuel sent (m ∷ ms) (o, none) q h in
      let (e, gone) = n refl in
      let all : o.targets ≡ map name_of (m ∷ ms) =
        sym (append-nil o.targets) ∙ ap (λ r. o.targets ++ r) (sym e) ∙ sym p in
      elim gone [ inl x ↦ cc | inr (acted, g) ↦ (all, acted, g) ]

  drain_then_ends :
      (fuel : ℕ) (targets : List String) (e : Option OllamaFault) (sent : Sent)
      → Advances net
      → a.drain_timeout < fuel
      → (r : Outcome × Option OllamaFault) × ((drain_then net json a fuel ((targets, e), sent)).0
          ≡ some r)
  drain_then_ends fuel targets (some f) sent adv k = ((partial_ targets, some f), refl)
  drain_then_ends fuel targets none sent adv k =
      let (d, q) =
        wait_drained_ends net json a (net.now sent + a.drain_timeout) targets fuel sent adv
          (omega arith) (omega arith) in
      (concluded net json a targets d, rw (q, drain_then))

  release_models_ends :
      (fuel : ℕ) (models : List LoadedModel) (sent : Sent)
      → Advances net
      → a.drain_timeout < fuel
      → (r : Outcome × Option OllamaFault) × ((release_models net json a fuel models sent).0
          ≡ some r)
  release_models_ends fuel [] sent adv k =
      ((record no_outcome { detail = "no models were loaded" }, none), refl)
  release_models_ends fuel (m ∷ ms) sent adv k =
      let unloaded = unload_all net json a (m ∷ ms) [] sent in
      drain_then_ends fuel unloaded.0.0 unloaded.0.1 unloaded.1 adv k

  -- With a clock that advances at each request, as many polls as the drain timeout has nanoseconds
  -- and one more are enough: the release ends with a result.
  pub release_ends :
      (fuel : ℕ) (sent : Sent)
      → Advances net
      → a.drain_timeout < fuel
      → (r : Outcome × Option OllamaFault) × ((release net json a fuel sent).0 ≡ some r)
  unfolding release
  release_ends fuel sent adv k = elim (Result-cases (loaded net json a sent).0) [
    | inr (f, q) ↦ ((no_outcome, some (not_reached a.name f)), rw (q, release))
    | inl (models, q) ↦
        let (r, e) = release_models_ends fuel models (loaded net json a sent).1 adv k in
        (r, ap (λ p. p.0) (release-loaded fuel sent models q) ∙ e)
  ]
