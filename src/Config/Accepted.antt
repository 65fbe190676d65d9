-- ===== src/Config/Accepted.antt =====
-- Which configurations `Validate` accepts, and what it makes of them.
use gpu_bouncer.Base.{
  ℕ, ◌≡◌, ◌≢◌, ◌⊎◌, refl, sym, subst, ap, ◌∙◌, String, ◌==◌, eq_iff, Bool, true, false, not, ◌&&◌,
  Option, some, List, [], ◌∷◌, map, All, Bool-cases, inl, inr, arith,
}
use gpu_bouncer.Base.Int.{ℤ, pos, ltb_ℤ}
use gpu_bouncer.Config.Types.{Service, Config, service}
use gpu_bouncer.Config.Validate.{
  Url, Checked, accepted, rejected, contains, filled, validate_services, names_of, or_default,
  checked_policy, with_services, validate,
}
use gpu_bouncer.Config.Validated.{
  IsSound, DistinctNames, Good-Distinct, Distinct-Good, unseen, validate_services-Good,
  Good-validate_services,
}

names_of-service :
    (ss : List Service) (name : String)
    → contains (names_of ss) name ≡ true
    → (svc : Service) × (service ss name ≡ some svc)
unfolding service
names_of-service [] name e = cc e
names_of-service (s ∷ ss) name e = elim (Bool-cases (s.name == name)) [
  | inl k ↦ rw k (s, refl)
  | inr k ↦ rw k (names_of-service ss name (ground arith))
]

service-names_of :
    (ss : List Service) (name : String) (svc : Service)
    → service ss name ≡ some svc
    → contains (names_of ss) name ≡ true
unfolding service
service-names_of [] name svc e = cc e
service-names_of (s ∷ ss) name svc e = elim (Bool-cases (s.name == name)) [
  | inl k ↦ rw k refl
  | inr k ↦ rw k (service-names_of ss name svc (rw k at e))
]

-- With the defaults filled in.
abbrev pub completed : Config → Config
completed cfg = record cfg {
  policy = checked_policy cfg.policy;
  services = map filled cfg.services;
}

abbrev lost : Config → Bool
lost cfg =
    not (cfg.policy.default_workload == "")
    && not (contains (names_of cfg.services) cfg.policy.default_workload)

-- A duration that is above zero stands, and any other becomes the default.
abbrev pub DefaultsTo : ℕ → ℤ → ℤ → Type 0
DefaultsTo n d out =
    ((ltb_ℤ (pos 0) d ≡ true) × (out ≡ d)) ⊎ ((ltb_ℤ (pos 0) d ≡ false) × (out ≡ pos n))

or_default-DefaultsTo : (n : ℕ) (d : ℤ) → DefaultsTo n d (or_default d n)
or_default-DefaultsTo n d = elim (Bool-cases (ltb_ℤ (pos 0) d)) [
  | inl p ↦ inl (p, ground (arith, p))
  | inr p ↦ inr (p, ground (arith, p))
]

-- The defaults of a service are 5 s for a request and 30 s for a drain.
abbrev pub TimesFilled : Service → Type 0
TimesFilled svc =
    DefaultsTo 5_000_000_000 svc.timeout (filled svc).timeout
    × DefaultsTo 30_000_000_000 svc.drain_timeout (filled svc).drain_timeout

services-TimesFilled : (ss : List Service) → All TimesFilled ss
services-TimesFilled [] = tt
services-TimesFilled (s ∷ ss) = (
  (
    or_default-DefaultsTo 5_000_000_000 s.timeout,
    or_default-DefaultsTo 30_000_000_000 s.drain_timeout,
  ),
  services-TimesFilled ss,
)

-- The defaults of a policy are 5 s between rounds and 60 s of cooldown.
abbrev pub DefaultsFilled : Config → Config → Type 0
DefaultsFilled cfg out =
    All TimesFilled cfg.services
    × DefaultsTo 5_000_000_000 cfg.policy.poll_interval out.policy.poll_interval
    × DefaultsTo 60_000_000_000 cfg.policy.action_cooldown out.policy.action_cooldown

completed-DefaultsFilled : (cfg out : Config) → out ≡ completed cfg → DefaultsFilled cfg out
completed-DefaultsFilled cfg out e = subst (DefaultsFilled cfg) (sym e) (
  services-TimesFilled cfg.services,
  or_default-DefaultsTo 5_000_000_000 cfg.policy.poll_interval,
  or_default-DefaultsTo 60_000_000_000 cfg.policy.action_cooldown,
)

module _ (parse : String → Option Url) where
  -- A configuration that the daemon may run with.
  pub record IsAcceptable (cfg : Config) : Type 0 where
    pub indexed : ltb_ℤ cfg.policy.gpu_index (pos 0) ≡ false
    pub sound : All (IsSound parse) cfg.services
    pub distinct : DistinctNames cfg.services
    pub workload :
        cfg.policy.default_workload ≢ ""
        → (svc : Service) × (service cfg.services cfg.policy.default_workload ≡ some svc)

  with_services-cases :
      (cfg out : Config) (r : Checked (List Service))
      → with_services parse cfg r ≡ accepted out
      → (ss : List Service) × (r ≡ accepted ss)
        × (lost cfg ≡ false)
        × (out ≡ record cfg { policy = checked_policy cfg.policy; services = ss })
  with_services-cases cfg out (rejected f) e = cc e
  with_services-cases cfg out (accepted ss) e = elim (Bool-cases (lost cfg)) [
    | inl l ↦ cc (rw l at e)
    | inr l ↦ (ss, refl, l, cc (rw l at e))
  ]

  pub validate-IsAcceptable :
      (cfg out : Config)
      → validate parse cfg ≡ accepted out
      → IsAcceptable cfg × (out ≡ completed cfg) × DefaultsFilled cfg out
  unfolding validate
  validate-IsAcceptable cfg out e = elim (Bool-cases (ltb_ℤ cfg.policy.gpu_index (pos 0))) [
    | inl n ↦ cc (rw n at e)
    | inr n ↦
        let (ss, r, l, o) =
          with_services-cases cfg out (validate_services parse [] cfg.services) (rw n at e) in
        let (g, m) = validate_services-Good parse [] cfg.services ss r in
        let (sound, fresh, distinct) = Good-Distinct parse [] cfg.services g in
        let whole : out ≡ completed cfg =
          o ∙ ap (λ l. record cfg { policy = checked_policy cfg.policy; services = l }) m in
        (
          record {
            indexed = n;
            sound = sound;
            distinct = distinct;
            workload = λ w.
                names_of-service cfg.services cfg.policy.default_workload
                  (ground (arith, l, w, eq_iff cfg.policy.default_workload ""));
          },
          whole,
          completed-DefaultsFilled cfg out whole,
        )
  ]

  -- Each configuration with a device index that is not negative, sound services of distinct names, and
  -- a default workload among them if one is named, is accepted, with its defaults filled in.
  pub IsAcceptable-validate :
      (cfg : Config) → IsAcceptable cfg → validate parse cfg ≡ accepted (completed cfg)
  unfolding validate
  IsAcceptable-validate cfg h =
      let kept : lost cfg ≡ false = elim (Bool-cases (cfg.policy.default_workload == "")) [
        | inl e ↦ rw e refl
        | inr e ↦
            let (svc, f) = h.workload (λ q. cc (e, (eq_iff cfg.policy.default_workload "").1 q)) in
            rw (service-names_of cfg.services cfg.policy.default_workload svc f) (ground arith)
      ] in
      rw
        (
          h.indexed,
          Good-validate_services parse [] cfg.services
              (Distinct-Good parse [] cfg.services h.sound (unseen cfg.services) h.distinct),
          kept,
        )
        refl
