-- ===== src/Config/Validated.antt =====
-- What `Validate` accepts, said without the order of its checks.
use gpu_bouncer.Base.{
  ◌≡◌, ◌≢◌, refl, ap, ◌∙◌, String, ◌==◌, eq_iff, true, false, Option, none, some, List, [], ◌∷◌,
  map, All, Pairwise, Bool-cases, Option-cases, inl, inr, arith,
}
use gpu_bouncer.Config.Types.{Service, valid, needs_endpoint, is_systemd_unit}
use gpu_bouncer.Config.Unit.{matches, in_name, validate_unit}
use gpu_bouncer.Config.Validate.{
  Url, ServiceFault, Checked, accepted, rejected, contains, or_else, validate_endpoint,
  endpoint_fault, unit_fault, service_fault, filled, add_service, validate_services,
}

or_else-none : (a b : Option ServiceFault) → or_else a b ≡ none → (a ≡ none) × (b ≡ none)
or_else-none none b e = (refl, e)
or_else-none (some f) b e = cc e

abbrev pub NotIn : List String → List Service → Type 0
NotIn seen = All (λ s. contains seen s.name ≡ false)

abbrev pub DistinctNames : List Service → Type 0
DistinctNames = Pairwise (λ s t. s.name ≢ t.name)

-- A name is not among more names exactly when it is not the first and not among the rest.
NotIn-head :
    (name : String) (seen : List String) (ss : List Service)
    → NotIn (name ∷ seen) ss
    → All (λ s. name ≢ s.name) ss × NotIn seen ss
NotIn-head name seen [] h = (tt, tt)
NotIn-head name seen (s ∷ ss) h =
    let (a, b) = NotIn-head name seen ss h.1 in
    let same : (name == s.name ≡ false) × (contains seen s.name ≡ false) = ground (arith, h.0) in
    (((λ e. cc (same.0, (eq_iff name s.name).1 e)), a), (same.1, b))

head-NotIn :
    (name : String) (seen : List String) (ss : List Service)
    → All (λ s. name ≢ s.name) ss
    → NotIn seen ss
    → NotIn (name ∷ seen) ss
head-NotIn name seen [] h k = tt
head-NotIn name seen (s ∷ ss) h k =
    (ground (arith, h.0, k.0, eq_iff name s.name), head-NotIn name seen ss h.1 k.1)

pub unseen : (ss : List Service) → NotIn [] ss
unseen [] = tt
unseen (s ∷ ss) = (refl, unseen ss)

module _ (parse : String → Option Url) where
  -- A service that may stand in a configuration.
  pub record IsSound (svc : Service) : Type 0 where
    pub named : matches in_name svc.name ≡ true
    pub known : valid svc.adapter ≡ true
    pub http :
        needs_endpoint svc.adapter ≡ true
        → (svc.endpoint ≢ "") × (validate_endpoint parse svc.endpoint ≡ none) × (svc.unit ≡ "")
    pub systemd :
        is_systemd_unit svc.adapter ≡ true
        → (svc.unit ≢ "") × (svc.endpoint ≡ "") × (validate_unit svc.unit ≡ none)

  endpoint_fault-http :
      (svc : Service)
      → endpoint_fault parse svc ≡ none
      → needs_endpoint svc.adapter ≡ true
      → (svc.endpoint ≢ "") × (validate_endpoint parse svc.endpoint ≡ none) × (svc.unit ≡ "")
  endpoint_fault-http svc e n = ground (arith, e, n, eq_iff svc.endpoint "", eq_iff svc.unit "")

  unit_fault-systemd :
      (svc : Service)
      → unit_fault parse svc ≡ none
      → is_systemd_unit svc.adapter ≡ true
      → (svc.unit ≢ "") × (svc.endpoint ≡ "") × (validate_unit svc.unit ≡ none)
  unit_fault-systemd svc e n = ground (arith, e, n, eq_iff svc.endpoint "", eq_iff svc.unit "")

  service_fault-IsSound :
      (seen : List String) (svc : Service)
      → service_fault parse seen svc ≡ none
      → IsSound svc × (contains seen svc.name ≡ false)
  unfolding service_fault
  service_fault-IsSound seen svc e =
      let both : (endpoint_fault parse svc ≡ none) × (unit_fault parse svc ≡ none) =
        or_else-none (endpoint_fault parse svc) (unit_fault parse svc) (ground arith) in
      (
        record {
          named = ground arith;
          known = ground arith;
          http = endpoint_fault-http svc both.0;
          systemd = unit_fault-systemd svc both.1;
        },
        ground arith,
      )

  IsSound-endpoint_fault : (svc : Service) → IsSound svc → endpoint_fault parse svc ≡ none
  IsSound-endpoint_fault svc s = elim (Bool-cases (needs_endpoint svc.adapter)) [
    | inl n ↦
        let (e, v, u) = s.http n in
        ground (arith, n, e, v, u, eq_iff svc.endpoint "", eq_iff svc.unit "")
    | inr n ↦ rw n refl
  ]

  IsSound-unit_fault : (svc : Service) → IsSound svc → unit_fault parse svc ≡ none
  IsSound-unit_fault svc s = elim (Bool-cases (is_systemd_unit svc.adapter)) [
    | inl n ↦
        let (u, e, v) = s.systemd n in
        ground (arith, n, e, v, u, eq_iff svc.endpoint "", eq_iff svc.unit "")
    | inr n ↦ rw n refl
  ]

  IsSound-service_fault :
      (seen : List String) (svc : Service)
      → IsSound svc
      → contains seen svc.name ≡ false
      → service_fault parse seen svc ≡ none
  unfolding service_fault
  IsSound-service_fault seen svc s c =
      rw (s.named, c, s.known, IsSound-endpoint_fault svc s, IsSound-unit_fault svc s) refl

  -- The services in turn, with the names before them.
  abbrev pub Good : List String → List Service → Type 0
  Good seen [] = Unit
  Good seen (s ∷ ss) = (IsSound s × (contains seen s.name ≡ false)) × Good (s.name ∷ seen) ss

  add_service-cases :
      (s : Service) (r : Checked (List Service)) (out : List Service)
      → add_service s r ≡ accepted out
      → (rest : List Service) × (r ≡ accepted rest) × (out ≡ s ∷ rest)
  add_service-cases s (accepted rest) out e = (rest, refl, cc e)
  add_service-cases s (rejected f) out e = cc e

  pub validate_services-Good :
      (seen : List String) (ss out : List Service)
      → validate_services parse seen ss ≡ accepted out
      → Good seen ss × (out ≡ map filled ss)
  unfolding validate_services
  validate_services-Good seen [] out e = (tt, cc e)
  validate_services-Good seen (s ∷ ss) out e = elim (Option-cases (service_fault parse seen s)) [
    | inr (f, k) ↦ cc (rw (k, validate_services) at e)
    | inl k ↦
        let (rest, r, o) =
          add_service-cases (filled s) (validate_services parse (s.name ∷ seen) ss) out
            (rw (k, validate_services) at e) in
        let (g, m) = validate_services-Good (s.name ∷ seen) ss rest r in
        ((service_fault-IsSound seen s k, g), o ∙ ap (λ l. filled s ∷ l) m)
  ]

  pub Good-validate_services :
      (seen : List String) (ss : List Service)
      → Good seen ss
      → validate_services parse seen ss ≡ accepted (map filled ss)
  unfolding validate_services
  Good-validate_services seen [] g = refl
  Good-validate_services seen (s ∷ ss) g =
      rw
        (
          IsSound-service_fault seen s g.0.0 g.0.1,
          Good-validate_services (s.name ∷ seen) ss g.1,
          validate_services,
        )
        refl

  pub Good-Distinct :
      (seen : List String) (ss : List Service)
      → Good seen ss
      → All IsSound ss × NotIn seen ss × DistinctNames ss
  Good-Distinct seen [] g = (tt, tt, tt)
  Good-Distinct seen (s ∷ ss) g =
      let (sound, fresh, distinct) = Good-Distinct (s.name ∷ seen) ss g.1 in
      let (apart, outside) = NotIn-head s.name seen ss fresh in
      ((g.0.0, sound), (g.0.1, outside), (apart, distinct))

  pub Distinct-Good :
      (seen : List String) (ss : List Service)
      → All IsSound ss
      → NotIn seen ss
      → DistinctNames ss
      → Good seen ss
  Distinct-Good seen [] h k d = tt
  Distinct-Good seen (s ∷ ss) h k d =
      ((h.0, k.0), Distinct-Good (s.name ∷ seen) ss h.1 (head-NotIn s.name seen ss d.0 k.1) d.1)
