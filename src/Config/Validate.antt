-- ===== src/Config/Validate.antt =====
-- internal/config/config.go: `Validate`. On a refusal the source may leave the configuration partly
-- filled in, and its callers drop it: only an accepted one is a result here.
use gpu_bouncer.Base.{
  ℕ, ◌*◌, String, ◌==◌, Bool, true, false, not, ◌&&◌, ◌||◌, Option, none, some, List, [], ◌∷◌, eqb,
  if◌then◌else◌,
}
use Prim.Native.Char.{code}
use gpu_bouncer.Base.Int.{ℤ, pos, leb_ℤ, ltb_ℤ}
use gpu_bouncer.Config.Types.{
  Service, Policy, Config, valid, needs_endpoint, is_systemd_unit, second,
}
use gpu_bouncer.Config.Unit.{matches, in_name, UnitFault, validate_unit}

-- What `url.Parse` finds; the function itself is a parameter, none where it fails.
pub record Url : Type 0 where
  pub host : String
  pub has_user : Bool

pub data EndpointFault : Type 0 where
  wrong_scheme not_a_url no_host has_credentials : EndpointFault

pub data ServiceFault : Type 0 where
  bad_name defined_twice unknown_adapter : ServiceFault
  needs_an_endpoint takes_no_unit needs_a_unit takes_no_endpoint : ServiceFault
  bad_endpoint : EndpointFault → ServiceFault
  bad_unit : UnitFault → ServiceFault

pub data Fault : Type 0 where
  negative_gpu_index : ℤ → Fault
  in_service : (name : String) → ServiceFault → Fault
  no_such_workload : (name : String) → Fault

pub data Checked {ℓ} (A : Type ℓ) : Type ℓ where
  accepted : A → Checked A
  rejected : Fault → Checked A

abbrev pub has_prefix : String → String → Bool
has_prefix String.[] s = true
has_prefix (String.◌∷◌ c p) String.[] = false
has_prefix (String.◌∷◌ c p) (String.◌∷◌ d s) = eqb (code c) (code d) && has_prefix p s

-- `strings.TrimRight` of slashes.
abbrev pub trim_slashes : String → String
trim_slashes String.[] = String.[]
trim_slashes (String.◌∷◌ c s) =
    let rest = trim_slashes s in
    if eqb (code c) b'/' && rest == "" then String.[] else String.◌∷◌ c rest

abbrev pub contains : List String → String → Bool
contains [] name = false
contains (x ∷ xs) name = x == name || contains xs name

abbrev pub url_fault : Option Url → Option EndpointFault
url_fault none = some not_a_url
url_fault (some u) =
    if u.host == "" then some no_host else if u.has_user then some has_credentials else none

-- The first of two faults.
abbrev pub or_else : Option ServiceFault → Option ServiceFault → Option ServiceFault
or_else none later = later
or_else (some f) later = some f

abbrev pub wrap {ℓ} : {A : Type ℓ} → (A → ServiceFault) → Option A → Option ServiceFault
wrap f none = none
wrap f (some a) = some (f a)

abbrev pub or_default : ℤ → ℕ → ℤ
or_default d n = if leb_ℤ d (pos 0) then pos n else d

abbrev pub default_service_timeout : ℕ
default_service_timeout = 5 * second

abbrev pub default_drain_timeout : ℕ
default_drain_timeout = 30 * second

abbrev pub names_of : List Service → List String
names_of [] = []
names_of (s ∷ ss) = s.name ∷ names_of ss

abbrev pub checked_policy : Policy → Policy
checked_policy p = record p {
  poll_interval = or_default p.poll_interval (5 * second);
  action_cooldown = or_default p.action_cooldown (60 * second);
}

-- What an accepted service becomes.
abbrev pub filled : Service → Service
filled svc = record svc {
  timeout = or_default svc.timeout default_service_timeout;
  drain_timeout = or_default svc.drain_timeout default_drain_timeout;
  endpoint = trim_slashes svc.endpoint;
}

abbrev pub add_service : Service → Checked (List Service) → Checked (List Service)
add_service svc (accepted rest) = accepted (svc ∷ rest)
add_service svc (rejected f) = rejected f

module _ (parse : String → Option Url) where
  -- The part before the first "://" is "http" or "https" exactly for these two beginnings.
  unfoldable pub validate_endpoint : String → Option EndpointFault
  validate_endpoint endpoint =
      if not (has_prefix "http://" endpoint || has_prefix "https://" endpoint)
      then some wrong_scheme
      else url_fault (parse endpoint)

  abbrev pub endpoint_fault : Service → Option ServiceFault
  endpoint_fault svc =
      if not (needs_endpoint svc.adapter)
      then none
      else if svc.endpoint == ""
      then some needs_an_endpoint
      else or_else (wrap bad_endpoint (validate_endpoint svc.endpoint))
          (if not (svc.unit == "") then some takes_no_unit else none)

  abbrev pub unit_fault : Service → Option ServiceFault
  unit_fault svc =
      if not (is_systemd_unit svc.adapter)
      then none
      else if svc.unit == ""
      then some needs_a_unit
      else if not (svc.endpoint == "")
      then some takes_no_endpoint
      else wrap bad_unit (validate_unit svc.unit)

  -- The checks of one service, given the names seen before it.
  unfoldable pub service_fault : List String → Service → Option ServiceFault
  service_fault seen svc =
      if not (matches in_name svc.name)
      then some bad_name
      else if contains seen svc.name
      then some defined_twice
      else if not (valid svc.adapter)
      then some unknown_adapter
      else or_else (endpoint_fault svc) (unit_fault svc)

  unfoldable pub validate_services : List String → List Service → Checked (List Service)
  validate_services seen [] = accepted []
  validate_services seen (s ∷ ss) =
      let rest = validate_services (s.name ∷ seen) ss in
      elim (service_fault seen s) [
        | some f ↦ rejected (in_service s.name f)
        | none ↦ add_service (filled s) rest
      ]

  abbrev pub with_services : Config → Checked (List Service) → Checked Config
  with_services cfg (rejected f) = rejected f
  with_services cfg (accepted services) =
      let workload = cfg.policy.default_workload in
      if not (workload == "") && not (contains (names_of cfg.services) workload)
      then rejected (no_such_workload workload)
      else accepted (record cfg { policy = checked_policy cfg.policy; services = services })

  unfoldable pub validate : Config → Checked Config
  validate cfg =
      if ltb_ℤ cfg.policy.gpu_index (pos 0)
      then rejected (negative_gpu_index cfg.policy.gpu_index)
      else with_services cfg (validate_services [] cfg.services)
