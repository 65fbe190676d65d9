-- ===== src/Tests/Settings.antt =====
-- Examples for the configuration and the observer.
use gpu_bouncer.Base.{◌↔◌, ◌∷◌, none, ◌≡◌, refl, String, false, Option, some, [], All}
use gpu_bouncer.Base.Int.{ℤ, pos}
use gpu_bouncer.Base.Dict.{Dict, lookup}
use gpu_bouncer.Config.Bounds.{Raw, raw_int, raw_text, numeric_bounds, check_bound, check_bounds}
use gpu_bouncer.Config.Bounds.Ranges.{Passes, check_bounds-InRange}
use gpu_bouncer.Config.Unit.{validate_unit}
use gpu_bouncer.Config.Validate.{
  Url, accepted, validate, validate_services, service_fault, validate_endpoint,
}
use gpu_bouncer.Config.Accepted.{
  IsAcceptable, completed, validate-IsAcceptable, IsAcceptable-validate,
}
use gpu_bouncer.Tests.{house}

-- A parser that finds a host in every text.
abbrev finds_host : String → Option Url
finds_host text = some (record { host = "127.0.0.1"; has_user = false })

house_accepted : validate finds_host house ≡ accepted (completed house)
unfolding validate validate_services service_fault validate_endpoint validate_unit
house_accepted = refl

house-IsAcceptable : IsAcceptable finds_host house
house-IsAcceptable = (validate-IsAcceptable finds_host house (completed house) house_accepted).0

IsAcceptable-validate_example : validate finds_host house ≡ accepted (completed house)
IsAcceptable-validate_example = IsAcceptable-validate finds_host house house-IsAcceptable

-- A parser that reads every text as five seconds, and a policy table.
abbrev five_seconds : String → Option ℤ
five_seconds text = some (pos 5_000_000_000)

abbrev policy_table : Dict Raw
policy_table = ("poll_interval", raw_text "5s") ∷ ("vram_floor_mib", raw_int (pos 512)) ∷ []

policy_passes : check_bounds five_seconds numeric_bounds "policy" policy_table ≡ none
unfolding check_bounds check_bound lookup
policy_passes = refl

check_bounds-InRange_example :
    check_bounds five_seconds numeric_bounds "policy" policy_table ≡ none
    ↔ All (Passes five_seconds "policy" policy_table) numeric_bounds
check_bounds-InRange_example =
    check_bounds-InRange five_seconds numeric_bounds "policy" policy_table
