-- ===== src/Alpn/Tests.antt =====
-- Runs of the name check, and the theorems at concrete names.
use meshly_core.Common.{◌≡◌, refl, ◌↔◌, [], nat_eq, list_eq, replicate, ok, err, text}
use meshly_core.Alpn.{
  bad_length, invalid_chars, bad_edge, double_dash, reserved, validate_service_name,
  alpn_for_service,
}
use meshly_core.Alpn.Grammar.{IsServiceName, validate_iff}

web_ok : alpn_for_service (text "my-web-1") ≡ ok (text "meshly-core/my-web-1")
unfolding alpn_for_service
web_ok = refl

refusals :
    (validate_service_name [] ≡ err (bad_length 0))
    × (validate_service_name (replicate 33 b'a') ≡ err (bad_length 33))
    × (validate_service_name (text "--ssh") ≡ err bad_edge)
    × (validate_service_name (text "ss--h") ≡ err double_dash)
    × (validate_service_name (text "ssh_22") ≡ err (invalid_chars (text "ssh_22")))
    × (validate_service_name (text "ping") ≡ err (reserved (text "ping")))
unfolding validate_service_name
refusals = (refl, refl, refl, refl, refl, refl)

validate_iff_example : (validate_service_name (text "a-b") ≡ ok tt) ↔ IsServiceName (text "a-b")
validate_iff_example = validate_iff (text "a-b")
