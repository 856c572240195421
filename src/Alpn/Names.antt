-- ===== src/Alpn/Names.antt =====
-- The ALPN strings of services: apart from one another and from those of the server.
use meshly_core.Common.{
  ◌≡◌, sym, ap, ◌∙◌, ◌≢◌, ◌++◌, nat_eq, list_eq, drop, ok, >>=-eq-ok, Bytes, Text, text,
}
use meshly_core.Alpn.{alpn_control, alpn_data, prefix, validate_service_name, alpn_for_service}

prefix_injective : (s t : Bytes) → prefix ++ s ≡ prefix ++ t → s ≡ t
prefix_injective s t h = ap (drop 12) h

accepted :
    (s : Text) (a : Bytes)
    → alpn_for_service s ≡ ok a
    → (validate_service_name s ≡ ok tt) × (a ≡ prefix ++ s)
unfolding alpn_for_service
accepted s a h = let (u, v, w) = >>=-eq-ok (validate_service_name s) _ h in (v, cc w)

-- Two services with one ALPN are one service.
pub alpn_for_service_injective :
    (s t : Text) (a : Bytes) → alpn_for_service s ≡ ok a → alpn_for_service t ≡ ok a → s ≡ t
alpn_for_service_injective s t a hs ht =
    prefix_injective s t (sym (accepted s a hs).1 ∙ (accepted t a ht).1)

not_reserved :
    (r s : Text) → validate_service_name r ≢ ok tt → validate_service_name s ≡ ok tt → s ≢ r
not_reserved r s hr hs e = hr (rw e at hs)

control_refused : validate_service_name (text "control") ≢ ok tt
unfolding validate_service_name
control_refused h = cc

data_refused : validate_service_name (text "data") ≢ ok tt
unfolding validate_service_name
data_refused h = cc

-- The ALPN of a service is never that of the control plane or of the data relay.
pub alpn_for_service_apart :
    (s : Text) (a : Bytes) → alpn_for_service s ≡ ok a → (a ≢ alpn_control) × (a ≢ alpn_data)
alpn_for_service_apart s a h =
    let (v, e) = accepted s a h in
    (
      λ q. not_reserved (text "control") s control_refused v (prefix_injective _ _ (sym e ∙ q)),
      λ q. not_reserved (text "data") s data_refused v (prefix_injective _ _ (sym e ∙ q)),
    )
