-- ===== src/Alpn.antt =====
-- crates/common/src/alpn.rs: the reserved ALPN strings, the rule for service names, and the ALPN of a
-- service. A name is its UTF-8 bytes: `chars().all(..)` over a test that only ASCII characters pass
-- is the same test on every byte.
pub mod Grammar
pub mod Names
mod Tests
use meshly_core.Common.{
  ◌>>=◌, ◌>>◌, ℕ, Bool, false, ◌&&◌, ◌||◌, not, List, [], ◌∷◌, ◌++◌, arith, nat_beq, ◌==◌, nat_eq,
  list_eq, length, all, any, Result, ok, err, panic, reject_if, Bytes, Text, text, within,
}

abbrev pub alpn_control : Bytes
alpn_control = text "meshly-core/control"

abbrev pub alpn_data : Bytes
alpn_data = text "meshly-core/data"

abbrev pub prefix : Bytes
prefix = text "meshly-core/"

pub data AlpnError : Type 0 where
  bad_length : ℕ → AlpnError
  invalid_chars : Text → AlpnError
  bad_edge : AlpnError
  double_dash : AlpnError
  reserved : Text → AlpnError

abbrev pub reserved_names : List Text
reserved_names =
    text "control"
    ∷ text "data"
    ∷ text "status"
    ∷ text "reload"
    ∷ text "admin"
    ∷ text "metrics"
    ∷ text "ping"
    ∷ []

abbrev pub dash : ℕ
dash = b'-'

-- `is_ascii_lowercase() || is_ascii_digit()`
abbrev pub is_alnum : ℕ → Bool
is_alnum c = within b'a' b'z' c || within b'0' b'9' c

abbrev pub starts_with_dash : Text → Bool
starts_with_dash [] = false
starts_with_dash (c ∷ cs) = nat_beq c dash

abbrev pub ends_with_dash : Text → Bool
ends_with_dash [] = false
ends_with_dash (c ∷ []) = nat_beq c dash
ends_with_dash (c ∷ d ∷ cs) = ends_with_dash (d ∷ cs)

-- `name.contains("--")`
abbrev pub has_double_dash : Text → Bool
has_double_dash [] = false
has_double_dash (c ∷ cs) = (nat_beq c dash && starts_with_dash cs) || has_double_dash cs

unfoldable pub is_reserved : Text → Bool
is_reserved name = any (λ r. r == name) reserved_names

unfoldable pub validate_service_name : Text → Result AlpnError (Unit {0})
unfolding is_reserved
validate_service_name name = do
  let len = length name
  reject_if (not (within 1 32 len)) (bad_length len)
  reject_if (starts_with_dash name || ends_with_dash name) bad_edge
  reject_if (has_double_dash name) double_dash
  reject_if (not (all (λ c. is_alnum c || nat_beq c dash) name)) (invalid_chars name)
  reject_if (is_reserved name) (reserved name)
  ok tt

unfoldable pub alpn_for_service : Text → Result AlpnError Bytes
unfolding validate_service_name
alpn_for_service service = do validate_service_name service; ok (prefix ++ service)
