-- ===== src/Endpoint/Tests.antt =====
-- Texts of each form, with small parsers in place of those of iroh and of hex.
use meshly_core.Common.{
  ℕ, ◌≡◌, refl, none, some, if◌then◌else◌, nat_eq, list_eq, length, replicate, list_beq, text,
}
use meshly_core.Endpoint.{Parsers, parse_endpoint_id}

abbrev one_word : Parsers ℕ
one_word = record {
  from_str = λ s. if list_beq s (text "zzz") then some 1 else none;
  hex_decode = λ s. if list_beq s (text "xyz") then none else some (replicate (length s) 7);
  from_bytes = λ bytes. some (length bytes);
}

canonical : parse_endpoint_id one_word (text "zzz") ≡ some 1
unfolding parse_endpoint_id
canonical = refl

in_hex : parse_endpoint_id one_word (replicate 32 97) ≡ some 32
unfolding parse_endpoint_id
in_hex = refl

short_hex : parse_endpoint_id one_word (text "abab") ≡ none
unfolding parse_endpoint_id
short_hex = refl

not_hex : parse_endpoint_id one_word (text "xyz") ≡ none
unfolding parse_endpoint_id
not_hex = refl
