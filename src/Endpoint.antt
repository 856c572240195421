-- ===== src/Endpoint.antt =====
-- crates/common/src/endpoint.rs, the parser of ids, over the parsers of iroh and of the hex crate.
mod Tests
use meshly_core.Common.{
  ℕ, zero, suc, ◌+◌, ◌-◌, ◌*◌, ◌/◌, ◌%◌, ◌^◌, ◌≤◌, ◌<◌, min, max, String, ◌≡◌, refl, sym, ap, ◌∙◌,
  ◌≢◌, ◌↔◌, ◌⊎◌, inl, inr, Bool, true, false, ◌&&◌, ◌||◌, not, Option, none, some, List, [], ◌∷◌,
  ◌++◌, map, append_assoc, append-nil, arith, ltb, leb, nat_beq, nat_beq_iff, if◌then◌else◌, ltb→lt,
  lt→ltb, ltb-false→le, le→ltb-false, number_tests, Bool-cases, Option-cases, Eq, ◌==◌, eq_iff,
  beq_self, nat_eq, list_eq, length, get_elem?, take, drop, replicate, set, All, all, any, find,
  length-append, take-append, drop-append, take-append-drop, length-take, length-drop, length-set,
  get_elem?-lt, get_elem?-append, Result, ok, err, panic, ◌>>=◌, ◌>>◌, reject_if, ok_or, >>=-eq-ok,
  >>=-ne-panic, reject_if-passed, reject_if-ne-panic, list_beq, index, slice, index-at, index-lt,
  slice-at, slice_past_end, slice_in_range, index-ne-panic, not-false, map_err, ok_injective,
  map_err-eq-ok, index_past_end, slice-ne-panic, skip_branch, ok_or-ne-panic, ok-ne-panic, Bytes,
  Text, IsByte, text, within, valid_utf8, IsUtf8, ascii-IsUtf8, from_le16, to_le16,
  from_le16-to_le16,
}

-- `EndpointId::from_str`, `hex::decode` and `PublicKey::from_bytes`.
pub record Parsers (Peer : Type 0) : Type 0 where
  pub from_str : Text → Option Peer
  pub hex_decode : Text → Option Bytes
  pub from_bytes : Bytes → Option Peer

module _ {Peer : Type 0} (parsers : Parsers Peer) where
  abbrev of_bytes : Bytes → Option Peer
  of_bytes bytes = if nat_beq (length bytes) 32 then parsers.from_bytes bytes else none

  abbrev of_hex : Option Bytes → Option Peer
  of_hex none = none
  of_hex (some bytes) = of_bytes bytes

  abbrev of_canonical : Text → Option Peer → Option Peer
  of_canonical s (some id) = some id
  of_canonical s none = of_hex (parsers.hex_decode s)

  pub parse_endpoint_id : Text → Option Peer
  parse_endpoint_id s = of_canonical s (parsers.from_str s)

  -- What an id is in hex: 32 bytes that make it.
  abbrev IsHexOf : Text → Peer → Type 0
  IsHexOf s id =
      (bytes : Bytes) × (parsers.hex_decode s ≡ some bytes)
      × (length bytes ≡ 32)
      × (parsers.from_bytes bytes ≡ some id)

  of_bytes-some :
      (bytes : Bytes) (id : Peer)
      → of_bytes bytes ≡ some id
      → (length bytes ≡ 32) × (parsers.from_bytes bytes ≡ some id)
  of_bytes-some bytes id h = elim (Bool-cases (nat_beq (length bytes) 32)) [
    | inl e ↦ ((nat_beq_iff (length bytes) 32).0 e, simp e at h)
    | inr e ↦ cc
  ]

  of_hex-some :
      (s : Text) (decoded : Option Bytes) (id : Peer)
      → parsers.hex_decode s ≡ decoded
      → of_hex decoded ≡ some id
      → IsHexOf s id
  of_hex-some s none id e h = cc
  of_hex-some s (some bytes) id e h =
      (bytes, e, (of_bytes-some bytes id h).0, (of_bytes-some bytes id h).1)

  -- An id that is parsed is iroh's reading of the text, or the text is not one to iroh and is its 32 bytes in
  -- hex.
  parse_endpoint_id-some :
      (s : Text) (id : Peer)
      → parse_endpoint_id s ≡ some id
      → (parsers.from_str s ≡ some id) ⊎ ((parsers.from_str s ≡ none) × IsHexOf s id)
  unfolding parse_endpoint_id
  parse_endpoint_id-some s id h = elim (Option-cases (parsers.from_str s)) [
    | inl e ↦
        inr (e, of_hex-some s (parsers.hex_decode s) id refl (sym (ap (of_canonical s) e) ∙ h))
    | inr p ↦ inl (p.1 ∙ (sym (ap (of_canonical s) p.1) ∙ h))
  ]

  -- A text that iroh reads back parses to its id, so that a printed id parses to itself.
  parse_endpoint_id-printed :
      (s : Text) (id : Peer) → parsers.from_str s ≡ some id → parse_endpoint_id s ≡ some id
  unfolding parse_endpoint_id
  parse_endpoint_id-printed s id h = rw h refl

  -- The 32 bytes of an id in hex parse to it, if iroh does not read the text as another one.
  parse_endpoint_id-hex :
      (s : Text) (id : Peer)
      → parsers.from_str s ≡ none
      → IsHexOf s id
      → parse_endpoint_id s ≡ some id
  unfolding parse_endpoint_id
  parse_endpoint_id-hex s id h (bytes, decoded, full, made) = rw (h, decoded, full, made) refl
