-- ===== src/Protocol/OpenPayload.antt =====
-- The DATA_OPEN arm of `decode` on the payload that `encode_payload` wrote.
use meshly_core.Common.{
  ℕ, ◌+◌, ◌/◌, ◌%◌, ◌<◌, ◌≡◌, refl, sym, ◌∙◌, [], ◌∷◌, ◌++◌, append_assoc, append-nil, arith, ltb,
  le→ltb-false, number_tests, nat_eq, list_eq, length, length-append, ok, >>=-eq-ok,
  reject_if-passed, index-at, slice-at, Bytes, Text, IsByte, IsUtf8, to_le16, from_le16-to_le16,
}
use meshly_core.Protocol.{
  FrameError, Frame, auth_nonce, auth_proof, auth_err, data_open, control_error, DataOpen,
}
use meshly_core.Protocol.Encode.{
  u16_max, put_string, encode_data_open, from_utf8, decode_consumer, decode_provider,
  decode_data_open,
}

-- What Rust's types say of a frame: strings are UTF-8, arrays have 32 bytes, codes fit their words.
abbrev pub IsWellFormed : Frame → Type 0
IsWellFormed (auth_nonce nonce) = length nonce ≡ 32
IsWellFormed (auth_proof mac) = length mac ≡ 32
IsWellFormed (auth_err e) = IsByte e.code × IsUtf8 e.reason
IsWellFormed (data_open d) =
    IsUtf8 d.target_service
    × IsUtf8 d.target_provider
    × IsUtf8 d.consumer_node_id
    × (length d.proof ≡ 32)
IsWellFormed (control_error e) = (e.code < 65536) × IsUtf8 e.reason
IsWellFormed _ = Unit

pub from_utf8_valid : (s : Text) → IsUtf8 s → from_utf8 s ≡ ok s
unfolding from_utf8
from_utf8_valid s h = rw h

put_string_ok :
    (s : Text) (p : Bytes)
    → put_string s ≡ ok p
    → (length s < 65536) × (p ≡ to_le16 (length s) ++ s)
unfolding put_string
put_string_ok s p h =
    let (short, e) = reject_if-passed (ltb u16_max (length s)) _ (ok (to_le16 (length s) ++ s)) h in
    (omega (number_tests, short), cc e)

-- The bytes of a DATA_OPEN payload from the consumer string on, and from the provider string on.
abbrev consumer_part : Text → Bytes → Bytes
consumer_part c proof = to_le16 (length c) ++ (c ++ proof)

abbrev provider_part : Text → Text → Bytes → Bytes
provider_part v c proof = to_le16 (length v) ++ (v ++ consumer_part c proof)

module _ (d : DataOpen) (h : IsWellFormed (data_open d)) where
  open d use {target_service as s, target_provider as v, consumer_node_id as c, proof}

  decode_consumer_part :
      (before : Bytes) (at : ℕ)
      → length c < 65536
      → at ≡ length before
      → decode_consumer (before ++ consumer_part c proof) s v at ≡ ok (data_open d)
  unfolding decode_consumer
  decode_consumer_part before at fits e =
      let p = before ++ consumer_part c proof in
      let n = length c in
      let lo =
        index-at {E = FrameError} p before (n % 256) ((n / 256 % 256) ∷ (c ++ proof)) at refl e in
      let hi =
        index-at {E = FrameError} p (before ++ ((n % 256) ∷ [])) (n / 256 % 256) (c ++ proof)
          (at + 1) (sym (append_assoc before _ _)) (rw length-append (omega arith)) in
      let wide = from_le16-to_le16 n fits in
      let all_there : length p ≡ at + 2 + n + 32 =
        length-append before _ ∙ omega (arith, length-append c proof, h.3) in
      let room = le→ltb-false (length p) (at + 2 + n + 32) (omega arith) in
      let body =
        slice-at {E = FrameError} p (before ++ to_le16 n) c proof (at + 2) (at + 2 + n)
          (sym (append_assoc before _ _)) (rw length-append (omega arith)) refl in
      let tail =
        slice-at {E = FrameError} p (before ++ (to_le16 n ++ c)) proof [] (at + 2 + n)
          (at + 2 + n + 32) (simp (append_assoc, append-nil)) (rw (length-append) (omega arith))
          (omega (arith, h.3)) in
      rw (lo, hi, wide, room, body, from_utf8_valid c h.2, tail)

  decode_provider_part :
      (before : Bytes)
      → length v < 65536
      → length c < 65536
      → 2 + length s ≡ length before
      → decode_provider (before ++ provider_part v c proof) s (length s) ≡ ok (data_open d)
  unfolding decode_provider
  decode_provider_part before fits fits' e =
      let n = length v in
      let rest = consumer_part c proof in
      let p = before ++ provider_part v c proof in
      let at = 2 + length s in
      let lo =
        index-at {E = FrameError} p before (n % 256) ((n / 256 % 256) ∷ (v ++ rest)) at refl e in
      let hi =
        index-at {E = FrameError} p (before ++ ((n % 256) ∷ [])) (n / 256 % 256) (v ++ rest)
          (at + 1) (sym (append_assoc before _ _)) (rw length-append (omega arith)) in
      let wide = from_le16-to_le16 n fits in
      let body =
        slice-at {E = FrameError} p (before ++ to_le16 n) v rest (at + 2) (at + 2 + n)
          (sym (append_assoc before _ _)) (rw length-append (omega arith)) refl in
      let head = before ++ (to_le16 n ++ v) in
      let whole : p ≡ head ++ rest = simp append_assoc in
      let consumer =
        decode_consumer_part head (at + 2 + n) fits' (sym (length-append before _ ∙ omega arith)) in
      rw (lo, hi, wide, body, from_utf8_valid v h.1) (rw whole consumer)

  abbrev payload : Bytes
  payload = to_le16 (length s) ++ (s ++ provider_part v c proof)

  encode_data_open_shape :
      (p : Bytes)
      → encode_data_open d ≡ ok p
      → (length s < 65536) × (length v < 65536) × (length c < 65536) × (p ≡ payload)
  unfolding encode_data_open
  encode_data_open_shape p made =
      let (x, ex, m1) = >>=-eq-ok (put_string s) _ made in
      let (y, ey, m2) = >>=-eq-ok (put_string v) _ m1 in
      let (z, ez, m3) = >>=-eq-ok (put_string c) _ m2 in
      let (fits_s, es) = put_string_ok s x ex in
      let (fits_v, ev) = put_string_ok v y ey in
      let (fits_c, ec) = put_string_ok c z ez in (fits_s, fits_v, fits_c, cc (m3, es, ev, ec))

  decode_payload :
      length s < 65536
      → length v < 65536
      → length c < 65536
      → decode_data_open payload ≡ ok (data_open d)
  unfolding decode_data_open
  decode_payload fits_s fits_v fits_c =
      let n = length s in
      let rest = provider_part v c proof in
      let size : length payload ≡ 2 + (n + (2 + (length v + (2 + (length c + 32))))) = omega (
        arith,
        length-append s rest,
        length-append v (consumer_part c proof),
        length-append c proof,
        h.3,
      ) in
      let lo =
        index-at {E = FrameError} payload [] (n % 256) ((n / 256 % 256) ∷ (s ++ rest)) 0 refl
          refl in
      let hi =
        index-at {E = FrameError} payload ((n % 256) ∷ []) (n / 256 % 256) (s ++ rest) 1 refl
          refl in
      let wide = from_le16-to_le16 n fits_s in
      let room = le→ltb-false (length payload) 2 (omega arith) in
      let room' = le→ltb-false (length payload) (2 + n + 2 + 2 + 32) (omega arith) in
      let body = slice-at {E = FrameError} payload (to_le16 n) s rest 2 (2 + n) refl refl refl in
      rw (room, lo, hi, wide, room', body, from_utf8_valid s h.0)
        (decode_provider_part (to_le16 n ++ s) fits_v fits_c (omega arith))

  pub decode-encode_data_open :
      (p : Bytes) → encode_data_open d ≡ ok p → decode_data_open p ≡ ok (data_open d)
  decode-encode_data_open p made =
      let (fits_s, fits_v, fits_c, e) = encode_data_open_shape p made in
      rw e (decode_payload fits_s fits_v fits_c)
