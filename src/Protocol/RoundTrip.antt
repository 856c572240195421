-- ===== src/Protocol/RoundTrip.antt =====
-- `decode` on what `encode_payload` wrote.
use meshly_core.Common.{
  ok_injective, ◌/◌, ◌%◌, ◌<◌, ◌≡◌, refl, inl, inr, false, [], ◌∷◌, ◌++◌, append-nil, arith,
  nat_beq, le→ltb-false, Option-cases, nat_eq, list_eq, length, ok, index-at, slice-at, Bytes,
  IsUtf8, to_le16, from_le16-to_le16,
}
use meshly_core.Protocol.{
  FrameError, Frame, auth_hello, auth_nonce, auth_proof, auth_ok, auth_err, data_open, hello,
  hello_ok, register, register_ok, subscribe, subscribe_ok, heartbeat, control_error, AuthErr,
  ControlError, tag,
}
use meshly_core.Protocol.Json.{Codec, Json, RoundTrips, JsonRoundTrips}
use meshly_core.Protocol.Encode.{
  write_json, read_json, array32, decode_auth_err, decode_control_error, encode_payload, decode,
}
use meshly_core.Protocol.OpenPayload.{IsWellFormed, from_utf8_valid, decode-encode_data_open}

json_reads_back :
    {A : Type 0} (c : Codec A) (a : A) (p : Bytes)
    → RoundTrips c
    → write_json c a ≡ ok p
    → read_json c p ≡ ok a
unfolding write_json read_json
json_reads_back c a p law h = elim (Option-cases (c.to_vec a)) [
  | inl fails ↦ absurd (ground arith)
  | inr (bs, e) ↦ rw (law a p (ground arith))
]

array32_fits : (bs : Bytes) → length bs ≡ 32 → array32 bs ≡ ok bs
unfolding array32
array32_fits bs h = rw h

decode-encode_auth_err :
    (e : AuthErr) → IsUtf8 e.reason → decode_auth_err (e.code ∷ e.reason) ≡ ok (auth_err e)
unfolding decode_auth_err
decode-encode_auth_err e h =
    let p = e.code ∷ e.reason in
    let first = index-at {E = FrameError} p [] e.code e.reason 0 refl refl in
    let body =
      slice-at {E = FrameError} p (e.code ∷ []) e.reason [] 1 (length p) (simp append-nil) refl
        (omega arith) in
    let some_bytes : nat_beq (length p) 0 ≡ false = ground arith in
    rw (some_bytes, first, body, from_utf8_valid e.reason h)

decode-encode_control_error :
    (e : ControlError)
    → e.code < 65536
    → IsUtf8 e.reason
    → decode_control_error (to_le16 e.code ++ e.reason) ≡ ok (control_error e)
unfolding decode_control_error
decode-encode_control_error e fits h =
    let p = to_le16 e.code ++ e.reason in
    let lo =
      index-at {E = FrameError} p [] (e.code % 256) ((e.code / 256 % 256) ∷ e.reason) 0 refl refl in
    let hi =
      index-at {E = FrameError} p ((e.code % 256) ∷ []) (e.code / 256 % 256) e.reason 1 refl refl in
    let room = le→ltb-false (length p) 2 (omega arith) in
    let body =
      slice-at {E = FrameError} p (to_le16 e.code) e.reason [] 2 (length p) (simp append-nil) refl
        (omega arith) in
    rw (room, lo, hi, body, from_utf8_valid e.reason h, from_le16-to_le16 e.code fits)

module _ (json : Json) (laws : JsonRoundTrips json) where
  -- A well-formed frame whose payload was encoded is decoded from its tag and that payload.
  pub decode-encode_payload :
      (f : Frame) (p : Bytes)
      → IsWellFormed f
      → encode_payload json f ≡ ok p
      → decode json (tag f) p ≡ ok f
  unfolding encode_payload decode tag
  decode-encode_payload auth_hello p w e = rw (← ok_injective e)
  decode-encode_payload (auth_nonce n) p w e = rw (← ok_injective e, array32_fits n w)
  decode-encode_payload (auth_proof m) p w e = rw (← ok_injective e, array32_fits m w)
  decode-encode_payload auth_ok p w e = refl
  decode-encode_payload (auth_err r) p w e = rw (← ok_injective e) (decode-encode_auth_err r w.1)
  decode-encode_payload (data_open d) p w e = decode-encode_data_open d w p e
  decode-encode_payload (hello m) p w e = rw (json_reads_back json.hello m p laws.hello e)
  decode-encode_payload (hello_ok m) p w e = rw (json_reads_back json.hello_ok m p laws.hello_ok e)
  decode-encode_payload (register m) p w e = rw (json_reads_back json.register m p laws.register e)
  decode-encode_payload (register_ok m) p w e =
      rw (json_reads_back json.register_ok m p laws.register_ok e)
  decode-encode_payload (subscribe m) p w e =
      rw (json_reads_back json.subscribe m p laws.subscribe e)
  decode-encode_payload (subscribe_ok m) p w e =
      rw (json_reads_back json.subscribe_ok m p laws.subscribe_ok e)
  decode-encode_payload heartbeat p w e = refl
  decode-encode_payload (control_error r) p w e =
      rw (← ok_injective e) (decode-encode_control_error r w.0 w.1)
