-- ===== src/Protocol/Encode.antt =====
-- `Frame::encode_payload` and `Frame::decode` of crates/common/src/protocol.rs.
use meshly_core.Common.{
  ℕ, ◌+◌, not, [], ◌∷◌, ◌++◌, ltb, nat_beq, if◌then◌else◌, nat_eq, list_eq, length, Result, ok, err,
  ◌>>=◌, ◌>>◌, reject_if, ok_or, index, slice, Bytes, Text, valid_utf8, from_le16, to_le16,
}
use meshly_core.Protocol.{
  invalid_data, FrameError, io, short_payload, too_long, unknown_tag, utf8, Frame, auth_hello,
  auth_nonce, auth_proof, auth_ok, auth_err, data_open, hello, hello_ok, register, register_ok,
  subscribe, subscribe_ok, heartbeat, control_error, data_auth_hello, data_auth_nonce,
  data_auth_proof, data_auth_ok, data_auth_err, data_open_tag, control_hello, control_hello_ok,
  control_register, control_register_ok, control_subscribe, control_subscribe_ok, control_heartbeat,
  control_error_tag, DataOpen,
}
use meshly_core.Protocol.Json.{Codec, Json}

abbrev pub u16_max : ℕ
u16_max = 65535

unfoldable pub write_json : {A : Type 0} → Codec A → A → Result FrameError Bytes
write_json c v = do
  bytes ← ok_or (c.to_vec v) (io invalid_data)
  reject_if (ltb u16_max (length bytes)) (too_long (length bytes) u16_max)
  ok bytes

unfoldable pub read_json : {A : Type 0} → Codec A → Bytes → Result FrameError A
read_json c cur = ok_or (c.from_slice cur) (io invalid_data)

-- One length-prefixed string.
unfoldable pub put_string : Text → Result FrameError Bytes
put_string s = do
  reject_if (ltb u16_max (length s)) (too_long (length s) u16_max)
  ok (to_le16 (length s) ++ s)

unfoldable pub encode_data_open : DataOpen → Result FrameError Bytes
unfolding put_string
encode_data_open d = do
  svc ← put_string d.target_service
  provider ← put_string d.target_provider
  consumer ← put_string d.consumer_node_id
  ok (svc ++ (provider ++ (consumer ++ d.proof)))

unfoldable pub from_utf8 : Bytes → Result FrameError Text
from_utf8 bs = if valid_utf8 bs then ok bs else err utf8

-- `payload.try_into()` at `[u8; 32]`
unfoldable pub array32 : Bytes → Result FrameError Bytes
array32 payload =
    if nat_beq (length payload) 32 then ok payload else err (short_payload 32 (length payload))

-- The arm of `decode` for DATA_OPEN, in the three parts that its strings make. The first takes the
-- offset behind the provider string.
unfoldable pub decode_consumer : Bytes → Text → Text → ℕ → Result FrameError Frame
unfolding from_utf8
decode_consumer payload svc provider prov_end = do
  lo ← index payload prov_end
  hi ← index payload (prov_end + 1)
  let cons_len = from_le16 lo hi
  let cons_start = prov_end + 2
  let cons_end = cons_start + cons_len
  let need_with_cons = cons_end + 32
  reject_if (ltb (length payload) need_with_cons) (short_payload need_with_cons (length payload))
  bytes ← slice payload cons_start cons_end
  consumer ← from_utf8 bytes
  proof ← slice payload cons_end (cons_end + 32)
  ok (
      data_open (record {
        target_service = svc;
        target_provider = provider;
        consumer_node_id = consumer;
        proof = proof;
      }))

unfoldable pub decode_provider : Bytes → Text → ℕ → Result FrameError Frame
unfolding decode_consumer
decode_provider payload svc svc_len = do
  lo ← index payload (2 + svc_len)
  hi ← index payload (2 + svc_len + 1)
  let prov_len = from_le16 lo hi
  let prov_start = 2 + svc_len + 2
  let prov_end = prov_start + prov_len
  bytes ← slice payload prov_start prov_end
  provider ← from_utf8 bytes
  decode_consumer payload svc provider prov_end

unfoldable pub decode_data_open : Bytes → Result FrameError Frame
unfolding decode_provider
decode_data_open payload = do
  reject_if (ltb (length payload) 2) (short_payload 2 (length payload))
  lo ← index payload 0
  hi ← index payload 1
  let svc_len = from_le16 lo hi
  let need_min = 2 + svc_len + 2 + 2 + 32
  reject_if (ltb (length payload) need_min) (short_payload need_min (length payload))
  bytes ← slice payload 2 (2 + svc_len)
  svc ← from_utf8 bytes
  decode_provider payload svc svc_len

unfoldable pub decode_auth_err : Bytes → Result FrameError Frame
unfolding from_utf8
decode_auth_err payload = do
  reject_if (nat_beq (length payload) 0) (short_payload 1 0)
  code ← index payload 0
  bytes ← slice payload 1 (length payload)
  reason ← from_utf8 bytes
  ok (auth_err (record { code = code; reason = reason }))

unfoldable pub decode_control_error : Bytes → Result FrameError Frame
unfolding from_utf8
decode_control_error payload = do
  reject_if (ltb (length payload) 2) (short_payload 2 (length payload))
  lo ← index payload 0
  hi ← index payload 1
  bytes ← slice payload 2 (length payload)
  reason ← from_utf8 bytes
  ok (control_error (record { code = from_le16 lo hi; reason = reason }))

module _ (json : Json) where
  unfoldable pub encode_payload : Frame → Result FrameError Bytes
  unfolding write_json encode_data_open
  encode_payload auth_hello = ok []
  encode_payload (auth_nonce nonce) = ok nonce
  encode_payload (auth_proof mac) = ok mac
  encode_payload auth_ok = ok []
  encode_payload (auth_err e) = ok (e.code ∷ e.reason)
  encode_payload (data_open d) = encode_data_open d
  encode_payload (hello h) = write_json json.hello h
  encode_payload (hello_ok h) = write_json json.hello_ok h
  encode_payload (register r) = write_json json.register r
  encode_payload (register_ok r) = write_json json.register_ok r
  encode_payload (subscribe s) = write_json json.subscribe s
  encode_payload (subscribe_ok s) = write_json json.subscribe_ok s
  encode_payload heartbeat = ok []
  encode_payload (control_error e) = ok (to_le16 e.code ++ e.reason)

  unfoldable pub decode : ℕ → Bytes → Result FrameError Frame
  decode t payload =
      if nat_beq t data_auth_hello
      then (do
        reject_if (not (nat_beq (length payload) 0)) (short_payload 0 (length payload))
        ok auth_hello)
      else if nat_beq t data_auth_nonce
      then (do n ← array32 payload; ok (auth_nonce n))
      else if nat_beq t data_auth_proof
      then (do m ← array32 payload; ok (auth_proof m))
      else if nat_beq t data_auth_ok
      then ok auth_ok
      else if nat_beq t data_auth_err
      then decode_auth_err payload
      else if nat_beq t data_open_tag
      then decode_data_open payload
      else if nat_beq t control_hello
      then (do h ← read_json json.hello payload; ok (hello h))
      else if nat_beq t control_hello_ok
      then (do h ← read_json json.hello_ok payload; ok (hello_ok h))
      else if nat_beq t control_register
      then (do r ← read_json json.register payload; ok (register r))
      else if nat_beq t control_register_ok
      then (do r ← read_json json.register_ok payload; ok (register_ok r))
      else if nat_beq t control_subscribe
      then (do s ← read_json json.subscribe payload; ok (subscribe s))
      else if nat_beq t control_subscribe_ok
      then (do s ← read_json json.subscribe_ok payload; ok (subscribe_ok s))
      else if nat_beq t control_heartbeat
      then ok heartbeat
      else if nat_beq t control_error_tag
      then decode_control_error payload
      else err (unknown_tag t)
