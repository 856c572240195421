-- ===== src/Protocol/Wire.antt =====
-- `Frame::write_to`, `Frame::read_from` and `decode_from_bytes` of crates/common/src/protocol.rs, over a
-- writer that may fail and a reader whose peer closes or breaks after some bytes.
use meshly_core.Common.{
  ℕ, ◌+◌, ◌-◌, Option, none, some, [], ◌∷◌, ◌++◌, ltb, leb, nat_beq, if◌then◌else◌, nat_eq, list_eq,
  length, take, drop, Result, ok, err, ◌>>=◌, ◌>>◌, reject_if, index, slice, map_err, Bytes,
  from_le16, to_le16,
}
use meshly_core.Protocol.{
  IoError, unexpected_eof, invalid_data, other_io, FrameError, io, short_header, short_payload,
  too_long, Frame, tag, max_frame_payload,
}
use meshly_core.Protocol.Json.{Json}
use meshly_core.Protocol.Encode.{encode_payload, decode}

-- What an `AsyncWrite` has taken, and how much it takes before it fails (`none`: it never does).
pub record Writer : Type 0 where
  pub sent : Bytes
  pub room : Option ℕ

unfoldable pub write_all : Bytes → Writer → Result IoError Writer
write_all bs w = elim w.room [
  | none ↦ ok (record { sent = w.sent ++ bs; room = none })
  | some n ↦
      if leb (length bs) n
      then ok (record { sent = w.sent ++ bs; room = some (n - length bs) })
      else err other_io
]

-- What the peer will have sent, and whether it then closes the stream or the connection breaks.
pub data Ending : Type 0 where
  closed broken : Ending

pub record Reader : Type 0 where
  pub pending : Bytes
  pub ending : Ending

abbrev pub ending_error : Ending → IoError
ending_error closed = unexpected_eof
ending_error broken = other_io

unfoldable pub read_exact : ℕ → Reader → Result IoError (Bytes × Reader)
read_exact n r =
    if leb n (length r.pending)
    then ok (take n r.pending, record r { pending = drop n r.pending })
    else err (ending_error r.ending)

abbrev pub header_error : IoError → FrameError
header_error unexpected_eof = short_header
header_error invalid_data = io invalid_data
header_error other_io = io other_io

abbrev pub payload_error : ℕ → IoError → FrameError
payload_error len unexpected_eof = short_payload len 0
payload_error len invalid_data = io invalid_data
payload_error len other_io = io other_io

-- `if !payload.is_empty() { w.write_all(&payload) }`
unfoldable pub write_body : Bytes → Writer → Result FrameError Writer
unfolding write_all
write_body payload w = if nat_beq (length payload) 0 then ok w else map_err io (write_all payload w)

module _ (json : Json) where
  unfoldable pub write_to : Frame → Writer → Result FrameError Writer
  unfolding write_body
  write_to f w = do
    payload ← encode_payload json f
    reject_if (ltb max_frame_payload (length payload)) (too_long (length payload) max_frame_payload)
    w' ← map_err io (write_all (tag f ∷ to_le16 (length payload)) w)
    write_body payload w'

  unfoldable pub read_from : Reader → Result FrameError (Frame × Reader)
  unfolding read_exact
  read_from r = do
    (head, r1) ← map_err header_error (read_exact 3 r)
    t ← index head 0
    lo ← index head 1
    hi ← index head 2
    let len = from_le16 lo hi
    reject_if (ltb max_frame_payload len) (too_long len max_frame_payload)
    (payload, r2) ←
        (if ltb 0 len then map_err (payload_error len) (read_exact len r1) else ok ([], r1))
    f ← decode json t payload
    ok (f, r2)

  unfoldable pub decode_from_bytes : Bytes → Result FrameError Frame
  decode_from_bytes buf = do
    reject_if (ltb (length buf) 3) short_header
    t ← index buf 0
    lo ← index buf 1
    hi ← index buf 2
    let len = from_le16 lo hi
    reject_if (ltb (length buf) (3 + len)) (short_payload len (length buf - 3))
    payload ← slice buf 3 (3 + len)
    decode json t payload
