-- ===== src/Protocol/Stream.antt =====
-- What `write_to` puts on a stream and what `read_from` takes from it.
use meshly_core.Common.{
  map_err-eq-ok, ℕ, ◌≤◌, ◌≡◌, refl, sym, ap, ◌∙◌, true, [], ◌∷◌, ◌++◌, append_assoc, append-nil,
  arith, ltb, leb, if◌then◌else◌, ltb-false→le, le→ltb-false, nat_eq, list_eq, length,
  length-append, take-append, drop-append, ok, >>=-eq-ok, reject_if-passed, index, map_err,
  ok_injective, Bytes, to_le16, from_le16-to_le16,
}
use meshly_core.Protocol.{io, Frame, tag, max_frame_payload}
use meshly_core.Protocol.Json.{Json, JsonRoundTrips}
use meshly_core.Protocol.Encode.{encode_payload, decode}
use meshly_core.Protocol.OpenPayload.{IsWellFormed}
use meshly_core.Protocol.RoundTrip.{decode-encode_payload}
use meshly_core.Protocol.Wire.{
  Writer, write_all, Ending, Reader, read_exact, payload_error, write_body, write_to, read_from,
}

-- The bytes of a frame on the wire.
abbrev pub frame_bytes : Frame → Bytes → Bytes
frame_bytes f payload = tag f ∷ (to_le16 (length payload) ++ payload)

write_all-sent :
    (bs : Bytes) (w : Writer) {w' : Writer} → write_all bs w ≡ ok w' → w'.sent ≡ w.sent ++ bs
unfolding write_all
write_all-sent bs w h = ground arith

write_body-sent :
    (bs : Bytes) (w : Writer) {w' : Writer} → write_body bs w ≡ ok w' → w'.sent ≡ w.sent ++ bs
unfolding write_body
write_body-sent [] w h = rw append-nil (sym (ap (λ (v : Writer). v.sent) (ok_injective h)))
write_body-sent (b ∷ bs) w h = write_all-sent (b ∷ bs) w (map_err-eq-ok io _ (nonempty h))
  where
    nonempty :
        {w' : Writer} → write_body (b ∷ bs) w ≡ ok w' → map_err io (write_all (b ∷ bs) w) ≡ ok w'
    nonempty h = ground (arith, h)

module _ (json : Json) where
  write_to-sent :
      (f : Frame) (w w' : Writer)
      → write_to json f w ≡ ok w'
      → (p : Bytes) × (encode_payload json f ≡ ok p)
        × (length p ≤ max_frame_payload)
        × (w'.sent ≡ w.sent ++ frame_bytes f p)
  unfolding write_to
  write_to-sent f w w' h =
      let (p, ep, h1) = >>=-eq-ok (encode_payload json f) _ h in
      let (fits, h2) = reject_if-passed (ltb max_frame_payload (length p)) _ _ h1 in
      let header = tag f ∷ to_le16 (length p) in
      let (w1, e1, h3) = >>=-eq-ok (map_err io (write_all header w)) _ h2 in
      let first = write_all-sent header w (map_err-eq-ok io _ e1) in
      let second = write_body-sent p w1 h3 in
      (p, ep, ltb-false→le _ _ fits, second ∙ rw first (append_assoc w.sent header p))

abbrev pub after : Bytes → Ending → Reader
after rest e = record { pending = rest; ending = e }

read_exact-append :
    (bs rest : Bytes) (n : ℕ) (e : Ending)
    → n ≡ length bs
    → read_exact n (after (bs ++ rest) e) ≡ ok (bs, after rest e)
unfolding read_exact
read_exact-append bs rest n e h =
    let there : leb n (length (bs ++ rest)) ≡ true = ground (arith, length-append bs rest) in
    rw (there, h, take-append bs rest, drop-append bs rest)

-- `if len > 0 { r.read_exact(&mut payload) }`
read_body-append :
    (p rest : Bytes) (n : ℕ) (e : Ending)
    → n ≡ length p
    → (if ltb 0 n
        then map_err (payload_error n) (read_exact n (after (p ++ rest) e))
        else ok ([], after (p ++ rest) e))
      ≡ ok (p, after rest e)
read_body-append [] rest n e h = rw h
read_body-append (b ∷ bs) rest n e h =
    let some_bytes : ltb 0 n ≡ true = ground arith in
    rw (some_bytes, read_exact-append (b ∷ bs) rest n e h)

module _ (json : Json) where
  read_frame_bytes :
      (f : Frame) (p rest : Bytes) (e : Ending)
      → length p ≤ max_frame_payload
      → decode json (tag f) p ≡ ok f
      → read_from json (after (frame_bytes f p ++ rest) e) ≡ ok (f, after rest e)
  unfolding read_from index
  read_frame_bytes f p rest e fits d =
      let n = length p in
      let header = tag f ∷ to_le16 n in
      let head = read_exact-append header (p ++ rest) 3 e refl in
      let wide = from_le16-to_le16 n (omega arith) in
      let room = le→ltb-false max_frame_payload n fits in
      rw (head, wide, room, read_body-append p rest n e refl, d)

  -- With a JSON library that reads back what it writes, what write_to adds to the stream for a
  -- well-formed frame, when it succeeds, is read back by read_from as that frame, whatever bytes
  -- follow and however the stream ends, and the reader then stands right behind the frame.
  pub read_from-write_to :
      (laws : JsonRoundTrips json) (f : Frame) (w w' : Writer) (rest : Bytes) (e : Ending)
      → IsWellFormed f
      → write_to json f w ≡ ok w'
      → (bs : Bytes) × (w'.sent ≡ w.sent ++ bs)
        × (read_from json (after (bs ++ rest) e) ≡ ok (f, after rest e))
  read_from-write_to laws f w w' rest e wf h =
      let (p, ep, fits, sent) = write_to-sent json f w w' h in
      (
        frame_bytes f p,
        sent,
        read_frame_bytes f p rest e fits (decode-encode_payload json laws f p wf ep),
      )
