-- ===== src/Protocol/CutOpen.antt =====
-- When `Frame::decode` panics.
use meshly_core.Common.{
  ok-ne-panic, ℕ, ◌+◌, ◌≤◌, ◌<◌, ◌≡◌, refl, sym, ap, ◌∙◌, ◌≢◌, ◌↔◌, inl, inr, true, false, [], ◌∷◌,
  ◌++◌, arith, ltb, nat_beq, nat_beq_iff, lt→ltb, ltb-false→le, le→ltb-false, Bool-cases, nat_eq,
  list_eq, length, take, drop, take-append-drop, length-take, length-drop, err, panic, ◌>>=◌,
  >>=-ne-panic, reject_if-ne-panic, index, slice, slice-ne-panic, skip_branch, ok_or-ne-panic,
  Bytes, valid_utf8, from_le16,
}
use meshly_core.Protocol.{
  control_error_tag, control_heartbeat, control_subscribe_ok, control_subscribe,
  control_register_ok, control_register, control_hello_ok, control_hello, data_auth_err,
  data_auth_ok, data_auth_proof, data_auth_nonce, data_auth_hello, utf8, FrameError, data_open_tag,
}
use meshly_core.Protocol.Json.{Json, Codec}
use meshly_core.Protocol.OpenPayload.{from_utf8_valid}
use meshly_core.Protocol.Encode.{
  from_utf8, array32, read_json, decode_provider, decode_data_open, decode_auth_err,
  decode_control_error, decode,
}
use meshly_core.Protocol.Panics.{
  IsCutOpen, from_utf8-ne-panic, decode_provider-panic, decode_provider-RunsOut,
  decode_data_open_reads,
}

IsCutOpen-panic : (p : Bytes) → IsCutOpen p → decode_data_open p ≡ panic
IsCutOpen-panic p c =
    rw
      (
        decode_data_open_reads p c.lo c.hi c.service c.vlo c.vhi c.rest c.layout c.service_length
            c.minimum,
        from_utf8_valid c.service c.service_valid,
      )
      (decode_provider-panic p c.lo c.hi c.service c.vlo c.vhi c.rest c.layout c.service_length
        c.minimum c.runs_out)

two_bytes : (bs : Bytes) → 2 ≤ length bs → (a : ℕ) × (b : ℕ) × (r : Bytes) × (bs ≡ a ∷ b ∷ r)
two_bytes [] h = absurd (omega arith)
two_bytes (a ∷ []) h = absurd (omega arith)
two_bytes (a ∷ b ∷ r) h = (a, b, r, refl)

from_utf8_invalid : (bs : Bytes) → valid_utf8 bs ≡ false → from_utf8 bs ≡ err utf8
unfolding from_utf8
from_utf8_invalid bs h = rw h

module _ (lo hi : ℕ) (q : Bytes) where
  abbrev p : Bytes
  p = lo ∷ hi ∷ q

  abbrev n : ℕ
  n = from_le16 lo hi

  short_refused : ltb (length p) (2 + n + 2 + 2 + 32) ≡ true → decode_data_open p ≢ panic
  unfolding decode_data_open index
  short_refused short =
      let two = le→ltb-false (length p) 2 (omega arith) in rw (two, short) (λ h. cc)

  long_enough : decode_data_open p ≡ panic → n + 36 ≤ length q
  long_enough h = elim (Bool-cases (ltb (length p) (2 + n + 2 + 2 + 32))) [
    | inr long ↦ omega (arith, ltb-false→le (length p) (2 + n + 2 + 2 + 32) long)
    | inl short ↦ absurd (short_refused short h)
  ]

  panic-IsCutOpen : decode_data_open p ≡ panic → IsCutOpen p
  panic-IsCutOpen h =
      let long = long_enough h in
      let svc = take n q in
      let service_length = length-take n q (omega arith) in
      let (vlo, vhi, rest, e) = two_bytes (drop n q) (omega (arith, length-drop n q)) in
      let layout : p ≡ lo ∷ hi ∷ (svc ++ (vlo ∷ vhi ∷ rest)) =
        ap (λ (r : Bytes). lo ∷ hi ∷ r)
          (sym (take-append-drop n q) ∙ ap (λ (r : Bytes). svc ++ r) e) in
      let minimum : 34 ≤ length rest = omega (arith, ap length e, length-drop n q) in
      let reads = decode_data_open_reads p lo hi svc vlo vhi rest layout service_length minimum in
      let chain : (from_utf8 svc >>= λ s. decode_provider p s n) ≡ panic = sym reads ∙ h in
      elim (Bool-cases (valid_utf8 svc)) [
        | inr bad ↦ absurd (cc (rw (from_utf8_invalid svc bad) at chain))
        | inl valid ↦ record {
          lo = lo;
          hi = hi;
          service = svc;
          vlo = vlo;
          vhi = vhi;
          rest = rest;
          layout = layout;
          service_length = service_length;
          service_valid = valid;
          minimum = minimum;
          runs_out =
              decode_provider-RunsOut p lo hi svc vlo vhi rest layout service_length minimum
                (rw (from_utf8_valid svc valid) at chain);
        }
      ]

too_short-ne-panic : (bs : Bytes) → length bs < 2 → decode_data_open bs ≢ panic
unfolding decode_data_open
too_short-ne-panic bs h = rw (lt→ltb (length bs) 2 h) (λ q. cc)

data_open_panic : (bs : Bytes) → decode_data_open bs ≡ panic → IsCutOpen bs
data_open_panic [] h = absurd (too_short-ne-panic [] (omega arith) h)
data_open_panic (x ∷ []) h = absurd (too_short-ne-panic (x ∷ []) (omega arith) h)
data_open_panic (lo ∷ hi ∷ q) h = panic-IsCutOpen lo hi q h

array32-ne-panic : (bs : Bytes) → array32 bs ≢ panic
unfolding array32
array32-ne-panic bs h = ground arith

module _ (b : ℕ) (bs : Bytes) where
  some_bytes : nat_beq (length (b ∷ bs)) 0 ≡ false
  some_bytes = ground arith

  auth_err_body : slice {E = FrameError} (b ∷ bs) 1 (length (b ∷ bs)) ≢ panic
  auth_err_body = slice-ne-panic (b ∷ bs) 1 (length (b ∷ bs)) (omega arith) (omega arith)

  control_error_room : (c : ℕ) → ltb (length (b ∷ c ∷ bs)) 2 ≡ false
  control_error_room c = le→ltb-false (length (b ∷ c ∷ bs)) 2 (omega arith)

  control_error_body : (c : ℕ) → slice {E = FrameError} (b ∷ c ∷ bs) 2 (length (b ∷ c ∷ bs)) ≢ panic
  control_error_body c =
      slice-ne-panic (b ∷ c ∷ bs) 2 (length (b ∷ c ∷ bs)) (omega arith) (omega arith)

decode_auth_err-ne-panic : (bs : Bytes) → decode_auth_err bs ≢ panic
unfolding decode_auth_err index
decode_auth_err-ne-panic [] = λ h. cc
decode_auth_err-ne-panic (b ∷ bs) = rw (some_bytes b bs) (
    >>=-ne-panic _ _ (auth_err_body b bs)
      λ body _. >>=-ne-panic _ _ (from_utf8-ne-panic body) λ r _ h. cc)

decode_control_error-ne-panic : (bs : Bytes) → decode_control_error bs ≢ panic
unfolding decode_control_error index
decode_control_error-ne-panic [] = λ h. cc
decode_control_error-ne-panic (b ∷ []) = λ h. cc
decode_control_error-ne-panic (b ∷ c ∷ bs) = rw (control_error_room b bs c) (
    >>=-ne-panic _ _ (control_error_body b bs c)
      λ body _. >>=-ne-panic _ _ (from_utf8-ne-panic body) λ r _ h. cc)

read_json-ne-panic : {A : Type 0} (c : Codec A) (bs : Bytes) → read_json c bs ≢ panic
unfolding read_json
read_json-ne-panic c bs = ok_or-ne-panic (c.from_slice bs) _

module _ (json : Json) where
  decode_at_open : (p : Bytes) → decode json data_open_tag p ≡ decode_data_open p
  unfolding decode
  decode_at_open p = refl

  decode_elsewhere : (t : ℕ) (bs : Bytes) → decode json t bs ≡ panic → t ≡ data_open_tag
  unfolding decode
  decode_elsewhere t bs h =
      let h1 =
        skip_branch (nat_beq t data_auth_hello) _ _ (reject_if-ne-panic _ _ _ (ok-ne-panic _)) h in
      let h2 =
        skip_branch (nat_beq t data_auth_nonce) _ _
          (>>=-ne-panic _ _ (array32-ne-panic bs) (λ m _. ok-ne-panic _)) h1 in
      let h3 =
        skip_branch (nat_beq t data_auth_proof) _ _
          (>>=-ne-panic _ _ (array32-ne-panic bs) (λ m _. ok-ne-panic _)) h2 in
      let h4 = skip_branch (nat_beq t data_auth_ok) _ _ (ok-ne-panic _) h3 in
      let h5 = skip_branch (nat_beq t data_auth_err) _ _ (decode_auth_err-ne-panic bs) h4 in
      elim (Bool-cases (nat_beq t data_open_tag)) [
        | inl at_open ↦ (nat_beq_iff t data_open_tag).0 at_open
        | inr other ↦
            let h6 = rw other at h5 in
            let h7 =
              skip_branch (nat_beq t control_hello) _ _
                (>>=-ne-panic _ _ (read_json-ne-panic json.hello bs) (λ m _. ok-ne-panic _)) h6 in
            let h8 =
              skip_branch (nat_beq t control_hello_ok) _ _
                (>>=-ne-panic _ _ (read_json-ne-panic json.hello_ok bs) (λ m _. ok-ne-panic _))
                h7 in
            let h9 =
              skip_branch (nat_beq t control_register) _ _
                (>>=-ne-panic _ _ (read_json-ne-panic json.register bs) (λ m _. ok-ne-panic _))
                h8 in
            let h10 =
              skip_branch (nat_beq t control_register_ok) _ _
                (>>=-ne-panic _ _ (read_json-ne-panic json.register_ok bs) (λ m _. ok-ne-panic _))
                h9 in
            let h11 =
              skip_branch (nat_beq t control_subscribe) _ _
                (>>=-ne-panic _ _ (read_json-ne-panic json.subscribe bs) (λ m _. ok-ne-panic _))
                h10 in
            let h12 =
              skip_branch (nat_beq t control_subscribe_ok) _ _
                (>>=-ne-panic _ _ (read_json-ne-panic json.subscribe_ok bs) (λ m _. ok-ne-panic _))
                h11 in
            let h13 = skip_branch (nat_beq t control_heartbeat) _ _ (ok-ne-panic _) h12 in
            let h14 =
              skip_branch (nat_beq t control_error_tag) _ _ (decode_control_error-ne-panic bs)
                h13 in
            absurd (cc h14)
      ]

  -- Decoding panics exactly on the tag of DATA_OPEN with a payload that has, behind a service string that is
  -- UTF-8 and as long as declared, two bytes of a provider length and at least 34 more, and where these
  -- bytes are fewer than that length, or hold a provider string that is UTF-8 with fewer than two bytes
  -- behind it.
  pub decode-panic_iff :
      (t : ℕ) (p : Bytes) → (decode json t p ≡ panic) ↔ ((t ≡ data_open_tag) × IsCutOpen p)
  decode-panic_iff t p = (
    λ h.
        let at_open = decode_elsewhere t p h in
        (at_open, data_open_panic p (sym (decode_at_open p) ∙ rw at_open at h)),
    λ c. rw c.0 (decode_at_open p ∙ IsCutOpen-panic p c.1),
  )
