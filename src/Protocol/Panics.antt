-- ===== src/Protocol/Panics.antt =====
-- Where `Frame::decode` indexes out of range.
use meshly_core.Common.{
  refl, length-take, take-append-drop, le→ltb-false, drop, slice-at, false, valid_utf8, ok,
  slice_past_end, ℕ, ◌+◌, ◌≤◌, ◌<◌, ◌≡◌, ap, ◌∙◌, ◌≢◌, ◌⊎◌, inl, inr, [], ◌∷◌, ◌++◌, append_assoc,
  arith, ltb, ltb→lt, ltb-false→le, Bool-cases, nat_eq, list_eq, length, take, length-append,
  Result, panic, ◌>>=◌, >>=-ne-panic, slice, index-at, index-lt, index_past_end, slice-ne-panic,
  Bytes, Text, IsUtf8, from_le16,
}
use meshly_core.Protocol.{FrameError, Frame}
use meshly_core.Protocol.OpenPayload.{from_utf8_valid}
use meshly_core.Protocol.Encode.{decode_data_open, from_utf8, decode_consumer, decode_provider}

-- The provider's declared length runs past the bytes that follow it, or leaves no room for the length
-- of the consumer string behind a provider string that is UTF-8.
abbrev pub RunsOut : ℕ → Bytes → Type 0
RunsOut n rest =
    (length rest < n) ⊎ ((n ≤ length rest) × (length rest < n + 2) × IsUtf8 (take n rest))

-- A DATA_OPEN payload that passes the length check made on the service string and then runs out.
pub record IsCutOpen (payload : Bytes) : Type 0 where
  pub lo : ℕ
  pub hi : ℕ
  pub service : Text
  pub vlo : ℕ
  pub vhi : ℕ
  pub rest : Bytes
  pub layout : payload ≡ lo ∷ hi ∷ (service ++ (vlo ∷ vhi ∷ rest))
  pub service_length : length service ≡ from_le16 lo hi
  pub service_valid : IsUtf8 service
  pub minimum : 34 ≤ length rest
  pub runs_out : RunsOut (from_le16 vlo vhi) rest

pub from_utf8-ne-panic : (bs : Bytes) → from_utf8 bs ≢ panic
unfolding from_utf8
from_utf8-ne-panic bs p = ground arith

decode_consumer-ne-panic :
    (p : Bytes) (svc provider : Text) (prov_end : ℕ)
    → prov_end + 2 ≤ length p
    → decode_consumer p svc provider prov_end ≢ panic
unfolding decode_consumer
decode_consumer-ne-panic p svc provider at h =
    let (lo, elo) = index-lt {E = FrameError} p at (omega arith) in
    let (hi, ehi) = index-lt {E = FrameError} p (at + 1) (omega arith) in
    let n = from_le16 lo hi in
    rw (elo, ehi)
      (elim (Bool-cases (ltb (length p) (at + 2 + n + 32))) [
        | inl short ↦ rw short (λ q. cc)
        | inr long ↦
            let room : at + 2 + n + 32 ≤ length p = ltb-false→le _ _ long in
            rw long (
              >>=-ne-panic _ _ (slice-ne-panic p (at + 2) (at + 2 + n) (omega arith) (omega arith))
                λ bs _. >>=-ne-panic _ _ (from_utf8-ne-panic bs) λ c _.
                  >>=-ne-panic _ _
                    (slice-ne-panic p (at + 2 + n) (at + 2 + n + 32) (omega arith) (omega arith))
                    λ proof _ q. cc)
      ])

decode_consumer-panic :
    (p : Bytes) (svc provider : Text) (at : ℕ)
    → at ≤ length p
    → length p < at + 2
    → decode_consumer p svc provider at ≡ panic
unfolding decode_consumer
decode_consumer-panic p svc provider at h k = elim (Bool-cases (ltb at (length p))) [
  | inl one ↦
      let (lo, elo) = index-lt {E = FrameError} p at (ltb→lt _ _ one) in
      rw (elo, index_past_end {E = FrameError} p (at + 1) (omega arith))
  | inr past ↦ rw (index_past_end {E = FrameError} p at (ltb-false→le _ _ past))
]

-- A payload behind its service string.
module _ (p : Bytes) (lo hi : ℕ) (svc : Text) (vlo vhi : ℕ) (rest : Bytes)
    (layout : p ≡ lo ∷ hi ∷ (svc ++ (vlo ∷ vhi ∷ rest)))
    (service_length : length svc ≡ from_le16 lo hi) (minimum : 34 ≤ length rest) where
  abbrev n : ℕ
  n = from_le16 lo hi

  abbrev m : ℕ
  m = from_le16 vlo vhi

  whole_length : length p ≡ 4 + n + length rest
  whole_length = ap length layout ∙ omega (arith, length-append svc (vlo ∷ vhi ∷ rest))

  after_provider_length : Bytes → Result FrameError Frame
  after_provider_length bytes = do
    provider ← from_utf8 bytes
    decode_consumer p svc provider (2 + n + 2 + m)

  decode_provider_reads :
      decode_provider p svc n ≡ (slice p (2 + n + 2) (2 + n + 2 + m) >>= after_provider_length)
  unfolding decode_provider after_provider_length
  decode_provider_reads =
      let at1 =
        index-at {E = FrameError} p (lo ∷ hi ∷ svc) vlo (vhi ∷ rest) (2 + n) layout (omega arith) in
      let at2 =
        index-at {E = FrameError} p (lo ∷ hi ∷ (svc ++ (vlo ∷ []))) vhi rest (2 + n + 1)
          (layout ∙ simp append_assoc) (omega (arith, length-append svc (vlo ∷ []))) in
      rw (at1, at2)

  -- Enough bytes behind the provider's length: no panic.
  decode_provider-ne-panic : m + 2 ≤ length rest → decode_provider p svc n ≢ panic
  unfolding after_provider_length
  decode_provider-ne-panic h = rw decode_provider_reads (
      >>=-ne-panic _ _
        (slice-ne-panic p (2 + n + 2) (2 + n + 2 + m) (omega arith) (omega (arith, whole_length)))
        λ bs _.
          >>=-ne-panic _ _ (from_utf8-ne-panic bs)
            λ v _. decode_consumer-ne-panic p svc v (2 + n + 2 + m) (omega (arith, whole_length)))

  provider_bytes :
      m ≤ length rest → slice {E = FrameError} p (2 + n + 2) (2 + n + 2 + m) ≡ ok (take m rest)
  provider_bytes h =
      slice-at p (lo ∷ hi ∷ (svc ++ (vlo ∷ vhi ∷ []))) (take m rest) (drop m rest) _ _
        (layout ∙ rw take-append-drop (simp append_assoc))
        (omega (arith, length-append svc (vlo ∷ vhi ∷ []))) (omega (arith, length-take m rest h))

  pub decode_provider-panic : RunsOut m rest → decode_provider p svc n ≡ panic
  unfolding after_provider_length
  decode_provider-panic (inl short) = rw (
    decode_provider_reads,
    slice_past_end {E = FrameError} p (2 + n + 2) (2 + n + 2 + m) (omega (arith, whole_length)),
  )
  decode_provider-panic (inr (fits, ends, valid)) =
      rw (decode_provider_reads, provider_bytes fits, from_utf8_valid (take m rest) valid)
        (decode_consumer-panic p svc (take m rest) (2 + n + 2 + m) (omega (arith, whole_length))
          (omega (arith, whole_length)))

  invalid_provider :
      m ≤ length rest → valid_utf8 (take m rest) ≡ false → decode_provider p svc n ≢ panic
  unfolding after_provider_length from_utf8
  invalid_provider fits bad = rw (decode_provider_reads, provider_bytes fits, bad) (λ q. cc)

  -- If the provider part panics, then the bytes have run out.
  pub decode_provider-RunsOut : decode_provider p svc n ≡ panic → RunsOut m rest
  decode_provider-RunsOut h = elim (Bool-cases (ltb (length rest) m)) [
    | inl short ↦ inl (ltb→lt _ _ short)
    | inr long ↦
        let fits = ltb-false→le _ _ long in
        elim (Bool-cases (ltb (length rest) (m + 2))) [
          | inr enough ↦ absurd (decode_provider-ne-panic (ltb-false→le _ _ enough) h)
          | inl ends ↦ elim (Bool-cases (valid_utf8 (take m rest))) [
            | inl valid ↦ inr (fits, ltb→lt _ _ ends, valid)
            | inr bad ↦ absurd (invalid_provider fits bad h)
          ]
        ]
  ]

  -- The whole arm is the provider part, once the service string is read.
  pub decode_data_open_reads : decode_data_open p ≡ (from_utf8 svc >>= λ s. decode_provider p s n)
  unfolding decode_data_open
  decode_data_open_reads =
      let at0 =
        index-at {E = FrameError} p [] lo (hi ∷ (svc ++ (vlo ∷ vhi ∷ rest))) 0 layout refl in
      let at1 =
        index-at {E = FrameError} p (lo ∷ []) hi (svc ++ (vlo ∷ vhi ∷ rest)) 1 layout refl in
      let two = le→ltb-false (length p) 2 (omega (arith, whole_length)) in
      let room = le→ltb-false (length p) (2 + n + 2 + 2 + 32) (omega (arith, whole_length)) in
      let body =
        slice-at {E = FrameError} p (lo ∷ hi ∷ []) svc (vlo ∷ vhi ∷ rest) 2 (2 + n) layout refl
          (omega arith) in
      rw (two, at0, at1, room, body)
