-- ===== src/StaticHttp/Percent.antt =====
-- `percent_decode` of crates/client/src/static_http.rs.
use meshly_core.Common.{
  ℕ, ◌+◌, ◌-◌, ◌*◌, ◌%◌, ◌<◌, ◌≡◌, refl, ap, false, Option, none, some, [], ◌∷◌, arith, nat_beq,
  if◌then◌else◌, nat_eq, list_eq, Bytes, Text, within, valid_utf8, IsUtf8,
}

-- `char::to_digit(16)`
unfoldable pub hex_digit : ℕ → Option ℕ
hex_digit b =
    if within 48 57 b
    then some (b - 48)
    else if within 97 102 b
    then some (b - 87)
    else if within 65 70 b
    then some (b - 55)
    else none

abbrev both : Option ℕ → Option ℕ → Option Bytes → Option Bytes
both (some hi) (some lo) (some rest) = some ((hi * 16 + lo) % 256 ∷ rest)
both _ _ _ = none

abbrev prepend : ℕ → Option Bytes → Option Bytes
prepend b (some rest) = some (b ∷ rest)
prepend b none = none

-- The loop: an escape wants two more bytes, and a plus sign is a space.
unfoldable pub decode_bytes : Bytes → Option Bytes
unfolding hex_digit
decode_bytes [] = some []
decode_bytes (x ∷ []) =
    if nat_beq x 37 then none else if nat_beq x 43 then some (32 ∷ []) else some (x ∷ [])
decode_bytes (x ∷ a ∷ []) =
    let later = decode_bytes (a ∷ []) in
    if nat_beq x 37 then none else if nat_beq x 43 then prepend 32 later else prepend x later
decode_bytes (x ∷ a ∷ b ∷ rest) =
    let escaped = decode_bytes rest in
    let later = decode_bytes (a ∷ b ∷ rest) in
    if nat_beq x 37
    then both (hex_digit a) (hex_digit b) escaped
    else if nat_beq x 43
    then prepend 32 later
    else prepend x later

-- `String::from_utf8`
abbrev utf8_checked : Option Bytes → Option Text
utf8_checked none = none
utf8_checked (some bs) = if valid_utf8 bs then some bs else none

unfoldable pub percent_decode : Text → Option Text
unfolding decode_bytes
percent_decode s = utf8_checked (decode_bytes s)

-- A hexadecimal digit of either case, and its value.
pub data HexDigit : ℕ → ℕ → Type 0 where
  digit : (n : ℕ) → n < 10 → HexDigit (48 + n) n
  lower : (n : ℕ) → n < 6 → HexDigit (97 + n) (10 + n)
  upper : (n : ℕ) → n < 6 → HexDigit (65 + n) (10 + n)

-- The forms in which a client may send some bytes: each byte as it is, but for the percent sign and the
-- plus sign, or as an escape with digits of either case, and a space also as a plus sign.
pub data Escaped : Bytes → Text → Type 0 where
  nothing : Escaped [] []
  as_is :
      (b : ℕ) (bs : Bytes) (t : Text)
      → nat_beq b 37 ≡ false
      → nat_beq b 43 ≡ false
      → Escaped bs t
      → Escaped (b ∷ bs) (b ∷ t)
  as_plus : (bs : Bytes) (t : Text) → Escaped bs t → Escaped (32 ∷ bs) (43 ∷ t)
  as_escape :
      (a c hi lo : ℕ) (bs : Bytes) (t : Text)
      → HexDigit a hi
      → HexDigit c lo
      → Escaped bs t
      → Escaped ((hi * 16 + lo) ∷ bs) (37 ∷ a ∷ c ∷ t)

hex_digit-HexDigit : {a n : ℕ} → HexDigit a n → (hex_digit a ≡ some n) × (n < 16)
unfolding hex_digit
hex_digit-HexDigit (digit n h) = (ground (arith, h), omega (arith, h))
hex_digit-HexDigit (lower n h) = (ground (arith, h), omega (arith, h))
hex_digit-HexDigit (upper n h) = (ground (arith, h), omega (arith, h))

decode-as_is :
    (b : ℕ) (t rest : Bytes)
    → nat_beq b 37 ≡ false
    → nat_beq b 43 ≡ false
    → decode_bytes t ≡ some rest
    → decode_bytes (b ∷ t) ≡ some (b ∷ rest)
unfolding decode_bytes
decode-as_is b [] rest h h' done = rw (h, h') (ap (prepend b) done)
decode-as_is b (a ∷ []) rest h h' done = rw (h, h', done) refl
decode-as_is b (a ∷ c ∷ t) rest h h' done = rw (h, h', done) refl

decode-as_plus :
    (t rest : Bytes) → decode_bytes t ≡ some rest → decode_bytes (43 ∷ t) ≡ some (32 ∷ rest)
unfolding decode_bytes
decode-as_plus [] rest done = ap (prepend 32) done
decode-as_plus (a ∷ []) rest done = rw done refl
decode-as_plus (a ∷ c ∷ t) rest done = rw done refl

decode_bytes-Escaped : (bs : Bytes) (t : Text) → Escaped bs t → decode_bytes t ≡ some bs
unfolding decode_bytes
decode_bytes-Escaped _ _ nothing = refl
decode_bytes-Escaped _ _ (as_is b bs t percent plus e) =
    decode-as_is b t bs percent plus (decode_bytes-Escaped bs t e)
decode_bytes-Escaped _ _ (as_plus bs t e) = decode-as_plus t bs (decode_bytes-Escaped bs t e)
decode_bytes-Escaped _ _ (as_escape a c hi lo bs t high low e) =
    let (at_a, hi_small) = hex_digit-HexDigit high in
    let (at_c, lo_small) = hex_digit-HexDigit low in
    rw (at_a, at_c, decode_bytes-Escaped bs t e)
      (ap (λ n. some (n ∷ bs)) (omega (arith, hi_small, lo_small)))

-- Decoding gives back any UTF-8 text from each form in which a client may have escaped it: with whichever
-- bytes sent as they are but the percent sign and the plus sign, escapes in digits of either case, and a
-- space as a plus sign or not.
pub percent_decode-Escaped : (s t : Text) → Escaped s t → IsUtf8 s → percent_decode t ≡ some s
unfolding percent_decode
percent_decode-Escaped s t e utf8 = rw (decode_bytes-Escaped s t e) (rw utf8 refl)
