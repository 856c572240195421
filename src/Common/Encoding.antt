-- ===== src/Common/Encoding.antt =====
-- Byte strings. A Rust `String` is the list of its UTF-8 bytes; `valid_utf8` is the test that
-- `String::from_utf8` makes (the well-formed sequences of the Unicode standard).
use Prim.Native.Char.{code}
use Prim.Native.Nat.{ℕ, zero, suc, ◌+◌, ◌*◌, ◌/◌, ◌%◌, ◌<◌}
use Prim.Native.String.{String}
use mathlib.Core.Path.{◌≡◌, refl}
use mathlib.Core.Bool.{Bool, true, false, ◌&&◌}
use mathlib.Core.Option.{Option, none, some}
use mathlib.Core.List.{List, [], ◌∷◌}
use native.Mathlib.Omega.{arith}
use meshly_core.Common.Tests.{ltb, leb, nat_beq, if◌then◌else◌}
use meshly_core.Common.Lists.{All}

abbrev pub Bytes : Type 0
Bytes = List ℕ

-- A Rust `String` or `&str`, by its bytes.
abbrev pub Text : Type 0
Text = List ℕ

abbrev pub IsByte : ℕ → Type 0
IsByte b = b < 256

-- The bytes of an ASCII literal.
abbrev pub text : String → Text
text String.[] = []
text (String.◌∷◌ c s) = code c ∷ text s

abbrev pub within : ℕ → ℕ → ℕ → Bool
within lo hi b = leb lo b && leb b hi

-- How many continuation bytes a lead byte calls for, and the range of the first of them.
unfoldable pub lead : ℕ → Option (ℕ × ℕ × ℕ)
lead b =
    if ltb b 0x80
    then some (0, 0x80, 0xbf)
    else if within 0xc2 0xdf b
    then some (1, 0x80, 0xbf)
    else if nat_beq b 0xe0
    then some (2, 0xa0, 0xbf)
    else if nat_beq b 0xed
    then some (2, 0x80, 0x9f)
    else if within 0xe1 0xef b
    then some (2, 0x80, 0xbf)
    else if nat_beq b 0xf0
    then some (3, 0x90, 0xbf)
    else if within 0xf1 0xf3 b
    then some (3, 0x80, 0xbf)
    else if nat_beq b 0xf4
    then some (3, 0x80, 0x8f)
    else none

unfoldable pub utf8_tail : ℕ → ℕ → ℕ → Bytes → Bool
unfolding lead
utf8_tail k lo hi [] = nat_beq k 0
utf8_tail zero lo hi (b ∷ bs) = elim (lead b) [ none ↦ false | some (k, l, h) ↦ utf8_tail k l h bs ]
utf8_tail (suc k) lo hi (b ∷ bs) = within lo hi b && utf8_tail k 0x80 0xbf bs

unfoldable pub valid_utf8 : Bytes → Bool
unfolding utf8_tail
valid_utf8 bs = utf8_tail 0 0 0 bs

abbrev pub IsUtf8 : Bytes → Type 0
IsUtf8 bs = valid_utf8 bs ≡ true

-- ASCII is UTF-8.
pub ascii-IsUtf8 : (bs : Bytes) → All (λ b. b < 128) bs → IsUtf8 bs
unfolding valid_utf8
ascii-IsUtf8 bs h = go bs 0 0 h
  where
    go : (bs : Bytes) (l h : ℕ) → All (λ b. b < 128) bs → utf8_tail 0 l h bs ≡ true
    go [] l h p = refl
    go (b ∷ bs) l h p = ground (arith, go bs 0x80 0xbf p.1)

-- `u16::from_le_bytes`, and the two bytes that `put_u16_le` writes.
abbrev pub from_le16 : ℕ → ℕ → ℕ
from_le16 lo hi = lo + 256 * hi

abbrev pub to_le16 : ℕ → Bytes
to_le16 n = (n % 256) ∷ (n / 256 % 256) ∷ []

pub from_le16-to_le16 : (n : ℕ) → n < 65536 → from_le16 (n % 256) (n / 256 % 256) ≡ n
from_le16-to_le16 n h = omega arith
