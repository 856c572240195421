-- ===== src/StaticHttp/Feed.antt =====
-- The bytes that a request is read from: `read_until_limited`, `read_headers_limited` and
-- `find_header_terminator` of crates/client/src/static_http.rs.
pub mod Lines
pub mod Headers
use meshly_core.Common.{
  ℕ, suc, ◌+◌, Bool, false, ◌&&◌, Option, none, some, [], ◌∷◌, ◌++◌, ltb, nat_beq, if◌then◌else◌,
  nat_eq, list_eq, length, take, drop, Result, ok, err, Bytes,
}

-- What `fill_buf` brings, time after time: a chunk, which is empty at the end, or an error.
pub data Feed : Type 0 where
  closed : Feed
  broken : Feed
  chunk : Bytes → Feed → Feed

pub data ReadError : Type 0 where
  io_error : ReadError
  closed_early : ReadError
  exceeded : ℕ → ReadError

-- `consume`: what is left of a chunk is what the next `fill_buf` brings.
abbrev pub unread : Bytes → Feed → Feed
unread [] rest = rest
unread (b ∷ bs) rest = chunk (b ∷ bs) rest

abbrev pub shifted : Option ℕ → Option ℕ
shifted none = none
shifted (some n) = some (suc n)

-- `iter().position(|&b| b == delim)`
abbrev pub position : ℕ → Bytes → Option ℕ
position delim [] = none
position delim (b ∷ bs) =
    let later = shifted (position delim bs) in if nat_beq b delim then some 0 else later

-- The end of the peer's stream.
abbrev pub at_end : Bytes → Result ReadError (Option Bytes)
at_end [] = ok none
at_end buf = err closed_early

module _ (delim max_len : ℕ) where
  abbrev pub found_at : Bytes → Bytes → Feed → ℕ → Result ReadError (Option Bytes) × Feed
  found_at buf c rest pos =
      if ltb max_len (length buf + suc pos)
      then (err (exceeded max_len), chunk c rest)
      else (ok (some (buf ++ take (suc pos) c)), unread (drop (suc pos) c) rest)

  -- What the place of the delimiter in a chunk leads to; `more` is what the next rounds give.
  abbrev pub filled :
      Bytes
      → Bytes
      → Feed
      → Option ℕ
      → Result ReadError (Option Bytes) × Feed
      → Result ReadError (Option Bytes) × Feed
  filled buf c rest (some pos) more = found_at buf c rest pos
  filled buf c rest none more =
      if ltb max_len (length buf + length c) then (err (exceeded max_len), chunk c rest) else more

  unfoldable pub read_until_limited : Bytes → Feed → Result ReadError (Option Bytes) × Feed
  read_until_limited buf closed = (at_end buf, closed)
  read_until_limited buf broken = (err io_error, broken)
  read_until_limited buf (chunk [] rest) = (at_end buf, rest)
  read_until_limited buf (chunk (b ∷ bs) rest) =
      filled buf (b ∷ bs) rest (position delim (b ∷ bs)) (read_until_limited (buf ++ (b ∷ bs)) rest)

abbrev crlf_crlf : Bytes → Bool
crlf_crlf (a ∷ b ∷ c ∷ d ∷ rest) = nat_beq a 13 && nat_beq b 10 && nat_beq c 13 && nat_beq d 10
crlf_crlf _ = false

abbrev lf_lf : Bytes → Bool
lf_lf (a ∷ b ∷ rest) = nat_beq a 10 && nat_beq b 10
lf_lf _ = false

-- The place of the last byte of the first terminator.
unfoldable pub find_header_terminator : Bytes → Option ℕ
find_header_terminator [] = none
find_header_terminator (b ∷ bs) =
    let later = shifted (find_header_terminator bs) in
    if crlf_crlf (b ∷ bs) then some 3 else if lf_lf (b ∷ bs) then some 1 else later

module _ (max_len : ℕ) where
  abbrev pub ended_at : Bytes → Bytes → Feed → ℕ → Result ReadError Bytes × Feed
  ended_at buf c rest end =
      if ltb max_len (length buf + suc end)
      then (err (exceeded max_len), chunk c rest)
      else (ok (buf ++ take (suc end) c), unread (drop (suc end) c) rest)

  abbrev pub filled_headers :
      Bytes
      → Bytes
      → Feed
      → Option ℕ
      → Result ReadError Bytes × Feed
      → Result ReadError Bytes × Feed
  filled_headers buf c rest (some end) more = ended_at buf c rest end
  filled_headers buf c rest none more =
      if ltb max_len (length buf + length c) then (err (exceeded max_len), chunk c rest) else more

  unfoldable pub read_headers_limited : Bytes → Feed → Result ReadError Bytes × Feed
  unfolding find_header_terminator
  read_headers_limited buf closed = (err closed_early, closed)
  read_headers_limited buf broken = (err io_error, broken)
  read_headers_limited buf (chunk [] rest) = (err closed_early, rest)
  read_headers_limited buf (chunk (b ∷ bs) rest) =
      filled_headers buf (b ∷ bs) rest (find_header_terminator (b ∷ bs))
        (read_headers_limited (buf ++ (b ∷ bs)) rest)
