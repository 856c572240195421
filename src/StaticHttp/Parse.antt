-- ===== src/StaticHttp/Parse.antt =====
-- The parser of a request, `read_request` of crates/client/src/static_http.rs, on top of the two readers.
pub mod Printed
mod Tests
use mathlib.Core.Option
use meshly_core.Common.{
  ℕ, zero, suc, ◌+◌, ◌-◌, ◌*◌, ◌^◌, Bool, true, false, ◌||◌, not, Option, none, some, List, [], ◌∷◌,
  ◌++◌, map, arith, ltb, nat_beq, if◌then◌else◌, ◌==◌, nat_eq, list_eq, length, drop, Result, ok,
  err, panic, ◌>>=◌, ◌>>◌, reject_if, map_err, Bytes, Text, text, within, valid_utf8,
}
use meshly_core.Common.Strings.{starts_with}
use meshly_core.StaticHttp.{Request}
use meshly_core.StaticHttp.Feed.{Feed, ReadError, read_until_limited, read_headers_limited}

abbrev pub max_request_line : ℕ
max_request_line = 8 * 1024

abbrev pub max_headers : ℕ
max_headers = 64 * 1024

abbrev pub max_body_bytes : ℕ
max_body_bytes = 0

pub data RequestError : Type 0 where
  not_read : ReadError → RequestError
  line_not_utf8 : RequestError
  missing_path : RequestError
  missing_version : RequestError
  bad_version : Text → RequestError
  headers_not_utf8 : RequestError
  bad_content_length : Text → RequestError
  body_too_long : ℕ → RequestError

-- `str::split(char)`, which gives at least one piece.
abbrev to_first : ℕ → List Text → List Text
to_first x [] = (x ∷ []) ∷ []
to_first x (piece ∷ rest) = (x ∷ piece) ∷ rest

abbrev pub split : ℕ → Text → List Text
split c [] = [] ∷ []
split c (x ∷ xs) = let rest = split c xs in if nat_beq x c then [] ∷ rest else to_first x rest

-- `str::split_once(char)`
abbrev with_first : ℕ → Option (Text × Text) → Option (Text × Text)
with_first x none = none
with_first x (some (k, v)) = some (x ∷ k, v)

abbrev split_once : ℕ → Text → Option (Text × Text)
split_once c [] = none
split_once c (x ∷ xs) =
    let later = split_once c xs in if nat_beq x c then some ([], xs) else with_first x later

-- `trim_end_matches` of a set of ASCII characters.
abbrev cons_unless : (ℕ → Bool) → ℕ → Text → Text
cons_unless p x [] = if p x then [] else x ∷ []
cons_unless p x (y ∷ ys) = x ∷ y ∷ ys

abbrev pub trim_end : (ℕ → Bool) → Text → Text
trim_end p [] = []
trim_end p (x ∷ xs) = cons_unless p x (trim_end p xs)

abbrev pub is_cr : ℕ → Bool
is_cr x = nat_beq x 13

abbrev pub is_line_end : ℕ → Bool
is_line_end x = nat_beq x 13 || nat_beq x 10

-- `eq_ignore_ascii_case`
abbrev lower : ℕ → ℕ
lower x = if within 65 90 x then x + 32 else x

abbrev pub same_word : Text → Text → Bool
same_word a b = map lower a == map lower b

-- `str::parse::<usize>`: an optional plus sign and digits, of less than 2 ^ 64.
abbrev add_digit : ℕ → Option ℕ → Option ℕ
add_digit x none = none
add_digit x (some n) = if within 48 57 x then some (n * 10 + (x - 48)) else none

abbrev digits_from : Option ℕ → Text → Option ℕ
digits_from n [] = n
digits_from n (x ∷ xs) = digits_from (add_digit x n) xs

abbrev bounded : Option ℕ → Option ℕ
bounded none = none
bounded (some n) = if ltb n (2 ^ 64) then some n else none

abbrev number : Text → Option ℕ
number [] = none
number (x ∷ xs) = bounded (digits_from (some 0) (x ∷ xs))

unfoldable pub parse_usize : Text → Option ℕ
parse_usize [] = none
parse_usize (x ∷ xs) = if nat_beq x 43 then number xs else number (x ∷ xs)

-- The variables of the loop over the headers.
pub record Fields : Type 0 where
  pub content_length : ℕ
  pub connection_close : Bool
  pub connection_keep_alive : Bool

abbrev pub no_fields : Fields
no_fields = record { content_length = 0; connection_close = false; connection_keep_alive = false }

-- The white space of Unicode, and `str::trim`.
abbrev general_spaces : List Text
general_spaces =
    map (λ b. 226 ∷ 128 ∷ b ∷ [])
      (128 ∷ 129 ∷ 130 ∷ 131 ∷ 132 ∷ 133 ∷ 134 ∷ 135 ∷ 136 ∷ 137 ∷ 138 ∷ 168 ∷ 169 ∷ 175 ∷ [])

abbrev spaces : List Text
spaces =
    map (λ b. b ∷ []) (9 ∷ 10 ∷ 11 ∷ 12 ∷ 13 ∷ 32 ∷ [])
    ++ general_spaces
    ++ ((194 ∷ 133 ∷ [])
        ∷ (194 ∷ 160 ∷ [])
        ∷ (225 ∷ 154 ∷ 128 ∷ [])
        ∷ (226 ∷ 129 ∷ 159 ∷ [])
        ∷ (227 ∷ 128 ∷ 128 ∷ [])
        ∷ [])

abbrev reverse_onto : Text → Text → Text
reverse_onto done [] = done
reverse_onto done (x ∷ xs) = reverse_onto (x ∷ done) xs

abbrev reverse : Text → Text
reverse s = reverse_onto [] s

abbrev strip_one : List Text → Text → Option Text
strip_one [] s = none
strip_one (w ∷ ws) s =
    let later = strip_one ws s in if starts_with w s then some (drop (length w) s) else later

-- A text has at most as many characters as bytes.
abbrev strip_start : List Text → ℕ → Text → Text
strip_start ws zero s = s
strip_start ws (suc fuel) s = elim (strip_one ws s) [
  | none ↦ s
  | some rest ↦ strip_start ws fuel rest
]

unfoldable pub trim : Text → Text
trim s =
    let started = strip_start spaces (length s) s in
    reverse (strip_start (map reverse spaces) (length s) (reverse started))

abbrev with_length : Text → Option ℕ → Fields → Result RequestError Fields
with_length v none fields = err (bad_content_length v)
with_length v (some n) fields = ok (record fields { content_length = n })

abbrev pub read_tokens : List Text → Fields → Fields
read_tokens [] fields = fields
read_tokens (tok ∷ rest) fields =
    let word = trim tok in
    read_tokens rest (
      if same_word word (text "close")
      then record fields { connection_close = true }
      else if same_word word (text "keep-alive")
      then record fields { connection_keep_alive = true }
      else fields)

abbrev pub read_field : Option (Text × Text) → Fields → Result RequestError Fields
read_field none fields = ok fields
read_field (some (k, v)) fields =
    if same_word (trim k) (text "content-length")
    then with_length (trim v) (parse_usize (trim v)) fields
    else if same_word (trim k) (text "connection")
    then ok (read_tokens (split 44 (trim v)) fields)
    else ok fields

abbrev is_blank : Text → Bool
is_blank [] = true
is_blank _ = false

unfoldable pub read_fields : List Text → Fields → Result RequestError Fields
unfolding parse_usize
read_fields [] fields = ok fields
read_fields (piece ∷ rest) fields =
    let line = trim_end is_cr piece in
    if is_blank line
    then ok fields
    else read_field (split_once 58 line) fields >>= λ fields'. read_fields rest fields'

abbrev pub keeps_alive : Text → Fields → Bool
keeps_alive version fields =
    if version == text "HTTP/1.1"
    then not fields.connection_close
    else if version == text "HTTP/1.0"
    then fields.connection_keep_alive
    else false

abbrev pub request_parts : List Text → Result RequestError (Text × Text × Text)
request_parts (method ∷ path ∷ version ∷ rest) = ok (method, path, version)
request_parts (method ∷ path ∷ []) = err missing_version
request_parts _ = err missing_path

abbrev pub checked_line : Text → Result RequestError (Text × Text × Text)
checked_line line = do
  reject_if (not (valid_utf8 line)) line_not_utf8
  (method, path, version) ← request_parts (split 32 (trim_end is_line_end line))
  reject_if (not (starts_with (text "HTTP/") version)) (bad_version version)
  ok (method, path, version)

abbrev pub with_headers :
    (Text × Text × Text) → Result ReadError Bytes → Result RequestError (Option Request)
with_headers (method, path, version) header_buf = do
  headers ← map_err not_read header_buf
  reject_if (not (valid_utf8 headers)) headers_not_utf8
  fields ← read_fields (split 10 headers) no_fields
  reject_if (ltb max_body_bytes fields.content_length) (body_too_long fields.content_length)
  ok (some (record { method = method; path = path; keep_alive = keeps_alive version fields }))

-- The headers are read only behind a line that is accepted.
abbrev pub after_parts :
    Feed → Result RequestError (Text × Text × Text) → Result RequestError (Option Request) × Feed
after_parts rest (ok parts) =
    let (headers, left) = read_headers_limited max_headers [] rest in
    (with_headers parts headers, left)
after_parts rest (err e) = (err e, rest)
after_parts rest panic = (panic, rest)

abbrev pub after_line :
    Result ReadError (Option Bytes) × Feed → Result RequestError (Option Request) × Feed
after_line (ok (some line), rest) = after_parts rest (checked_line line)
after_line (ok none, rest) = (ok none, rest)
after_line (err e, rest) = (err (not_read e), rest)
after_line (panic, rest) = (panic, rest)

unfoldable pub read_request : Feed → Result RequestError (Option Request) × Feed
unfolding read_until_limited read_headers_limited read_fields valid_utf8 trim
read_request feed = after_line (read_until_limited 10 max_request_line [] feed)
