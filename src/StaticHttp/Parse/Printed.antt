-- ===== src/StaticHttp/Parse/Printed.antt =====
-- What the parser makes of a printed request.
use meshly_core.Common.{
  ℕ, suc, ◌+◌, ◌≤◌, ◌<◌, ◌≡◌, refl, sym, ap, ◌∙◌, Bool, true, false, not, Option, some, [], ◌∷◌,
  ◌++◌, append_assoc, append-nil, arith, ltb, nat_beq, nat_eq, list_eq, length, take, drop, All,
  all, Result, ok, Bytes, Text, text, valid_utf8, ascii-IsUtf8,
}
use meshly_core.StaticHttp.Feed.{
  Feed, closed, chunk, ReadError, position, filled, unread, read_until_limited,
  read_headers_limited, find_header_terminator,
}
use meshly_core.StaticHttp.Parse.{
  max_request_line, split, trim_end, is_line_end, parse_usize, trim, read_fields, checked_line,
  after_line, after_parts, read_request,
}

-- A character of a method or a path: ASCII, without controls and the space.
abbrev pub IsGraphic : ℕ → Type 0
IsGraphic b = (33 ≤ b) × (b < 127)

abbrev pub request_line : Text → Text → Text
request_line method path = method ++ (32 ∷ (path ++ (text " HTTP/1.1" ++ (13 ∷ 10 ∷ []))))

-- The line without its last byte.
abbrev pub open_line : Text → Text → Text
open_line method path = method ++ (32 ∷ (path ++ (text " HTTP/1.1" ++ (13 ∷ []))))

abbrev pub fields : Bytes
fields = text "Host: h" ++ (13 ∷ 10 ∷ 13 ∷ 10 ∷ [])

position-first :
    (d : ℕ) (s t : Text)
    → All (λ b. nat_beq b d ≡ false) s
    → position d (s ++ (d ∷ t)) ≡ some (length s)
position-first d [] t h = ground arith
position-first d (x ∷ s) t h = rw (h.0, position-first d s t h.1) refl

split-first :
    (d : ℕ) (s t : Text) → All (λ b. nat_beq b d ≡ false) s → split d (s ++ (d ∷ t)) ≡ s ∷ split d t
split-first d [] t h = ground arith
split-first d (x ∷ s) t h = rw (h.0, split-first d s t h.1) refl

trim_end-append :
    (p : ℕ → Bool) (s t : Text) (y : ℕ) (ys : Text)
    → trim_end p t ≡ y ∷ ys
    → trim_end p (s ++ t) ≡ s ++ (y ∷ ys)
trim_end-append p [] t y ys h = h
trim_end-append p (x ∷ []) t y ys h = rw h refl
trim_end-append p (x ∷ z ∷ s) t y ys h = rw (trim_end-append p (z ∷ s) t y ys h) refl

All-ascii :
    (xs ys : Text) → All (λ b. b < 128) xs → All (λ b. b < 128) ys → All (λ b. b < 128) (xs ++ ys)
All-ascii [] ys h h' = h'
All-ascii (x ∷ xs) ys h h' = (h.0, All-ascii xs ys h.1 h')

All-apart :
    (d : ℕ) (xs ys : Text)
    → All (λ b. nat_beq b d ≡ false) xs
    → All (λ b. nat_beq b d ≡ false) ys
    → All (λ b. nat_beq b d ≡ false) (xs ++ ys)
All-apart d [] ys h h' = h'
All-apart d (x ∷ xs) ys h h' = (h.0, All-apart d xs ys h.1 h')

graphic-not : (d : ℕ) (s : Text) → d ≤ 32 → All IsGraphic s → All (λ b. nat_beq b d ≡ false) s
graphic-not d [] small h = tt
graphic-not d (x ∷ s) small h = (ground arith, graphic-not d s small h.1)

graphic-ascii : (s : Text) → All IsGraphic s → All (λ b. b < 128) s
graphic-ascii [] h = tt
graphic-ascii (x ∷ s) h = (ground arith, graphic-ascii s h.1)

filled-first :
    (delim max_len p : ℕ) (c : Bytes) (more : Result ReadError (Option Bytes) × Feed)
    → position delim c ≡ some p
    → suc p ≤ max_len
    → filled delim max_len [] c closed (position delim c) more
      ≡ (ok (some (take (suc p) c)), unread (drop (suc p) c) closed)
filled-first delim max_len p c more there fits =
    let within_limit : ltb max_len (0 + suc p) ≡ false = ground (arith, fits) in
    rw there (rw within_limit refl)

-- A line that ends inside the first chunk.
read_first :
    (delim max_len : ℕ) (s t : Text)
    → All (λ b. nat_beq b delim ≡ false) s
    → suc (length s) ≤ max_len
    → read_until_limited delim max_len [] (chunk (s ++ (delim ∷ t)) closed) ≡ (
      ok (some (take (suc (length s)) (s ++ (delim ∷ t)))),
      unread (drop (suc (length s)) (s ++ (delim ∷ t))) closed,
    )
unfolding read_until_limited
read_first delim max_len [] t clear fits =
    filled-first delim max_len 0 (delim ∷ t) _ (position-first delim [] t tt) fits
read_first delim max_len (x ∷ s) t clear fits =
    filled-first delim max_len (length (x ∷ s)) (x ∷ (s ++ (delim ∷ t))) _
      (position-first delim (x ∷ s) t clear) fits

take-line : (d : ℕ) (s t : Text) → take (suc (length s)) (s ++ (d ∷ t)) ≡ s ++ (d ∷ [])
take-line d [] t = refl
take-line d (x ∷ s) t = ap (λ zs. x ∷ zs) (take-line d s t)

drop-line : (d : ℕ) (s t : Text) → drop (suc (length s)) (s ++ (d ∷ t)) ≡ t
drop-line d [] t = refl
drop-line d (x ∷ s) t = drop-line d s t

all_ascii : (xs : Text) → all (λ b. ltb b 128) xs ≡ true → All (λ b. b < 128) xs
all_ascii [] h = tt
all_ascii (x ∷ xs) h = (ground arith, all_ascii xs (ground arith))

all_apart :
    (d : ℕ) (xs : Text) → all (λ b. not (nat_beq b d)) xs ≡ true → All (λ b. nat_beq b d ≡ false) xs
all_apart d [] h = tt
all_apart d (x ∷ xs) h = (ground arith, all_apart d xs (ground arith))

module _ (method path : Text) (plain : All IsGraphic method) (plain' : All IsGraphic path) where
  abbrev tail_of : Text → Text
  tail_of end = 32 ∷ (path ++ end)

  line_splits :
      split 32 (trim_end is_line_end (request_line method path))
      ≡ method ∷ path ∷ text "HTTP/1.1" ∷ []
  line_splits =
      let end = text " HTTP/1.1" ++ (13 ∷ 10 ∷ []) in
      let trimmed : trim_end is_line_end (request_line method path)
          ≡ method ++ (32 ∷ (path ++ (32 ∷ text "HTTP/1.1"))) =
        ap (trim_end is_line_end) (sym (append_assoc method (32 ∷ path) end))
        ∙ trim_end-append is_line_end (method ++ (32 ∷ path)) end 32 (text "HTTP/1.1") refl
        ∙ append_assoc method (32 ∷ path) (32 ∷ text "HTTP/1.1") in
      ap (split 32) trimmed
      ∙ split-first 32 method (path ++ (32 ∷ text "HTTP/1.1"))
          (graphic-not 32 method (omega arith) plain)
      ∙ ap (λ xs. method ∷ xs)
          (split-first 32 path (text "HTTP/1.1") (graphic-not 32 path (omega arith) plain'))

  line_ascii : All (λ b. b < 128) (request_line method path)
  line_ascii =
      All-ascii method (tail_of (text " HTTP/1.1" ++ (13 ∷ 10 ∷ []))) (graphic-ascii method plain) (
        omega arith,
        All-ascii path (text " HTTP/1.1" ++ (13 ∷ 10 ∷ [])) (graphic-ascii path plain')
            (all_ascii (text " HTTP/1.1" ++ (13 ∷ 10 ∷ [])) refl),
      )

  line_clear : All (λ b. nat_beq b 10 ≡ false) (open_line method path)
  line_clear =
      All-apart 10 method (tail_of (text " HTTP/1.1" ++ (13 ∷ [])))
        (graphic-not 10 method (omega arith) plain)
        (
          refl,
          All-apart 10 path (text " HTTP/1.1" ++ (13 ∷ []))
              (graphic-not 10 path (omega arith) plain')
              (all_apart 10 (text " HTTP/1.1" ++ (13 ∷ [])) refl),
        )

  line_closed :
      (rest : Bytes) → open_line method path ++ (10 ∷ rest) ≡ request_line method path ++ rest
  line_closed rest =
      append_assoc method (tail_of (text " HTTP/1.1" ++ (13 ∷ []))) (10 ∷ rest)
      ∙ ap (λ zs. method ++ (32 ∷ zs))
          (append_assoc path (text " HTTP/1.1" ++ (13 ∷ [])) (10 ∷ rest)
            ∙ sym (append_assoc path (text " HTTP/1.1" ++ (13 ∷ 10 ∷ [])) rest))
      ∙ sym (append_assoc method (tail_of (text " HTTP/1.1" ++ (13 ∷ 10 ∷ []))) rest)

  line_is : open_line method path ++ (10 ∷ []) ≡ request_line method path
  line_is = line_closed [] ∙ append-nil (request_line method path)

  line_checked : checked_line (request_line method path) ≡ ok (method, path, text "HTTP/1.1")
  line_checked =
      let utf8 : valid_utf8 (request_line method path) ≡ true =
        ascii-IsUtf8 (request_line method path) line_ascii in
      rw (utf8, line_splits) refl

  -- A request for any path of graphic ASCII characters, printed with its line within the limit and with a
  -- Host header, is read back with its method and its path, as one that keeps the connection open, when
  -- it arrives in one chunk.
  pub read_request-printed :
      suc (length (open_line method path)) ≤ max_request_line
      → (read_request (chunk (request_line method path ++ fields) closed)).0
        ≡ ok (some (record { method = method; path = path; keep_alive = true }))
  unfolding read_request read_headers_limited find_header_terminator read_fields parse_usize trim
      valid_utf8
  read_request-printed fits =
      let first : read_until_limited 10 max_request_line []
            (chunk (request_line method path ++ fields) closed)
          ≡ (ok (some (request_line method path)), chunk fields closed) =
        ap (λ c. read_until_limited 10 max_request_line [] (chunk c closed))
          (sym (line_closed fields))
        ∙ read_first 10 max_request_line (open_line method path) fields line_clear fits
        ∙ ap
            (λ c. (
              ok (some c),
              unread
                  (drop (suc (length (open_line method path)))
                    (open_line method path ++ (10 ∷ fields)))
                  closed,
            ))
            (take-line 10 (open_line method path) fields ∙ line_is)
        ∙ ap (λ c. (ok (some (request_line method path)), unread c closed))
            (drop-line 10 (open_line method path) fields) in
      ap (λ r. (after_line r).0) first
      ∙ ap (λ o. (after_parts (chunk fields closed) o).0) line_checked
