-- ===== src/StaticHttp/Feed/Lines.antt =====
-- How a line is read from chunks.
use meshly_core.Common.{
  ℕ, zero, suc, ◌+◌, ◌≤◌, ◌≡◌, refl, sym, ap, ◌∙◌, inl, inr, true, false, Option, none, some, [],
  ◌∷◌, ◌++◌, append_assoc, append-nil, arith, ltb, nat_beq, if◌then◌else◌, Bool-cases, Option-cases,
  nat_eq, list_eq, length, take, length-append, Result, ok, err, Bytes,
}
use meshly_core.StaticHttp.Feed.{
  Feed, closed, chunk, ReadError, exceeded, position, shifted, at_end, found_at, filled, broken,
  read_until_limited,
}

-- A stream that ends without an error, in chunks that are not empty.
abbrev pub IsWhole : Feed → Type 0
IsWhole closed = Unit {0}
IsWhole (chunk [] rest) = ⊥
IsWhole (chunk (b ∷ bs) rest) = IsWhole rest
IsWhole _ = ⊥

abbrev pub flat : Feed → Bytes
flat (chunk c rest) = c ++ flat rest
flat _ = []

abbrev plus : ℕ → Option ℕ → Option ℕ
plus n none = none
plus n (some p) = some (n + p)

plus-shifted : (n : ℕ) (o : Option ℕ) → shifted (plus n o) ≡ plus (suc n) o
plus-shifted n none = refl
plus-shifted n (some p) = ap (λ m. some m) (omega arith)

position-append_none :
    (d : ℕ) (xs ys : Bytes)
    → position d xs ≡ none
    → position d (xs ++ ys) ≡ plus (length xs) (position d ys)
position-append_none d [] ys h = no_shift (position d ys)
  where
    no_shift : (o : Option ℕ) → o ≡ plus 0 o
    no_shift none = refl
    no_shift (some p) = ap (λ n. some n) (omega arith)
position-append_none d (x ∷ xs) ys h = elim (Bool-cases (nat_beq x d)) [
  | inl here ↦ absurd (cc (rw here at h))
  | inr other ↦ rw other (
      ap shifted (position-append_none d xs ys (unshifted (position d xs) (rw other at h)))
      ∙ plus-shifted (length xs) (position d ys))
]
  where
    unshifted : (o : Option ℕ) → shifted o ≡ none → o ≡ none
    unshifted none q = refl
    unshifted (some p) q = absurd (cc q)

position-append_some :
    (d p : ℕ) (xs ys : Bytes)
    → position d xs ≡ some p
    → (position d (xs ++ ys) ≡ some p) × (suc p ≤ length xs)
position-append_some d p [] ys h = absurd (cc h)
position-append_some d p (x ∷ xs) ys h = elim (Bool-cases (nat_beq x d)) [
  | inl here ↦ rw here (rw here at h, ground (arith, rw here at h))
  | inr other ↦ rw other (go (position d xs) (rw other at h) (λ q. position-append_some d q xs ys))
]
  where
    go :
        (o : Option ℕ)
        → shifted o ≡ some p
        → ((q : ℕ) → o ≡ some q → (position d (xs ++ ys) ≡ some q) × (suc q ≤ length xs))
        → (shifted (position d (xs ++ ys)) ≡ some p) × (suc p ≤ suc (length xs))
    go none q later = absurd (cc q)
    go (some n) q later =
        let (there, fits) = later n refl in (ap shifted there ∙ q, ground (arith, q, fits))

take-within : (n : ℕ) (xs ys : Bytes) → n ≤ length xs → take n (xs ++ ys) ≡ take n xs
take-within zero xs ys h = refl
take-within (suc n) [] ys h = absurd (omega (arith, h))
take-within (suc n) (x ∷ xs) ys h = ap (λ zs. x ∷ zs) (take-within n xs ys (omega arith))

take-past : (n : ℕ) (xs ys : Bytes) → take (length xs + n) (xs ++ ys) ≡ xs ++ take n ys
take-past n [] ys = ap (λ m. take m ys) (omega arith)
take-past n (x ∷ xs) ys =
    let place : suc (length xs) + n ≡ suc (length xs + n) = omega arith in
    ap (λ m. take m (x ∷ (xs ++ ys))) place ∙ ap (λ zs. x ∷ zs) (take-past n xs ys)

module _ (delim max_len : ℕ) where
  -- The line that starts with what has been read and goes on with these bytes, if its end stands there.
  abbrev pub cut : Bytes → Bytes → Option ℕ → Result ReadError (Option Bytes)
  cut buf bytes (some p) =
      if ltb max_len (length buf + suc p)
      then err (exceeded max_len)
      else ok (some (buf ++ take (suc p) bytes))
  cut buf bytes none =
      if ltb max_len (length buf + length bytes)
      then err (exceeded max_len)
      else at_end (buf ++ bytes)

  abbrev pub line_of : Bytes → Bytes → Result ReadError (Option Bytes)
  line_of buf bytes = cut buf bytes (position delim bytes)

  cut-past :
      (buf c bytes : Bytes) (o : Option ℕ)
      → cut (buf ++ c) bytes o ≡ cut buf (c ++ bytes) (plus (length c) o)
  cut-past buf c bytes (some p) =
      let place : length (buf ++ c) + suc p ≡ length buf + suc (length c + p) =
        omega (arith, length-append buf c) in
      let further : length c + suc p ≡ suc (length c + p) = omega arith in
      let line : (buf ++ c) ++ take (suc p) bytes ≡ buf ++ take (suc (length c + p)) (c ++ bytes) =
        append_assoc buf c (take (suc p) bytes)
        ∙ ap (λ zs. buf ++ zs)
            (sym (take-past (suc p) c bytes) ∙ ap (λ n. take n (c ++ bytes)) further) in
      rw (place, line) refl
  cut-past buf c bytes none =
      let place : length (buf ++ c) + length bytes ≡ length buf + length (c ++ bytes) =
        omega (arith, length-append buf c, length-append c bytes) in
      rw (place, append_assoc buf c bytes) refl

  cut_within :
      (buf c bytes : Bytes) (p : ℕ)
      → suc p ≤ length c
      → cut buf (c ++ bytes) (some p) ≡ cut buf c (some p)
  cut_within buf c bytes p fits = rw (take-within (suc p) c bytes fits) refl

  cut_over :
      (buf c bytes : Bytes) (o : Option ℕ)
      → ltb max_len (length buf + length c) ≡ true
      → cut buf (c ++ bytes) (plus (length c) o) ≡ err (exceeded max_len)
  cut_over buf c bytes (some p) over =
      let more : ltb max_len (length buf + suc (length c + p)) ≡ true = ground (arith, over) in
      rw more refl
  cut_over buf c bytes none over =
      let more : ltb max_len (length buf + length (c ++ bytes)) ≡ true =
        ground (arith, over, length-append c bytes) in
      rw more refl

  chunk-line_of :
      (buf c bytes : Bytes) (rest : Feed) (more : Result ReadError (Option Bytes) × Feed)
      → (length (buf ++ c) ≤ max_len → more.0 ≡ line_of (buf ++ c) bytes)
      → (filled delim max_len buf c rest (position delim c) more).0 ≡ line_of buf (c ++ bytes)
  chunk-line_of buf c bytes rest more later = elim (Option-cases (position delim c)) [
    | inl nowhere ↦
        let seen = position-append_none delim c bytes nowhere in
        elim (Bool-cases (ltb max_len (length buf + length c))) [
          | inl over ↦
              rw (nowhere, over, seen) (sym (cut_over buf c bytes (position delim bytes) over))
          | inr room ↦
              rw (nowhere, room, seen)
                (later (ground (arith, length-append buf c, room))
                  ∙ cut-past buf c bytes (position delim bytes))
        ]
    | inr (p, there) ↦
        let (seen, fits) = position-append_some delim p c bytes there in
        rw (there, seen) (found buf c rest p ∙ sym (cut_within buf c bytes p fits))
  ]
    where
      found :
          (buf c : Bytes) (rest : Feed) (p : ℕ)
          → (found_at delim max_len buf c rest p).0 ≡ cut buf c (some p)
      found buf c rest p = ground arith

  at_end-line_of : (buf : Bytes) → length buf ≤ max_len → at_end buf ≡ line_of buf []
  at_end-line_of buf fits =
      let small : ltb max_len (length buf + 0) ≡ false = ground (arith, fits) in
      rw (small, append-nil buf) refl

  read-line_of :
      (buf : Bytes) (f : Feed)
      → IsWhole f
      → length buf ≤ max_len
      → (read_until_limited delim max_len buf f).0 ≡ line_of buf (flat f)
  unfolding read_until_limited
  read-line_of buf closed whole fits = at_end-line_of buf fits
  read-line_of buf (chunk (b ∷ bs) rest) whole fits =
      chunk-line_of buf (b ∷ bs) (flat rest) rest
        (read_until_limited delim max_len (buf ++ (b ∷ bs)) rest)
        (λ room. read-line_of (buf ++ (b ∷ bs)) rest whole room)
  read-line_of buf (chunk [] rest) whole fits = absurd whole
  read-line_of buf broken whole fits = absurd whole

  -- Reading a line from a stream that ends without an error gives what its bytes give, in whatever chunks
  -- they arrive: the bytes up to the first delimiter if they are at most the limit, nothing for an
  -- empty stream, and otherwise the error for its length or for its end.
  pub read_until_limited-line_of :
      (f : Feed) → IsWhole f → (read_until_limited delim max_len [] f).0 ≡ line_of [] (flat f)
  read_until_limited-line_of f whole = read-line_of [] f whole (omega arith)
