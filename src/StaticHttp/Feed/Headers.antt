-- ===== src/StaticHttp/Feed/Headers.antt =====
-- What the header reader returns.
use meshly_core.Common.{
  ℕ, zero, suc, ◌+◌, ◌≤◌, ◌≡◌, refl, sym, ap, ◌∙◌, ◌⊎◌, inl, inr, Bool, true, false, Option, none,
  some, [], ◌∷◌, ◌++◌, append_assoc, arith, ltb, nat_beq_iff, if◌then◌else◌, Bool-cases, nat_eq,
  list_eq, length, take, length-append, Result, ok, ok_injective, Bytes,
}
use meshly_core.StaticHttp.Feed.{
  Feed, closed, broken, chunk, ReadError, crlf_crlf, lf_lf, shifted, find_header_terminator,
  filled_headers, read_headers_limited,
}

abbrev crlf2 : Bytes
crlf2 = 13 ∷ 10 ∷ 13 ∷ 10 ∷ []

abbrev lf2 : Bytes
lf2 = 10 ∷ 10 ∷ []

-- One of the two terminators, after some bytes.
pub record Ends (bytes : Bytes) : Type 0 where
  pub fields : Bytes
  pub terminator : Bytes
  pub one_of : (terminator ≡ crlf2) ⊎ (terminator ≡ lf2)
  pub split : bytes ≡ fields ++ terminator

crlf_crlf-cut : (c : Bytes) → crlf_crlf c ≡ true → take 4 c ≡ crlf2
crlf_crlf-cut [] h = absurd (cc h)
crlf_crlf-cut (x ∷ []) h = absurd (cc h)
crlf_crlf-cut (x ∷ y ∷ []) h = absurd (cc h)
crlf_crlf-cut (x ∷ y ∷ z ∷ []) h = absurd (cc h)
crlf_crlf-cut (x ∷ y ∷ z ∷ w ∷ rest) h =
    ground (arith, nat_beq_iff x 13, nat_beq_iff y 10, nat_beq_iff z 13, nat_beq_iff w 10)

lf_lf-cut : (c : Bytes) → lf_lf c ≡ true → take 2 c ≡ lf2
lf_lf-cut [] h = absurd (cc h)
lf_lf-cut (x ∷ []) h = absurd (cc h)
lf_lf-cut (x ∷ y ∷ rest) h = ground (arith, nat_beq_iff x 10, nat_beq_iff y 10)

find-Ends : (c : Bytes) (n : ℕ) → find_header_terminator c ≡ some n → Ends (take (suc n) c)
unfolding find_header_terminator
find-Ends [] n h = absurd (cc h)
find-Ends (b ∷ bs) n h =
    go (crlf_crlf (b ∷ bs)) (lf_lf (b ∷ bs)) (find_header_terminator bs) (crlf_crlf-cut (b ∷ bs))
      (lf_lf-cut (b ∷ bs)) (λ m. find-Ends bs m) h
  where
    same : (x y : ℕ) → some x ≡ some y → x ≡ y
    same x y q = cc q

    go :
        (first second : Bool) (o : Option ℕ)
        → (first ≡ true → take 4 (b ∷ bs) ≡ crlf2)
        → (second ≡ true → take 2 (b ∷ bs) ≡ lf2)
        → ((m : ℕ) → o ≡ some m → Ends (take (suc m) bs))
        → (if first then some 3 else if second then some 1 else shifted o) ≡ some n
        → Ends (take (suc n) (b ∷ bs))
    go true second o p q later there =
        rw (← same 3 n there)
          (record { fields = []; terminator = crlf2; one_of = inl refl; split = p refl })
    go false true o p q later there =
        rw (← same 1 n there)
          (record { fields = []; terminator = lf2; one_of = inr refl; split = q refl })
    go false false none p q later there = absurd (cc there)
    go false false (some m) p q later there =
        let e = later m refl in
        rw (← same (suc m) n there) (record {
          fields = b ∷ e.fields;
          terminator = e.terminator;
          one_of = e.one_of;
          split = ap (λ zs. b ∷ zs) e.split;
        })

length-take_le : (n : ℕ) (xs : Bytes) → length (take n xs) ≤ n
length-take_le zero xs = omega arith
length-take_le (suc n) [] = omega arith
length-take_le (suc n) (x ∷ xs) = let le = length-take_le n xs in omega (arith, le)

after-Ends : (buf bytes : Bytes) → Ends bytes → Ends (buf ++ bytes)
after-Ends buf bytes e = record {
  fields = buf ++ e.fields;
  terminator = e.terminator;
  one_of = e.one_of;
  split = ap (λ zs. buf ++ zs) e.split ∙ sym (append_assoc buf e.fields e.terminator);
}

module _ (max_len : ℕ) where
  -- A header block that was read: it ends with a terminator, and is within the limit.
  abbrev pub IsBlock : Bytes → Type 0
  IsBlock headers = Ends headers × (length headers ≤ max_len)

  read-IsBlock :
      (buf : Bytes) (f : Feed) (headers : Bytes)
      → (read_headers_limited max_len buf f).0 ≡ ok headers
      → IsBlock headers
  unfolding read_headers_limited
  read-IsBlock buf closed headers h = absurd (cc h)
  read-IsBlock buf broken headers h = absurd (cc h)
  read-IsBlock buf (chunk [] rest) headers h = absurd (cc h)
  read-IsBlock buf (chunk (b ∷ bs) rest) headers h =
      go (b ∷ bs) (find_header_terminator (b ∷ bs)) (find-Ends (b ∷ bs))
        (read-IsBlock (buf ++ (b ∷ bs)) rest headers) h
    where
      more : Result ReadError Bytes × Feed
      more = read_headers_limited max_len (buf ++ (b ∷ bs)) rest

      go :
          (c : Bytes) (o : Option ℕ)
          → ((m : ℕ) → o ≡ some m → Ends (take (suc m) c))
          → (more.0 ≡ ok headers → IsBlock headers)
          → (filled_headers max_len buf c rest o more).0 ≡ ok headers
          → IsBlock headers
      go c none ends later q = elim (Bool-cases (ltb max_len (length buf + length c))) [
        | inl over ↦ absurd (cc (rw over at q))
        | inr room ↦ later (rw room at q)
      ]
      go c (some m) ends later q = elim (Bool-cases (ltb max_len (length buf + suc m))) [
        | inl over ↦ absurd (cc (rw over at q))
        | inr room ↦ rw (← ok_injective (rw room at q)) (
          after-Ends buf (take (suc m) c) (ends m refl),
          ground (arith, room, length-append buf (take (suc m) c), length-take_le (suc m) c),
        )
      ]

  -- A header block that the reader returns ends with an empty line, in either form of line end, and has at
  -- most the allowed number of bytes.
  pub read_headers_limited-IsBlock :
      (f : Feed) (headers : Bytes)
      → (read_headers_limited max_len [] f).0 ≡ ok headers
      → IsBlock headers
  read_headers_limited-IsBlock f headers h = read-IsBlock [] f headers h
