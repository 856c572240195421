-- ===== src/StaticHttp/Listing/Inert.antt =====
-- What the row of an entry is to a reader of HTML, whatever the entry's name.
use meshly_core.Common.{
  ℕ, zero, suc, ◌+◌, ◌*◌, ◌/◌, ◌%◌, ◌≡◌, refl, sym, ap, ◌∙◌, ◌⊎◌, inl, inr, Bool, true, false, ◌&&◌,
  ◌||◌, not, [], ◌∷◌, ◌++◌, arith, ltb, nat_beq, if◌then◌else◌, Bool-cases, nat_eq, list_eq, all,
  Text, text,
}
use meshly_core.Common.Strings.{decimal, digits}
use meshly_core.StaticHttp.Listing.{
  Entry, entity, html_escape, without_dots, size_text, display_name, row,
}

-- The characters that end an attribute or open a tag.
abbrev pub special : ℕ → Bool
special c = nat_beq c 60 || nat_beq c 62 || nat_beq c 34 || nat_beq c 39

abbrev pub Plain : Text → Type 0
Plain s = all (λ c. not (special c)) s ≡ true

-- The characters of a text that are special, in order.
abbrev pub marks : Text → Text
marks [] = []
marks (c ∷ cs) = let rest = marks cs in if special c then c ∷ rest else rest

marks-append : (s t : Text) → marks (s ++ t) ≡ marks s ++ marks t
marks-append [] t = refl
marks-append (c ∷ s) t = elim (Bool-cases (special c)) [
  | inl is ↦ simp is (ap (λ r. c ∷ r) (marks-append s t))
  | inr other ↦ simp other (marks-append s t)
]

marks-Plain : (s : Text) → Plain s → marks s ≡ []
marks-Plain [] h = refl
marks-Plain (c ∷ s) h = elim (Bool-cases (special c)) [
  | inl is ↦ absurd (cc (simp is at h))
  | inr other ↦ simp other (marks-Plain s (simp other at h))
]

marks-around : (s t : Text) → Plain s → marks (s ++ t) ≡ marks t
marks-around s t h = marks-append s t ∙ ap (λ r. r ++ marks t) (marks-Plain s h)

all-append :
    (p : ℕ → Bool) (xs ys : Text) → all p xs ≡ true → all p ys ≡ true → all p (xs ++ ys) ≡ true
all-append p [] ys h h' = h'
all-append p (x ∷ xs) ys h h' = ground (arith, all-append p xs ys)

entity-plain : (c : ℕ) → all (λ b. not (special b)) (entity c) ≡ true
entity-plain c = ground arith

html_escape-plain : (s : Text) → all (λ b. not (special b)) (html_escape s) ≡ true
unfolding html_escape
html_escape-plain [] = refl
html_escape-plain (c ∷ cs) =
    all-append (λ b. not (special b)) (entity c) (html_escape cs) (entity-plain c)
      (html_escape-plain cs)

abbrev pub has_dots : Text → Bool
has_dots [] = false
has_dots (x ∷ []) = false
has_dots (x ∷ y ∷ rest) = (nat_beq x 46 && nat_beq y 46) || has_dots (y ∷ rest)

other_first :
    (x : ℕ) (t : Text) → nat_beq x 46 ≡ false → has_dots t ≡ false → has_dots (x ∷ t) ≡ false
other_first x [] other h = refl
other_first x (y ∷ t) other h = ground (arith, other, h)

dot_first :
    (x y : ℕ) (t : Text)
    → nat_beq y 46 ≡ false
    → has_dots (y ∷ t) ≡ false
    → has_dots (x ∷ y ∷ t) ≡ false
dot_first x y t other h = ground (arith, other, h)

kept_first :
    (y : ℕ) (rest : Text) → nat_beq y 46 ≡ false → (t : Text) × (without_dots (y ∷ rest) ≡ y ∷ t)
unfolding without_dots
kept_first y [] other = ([], refl)
kept_first y (z ∷ rest) other = (without_dots (z ∷ rest), ground (arith, other))

no_dots : (s : Text) → has_dots (without_dots s) ≡ false
unfolding without_dots
no_dots [] = refl
no_dots (x ∷ []) = refl
no_dots (x ∷ y ∷ rest) = elim (Bool-cases (nat_beq x 46)) [
  | inr other ↦ rw other (other_first x (without_dots (y ∷ rest)) other (no_dots (y ∷ rest)))
  | inl dot ↦ elim (Bool-cases (nat_beq y 46)) [
    | inl both ↦ rw (dot, both) (no_dots rest)
    | inr other ↦
        let (t, kept) = kept_first y rest other in
        rw (dot, other) (rw kept (dot_first x y t other (rw kept at (no_dots (y ∷ rest)))))
  ]
]

starts_dot : Text → Bool
starts_dot [] = false
starts_dot (x ∷ xs) = nat_beq x 46

has_dots-cons :
    (c : ℕ) (t : Text) → has_dots (c ∷ t) ≡ ((nat_beq c 46 && starts_dot t) || has_dots t)
unfolding starts_dot
has_dots-cons c [] = ground arith
has_dots-cons c (x ∷ t) = refl

-- Escaping one character: it stays, or it is not a dot and an entity takes its place.
apart : (c n : ℕ) → nat_beq c n ≡ true → nat_beq n 46 ≡ false → nat_beq c 46 ≡ false
apart c n same other = ground (arith, same, other)

entity_cases :
    (c : ℕ)
    → (entity c ≡ c ∷ [])
      ⊎ ((nat_beq c 46 ≡ false)
          × ((t : Text)
              → (has_dots (entity c ++ t) ≡ has_dots (59 ∷ t))
                × (starts_dot (entity c ++ t) ≡ false)))
unfolding starts_dot
entity_cases c = elim (Bool-cases (nat_beq c 38)) [
  | inl e38 ↦ simp e38 (inr (apart c 38 e38 refl, λ t. (refl, refl)))
  | inr n38 ↦ simp n38 (elim (Bool-cases (nat_beq c 60)) [
    | inl e60 ↦ simp e60 (inr (apart c 60 e60 refl, λ t. (refl, refl)))
    | inr n60 ↦ simp n60 (elim (Bool-cases (nat_beq c 62)) [
      | inl e62 ↦ simp e62 (inr (apart c 62 e62 refl, λ t. (refl, refl)))
      | inr n62 ↦ simp n62 (elim (Bool-cases (nat_beq c 34)) [
        | inl e34 ↦ simp e34 (inr (apart c 34 e34 refl, λ t. (refl, refl)))
        | inr n34 ↦ simp n34 (elim (Bool-cases (nat_beq c 39)) [
          | inl e39 ↦ simp e39 (inr (apart c 39 e39 refl, λ t. (refl, refl)))
          | inr n39 ↦ simp n39 (inl refl)
        ])
      ])
    ])
  ])
]

html_escape-dots :
    (s : Text)
    → (has_dots (html_escape s) ≡ has_dots s) × (starts_dot (html_escape s) ≡ starts_dot s)
unfolding html_escape starts_dot
html_escape-dots [] = (refl, refl)
html_escape-dots (c ∷ s) =
    let (dots, first) = html_escape-dots s in
    elim (entity_cases c) [
      | inl kept ↦
          rw kept
            (has_dots-cons c (html_escape s) ∙ rw (dots, first) (sym (has_dots-cons c s)), refl)
      | inr (other, instead) ↦ (
        (instead (html_escape s)).0
            ∙ has_dots-cons 59 (html_escape s)
            ∙ dots
            ∙ sym (has_dots-cons c s ∙ rw other refl),
        (instead (html_escape s)).1 ∙ sym other,
      )
    ]

digits-Plain : (fuel n : ℕ) (rest : Text) → Plain rest → Plain (digits fuel n rest)
digits-Plain zero n rest h = h
digits-Plain (suc fuel) n rest h = elim (Bool-cases (ltb n 10)) [
  | inl last ↦ rw last (ground (arith, last, h))
  | inr more ↦ rw more (digits-Plain fuel (n / 10) ((48 + n % 10) ∷ rest) (ground (arith, h)))
]

decimal-Plain : (n : ℕ) → Plain (decimal n)
unfolding decimal
decimal-Plain n = digits-Plain 20 n [] refl

module _ (one_decimal : ℕ → ℕ → Text) (formats : (a b : ℕ) → Plain (one_decimal a b)) where
  size_text-Plain : (entry : Entry) → Plain (size_text one_decimal entry)
  size_text-Plain entry = elim (Bool-cases entry.is_dir) [
    | inl dir ↦ simp dir refl
    | inr file ↦ simp file (elim (Bool-cases (ltb entry.size 1024)) [
      | inl small ↦ simp small (
          all-append (λ c. not (special c)) (decimal entry.size) (text " B")
            (decimal-Plain entry.size) refl)
      | inr large ↦ simp large (elim (Bool-cases (ltb entry.size (1024 * 1024))) [
        | inl kilo ↦ simp kilo (
            all-append (λ c. not (special c)) (one_decimal entry.size 1024) (text " KB")
              (formats entry.size 1024) refl)
        | inr mega ↦ simp mega (
            all-append (λ c. not (special c)) (one_decimal entry.size (1024 * 1024)) (text " MB")
              (formats entry.size (1024 * 1024)) refl)
      ])
    ])
  ]

  abbrev link_of : Entry → Text
  link_of entry = html_escape (without_dots entry.href)

  abbrev label_of : Entry → Text
  label_of entry = html_escape (display_name one_decimal entry)

  -- What stands in a row behind its link.
  abbrev behind : Entry → Text
  behind entry =
      text ">"
      ++ (label_of entry
          ++ (text "</a></td><td class=\"size\">"
              ++ (size_text one_decimal entry ++ text "</td></tr>")))

  row_lem :
      (entry : Entry)
      → row one_decimal entry ≡ text "<tr><td><a href=\"" ++ (link_of entry ++ (34 ∷ behind entry))
  unfolding row
  row_lem entry = refl

  marks-piece : (a s t : Text) → Plain s → marks (a ++ (s ++ t)) ≡ marks a ++ marks t
  marks-piece a s t h = marks-append a (s ++ t) ∙ ap (λ r. marks a ++ r) (marks-around s t h)

  marks-behind :
      (entry : Entry)
      → marks (behind entry) ≡ marks (text "></a></td><td class=\"size\"></td></tr>")
  marks-behind entry =
      marks-piece (text ">") (label_of entry) _ (html_escape-plain (display_name one_decimal entry))
      ∙ ap (λ r. 62 ∷ r)
          (marks-piece (text "</a></td><td class=\"size\">") (size_text one_decimal entry)
            (text "</td></tr>") (size_text-Plain entry))

  -- The row of an entry has the quotation marks and the angle brackets of its template and no others, in its
  -- order, whatever the name, the size and the link are, and what stands between the first two quotation
  -- marks, the link, has no two dots in a row; given that a formatted quotient has no such characters.
  pub row_inert :
      (entry : Entry)
      → (marks (row one_decimal entry)
          ≡ marks (text "<tr><td><a href=\"\"></a></td><td class=\"size\"></td></tr>"))
        × ((link : Text) × (rest : Text) × (row one_decimal entry
              ≡ text "<tr><td><a href=\"" ++ (link ++ (34 ∷ rest)))
            × Plain link
            × (has_dots link ≡ false))
  row_inert entry =
      let link_Plain : Plain (link_of entry) = html_escape-plain (without_dots entry.href) in
      (
        ap marks (row_lem entry)
            ∙ marks-piece (text "<tr><td><a href=\"") (link_of entry) (34 ∷ behind entry) link_Plain
            ∙ ap (λ r. marks (text "<tr><td><a href=\"\"") ++ r) (marks-behind entry),
        (
          link_of entry,
          behind entry,
          row_lem entry,
          link_Plain,
          (html_escape-dots (without_dots entry.href)).0 ∙ no_dots entry.href,
        ),
      )
