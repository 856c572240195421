-- ===== src/Alpn/Grammar.antt =====
-- What `validate_service_name` accepts, as a grammar.
use meshly_core.Common.{
  not-false, reject_if-passed, ℕ, ◌≤◌, ◌≡◌, refl, ◌∙◌, ◌↔◌, inl, inr, Bool, true, false, ◌||◌, [],
  ◌∷◌, arith, nat_beq, nat_beq_iff, Bool-cases, nat_eq, list_eq, length, all, ok, Text, within,
}
use meshly_core.Alpn.{
  dash, is_alnum, starts_with_dash, ends_with_dash, has_double_dash, is_reserved,
  validate_service_name,
}

-- Words of letters and digits, joined by single dashes.
pub data IsLabel : Text → Type 0 where
  char : (c : ℕ) → is_alnum c ≡ true → IsLabel (c ∷ [])
  more : (c : ℕ) {n : Text} → is_alnum c ≡ true → IsLabel n → IsLabel (c ∷ n)
  joint : (c : ℕ) {n : Text} → is_alnum c ≡ true → IsLabel n → IsLabel (c ∷ dash ∷ n)

abbrev pub is_name_char : ℕ → Bool
is_name_char c = is_alnum c || nat_beq c dash

IsLabel-starts : {n : Text} → IsLabel n → starts_with_dash n ≡ false
IsLabel-starts (char c h) = ground arith
IsLabel-starts (more c h l) = ground arith
IsLabel-starts (joint c h l) = ground arith

ends-cons : (c : ℕ) {n : Text} → IsLabel n → ends_with_dash (c ∷ n) ≡ ends_with_dash n
ends-cons c (char d h) = refl
ends-cons c (more d h l) = refl
ends-cons c (joint d h l) = refl

IsLabel-ends : {n : Text} → IsLabel n → ends_with_dash n ≡ false
IsLabel-ends (char c h) = ground arith
IsLabel-ends (more c h l) = ends-cons c l ∙ IsLabel-ends l
IsLabel-ends (joint c h l) = ends-cons dash l ∙ IsLabel-ends l

IsLabel-has_double_dash : {n : Text} → IsLabel n → has_double_dash n ≡ false
IsLabel-has_double_dash (char c h) = ground arith
IsLabel-has_double_dash (more c h l) = ground (arith, IsLabel-has_double_dash l)
IsLabel-has_double_dash (joint c h l) = ground (arith, IsLabel-has_double_dash l, IsLabel-starts l)

IsLabel-all : {n : Text} → IsLabel n → all is_name_char n ≡ true
IsLabel-all (char c h) = ground arith
IsLabel-all (more c h l) = ground (arith, IsLabel-all l)
IsLabel-all (joint c h l) = ground (arith, IsLabel-all l)

IsLabel-nonempty : {n : Text} → IsLabel n → 1 ≤ length n
IsLabel-nonempty (char c h) = omega arith
IsLabel-nonempty (more c h l) = omega arith
IsLabel-nonempty (joint c h l) = omega arith

to_IsLabel :
    (c : ℕ) (n : Text)
    → starts_with_dash (c ∷ n) ≡ false
    → ends_with_dash (c ∷ n) ≡ false
    → has_double_dash (c ∷ n) ≡ false
    → all is_name_char (c ∷ n) ≡ true
    → IsLabel (c ∷ n)
to_IsLabel c [] s e d a = char c (ground arith)
to_IsLabel c (x ∷ []) s e d a = more c (ground arith) (char x (ground arith))
to_IsLabel c (x ∷ y ∷ n) s e d a = elim (Bool-cases (nat_beq x dash)) [
  | inl is_dash ↦
      let x-eq-dash : x ≡ dash = (nat_beq_iff x dash).0 is_dash in
      rw x-eq-dash
        (joint c (ground arith) (to_IsLabel y n (ground arith) e (ground arith) (ground arith)))
  | inr other ↦ more c (ground arith) (to_IsLabel x (y ∷ n) other e (ground arith) (ground arith))
]

-- What the code accepts, written without its tests.
pub record IsServiceName (name : Text) : Type 0 where
  pub label : IsLabel name
  pub short : length name ≤ 32
  pub free : is_reserved name ≡ false

-- The guards of `validate_service_name`, all passed.
record Passed (name : Text) : Type 0 where
  long : within 1 32 (length name) ≡ true
  edges : (starts_with_dash name || ends_with_dash name) ≡ false
  joints : has_double_dash name ≡ false
  chars : all is_name_char name ≡ true
  free : is_reserved name ≡ false

validate-Passed : (name : Text) → validate_service_name name ≡ ok tt → Passed name
unfolding validate_service_name
validate-Passed name h =
    let (a, h1) = reject_if-passed _ _ _ h in
    let (b, h2) = reject_if-passed _ _ _ h1 in
    let (c, h3) = reject_if-passed _ _ _ h2 in
    let (d, h4) = reject_if-passed _ _ _ h3 in
    let (e, h5) = reject_if-passed _ _ _ h4 in
    record { long = not-false _ a; edges = b; joints = c; chars = not-false _ d; free = e }

Passed-validate : (name : Text) → Passed name → validate_service_name name ≡ ok tt
unfolding validate_service_name
Passed-validate name p = rw (p.long, p.edges, p.joints, p.chars, p.free)

Passed-IsLabel : (name : Text) → Passed name → IsLabel name
Passed-IsLabel [] p = absurd (ground (arith, p.long))
Passed-IsLabel (c ∷ n) p =
    to_IsLabel c n (ground (arith, p.edges)) (ground (arith, p.edges)) p.joints p.chars

-- A name is accepted exactly when it is made of words of lower-case letters and digits joined by
-- single dashes, has at most 32 bytes, and is not one of the reserved names.
pub validate_iff : (name : Text) → (validate_service_name name ≡ ok tt) ↔ IsServiceName name
validate_iff name = (
  λ h.
      let p = validate-Passed name h in
      record { label = Passed-IsLabel name p; short = ground (arith, p.long); free = p.free },
  λ s. Passed-validate name (record {
    long = ground (arith, IsLabel-nonempty s.label, s.short);
    edges = ground (arith, IsLabel-starts s.label, IsLabel-ends s.label);
    joints = IsLabel-has_double_dash s.label;
    chars = IsLabel-all s.label;
    free = s.free;
  }),
)
