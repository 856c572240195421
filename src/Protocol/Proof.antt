-- ===== src/Protocol/Proof.antt =====
-- `compute_proof` and `verify_proof` of crates/common/src/protocol.rs. HMAC-SHA256 and the constant-time
-- comparison are the crates `hmac` and `subtle`: parameters of the model.
use meshly_core.Common.{
  ◌≡◌, refl, sym, ap, ◌∙◌, ◌≢◌, ◌↔◌, ◌⊎◌, inl, inr, Bool, true, ◌++◌, arith, Bool-cases, ◌==◌,
  eq_iff, nat_eq, list_eq, length, take, drop, length-append, take-append, drop-append, Bytes, Text,
}

-- `hmac key message` is the tag of a message that may be fed in pieces; `ct_eq` compares two arrays.
pub record Crypto : Type 0 where
  pub hmac : Bytes → Bytes → Bytes
  pub ct_eq : Bytes → Bytes → Bool

abbrev pub ComparesExactly : Crypto → Type 0
ComparesExactly c = (a b : Bytes) → (c.ct_eq a b ≡ true) ↔ (a ≡ b)

module _ (c : Crypto) where
  unfoldable pub compute_proof : Bytes → Text → Bytes → Bytes
  compute_proof shared_secret service_name nonce = c.hmac shared_secret (service_name ++ nonce)

  unfoldable pub verify_proof : Bytes → Text → Bytes → Bytes → Bool
  unfolding compute_proof
  verify_proof shared_secret service_name nonce proof =
      c.ct_eq (compute_proof shared_secret service_name nonce) proof

-- Two messages with one tag under one key.
pub record Collision (c : Crypto) (key : Bytes) : Type 0 where
  pub left : Bytes
  pub right : Bytes
  pub apart : left ≢ right
  pub same_tag : c.hmac key left ≡ c.hmac key right

append_injective : (a b c d : Bytes) → length b ≡ length d → a ++ b ≡ c ++ d → (a ≡ c) × (b ≡ d)
append_injective a b c d h e =
    let same : length a ≡ length c =
      omega (arith, ap length e, length-append a b, length-append c d, h) in
    (
      sym (take-append a b) ∙ ap (take (length a)) e ∙ rw same (take-append c d),
      sym (drop-append a b) ∙ ap (drop (length a)) e ∙ rw same (drop-append c d),
    )

module _ (c : Crypto) (exact : ComparesExactly c) where
  -- With an exact comparison of proofs, the proof that the consumer computes is accepted by a
  -- provider with the same secret, service name and nonce.
  pub verify_proof-compute_proof :
      (secret nonce : Bytes) (service : Text)
      → verify_proof c secret service nonce (compute_proof c secret service nonce) ≡ true
  unfolding verify_proof
  verify_proof-compute_proof secret nonce service = (exact _ _).1 refl

  -- With an exact comparison of proofs, a proof made for one service and nonce that is accepted
  -- for a service and nonce, the nonces having 32 bytes, was made for that service and nonce, or
  -- gives a collision of the HMAC under the shared secret.
  pub verify_proof_binds :
      (secret : Bytes) (service service' : Text) (nonce nonce' : Bytes)
      → length nonce ≡ 32
      → length nonce' ≡ 32
      → verify_proof c secret service' nonce' (compute_proof c secret service nonce) ≡ true
      → ((service ≡ service') × (nonce ≡ nonce')) ⊎ Collision c secret
  unfolding verify_proof
  verify_proof_binds secret s s' n n' h h' accepted = elim (Bool-cases ((s ++ n) == (s' ++ n'))) [
    | inl same ↦ inl (append_injective s n s' n' (h ∙ sym h') ((eq_iff (s ++ n) (s' ++ n')).0 same))
    | inr apart ↦ inr (record {
      left = s ++ n;
      right = s' ++ n';
      apart = λ e. cc ((eq_iff (s ++ n) (s' ++ n')).1 e, apart);
      same_tag = sym ((exact _ _).0 accepted);
    })
  ]
