-- ===== src/Client/Provider/Honest.antt =====
-- Who gets through the handshake.
use meshly_core.Common.{
  ◌≡◌, refl, sym, ap, ◌∙◌, ◌⊎◌, inl, inr, Bool, true, false, Option, List, [], ◌∷◌, Bool-cases,
  nat_eq, list_eq, length, Bytes, Text,
}
use meshly_core.Protocol.{Frame, auth_hello, auth_proof}
use meshly_core.Protocol.Proof.{
  verify_proof_binds, Collision, Crypto, ComparesExactly, compute_proof, verify_proof,
}
use meshly_core.Client.Provider.{
  Stage, opened, challenged, authenticated, refused, failed, Incoming, frame, broken, expose_step,
  static_step, run,
}

pub data Handler : Type 0 where
  expose : Handler
  static : Handler

module _ (c : Crypto) (secret : Bytes) (name : Text) where
  abbrev pub handler_step : Handler → Bytes → Stage → Incoming → Stage × Option Frame
  handler_step expose = expose_step c secret name
  handler_step static = static_step c secret name

  static_step-expose_step :
      (nonce : Bytes) (stage : Stage) (ev : Incoming)
      → static_step c secret name nonce stage ev ≡ expose_step c secret name nonce stage ev
  unfolding static_step expose_step
  static_step-expose_step nonce opened (frame auth_hello wrote) = refl
  static_step-expose_step nonce opened (frame _ wrote) = refl
  static_step-expose_step nonce opened broken = refl
  static_step-expose_step nonce (challenged sent) (frame (auth_proof mac) wrote) = refl
  static_step-expose_step nonce (challenged sent) (frame _ wrote) = refl
  static_step-expose_step nonce (challenged sent) broken = refl
  static_step-expose_step nonce _ ev = refl

  same_run :
      (h : Handler) (nonce : Bytes) (evs : List Incoming) (stage : Stage)
      → run c secret name (handler_step h nonce) stage evs
        ≡ run c secret name (expose_step c secret name nonce) stage evs
  same_run expose nonce evs stage = refl
  same_run static nonce [] stage = refl
  same_run static nonce (ev ∷ evs) stage =
      rw (static_step-expose_step nonce stage ev)
        (same_run static nonce evs (expose_step c secret name nonce stage ev).0)

  -- What a handler that treats its peer as authenticated owes to it.
  pub record Proved (nonce : Bytes) (evs : List Incoming) : Type 0 where
    pub mac : Bytes
    pub rest : List Incoming
    pub sent : evs ≡ frame auth_hello true ∷ frame (auth_proof mac) true ∷ rest
    pub accepted : verify_proof c secret name nonce mac ≡ true

  stuck_refused :
      (nonce : Bytes) (evs : List Incoming)
      → run c secret name (expose_step c secret name nonce) refused evs ≡ refused
  unfolding expose_step
  stuck_refused nonce [] = refl
  stuck_refused nonce (ev ∷ evs) = stuck_refused nonce evs

  stuck_failed :
      (nonce : Bytes) (evs : List Incoming)
      → run c secret name (expose_step c secret name nonce) failed evs ≡ failed
  unfolding expose_step
  stuck_failed nonce [] = refl
  stuck_failed nonce (ev ∷ evs) = stuck_failed nonce evs

  challenged_only :
      (nonce : Bytes) (evs : List Incoming)
      → run c secret name (expose_step c secret name nonce) (challenged nonce) evs ≡ authenticated
      → (mac : Bytes) × (rest : List Incoming) × (evs ≡ frame (auth_proof mac) true ∷ rest)
        × (verify_proof c secret name nonce mac ≡ true)
  unfolding expose_step
  challenged_only nonce [] h = absurd (cc h)
  challenged_only nonce (broken ∷ evs) h = absurd (cc (sym (stuck_failed nonce evs) ∙ h))
  challenged_only nonce (frame (auth_proof mac) true ∷ evs) h =
      elim (Bool-cases (verify_proof c secret name nonce mac)) [
        | inl good ↦ (mac, evs, refl, good)
        | inr bad ↦ absurd (cc (sym (stuck_refused nonce evs) ∙ rw bad at h))
      ]
  challenged_only nonce (frame (auth_proof mac) false ∷ evs) h =
      elim (Bool-cases (verify_proof c secret name nonce mac)) [
        | inl good ↦ absurd (cc (sym (stuck_failed nonce evs) ∙ rw good at h))
        | inr bad ↦ absurd (cc (sym (stuck_refused nonce evs) ∙ rw bad at h))
      ]
  challenged_only nonce (frame _ wrote ∷ evs) h = absurd (cc (sym (stuck_refused nonce evs) ∙ h))

  exposed_only :
      (nonce : Bytes) (evs : List Incoming)
      → run c secret name (expose_step c secret name nonce) opened evs ≡ authenticated
      → Proved nonce evs
  unfolding expose_step
  exposed_only nonce [] h = absurd (cc h)
  exposed_only nonce (broken ∷ evs) h = absurd (cc (sym (stuck_failed nonce evs) ∙ h))
  exposed_only nonce (frame auth_hello true ∷ evs) h =
      let (mac, rest, same, good) = challenged_only nonce evs h in
      record {
        mac = mac;
        rest = rest;
        sent = ap (λ xs. frame auth_hello true ∷ xs) same;
        accepted = good;
      }
  exposed_only nonce (frame auth_hello false ∷ evs) h =
      absurd (cc (sym (stuck_failed nonce evs) ∙ h))
  exposed_only nonce (frame _ wrote ∷ evs) h = absurd (cc (sym (stuck_refused nonce evs) ∙ h))

  -- The handler of an exposed service and that of a static one treat a peer as authenticated only when
  -- it has sent AuthHello and then an AuthProof that verifies for the nonce of this connection
  -- under the service's secret and name, both answered; whatever else arrives.
  pub authenticated_only :
      (h : Handler) (nonce : Bytes) (evs : List Incoming)
      → run c secret name (handler_step h nonce) opened evs ≡ authenticated
      → Proved nonce evs
  authenticated_only h nonce evs done =
      exposed_only nonce evs (sym (same_run h nonce evs opened) ∙ done)

-- A recorded proof opens no other connection.
module _ (c : Crypto) (exact : ComparesExactly c) where
  -- With an exact comparison of proofs, a peer that sends a proof made under the same secret for some
  -- service and a nonce of 32 bytes gets through a handler whose nonce has 32 bytes only if service
  -- and nonce are this connection's, or the HMAC has a collision under the secret.
  pub replay_refused :
      (h : Handler) (secret : Bytes) (name name' : Text) (nonce nonce' : Bytes)
      (wrote wrote' : Bool)
      → length nonce ≡ 32
      → length nonce' ≡ 32
      → run c secret name (handler_step c secret name h nonce) opened (
          frame auth_hello wrote
          ∷ frame (auth_proof (compute_proof c secret name' nonce')) wrote'
          ∷ [])
        ≡ authenticated
      → ((name' ≡ name) × (nonce' ≡ nonce)) ⊎ Collision c secret
  replay_refused h secret name name' nonce nonce' wrote wrote' size size' done =
      let p = authenticated_only c secret name h nonce _ done in
      verify_proof_binds c exact secret name' name nonce' nonce size' size
        (ap (verify_proof c secret name nonce) (the_proof p.sent) ∙ p.accepted)
    where
      the_proof :
          {mac mac' : Bytes} {rest : List Incoming}
          → frame auth_hello wrote ∷ frame (auth_proof mac) wrote' ∷ []
            ≡ frame auth_hello true ∷ frame (auth_proof mac') true ∷ rest
          → mac ≡ mac'
      the_proof q = cc q
