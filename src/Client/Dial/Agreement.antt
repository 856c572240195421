-- ===== src/Client/Dial/Agreement.antt =====
-- A consumer's dial, answered by a provider's handler, directly and through the server's relay.
use meshly_core.Common.{
  ℕ, ◌≡◌, refl, ap, ◌∙◌, inl, inr, Bool, true, false, ◌&&◌, Option, none, some, List, [], ◌∷◌,
  if◌then◌else◌, Bool-cases, Eq, ◌==◌, eq_iff, beq_self, nat_eq, list_eq, Result, ok, err, panic,
  Bytes, Text, text,
}
use meshly_core.Protocol.{
  Frame, auth_ok, auth_err, auth_hello, auth_proof, AuthErr, auth_err_bad_proof,
}
use meshly_core.Protocol.Proof.{
  Crypto, ComparesExactly, compute_proof, verify_proof, verify_proof-compute_proof,
}
use meshly_core.Alpn.{AlpnError, alpn_for_service}
use meshly_core.Registry.{ServerState, Handle}
use meshly_core.Relay.{
  Started, not_started, running, take_rate, start_with, start_relay, Decision, spawned, check_open,
  check_provider, accept_stream, lookup_service_any_group, initial_rate,
}
use meshly_core.Client.Provider.{Stage, opened, refused, authenticated, frame, expose_step}
use meshly_core.Client.Dial.{
  request, Network, DialError, Way, direct, relay, call_failed, proof_rejected, connection_lost,
  verdict, make_proof, dial_direct, dial_relay, opening,
}

-- A provider that refuses closes its stream, and the refusal may be lost with it: then a read fails with
-- this message.
abbrev refusal : Option Text → AuthErr → Result Text Frame
refusal none e = ok (auth_err e)
refusal (some lost) e = err lost

-- What the consumer reads is the last frame that the provider has written, if that arrives.
abbrev last_reply : Option Text → Option Frame → Result Text Frame
last_reply lost (some (auth_err e)) = refusal lost e
last_reply lost (some f) = ok f
last_reply lost none = err (text "connection lost")

abbrev pub named : {E A : Type 0} → Result E A → Bool
named (ok x) = true
named (err x) = false
named panic = false

abbrev pub registered_as : {Peer : Type 0} ⦃e : Eq Peer⦄ → Peer → Option Peer → Bool
registered_as p none = false
registered_as p (some q) = q == p

module _ (c : Crypto) (lost : Option Text) (secret : Bytes) (name : Text) (nonce : Bytes) where
  abbrev replies : Stage → Option Frame → List Frame → Option Frame
  replies stage last [] = last
  replies stage last (f ∷ fs) =
      let next = expose_step c secret name nonce stage (frame f true) in replies next.0 next.1 fs

  -- A network on which all calls succeed and the peer is a provider with this secret.
  abbrev pub to_provider : Network
  to_provider = record {
    connects = ok tt;
    opens = ok tt;
    writes = λ f. ok tt;
    reads = λ fs. last_reply lost (replies opened none fs);
  }

abbrev pub bad_proof_of : AuthErr
bad_proof_of = record { code = auth_err_bad_proof; reason = text "bad HMAC proof" }

abbrev refused_as : Way → Option Text → DialError
refused_as way none = proof_rejected way bad_proof_of
refused_as way (some lost) = connection_lost way lost

-- What the consumer is told, by whether its proof verifies.
abbrev pub told : Way → Option Text → Bool → Result DialError (Unit {0})
told way lost true = ok tt
told way lost false = err (refused_as way lost)

abbrev sent : Bool → Stage × Option Frame
sent b = if b then (authenticated, some auth_ok) else (refused, some (auth_err bad_proof_of))

told_so :
    (way : Way) (lost : Option Text) (b : Bool)
    → verdict way (last_reply lost (sent b).1) ≡ told way lost b
told_so way lost true = refl
told_so way none false = refl
told_so way (some m) false = refl

module _ (c : Crypto) (lost : Option Text) (mine theirs : Bytes) (name service : Text)
    (nonce : Bytes) where
  -- A consumer that reaches a provider directly is told whether its proof verifies there, unless the refusal is lost.
  pub dial_direct-told :
      (alpn : Bytes)
      → alpn_for_service name ≡ ok alpn
      → dial_direct c mine name (to_provider c lost theirs service nonce)
        ≡ told direct lost (verify_proof c theirs service nonce (make_proof c mine name nonce))
  unfolding dial_direct expose_step
  dial_direct-told alpn valid =
      rw valid
        (told_so direct lost (verify_proof c theirs service nonce (make_proof c mine name nonce)))

-- The consumer `me` at the server's relay; `at` is the handler that each provider has for a service, by its
-- secret and the nonce that it draws.
module _ {Peer : Type 0} ⦃e : Eq Peer⦄ (c : Crypto) (lost : Option Text)
    (parse : Text → Option Peer) (show : Peer → Text) (default_reply_bps : Option Handle)
    (at : Peer → Text → Bytes × Bytes) where
  abbrev closed_stream : Result Text Frame
  closed_stream = err (text "stream closed")

  abbrev forwarded : Started → Peer → Text → List Frame → Result Text Frame
  forwarded not_started p service fs = closed_stream
  forwarded (running stream_id handle) p service fs =
      (to_provider c lost (at p service).0 service (at p service).1).reads fs

  -- The task that is spawned reaches the provider, if `run_relay` gets as far as its `connect`.
  abbrev handed_on : ServerState Peer → Decision Peer → List Frame → Result Text Frame
  handed_on st Decision.refused fs = closed_stream
  handed_on st (spawned rate p service) fs =
      forwarded (start_relay rate service true true st).0 p service fs

  abbrev relay_reads : Peer → ServerState Peer → List Frame → Result Text Frame
  relay_reads me st [] = closed_stream
  relay_reads me st (f ∷ fs) =
      handed_on st (accept_stream parse default_reply_bps me st (some f)) fs

  -- A network on which all calls succeed and the peer is the server's relay.
  abbrev pub to_relay : Peer → ServerState Peer → Network
  to_relay me st = record {
    connects = ok tt;
    opens = ok tt;
    writes = λ f. ok tt;
    reads = relay_reads me st;
  }

  at_relay :
      (name : Text) (me p : Peer) (st : ServerState Peer)
      → ((q : Peer) → parse (show q) ≡ some q)
      → accept_stream parse default_reply_bps me st (some (opening name (show p) (show me))) ≡ (
          if registered_as p (lookup_service_any_group st name)
          then spawned (initial_rate default_reply_bps st me) p name
          else Decision.refused)
  unfolding accept_stream check_open
  at_relay name me p st prints =
      rw (prints p, prints me, beq_self me, check_open) (checked (lookup_service_any_group st name))
    where
      checked :
          (o : Option Peer)
          → check_provider parse default_reply_bps me st (request name (show p) (show me)) p o ≡ (
              if registered_as p o
              then spawned (initial_rate default_reply_bps st me) p name
              else Decision.refused)
      checked none = refl
      checked (some q) = elim (Bool-cases (q == p)) [
        | inl same ↦ rw ((eq_iff q p).0 same) refl
        | inr other ↦ rw other refl
      ]

  Forwards : Started → Bool → Type 0
  Forwards started b =
      (p : Peer) (service : Text) (fs : List Frame)
      → forwarded started p service fs ≡ (
          if b
          then (to_provider c lost (at p service).0 service (at p service).1).reads fs
          else closed_stream)

  take_rate-Forwards :
      (stream_id : ℕ) (rate : Option ℕ) (st : ServerState Peer)
      → Forwards (take_rate stream_id rate st).0 true
  unfolding take_rate Forwards
  take_rate-Forwards stream_id none st p service fs = refl
  take_rate-Forwards stream_id (some bps) st p service fs = refl

  start_with-Forwards :
      (rate : Option ℕ) (st : ServerState Peer) (alpn : Result AlpnError Bytes)
      → Forwards (start_with rate true st alpn).0 (named alpn)
  unfolding start_with Forwards
  start_with-Forwards rate st (ok alpn) p service fs = take_rate-Forwards _ rate _ p service fs
  start_with-Forwards rate st (err x) p service fs = refl
  start_with-Forwards rate st panic p service fs = refl

  start_relay-Forwards :
      (rate : Option ℕ) (name : Text) (st : ServerState Peer)
      → Forwards (start_relay rate name true true st).0 (named (alpn_for_service name))
  unfolding start_relay
  start_relay-Forwards rate name st = start_with-Forwards rate st (alpn_for_service name)

  -- A consumer that dials a provider over the relay reads a stream that is closed, unless the provider is the
  -- one that the server has for the service and the service has a valid name; then it is told by that
  -- provider whether its proof verifies, or, of a proof that does not and whose refusal is lost, that the
  -- connection was lost; given that all calls succeed and a printed id parses to itself.
  pub dial_relay-told :
      (mine : Bytes) (name : Text) (me p : Peer) (st : ServerState Peer)
      → ((q : Peer) → parse (show q) ≡ some q)
      → dial_relay c mine name (show p) (show me) (to_relay me st) ≡ (
          if registered_as p (lookup_service_any_group st name) && named (alpn_for_service name)
          then told relay lost (
              verify_proof c
                (at p name).0
                name
                (at p name).1
                (make_proof c mine name (at p name).1))
          else err (call_failed (text "stream closed")))
  unfolding dial_relay expose_step Forwards
  dial_relay-told mine name me p st prints =
      elim (Bool-cases (registered_as p (lookup_service_any_group st name))) [
        | inr gone ↦
            let nowhere = rw gone at (at_relay name me p st prints) in rw gone (rw nowhere refl)
        | inl is ↦
            let there = rw is at (at_relay name me p st prints) in
            let goes = start_relay-Forwards (initial_rate default_reply_bps st me) name st p name in
            elim (Bool-cases (named (alpn_for_service name))) [
              | inl valid ↦
                  let proof = make_proof c mine name (at p name).1 in
                  let first = rw valid at (goes (auth_hello ∷ [])) in
                  let second = rw valid at (goes (auth_hello ∷ auth_proof proof ∷ [])) in
                  rw (is, valid)
                    (rw there (
                      rw first (
                        rw second (
                          told_so relay lost
                            (verify_proof c (at p name).0 name (at p name).1 proof)))))
              | inr bad ↦
                  let closed = rw bad at (goes (auth_hello ∷ [])) in
                  rw (is, bad) (rw there (rw closed refl))
            ]
      ]

  -- With an exact comparison of proofs and printed ids that parse to themselves, a consumer with the
  -- secret that a service's registered provider has for it always gets through, over the relay and by
  -- dialing the provider directly, the service having a valid name and all calls succeeding, whatever nonce
  -- is drawn.
  pub same_secret :
      (name : Text) (me p : Peer) (st : ServerState Peer) (alpn : Bytes)
      → ComparesExactly c
      → ((q : Peer) → parse (show q) ≡ some q)
      → lookup_service_any_group st name ≡ some p
      → alpn_for_service name ≡ ok alpn
      → (dial_relay c (at p name).0 name (show p) (show me) (to_relay me st) ≡ ok tt)
        × (dial_direct c (at p name).0 name (to_provider c lost (at p name).0 name (at p name).1)
            ≡ ok tt)
  unfolding make_proof compute_proof
  same_secret name me p st alpn exact prints found valid =
      let passes = verify_proof-compute_proof c exact (at p name).0 (at p name).1 name in
      (
        dial_relay-told (at p name).0 name me p st prints
            ∙ ap
                (λ (b : Bool).
                  if b
                  then told relay lost (
                      verify_proof c (at p name).0 name (at p name).1
                        (make_proof c (at p name).0 name (at p name).1))
                  else err (call_failed (text "stream closed")))
                (ap (λ (b : Bool). b && named (alpn_for_service name))
                    (ap (registered_as p) found ∙ beq_self p)
                  ∙ ap named valid)
            ∙ ap (told relay lost) passes,
        dial_direct-told c lost (at p name).0 (at p name).0 name name (at p name).1 alpn valid
            ∙ ap (told direct lost) passes,
      )
