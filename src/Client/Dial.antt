-- ===== src/Client/Dial.antt =====
-- The handshake of `dial_direct` and `dial_relay` in crates/client/src/consume.rs, and the text of their
-- errors, which `is_auth_error` reads.
pub mod Agreement
pub mod Classify
mod Tests
use meshly_core.Common.{
  [], replicate, ◌∷◌, List, Bool, not, nat_eq, list_eq, Result, ok, err, panic, ◌>>=◌, ◌>>◌,
  reject_if, map_err, Bytes, Text,
}
use meshly_core.Alpn.{AlpnError, alpn_for_service}
use meshly_core.Protocol.{
  DataOpen, auth_proof, data_open, auth_hello, Frame, auth_nonce, auth_ok, auth_err, AuthErr,
}
use meshly_core.Protocol.Proof.{Crypto, compute_proof}

-- The result of each call that may fail, with its message: what `connect` and `open_bi` do, what the writes
-- do, and what a read brings on a stream on which these frames have been written.
pub record Network : Type 0 where
  pub connects : Result Text (Unit {0})
  pub opens : Result Text (Unit {0})
  pub writes : Frame → Result Text (Unit {0})
  pub reads : List Frame → Result Text Frame

-- Which of the two ways a message speaks of.
pub data Way : Type 0 where
  direct : Way
  relay : Way

-- An error, by what its text is made of.
pub data DialError : Type 0 where
  bad_alpn : AlpnError → DialError
  connect_failed : Way → Text → DialError
  hello_not_written : Way → Text → DialError
  call_failed : Text → DialError
  auth_refused : Way → AuthErr → DialError
  no_nonce : Way → Frame → DialError
  proof_rejected : Way → AuthErr → DialError
  connection_lost : Way → Text → DialError
  no_verdict : Way → Frame → DialError

abbrev nonce_of : Way → Frame → Result DialError Bytes
nonce_of way (auth_nonce nonce) = ok nonce
nonce_of way (auth_err e) = err (auth_refused way e)
nonce_of way other = err (no_nonce way other)

abbrev pub verdict : Way → Result Text Frame → Result DialError (Unit {0})
verdict way (ok auth_ok) = ok tt
verdict way (ok (auth_err e)) = err (proof_rejected way e)
verdict way (ok other) = err (no_verdict way other)
verdict way (err e) = err (connection_lost way e)
verdict way panic = panic

-- `provider` and `consumer` are the printed ids.
abbrev pub request : Text → Text → Text → DataOpen
request name provider consumer = record {
  target_service = name;
  target_provider = provider;
  consumer_node_id = consumer;
  proof = replicate 32 0;
}

abbrev pub opening : Text → Text → Text → Frame
opening name provider consumer = data_open (request name provider consumer)

module _ (c : Crypto) (shared_secret : Bytes) (name : Text) where
  unfoldable pub make_proof : Bytes → Bytes
  unfolding compute_proof
  make_proof nonce = compute_proof c shared_secret name nonce

  -- `?` on the service's ALPN.
  abbrev alpn_checked : Result DialError (Unit {0})
  alpn_checked = map_err bad_alpn (alpn_for_service name) >>= λ alpn. ok tt

  unfoldable pub dial_direct : Network → Result DialError (Unit {0})
  unfolding make_proof
  dial_direct n = do
    alpn_checked
    map_err (connect_failed direct) n.connects
    map_err call_failed n.opens
    map_err (hello_not_written direct) (n.writes auth_hello)
    f ← map_err call_failed (n.reads (auth_hello ∷ []))
    nonce ← nonce_of direct f
    let proof = make_proof nonce
    map_err call_failed (n.writes (auth_proof proof))
    verdict direct (n.reads (auth_hello ∷ auth_proof proof ∷ []))

  unfoldable pub dial_relay : Text → Text → Network → Result DialError (Unit {0})
  unfolding make_proof
  dial_relay provider consumer n = do
    map_err (connect_failed relay) n.connects
    map_err call_failed n.opens
    map_err call_failed (n.writes (opening name provider consumer))
    map_err (hello_not_written relay) (n.writes auth_hello)
    f ← map_err call_failed (n.reads (opening name provider consumer ∷ auth_hello ∷ []))
    nonce ← nonce_of relay f
    let proof = make_proof nonce
    map_err call_failed (n.writes (auth_proof proof))
    verdict relay (n.reads (opening name provider consumer ∷ auth_hello ∷ auth_proof proof ∷ []))
