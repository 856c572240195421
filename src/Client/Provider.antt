-- ===== src/Client/Provider.antt =====
-- The provider's side of a data connection: `ExposeHandler::handle` and `ControlResponseHandler` of
-- crates/client/src/expose.rs, and the handshake of `StaticHandler::handle` in crates/client/src/static_http.rs.
pub mod Honest
use meshly_core.Common.{
  Bool, true, false, Option, none, some, List, [], ◌∷◌, arith, if◌then◌else◌, nat_eq, list_eq,
  Result, ok, err, panic, Bytes, Text, text,
}
use meshly_core.Protocol.{
  Frame, auth_hello, auth_nonce, auth_proof, auth_ok, auth_err, heartbeat, AuthErr,
  auth_err_bad_proof,
}
use meshly_core.Protocol.Proof.{Crypto, compute_proof, verify_proof}

-- Where a handler stands. It has failed when it returns an error, and refused when it returns `Ok(())`
-- without an authenticated peer.
pub data Stage : Type 0 where
  opened : Stage
  challenged : Bytes → Stage
  authenticated : Stage
  refused : Stage
  failed : Stage

-- What a read brings, and whether the write that follows it succeeds.
pub data Incoming : Type 0 where
  frame : Frame → Bool → Incoming
  broken : Incoming

abbrev or_failed : Bool → Stage → Stage
or_failed wrote stage = if wrote then stage else failed

abbrev bad_proof : Frame
bad_proof = auth_err (record { code = auth_err_bad_proof; reason = text "bad HMAC proof" })

module _ (c : Crypto) (shared_secret : Bytes) (name : Text) where
  -- `nonce` is what the random source of the system gives this connection.
  unfoldable pub expose_step : Bytes → Stage → Incoming → Stage × Option Frame
  unfolding verify_proof
  expose_step nonce opened (frame auth_hello wrote) =
      (or_failed wrote (challenged nonce), some (auth_nonce nonce))
  expose_step nonce opened (frame other wrote) = (refused, none)
  expose_step nonce opened broken = (failed, none)
  expose_step nonce (challenged sent) (frame (auth_proof mac) wrote) =
      if verify_proof c shared_secret name sent mac
      then (or_failed wrote authenticated, some auth_ok)
      else (refused, some bad_proof)
  expose_step nonce (challenged sent) (frame other wrote) = (refused, none)
  expose_step nonce (challenged sent) broken = (failed, none)
  expose_step nonce stage event = (stage, none)

  unfoldable pub static_step : Bytes → Stage → Incoming → Stage × Option Frame
  unfolding verify_proof
  static_step nonce opened (frame auth_hello wrote) =
      (or_failed wrote (challenged nonce), some (auth_nonce nonce))
  static_step nonce opened (frame other wrote) = (refused, none)
  static_step nonce opened broken = (failed, none)
  static_step nonce (challenged sent) (frame (auth_proof mac) wrote) =
      if verify_proof c shared_secret name sent mac
      then (or_failed wrote authenticated, some auth_ok)
      else (refused, some bad_proof)
  static_step nonce (challenged sent) (frame other wrote) = (refused, none)
  static_step nonce (challenged sent) broken = (failed, none)
  static_step nonce stage event = (stage, none)

  abbrev pub run : (Stage → Incoming → Stage × Option Frame) → Stage → List Incoming → Stage
  run one stage [] = stage
  run one stage (event ∷ rest) = run one (one stage event).0 rest

-- What connecting to the local backend, at most five seconds long, and the copy after it give.
pub data Backend : Type 0 where
  timed_out : Backend
  unreachable : Backend
  connected : Bool → Backend

pub data ExposeError : Type 0 where
  handshake_failed : ExposeError
  backend_timeout : ExposeError
  backend_error : ExposeError
  bridge_error : ExposeError

-- The handler's result, from the stage where its handshake ends.
unfoldable pub expose_end : Stage → Backend → Result ExposeError (Unit {0})
expose_end authenticated timed_out = err backend_timeout
expose_end authenticated unreachable = err backend_error
expose_end authenticated (connected true) = ok tt
expose_end authenticated (connected false) = err bridge_error
expose_end refused backend = ok tt
expose_end _ backend = err handshake_failed

-- One stream that the server opens: what is read from it. The reply, and whether the loop goes on.
unfoldable pub control_reply : Incoming → Option Frame × Bool
control_reply (frame heartbeat wrote) = (some heartbeat, true)
control_reply (frame other wrote) = (none, true)
control_reply broken = (none, false)

-- The frames written, until no stream is accepted or a frame is not read.
unfoldable pub control_replies : List Incoming → List Frame
unfolding control_reply
control_replies [] = []
control_replies (frame heartbeat wrote ∷ rest) = heartbeat ∷ control_replies rest
control_replies (frame other wrote ∷ rest) = control_replies rest
control_replies (broken ∷ rest) = []
