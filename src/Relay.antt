-- ===== src/Relay.antt =====
-- crates/server/src/relay.rs: what the relay does with the first frame of a consumer's stream, and the
-- task that it spawns, before and after the copy. `parse_endpoint_id`, the connection to the provider
-- and the copy itself are given.
pub mod Choice
pub mod Accept
pub mod Rates
pub mod Reached
mod Tests
use mathlib.Core.Option
use meshly_core.Common.{
  ℕ, Bool, true, false, ◌&&◌, Option, none, some, map, arith, if◌then◌else◌, Eq, ◌==◌, nat_eq,
  list_eq, find, Result, ok, err, panic, Bytes, Text,
}
use meshly_core.Common.Map.{get}
use meshly_core.Alpn.{AlpnError, alpn_for_service}
use meshly_core.Protocol.{Frame, data_open, DataOpen}
use meshly_core.Registry.{
  Handle, ServerState, dump_services, lookup_relay_rate_override, new_atomic, load, alloc_stream_id,
  register_relay_rate, unregister_relay_rate,
}

-- What `accept_loop` does with one stream: it shuts it down, or spawns `run_relay` with these arguments.
pub data Decision (Peer : Type 0) : Type 0 where
  refused : Decision Peer
  spawned : (initial_reply_bps : Option ℕ) (provider : Peer) (target_service : Text) → Decision Peer

-- `run_relay` up to the copy: an error, or the stream's id and its handle.
pub data Started : Type 0 where
  not_started : Started
  running : (stream_id : ℕ) (reply_bps : Option Handle) → Started

module _ {Peer : Type 0} ⦃e : Eq Peer⦄ where
  unfoldable pub lookup_service_any_group : ServerState Peer → Text → Option Peer
  unfolding dump_services
  lookup_service_any_group st service =
      Option.map (λ (x : Text × Text × Peer). x.2)
        (find (λ (x : Text × Text × Peer). x.1 == service) (dump_services st))

  -- `default_reply_bps` is the handle of the default rate, if the limiter is on.
  unfoldable pub initial_rate : Option Handle → ServerState Peer → Peer → Option ℕ
  unfolding load lookup_relay_rate_override
  initial_rate none st consumer = none
  initial_rate (some h) st consumer = elim (lookup_relay_rate_override st consumer) [
    | none ↦ some (load h st)
    | some bps ↦ some bps
  ]

  module _ (parse_endpoint_id : Text → Option Peer) (default_reply_bps : Option Handle)
      (remote : Peer) where
    -- The match on the registered provider.
    abbrev pub check_provider : ServerState Peer → DataOpen → Peer → Option Peer → Decision Peer
    check_provider st d target none = refused
    check_provider st d target (some p) =
        if p == target
        then spawned (initial_rate default_reply_bps st remote) p d.target_service
        else refused

    unfoldable pub check_open : ServerState Peer → DataOpen → Decision Peer
    unfolding lookup_service_any_group initial_rate
    check_open st d = elim (parse_endpoint_id d.target_provider) [
      | none ↦ refused
      | some target ↦ elim (parse_endpoint_id d.consumer_node_id) [
        | none ↦ refused
        | some consumer ↦
            if consumer == remote
            then check_provider st d target (lookup_service_any_group st d.target_service)
            else refused
      ]
    ]

    -- `none` for a frame that could not be read.
    unfoldable pub accept_stream : ServerState Peer → Option Frame → Decision Peer
    unfolding check_open
    accept_stream st (some (data_open d)) = check_open st d
    accept_stream st (some _) = refused
    accept_stream st none = refused

  unfoldable pub take_rate : ℕ → Option ℕ → ServerState Peer → Started × ServerState Peer
  unfolding new_atomic register_relay_rate
  take_rate stream_id none st = (running stream_id none, st)
  take_rate stream_id (some bps) st =
      let (handle, st') = new_atomic bps st in
      (running stream_id (some handle), register_relay_rate stream_id handle st')

  -- Whether `connect` and `open_bi` succeed is given.
  unfoldable pub start_with :
      Option ℕ → Bool → ServerState Peer → Result AlpnError Bytes → Started × ServerState Peer
  unfolding take_rate alloc_stream_id
  start_with initial_reply_bps false st (ok alpn) = (not_started, st)
  start_with initial_reply_bps true st (ok alpn) =
      let (stream_id, st') = alloc_stream_id st in take_rate stream_id initial_reply_bps st'
  start_with initial_reply_bps reached st (err x) = (not_started, st)
  start_with initial_reply_bps reached st panic = (not_started, st)

  unfoldable pub start_relay :
      Option ℕ → Text → Bool → Bool → ServerState Peer → Started × ServerState Peer
  unfolding start_with alpn_for_service
  start_relay initial_reply_bps service connects opens st =
      start_with initial_reply_bps (connects && opens) st (alpn_for_service service)

  -- What is left when the copy has ended with this: the same on both branches, but for the result.
  unfoldable pub finish_relay :
      {E : Type 0}
      → ℕ
      → Result E (ℕ × ℕ)
      → ServerState Peer
      → Result E (Unit {0}) × ServerState Peer
  unfolding unregister_relay_rate
  finish_relay stream_id (ok n) st = (ok tt, unregister_relay_rate stream_id st)
  finish_relay stream_id (err x) st = (err x, unregister_relay_rate stream_id st)
  finish_relay stream_id panic st = (panic, st)
