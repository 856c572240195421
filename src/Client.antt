-- ===== src/Client.antt =====
-- The client's dealings with the server's control plane: crates/client/src/expose.rs registers services,
-- crates/client/src/consume.rs subscribes to one. The children have the dials of a provider, the handlers
-- of the provider's side, and the status that `--status` prints.
pub mod Admits
pub mod Discovery
pub mod Subscription
pub mod Provider
pub mod Dial
pub mod Consumer
pub mod Status
mod Tests
use meshly_core.Common.{
  ℕ, Bool, true, false, Option, none, some, List, [], ◌∷◌, arith, nat_eq, list_eq, Result, ok, err,
  panic, ok_or, Text,
}
use meshly_core.Protocol.{
  Frame, hello, hello_ok, register, register_ok, subscribe, subscribe_ok, control_error, Hello,
  Register, RegisterOk, Subscribe, SubscribeOk, ControlError,
}

-- The messages of `bail!` and the contexts, by what they tell.
pub data ClientError : Type 0 where
  connect_failed : ClientError
  stream_failed : ClientError
  hello_rejected : ControlError → ClientError
  register_rejected : Text → ControlError → ClientError
  subscribe_rejected : ControlError → ClientError
  unexpected : Frame → ClientError
  no_provider : Text → ClientError
  invalid_provider : Text → ClientError

-- A computation that may stop early, with the state of the other side.
abbrev pub Talk : Type 0 → Type 0 → Type 0
Talk S A = Result ClientError A × S

abbrev pub and_then : {S A B : Type 0} → Talk S A → (A → S → Talk S B) → Talk S B
and_then (ok a, s) next = next a s
and_then (err e, s) next = (err e, s)
and_then (panic, s) next = (panic, s)

abbrev pub hello_reply : Frame → Result ClientError ℕ
hello_reply (hello_ok h) = ok h.session_id
hello_reply (control_error e) = err (hello_rejected e)
hello_reply other = err (unexpected other)

abbrev pub register_reply : Text → Frame → Result ClientError Text
register_reply name (register_ok r) = ok r.service
register_reply name (control_error e) = err (register_rejected name e)
register_reply name other = err (unexpected other)

abbrev pub provider_named : Text → Option Text → Result ClientError Text
provider_named service (some id) = ok id
provider_named service none = err (no_provider service)

abbrev pub subscribe_reply : Text → Frame → Result ClientError Text
subscribe_reply service (subscribe_ok r) = provider_named service r.provider_node_id
subscribe_reply service (control_error e) = err (subscribe_rejected e)
subscribe_reply service other = err (unexpected other)

-- `exchange` is one bi-stream: it opens, a frame is written, and a frame is read.
module _ {S : Type 0} (exchange : Frame → S → Talk S Frame) where
  unfoldable pub say_hello : Text → Text → S → Talk S ℕ
  say_hello group_token client_info s =
      and_then
        (exchange (hello (record { group_token = group_token; client_info = client_info })) s)
        (λ reply s'. (hello_reply reply, s'))

  unfoldable pub register_one : Text → S → Talk S Text
  register_one name s =
      and_then (exchange (register (record { service = name })) s)
        (λ reply s'. (register_reply name reply, s'))

  -- The loops over `services` and over `static_services`.
  unfoldable pub register_each : List Text → S → Talk S (Unit {0})
  unfolding register_one
  register_each [] s = (ok tt, s)
  register_each (name ∷ rest) s =
      and_then (register_one name s) (λ service s'. register_each rest s')

  -- `reached` tells whether `connect` succeeds.
  unfoldable pub register_with_server :
      Bool → Text → Text → List Text → List Text → S → Talk S (Unit {0})
  unfolding say_hello register_each
  register_with_server false group_token client_info services static_services s =
      (err connect_failed, s)
  register_with_server true group_token client_info services static_services s =
      and_then (say_hello group_token client_info s) (λ session_id s1.
        and_then (register_each services s1) (λ done s2. register_each static_services s2))

  unfoldable pub ask_provider : Text → S → Talk S Text
  ask_provider service s =
      and_then (exchange (subscribe (record { service = service })) s)
        (λ reply s'. (subscribe_reply service reply, s'))

  -- `EndpointId`'s parser is iroh's.
  unfoldable pub find_provider :
      {Peer : Type 0} → (Text → Option Peer) → Bool → Text → Text → Text → S → Talk S Peer
  unfolding say_hello ask_provider
  find_provider parse false group_token client_info service s = (err connect_failed, s)
  find_provider parse true group_token client_info service s =
      and_then (say_hello group_token client_info s) (λ session_id s1.
        and_then (ask_provider service s1) (λ id s2. (ok_or (parse id) (invalid_provider id), s2)))
