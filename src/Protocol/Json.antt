-- ===== src/Protocol/Json.antt =====
-- What protocol.rs uses of serde_json: `to_vec` and `from_slice` at the six control-plane messages.
-- The crate is a parameter; `JsonRoundTrips` states that its text for a derived type reads back.
use meshly_core.Common.{◌≡◌, Option, some, nat_eq, list_eq, Bytes}
use meshly_core.Protocol.{Hello, HelloOk, Register, RegisterOk, Subscribe, SubscribeOk}

pub record Codec (A : Type 0) : Type 0 where
  pub to_vec : A → Option Bytes
  pub from_slice : Bytes → Option A

pub record Json : Type 0 where
  pub hello : Codec Hello
  pub hello_ok : Codec HelloOk
  pub register : Codec Register
  pub register_ok : Codec RegisterOk
  pub subscribe : Codec Subscribe
  pub subscribe_ok : Codec SubscribeOk

abbrev pub RoundTrips : {A : Type 0} → Codec A → Type 0
RoundTrips {A} c = (a : A) (bs : Bytes) → c.to_vec a ≡ some bs → c.from_slice bs ≡ some a

pub record JsonRoundTrips (json : Json) : Type 0 where
  pub hello : RoundTrips json.hello
  pub hello_ok : RoundTrips json.hello_ok
  pub register : RoundTrips json.register
  pub register_ok : RoundTrips json.register_ok
  pub subscribe : RoundTrips json.subscribe
  pub subscribe_ok : RoundTrips json.subscribe_ok
