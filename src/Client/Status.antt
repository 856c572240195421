-- ===== src/Client/Status.antt =====
-- The runtime status of crates/client/src/status.rs: the control session and every consumed service.
pub mod Counts
use mathlib.Core.Option
use meshly_core.Common.{
  ◌&&◌, ◌==◌, ◌≤◌, ◌≡◌, ℕ, ◌+◌, ◌-◌, ◌^◌, min, Bool, true, false, Option, none, some, List, [], ◌∷◌,
  if◌then◌else◌, nat_eq, list_eq, Text,
}
use meshly_core.Common.Map.{Map, get, insert}

pub data ControlState : Type 0 where
  unregistered : ControlState
  registering : ControlState
  registered : ControlState
  reconnecting : ControlState

pub data ConsumerState : Type 0 where
  idle : ConsumerState
  dialing : ConsumerState
  live : ConsumerState
  failed : ConsumerState

pub record ControlStatus : Type 0 where
  pub state : ControlState
  pub last_registered_at_ms : Option ℕ
  pub last_heartbeat_at_ms : Option ℕ
  pub last_error : Option Text

pub record ConsumerStatus : Type 0 where
  pub state : ConsumerState
  pub mode : Option Text
  pub last_attempt_at_ms : Option ℕ
  pub last_success_at_ms : Option ℕ
  pub last_error : Option Text
  pub forwarded_streams : ℕ

abbrev pub default_control : ControlStatus
default_control = record {
  state = unregistered;
  last_registered_at_ms = none;
  last_heartbeat_at_ms = none;
  last_error = none;
}

abbrev pub default_consumer : ConsumerStatus
default_consumer = record {
  state = idle;
  mode = none;
  last_attempt_at_ms = none;
  last_success_at_ms = none;
  last_error = none;
  forwarded_streams = 0;
}

pub record RuntimeStatus : Type 0 where
  pub control : ControlStatus
  pub consumers : Map Text ConsumerStatus

abbrev pub default_consumers : List Text → Map Text ConsumerStatus → Map Text ConsumerStatus
default_consumers [] m = m
default_consumers (name ∷ names) m = default_consumers names (insert name default_consumer m)

unfoldable pub new_status : List Text → RuntimeStatus
new_status consumer_names = record {
  control = default_control;
  consumers = default_consumers consumer_names [];
}

abbrev is_registered : ControlState → Bool
is_registered registered = true
is_registered _ = false

abbrev pub is_live : ConsumerState → Bool
is_live live = true
is_live _ = false

-- `now` is `now_ms()`.
unfoldable pub set_control_state : ℕ → ControlState → Option Text → RuntimeStatus → RuntimeStatus
set_control_state now state error s = record s {
  control = record s.control {
    state = state;
    last_error = error;
    last_registered_at_ms =
        if is_registered state then some now else s.control.last_registered_at_ms;
  };
}

unfoldable pub record_heartbeat : ℕ → RuntimeStatus → RuntimeStatus
record_heartbeat now s = record s { control = record s.control { last_heartbeat_at_ms = some now } }

-- `u64::saturating_add(1)`
abbrev pub saturating_suc : ℕ → ℕ
saturating_suc n = min (n + 1) (2 ^ 64 - 1)

abbrev error_after : ConsumerState → Option Text → Option Text → Option Text
error_after state (some e) old = some e
error_after state none old = if is_live state then none else old

unfoldable pub updated_consumer :
    ℕ → ConsumerState → Option Text → Option Text → ConsumerStatus → ConsumerStatus
updated_consumer now state mode error entry = record {
  state = state;
  mode = mode;
  last_attempt_at_ms = some now;
  last_success_at_ms = if is_live state then some now else entry.last_success_at_ms;
  last_error = error_after state error entry.last_error;
  forwarded_streams =
      if is_live state then saturating_suc entry.forwarded_streams else entry.forwarded_streams;
}

abbrev pub or_default : Option ConsumerStatus → ConsumerStatus
or_default none = default_consumer
or_default (some c) = c

-- What `--status` shows of a consumer.
abbrev pub consumer_of : Text → RuntimeStatus → ConsumerStatus
consumer_of name s = or_default (get name s.consumers)

unfoldable pub set_consumer_state :
    ℕ → Text → ConsumerState → Option Text → Option Text → RuntimeStatus → RuntimeStatus
unfolding updated_consumer
set_consumer_state now name state mode error s = record s {
  consumers = insert name (updated_consumer now state mode error (consumer_of name s)) s.consumers;
}
