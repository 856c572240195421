-- ===== src/Control.antt =====
-- crates/server/src/control.rs: a control session on one connection, as a machine that is fed what
-- happens on its bi-streams, and the server with all its sessions. `sweep_dead_sessions` is that of
-- crates/server/src/main.rs.
pub mod Sessions
pub mod Sweep
mod Tests
use meshly_core.Common.{
  ℕ, ◌-◌, Bool, false, Option, none, some, List, [], ◌∷◌, arith, ltb, if◌then◌else◌, Eq, nat_eq,
  list_eq, Result, ok, err, panic, Text, text,
}
use meshly_core.Common.Map
use meshly_core.Common.Map.{Map}
use meshly_core.Protocol.{
  Frame, hello, hello_ok, register, register_ok, subscribe, subscribe_ok, heartbeat, control_error,
  Hello, Register, Subscribe,
}
use meshly_core.Registry.{
  Group, ServerState, RegisterError, bad_name, authenticate, lookup_service, group,
  register_service, touch_session, drop_session, with_group, dump_services, Session,
}

-- Where `run_session` stands: before the Hello, in the main loop with the `Arc<Group>` of this name, or
-- returned, by way of the clean-up behind the loop or not.
pub data Phase : Type 0 where
  awaiting_hello : Phase
  serving : Text → Phase
  closed : Phase
  left : Phase

-- What `accept_bi`, `Frame::read_from` and the write of a reply do. `wrote` says whether `write_to`
-- succeeds on the reply to this frame, if there is one.
pub data Event : Type 0 where
  received : (frame : Frame) (wrote : Bool) → Event
  accept_failed : Event
  read_failed : Event

-- What the server hands a session: the time, and the random session id.
pub record Ambient : Type 0 where
  pub now : ℕ
  pub session_id : ℕ

abbrev pub reason_of : RegisterError → Text
reason_of bad_name = text "register failed: invalid service name"

abbrev pub error_frame : ℕ → Text → Frame
error_frame code reason = control_error (record { code = code; reason = reason })

-- The next state of the server, where the session stands, and the reply that was handed to `write_to`.
abbrev pub Outcome : Type 0 → Type 0
Outcome Peer = ServerState Peer × Phase × Option Frame

-- `write_to(..).await?`: a failed write returns from `run_session` at once.
abbrev pub or_left : Bool → Phase → Phase
or_left wrote phase = if wrote then phase else left

module _ {Peer : Type 0} ⦃e : Eq Peer⦄ where
  unfoldable pub handle_hello : Ambient → Peer → Bool → Hello → ServerState Peer → Outcome Peer
  handle_hello a remote wrote h st = elim (authenticate st h.group_token) [
    | none ↦ (st, left, some (error_frame 1 (text "unknown group")))
    | some g ↦ (
      with_group g.name (touch_session remote a.now) st,
      or_left wrote (serving g.name),
      some (hello_ok (record { session_id = a.session_id })),
    )
  ]

  -- The reply to what `register_service` returned for the group.
  unfoldable pub answer_register :
      Text
      → Bool
      → Text
      → Result RegisterError (Option Peer × Group Peer)
      → ServerState Peer
      → Outcome Peer
  answer_register gname wrote service (ok p) st = (
    with_group gname (λ _. p.1) st,
    or_left wrote (serving gname),
    some (register_ok (record { service = service })),
  )
  answer_register gname wrote service (err x) st =
      (st, serving gname, some (error_frame 3 (reason_of x)))
  answer_register gname wrote service panic st = (st, left, none)

  -- The group of a session is there for as long as the server runs.
  unfoldable pub handle_register : Text → Peer → Bool → Register → ServerState Peer → Outcome Peer
  unfolding answer_register
  handle_register gname remote wrote r st = elim (group st gname) [
    | none ↦ (st, left, none)
    | some g ↦ answer_register gname wrote r.service (register_service r.service remote g) st
  ]

  -- The main loop ends, and the session is dropped.
  unfoldable pub leave_loop : Peer → Text → ServerState Peer → Outcome Peer
  leave_loop remote gname st = (with_group gname (drop_session remote) st, closed, none)

-- `EndpointId`'s `Display` is iroh's.
module _ {Peer : Type 0} ⦃e : Eq Peer⦄ (show : Peer → Text) where
  unfoldable pub handle_subscribe : Text → Bool → Subscribe → ServerState Peer → Outcome Peer
  handle_subscribe gname wrote s st = (
    st,
    or_left wrote (serving gname),
    some (
        subscribe_ok (record {
          service = s.service;
          provider_node_id = elim (lookup_service st gname s.service) [
            | none ↦ none
            | some p ↦ some (show p)
          ];
          relay_required = false;
        })),
  )

  unfoldable pub handle_frame :
      Ambient → Peer → Text → Bool → Frame → ServerState Peer → Outcome Peer
  handle_frame a remote gname wrote (register r) st = handle_register gname remote wrote r st
  handle_frame a remote gname wrote (subscribe s) st = handle_subscribe gname wrote s st
  handle_frame a remote gname wrote heartbeat st =
      (with_group gname (touch_session remote a.now) st, serving gname, none)
  handle_frame a remote gname wrote (hello h) st =
      (st, serving gname, some (error_frame 2 (text "Hello already received")))
  handle_frame a remote gname wrote _ st = (st, serving gname, none)

  unfoldable pub first_frame : Ambient → Peer → Bool → Frame → ServerState Peer → Outcome Peer
  first_frame a remote wrote (hello h) st = handle_hello a remote wrote h st
  first_frame a remote wrote _ st = (st, left, none)

  unfoldable pub step : Ambient → Peer → Phase → Event → ServerState Peer → Outcome Peer
  step a remote awaiting_hello (received f wrote) st = first_frame a remote wrote f st
  step a remote awaiting_hello accept_failed st = (st, left, none)
  step a remote awaiting_hello read_failed st = (st, left, none)
  step a remote (serving gname) (received f wrote) st = handle_frame a remote gname wrote f st
  step a remote (serving gname) accept_failed st = leave_loop remote gname st
  step a remote (serving gname) read_failed st = leave_loop remote gname st
  step a remote closed ev st = (st, closed, none)
  step a remote left ev st = (st, left, none)

abbrev pub older_than : ℕ → Session → Bool
older_than cutoff s = ltb s.last_heartbeat cutoff

module _ {Peer : Type 0} ⦃e : Eq Peer⦄ where
  unfoldable pub dead_sessions : ℕ → Map Peer Session → List Peer
  dead_sessions cutoff sessions = Map.keys_where (older_than cutoff) sessions

  unfoldable pub drop_sessions : List Peer → Group Peer → Group Peer
  drop_sessions [] g = g
  drop_sessions (id ∷ ids) g = drop_sessions ids (drop_session id g)

  unfoldable pub sweep_group : ℕ → Group Peer → Group Peer
  unfolding dead_sessions drop_sessions
  sweep_group cutoff g = drop_sessions (dead_sessions cutoff g.sessions) g

  unfoldable pub sweep_entries : ℕ → List (Text × Text × Peer) → ServerState Peer → ServerState Peer
  unfolding sweep_group
  sweep_entries cutoff [] st = st
  sweep_entries cutoff ((gname, service, provider) ∷ rest) st =
      sweep_entries cutoff rest (with_group gname (sweep_group cutoff) st)

  -- `Instant::now() - timeout` panics where the clock has run for less than the timeout.
  unfoldable pub sweep_dead_sessions :
      ℕ → ℕ → ServerState Peer → Result RegisterError (ServerState Peer)
  unfolding sweep_entries
  sweep_dead_sessions now timeout st =
      if ltb now timeout then panic else ok (sweep_entries (now - timeout) (dump_services st) st)
