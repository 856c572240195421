-- ===== src/System.antt =====
-- The server with all its connections: the control sessions of crates/server/src/control.rs step in any
-- order on one state, the sweep of crates/server/src/main.rs runs between any two of their events, and
-- relay tasks of crates/server/src/relay.rs come and go.
pub mod Groups
pub mod Changes
pub mod Sessions
pub mod Events
pub mod Invariant
pub mod Directory
mod Tests
use meshly_core.Common.{
  true, ℕ, ◌-◌, ◌≡◌, Bool, false, ltb, Option, some, List, [], ◌∷◌, ◌++◌, arith, Eq, nat_eq,
  list_eq, get_elem?, set, Result, ok, err, panic, Text,
}
use meshly_core.Common.Map.{Map, get}
use meshly_core.Config.{GroupConfig}
use meshly_core.Alpn.{AlpnError}
use meshly_core.Protocol.{Frame, hello, Hello}
use meshly_core.Registry.{
  Group, Session, ServerState, RegisterError, new, group, lookup_service, with_group,
  forget_session, drop_service, update_relay_rate,
}
use meshly_core.Control.{
  Phase, serving, closed, older_than, awaiting_hello, Event, received, Ambient, step,
  sweep_dead_sessions,
}
use meshly_core.Relay.{start_relay, finish_relay}

-- A control connection: its peer, and where its session stands.
pub record Connection (Peer : Type 0) : Type 0 where
  pub remote : Peer
  pub phase : Phase

-- The calls of `drop_session` that are under way, by group: the clients they are due for, those whose session
-- is gone and whose services are being collected, and the collected names that are still to be removed.
pub record Drops (Peer : Type 0) : Type 0 where
  pub due : List (Text × Peer)
  pub collecting : List (Text × Peer)
  pub removing : List (Text × Text)

-- `hellos` is what no code keeps: the tokens of the first frames that peers have sent.
pub record Server (Peer : Type 0) : Type 0 where
  pub state : ServerState Peer
  pub connections : List (Connection Peer)
  pub hellos : List (Peer × Text)
  pub drops : Drops Peer

abbrev pub no_drops : {Peer : Type 0} → Drops Peer
no_drops = record { due = []; collecting = []; removing = [] }

-- What a first frame adds to the history.
abbrev pub said : {Peer : Type 0} → Peer → Phase → Event → List (Peer × Text)
said remote awaiting_hello (received (hello h) wrote) = (remote, h.group_token) ∷ []
said remote phase ev = []

module _ {Peer : Type 0} ⦃e : Eq Peer⦄ (show : Peer → Text) where
  -- One event of the connection at place `i`.
  unfoldable pub run_event : Ambient → ℕ → Connection Peer → Event → Server Peer → Server Peer
  run_event a i c ev s =
      let after = step show a c.remote c.phase ev s.state in
      record {
        state = after.0;
        connections = set s.connections i (record c { phase = after.1 });
        hellos = said c.remote c.phase ev ++ s.hellos;
        drops = s.drops;
      }

  -- A session's end and a sweep drop sessions undisturbed in `happens` and `sweeps`. The last five steps are the
  -- accesses of these calls one at a time, with anything in between: the end of a loop, a session that
  -- the sweep finds dead, and then, of each call, the session that goes, a name that is collected while
  -- the client provides it, and its removal, whoever provides it then. A call may take any of its
  -- accesses late and more than once, which is more than the code does.
  pub data Step : Server Peer → Server Peer → Type 0 where
    connects :
        (remote : Peer) (s : Server Peer)
        → Step s (record s {
          connections = s.connections ++ (record { remote = remote; phase = awaiting_hello } ∷ []);
        })
    happens :
        (a : Ambient) (i : ℕ) (c : Connection Peer) (ev : Event) (s : Server Peer)
        → get_elem? s.connections i ≡ some c
        → Step s (run_event a i c ev s)
    sweeps :
        (now timeout : ℕ) (s : Server Peer) (st : ServerState Peer)
        → sweep_dead_sessions now timeout s.state ≡ ok st
        → Step s (record s { state = st })
    relay_starts :
        (initial : Option ℕ) (service : Text) (reaches opens : Bool) (s : Server Peer)
        → Step s (record s { state = (start_relay initial service reaches opens s.state).1 })
    relay_ends :
        (stream_id : ℕ) (result : Result AlpnError (ℕ × ℕ)) (s : Server Peer)
        → Step s (record s { state = (finish_relay stream_id result s.state).1 })
    retunes :
        (stream_id bps : ℕ) (s : Server Peer)
        → Step s (record s { state = (update_relay_rate stream_id bps s.state).1 })
    leaves :
        (i : ℕ) (c : Connection Peer) (gname : Text) (s : Server Peer)
        → get_elem? s.connections i ≡ some c
        → c.phase ≡ serving gname
        → Step s (record s {
          connections = set s.connections i (record c { phase = closed });
          drops = record s.drops { due = (gname, c.remote) ∷ s.drops.due };
        })
    finds_dead :
        (now timeout : ℕ) (gname : Text) (client : Peer) (g : Group Peer) (x : Session)
        (s : Server Peer)
        → ltb now timeout ≡ false
        → group s.state gname ≡ some g
        → get client g.sessions ≡ some x
        → older_than (now - timeout) x ≡ true
        → Step s (record s { drops = record s.drops { due = (gname, client) ∷ s.drops.due } })
    forgets :
        (k : ℕ) (gname : Text) (client : Peer) (s : Server Peer)
        → get_elem? s.drops.due k ≡ some (gname, client)
        → Step s (record s {
          state = with_group gname (forget_session client) s.state;
          drops = record s.drops { collecting = (gname, client) ∷ s.drops.collecting };
        })
    collects :
        (k : ℕ) (gname service : Text) (client : Peer) (s : Server Peer)
        → get_elem? s.drops.collecting k ≡ some (gname, client)
        → lookup_service s.state gname service ≡ some client
        → Step s
            (record s { drops = record s.drops { removing = (gname, service) ∷ s.drops.removing } })
    removes :
        (k : ℕ) (gname service : Text) (s : Server Peer)
        → get_elem? s.drops.removing k ≡ some (gname, service)
        → Step s (record s { state = with_group gname (drop_service service) s.state })

  -- From a start with a configuration.
  pub data Reach (groups : List GroupConfig) (overrides : List (Peer × ℕ))
      : Server Peer → Type 0 where
    begins :
        (st : ServerState Peer)
        → new groups overrides ≡ ok st
        → Reach groups overrides
            (record { state = st; connections = []; hellos = []; drops = no_drops })
    goes : {s t : Server Peer} → Reach groups overrides s → Step s t → Reach groups overrides t
