-- ===== src/System/Directory.antt =====
-- The server as a directory of providers: a function from a group and a service to who provides it, which
-- knows nothing of sessions, tokens, heartbeats, maps and their order.
pub mod Sweeps
pub mod Refines
use meshly_core.Common.{
  ℕ, ◌-◌, Bool, false, ◌&&◌, Option, none, some, arith, leb, if◌then◌else◌, Eq, ◌==◌, nat_eq,
  list_eq, length, ok, err, panic, Text,
}
use meshly_core.Common.Map.{get, unless}
use meshly_core.Protocol.{Frame, register, Register}
use meshly_core.Registry.{Group, ServerState, lookup_service}
use meshly_core.Registry.Laws.{from}
use meshly_core.Control.{Phase, serving, Event, received, accept_failed, read_failed}
use meshly_core.Control.Sweep.{expired_in}
use meshly_core.System.{
  Server, Step, connects, happens, sweeps, relay_starts, relay_ends, retunes, leaves, finds_dead,
  forgets, collects, removes,
}

abbrev pub Directory : Type 0 → Type 0
Directory Peer = Text → Text → Option Peer

module _ {Peer : Type 0} where
  -- The provider of one service becomes this one.
  abbrev pub assign : Text → Text → Peer → Directory Peer → Directory Peer
  assign gname service p d j s = if gname == j && service == s then some p else d j s

  -- The providers that satisfy a test are taken out of one group, or of every group by a test of its own, or
  -- whoever provides one service.
  abbrev pub withdraw : Text → (Peer → Bool) → Directory Peer → Directory Peer
  withdraw gname gone d j s = if gname == j then unless gone (d j s) else d j s

  abbrev pub withdraw_service : Text → Text → Directory Peer → Directory Peer
  withdraw_service gname service d j s = if gname == j && service == s then none else d j s

  abbrev pub withdraw_all : (Text → Peer → Bool) → Directory Peer → Directory Peer
  withdraw_all gone d j s = unless (gone j) (d j s)

module _ {Peer : Type 0} ⦃e : Eq Peer⦄ where
  abbrev pub directory : ServerState Peer → Directory Peer
  directory st = lookup_service st

  -- What an event of a session is to the directory.
  abbrev pub event_effect : Peer → Phase → Event → Directory Peer → Directory Peer
  event_effect remote (serving gname) (received (register r) wrote) d =
      if leb (length r.service) 32 then assign gname r.service remote d else d
  event_effect remote (serving gname) accept_failed d = withdraw gname (from remote) d
  event_effect remote (serving gname) read_failed d = withdraw gname (from remote) d
  event_effect remote phase ev d = d

  -- Whose session in a group is older than the cutoff.
  abbrev pub expired_of : ℕ → Option (Group Peer) → Peer → Bool
  expired_of cutoff none p = false
  expired_of cutoff (some g) p = expired_in cutoff g p

  abbrev pub expired_at : ℕ → ServerState Peer → Text → Peer → Bool
  expired_at cutoff st j = expired_of cutoff (get j st.groups)

  abbrev pub effect :
      (show : Peer → Text) (s t : Server Peer) → Step show s t → Directory Peer → Directory Peer
  effect show s t (connects remote s') d = d
  effect show s t (happens a i c ev s' there) d = event_effect c.remote c.phase ev d
  effect show s t (sweeps now timeout s' st swept) d =
      withdraw_all (expired_at (now - timeout) s'.state) d
  effect show s t (relay_starts initial service reaches opens s') d = d
  effect show s t (relay_ends i result s') d = d
  effect show s t (retunes i v s') d = d
  effect show s t (leaves i c gname s' there phase) d = d
  effect show s t (finds_dead now timeout gname client g x s' late here found old) d = d
  effect show s t (forgets k gname client s' due) d = d
  effect show s t (collects k gname service client s' due found) d = d
  effect show s t (removes k gname service s' due) d = withdraw_service gname service d
