-- ===== src/System/Directory/Refines.antt =====
-- The steps of the server and their effects on the directory of providers.
use meshly_core.Common.{
  ℕ, ◌-◌, ◌≡◌, refl, sym, ap, ◌∙◌, inl, inr, Bool, true, ◌&&◌, some, List, arith, ltb, leb,
  Bool-cases, Option-cases, Eq, eq_iff, nat_eq, list_eq, length, ok, ok_injective, Text,
}
use meshly_core.Common.Map.{get}
use meshly_core.Protocol.{Frame, hello, register, heartbeat, Register}
use meshly_core.Alpn.{alpn_for_service}
use meshly_core.Config.{GroupConfig}
use meshly_core.Registry.{
  Group, ServerState, bad_name, authenticate, group, provider_in, lookup_service, register_service,
  touch_session, forget_session, with_group, dump_services,
}
use meshly_core.Registry.Laws.{lookup-with_group, lookup-there, lookup_kept, lookup-drop_service}
use meshly_core.Control.{
  Phase, awaiting_hello, serving, Event, Outcome, error_frame, reason_of, received, accept_failed,
  read_failed, Ambient, handle_hello, answer_register, handle_register, handle_subscribe,
  handle_frame, first_frame, step, sweep_dead_sessions,
}
use meshly_core.Control.Sessions.{register_step, leave_step}
use meshly_core.Relay.{start_relay}
use meshly_core.System.{
  Server, Step, connects, happens, sweeps, relay_starts, relay_ends, retunes, leaves, finds_dead,
  forgets, collects, removes, run_event, Reach,
}
use meshly_core.System.Groups.{IsState}
use meshly_core.System.Sessions.{IsPlaced}
use meshly_core.System.Invariant.{
  Placed, All-get_elem?, Reach-IsServer, start-groups, finish-groups, retune-groups,
}
use meshly_core.System.Directory.{withdraw_all, directory, event_effect, expired_at, effect}
use meshly_core.System.Directory.Sweeps.{sweep-lookup}

module _ {Peer : Type 0} ⦃e : Eq Peer⦄ where
  same_groups :
      (st st' : ServerState Peer) (j x : Text)
      → st'.groups ≡ st.groups
      → directory st' j x ≡ directory st j x
  unfolding lookup_service group
  same_groups st st' j x same = ap (λ m. lookup_service (record st { groups = m }) j x) same

  touched_there :
      (name j x : Text) (client : Peer) (now : ℕ) (st : ServerState Peer) (g : Group Peer)
      → group st name ≡ some g
      → lookup_service (with_group name (touch_session client now) st) j x ≡ lookup_service st j x
  unfolding touch_session provider_in
  touched_there name j x client now st g there = ground (
    arith,
    lookup-with_group name j x (touch_session client now) st g there,
    eq_iff name j,
    lookup-there name x st g there,
  )

  pub touched :
      (name j x : Text) (client : Peer) (now : ℕ) (st : ServerState Peer)
      → lookup_service (with_group name (touch_session client now) st) j x ≡ lookup_service st j x
  unfolding with_group touch_session group
  touched name j x client now st = elim (Option-cases (get name st.groups)) [
    | inl gone ↦ rw (gone, with_group) refl
    | inr (g, there) ↦ touched_there name j x client now st g there
  ]

module _ {Peer : Type 0} ⦃e : Eq Peer⦄ (show : Peer → Text) (a : Ambient) (remote : Peer)
    (hellos : List (Peer × Text)) where
  hello_effect :
      (wrote : Bool) (f : Frame) (st : ServerState Peer) (j x : Text)
      → directory (first_frame show a remote wrote f st).0 j x ≡ directory st j x
  unfolding first_frame handle_hello
  hello_effect wrote (hello h) st j x = elim (Option-cases (authenticate st h.group_token)) [
    | inl unknown ↦ rw (unknown, handle_hello) refl
    | inr (g, found) ↦ rw (found, handle_hello) (touched g.name j x remote a.now st)
  ]
  hello_effect wrote _ st j x = refl

  register_effect :
      (gname j x : Text) (wrote : Bool) (r : Register) (st : ServerState Peer) (g : Group Peer)
      → group st gname ≡ some g
      → directory (handle_register gname remote wrote r st).0 j x
        ≡ event_effect remote (serving gname) (received (register r) wrote) (directory st) j x
  unfolding handle_register answer_register register_service step handle_frame
  register_effect gname j x wrote r st g there = elim (Bool-cases (leb (length r.service) 32)) [
    | inl short ↦ rw short (register_step show a remote gname j x r wrote st g there (ground arith))
    | inr long ↦
        rw (long) (ap (λ (o : Outcome Peer). directory o.0 j x) (refused_register (ground arith)))
  ]
    where
      refused_register :
          ltb 32 (length r.service) ≡ true
          → handle_register gname remote wrote r st
            ≡ (st, serving gname, some (error_frame 3 (reason_of bad_name)))
      refused_register long = rw (there, long, handle_register) refl

  frame_effect :
      (gname : Text) (wrote : Bool) (f : Frame) (st : ServerState Peer) (j x : Text)
      → IsPlaced hellos st remote (serving gname)
      → directory (handle_frame show a remote gname wrote f st).0 j x
        ≡ event_effect remote (serving gname) (received f wrote) (directory st) j x
  unfolding handle_frame handle_subscribe group
  frame_effect gname wrote (register r) st j x (g, there, spoke) =
      register_effect gname j x wrote r st g there
  frame_effect gname wrote (heartbeat) st j x placed = touched gname j x remote a.now st
  frame_effect gname wrote _ st j x placed = refl

  step_effect :
      (ph : Phase) (ev : Event) (st : ServerState Peer) (j x : Text)
      → IsState hellos st
      → IsPlaced hellos st remote ph
      → directory (step show a remote ph ev st).0 j x ≡ event_effect remote ph ev (directory st) j x
  unfolding step group
  step_effect awaiting_hello (received f wrote) st j x good placed = hello_effect wrote f st j x
  step_effect (serving gname) (received f wrote) st j x good placed =
      frame_effect gname wrote f st j x placed
  step_effect (serving gname) accept_failed st j x good (g, there, spoke) =
      leave_step show a remote gname j x accept_failed st g there
        (good.each_group gname g there).services_once (inl refl)
  step_effect (serving gname) read_failed st j x good (g, there, spoke) =
      leave_step show a remote gname j x read_failed st g there
        (good.each_group gname g there).services_once (inr refl)
  step_effect _ _ st j x good placed = refl

module _ {Peer : Type 0} ⦃e : Eq Peer⦄ where
  swept_effect :
      (hellos : List (Peer × Text)) (now timeout : ℕ) (st st' : ServerState Peer) (j x : Text)
      → IsState hellos st
      → sweep_dead_sessions now timeout st ≡ ok st'
      → directory st' j x ≡ withdraw_all (expired_at (now - timeout) st) (directory st) j x
  unfolding sweep_dead_sessions dump_services
  swept_effect hellos now timeout st st' j x good swept = elim (Bool-cases (ltb now timeout)) [
    | inl early ↦ absurd (cc (rw early at swept))
    | inr late ↦
        ap (λ (y : ServerState Peer). directory y j x) (sym (ok_injective (rw late at swept)))
        ∙ sweep-lookup hellos (now - timeout) st j x good
  ]

  forgotten :
      (client : Peer) (g : Group Peer) (x : Text)
      → provider_in (forget_session client g) x ≡ provider_in g x
  unfolding forget_session provider_in
  forgotten client g x = refl

  -- Every step of a server that was started with a configuration, at any number of connections, is its effect
  -- on the directory of providers: a registration of a name of at most 32 bytes assigns that one service; the
  -- end of a session's loop, undisturbed, withdraws what its peer provides in its group, and a sweep,
  -- undisturbed, the providers whose sessions have expired; where their accesses are interleaved with other
  -- steps, each removal withdraws that one service, whoever provides it then. Nothing else changes who
  -- provides what: not a session that ends because its reply could not be written.
  pub Step-refines :
      (show : Peer → Text) (groups : List GroupConfig) (overrides : List (Peer × ℕ))
      (s t : Server Peer) (one : Step show s t) (j x : Text)
      → Reach show groups overrides s
      → directory t.state j x ≡ effect show s t one (directory s.state) j x
  unfolding run_event start_relay
  Step-refines show groups overrides _ _ (connects remote s) j x r = refl
  Step-refines show groups overrides _ _ (happens a i c ev s there) j x r =
      let h = Reach-IsServer show groups overrides s r in
      step_effect show a c.remote s.hellos c.phase ev s.state j x h.state
        (All-get_elem? (Placed s.hellos s.state) s.connections i c h.placed there)
  Step-refines show groups overrides _ _ (sweeps now timeout s st swept) j x r =
      swept_effect s.hellos now timeout s.state st j x
        (Reach-IsServer show groups overrides s r).state swept
  Step-refines show groups overrides _ _ (relay_starts initial service reaches opens s) j x r =
      same_groups s.state _ j x
        (start-groups initial (reaches && opens) s.state (alpn_for_service service))
  Step-refines show groups overrides _ _ (relay_ends i result s) j x r =
      same_groups s.state _ j x (finish-groups i result s.state)
  Step-refines show groups overrides _ _ (retunes i v s) j x r =
      same_groups s.state _ j x (retune-groups i v s.state)
  Step-refines show groups overrides _ _ (leaves i c gname s there phase) j x r = refl
  Step-refines show groups overrides _ _
        (finds_dead now timeout gname client g y s late here found old) j x r =
      refl
  Step-refines show groups overrides _ _ (forgets k gname client s due) j x r =
      lookup_kept gname j x (forget_session client) s.state (λ g. forgotten client g x)
  Step-refines show groups overrides _ _ (collects k gname service client s due found) j x r = refl
  Step-refines show groups overrides _ _ (removes k gname service s due) j x r =
      lookup-drop_service gname j service x s.state
