-- ===== src/System/Events.antt =====
-- What the events of a control session, and the sweeps, do to the groups.
use meshly_core.Common.{
  ℕ, ◌-◌, ◌≡◌, refl, ◌∙◌, inl, inr, Bool, Option, none, List, [], ◌∷◌, ◌++◌, ltb, Bool-cases, Eq,
  nat_eq, list_eq, Result, ok, ok_injective, Text,
}
use meshly_core.Protocol.{Frame, hello, register, subscribe, heartbeat, Register}
use meshly_core.Registry.{
  Group, ServerState, RegisterError, group, register_service, touch_session, drop_session,
  with_group, dump_services,
}
use meshly_core.Control.{
  Phase, awaiting_hello, serving, closed, left, Event, received, accept_failed, read_failed,
  Ambient, or_left, handle_register, handle_subscribe, handle_frame, first_frame, leave_loop, step,
  dead_sessions, drop_sessions, sweep_group, sweep_entries, sweep_dead_sessions,
}
use meshly_core.System.{said}
use meshly_core.System.Groups.{
  IsGroup, IsState, SameTokens-trans, Keeps, Keeps-refl, with_group-Keeps, Fits,
}
use meshly_core.System.Changes.{touch-Fits, drop-Fits}
use meshly_core.System.Sessions.{
  IsPlaced, IsPlaced-Keeps, Safe, or_left-IsPlaced, hello-Safe, register-Safe,
}

module _ {Peer : Type 0} ⦃e : Eq Peer⦄ where
  stays :
      (hellos : List (Peer × Text)) (remote : Peer) (st : ServerState Peer) (ph : Phase)
      (reply : Option Frame)
      → IsState hellos st
      → IsPlaced hellos st remote ph
      → Safe hellos remote st (st, ph, reply)
  stays hellos remote st ph reply good placed = record {
    keeps = Keeps-refl hellos st good;
    placed = placed;
  }

  -- A change of the session's own group that leaves the session where it is, or ends it.
  changes :
      (hellos : List (Peer × Text)) (remote : Peer) (st : ServerState Peer) (gname : Text)
      (f : Group Peer → Group Peer) (ph : Phase)
      → IsState hellos st
      → ((g : Group Peer) → IsGroup hellos gname g → Fits hellos gname f g)
      → IsPlaced hellos st remote ph
      → Safe hellos remote st (with_group gname f st, ph, none)
  changes hellos remote st gname f ph good fits placed =
      let keeps =
        with_group-Keeps hellos gname f st good
          (λ g there. fits g (good.each_group gname g there)) in
      record {
        keeps = keeps;
        placed = IsPlaced-Keeps hellos st (with_group gname f st) remote ph keeps.same placed;
      }

  handle_register-Safe :
      (hellos : List (Peer × Text)) (gname : Text) (remote : Peer) (wrote : Bool) (r : Register)
      (st : ServerState Peer)
      → IsState hellos st
      → IsPlaced hellos st remote (serving gname)
      → Safe hellos remote st (handle_register gname remote wrote r st)
  unfolding handle_register group
  handle_register-Safe hellos gname remote wrote r st good (g, there, spoke) =
      rw (there, handle_register)
        (register-Safe hellos gname r.service remote wrote st g
          (register_service r.service remote g) good there spoke refl)

module _ {Peer : Type 0} ⦃e : Eq Peer⦄ (show : Peer → Text) (a : Ambient) (remote : Peer)
    (st : ServerState Peer) (hellos : List (Peer × Text)) where
  frame-Safe :
      (gname : Text) (wrote : Bool) (f : Frame)
      → IsState hellos st
      → IsPlaced hellos st remote (serving gname)
      → Safe hellos remote st (handle_frame show a remote gname wrote f st)
  unfolding handle_frame handle_subscribe
  frame-Safe gname wrote (register r) good placed =
      handle_register-Safe hellos gname remote wrote r st good placed
  frame-Safe gname wrote (subscribe s) good placed =
      stays hellos remote st (or_left wrote (serving gname)) _ good
        (or_left-IsPlaced hellos st remote wrote (serving gname) placed)
  frame-Safe gname wrote heartbeat good placed =
      changes hellos remote st gname (touch_session remote a.now) (serving gname) good
        (λ g h. touch-Fits hellos gname remote a.now g h) placed
  frame-Safe gname wrote (hello h) good placed =
      stays hellos remote st (serving gname) _ good placed
  frame-Safe gname wrote _ good placed = stays hellos remote st (serving gname) none good placed

  first-Safe :
      (wrote : Bool) (f : Frame)
      → IsState hellos st
      → Safe
          (said remote awaiting_hello (received f wrote) ++ hellos)
          remote
          st
          (first_frame show a remote wrote f st)
  unfolding first_frame
  first-Safe wrote (hello h) good = hello-Safe hellos a remote wrote h st good
  first-Safe wrote _ good = stays hellos remote st left none good tt

  pub step-Safe :
      (ph : Phase) (ev : Event)
      → IsState hellos st
      → IsPlaced hellos st remote ph
      → Safe (said remote ph ev ++ hellos) remote st (step show a remote ph ev st)
  unfolding step leave_loop
  step-Safe awaiting_hello (received f wrote) good placed = first-Safe wrote f good
  step-Safe awaiting_hello accept_failed good placed = stays hellos remote st left none good tt
  step-Safe awaiting_hello read_failed good placed = stays hellos remote st left none good tt
  step-Safe (serving gname) (received f wrote) good placed = frame-Safe gname wrote f good placed
  step-Safe (serving gname) accept_failed good placed =
      changes hellos remote st gname (drop_session remote) closed good
        (λ g h. drop-Fits hellos gname remote g h) tt
  step-Safe (serving gname) read_failed good placed =
      changes hellos remote st gname (drop_session remote) closed good
        (λ g h. drop-Fits hellos gname remote g h) tt
  step-Safe closed ev good placed = stays hellos remote st closed none good tt
  step-Safe left ev good placed = stays hellos remote st left none good tt

module _ {Peer : Type 0} ⦃e : Eq Peer⦄ (hellos : List (Peer × Text)) where
  pub drop_sessions-Fits :
      (ids : List Peer) (name : Text) (g : Group Peer)
      → IsGroup hellos name g
      → Fits hellos name (drop_sessions ids) g
  unfolding drop_sessions
  drop_sessions-Fits [] name g h = (h, refl)
  drop_sessions-Fits (id ∷ ids) name g h =
      let (dropped, token) = drop-Fits hellos name id g h in
      let (all_dropped, same) = drop_sessions-Fits ids name (drop_session id g) dropped in
      (all_dropped, same ∙ token)

  entries-Keeps :
      (cutoff : ℕ) (entries : List (Text × Text × Peer)) (st : ServerState Peer)
      → IsState hellos st
      → Keeps hellos st (sweep_entries cutoff entries st)
  unfolding sweep_entries sweep_group
  entries-Keeps cutoff [] st good = Keeps-refl hellos st good
  entries-Keeps cutoff ((gname, service, p) ∷ rest) st good =
      let first = with_group-Keeps hellos gname (sweep_group cutoff) st good (λ g there.
        drop_sessions-Fits (dead_sessions cutoff g.sessions) gname g
          (good.each_group gname g there)) in
      let later = entries-Keeps cutoff rest (with_group gname (sweep_group cutoff) st) first.good in
      record {
        good = later.good;
        same =
            SameTokens-trans st (with_group gname (sweep_group cutoff) st)
              (sweep_entries cutoff rest (with_group gname (sweep_group cutoff) st)) first.same
              later.same;
      }

  pub sweep-Keeps :
      (now timeout : ℕ) (st st' : ServerState Peer)
      → IsState hellos st
      → sweep_dead_sessions now timeout st ≡ ok st'
      → Keeps hellos st st'
  unfolding sweep_dead_sessions
  sweep-Keeps now timeout st st' good swept = elim (Bool-cases (ltb now timeout)) [
    | inl early ↦ absurd (cc (rw early at swept))
    | inr late ↦
        rw (← same_state (rw late at swept))
          (entries-Keeps (now - timeout) (dump_services st) st good)
  ]
    where
      same_state :
          {x y : ServerState Peer}
          → ◌≡◌ {A = Result RegisterError (ServerState Peer)} (ok x) (ok y)
          → x ≡ y
      same_state h = ok_injective h
