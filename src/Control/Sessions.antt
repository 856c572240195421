-- ===== src/Control/Sessions.antt =====
-- One control session: who may enter, what a registration and the end of a session do, and what a
-- session leaves alone.
use meshly_core.Common.{
  ◌≤◌, ◌≡◌, refl, ◌≢◌, ◌⊎◌, inl, inr, Bool, true, false, ◌&&◌, Option, none, some, List, [], ◌∷◌,
  arith, if◌then◌else◌, Option-cases, Eq, ◌==◌, eq_iff, nat_eq, list_eq, length, find, Result, ok,
  err, panic, Text,
}
use meshly_core.Common.Map.{get, unless, IsMap}
use meshly_core.Protocol.{hello, register, heartbeat, Hello, Register}
use meshly_core.Registry.{
  Group, ServerState, RegisterError, authenticate, lookup_service, group, all_groups,
  register_service, touch_session, drop_session, with_group,
}
use meshly_core.Registry.Laws.{
  register_service_accepts, lookup-there, from, get-with_group, lookup-with_group,
  drop_session_exact, register_service_effect,
}
use meshly_core.Control.{
  awaiting_hello, serving, left, Event, received, accept_failed, read_failed, Ambient, handle_hello,
  answer_register, handle_register, handle_subscribe, handle_frame, first_frame, leave_loop, step,
}

find_holds : {A : Type 0} (p : A → Bool) (xs : List A) (a : A) → find p xs ≡ some a → p a ≡ true
find_holds p [] a h = cc
find_holds p (x ∷ xs) a h = ground (arith, find_holds p xs a)

module _ {Peer : Type 0} ⦃e : Eq Peer⦄ where
  pub found_token :
      (token : Text) (st : ServerState Peer) (g : Group Peer)
      → authenticate st token ≡ some g
      → (g.token == token) ≡ true
  unfolding authenticate
  found_token token st g h = find_holds (λ x. x.token == token) (all_groups st.groups) g h

module _ {Peer : Type 0} ⦃e : Eq Peer⦄ (show : Peer → Text) (a : Ambient) (remote : Peer) where
  -- What a session in the main loop owes to a Hello.
  pub record Admitted (st : ServerState Peer) (gname : Text) (ev : Event) : Type 0 where
    pub message : Hello
    pub member_of : Group Peer
    pub event : ev ≡ received (hello message) true
    pub found : authenticate st message.group_token ≡ some member_of
    pub named : member_of.name ≡ gname
    pub token : member_of.token ≡ message.group_token

  -- A session that waits for its Hello reaches the main loop only by a Hello whose reply was written,
  -- with the token of the group that it then serves.
  pub hello_needed :
      (ev : Event) (st : ServerState Peer) (gname : Text)
      → (step show a remote awaiting_hello ev st).1 ≡ serving gname
      → Admitted st gname ev
  unfolding step first_frame handle_hello
  hello_needed (received (hello h) true) st gname p =
      elim (Option-cases (authenticate st h.group_token)) [
        | inl gone ↦ absurd (ground (arith, gone))
        | inr (g, found) ↦ record {
          message = h;
          member_of = g;
          event = refl;
          found = found;
          named = ground (arith, found);
          token = (eq_iff g.token h.group_token).0 (found_token h.group_token st g found);
        }
      ]
  hello_needed (received (hello h) false) st gname p = absurd (ground arith)
  hello_needed (received _ wrote) st gname p = absurd (cc p)
  hello_needed _ st gname p = absurd (cc p)

  register_reads :
      (gname : Text) (r : Register) (wrote : Bool) (st : ServerState Peer) (g : Group Peer)
      → group st gname ≡ some g
      → handle_register gname remote wrote r st
        ≡ answer_register gname wrote r.service (register_service r.service remote g) st
  unfolding handle_register
  register_reads gname r wrote st g there = rw (there, handle_register)

  register_nowhere :
      (gname : Text) (r : Register) (wrote : Bool) (st : ServerState Peer)
      → group st gname ≡ none
      → handle_register gname remote wrote r st ≡ (st, left, none)
  unfolding handle_register
  register_nowhere gname r wrote st gone = rw (gone, handle_register)

  -- In the main loop, a Register for a name of at most 32 bytes makes the peer the provider of
  -- that service in the session's group, which the server has, whether or not the reply could be
  -- written, and changes no other lookup in any group.
  pub register_step :
      (gname j other : Text) (r : Register) (wrote : Bool) (st : ServerState Peer) (g : Group Peer)
      → group st gname ≡ some g
      → length r.service ≤ 32
      → lookup_service
          (step show a remote (serving gname) (received (register r) wrote) st).0
          j
          other
        ≡ (if gname == j && r.service == other then some remote else lookup_service st j other)
  unfolding step handle_frame answer_register
  register_step gname j other r wrote st g there short =
      let (p, accepted) = register_service_accepts r.service remote g short in
      let effect = (register_service_effect r.service other remote g p accepted).1 in
      rw (register_reads gname r wrote st g there, accepted)
        (ground (
          arith,
          lookup-with_group gname j other (λ _. p.1) st g there,
          effect,
          eq_iff gname j,
          lookup-there gname other st g there,
        ))

  dropped :
      (gname j service : Text) (st : ServerState Peer) (g : Group Peer)
      → group st gname ≡ some g
      → IsMap g.services
      → lookup_service (with_group gname (drop_session remote) st) j service ≡ (
          if gname == j
          then unless (from remote) (lookup_service st j service)
          else lookup_service st j service)
  dropped gname j service st g there unique = ground (
    arith,
    lookup-with_group gname j service (drop_session remote) st g there,
    eq_iff gname j,
    (drop_session_exact remote g service unique).0,
    lookup-there gname service st g there,
  )

  -- When the main loop ends, by a stream that is not accepted or a frame that is not read, all
  -- services that the peer provides in the session's group, where no service stands twice, are
  -- gone, whichever session registered them, and every other lookup is as before.
  pub leave_step :
      (gname j service : Text) (ev : Event) (st : ServerState Peer) (g : Group Peer)
      → group st gname ≡ some g
      → IsMap g.services
      → (ev ≡ accept_failed) ⊎ (ev ≡ read_failed)
      → lookup_service (step show a remote (serving gname) ev st).0 j service ≡ (
          if gname == j
          then unless (from remote) (lookup_service st j service)
          else lookup_service st j service)
  unfolding step leave_loop
  leave_step gname j service accept_failed st g there unique ends =
      dropped gname j service st g there unique
  leave_step gname j service read_failed st g there unique ends =
      dropped gname j service st g there unique
  leave_step gname j service (received f wrote) st g there unique ends = absurd (ground arith)

  untouched :
      (gname j : Text) (f : Group Peer → Group Peer) (st : ServerState Peer)
      → gname ≢ j
      → get j (with_group gname f st).groups ≡ get j st.groups
  untouched gname j f st apart = ground (arith, get-with_group gname j f st, eq_iff gname j)

  register_untouched :
      (gname j service : Text) (wrote : Bool) (r : Result RegisterError (Option Peer × Group Peer))
      (st : ServerState Peer)
      → gname ≢ j
      → get j (answer_register gname wrote service r st).0.groups ≡ get j st.groups
  unfolding answer_register
  register_untouched gname j service wrote (ok p) st apart = untouched gname j (λ _. p.1) st apart
  register_untouched gname j service wrote (err x) st apart = refl
  register_untouched gname j service wrote panic st apart = refl

  -- A session that serves one group leaves every other group as it is.
  other_groups_unchanged :
      (gname j : Text) (ev : Event) (st : ServerState Peer)
      → gname ≢ j
      → get j (step show a remote (serving gname) ev st).0.groups ≡ get j st.groups
  unfolding step handle_frame handle_subscribe leave_loop
  other_groups_unchanged gname j accept_failed st apart =
      untouched gname j (drop_session remote) st apart
  other_groups_unchanged gname j read_failed st apart =
      untouched gname j (drop_session remote) st apart
  other_groups_unchanged gname j (received heartbeat wrote) st apart =
      untouched gname j (touch_session remote a.now) st apart
  other_groups_unchanged gname j (received (register r) wrote) st apart =
      elim (Option-cases (group st gname)) [
        | inl gone ↦ rw (register_nowhere gname r wrote st gone)
        | inr (g, there) ↦ rw (register_reads gname r wrote st g there) (
            register_untouched gname j r.service wrote (register_service r.service remote g) st
              apart)
      ]
  other_groups_unchanged gname j (received _ wrote) st apart = refl
