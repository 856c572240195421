-- ===== src/Client/Discovery.antt =====
-- A client's registration and subscription, answered by the server's own control session.
use meshly_core.Common.{
  ◌≤◌, ◌≡◌, refl, ap, ◌∙◌, true, ◌&&◌, Option, none, some, List, [], ◌∷◌, ◌++◌, arith,
  if◌then◌else◌, Eq, ◌==◌, eq_iff, beq_self, nat_eq, list_eq, length, All, Result, ok, err, panic,
  Text,
}
use meshly_core.Common.Map.{member}
use meshly_core.Protocol.{Frame}
use meshly_core.Registry.{
  Group, ServerState, authenticate, group, lookup_service, touch_session, with_group,
}
use meshly_core.Registry.Laws.{
  get-with_group, lookup-with_group, lookup-there, register_service_accepts,
  register_service_effect,
}
use meshly_core.Control.{
  Phase, awaiting_hello, serving, received, Ambient, answer_register, handle_register, handle_hello,
  handle_frame, first_frame, step,
}
use meshly_core.System.Changes.{registered}
use meshly_core.System.Directory.Refines.{touched}
use meshly_core.Client.Admits.{admits, admits-with_group}
use meshly_core.Client.{
  ClientError, stream_failed, Talk, and_then, say_hello, register_one, register_each,
  register_with_server,
}

and_then_assoc :
    {S A B C : Type 0} (t : Talk S A) (f : A → S → Talk S B) (g : B → S → Talk S C)
    → and_then (and_then t f) g ≡ and_then t (λ a s. and_then (f a s) g)
and_then_assoc (ok a, s) f g = refl
and_then_assoc (err e, s) f g = refl
and_then_assoc (panic, s) f g = refl

register_each-append :
    {S : Type 0} (exchange : Frame → S → Talk S Frame) (xs ys : List Text) (s : S)
    → and_then (register_each exchange xs s) (λ done s'. register_each exchange ys s')
      ≡ register_each exchange (xs ++ ys) s
unfolding register_each
register_each-append exchange [] ys s = refl
register_each-append exchange (x ∷ xs) ys s =
    and_then_assoc (register_one exchange x s) _ _
    ∙ ap (and_then (register_one exchange x s))
        (λ i name s'. register_each-append exchange xs ys s' i)

module _ {Peer : Type 0} ⦃e : Eq Peer⦄ (show : Peer → Text) (a : Ambient) (remote : Peer) where
  abbrev pub Seat : Type 0
  Seat = ServerState Peer × Phase

  -- The stream of a frame whose reply can be written.
  abbrev answered : Option Frame → Result ClientError Frame
  answered (some reply) = ok reply
  answered none = err stream_failed

  abbrev pub answer : Frame → Seat → Talk Seat Frame
  answer f s = let o = step show a remote s.1 (received f true) s.0 in (answered o.2, (o.0, o.1))

  register_one_lem :
      (gname name : Text) (st : ServerState Peer) (g : Group Peer)
      → group st gname ≡ some g
      → length name ≤ 32
      → (g' : Group Peer) × (register_one answer name (st, serving gname)
          ≡ (ok name, (with_group gname (λ _. g') st, serving gname)))
        × ((j x : Text)
            → lookup_service (with_group gname (λ _. g') st) j x
              ≡ (if gname == j && name == x then some remote else lookup_service st j x))
        × ((token : Text) → admits (with_group gname (λ _. g') st) token ≡ admits st token)
  unfolding register_one step handle_frame handle_register answer_register
  register_one_lem gname name st g there short =
      let (p, accepted) = register_service_accepts name remote g short in
      (
        p.1,
        rw (there, accepted, handle_register, answer_register) refl,
        λ j x. ground (
          arith,
          lookup-with_group gname j x (λ _. p.1) st g there,
          (register_service_effect name x remote g p accepted).1,
          eq_iff gname j,
          lookup-there gname x st g there,
        ),
        λ token.
            let (long, made) = registered name remote g p accepted in
            admits-with_group token gname (λ _. p.1) st g there
              (ap (λ (y : Group Peer). y.name) made) (ap (λ (y : Group Peer). y.token) made),
      )

  -- What a session in its main loop owes to a list of registrations.
  pub record Registered (gname : Text) (names : List Text) (st : ServerState Peer)
      (done : Talk Seat (Unit {0})) : Type 0 where
    pub accepted : done.0 ≡ ok tt
    pub still : done.1.1 ≡ serving gname
    pub place : (g : Group Peer) × (group done.1.0 gname ≡ some g)
    pub found :
        (j x : Text)
        → lookup_service done.1.0 j x
          ≡ (if gname == j && member x names then some remote else lookup_service st j x)
    pub admitted : (token : Text) → admits done.1.0 token ≡ admits st token

  group_after :
      (gname : Text) (g g' : Group Peer) (st : ServerState Peer)
      → group st gname ≡ some g
      → group (with_group gname (λ _. g') st) gname ≡ some g'
  unfolding group
  group_after gname g g' st there =
      ground (arith, get-with_group gname gname (λ _. g') st, beq_self gname, there)

  register_each_lem :
      (gname : Text) (names : List Text) (st : ServerState Peer) (g : Group Peer)
      → group st gname ≡ some g
      → All (λ name. length name ≤ 32) names
      → Registered gname names st (register_each answer names (st, serving gname))
  unfolding register_each
  register_each_lem gname [] st g there short = record {
    accepted = refl;
    still = refl;
    place = (g, there);
    found = λ j x. ground arith;
    admitted = λ token. refl;
  }
  register_each_lem gname (name ∷ rest) st g there short =
      let (g', said, seen, admitted) = register_one_lem gname name st g there short.0 in
      let later =
        register_each_lem gname rest (with_group gname (λ _. g') st) g'
          (group_after gname g g' st there) short.1 in
      rw (said) (record {
        accepted = later.accepted;
        still = later.still;
        place = later.place;
        found = λ j x. later.found j x ∙ ground (arith, seen j x);
        admitted = λ token. later.admitted token ∙ admitted token;
      })

  pub say_hello_lem :
      (token info : Text) (st : ServerState Peer) (g : Group Peer)
      → authenticate st token ≡ some g
      → say_hello answer token info (st, awaiting_hello)
        ≡ (ok a.session_id, (with_group g.name (touch_session remote a.now) st, serving g.name))
  unfolding say_hello step first_frame handle_hello
  say_hello_lem token info st g found = rw (found, handle_hello) refl

  touch_name : (g : Group Peer) → (touch_session remote a.now g).name ≡ g.name
  unfolding touch_session
  touch_name g = refl

  touch_token : (g : Group Peer) → (touch_session remote a.now g).token ≡ g.token
  unfolding touch_session
  touch_token g = refl

  group_touched :
      (g : Group Peer) (st : ServerState Peer)
      → group st g.name ≡ some g
      → group (with_group g.name (touch_session remote a.now) st) g.name
        ≡ some (touch_session remote a.now g)
  unfolding group
  group_touched g st there =
      ground (
        arith,
        get-with_group g.name g.name (touch_session remote a.now) st,
        beq_self g.name,
        there,
      )

  pub registers_each :
      (token info : Text) (services statics : List Text) (st : ServerState Peer) (g : Group Peer)
      → authenticate st token ≡ some g
      → group st g.name ≡ some g
      → All (λ name. length name ≤ 32) (services ++ statics)
      → Registered g.name
          (services ++ statics)
          st
          (register_with_server answer true token info services statics (st, awaiting_hello))
  unfolding register_with_server
  registers_each token info services statics st g found there short =
      let st0 = with_group g.name (touch_session remote a.now) st in
      let all =
        register_each_lem g.name (services ++ statics) st0 (touch_session remote a.now g)
          (group_touched g st there) short in
      rw
        (
          say_hello_lem token info st g found,
          register_each-append answer services statics (st0, serving g.name),
        )
        (record {
          accepted = all.accepted;
          still = all.still;
          place = all.place;
          found = λ j x.
              all.found j x
              ∙ ap (λ o. if g.name == j && member x (services ++ statics) then some remote else o)
                  (touched g.name j x remote a.now st);
          admitted = λ token.
              all.admitted token
              ∙ admits-with_group token g.name (touch_session remote a.now) st g there
                  (touch_name g) (touch_token g);
        })
