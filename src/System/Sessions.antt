-- ===== src/System/Sessions.antt =====
-- What one event of one control session, and a sweep, do to the groups.
use meshly_core.Common.{
  ◌≡◌, sym, ap, ◌∙◌, inl, inr, Bool, true, false, Option, some, List, [], ◌∷◌, arith, if◌then◌else◌,
  Bool-cases, Option-cases, Eq, ◌==◌, eq_iff, beq_self, nat_eq, list_eq, find, Result, ok, err,
  panic, Text,
}
use meshly_core.Common.Map.{Map, get, IsMap}
use meshly_core.Protocol.{Hello}
use meshly_core.Registry.{
  Group, ServerState, RegisterError, authenticate, all_groups, register_service, touch_session,
  with_group,
}
use meshly_core.Control.{
  Phase, awaiting_hello, serving, closed, left, Ambient, Outcome, or_left, handle_hello,
  answer_register,
}
use meshly_core.Control.Sessions.{found_token}
use meshly_core.System.Groups.{
  heard, IsState, SameTokens, Keeps, Keeps-refl, with_group-Keeps, Fits,
}
use meshly_core.System.Changes.{touch-Fits, register-Fits, said-IsState}

module _ {Peer : Type 0} ⦃e : Eq Peer⦄ where
  -- A session that serves a group: the group is there, and the peer has sent its token.
  abbrev pub IsPlaced : List (Peer × Text) → ServerState Peer → Peer → Phase → Type 0
  IsPlaced hellos st remote (serving gname) =
      (g : Group Peer) × (get gname st.groups ≡ some g) × (heard remote g.token hellos ≡ true)
  IsPlaced hellos st remote awaiting_hello = Unit {0}
  IsPlaced hellos st remote closed = Unit {0}
  IsPlaced hellos st remote left = Unit {0}

  pub IsPlaced-Keeps :
      (hellos : List (Peer × Text)) (st st' : ServerState Peer) (remote : Peer) (ph : Phase)
      → SameTokens st st'
      → IsPlaced hellos st remote ph
      → IsPlaced hellos st' remote ph
  IsPlaced-Keeps hellos st st' remote (serving gname) same (g, there, spoke) =
      let (g', there', token) = same gname g there in (g', there', rw token spoke)
  IsPlaced-Keeps hellos st st' remote awaiting_hello same h = tt
  IsPlaced-Keeps hellos st st' remote closed same h = tt
  IsPlaced-Keeps hellos st st' remote left same h = tt

  pub IsPlaced-said :
      (hellos : List (Peer × Text)) (st : ServerState Peer) (remote q : Peer) (t : Text)
      (ph : Phase)
      → IsPlaced hellos st remote ph
      → IsPlaced ((q, t) ∷ hellos) st remote ph
  IsPlaced-said hellos st remote q t (serving gname) (g, there, spoke) = (g, there, ground arith)
  IsPlaced-said hellos st remote q t awaiting_hello h = tt
  IsPlaced-said hellos st remote q t closed h = tt
  IsPlaced-said hellos st remote q t left h = tt

  -- The outcome of an event is as good as the state before it.
  pub record Safe (hellos : List (Peer × Text)) (remote : Peer) (st : ServerState Peer)
      (o : Outcome Peer) : Type 0 where
    pub keeps : Keeps hellos st o.0
    pub placed : IsPlaced hellos o.0 remote o.1

  pub or_left-IsPlaced :
      (hellos : List (Peer × Text)) (st : ServerState Peer) (remote : Peer) (wrote : Bool)
      (ph : Phase)
      → IsPlaced hellos st remote ph
      → IsPlaced hellos st remote (or_left wrote ph)
  or_left-IsPlaced hellos st remote true ph h = h
  or_left-IsPlaced hellos st remote false ph h = tt

  -- A group that `authenticate` finds is under its name.
  found_group :
      (p : Group Peer → Bool) (m : Map Text (Group Peer)) (g : Group Peer)
      → IsMap m
      → find p (all_groups m) ≡ some g
      → (name : Text) × (get name m ≡ some g)
  unfolding get
  found_group p [] g once h = absurd (cc h)
  found_group p ((i, x) ∷ m) g once h = elim (Bool-cases (p x)) [
    | inl holds ↦ (i, ground (arith, beq_self i, h))
    | inr fails ↦
        let (name, there) = found_group p m g once.1 (rw fails at h) in
        (name, later_there i name there)
  ]
    where
      later_there :
          (j name : Text)
          → get name m ≡ some g
          → (if i == name then some x else get name m) ≡ some g
      later_there j name there = ground (arith, eq_iff i name, once.0)

  pub registered_under :
      (st : ServerState Peer) (token : Text) (g : Group Peer)
      → IsMap st.groups
      → authenticate st token ≡ some g
      → (name : Text) × (get name st.groups ≡ some g)
  unfolding authenticate
  registered_under st token g once found =
      found_group (λ x. x.token == token) st.groups g once found

  same_group : (g g' : Group Peer) → some g ≡ some g' → g ≡ g'
  same_group g g' h = cc h

  pub hello-Safe :
      (hellos : List (Peer × Text)) (a : Ambient) (remote : Peer) (wrote : Bool) (h : Hello)
      (st : ServerState Peer)
      → IsState hellos st
      → Safe ((remote, h.group_token) ∷ hellos) remote st (handle_hello a remote wrote h st)
  unfolding handle_hello
  hello-Safe hellos a remote wrote h st good = elim (Option-cases (authenticate st h.group_token)) [
    | inl gone ↦ rw (gone, handle_hello) (record { keeps = Keeps-refl _ st said; placed = tt })
    | inr (g, found) ↦
        let (name, there) = registered_under st h.group_token g good.groups_once found in
        let named = (said.each_group name g there).named in
        let keeps =
          with_group-Keeps _ g.name (touch_session remote a.now) st said
            (λ g' there'. touch-Fits _ g.name remote a.now g' (said.each_group g.name g' there')) in
        rw (found, handle_hello)
          (record {
            keeps = keeps;
            placed =
                or_left-IsPlaced ((remote, h.group_token) ∷ hellos)
                  (with_group g.name (touch_session remote a.now) st) remote wrote (serving g.name)
                  (IsPlaced-Keeps ((remote, h.group_token) ∷ hellos) st
                    (with_group g.name (touch_session remote a.now) st) remote (serving g.name)
                    keeps.same (g, ap (λ k. get k st.groups) named ∙ there, spoken g found));
          })
  ]
    where
      said : IsState ((remote, h.group_token) ∷ hellos) st
      said = said-IsState remote h.group_token hellos st good

      spoken :
          (g : Group Peer)
          → authenticate st h.group_token ≡ some g
          → heard remote g.token ((remote, h.group_token) ∷ hellos) ≡ true
      spoken g found = ground (
        arith,
        found_token h.group_token st g found,
        eq_iff g.token h.group_token,
        eq_iff h.group_token g.token,
        beq_self remote,
      )

  pub register-Safe :
      (hellos : List (Peer × Text)) (gname service : Text) (remote : Peer) (wrote : Bool)
      (st : ServerState Peer) (g : Group Peer) (r : Result RegisterError (Option Peer × Group Peer))
      → IsState hellos st
      → get gname st.groups ≡ some g
      → heard remote g.token hellos ≡ true
      → register_service service remote g ≡ r
      → Safe hellos remote st (answer_register gname wrote service r st)
  unfolding answer_register
  register-Safe hellos gname service remote wrote st g (ok p) good there spoke done =
      let fits =
        register-Fits hellos gname service remote g p done spoke (good.each_group gname g there) in
      let keeps =
        with_group-Keeps hellos gname (λ _. p.1) st good
          (λ g' there'. const_fits g' (sym there ∙ there')) in
      record {
        keeps = keeps;
        placed =
            or_left-IsPlaced hellos (with_group gname (λ _. p.1) st) remote wrote (serving gname) (
              IsPlaced-Keeps hellos st (with_group gname (λ _. p.1) st) remote (serving gname)
                keeps.same (g, there, spoke));
      }
    where
      const_fits : (g' : Group Peer) → some g ≡ some g' → Fits hellos gname (λ _. p.1) g'
      const_fits g' same =
          rw (← same_group g g' same) (
            register-Fits hellos gname service remote g p done spoke
              (good.each_group gname g there))
  register-Safe hellos gname service remote wrote st g (err x) good there spoke done = record {
    keeps = Keeps-refl hellos st good;
    placed = (g, there, spoke);
  }
  register-Safe hellos gname service remote wrote st g panic good there spoke done = record {
    keeps = Keeps-refl hellos st good;
    placed = tt;
  }
