-- ===== src/System/Invariant.antt =====
-- What holds of the server that its steps reach.
use meshly_core.Common.{
  ℕ, zero, suc, ◌≤◌, ◌≡◌, refl, sym, ◌∙◌, inl, inr, Bool, true, false, ◌&&◌, Option, none, some,
  List, [], ◌∷◌, ◌++◌, Bool-cases, Option-cases, Eq, ◌==◌, eq_iff, nat_eq, list_eq, length,
  get_elem?, set, All, Result, ok, err, panic, Bytes, Text,
}
use meshly_core.Common.Map.{Map, get, insert, IsMap, get-insert, insert-IsMap}
use meshly_core.Common.Checks.{All-map}
use meshly_core.Config.{GroupConfig}
use meshly_core.Alpn.{AlpnError, alpn_for_service}
use meshly_core.Registry.{
  Group, ServiceRecord, ServerState, new, with_group, forget_session, drop_service, insert_groups,
  group, provider_in, lookup_service, update_relay_rate, alloc_stream_id, unregister_relay_rate,
}
use meshly_core.Control.{Phase, step}
use meshly_core.Relay.{take_rate, start_with, start_relay, finish_relay}
use meshly_core.Relay.Reached.{passed_assert}
use meshly_core.System.{
  Connection, Server, said, run_event, Step, connects, happens, sweeps, relay_starts, relay_ends,
  retunes, leaves, finds_dead, forgets, collects, removes, Drops, Reach, begins, goes,
}
use meshly_core.System.Groups.{heard, IsGroup, IsState, Keeps, Keeps-groups, with_group-Keeps}
use meshly_core.System.Changes.{forget-Fits, drop_service-Fits}
use meshly_core.System.Sessions.{IsPlaced, IsPlaced-Keeps, IsPlaced-said}
use meshly_core.System.Events.{step-Safe, sweep-Keeps}

module _ {A : Type 0} (P : A → Type 0) where
  All-snoc : (xs : List A) (x : A) → All P xs → P x → All P (xs ++ (x ∷ []))
  All-snoc [] x h p = (p, tt)
  All-snoc (y ∷ xs) x h p = (h.0, All-snoc xs x h.1 p)

  All-set : (xs : List A) (i : ℕ) (v : A) → All P xs → P v → All P (set xs i v)
  All-set [] i v h p = tt
  All-set (y ∷ xs) zero v h p = (p, h.1)
  All-set (y ∷ xs) (suc i) v h p = (h.0, All-set xs i v h.1 p)

  pub All-get_elem? : (xs : List A) (i : ℕ) (v : A) → All P xs → get_elem? xs i ≡ some v → P v
  All-get_elem? [] i v h there = absurd (cc there)
  All-get_elem? (y ∷ xs) zero v h there = let same : y ≡ v = cc there in rw (← same) h.0
  All-get_elem? (y ∷ xs) (suc i) v h there = All-get_elem? xs i v h.1 there

module _ {Peer : Type 0} ⦃e : Eq Peer⦄ where
  abbrev pub Placed : List (Peer × Text) → ServerState Peer → Connection Peer → Type 0
  Placed hellos st c = IsPlaced hellos st c.remote c.phase

  -- The groups are in order, and every session in its main loop serves a group whose token its peer has sent.
  pub record IsServer (s : Server Peer) : Type 0 where
    pub state : IsState s.hellos s.state
    pub placed :
        All (λ (c : Connection Peer). IsPlaced s.hellos s.state c.remote c.phase) s.connections

  with_state :
      (s : Server Peer) (st : ServerState Peer)
      → IsServer s
      → Keeps s.hellos s.state st
      → IsServer (record s { state = st })
  with_state s st h k = record {
    state = k.good;
    placed =
        All-map s.connections (λ c p. IsPlaced-Keeps s.hellos s.state st c.remote c.phase k.same p)
          h.placed;
  }

  with_drops : (s : Server Peer) (d : Drops Peer) → IsServer s → IsServer (record s { drops = d })
  with_drops s d h = record { state = h.state; placed = h.placed }

  more-IsPlaced :
      (new hellos : List (Peer × Text)) (st : ServerState Peer) (remote : Peer) (ph : Phase)
      → IsPlaced hellos st remote ph
      → IsPlaced (new ++ hellos) st remote ph
  more-IsPlaced [] hellos st remote ph h = h
  more-IsPlaced ((q, t) ∷ new) hellos st remote ph h =
      IsPlaced-said (new ++ hellos) st remote q t ph (more-IsPlaced new hellos st remote ph h)

  pub start-groups :
      (initial : Option ℕ) (reached : Bool) (st : ServerState Peer) (a : Result AlpnError Bytes)
      → (start_with initial reached st a).1.groups ≡ st.groups
  unfolding start_with take_rate alloc_stream_id
  start-groups none true st (ok alpn) = refl
  start-groups (some bps) true st (ok alpn) = refl
  start-groups initial false st (ok alpn) = refl
  start-groups initial reached st (err x) = refl
  start-groups initial reached st panic = refl

  pub finish-groups :
      {E : Type 0} (i : ℕ) (result : Result E (ℕ × ℕ)) (st : ServerState Peer)
      → (finish_relay i result st).1.groups ≡ st.groups
  unfolding finish_relay unregister_relay_rate
  finish-groups i (ok n) st = refl
  finish-groups i (err x) st = refl
  finish-groups i panic st = refl

  pub retune-groups :
      (i v : ℕ) (st : ServerState Peer) → (update_relay_rate i v st).1.groups ≡ st.groups
  unfolding update_relay_rate
  retune-groups i v st = elim (Option-cases (get i st.relay_rates)) [
    | inl gone ↦ rw (gone, update_relay_rate) refl
    | inr (h, there) ↦ rw (there, update_relay_rate) refl
  ]

  Step-IsServer : (show : Peer → Text) {s t : Server Peer} → Step show s t → IsServer s → IsServer t
  unfolding run_event start_relay
  Step-IsServer show (connects remote s) h = record {
    state = h.state;
    placed = All-snoc (Placed s.hellos s.state) s.connections _ h.placed tt;
  }
  Step-IsServer show (happens a i c ev s there) h =
      let safe =
        step-Safe show a c.remote s.state s.hellos c.phase ev h.state
          (All-get_elem? (Placed s.hellos s.state) s.connections i c h.placed there) in
      let new = said c.remote c.phase ev in
      let st = (step show a c.remote c.phase ev s.state).0 in
      record {
        state = safe.keeps.good;
        placed =
            All-set (Placed (new ++ s.hellos) st) s.connections i _
              (All-map s.connections
                (λ d p.
                  IsPlaced-Keeps (new ++ s.hellos) s.state st d.remote d.phase safe.keeps.same
                    (more-IsPlaced new s.hellos s.state d.remote d.phase p))
                h.placed)
              safe.placed;
      }
  Step-IsServer show (sweeps now timeout s st swept) h =
      with_state s st h (sweep-Keeps s.hellos now timeout s.state st h.state swept)
  Step-IsServer show (relay_starts initial service reaches opens s) h = with_state s _ h (
      Keeps-groups s.hellos s.state _
        (start-groups initial (reaches && opens) s.state (alpn_for_service service)) h.state)
  Step-IsServer show (relay_ends i result s) h =
      with_state s _ h (Keeps-groups s.hellos s.state _ (finish-groups i result s.state) h.state)
  Step-IsServer show (retunes i v s) h =
      with_state s _ h (Keeps-groups s.hellos s.state _ (retune-groups i v s.state) h.state)
  Step-IsServer show (leaves i c gname s there phase) h = record {
    state = h.state;
    placed = All-set (Placed s.hellos s.state) s.connections i _ h.placed tt;
  }
  Step-IsServer show (finds_dead now timeout gname client g x s late here found old) h =
      with_drops s _ h
  Step-IsServer show (forgets k gname client s due) h =
      with_drops (record s { state = with_group gname (forget_session client) s.state }) _
        (with_state s _ h (
          with_group-Keeps s.hellos gname (forget_session client) s.state h.state
            (λ g there. forget-Fits s.hellos gname client g (h.state.each_group gname g there))))
  Step-IsServer show (collects k gname service client s due found) h = with_drops s _ h
  Step-IsServer show (removes k gname service s due) h = with_state s _ h (
      with_group-Keeps s.hellos gname (drop_service service) s.state h.state
        (λ g there. drop_service-Fits s.hellos gname service g (h.state.each_group gname g there)))

  some_same : (a b : Group Peer) → some a ≡ some b → a ≡ b
  some_same a b h = cc h

  started-IsGroup :
      (c : GroupConfig)
      → IsGroup {Peer = Peer} [] c.name
          (record { name = c.name; token = c.group_token; sessions = []; services = [] })
  unfolding get
  started-IsGroup c = record {
    named = refl;
    services_once = tt;
    sessions_once = tt;
    short = λ s r there. absurd (cc there);
    known = λ s r there. absurd (cc there);
  }

  insert_groups-IsMap :
      (cs : List GroupConfig) (m : Map Text (Group Peer)) → IsMap m → IsMap (insert_groups cs m)
  unfolding insert_groups
  insert_groups-IsMap [] m h = h
  insert_groups-IsMap (c ∷ cs) m h = insert_groups-IsMap cs _ (insert-IsMap c.name _ m h)

  insert_groups-IsGroup :
      (cs : List GroupConfig) (m : Map Text (Group Peer))
      → ((name : Text) (g : Group Peer) → get name m ≡ some g → IsGroup [] name g)
      → (name : Text) (g : Group Peer) → get name (insert_groups cs m) ≡ some g
      → IsGroup [] name g
  unfolding insert_groups
  insert_groups-IsGroup [] m h = h
  insert_groups-IsGroup (c ∷ cs) m h =
      let fresh : Group Peer = record {
        name = c.name;
        token = c.group_token;
        sessions = [];
        services = [];
      } in
      insert_groups-IsGroup cs (insert c.name fresh m) (λ name g there.
        elim (Bool-cases (c.name == name)) [
          | inl same ↦
              let here = rw same at (get-insert c.name name fresh m) in
              rw (← some_same fresh g (sym here ∙ there), ← (eq_iff c.name name).0 same)
                (started-IsGroup c)
          | inr other ↦ h name g (sym (rw other at (get-insert c.name name fresh m)) ∙ there)
        ])

  new-IsState :
      (groups : List GroupConfig) (overrides : List (Peer × ℕ)) (st : ServerState Peer)
      → new groups overrides ≡ ok st
      → IsState [] st
  unfolding new get
  new-IsState groups overrides st h = rw (← passed_assert _ _ st h) (record {
    groups_once = insert_groups-IsMap groups [] tt;
    each_group = insert_groups-IsGroup groups [] (λ name g there. absurd (cc there));
  })

  pub Reach-IsServer :
      (show : Peer → Text) (groups : List GroupConfig) (overrides : List (Peer × ℕ))
      (s : Server Peer)
      → Reach show groups overrides s
      → IsServer s
  Reach-IsServer show groups overrides s (begins st h) = record {
    state = new-IsState groups overrides st h;
    placed = tt;
  }
  Reach-IsServer show groups overrides s (goes {s = before} r one) =
      Step-IsServer show one (Reach-IsServer show groups overrides before r)

  found_provider :
      (st : ServerState Peer) (g : Group Peer) (gname service : Text) (p : Peer)
      → lookup_service st gname service ≡ some p
      → get gname st.groups ≡ some g
      → (r : ServiceRecord Peer) × (get service g.services ≡ some r) × (r.provider_id ≡ p)
  unfolding lookup_service group provider_in
  found_provider st g gname service p h there = elim (Option-cases (get service g.services)) [
    | inl gone ↦ absurd (cc (rw (there, gone, lookup_service) at h))
    | inr (r, here) ↦ (r, here, same_peer r.provider_id p (rw (there, here, lookup_service) at h))
  ]
    where
      same_peer : (a b : Peer) → some a ≡ some b → a ≡ b
      same_peer a b q = cc q

  no_lookup :
      (st : ServerState Peer) (gname service : Text) (p : Peer)
      → get gname st.groups ≡ none
      → lookup_service st gname service ≡ some p
      → ⊥
  unfolding lookup_service group
  no_lookup st gname service p gone h = cc (rw (gone, lookup_service) at h)

  -- However connections, sweeps and relay tasks interleave, whoever is found as the provider of a service
  -- in a group has sent that group's token in a Hello, and the service's name has at most 32 bytes.
  pub providers_spoke :
      (show : Peer → Text) (groups : List GroupConfig) (overrides : List (Peer × ℕ))
      (s : Server Peer) (gname service : Text) (p : Peer)
      → Reach show groups overrides s
      → lookup_service s.state gname service ≡ some p
      → (g : Group Peer) × (group s.state gname ≡ some g)
        × (heard p g.token s.hellos ≡ true)
        × (length service ≤ 32)
  unfolding group
  providers_spoke show groups overrides s gname service p r h =
      elim (Option-cases (get gname s.state.groups)) [
        | inl gone ↦ absurd (nobody gone)
        | inr (g, there) ↦
            let (x, here, same) = found_provider s.state g gname service p h there in
            let ok_group =
              (Reach-IsServer show groups overrides s r).state.each_group gname g there in
            (g, there, rw (← same) (ok_group.known service x here), ok_group.short service x here)
      ]
    where
      nobody : get gname s.state.groups ≡ none → ⊥
      nobody gone = no_lookup s.state gname service p gone h
