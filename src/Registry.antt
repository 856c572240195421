-- ===== src/Registry.antt =====
-- crates/server/src/registry.rs: the server's state. An `EndpointId` is a type of the iroh crate with
-- decidable equality. An `Arc<AtomicU64>` is the index of a cell of `atomics`, which the registry and
-- the relay task that owns the handle share. An `Arc<Group>` is named by the group's key in the map,
-- which never changes after start-up; the RwLock is taken as never poisoned.
pub mod Laws
use meshly_core.Common.{
  ℕ, ◌+◌, ◌%◌, ◌^◌, Bool, true, false, Option, none, some, List, [], ◌∷◌, ◌++◌, map, arith, ltb,
  nat_beq, if◌then◌else◌, Eq, ◌==◌, nat_eq, list_eq, length, get_elem?, set, find, Result, ok, err,
  panic, Text,
}
use meshly_core.Config.{GroupConfig}
use meshly_core.Common.Map.{Map, get, insert, remove, remove_all, keys_where}

pub record Session : Type 0 where
  pub last_heartbeat : ℕ

pub record ServiceRecord (Peer : Type 0) : Type 0 where
  pub provider_id : Peer

pub record Group (Peer : Type 0) : Type 0 where
  pub name : Text
  pub token : Text
  pub sessions : Map Peer Session
  pub services : Map Text (ServiceRecord Peer)

abbrev pub Handle : Type 0
Handle = ℕ

pub record ServerState (Peer : Type 0) : Type 0 where
  pub groups : Map Text (Group Peer)
  pub next_stream_id : ℕ
  pub relay_rates : Map ℕ Handle
  pub relay_rate_overrides : Map Peer ℕ
  pub atomics : List ℕ

pub data RegisterError : Type 0 where
  bad_name : RegisterError

-- `AtomicU64::new`, `load` and `store`.
unfoldable pub new_atomic : {Peer : Type 0} → ℕ → ServerState Peer → Handle × ServerState Peer
new_atomic v st = (length st.atomics, record st { atomics = st.atomics ++ (v ∷ []) })

unfoldable pub load : {Peer : Type 0} → Handle → ServerState Peer → ℕ
load h st = elim (get_elem? st.atomics h) [ none ↦ 0 | some v ↦ v ]

unfoldable pub store : {Peer : Type 0} → Handle → ℕ → ServerState Peer → ServerState Peer
store h v st = record st { atomics = set st.atomics h v }

-- `inner.groups.values()`
abbrev pub all_groups : {Peer : Type 0} → Map Text (Group Peer) → List (Group Peer)
all_groups [] = []
all_groups ((name, g) ∷ rest) = g ∷ all_groups rest

module _ {Peer : Type 0} ⦃e : Eq Peer⦄ where
  unfoldable pub insert_groups : List GroupConfig → Map Text (Group Peer) → Map Text (Group Peer)
  insert_groups [] m = m
  insert_groups (g ∷ gs) m = insert_groups gs (
      insert g.name (record { name = g.name; token = g.group_token; sessions = []; services = [] })
        m)

  insert_overrides : List (Peer × ℕ) → Map Peer ℕ → Map Peer ℕ
  insert_overrides [] m = m
  insert_overrides ((id, bps) ∷ os) m = insert_overrides os (insert id bps m)

  -- `assert!(!map.is_empty())` panics.
  unfoldable pub new : List GroupConfig → List (Peer × ℕ) → Result RegisterError (ServerState Peer)
  unfolding insert_groups insert_overrides
  new groups rate_overrides =
      let m = insert_groups groups [] in
      if nat_beq (length m) 0
      then panic
      else ok (record {
        groups = m;
        next_stream_id = 1;
        relay_rates = [];
        relay_rate_overrides = insert_overrides rate_overrides [];
        atomics = [];
      })

  unfoldable pub group : ServerState Peer → Text → Option (Group Peer)
  group st name = get name st.groups

  unfoldable pub authenticate : ServerState Peer → Text → Option (Group Peer)
  authenticate st token = find (λ g. g.token == token) (all_groups st.groups)

  -- `.map(|r| r.provider_id)`
  abbrev pub provider_of : Option (ServiceRecord Peer) → Option Peer
  provider_of none = none
  provider_of (some r) = some r.provider_id

  unfoldable pub provider_in : Group Peer → Text → Option Peer
  provider_in g service = provider_of (get service g.services)

  unfoldable pub lookup_service : ServerState Peer → Text → Text → Option Peer
  lookup_service st group_name service = elim (group st group_name) [
    | none ↦ none
    | some g ↦ provider_in g service
  ]

  abbrev pub services_of : Text → Map Text (ServiceRecord Peer) → List (Text × Text × Peer)
  services_of gname [] = []
  services_of gname ((s, r) ∷ rest) = (gname, s, r.provider_id) ∷ services_of gname rest

  abbrev pub dump_groups : Map Text (Group Peer) → List (Text × Text × Peer)
  dump_groups [] = []
  dump_groups ((gname, g) ∷ rest) = services_of gname g.services ++ dump_groups rest

  unfoldable pub dump_services : ServerState Peer → List (Text × Text × Peer)
  dump_services st = dump_groups st.groups

  abbrev sum_sessions : Map Text (Group Peer) → ℕ
  sum_sessions [] = 0
  sum_sessions ((gname, g) ∷ rest) = length g.sessions + sum_sessions rest

  unfoldable pub session_count : ServerState Peer → ℕ
  session_count st = sum_sessions st.groups

  unfoldable pub lookup_relay_rate_override : ServerState Peer → Peer → Option ℕ
  lookup_relay_rate_override st consumer = get consumer st.relay_rate_overrides

  -- `fetch_add(1)` on a u64
  unfoldable pub alloc_stream_id : ServerState Peer → ℕ × ServerState Peer
  alloc_stream_id st =
      (st.next_stream_id, record st { next_stream_id = (st.next_stream_id + 1) % 2 ^ 64 })

  unfoldable pub register_relay_rate : ℕ → Handle → ServerState Peer → ServerState Peer
  register_relay_rate stream_id handle st = record st {
    relay_rates = insert stream_id handle st.relay_rates;
  }

  unfoldable pub unregister_relay_rate : ℕ → ServerState Peer → ServerState Peer
  unregister_relay_rate stream_id st = record st { relay_rates = remove stream_id st.relay_rates }

  unfoldable pub update_relay_rate : ℕ → ℕ → ServerState Peer → Bool × ServerState Peer
  unfolding store
  update_relay_rate stream_id bytes_per_sec st = elim (get stream_id st.relay_rates) [
    | none ↦ (false, st)
    | some h ↦ (true, store h bytes_per_sec st)
  ]

  unfoldable pub relay_rates_snapshot : ServerState Peer → List (ℕ × ℕ)
  unfolding load
  relay_rates_snapshot st = map (λ (p : ℕ × Handle). (p.0, load p.1 st)) st.relay_rates

  -- The previous provider, if there was one, and the group with the new one.
  unfoldable pub register_service :
      Text → Peer → Group Peer → Result RegisterError (Option Peer × Group Peer)
  unfolding provider_in
  register_service service provider g =
      if ltb 32 (length service)
      then err bad_name
      else ok (
        provider_in g service,
        record g { services = insert service (record { provider_id = provider }) g.services },
      )

  unfoldable pub touch_session : Peer → ℕ → Group Peer → Group Peer
  touch_session client_id now g = record g {
    sessions = insert client_id (record { last_heartbeat = now }) g.sessions;
  }

  abbrev pub provided_by : Peer → ServiceRecord Peer → Bool
  provided_by client_id r = r.provider_id == client_id

  unfoldable pub drop_session : Peer → Group Peer → Group Peer
  drop_session client_id g =
      let to_remove = keys_where (provided_by client_id) g.services in
      record g {
        sessions = remove client_id g.sessions;
        services = remove_all to_remove g.services;
      }

  -- The accesses to the maps that `drop_session` is made of, which other tasks may come between: the session
  -- goes, the names are collected, and each is removed.
  unfoldable pub forget_session : Peer → Group Peer → Group Peer
  forget_session client_id g = record g { sessions = remove client_id g.sessions }

  unfoldable pub drop_service : Text → Group Peer → Group Peer
  drop_service service g = record g { services = remove service g.services }

  unfoldable pub drop_services : List Text → Group Peer → Group Peer
  unfolding drop_service
  drop_services [] g = g
  drop_services (service ∷ rest) g = drop_services rest (drop_service service g)

  -- A change made through the `Arc<Group>` of this name.
  unfoldable pub with_group : Text → (Group Peer → Group Peer) → ServerState Peer → ServerState Peer
  with_group name f st = elim (get name st.groups) [
    | none ↦ st
    | some g ↦ record st { groups = insert name (f g) st.groups }
  ]
