-- ===== src/Registry/Laws.antt =====
-- What the operations of the registry do to what clients can look up.
use mathlib.Core.Option
use meshly_core.Common.{
  ◌≤◌, ◌≡◌, refl, sym, ap, inl, inr, Bool, ◌&&◌, Option, none, some, List, [], ◌∷◌, arith,
  if◌then◌else◌, le→ltb-false, Option-cases, Eq, ◌==◌, eq_iff, nat_eq, list_eq, length, ok, Text,
}
use meshly_core.Common.Map.{
  remove, remove_all, keys_where, insert, get, get-insert, get-remove, get-remove_where, unless,
  IsMap,
}
use meshly_core.Registry.{
  ServiceRecord, Group, ServerState, group, provider_of, provider_in, lookup_service,
  register_service, drop_session, forget_session, drop_service, drop_services, provided_by,
  with_group,
}

module _ {Peer : Type 0} ⦃e : Eq Peer⦄ where
  abbrev pub from : Peer → Peer → Bool
  from client provider = provider == client

  provider-unless :
      (c : Peer) (o : Option (ServiceRecord Peer))
      → provider_of (unless (provided_by c) o) ≡ unless (from c) (provider_of o)
  provider-unless c none = refl
  provider-unless c (some r) = ground arith

  drop_services-remove_all :
      (names : List Text) (g : Group Peer)
      → drop_services names g ≡ record g { services = remove_all names g.services }
  unfolding drop_services remove_all
  drop_services-remove_all [] g = refl
  drop_services-remove_all (service ∷ rest) g =
      drop_services-remove_all rest (record g { services = remove service g.services })

  -- Undisturbed, the accesses of `drop_session` come to it.
  drop_session_lem :
      (c : Peer) (g : Group Peer)
      → drop_session c g
        ≡ drop_services (keys_where (provided_by c) g.services) (forget_session c g)
  unfolding drop_session forget_session
  drop_session_lem c g = sym (
      drop_services-remove_all (keys_where (provided_by c) g.services)
        (record g { sessions = remove c g.sessions }))

  -- Dropping a client's session in a group where no service stands twice takes away exactly the
  -- services that the client provides, and its session.
  pub drop_session_exact :
      (c : Peer) (g : Group Peer) (service : Text)
      → IsMap g.services
      → (provider_in (drop_session c g) service ≡ unless (from c) (provider_in g service))
        × ((d : Peer)
            → get d (drop_session c g).sessions ≡ (if c == d then none else get d g.sessions))
  unfolding provider_in drop_session
  drop_session_exact c g service h = (
    rw (get-remove_where (provided_by c) service g.services h)
        (provider-unless c (get service g.services)),
    λ d. get-remove c d g.sessions,
  )

  pub get-with_group :
      (name j : Text) (f : Group Peer → Group Peer) (st : ServerState Peer)
      → get j (with_group name f st).groups
        ≡ (if name == j then Option.map f (get j st.groups) else get j st.groups)
  unfolding with_group
  get-with_group name j f st = elim (Option-cases (get name st.groups)) [
    | inl gone ↦ rw (gone, with_group) (ground (arith, eq_iff name j, gone))
    | inr (g, there) ↦ rw (there, with_group) (rw get-insert (ground (arith, eq_iff name j, there)))
  ]

  -- A change of one group changes no lookup in another.
  pub lookup-with_group :
      (name j service : Text) (f : Group Peer → Group Peer) (st : ServerState Peer) (g : Group Peer)
      → group st name ≡ some g
      → lookup_service (with_group name f st) j service
        ≡ (if name == j then provider_in (f g) service else lookup_service st j service)
  unfolding lookup_service group
  lookup-with_group name j service f st g h =
      ground (arith, eq_iff name j, h, get-with_group name j f st)

  pub lookup-there :
      (name service : Text) (st : ServerState Peer) (g : Group Peer)
      → group st name ≡ some g
      → lookup_service st name service ≡ provider_in g service
  unfolding lookup_service
  lookup-there name service st g h = rw (h, lookup_service)

  unchanged :
      (name : Text) (f : Group Peer → Group Peer) (st : ServerState Peer)
      → group st name ≡ none
      → with_group name f st ≡ st
  unfolding group with_group
  unchanged name f st gone = rw (gone, with_group) refl

  -- A change that leaves the services of a group alone changes no lookup.
  pub lookup_kept :
      (name j service : Text) (f : Group Peer → Group Peer) (st : ServerState Peer)
      → ((g : Group Peer) → provider_in (f g) service ≡ provider_in g service)
      → lookup_service (with_group name f st) j service ≡ lookup_service st j service
  lookup_kept name j service f st keeps = elim (Option-cases (group st name)) [
    | inl gone ↦ ap (λ x. lookup_service x j service) (unchanged name f st gone)
    | inr (g, there) ↦ ground (
      arith,
      lookup-with_group name j service f st g there,
      eq_iff name j,
      lookup-there name service st g there,
      keeps g,
    )
  ]

  provider_in-drop_service :
      (service other : Text) (g : Group Peer)
      → provider_in (drop_service service g) other
        ≡ (if service == other then none else provider_in g other)
  unfolding provider_in drop_service
  provider_in-drop_service service other g = ground (arith, get-remove service other g.services)

  -- A service that is removed from a group has no provider there, and nothing else changes.
  pub lookup-drop_service :
      (name j service other : Text) (st : ServerState Peer)
      → lookup_service (with_group name (drop_service service) st) j other
        ≡ (if name == j && service == other then none else lookup_service st j other)
  unfolding lookup_service group
  lookup-drop_service name j service other st = elim (Option-cases (get name st.groups)) [
    | inl gone ↦
        ground (arith, get-with_group name j (drop_service service) st, eq_iff name j, gone)
    | inr (g, there) ↦ ground (
      arith,
      lookup-with_group name j other (drop_service service) st g there,
      eq_iff name j,
      lookup-there name other st g there,
      provider_in-drop_service service other g,
    )
  ]

  pub register_service_accepts :
      (service : Text) (provider : Peer) (g : Group Peer)
      → length service ≤ 32
      → (p : Option Peer × Group Peer) × (register_service service provider g ≡ ok p)
  unfolding register_service
  register_service_accepts service provider g h = (
    (
      provider_in g service,
      record g { services = insert service (record { provider_id = provider }) g.services },
    ),
    rw (le→ltb-false 32 (length service) h),
  )

  -- After a registration the service is the registrant's, and no other service changes hands; a name of
  -- more than 32 bytes is refused, and any other name is accepted.
  pub register_service_effect :
      (service other : Text) (provider : Peer) (g : Group Peer)
      → (p : Option Peer × Group Peer) → register_service service provider g ≡ ok p
      → (p.0 ≡ provider_in g service)
        × (provider_in p.1 other
            ≡ (if service == other then some provider else provider_in g other))
        × (p.1.sessions ≡ g.sessions)
        × (length service ≤ 32)
  unfolding register_service provider_in
  register_service_effect service other provider g p h =
      ground (arith, get-insert service other (record { provider_id = provider }) g.services)
