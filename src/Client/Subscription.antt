-- ===== src/Client/Subscription.antt =====
-- What a subscription finds on the server, and that it finds what another client has registered.
use mathlib.Core.Option
use meshly_core.Common.{
  ℕ, ◌≤◌, ◌≡◌, refl, sym, ap, ◌∙◌, inl, inr, true, ◌&&◌, Option, none, some, List, ◌++◌,
  if◌then◌else◌, Option-cases, Eq, ◌==◌, beq_self, nat_eq, list_eq, length, All, Result, ok, err,
  ok_or, Text,
}
use meshly_core.Common.Map.{get, member}
use meshly_core.Config.{GroupConfig}
use meshly_core.Registry.{
  Group, ServerState, authenticate, group, lookup_service, touch_session, with_group,
}
use meshly_core.Control.{
  Phase, awaiting_hello, serving, Ambient, handle_subscribe, handle_frame, step,
}
use meshly_core.System.{Server, Reach}
use meshly_core.System.Invariant.{Reach-IsServer}
use meshly_core.System.Sessions.{registered_under}
use meshly_core.System.Directory.Refines.{touched}
use meshly_core.Client.{
  ClientError, invalid_provider, no_provider, Talk, and_then, register_with_server, ask_provider,
  find_provider,
}
use meshly_core.Client.Admits.{admits, admits_found}
use meshly_core.Client.Discovery.{answer, say_hello_lem, registers_each}

module _ {Peer : Type 0} ⦃e : Eq Peer⦄ (show : Peer → Text) where
  -- The error of a client that asks for a service that nobody provides.
  abbrev pub provider_or : Text → Option Peer → Result ClientError Peer
  provider_or service none = err (no_provider service)
  provider_or service (some p) = ok p

  asked :
      (parse : Text → Option Peer) (a : Ambient) (remote : Peer) (gname service : Text)
      (st : ServerState Peer)
      → ((p : Peer) → parse (show p) ≡ some p)
      → (and_then
          (ask_provider (answer show a remote) service (st, serving gname))
          (λ id s. (ok_or (parse id) (invalid_provider id), s))).0
        ≡ provider_or service (lookup_service st gname service)
  unfolding ask_provider step handle_frame handle_subscribe
  asked parse a remote gname service st prints =
      elim (Option-cases (lookup_service st gname service)) [
        | inl gone ↦ rw gone refl
        | inr (p, there) ↦ rw (there) (rw (prints p) refl)
      ]

  -- A subscription with a token of the server gives exactly who the server's directory has for the
  -- service in the group of that token, and an error that names the service where there is nobody,
  -- given that a printed id parses to itself.
  pub find_provider-finds :
      (parse : Text → Option Peer) (a : Ambient) (remote : Peer) (token info service : Text)
      (st : ServerState Peer) (g : Group Peer)
      → ((p : Peer) → parse (show p) ≡ some p)
      → authenticate st token ≡ some g
      → (find_provider (answer show a remote) parse true token info service (st, awaiting_hello)).0
        ≡ provider_or service (lookup_service st g.name service)
  unfolding find_provider
  find_provider-finds parse a remote token info service st g prints found =
      rw (say_hello_lem show a remote token info st g found) (
        asked parse a remote g.name service (with_group g.name (touch_session remote a.now) st)
          prints
        ∙ ap (provider_or service) (touched g.name g.name service remote a.now st))

  admitted_under :
      (st : ServerState Peer) (token name : Text)
      → admits st token ≡ some name
      → (g : Group Peer) × (authenticate st token ≡ some g) × (g.name ≡ name)
  admitted_under st token name h = elim (Option-cases (authenticate st token)) [
    | inl gone ↦ absurd (nothing (sym (rw gone at (admits_found st token)) ∙ h))
    | inr (g, found) ↦
        (g, found, the_name g.name name (sym (rw found at (admits_found st token)) ∙ h))
  ]
    where
      nothing : ◌≡◌ {A = Option Text} none (some name) → ⊥
      nothing q = cc q

      the_name : (x y : Text) → some x ≡ some y → x ≡ y
      the_name x y q = cc q

  here :
      (groups : List GroupConfig) (overrides : List (Peer × ℕ)) (s : Server Peer) (token : Text)
      (g : Group Peer)
      → Reach show groups overrides s
      → authenticate s.state token ≡ some g
      → group s.state g.name ≡ some g
  unfolding group
  here groups overrides s token g r found =
      let good = (Reach-IsServer show groups overrides s r).state in
      let (name, there) = registered_under s.state token g good.groups_once found in
      ap (λ k. get k s.state.groups) ((good.each_group name g there).named) ∙ there

  -- A registration over a new control connection.
  abbrev pub registration :
      Ambient
      → Peer
      → Text
      → Text
      → List Text
      → List Text
      → ServerState Peer
      → Talk (ServerState Peer × Phase) (Unit {0})
  registration a provider token info services statics st =
      register_with_server (answer show a provider) true token info services statics
        (st, awaiting_hello)

  -- And a subscription.
  abbrev pub subscription :
      (Text → Option Peer)
      → Ambient
      → Peer
      → Text
      → Text
      → Text
      → ServerState Peer
      → Talk (ServerState Peer × Phase) Peer
  subscription parse a consumer token info service st =
      find_provider (answer show a consumer) parse true token info service (st, awaiting_hello)

  -- At any reachable server, a client whose token is one of the server's and whose services have names
  -- of at most 32 bytes registers all of them, and then any client with the same token that
  -- subscribes to one of them finds the first client as its provider, given that a printed id
  -- parses to itself.
  pub registered-found :
      (parse : Text → Option Peer) (groups : List GroupConfig) (overrides : List (Peer × ℕ))
      (s : Server Peer) (a b : Ambient) (provider consumer : Peer) (token info info' service : Text)
      (services statics : List Text) (g : Group Peer)
      → ((p : Peer) → parse (show p) ≡ some p)
      → Reach show groups overrides s
      → authenticate s.state token ≡ some g
      → All (λ name. length name ≤ 32) (services ++ statics)
      → member service (services ++ statics) ≡ true
      → ((registration a provider token info services statics s.state).0 ≡ ok tt)
        × ((subscription parse b consumer token info' service
              (registration a provider token info services statics s.state).1.0).0
            ≡ ok provider)
  registered-found parse groups overrides s a b provider consumer token info info' service services
        statics g prints r found short among =
      let all =
        registers_each show a provider token info services statics s.state g found
          (here groups overrides s token g r found) short in
      let after = (registration a provider token info services statics s.state).1.0 in
      let (g', found', same) = admitted_under after token g.name (
        all.admitted token
        ∙ admits_found s.state token
        ∙ ap (Option.map (λ (x : Group Peer). x.name)) found) in
      (
        all.accepted,
        find_provider-finds parse b consumer token info' service after g' prints found'
            ∙ ap (provider_or service) (registered_now after g' all.found same among),
      )
    where
      registered_now :
          (st' : ServerState Peer) (g' : Group Peer)
          → ((j x : Text)
              → lookup_service st' j x ≡ (
                  if g.name == j && member x (services ++ statics)
                  then some provider
                  else lookup_service s.state j x))
          → g'.name ≡ g.name
          → member service (services ++ statics) ≡ true
          → lookup_service st' g'.name service ≡ some provider
      registered_now st' g' seen same among =
          seen g'.name service ∙ rw (same, beq_self g.name, among) refl
