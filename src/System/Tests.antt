-- ===== src/System/Tests.antt =====
-- A server with one group, a peer that connects, says hello and registers, and the theorems on it.
use meshly_core.Common.{
  ℕ, ◌≤◌, ◌≡◌, refl, true, none, some, [], ◌∷◌, ◌++◌, nat_eq, list_eq, length, get_elem?, set, ok,
  Text, text,
}
use meshly_core.Common.Map.{get, insert, remove}
use meshly_core.Config.{GroupConfig}
use meshly_core.Protocol.{hello, register}
use meshly_core.Registry.{
  Group, ServerState, insert_groups, new, lookup_service, authenticate, group, provider_in,
  register_service, touch_session, forget_session, drop_service, with_group,
}
use meshly_core.Control.{
  Event, closed, awaiting_hello, serving, received, Ambient, step, first_frame, handle_hello,
  handle_frame, handle_register, answer_register,
}
use meshly_core.System.{
  no_drops, Connection, Server, connects, happens, leaves, forgets, collects, removes, run_event,
  Reach, begins, goes,
}
use meshly_core.System.Invariant.{providers_spoke}
use meshly_core.System.Groups.{heard}
use meshly_core.System.Directory.{directory, effect}
use meshly_core.System.Directory.Refines.{Step-refines}

abbrev show : ℕ → Text
show n = n ∷ []

abbrev noon : Ambient
noon = record { now = 100; session_id = 4 }

abbrev office : GroupConfig
office = record { name = text "office"; group_token = text "t1" }

abbrev started : ServerState ℕ
started = record {
  groups =
      (
        text "office",
        record { name = text "office"; token = text "t1"; sessions = []; services = [] },
      )
      ∷ [];
  next_stream_id = 1;
  relay_rates = [];
  relay_rate_overrides = [];
  atomics = [];
}

abbrev at_start : Server ℕ
at_start = record { state = started; connections = []; hellos = []; drops = no_drops }

abbrev waiting : Connection ℕ
waiting = record { remote = 7; phase = awaiting_hello }

abbrev connected : Server ℕ
connected = record { state = started; connections = waiting ∷ []; hellos = []; drops = no_drops }

abbrev says_hello : Event
says_hello = received (hello (record { group_token = text "t1"; client_info = [] })) true

abbrev admitted : Server ℕ
admitted = run_event show noon 0 waiting says_hello connected

abbrev in_office : Connection ℕ
in_office = record { remote = 7; phase = serving (text "office") }

abbrev registers : Event
registers = received (register (record { service = text "ssh" })) true

abbrev registered : Server ℕ
registered = run_event show noon 0 in_office registers admitted

starts : new (office ∷ []) [] ≡ ok started
unfolding new insert_groups insert
starts = refl

Reach-admitted : Reach show (office ∷ []) [] admitted
Reach-admitted =
    goes (goes (begins started starts) (connects 7 at_start))
      (happens noon 0 waiting says_hello connected refl)

serves : get_elem? admitted.connections 0 ≡ some in_office
unfolding run_event step first_frame handle_hello authenticate with_group touch_session
serves = refl

Reach-registered : Reach show (office ∷ []) [] registered
Reach-registered = goes Reach-admitted (happens noon 0 in_office registers admitted serves)

provides : lookup_service registered.state (text "office") (text "ssh") ≡ some 7
unfolding run_event step first_frame handle_hello authenticate with_group touch_session handle_frame
    handle_register answer_register group register_service lookup_service provider_in get insert
provides = refl

-- The peer leaves and its service is collected; then another peer registers that name, and the removal that
-- was due takes it from the newcomer.
abbrev left_office : Server ℕ
left_office = record registered {
  connections = set registered.connections 0 (record in_office { phase = closed });
  drops = record registered.drops { due = (text "office", 7) ∷ [] };
}

abbrev forgotten : Server ℕ
forgotten = record left_office {
  state = with_group (text "office") (forget_session 7) left_office.state;
  drops = record left_office.drops { collecting = (text "office", 7) ∷ [] };
}

abbrev collected : Server ℕ
collected = record forgotten {
  drops = record forgotten.drops { removing = (text "office", text "ssh") ∷ [] };
}

abbrev newcomer : Connection ℕ
newcomer = record { remote = 9; phase = awaiting_hello }

abbrev joined : Server ℕ
joined = record collected { connections = collected.connections ++ (newcomer ∷ []) }

abbrev welcomed : Server ℕ
welcomed = run_event show noon 1 newcomer says_hello joined

abbrev newcomer_in_office : Connection ℕ
newcomer_in_office = record { remote = 9; phase = serving (text "office") }

abbrev taken_over : Server ℕ
taken_over = run_event show noon 1 newcomer_in_office registers welcomed

abbrev robbed : Server ℕ
robbed = record taken_over {
  state = with_group (text "office") (drop_service (text "ssh")) taken_over.state;
}

race :
    (get_elem? registered.connections 0 ≡ some in_office)
    × (lookup_service forgotten.state (text "office") (text "ssh") ≡ some 7)
    × (get_elem? joined.connections 1 ≡ some newcomer)
    × (get_elem? welcomed.connections 1 ≡ some newcomer_in_office)
    × (lookup_service taken_over.state (text "office") (text "ssh") ≡ some 9)
    × (lookup_service robbed.state (text "office") (text "ssh") ≡ none)
unfolding run_event step first_frame handle_hello authenticate with_group touch_session handle_frame
    handle_register answer_register group register_service lookup_service provider_in get insert
    forget_session drop_service remove
race = (refl, refl, refl, refl, refl, refl)

Reach-robbed : Reach show (office ∷ []) [] robbed
unfolding run_event
Reach-robbed =
    let r1 = goes Reach-registered (leaves 0 in_office (text "office") registered race.0 refl) in
    let r2 = goes r1 (forgets 0 (text "office") 7 left_office refl) in
    let r3 = goes r2 (collects 0 (text "office") (text "ssh") 7 forgotten refl race.1) in
    let r4 = goes r3 (connects 9 collected) in
    let r5 = goes r4 (happens noon 1 newcomer says_hello joined race.2) in
    let r6 = goes r5 (happens noon 1 newcomer_in_office registers welcomed race.3) in
    goes r6 (removes 0 (text "office") (text "ssh") taken_over refl)

providers_spoke_example :
    (g : Group ℕ) × (group registered.state (text "office") ≡ some g)
    × (heard 7 g.token registered.hellos ≡ true)
    × (length (text "ssh") ≤ 32)
providers_spoke_example =
    providers_spoke show (office ∷ []) [] registered (text "office") (text "ssh") 7 Reach-registered
      provides

Step-refines_example :
    directory registered.state (text "office") (text "ssh")
    ≡ effect show admitted registered
        (happens noon 0 in_office registers admitted serves)
        (directory admitted.state)
        (text "office")
        (text "ssh")
Step-refines_example =
    Step-refines show (office ∷ []) [] admitted registered
      (happens noon 0 in_office registers admitted serves) (text "office") (text "ssh")
      Reach-admitted
