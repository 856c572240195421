-- ===== src/Client/Tests.antt =====
-- A server with one group and two clients of it, and the theorems on them.
use meshly_core.Common.{
  ℕ, ◌-◌, ◌^◌, min, ◌≡◌, refl, true, Option, none, some, List, [], ◌∷◌, arith, nat_eq, list_eq, ok,
  Text, text,
}
use meshly_core.Common.Map.{insert}
use meshly_core.Config.{GroupConfig}
use meshly_core.Registry.{Group, ServerState, new, insert_groups, authenticate, lookup_service}
use meshly_core.Control.{Ambient, awaiting_hello}
use meshly_core.System.{no_drops, Server, Reach, begins}
use meshly_core.Client.{find_provider}
use meshly_core.Client.Status.{live, new_status, consumer_of}
use meshly_core.Client.Status.Counts.{Report, reported, lives, forwarded_counts}
use meshly_core.Client.Discovery.{answer}
use meshly_core.Client.Subscription.{
  provider_or, find_provider-finds, registration, subscription, registered-found,
}

abbrev show : ℕ → Text
show n = n ∷ []

abbrev parse : Text → Option ℕ
parse (n ∷ []) = some n
parse _ = none

prints : (p : ℕ) → parse (show p) ≡ some p
prints p = refl

abbrev noon : Ambient
noon = record { now = 100; session_id = 4 }

abbrev office : GroupConfig
office = record { name = text "office"; group_token = text "t1" }

abbrev group_at_start : Group ℕ
group_at_start = record { name = text "office"; token = text "t1"; sessions = []; services = [] }

abbrev started : ServerState ℕ
started = record {
  groups = (text "office", group_at_start) ∷ [];
  next_stream_id = 1;
  relay_rates = [];
  relay_rate_overrides = [];
  atomics = [];
}

abbrev at_start : Server ℕ
at_start = record { state = started; connections = []; hellos = []; drops = no_drops }

starts : new (office ∷ []) [] ≡ ok started
unfolding new insert_groups insert
starts = refl

Reach-at_start : Reach show (office ∷ []) [] at_start
Reach-at_start = begins started starts

admits_t1 : authenticate started (text "t1") ≡ some group_at_start
unfolding authenticate
admits_t1 = refl

-- Nobody provides the service yet.
find_provider-finds_example :
    (find_provider
      (answer show noon 9)
      parse
      true
      (text "t1")
      []
      (text "ssh")
      (started, awaiting_hello)).0
    ≡ provider_or show (text "ssh") (lookup_service started (text "office") (text "ssh"))
find_provider-finds_example =
    find_provider-finds show parse noon 9 (text "t1") [] (text "ssh") started group_at_start prints
      admits_t1

registered-found_example :
    ((registration show noon 7 (text "t1") [] (text "ssh" ∷ []) (text "web" ∷ []) started).0
      ≡ ok tt)
    × ((subscription show parse noon 9
          (text "t1")
          []
          (text "web")
          (registration show noon 7
            (text "t1")
            []
            (text "ssh" ∷ [])
            (text "web" ∷ [])
            started).1.0).0
        ≡ ok 7)
registered-found_example =
    registered-found show parse (office ∷ []) [] at_start noon noon 7 9 (text "t1") [] []
      (text "web") (text "ssh" ∷ []) (text "web" ∷ []) group_at_start prints Reach-at_start
      admits_t1 (omega arith, (omega arith, tt)) refl

abbrev came_up : Report
came_up = record {
  at = 5;
  consumer = text "ssh";
  state = live;
  mode = some (text "direct");
  error = none;
}

abbrev up_twice : List Report
up_twice = came_up ∷ came_up ∷ []

forwarded_counts_example :
    (consumer_of (text "ssh") (reported up_twice (new_status (text "ssh" ∷ [])))).forwarded_streams
    ≡ min (lives (text "ssh") up_twice) (2 ^ 64 - 1)
forwarded_counts_example = forwarded_counts (text "ssh") (text "ssh" ∷ []) up_twice
