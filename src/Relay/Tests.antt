-- ===== src/Relay/Tests.antt =====
-- The relay on a server with two groups and consumers that are numbers.
use meshly_core.Common.{
  ℕ, ◌≡◌, refl, ◌↔◌, true, Option, none, some, List, [], ◌∷◌, arith, nat_eq, list_eq, ok, err, Text,
  text,
}
use meshly_core.Common.Map.{get, insert}
use meshly_core.Config.{GroupConfig}
use meshly_core.Protocol.{data_open, DataOpen}
use meshly_core.Registry.{Group, ServerState, update_relay_rate, new}
use meshly_core.Relay.{refused, spawned, accept_stream, start_relay, finish_relay}
use meshly_core.Relay.Accept.{Relayed, accept_stream_iff}
use meshly_core.Relay.Rates.{IsRates, rate_of, update_relay_rate-rate_of, relay_leaves_no_rate}
use meshly_core.Relay.Reached.{started, fresh, Reached-IsRates}

abbrev holder : Text → ℕ → Group ℕ
holder name provider = record {
  name = name;
  token = name;
  sessions = [];
  services = (text "ssh", record { provider_id = provider }) ∷ [];
}

-- One stream in flight, with id 1 and the handle 1; the handle 0 is the default rate.
abbrev server : ServerState ℕ
server = record {
  groups = (text "a", holder (text "a") 7) ∷ (text "b", holder (text "b") 8) ∷ [];
  next_stream_id = 2;
  relay_rates = (1, 1) ∷ [];
  relay_rate_overrides = (5, 10) ∷ [];
  atomics = 1000 ∷ 2000 ∷ [];
}

-- An id is a text of one number.
abbrev parse_one : Text → Option ℕ
parse_one [] = none
parse_one (n ∷ ns) = some n

abbrev open_to : ℕ → ℕ → DataOpen
open_to provider consumer = record {
  target_service = text "ssh";
  target_provider = provider ∷ [];
  consumer_node_id = consumer ∷ [];
  proof = [];
}

overridden :
    accept_stream parse_one (some 0) 5 server (some (data_open (open_to 7 5)))
    ≡ spawned (some 10) 7 (text "ssh")
unfolding accept_stream get
overridden = refl

-- The second group's provider of the same service is out of reach.
second_group : accept_stream parse_one (some 0) 5 server (some (data_open (open_to 8 5))) ≡ refused
unfolding accept_stream
second_group = refl

accept_stream_iff_example :
    (accept_stream parse_one (some 0) 5 server (some (data_open (open_to 7 5)))
      ≡ spawned (some 10) 7 (text "ssh"))
    ↔ Relayed parse_one (some 0) 5 server (some (data_open (open_to 7 5))) (some 10) 7 (text "ssh")
accept_stream_iff_example =
    accept_stream_iff parse_one (some 0) 5 server (some (data_open (open_to 7 5))) (some 10) 7
      (text "ssh")

server-IsRates : IsRates server
unfolding get
server-IsRates = record {
  given = λ i h there. ground arith;
  stored = λ i h there. ground arith;
  own = λ i j h here there. ground arith;
}

update_relay_rate-rate_of_example : rate_of (update_relay_rate 1 3000 server).1 1 ≡ some 3000
unfolding get
update_relay_rate-rate_of_example = update_relay_rate-rate_of 1 1 3000 1 server server-IsRates refl

relay_leaves_no_rate_example :
    get 2
      (finish_relay {E = Unit {0}} 2
        (err tt)
        (start_relay (some 10) (text "ssh") true true server).1).1.relay_rates
    ≡ get 2 server.relay_rates
unfolding start_relay
relay_leaves_no_rate_example =
    relay_leaves_no_rate (some 10) (text "ssh") true true server 2 2 (some 2) (err tt)
      server-IsRates (λ p. cc p) refl

abbrev one_group : List GroupConfig
one_group = record { name = text "a"; group_token = text "t" } ∷ []

abbrev first_server : ServerState ℕ
first_server = record {
  groups =
      (text "a", record { name = text "a"; token = text "t"; sessions = []; services = [] }) ∷ [];
  next_stream_id = 1;
  relay_rates = [];
  relay_rate_overrides = [];
  atomics = [];
}

starts_empty : new one_group [] ≡ ok first_server
unfolding new insert
starts_empty = refl

Reached-IsRates_example : IsRates (start_relay (some 10) (text "ssh") true true first_server).1
Reached-IsRates_example =
    Reached-IsRates (start_relay (some 10) (text "ssh") true true first_server).1
      (started (some 10) (text "ssh") true true (omega arith) (fresh one_group [] starts_empty))
