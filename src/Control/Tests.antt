-- ===== src/Control/Tests.antt =====
-- A server with two groups and clients that are numbers, and the theorems on it.
use meshly_core.Common.{
  ℕ, ◌≡◌, refl, inr, true, false, none, some, [], ◌∷◌, arith, if◌then◌else◌, ◌==◌, nat_eq, list_eq,
  ok, err, panic, Text, text,
}
use meshly_core.Common.Map.{keys_where, Map, get, unless, IsMap}
use meshly_core.Protocol.{hello, register, Hello, Register, control_error}
use meshly_core.Registry.{
  group, dump_services, with_group, Group, ServerState, provider_in, lookup_service, drop_session,
  authenticate,
}
use meshly_core.Control.{
  handle_hello, handle_frame, first_frame, group, Ambient, serving, received, read_failed, step,
  older_than, sweep_group, sweep_dead_sessions,
}
use meshly_core.Control.Sessions.{Admitted, hello_needed, register_step, leave_step}
use meshly_core.Control.Sweep.{expired_in, sweep_group_exact, sweep_passes_idle_groups}

abbrev office : Group ℕ
office = record {
  name = text "office";
  token = text "t1";
  sessions = (7, record { last_heartbeat = 10 }) ∷ (8, record { last_heartbeat = 95 }) ∷ [];
  services =
      (text "ssh", record { provider_id = 7 }) ∷ (text "web", record { provider_id = 8 }) ∷ [];
}

-- A session that is long dead, and no service.
abbrev idle : Group ℕ
idle = record {
  name = text "idle";
  token = text "t2";
  sessions = (9, record { last_heartbeat = 1 }) ∷ [];
  services = [];
}

abbrev server : ServerState ℕ
server = record {
  groups = (text "office", office) ∷ (text "idle", idle) ∷ [];
  next_stream_id = 1;
  relay_rates = [];
  relay_rate_overrides = [];
  atomics = [];
}

abbrev show : ℕ → Text
show n = n ∷ []

abbrev noon : Ambient
noon = record { now = 100; session_id = 4 }

abbrev ssh_register : Register
ssh_register = record { service = text "ssh" }

services_IsMap : IsMap office.services
unfolding get
services_IsMap = (refl, (refl, tt))

sessions_IsMap : IsMap office.sessions
unfolding get
sessions_IsMap = (refl, (refl, tt))

groups_IsMap : IsMap server.groups
unfolding get
groups_IsMap = (refl, (refl, tt))

second_hello :
    step show noon 8
      (serving (text "office"))
      (received (hello (record { group_token = text "t1"; client_info = [] })) true)
      server
    ≡ (
      server,
      serving (text "office"),
      some (control_error (record { code = 2; reason = text "Hello already received" })),
    )
unfolding step handle_frame
second_hello = refl

abbrev first_hello : Hello
first_hello = record { group_token = text "t1"; client_info = [] }

hello_needed_example :
    Admitted show noon 8 server (text "office") (received (hello first_hello) true)
unfolding step first_frame handle_hello authenticate
hello_needed_example =
    hello_needed show noon 8 (received (hello first_hello) true) server (text "office") refl

register_step_example :
    lookup_service
      (step show noon 8 (serving (text "office")) (received (register ssh_register) false) server).0
      (text "office")
      (text "ssh")
    ≡ some 8
unfolding lookup_service group get
register_step_example =
    register_step show noon 8 (text "office") (text "office") (text "ssh") ssh_register false server
      office refl (ground arith)

leave_step_example :
    lookup_service
      (step show noon 7 (serving (text "office")) read_failed server).0
      (text "office")
      (text "ssh")
    ≡ none
unfolding lookup_service group get provider_in
leave_step_example =
    leave_step show noon 7 (text "office") (text "office") (text "ssh") read_failed server office
      refl services_IsMap (inr refl)

sweep_group_exact_example :
    ((d : ℕ)
      → get d (sweep_group 50 office).sessions ≡ unless (older_than 50) (get d office.sessions))
    × ((service : Text)
        → provider_in (sweep_group 50 office) service
          ≡ unless (expired_in 50 office) (provider_in office service))
sweep_group_exact_example = sweep_group_exact 50 office services_IsMap sessions_IsMap

abbrev swept : ServerState ℕ
swept = record server {
  groups =
      (
        text "office",
        record office {
          sessions = (8, record { last_heartbeat = 95 }) ∷ [];
          services = (text "web", record { provider_id = 8 }) ∷ [];
        },
      )
      ∷ (text "idle", idle)
      ∷ [];
}

sweeps : sweep_dead_sessions 100 50 server ≡ ok swept
unfolding sweep_dead_sessions dump_services with_group get meshly_core.Common.Map.insert
    meshly_core.Common.Map.keys_where drop_session meshly_core.Common.Map.remove
    meshly_core.Common.Map.remove_all
sweeps = refl

sweep_passes_idle_groups_example : get (text "idle") swept.groups ≡ some idle
unfolding get
sweep_passes_idle_groups_example =
    sweep_passes_idle_groups 100 50 (text "idle") idle server swept groups_IsMap refl refl sweeps
