-- ===== src/Config/Validate/Tests.antt =====
-- Configurations of a client and a server, and the theorem on them.
use meshly_core.Common.{
  ℕ, ◌≡◌, refl, ◌↔◌, Bool, true, false, Option, none, some, [], ◌∷◌, nat_eq, list_eq, ok, err, Text,
  text,
}
use meshly_core.Common.Map.{member}
use meshly_core.Config.{
  RootConfig, default_logging, default_heartbeat, default_relay, default_reconnect,
  published_and_consumed,
}
use meshly_core.Config.Validate.{validate, levels}
use meshly_core.Config.Validate.Roles.{IsConfig, validate_config_iff}

-- Addresses are numbers, ids are whole texts, and every path is a directory.
abbrev any_id : Text → Option Text
any_id t = some t

abbrev everywhere : Text → Bool
everywhere path = true

abbrev client_config : RootConfig ℕ
client_config = record {
  common = record { identity_path = none; logging = default_logging };
  groups = [];
  heartbeat = default_heartbeat;
  relay = none;
  server_node_id = some (text "node");
  group_token = some (text "token");
  expose = record { name = text "ssh"; local_addr = 22; shared_secret = text "s" } ∷ [];
  static_services =
      record {
        name = text "web";
        root_dir = text "/srv";
        allow_directory_listing = false;
        shared_secret = text "s";
      }
      ∷ [];
  consume = record { name = text "db"; local_bind = 5432; shared_secret = text "s" } ∷ [];
  reconnect = default_reconnect;
}

client_valid : validate any_id everywhere everywhere client_config ≡ ok tt
unfolding validate meshly_core.Alpn.validate_service_name meshly_core.Alpn.alpn_for_service
client_valid = refl

-- What is consumed may not be exposed as well.
abbrev looping_config : RootConfig ℕ
looping_config = record client_config {
  consume = record { name = text "ssh"; local_bind = 22; shared_secret = text "s" } ∷ [];
}

looping_refused :
    validate any_id everywhere everywhere looping_config ≡ err (published_and_consumed (text "ssh"))
unfolding validate
looping_refused = refl

abbrev server_config : RootConfig ℕ
server_config = record client_config {
  groups = record { name = text "a"; group_token = text "t" } ∷ [];
  relay = some default_relay;
  server_node_id = none;
  expose = [];
  consume = [];
}

-- A server's configuration may hold `[[static]]` entries: the role check does not look at them.
static_on_server : validate any_id everywhere everywhere server_config ≡ ok tt
unfolding validate
static_on_server = refl

validate_config_iff_example : (validate any_id everywhere everywhere client_config ≡ ok tt) ↔ (
    (member client_config.common.logging.level levels ≡ true)
    × IsConfig any_id everywhere everywhere client_config)
validate_config_iff_example = validate_config_iff any_id everywhere everywhere client_config
