-- ===== src/Config.antt =====
-- crates/common/src/config.rs: the configuration of a server or a client, and its validation. Paths
-- are text; a socket address is a type of the standard library. The wording of a message is left out: a
-- `ConfigProblem` names the message and has the values that it is formatted from.
pub mod Validate
use meshly_core.Common.{
  ℕ, ◌*◌, Bool, true, false, Option, List, [], arith, nat_eq, list_eq, ok, err, panic, Text, text,
}
use meshly_core.Alpn.{AlpnError}

-- The parts of a file that TOML deserialises into.
pub record LoggingConfig : Type 0 where
  pub level : Text

pub record CommonConfig : Type 0 where
  pub identity_path : Option Text
  pub logging : LoggingConfig

pub record GroupConfig : Type 0 where
  pub name : Text
  pub group_token : Text

pub record HeartbeatConfig : Type 0 where
  pub interval_secs : ℕ
  pub timeout_secs : ℕ

pub record RelayRateOverride : Type 0 where
  pub node_id : Text
  pub bytes_per_sec : ℕ

pub record RelayConfig : Type 0 where
  pub enabled : Bool
  pub bytes_per_sec : ℕ
  pub rate_overrides : List RelayRateOverride

pub record ExposeConfig (Addr : Type 0) : Type 0 where
  pub name : Text
  pub local_addr : Addr
  pub shared_secret : Text

pub record StaticConfig : Type 0 where
  pub name : Text
  pub root_dir : Text
  pub allow_directory_listing : Bool
  pub shared_secret : Text

pub record ConsumeConfig (Addr : Type 0) : Type 0 where
  pub name : Text
  pub local_bind : Addr
  pub shared_secret : Text

pub record ReconnectConfig : Type 0 where
  pub initial_backoff_ms : ℕ
  pub max_backoff_ms : ℕ
  pub prefer_direct : Bool

pub record RootConfig (Addr : Type 0) : Type 0 where
  pub common : CommonConfig
  pub groups : List GroupConfig
  pub heartbeat : HeartbeatConfig
  pub relay : Option RelayConfig
  pub server_node_id : Option Text
  pub group_token : Option Text
  pub expose : List (ExposeConfig Addr)
  pub static_services : List StaticConfig
  pub consume : List (ConsumeConfig Addr)
  pub reconnect : ReconnectConfig

-- The `Default` instances.
abbrev pub default_logging : LoggingConfig
default_logging = record { level = text "info" }

abbrev pub default_heartbeat : HeartbeatConfig
default_heartbeat = record { interval_secs = 30; timeout_secs = 90 }

abbrev pub default_relay : RelayConfig
default_relay = record { enabled = false; bytes_per_sec = 100 * 1024; rate_overrides = [] }

abbrev pub default_reconnect : ReconnectConfig
default_reconnect = record { initial_backoff_ms = 50; max_backoff_ms = 5000; prefer_direct = true }

-- Which table of the file a message speaks of.
pub data Table : Type 0 where
  expose_table : Table
  static_table : Table
  consume_table : Table

pub data ConfigProblem : Type 0 where
  mixed_roles : ConfigProblem
  no_sections : ConfigProblem
  unknown_level : Text → ConfigProblem
  duplicate_group : Text → ConfigProblem
  empty_group_token : Text → ConfigProblem
  bad_override_id : ℕ → Text → ConfigProblem
  duplicate_override : ℕ → Text → ConfigProblem
  relay_in_client : ConfigProblem
  missing_server_node_id : ConfigProblem
  empty_server_node_id : ConfigProblem
  missing_group_token : ConfigProblem
  empty_client_token : ConfigProblem
  duplicate_service : Table → Text → ConfigProblem
  published_and_consumed : Text → ConfigProblem
  exposed_and_static : Text → ConfigProblem
  bad_service_name : Table → Text → AlpnError → ConfigProblem
  empty_secret : Table → Text → ConfigProblem
  no_root_dir : Text → Text → ConfigProblem
  root_not_directory : Text → Text → ConfigProblem
  bad_alpn : Table → Text → AlpnError → ConfigProblem

pub data ConfigError : Type 0 where
  io : Text → ConfigError
  parse : ConfigError
  validation : ConfigProblem → ConfigError
