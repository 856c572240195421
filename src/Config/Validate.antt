-- ===== src/Config/Validate.antt =====
-- `RootConfig::validate` and what it calls. `parse_endpoint_id` rests on iroh's parsers, and `exists`
-- and `is_dir` on the file system: they are parameters.
pub mod Sections
pub mod ClientConfig
pub mod Roles
mod Tests
use meshly_core.Common.{
  ℕ, suc, Bool, true, false, ◌&&◌, ◌||◌, not, Option, none, some, List, [], ◌∷◌, map, arith,
  if◌then◌else◌, Eq, nat_eq, list_eq, Result, ok, err, panic, ◌>>=◌, ◌>>◌, reject_if, ok_or,
  map_err, Text, text,
}
use meshly_core.Common.Map.{member}
use meshly_core.Common.Checks.{each, unique}
use meshly_core.Alpn.{validate_service_name, alpn_for_service}
use meshly_core.Config.{
  LoggingConfig, CommonConfig, GroupConfig, RelayRateOverride, RelayConfig, ExposeConfig,
  StaticConfig, ConsumeConfig, RootConfig, Table, expose_table, static_table, consume_table,
  ConfigProblem, mixed_roles, no_sections, unknown_level, duplicate_group, empty_group_token,
  bad_override_id, duplicate_override, relay_in_client, missing_server_node_id,
  empty_server_node_id, missing_group_token, empty_client_token, duplicate_service,
  published_and_consumed, exposed_and_static, bad_service_name, empty_secret, no_root_dir,
  root_not_directory, bad_alpn, ConfigError, io, parse, validation,
}

abbrev pub Checked : Type 0
Checked = Result ConfigProblem (Unit {0})

abbrev pub is_empty : {A : Type 0} → List A → Bool
is_empty [] = true
is_empty (x ∷ xs) = false

abbrev pub is_some : {A : Type 0} → Option A → Bool
is_some none = false
is_some (some a) = true

abbrev pub levels : List Text
levels = text "trace" ∷ text "debug" ∷ text "info" ∷ text "warn" ∷ text "error" ∷ []

-- What the checks of an `[[expose]]`, `[[static]]` and `[[consume]]` entry have in common.
abbrev pub check_name : Table → Text → Checked
check_name table name = map_err (bad_service_name table name) (validate_service_name name)

abbrev pub check_alpn : Table → Text → Checked
check_alpn table name = map_err (bad_alpn table name) (alpn_for_service name) >>= λ alpn. ok tt

abbrev pub present : Option Text → ConfigProblem → ConfigProblem → Checked
present o missing empty = ok_or o missing >>= λ s. reject_if (is_empty s) empty

unfoldable pub validate_groups : List Text → List GroupConfig → Checked
validate_groups seen [] = ok tt
validate_groups seen (g ∷ gs) =
    reject_if (member g.name seen) (duplicate_group g.name)
    >> (reject_if (is_empty g.group_token) (empty_group_token g.name)
        >> validate_groups (g.name ∷ seen) gs)

abbrev pub overrides_of : Option RelayConfig → List RelayRateOverride
overrides_of none = []
overrides_of (some r) = r.rate_overrides

module _ {Peer : Type 0} ⦃e : Eq Peer⦄ (parse_endpoint_id : Text → Option Peer) where
  unfoldable pub validate_overrides : ℕ → List Peer → List RelayRateOverride → Checked
  validate_overrides idx seen_ids [] = ok tt
  validate_overrides idx seen_ids (ov ∷ ovs) =
      ok_or (parse_endpoint_id ov.node_id) (bad_override_id idx ov.node_id) >>= λ id.
      reject_if (member id seen_ids) (duplicate_override idx ov.node_id)
      >> validate_overrides (suc idx) (id ∷ seen_ids) ovs

  unfoldable pub validate_server : {Addr : Type 0} → RootConfig Addr → Checked
  unfolding validate_groups validate_overrides
  validate_server cfg =
      validate_groups [] cfg.groups >> validate_overrides 0 [] (overrides_of cfg.relay)

abbrev pub has_client_fields : {Addr : Type 0} → RootConfig Addr → Bool
has_client_fields cfg =
    is_some cfg.server_node_id || not (is_empty cfg.expose) || not (is_empty cfg.consume)

module _ {Addr : Type 0} where
  abbrev pub exposed : RootConfig Addr → List Text
  exposed cfg = map (λ (x : ExposeConfig Addr). x.name) cfg.expose

  abbrev pub consumed : RootConfig Addr → List Text
  consumed cfg = map (λ (x : ConsumeConfig Addr). x.name) cfg.consume

  abbrev pub static_names : RootConfig Addr → List Text
  static_names cfg = map (λ (x : StaticConfig). x.name) cfg.static_services

  abbrev pub check_expose : ExposeConfig Addr → Checked
  check_expose x =
      check_name expose_table x.name
      >> (reject_if (is_empty x.shared_secret) (empty_secret expose_table x.name)
          >> check_alpn expose_table x.name)

  abbrev pub check_consume : ConsumeConfig Addr → Checked
  check_consume c =
      check_name consume_table c.name
      >> (reject_if (is_empty c.shared_secret) (empty_secret consume_table c.name)
          >> check_alpn consume_table c.name)

module _ (exists is_dir : Text → Bool) where
  abbrev pub check_static : StaticConfig → Checked
  check_static s =
      check_name static_table s.name
      >> (reject_if (is_empty s.shared_secret) (empty_secret static_table s.name)
          >> (reject_if (not (exists s.root_dir)) (no_root_dir s.name s.root_dir)
              >> (reject_if (not (is_dir s.root_dir)) (root_not_directory s.name s.root_dir)
                  >> check_alpn static_table s.name)))

  unfoldable pub validate_client : {Addr : Type 0} → RootConfig Addr → Checked
  validate_client {Addr = Addr} cfg =
      reject_if (is_some cfg.relay) relay_in_client
      >> (present cfg.server_node_id missing_server_node_id empty_server_node_id
          >> (present cfg.group_token missing_group_token empty_client_token
              >> (unique (λ (x : ExposeConfig Addr). x.name)
                    (λ x. duplicate_service expose_table x.name) [] cfg.expose
                  >> (unique (λ (x : ConsumeConfig Addr). x.name)
                        (λ x. duplicate_service consume_table x.name) [] cfg.consume
                      >> (unique (λ (x : StaticConfig). x.name)
                            (λ x. duplicate_service static_table x.name) [] cfg.static_services
                          >> (each
                                (λ (c : ConsumeConfig Addr).
                                  reject_if
                                    (member c.name (exposed cfg)
                                      || member c.name (static_names cfg))
                                    (published_and_consumed c.name))
                                cfg.consume
                              >> (each
                                    (λ (x : ExposeConfig Addr).
                                      reject_if (member x.name (static_names cfg))
                                        (exposed_and_static x.name))
                                    cfg.expose
                                  >> (each check_expose cfg.expose
                                      >> (each check_static cfg.static_services
                                          >> each check_consume cfg.consume)))))))))

module _ {Peer : Type 0} ⦃e : Eq Peer⦄ (parse_endpoint_id : Text → Option Peer)
    (exists is_dir : Text → Bool) where
  unfoldable pub validate : {Addr : Type 0} → RootConfig Addr → Checked
  unfolding validate_server validate_client
  validate cfg =
      let has_server_fields = not (is_empty cfg.groups) in
      let role =
        if has_server_fields
        then validate_server parse_endpoint_id cfg
        else validate_client exists is_dir cfg in
      reject_if (has_server_fields && has_client_fields cfg) mixed_roles
      >> (reject_if (not has_server_fields && not (has_client_fields cfg)) no_sections
          >> (role
              >> reject_if (not (member cfg.common.logging.level levels))
                  (unknown_level cfg.common.logging.level)))

  -- `read_to_string` and `toml::from_str` are the first two arguments.
  unfoldable pub load :
      {Addr : Type 0}
      → (Text → Option Text)
      → (Text → Option (RootConfig Addr))
      → Text
      → Result ConfigError (RootConfig Addr)
  unfolding validate
  load read_to_string from_str path = ok_or (read_to_string path) (io path) >>= λ contents.
      ok_or (from_str contents) parse >>= λ cfg.
      map_err validation (validate cfg) >>= λ done. ok cfg

  unfoldable pub is_server : {Addr : Type 0} → RootConfig Addr → Bool
  is_server cfg = not (is_empty cfg.groups)
