-- ===== src/Config/Validate/Roles.antt =====
-- Which configurations `validate` accepts.
use meshly_core.Common.{
  ◌≡◌, refl, ap, ◌↔◌, ◌⊎◌, inl, inr, Bool, true, false, ◌&&◌, not, Option, [], map, arith,
  if◌then◌else◌, Eq, nat_eq, list_eq, All, Result, ok, ◌>>◌, reject_if, not-false, Text,
}
use meshly_core.Common.Map.{member}
use meshly_core.Common.Checks.{Passes, then_iff, reject_iff, Distinct}
use meshly_core.Config.{
  GroupConfig, RootConfig, ConfigProblem, mixed_roles, no_sections, unknown_level,
}
use meshly_core.Config.Validate.{
  is_empty, levels, overrides_of, validate_groups, validate_server, validate_client,
  has_client_fields, validate,
}
use meshly_core.Config.Validate.Sections.{IsPresent, groups_iff, IsOverrides, IsOverrides-iff}
use meshly_core.Config.Validate.ClientConfig.{IsClientConfig, client_iff}

module _ {Peer : Type 0} ⦃e : Eq Peer⦄ (parse_endpoint_id : Text → Option Peer) where
  pub record IsServerConfig {Addr : Type 0} (cfg : RootConfig Addr) : Type 0 where
    pub group_names : Distinct (map (λ (g : GroupConfig). g.name) cfg.groups)
    pub tokens : All (λ (g : GroupConfig). is_empty g.group_token ≡ false) cfg.groups
    pub overrides : IsOverrides parse_endpoint_id (overrides_of cfg.relay)

  server_iff :
      {Addr : Type 0} (cfg : RootConfig Addr)
      → Passes (validate_server parse_endpoint_id cfg) ↔ IsServerConfig cfg
  unfolding validate_server
  server_iff cfg = (
    λ h.
        let (a, b) = (then_iff (validate_groups [] cfg.groups) _).0 h in
        let (names, tokens) = (groups_iff cfg.groups).0 a in
        record {
          group_names = names;
          tokens = tokens;
          overrides = (IsOverrides-iff parse_endpoint_id (overrides_of cfg.relay)).0 b;
        },
    λ s. (then_iff (validate_groups [] cfg.groups) _).1 (
      (groups_iff cfg.groups).1 (s.group_names, s.tokens),
      (IsOverrides-iff parse_endpoint_id (overrides_of cfg.relay)).1 s.overrides,
    ),
  )

module _ {Peer : Type 0} ⦃e : Eq Peer⦄ (parse_endpoint_id : Text → Option Peer)
    (exists is_dir : Text → Bool) where
  -- A configuration of the one role, without the fields of the other that are looked at.
  pub data IsConfig {Addr : Type 0} (cfg : RootConfig Addr) : Type 0 where
    server :
        is_empty cfg.groups ≡ false
        → has_client_fields cfg ≡ false
        → IsServerConfig parse_endpoint_id cfg
        → IsConfig cfg
    client : is_empty cfg.groups ≡ true → IsClientConfig exists is_dir cfg → IsConfig cfg

module _ {E : Type 0} where
  by_role :
      (has_server has_client : Bool) (s c l : Result E (Unit {0})) (a b : E)
      → Passes (
          reject_if (has_server && has_client) a
          >> (reject_if (not has_server && not has_client) b
              >> ((if has_server then s else c) >> l)))
      → (Passes l × (has_server ≡ true) × (has_client ≡ false) × Passes s)
        ⊎ (Passes l × (has_server ≡ false) × (has_client ≡ true) × Passes c)
  by_role true true s c l a b h = cc h
  by_role true false s c l a b h = let (x, y) = (then_iff s l).0 h in inl (y, refl, refl, x)
  by_role false true s c l a b h = let (x, y) = (then_iff c l).0 h in inr (y, refl, refl, x)
  by_role false false s c l a b h = cc h

  role_by :
      (has_server has_client : Bool) (s c l : Result E (Unit {0})) (a b : E)
      → (Passes l × (has_server ≡ true) × (has_client ≡ false) × Passes s)
        ⊎ (Passes l × (has_server ≡ false) × (has_client ≡ true) × Passes c)
      → Passes (
          reject_if (has_server && has_client) a
          >> (reject_if (not has_server && not has_client) b
              >> ((if has_server then s else c) >> l)))
  role_by has_server has_client s c l a b (inl (y, p, q, x)) = rw (p, q) ((then_iff s l).1 (x, y))
  role_by has_server has_client s c l a b (inr (y, p, q, x)) = rw (p, q) ((then_iff c l).1 (x, y))

node-client :
    {Addr : Type 0} (cfg : RootConfig Addr)
    → IsPresent cfg.server_node_id
    → has_client_fields cfg ≡ true
node-client cfg (s, there, full) = rw there refl

module _ {Peer : Type 0} ⦃e : Eq Peer⦄ (parse_endpoint_id : Text → Option Peer)
    (exists is_dir : Text → Bool) where
  -- A configuration is valid exactly when its log level is one of the five and it is either a server's,
  -- with groups and without a server's node id, exposed or consumed services, or a client's, with no
  -- group; what else the role asks for is in `IsServerConfig` and `IsClientConfig`.
  pub validate_config_iff :
      {Addr : Type 0} (cfg : RootConfig Addr)
      → (validate parse_endpoint_id exists is_dir cfg ≡ ok tt) ↔ (
          (member cfg.common.logging.level levels ≡ true)
          × IsConfig parse_endpoint_id exists is_dir cfg)
  unfolding validate
  validate_config_iff cfg =
      let s = validate_server parse_endpoint_id cfg in
      let c = validate_client exists is_dir cfg in
      let known = member cfg.common.logging.level levels in
      let l = reject_if (not known) (unknown_level cfg.common.logging.level) in
      (
        λ h.
            elim (by_role (not (is_empty cfg.groups)) (has_client_fields cfg) s c l mixed_roles
              no_sections h) [
                | inl (y, p, q, x) ↦ (
                  not-false _
                      ((reject_iff (not known) (unknown_level cfg.common.logging.level)).0 y),
                  server (ground (arith, p)) q ((server_iff parse_endpoint_id cfg).0 x),
                )
                | inr (y, p, q, x) ↦ (
                  not-false _
                      ((reject_iff (not known) (unknown_level cfg.common.logging.level)).0 y),
                  client (not-false _ p) ((client_iff exists is_dir cfg).0 x),
                )
              ],
        λ p.
            role_by (not (is_empty cfg.groups)) (has_client_fields cfg) s c l mixed_roles
              no_sections
              (by_kind l
                ((reject_iff (not known) (unknown_level cfg.common.logging.level)).1
                  (ground (arith, p.0)))
                p.1),
      )
    where
      by_kind :
          (l' : Result ConfigProblem (Unit {0}))
          → Passes l'
          → IsConfig parse_endpoint_id exists is_dir cfg
          → (Passes l'
              × (not (is_empty cfg.groups) ≡ true)
              × (has_client_fields cfg ≡ false)
              × Passes (validate_server parse_endpoint_id cfg))
            ⊎ (Passes l'
                × (not (is_empty cfg.groups) ≡ false)
                × (has_client_fields cfg ≡ true)
                × Passes (validate_client exists is_dir cfg))
      by_kind l' ok_level (server p q x) =
          inl (ok_level, ap not p, q, (server_iff parse_endpoint_id cfg).1 x)
      by_kind l' ok_level (client p x) =
          inr (ok_level, ap not p, node-client cfg x.node, (client_iff exists is_dir cfg).1 x)
