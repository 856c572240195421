-- ===== src/Config/Validate/ClientConfig.antt =====
-- What `validate_client` accepts.
use meshly_core.Common.{
  ◌≡◌, ◌↔◌, Bool, true, false, ◌||◌, List, nat_eq, list_eq, All, Result, ◌>>◌, Text,
}
use meshly_core.Common.Map.{member}
use meshly_core.Common.Checks.{
  Passes, then_iff, reject_iff, each, each_iff, All-map, Distinct, unique_iff,
}
use meshly_core.Alpn.Grammar.{IsServiceName}
use meshly_core.Config.{
  ExposeConfig, StaticConfig, ConsumeConfig, RootConfig, relay_in_client, missing_server_node_id,
  empty_server_node_id, missing_group_token, empty_client_token, duplicate_service,
  published_and_consumed, exposed_and_static, expose_table, static_table, consume_table,
  empty_secret, no_root_dir, root_not_directory,
}
use meshly_core.Config.Validate.{
  is_empty, is_some, exposed, consumed, static_names, validate_client, check_expose, check_static,
  check_consume,
}
use meshly_core.Config.Validate.Sections.{IsPresent, present_iff, entry_iff, guarded_entry_iff}

-- A service's name and secret are fit.
abbrev pub IsEntry : Text → Text → Type 0
IsEntry name secret = IsServiceName name × (is_empty secret ≡ false)

module _ (exists is_dir : Text → Bool) where
  -- A client may not consume what it publishes, nor publish a name twice.
  pub record IsClientConfig {Addr : Type 0} (cfg : RootConfig Addr) : Type 0 where
    pub no_relay : is_some cfg.relay ≡ false
    pub node : IsPresent cfg.server_node_id
    pub token : IsPresent cfg.group_token
    pub expose_names : Distinct (exposed cfg)
    pub consume_names : Distinct (consumed cfg)
    pub static_distinct : Distinct (static_names cfg)
    pub not_published :
        All
          (λ (c : ConsumeConfig Addr).
            (member c.name (exposed cfg) || member c.name (static_names cfg)) ≡ false)
          cfg.consume
    pub not_static :
        All (λ (x : ExposeConfig Addr). member x.name (static_names cfg) ≡ false) cfg.expose
    pub exposes : All (λ (x : ExposeConfig Addr). IsEntry x.name x.shared_secret) cfg.expose
    pub statics :
        All
          (λ (s : StaticConfig).
            IsEntry s.name s.shared_secret
            × (exists s.root_dir ≡ true)
            × (is_dir s.root_dir ≡ true))
          cfg.static_services
    pub consumes : All (λ (c : ConsumeConfig Addr). IsEntry c.name c.shared_secret) cfg.consume

module _ {E A : Type 0} where
  -- A loop whose body passes exactly where a property holds.
  each_exactly :
      (f : A → Result E (Unit {0})) (P : A → Type 0) (xs : List A)
      → ((x : A) → Passes (f x) ↔ P x)
      → Passes (each f xs) ↔ All P xs
  each_exactly f P xs fits = (
    λ h. All-map xs (λ x. (fits x).0) ((each_iff f xs).0 h),
    λ p. (each_iff f xs).1 (All-map xs (λ x. (fits x).1) p),
  )

module _ {E : Type 0} {P Q : Type 0} where
  chain_iff : (m k : Result E (Unit {0})) → Passes m ↔ P → Passes k ↔ Q → Passes (m >> k) ↔ (P × Q)
  chain_iff m k f g = (
    λ h. let (a, b) = (then_iff m k).0 h in (f.0 a, g.0 b),
    λ p. (then_iff m k).1 (f.1 p.0, g.1 p.1),
  )

module _ {Addr : Type 0} where
  exposes_iff :
      (xs : List (ExposeConfig Addr))
      → Passes (each check_expose xs)
        ↔ All (λ (x : ExposeConfig Addr). IsEntry x.name x.shared_secret) xs
  exposes_iff xs =
      each_exactly check_expose (λ (x : ExposeConfig Addr). IsEntry x.name x.shared_secret) xs
        (λ x. entry_iff expose_table x.name x.shared_secret (empty_secret expose_table x.name))

  consumes_iff :
      (xs : List (ConsumeConfig Addr))
      → Passes (each check_consume xs)
        ↔ All (λ (c : ConsumeConfig Addr). IsEntry c.name c.shared_secret) xs
  consumes_iff xs =
      each_exactly check_consume (λ (c : ConsumeConfig Addr). IsEntry c.name c.shared_secret) xs
        (λ c. entry_iff consume_table c.name c.shared_secret (empty_secret consume_table c.name))

module _ (exists is_dir : Text → Bool) where
  abbrev IsStatic : StaticConfig → Type 0
  IsStatic s =
      IsEntry s.name s.shared_secret × (exists s.root_dir ≡ true) × (is_dir s.root_dir ≡ true)

  statics_iff :
      (xs : List StaticConfig) → Passes (each (check_static exists is_dir) xs) ↔ All IsStatic xs
  statics_iff xs = each_exactly (check_static exists is_dir) IsStatic xs (λ s.
      guarded_entry_iff static_table s.name s.shared_secret (empty_secret static_table s.name)
        (no_root_dir s.name s.root_dir) (root_not_directory s.name s.root_dir) (exists s.root_dir)
        (is_dir s.root_dir))

module _ (exists is_dir : Text → Bool) where
  client_parts_iff :
      {Addr : Type 0} (cfg : RootConfig Addr)
      → Passes (validate_client exists is_dir cfg) ↔ (
          (is_some cfg.relay ≡ false)
          × (IsPresent cfg.server_node_id
              × (IsPresent cfg.group_token
                  × (Distinct (exposed cfg)
                      × (Distinct (consumed cfg)
                          × (Distinct (static_names cfg)
                              × (All
                                    (λ (c : ConsumeConfig Addr).
                                      (member c.name (exposed cfg)
                                        || member c.name (static_names cfg))
                                      ≡ false)
                                    cfg.consume
                                  × (All
                                        (λ (x : ExposeConfig Addr).
                                          member x.name (static_names cfg) ≡ false)
                                        cfg.expose
                                      × (All
                                            (λ (x : ExposeConfig Addr).
                                              IsEntry x.name x.shared_secret)
                                            cfg.expose
                                          × (All (IsStatic exists is_dir) cfg.static_services
                                              × All
                                                  (λ (c : ConsumeConfig Addr).
                                                    IsEntry c.name c.shared_secret)
                                                  cfg.consume))))))))))
  unfolding validate_client
  client_parts_iff {Addr = Addr} cfg =
      chain_iff _ _ (reject_iff (is_some cfg.relay) relay_in_client) (
        chain_iff _ _ (present_iff cfg.server_node_id missing_server_node_id empty_server_node_id) (
          chain_iff _ _ (present_iff cfg.group_token missing_group_token empty_client_token) (
            chain_iff _ _
              (unique_iff (λ (x : ExposeConfig Addr). x.name)
                (λ x. duplicate_service expose_table x.name) cfg.expose)
              (chain_iff _ _
                (unique_iff (λ (x : ConsumeConfig Addr). x.name)
                  (λ x. duplicate_service consume_table x.name) cfg.consume)
                (chain_iff _ _
                  (unique_iff (λ (x : StaticConfig). x.name)
                    (λ x. duplicate_service static_table x.name) cfg.static_services)
                  (chain_iff _ _
                    (each_exactly _ _ cfg.consume (λ c.
                      reject_iff (member c.name (exposed cfg) || member c.name (static_names cfg))
                        (published_and_consumed c.name)))
                    (chain_iff _ _
                      (each_exactly _ _ cfg.expose (λ x.
                        reject_iff (member x.name (static_names cfg)) (exposed_and_static x.name)))
                      (chain_iff _ _ (exposes_iff cfg.expose) (
                        chain_iff _ _ (statics_iff exists is_dir cfg.static_services)
                          (consumes_iff cfg.consume))))))))))

  pub client_iff :
      {Addr : Type 0} (cfg : RootConfig Addr)
      → Passes (validate_client exists is_dir cfg) ↔ IsClientConfig exists is_dir cfg
  client_iff cfg = (
    λ h.
        let (relay, (node, (token, (xn, (cn, (sn, (apart, (fixed, (xs, (ss, cs)))))))))) =
          (client_parts_iff cfg).0 h in
        record {
          no_relay = relay;
          node = node;
          token = token;
          expose_names = xn;
          consume_names = cn;
          static_distinct = sn;
          not_published = apart;
          not_static = fixed;
          exposes = xs;
          statics = ss;
          consumes = cs;
        },
    λ c. (client_parts_iff cfg).1 (
      c.no_relay,
      (
        c.node,
        (
          c.token,
          (
            c.expose_names,
            (
              c.consume_names,
              (
                c.static_distinct,
                (c.not_published, (c.not_static, (c.exposes, (c.statics, c.consumes)))),
              ),
            ),
          ),
        ),
      ),
    ),
  )
