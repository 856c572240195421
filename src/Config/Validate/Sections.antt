-- ===== src/Config/Validate/Sections.antt =====
-- What the checks of the sections accept.
use meshly_core.Common.{
  ℕ, suc, ◌≡◌, refl, ◌↔◌, inl, inr, Bool, true, false, not, Option, none, some, List, [], ◌∷◌, map,
  Option-cases, Eq, nat_eq, list_eq, All, Result, ok, err, ◌>>◌, reject_if, map_err-eq-ok, Text,
}
use meshly_core.Common.Map.{member}
use meshly_core.Common.Checks.{Passes, then_iff, reject_iff, Distinct, Fresh, Fresh-iff}
use meshly_core.Alpn.{validate_service_name, alpn_for_service}
use meshly_core.Alpn.Grammar.{IsServiceName, validate_iff}
use meshly_core.Config.{
  GroupConfig, RelayRateOverride, Table, ConfigProblem, bad_service_name, duplicate_group,
  empty_group_token, bad_override_id, duplicate_override,
}
use meshly_core.Config.Validate.{
  is_empty, check_name, check_alpn, validate_groups, validate_overrides, present,
}

-- The option is there and its text is not empty.
abbrev pub IsPresent : Option Text → Type 0
IsPresent o = (s : Text) × (o ≡ some s) × (is_empty s ≡ false)

pub present_iff :
    (o : Option Text) (missing empty : ConfigProblem)
    → Passes (present o missing empty) ↔ IsPresent o
present_iff none missing empty = (λ h. cc h, λ p. cc p.1)
present_iff (some s) missing empty = (
  λ h. (s, refl, (reject_iff (is_empty s) empty).0 h),
  λ p. (reject_iff (is_empty s) empty).1 (go p.0 p.1 p.2),
)
  where
    go : (t : Text) → some s ≡ some t → is_empty t ≡ false → is_empty s ≡ false
    go t h k = cc

name_iff : (table : Table) (name : Text) → Passes (check_name table name) ↔ IsServiceName name
name_iff table name = (
  λ h.
      (validate_iff name).0
        (map_err-eq-ok (bad_service_name table name) (validate_service_name name) h),
  λ s. rw ((validate_iff name).1 s) refl,
)

alpn-Passes : (table : Table) (name : Text) → IsServiceName name → Passes (check_alpn table name)
unfolding alpn_for_service
alpn-Passes table name s = rw ((validate_iff name).1 s) refl

-- The name, the secret, and what the table checks besides.
pub entry_iff :
    (table : Table) (name secret : Text) (problem : ConfigProblem)
    → Passes
        (check_name table name >> (reject_if (is_empty secret) problem >> check_alpn table name))
      ↔ (IsServiceName name × (is_empty secret ≡ false))
entry_iff table name secret problem = (
  λ h.
      let (n, k) = (then_iff (check_name table name) _).0 h in
      let (s, r) = (then_iff (reject_if (is_empty secret) problem) _).0 k in
      ((name_iff table name).0 n, (reject_iff (is_empty secret) problem).0 s),
  λ p. (then_iff (check_name table name) _).1 (
    (name_iff table name).1 p.0,
    (then_iff (reject_if (is_empty secret) problem) _).1
        ((reject_iff (is_empty secret) problem).1 p.1, alpn-Passes table name p.0),
  ),
)

-- The same with two more guards before the ALPN.
pub guarded_entry_iff :
    (table : Table) (name secret : Text) (a b c : ConfigProblem) (p q : Bool)
    → Passes (
        check_name table name
        >> (reject_if (is_empty secret) a
            >> (reject_if (not p) b >> (reject_if (not q) c >> check_alpn table name))))
      ↔ ((IsServiceName name × (is_empty secret ≡ false)) × (p ≡ true) × (q ≡ true))
guarded_entry_iff table name secret a b c false q = (
  λ h.
      let (n, k) = (then_iff (check_name table name) _).0 h in
      let (s, r) = (then_iff (reject_if (is_empty secret) a) _).0 k in cc r,
  λ p. cc p.1,
)
guarded_entry_iff table name secret a b c true false = (
  λ h.
      let (n, k) = (then_iff (check_name table name) _).0 h in
      let (s, r) = (then_iff (reject_if (is_empty secret) a) _).0 k in cc r,
  λ p. cc p.2,
)
guarded_entry_iff table name secret a b c true true = (
  λ h. ((entry_iff table name secret a).0 h, refl, refl),
  λ p. (entry_iff table name secret a).1 p.0,
)

groups-Fresh :
    (seen : List Text) (gs : List GroupConfig)
    → Passes (validate_groups seen gs) ↔ (
        Fresh seen (map (λ (g : GroupConfig). g.name) gs)
        × All (λ (g : GroupConfig). is_empty g.group_token ≡ false) gs)
unfolding validate_groups
groups-Fresh seen [] = (λ h. (tt, tt), λ h. refl)
groups-Fresh seen (g ∷ gs) =
    let a = reject_if (member g.name seen) (duplicate_group g.name) in
    let b = reject_if (is_empty g.group_token) (empty_group_token g.name) in
    (
      λ h.
          let (x, k) = (then_iff a _).0 h in
          let (y, r) = (then_iff b _).0 k in
          let (fresh, tokens) = (groups-Fresh (g.name ∷ seen) gs).0 r in
          (
            ((reject_iff (member g.name seen) (duplicate_group g.name)).0 x, fresh),
            ((reject_iff (is_empty g.group_token) (empty_group_token g.name)).0 y, tokens),
          ),
      λ p. (then_iff a _).1 (
        (reject_iff (member g.name seen) (duplicate_group g.name)).1 p.0.0,
        (then_iff b _).1 (
          (reject_iff (is_empty g.group_token) (empty_group_token g.name)).1 p.1.0,
          (groups-Fresh (g.name ∷ seen) gs).1 (p.0.1, p.1.1),
        ),
      ),
    )

pub groups_iff :
    (gs : List GroupConfig)
    → Passes (validate_groups [] gs) ↔ (
        Distinct (map (λ (g : GroupConfig). g.name) gs)
        × All (λ (g : GroupConfig). is_empty g.group_token ≡ false) gs)
groups_iff gs = (
  λ h. let (f, t) = (groups-Fresh [] gs).0 h in ((Fresh-iff _).0 f, t),
  λ p. (groups-Fresh [] gs).1 ((Fresh-iff _).1 p.0, p.1),
)

module _ {Peer : Type 0} ⦃e : Eq Peer⦄ (parse_endpoint_id : Text → Option Peer) where
  -- The rows have these ids.
  abbrev pub ParseTo : List RelayRateOverride → List Peer → Type 0
  ParseTo ovs ids =
      map (λ (ov : RelayRateOverride). parse_endpoint_id ov.node_id) ovs ≡ map some ids

  overrides_sound :
      (idx : ℕ) (seen : List Peer) (ovs : List RelayRateOverride)
      → Passes (validate_overrides parse_endpoint_id idx seen ovs)
      → (ids : List Peer) × (ParseTo ovs ids) × Fresh seen ids
  unfolding validate_overrides
  overrides_sound idx seen [] h = ([], refl, tt)
  overrides_sound idx seen (ov ∷ ovs) h = elim (Option-cases (parse_endpoint_id ov.node_id)) [
    | inl gone ↦ absurd (refused (rw gone at h))
    | inr (id, there) ↦
        let (x, k) =
          (then_iff (reject_if (member id seen) (duplicate_override idx ov.node_id)) _).0
            (rw there at h) in
        let (ids, p, f) = overrides_sound (suc idx) (id ∷ seen) ovs k in
        (
          id ∷ ids,
          rw (there, p) refl,
          ((reject_iff (member id seen) (duplicate_override idx ov.node_id)).0 x, f),
        )
  ]
    where
      refused :
          ◌≡◌ {A = Result ConfigProblem (Unit {0})} (err (bad_override_id idx ov.node_id)) (ok tt)
          → ⊥
      refused p = cc p

  sound-overrides :
      (idx : ℕ) (seen : List Peer) (ovs : List RelayRateOverride) (ids : List Peer)
      → ParseTo ovs ids
      → Fresh seen ids
      → Passes (validate_overrides parse_endpoint_id idx seen ovs)
  unfolding validate_overrides
  sound-overrides idx seen [] ids p f = refl
  sound-overrides idx seen (ov ∷ ovs) [] p f = cc p
  sound-overrides idx seen (ov ∷ ovs) (id ∷ ids) p f =
      let there : parse_endpoint_id ov.node_id ≡ some id = cc p in
      let later : ParseTo ovs ids = cc p in
      rw there (
        (then_iff (reject_if (member id seen) (duplicate_override idx ov.node_id)) _).1 (
          (reject_iff (member id seen) (duplicate_override idx ov.node_id)).1 f.0,
          sound-overrides (suc idx) (id ∷ seen) ovs ids later f.1,
        ))

  -- Every row has an id, and no two rows have the same.
  abbrev pub IsOverrides : List RelayRateOverride → Type 0
  IsOverrides ovs = (ids : List Peer) × ParseTo ovs ids × Distinct ids

  pub IsOverrides-iff :
      (ovs : List RelayRateOverride)
      → Passes (validate_overrides parse_endpoint_id 0 [] ovs) ↔ IsOverrides ovs
  IsOverrides-iff ovs = (
    λ h. let (ids, p, f) = overrides_sound 0 [] ovs h in (ids, p, (Fresh-iff ids).0 f),
    λ p. sound-overrides 0 [] ovs p.0 p.1 ((Fresh-iff p.0).1 p.2),
  )
