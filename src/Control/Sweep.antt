-- ===== src/Control/Sweep.antt =====
-- What the heartbeat sweep does to a group, and which groups it visits.
use meshly_core.Common.{
  ℕ, ◌-◌, ◌≡◌, refl, ap, ◌∙◌, inl, inr, Bool, true, false, Option, none, some, List, [], ◌∷◌, ◌++◌,
  arith, ltb, Bool-cases, Option-cases, Eq, ◌==◌, eq_iff, nat_eq, list_eq, any, Result, ok,
  ok_injective, Text,
}
use meshly_core.Common.Map.{
  Map, get, remove_all, keys_where, get-remove_where, unless, holds_at, member,
  member-keys_where_iff, IsMap, remove_all-IsMap,
}
use meshly_core.Registry.{
  RegisterError, Group, ServiceRecord, ServerState, provider_in, drop_session, with_group,
  services_of, dump_groups, dump_services, provided_by,
}
use meshly_core.Registry.Laws.{from, drop_session_exact, get-with_group}
use meshly_core.Control.{
  older_than, dead_sessions, drop_sessions, sweep_group, sweep_entries, sweep_dead_sessions,
}

module _ {Peer : Type 0} ⦃e : Eq Peer⦄ where
  sessions-drop_sessions :
      (ids : List Peer) (g : Group Peer)
      → (drop_sessions ids g).sessions ≡ remove_all ids g.sessions
  unfolding drop_sessions drop_session remove_all
  sessions-drop_sessions [] g = refl
  sessions-drop_sessions (id ∷ ids) g = sessions-drop_sessions ids (drop_session id g)

  drop_session-IsMap :
      (c : Peer) (g : Group Peer) → IsMap g.services → IsMap (drop_session c g).services
  unfolding drop_session
  drop_session-IsMap c g h = remove_all-IsMap (keys_where (provided_by c) g.services) g.services h

  unless_either :
      (c : Peer) (ids : List Peer) (o : Option Peer)
      → unless (λ p. member p ids) (unless (from c) o) ≡ unless (λ p. member p (c ∷ ids)) o
  unless_either c ids none = refl
  unless_either c ids (some p) = ground (arith, eq_iff c p, eq_iff p c)

  provider-drop_sessions :
      (ids : List Peer) (g : Group Peer) (service : Text)
      → IsMap g.services
      → provider_in (drop_sessions ids g) service
        ≡ unless (λ p. member p ids) (provider_in g service)
  unfolding drop_sessions
  provider-drop_sessions [] g service h = elim (Option-cases (provider_in g service)) [
    | inl gone ↦ rw gone
    | inr (p, there) ↦ rw there
  ]
  provider-drop_sessions (id ∷ ids) g service h =
      provider-drop_sessions ids (drop_session id g) service (drop_session-IsMap id g h)
      ∙ ap (unless (λ p. member p ids)) (drop_session_exact id g service h).0
      ∙ unless_either id ids (provider_in g service)

  -- Whether a client has a session in the group that is older than the cutoff.
  abbrev pub expired_in : ℕ → Group Peer → Peer → Bool
  expired_in cutoff g client = holds_at (older_than cutoff) (get client g.sessions)

  unless_same :
      (p q : Peer → Bool) (o : Option Peer) → ((x : Peer) → p x ≡ q x) → unless p o ≡ unless q o
  unless_same p q none h = refl
  unless_same p q (some x) h = rw (h x)

  -- Sweeping a group, where no service and no session stands twice, takes away exactly the
  -- sessions older than the cutoff and the services whose provider has such a session; a provider
  -- with no session at all keeps its services.
  pub sweep_group_exact :
      (cutoff : ℕ) (g : Group Peer)
      → IsMap g.services
      → IsMap g.sessions
      → ((d : Peer)
          → get d (sweep_group cutoff g).sessions ≡ unless (older_than cutoff) (get d g.sessions))
        × ((service : Text)
            → provider_in (sweep_group cutoff g) service
              ≡ unless (expired_in cutoff g) (provider_in g service))
  unfolding sweep_group dead_sessions
  sweep_group_exact cutoff g hs hm =
      let dead = keys_where (older_than cutoff) g.sessions in
      (
        λ d.
            ap (get d) (sessions-drop_sessions dead g)
            ∙ get-remove_where (older_than cutoff) d g.sessions hm,
        λ service.
            provider-drop_sessions dead g service hs
            ∙ unless_same _ _ (provider_in g service)
                (λ p. member-keys_where_iff (older_than cutoff) p g.sessions hm),
      )

  abbrev pub mentions : Text → List (Text × Text × Peer) → Bool
  mentions j entries = any (λ (x : Text × Text × Peer). x.0 == j) entries

  mentions-append :
      (j : Text) (xs ys : List (Text × Text × Peer))
      → mentions j xs ≡ false
      → mentions j ys ≡ false
      → mentions j (xs ++ ys) ≡ false
  mentions-append j [] ys h k = k
  mentions-append j (x ∷ xs) ys h k = ground (arith, mentions-append j xs ys)

  mentions-other :
      (i j : Text) (m : Map Text (ServiceRecord Peer))
      → (i == j) ≡ false
      → mentions j (services_of i m) ≡ false
  mentions-other i j [] h = refl
  mentions-other i j ((s, r) ∷ m) h = ground (arith, mentions-other i j m h)

  dump-mentions :
      (j : Text) (m : Map Text (Group Peer)) → get j m ≡ none → mentions j (dump_groups m) ≡ false
  unfolding get
  dump-mentions j [] h = refl
  dump-mentions j ((i, g) ∷ m) h =
      mentions-append j (services_of i g.services) (dump_groups m)
        (mentions-other i j g.services (ground arith)) (dump-mentions j m (ground arith))

  idle_here :
      (i j : Text) (x g : Group Peer) (m : Map Text (Group Peer))
      → (i == j) ≡ true
      → get i m ≡ none
      → x ≡ g
      → g.services ≡ []
      → mentions j (services_of i x.services ++ dump_groups m) ≡ false
  idle_here i j x g m same gone h idle =
      rw (ap (λ (y : Group Peer). y.services) h ∙ idle, ← (eq_iff i j).0 same)
        (dump-mentions i m gone)

  idle-mentions :
      (j : Text) (m : Map Text (Group Peer)) (g : Group Peer)
      → IsMap m
      → get j m ≡ some g
      → g.services ≡ []
      → mentions j (dump_groups m) ≡ false
  unfolding get
  idle-mentions j [] g u h idle = cc
  idle-mentions j ((i, x) ∷ m) g u h idle = elim (Bool-cases (i == j)) [
    | inr other ↦
        mentions-append j (services_of i x.services) (dump_groups m)
          (mentions-other i j x.services other) (idle-mentions j m g u.1 (ground arith) idle)
    | inl same ↦ idle_here i j x g m same u.0 (ground arith) idle
  ]

  sweep_unmentioned :
      (cutoff : ℕ) (j : Text) (entries : List (Text × Text × Peer)) (st : ServerState Peer)
      → mentions j entries ≡ false
      → get j (sweep_entries cutoff entries st).groups ≡ get j st.groups
  unfolding sweep_entries
  sweep_unmentioned cutoff j [] st h = refl
  sweep_unmentioned cutoff j ((i, s, p) ∷ rest) st h =
      sweep_unmentioned cutoff j rest (with_group i (sweep_group cutoff) st) (ground arith)
      ∙ ground (arith, get-with_group i j (sweep_group cutoff) st)

  -- A group with no registered service, on a server where no group stands twice, is passed over by
  -- a sweep that returns: its sessions stay, however old they are.
  pub sweep_passes_idle_groups :
      (now timeout : ℕ) (j : Text) (g : Group Peer) (st st' : ServerState Peer)
      → IsMap st.groups
      → get j st.groups ≡ some g
      → g.services ≡ []
      → sweep_dead_sessions now timeout st ≡ ok st'
      → get j st'.groups ≡ some g
  unfolding sweep_dead_sessions dump_services
  sweep_passes_idle_groups now timeout j g st st' u h idle swept =
      elim (Bool-cases (ltb now timeout)) [
        | inl early ↦ ground arith
        | inr late ↦ kept_by (rw late at swept)
      ]
    where
      kept_by :
          ◌≡◌ {A = Result RegisterError (ServerState Peer)}
            (ok (sweep_entries (now - timeout) (dump_groups st.groups) st))
            (ok st')
          → get j st'.groups ≡ some g
      kept_by same = rw (← ok_injective same) (
          sweep_unmentioned (now - timeout) j (dump_groups st.groups) st
            (idle-mentions j st.groups g u h idle)
          ∙ h)
