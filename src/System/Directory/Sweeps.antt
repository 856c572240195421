-- ===== src/System/Directory/Sweeps.antt =====
-- A sweep of the whole server, as the directory sees it.
use meshly_core.Common.{
  ℕ, ◌≡◌, refl, sym, ap, ◌∙◌, inl, inr, Bool, true, false, Option, none, some, List, [], ◌∷◌, ◌++◌,
  arith, if◌then◌else◌, Bool-cases, Option-cases, Eq, ◌==◌, nat_eq, list_eq, Text,
}
use meshly_core.Common.Map.{Map, get, unless, holds_at}
use meshly_core.Registry.{
  Group, Session, ServiceRecord, ServerState, group, provider_of, provider_in, lookup_service,
  services_of, dump_groups, with_group,
}
use meshly_core.Registry.Laws.{get-with_group, lookup-there}
use meshly_core.Control.{older_than, sweep_group, dead_sessions, sweep_entries}
use meshly_core.Control.Sweep.{expired_in, sweep_group_exact, mentions}
use meshly_core.System.Groups.{IsGroup, IsState}
use meshly_core.System.Events.{drop_sessions-Fits}
use meshly_core.System.Directory.{withdraw_all, directory, expired_of, expired_at}

unless_none_holds :
    {A : Type 0} (p : A → Bool) (o : Option A) → ((a : A) → p a ≡ false) → unless p o ≡ o
unless_none_holds p none h = refl
unless_none_holds p (some a) h = rw (h a)

unless_old : (p : Session → Bool) (o : Option Session) → holds_at p (unless p o) ≡ false
unless_old p none = refl
unless_old p (some x) = ground arith

module _ {Peer : Type 0} ⦃e : Eq Peer⦄ where
  swept_IsGroup :
      (hellos : List (Peer × Text)) (cutoff : ℕ) (j : Text) (g : Group Peer)
      → IsGroup hellos j g
      → IsGroup hellos j (sweep_group cutoff g)
  unfolding sweep_group
  swept_IsGroup hellos cutoff j g h =
      (drop_sessions-Fits hellos (dead_sessions cutoff g.sessions) j g h).0

  fresh_after :
      (hellos : List (Peer × Text)) (cutoff : ℕ) (j : Text) (g : Group Peer) (p : Peer)
      → IsGroup hellos j g
      → expired_in cutoff (sweep_group cutoff g) p ≡ false
  fresh_after hellos cutoff j g p h =
      rw ((sweep_group_exact cutoff g h.services_once h.sessions_once).0 p)
        (unless_old (older_than cutoff) (get p g.sessions))

  entries-lookup :
      (hellos : List (Peer × Text)) (cutoff : ℕ) (j s : Text) (entries : List (Text × Text × Peer))
      (st : ServerState Peer) (g : Group Peer)
      → get j st.groups ≡ some g
      → IsGroup hellos j g
      → lookup_service (sweep_entries cutoff entries st) j s ≡ (
          if mentions j entries
          then unless (expired_in cutoff g) (provider_in g s)
          else provider_in g s)
  unfolding sweep_entries group
  entries-lookup hellos cutoff j s [] st g there h = lookup-there j s st g there
  entries-lookup hellos cutoff j s ((i, service, p) ∷ rest) st g there h =
      elim (Bool-cases (i == j)) [
        | inl same ↦
            let next = swept_IsGroup hellos cutoff j g h in
            let here = rw (same, there) at (get-with_group i j (sweep_group cutoff) st) in
            let later =
              entries-lookup hellos cutoff j s rest (with_group i (sweep_group cutoff) st)
                (sweep_group cutoff g) here next in
            let exact = (sweep_group_exact cutoff g h.services_once h.sessions_once).1 s in
            let idle =
              unless_none_holds (expired_in cutoff (sweep_group cutoff g))
                (provider_in (sweep_group cutoff g) s) (λ q. fresh_after hellos cutoff j g q h) in
            rw same (later ∙ either (mentions j rest) _ _ _ (idle ∙ exact) exact)
        | inr other ↦
            let here = rw (other, there) at (get-with_group i j (sweep_group cutoff) st) in
            rw other (
              entries-lookup hellos cutoff j s rest (with_group i (sweep_group cutoff) st) g here h)
      ]
    where
      either : (b : Bool) (x y z : Option Peer) → x ≡ z → y ≡ z → (if b then x else y) ≡ z
      either true x y z p q = p
      either false x y z p q = q

  no_entries :
      (i j : Text) (m : Map Text (ServiceRecord Peer)) (rest : List (Text × Text × Peer))
      → (i == j) ≡ true
      → mentions j (services_of i m ++ rest) ≡ false
      → m ≡ []
  no_entries i j [] rest same h = refl
  no_entries i j ((s, r) ∷ m) rest same h = absurd (ground (arith, same))

  later_entries :
      (i j : Text) (m : Map Text (ServiceRecord Peer)) (rest : List (Text × Text × Peer))
      → mentions j (services_of i m ++ rest) ≡ false
      → mentions j rest ≡ false
  later_entries i j [] rest h = h
  later_entries i j ((s, r) ∷ m) rest h = later_entries i j m rest (ground (arith, h))

  silent :
      (j : Text) (m : Map Text (Group Peer)) (g : Group Peer)
      → get j m ≡ some g
      → mentions j (dump_groups m) ≡ false
      → g.services ≡ []
  unfolding get
  silent j [] g there h = absurd (cc there)
  silent j ((i, x) ∷ m) g there h = elim (Bool-cases (i == j)) [
    | inl same ↦
        ap (λ (y : Group Peer). y.services) (sym (same_group x g (rw same at there)))
        ∙ no_entries i j x.services (dump_groups m) same h
    | inr other ↦ silent j m g (rw other at there) (later_entries i j x.services (dump_groups m) h)
  ]
    where
      same_group : (a b : Group Peer) → some a ≡ some b → a ≡ b
      same_group a b q = cc q

  nobody_there :
      (cutoff : ℕ) (j s : Text) (entries : List (Text × Text × Peer)) (st : ServerState Peer)
      → get j st.groups ≡ none
      → lookup_service (sweep_entries cutoff entries st) j s ≡ none
  unfolding sweep_entries lookup_service group
  nobody_there cutoff j s [] st gone = rw (gone, lookup_service) refl
  nobody_there cutoff j s ((i, service, p) ∷ rest) st gone =
      nobody_there cutoff j s rest (with_group i (sweep_group cutoff) st)
        (get-with_group i j (sweep_group cutoff) st ∙ ground (arith, gone))

  unvisited :
      (p : Peer → Bool) (s : Text) (g : Group Peer)
      → g.services ≡ []
      → provider_in g s ≡ unless p (provider_in g s)
  unfolding provider_in get
  unvisited p s g empty =
      let nobody = ap (λ m. provider_of (get s m)) empty in nobody ∙ sym (ap (unless p) nobody)

  sees :
      (cutoff : ℕ) (st : ServerState Peer) (j s : Text) (g : Group Peer)
      → get j st.groups ≡ some g
      → withdraw_all (expired_at cutoff st) (directory st) j s
        ≡ unless (expired_in cutoff g) (provider_in g s)
  unfolding group
  sees cutoff st j s g there =
      ap (λ o. unless (expired_of cutoff o) (lookup_service st j s)) there
      ∙ ap (unless (expired_in cutoff g)) (lookup-there j s st g there)

  swept_there :
      (hellos : List (Peer × Text)) (cutoff : ℕ) (st : ServerState Peer) (j s : Text)
      (g : Group Peer)
      → get j st.groups ≡ some g
      → IsGroup hellos j g
      → lookup_service (sweep_entries cutoff (dump_groups st.groups) st) j s
        ≡ unless (expired_in cutoff g) (provider_in g s)
  swept_there hellos cutoff st j s g there h =
      elim (Bool-cases (mentions j (dump_groups st.groups))) [
        | inl visited ↦
            rw visited at (entries-lookup hellos cutoff j s (dump_groups st.groups) st g there h)
        | inr passed ↦
            rw passed at (entries-lookup hellos cutoff j s (dump_groups st.groups) st g there h)
            ∙ unvisited (expired_in cutoff g) s g (silent j st.groups g there passed)
      ]

  -- After a sweep, a lookup finds what it found before, if that provider's session in the group is not
  -- older than the cutoff.
  pub sweep-lookup :
      (hellos : List (Peer × Text)) (cutoff : ℕ) (st : ServerState Peer) (j s : Text)
      → IsState hellos st
      → lookup_service (sweep_entries cutoff (dump_groups st.groups) st) j s
        ≡ withdraw_all (expired_at cutoff st) (directory st) j s
  unfolding sweep_entries
  sweep-lookup hellos cutoff st j s good = elim (Option-cases (get j st.groups)) [
    | inl gone ↦
        nobody_there cutoff j s (dump_groups st.groups) st gone
        ∙ sym (ap (unless (expired_at cutoff st j)) (nobody_there cutoff j s [] st gone))
    | inr (g, there) ↦
        swept_there hellos cutoff st j s g there (good.each_group j g there)
        ∙ sym (sees cutoff st j s g there)
  ]
