-- ===== src/System/Changes.antt =====
-- The changes of one group that keep it in order.
use meshly_core.Common.{
  ℕ, ◌≤◌, ◌≡◌, refl, sym, ap, ◌∙◌, inl, inr, Bool, true, Option, none, some, List, ◌∷◌, arith, ltb,
  ltb-false→le, Bool-cases, Eq, ◌==◌, eq_iff, nat_eq, list_eq, length, ok, ok_injective, Text,
}
use meshly_core.Common.Map.{
  get, insert, remove, get-insert, get-remove, insert-IsMap, remove-IsMap, remove_all-IsMap,
  keys_where, get-remove_where, unless,
}
use meshly_core.Registry.{
  Group, ServiceRecord, ServerState, register_service, touch_session, drop_session, forget_session,
  drop_service, provided_by,
}
use meshly_core.System.Groups.{heard, IsGroup, IsState, Fits}

unless-some : {A : Type 0} (p : A → Bool) (o : Option A) (a : A) → unless p o ≡ some a → o ≡ some a
unless-some p none a h = h
unless-some p (some x) a h = ground arith

module _ {Peer : Type 0} ⦃e : Eq Peer⦄ where
  pub touch-Fits :
      (hellos : List (Peer × Text)) (name : Text) (client : Peer) (now : ℕ) (g : Group Peer)
      → IsGroup hellos name g
      → Fits hellos name (touch_session client now) g
  unfolding touch_session
  touch-Fits hellos name client now g h = (
    record {
      named = h.named;
      services_once = h.services_once;
      sessions_once =
          insert-IsMap client (record { last_heartbeat = now }) g.sessions h.sessions_once;
      short = h.short;
      known = h.known;
    },
    refl,
  )

  pub forget-Fits :
      (hellos : List (Peer × Text)) (name : Text) (client : Peer) (g : Group Peer)
      → IsGroup hellos name g
      → Fits hellos name (forget_session client) g
  unfolding forget_session
  forget-Fits hellos name client g h = (
    record {
      named = h.named;
      services_once = h.services_once;
      sessions_once = remove-IsMap client g.sessions h.sessions_once;
      short = h.short;
      known = h.known;
    },
    refl,
  )

  still_there :
      (service s : Text) (g : Group Peer) (r : ServiceRecord Peer)
      → get s (remove service g.services) ≡ some r
      → get s g.services ≡ some r
  still_there service s g r there = ground (arith, get-remove service s g.services)

  pub drop_service-Fits :
      (hellos : List (Peer × Text)) (name service : Text) (g : Group Peer)
      → IsGroup hellos name g
      → Fits hellos name (drop_service service) g
  unfolding drop_service
  drop_service-Fits hellos name service g h = (
    record {
      named = h.named;
      services_once = remove-IsMap service g.services h.services_once;
      sessions_once = h.sessions_once;
      short = λ s r there. h.short s r (still_there service s g r there);
      known = λ s r there. h.known s r (still_there service s g r there);
    },
    refl,
  )

  pub drop-Fits :
      (hellos : List (Peer × Text)) (name : Text) (client : Peer) (g : Group Peer)
      → IsGroup hellos name g
      → Fits hellos name (drop_session client) g
  unfolding drop_session
  drop-Fits hellos name client g h =
      let left =
        λ (s : Text) (r : ServiceRecord Peer)
            (there : get s (drop_session client g).services ≡ some r).
          unless-some (provided_by client) (get s g.services) r
            (sym (get-remove_where (provided_by client) s g.services h.services_once) ∙ there) in
      (
        record {
          named = h.named;
          services_once =
              remove_all-IsMap (keys_where (provided_by client) g.services) g.services
                h.services_once;
          sessions_once = remove-IsMap client g.sessions h.sessions_once;
          short = λ s r there. h.short s r (left s r there);
          known = λ s r there. h.known s r (left s r there);
        },
        refl,
      )

  pub registered :
      (service : Text) (client : Peer) (g : Group Peer) (p : Option Peer × Group Peer)
      → register_service service client g ≡ ok p
      → (length service ≤ 32)
        × (p.1
            ≡ record g { services = insert service (record { provider_id = client }) g.services })
  unfolding register_service
  registered service client g p h = elim (Bool-cases (ltb 32 (length service))) [
    | inl long ↦ absurd (cc (rw long at h))
    | inr short ↦
        (ltb-false→le 32 (length service) short, sym (ap (λ x. x.1) (ok_injective (rw short at h))))
  ]

  inserted-short :
      (service s : Text) (client : Peer) (g : Group Peer) (r : ServiceRecord Peer)
      → length service ≤ 32
      → ((s : Text) (r : ServiceRecord Peer) → get s g.services ≡ some r → length s ≤ 32)
      → get s (insert service (record { provider_id = client }) g.services) ≡ some r
      → length s ≤ 32
  inserted-short service s client g r fits h there = ground (
    arith,
    get-insert service s (record { provider_id = client }) g.services,
    eq_iff service s,
    h s r,
  )

  inserted-known :
      (hellos : List (Peer × Text)) (service s : Text) (client : Peer) (g : Group Peer)
      (r : ServiceRecord Peer)
      → heard client g.token hellos ≡ true
      → ((s : Text) (r : ServiceRecord Peer)
          → get s g.services ≡ some r
          → heard r.provider_id g.token hellos ≡ true)
      → get s (insert service (record { provider_id = client }) g.services) ≡ some r
      → heard r.provider_id g.token hellos ≡ true
  inserted-known hellos service s client g r spoke h there = elim (Bool-cases (service == s)) [
    | inl same ↦
        let new = rw same at (get-insert service s (record { provider_id = client }) g.services) in
        rw (← same_record (record { provider_id = client }) r (sym new ∙ there)) spoke
    | inr other ↦ h s r (
        sym (rw other at (get-insert service s (record { provider_id = client }) g.services))
        ∙ there)
  ]
    where
      same_record : (a b : ServiceRecord Peer) → some a ≡ some b → a ≡ b
      same_record a b q = cc q

  pub register-Fits :
      (hellos : List (Peer × Text)) (name service : Text) (client : Peer) (g : Group Peer)
      (p : Option Peer × Group Peer)
      → register_service service client g ≡ ok p
      → heard client g.token hellos ≡ true
      → IsGroup hellos name g
      → IsGroup hellos name p.1 × (p.1.token ≡ g.token)
  register-Fits hellos name service client g p done spoke h =
      let (short, made) = registered service client g p done in
      rw made (
        record {
          named = h.named;
          services_once =
              insert-IsMap service (record { provider_id = client }) g.services h.services_once;
          sessions_once = h.sessions_once;
          short = λ s r there. inserted-short service s client g r short h.short there;
          known = λ s r there. inserted-known hellos service s client g r spoke h.known there;
        },
        refl,
      )

  heard-cons :
      (p q : Peer) (t token : Text) (hellos : List (Peer × Text))
      → heard p token hellos ≡ true
      → heard p token ((q, t) ∷ hellos) ≡ true
  heard-cons p q t token hellos h = ground arith

  pub said-IsState :
      (q : Peer) (t : Text) (hellos : List (Peer × Text)) (st : ServerState Peer)
      → IsState hellos st
      → IsState ((q, t) ∷ hellos) st
  said-IsState q t hellos st h = record {
    groups_once = h.groups_once;
    each_group = λ name g there.
        let x = h.each_group name g there in
        record {
          named = x.named;
          services_once = x.services_once;
          sessions_once = x.sessions_once;
          short = x.short;
          known = λ s r here. heard-cons r.provider_id q t g.token hellos (x.known s r here);
        };
  }
