-- ===== src/Relay/Choice.antt =====
-- The provider and the rate that the relay chooses for a stream.
use mathlib.Core.Option
use mathlib.Core.Option.{some-injective}
use meshly_core.Common.{
  ℕ, ◌≡◌, refl, sym, ap, ◌∙◌, ◌≢◌, ◌↔◌, inl, inr, Bool, true, false, Option, none, some, List, [],
  ◌∷◌, Bool-cases, Option-cases, Eq, ◌==◌, eq_iff, beq_self, nat_eq, list_eq, find, Text,
}
use meshly_core.Common.Map.{get}
use meshly_core.Registry.{Handle, ServerState, load, dump_services, lookup_relay_rate_override}
use meshly_core.Relay.{lookup_service_any_group, initial_rate}

module _ {Peer : Type 0} where
  -- The first entry for a service in a list of entries of all groups.
  pub data First (service : Text) (provider : Peer) : List (Text × Text × Peer) → Type 0 where
    here :
        (gname : Text) (rest : List (Text × Text × Peer))
        → First service provider ((gname, service, provider) ∷ rest)
    later :
        (gname other : Text) (p : Peer) (rest : List (Text × Text × Peer))
        → other ≢ service
        → First service provider rest
        → First service provider ((gname, other, p) ∷ rest)

  abbrev first_for : Text → List (Text × Text × Peer) → Option Peer
  first_for service entries =
      Option.map (λ (x : Text × Text × Peer). x.2)
        (find (λ (x : Text × Text × Peer). x.1 == service) entries)

  abbrev is_for : Text → Text × Text × Peer → Bool
  is_for service x = x.1 == service

  abbrev provider_of_entry : Option (Text × Text × Peer) → Option Peer
  provider_of_entry o = Option.map (λ (x : Text × Text × Peer). x.2) o

  find-here :
      (service : Text) (x : Text × Text × Peer) (rest : List (Text × Text × Peer))
      → is_for service x ≡ true
      → find (is_for service) (x ∷ rest) ≡ some x
  find-here service x rest h =
      ap
        (λ (b : Bool). elim b as (λ _. Option (Text × Text × Peer)) [
          | true ↦ some x
          | false ↦ find (is_for service) rest
        ])
        h

  find-later :
      (service : Text) (x : Text × Text × Peer) (rest : List (Text × Text × Peer))
      → is_for service x ≡ false
      → find (is_for service) (x ∷ rest) ≡ find (is_for service) rest
  find-later service x rest h =
      ap
        (λ (b : Bool). elim b as (λ _. Option (Text × Text × Peer)) [
          | true ↦ some x
          | false ↦ find (is_for service) rest
        ])
        h

  first-First :
      (service : Text) (provider : Peer) (entries : List (Text × Text × Peer))
      → first_for service entries ≡ some provider
      → First service provider entries
  first-First service provider [] h = absurd (cc h)
  first-First service provider ((gname, s, p) ∷ rest) h = elim (Bool-cases (s == service)) [
    | inl same ↦
        let mine : some p ≡ some provider =
          sym (ap provider_of_entry (find-here service (gname, s, p) rest same)) ∙ h in
        rw ((eq_iff s service).0 same, some-injective p provider mine) (here gname rest)
    | inr other ↦
        later gname s p rest (λ q. cc ((eq_iff s service).1 q, other))
          (first-First service provider rest
            (sym (ap provider_of_entry (find-later service (gname, s, p) rest other)) ∙ h))
  ]

  First-first :
      (service : Text) (provider : Peer) (entries : List (Text × Text × Peer))
      → First service provider entries
      → first_for service entries ≡ some provider
  First-first service provider _ (here gname rest) =
      ap provider_of_entry (find-here service (gname, service, provider) rest (beq_self service))
  First-first service provider _ (later gname other p rest apart f) =
      elim (Bool-cases (other == service)) [
        | inl same ↦ absurd (apart ((eq_iff other service).0 same))
        | inr differs ↦
            ap provider_of_entry (find-later service (gname, other, p) rest differs)
            ∙ First-first service provider rest f
      ]

module _ {Peer : Type 0} ⦃e : Eq Peer⦄ where
  -- The rate that a stream starts with: none when the limiter is off, else the consumer's override if the
  -- configuration has one, else what the handle of the default rate holds.
  pub data StartsAt : Option Handle → ServerState Peer → Peer → Option ℕ → Type 0 where
    off : (st : ServerState Peer) (consumer : Peer) → StartsAt none st consumer none
    own :
        (h : Handle) (st : ServerState Peer) (consumer : Peer) (bps : ℕ)
        → get consumer st.relay_rate_overrides ≡ some bps
        → StartsAt (some h) st consumer (some bps)
    shared :
        (h : Handle) (st : ServerState Peer) (consumer : Peer)
        → get consumer st.relay_rate_overrides ≡ none
        → StartsAt (some h) st consumer (some (load h st))

  pub initial_rate-StartsAt :
      (default : Option Handle) (st : ServerState Peer) (consumer : Peer)
      → StartsAt default st consumer (initial_rate default st consumer)
  unfolding initial_rate lookup_relay_rate_override
  initial_rate-StartsAt none st consumer = off st consumer
  initial_rate-StartsAt (some h) st consumer =
      elim (Option-cases (get consumer st.relay_rate_overrides)) [
        | inl gone ↦ rw (gone, initial_rate) (shared h st consumer gone)
        | inr (bps, there) ↦ rw (there, initial_rate) (own h st consumer bps there)
      ]

  pub StartsAt-initial_rate :
      (default : Option Handle) (st : ServerState Peer) (consumer : Peer) (bps : Option ℕ)
      → StartsAt default st consumer bps
      → bps ≡ initial_rate default st consumer
  unfolding initial_rate lookup_relay_rate_override
  StartsAt-initial_rate _ _ _ _ (off st consumer) = refl
  StartsAt-initial_rate _ _ _ _ (own h st consumer bps there) = rw (there, initial_rate) refl
  StartsAt-initial_rate _ _ _ _ (shared h st consumer gone) = rw (gone, initial_rate) refl

  pub lookup-First :
      (st : ServerState Peer) (service : Text) (provider : Peer)
      → (lookup_service_any_group st service ≡ some provider)
        ↔ First service provider (dump_services st)
  unfolding lookup_service_any_group
  lookup-First st service provider = (
    first-First service provider (dump_services st),
    First-first service provider (dump_services st),
  )
