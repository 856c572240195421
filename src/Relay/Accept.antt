-- ===== src/Relay/Accept.antt =====
-- Which streams the relay takes on.
use meshly_core.Common.{
  ℕ, ◌≡◌, refl, sym, ap, ◌∙◌, ◌↔◌, inl, inr, Option, none, some, Bool-cases, Option-cases, Eq, ◌==◌,
  eq_iff, beq_self, nat_eq, list_eq, Text,
}
use meshly_core.Relay.Choice.{
  First, StartsAt, initial_rate-StartsAt, StartsAt-initial_rate, lookup-First,
}
use meshly_core.Protocol.{Frame, data_open, DataOpen}
use meshly_core.Registry.{Handle, ServerState, dump_services}
use meshly_core.Relay.{
  spawned, lookup_service_any_group, initial_rate, check_provider, check_open, accept_stream,
}

module _ {Peer : Type 0} ⦃e : Eq Peer⦄ (parse_endpoint_id : Text → Option Peer)
    (default_reply_bps : Option Handle) (remote : Peer) where
  -- What a frame must be to be relayed to a provider.
  pub record Relayed (st : ServerState Peer) (frame : Option Frame) (bps : Option ℕ)
      (provider : Peer) (service : Text) : Type 0 where
    pub request : DataOpen
    pub frame_is : frame ≡ some (data_open request)
    pub service_is : request.target_service ≡ service
    pub claims_itself : parse_endpoint_id request.consumer_node_id ≡ some remote
    pub asks_for : parse_endpoint_id request.target_provider ≡ some provider
    pub registered : First service provider (dump_services st)
    pub rate : StartsAt default_reply_bps st remote bps

  provider-Relayed :
      (st : ServerState Peer) (d : DataOpen) (target : Peer) (found : Option Peer) (bps : Option ℕ)
      (provider : Peer) (service : Text)
      → check_provider parse_endpoint_id default_reply_bps remote st d target found
        ≡ spawned bps provider service
      → (found ≡ some provider)
        × (target ≡ provider)
        × (d.target_service ≡ service)
        × (bps ≡ initial_rate default_reply_bps st remote)
  provider-Relayed st d target none bps provider service h = cc h
  provider-Relayed st d target (some p) bps provider service h = elim (Bool-cases (p == target)) [
    | inl same ↦ agreed p ((eq_iff p target).0 same) (rw same at h)
    | inr other ↦ absurd (cc (rw other at h))
  ]
    where
      agreed :
          (q : Peer)
          → q ≡ target
          → spawned (initial_rate default_reply_bps st remote) q d.target_service
            ≡ spawned bps provider service
          → (some q ≡ some provider)
            × (target ≡ provider)
            × (d.target_service ≡ service)
            × (bps ≡ initial_rate default_reply_bps st remote)
      agreed q same p = (cc, cc, cc, cc)

  open-Relayed :
      (st : ServerState Peer) (d : DataOpen) (bps : Option ℕ) (provider : Peer) (service : Text)
      → check_open parse_endpoint_id default_reply_bps remote st d ≡ spawned bps provider service
      → Relayed st (some (data_open d)) bps provider service
  unfolding check_open
  open-Relayed st d bps provider service h =
      elim (Option-cases (parse_endpoint_id d.target_provider)) [
        | inl gone ↦ absurd (cc (rw (gone, check_open) at h))
        | inr (target, asks) ↦ elim (Option-cases (parse_endpoint_id d.consumer_node_id)) [
          | inl gone ↦ absurd (cc (rw (asks, gone, check_open) at h))
          | inr (consumer, claims) ↦ elim (Bool-cases (consumer == remote)) [
            | inr other ↦ absurd (cc (rw (asks, claims, other, check_open) at h))
            | inl same ↦
                let (found, wanted, named, at_rate) =
                  provider-Relayed st d target (lookup_service_any_group st d.target_service) bps
                    provider service (rw (asks, claims, same, check_open) at h) in
                record {
                  request = d;
                  frame_is = refl;
                  service_is = named;
                  claims_itself = claims ∙ ap some ((eq_iff consumer remote).0 same);
                  asks_for = asks ∙ ap some wanted;
                  registered =
                      (lookup-First st service provider).0
                        (ap (lookup_service_any_group st) (sym named) ∙ found);
                  rate = rw at_rate (initial_rate-StartsAt default_reply_bps st remote);
                }
          ]
        ]
      ]

  Relayed-open :
      (st : ServerState Peer) (d : DataOpen) (provider : Peer)
      → parse_endpoint_id d.consumer_node_id ≡ some remote
      → parse_endpoint_id d.target_provider ≡ some provider
      → lookup_service_any_group st d.target_service ≡ some provider
      → check_open parse_endpoint_id default_reply_bps remote st d
        ≡ spawned (initial_rate default_reply_bps st remote) provider d.target_service
  unfolding check_open initial_rate
  Relayed-open st d provider claims asks registered =
      rw (check_open, asks, claims, beq_self remote, registered, beq_self provider) refl

  same_request :
      (d d' : DataOpen) → ◌≡◌ {A = Option Frame} (some (data_open d)) (some (data_open d')) → d ≡ d'
  same_request d d' h = cc h

  -- A stream is relayed exactly when its frame is a DataOpen that names the connection's peer as its
  -- consumer and, as its target, the provider in the first entry for the service among the entries of all
  -- groups; its starting rate is the consumer's override, else the default rate, and none when the limiter is
  -- off.
  pub accept_stream_iff :
      (st : ServerState Peer) (frame : Option Frame) (bps : Option ℕ) (provider : Peer)
      (service : Text)
      → (accept_stream parse_endpoint_id default_reply_bps remote st frame
          ≡ spawned bps provider service)
        ↔ Relayed st frame bps provider service
  unfolding accept_stream
  accept_stream_iff st (some (data_open d)) bps provider service =
      (λ h. open-Relayed st d bps provider service h, λ r. opened r)
    where
      opened :
          Relayed st (some (data_open d)) bps provider service
          → check_open parse_endpoint_id default_reply_bps remote st d
            ≡ spawned bps provider service
      opened r =
          rw
            (
              same_request d r.request r.frame_is,
              StartsAt-initial_rate default_reply_bps st remote bps r.rate,
              ← r.service_is,
            )
            (Relayed-open st r.request provider r.claims_itself r.asks_for
              (rw r.service_is ((lookup-First st service provider).1 r.registered)))
  accept_stream_iff st (some _) bps provider service =
      (λ h. absurd (cc h), λ r. absurd (cc r.frame_is))
  accept_stream_iff st none bps provider service = (λ h. absurd (cc h), λ r. absurd (cc r.frame_is))
