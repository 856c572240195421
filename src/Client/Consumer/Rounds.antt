-- ===== src/Client/Consumer/Rounds.antt =====
-- How the dial loop ends, and what becomes of the cached provider.
use meshly_core.Common.{
  ℕ, ◌≡◌, refl, ◌≢◌, Bool, true, false, Option, none, some, List, [], ◌∷◌, ◌++◌, nat_eq, list_eq,
  All, Result, ok, err, panic, Text,
}
use meshly_core.Client.{ClientError}
use meshly_core.Client.Dial.{DialError, Way, direct, relay}
use meshly_core.Client.Consumer.{
  RuntimeStatus, ReconnectConfig, dial_stream, Round, Dialing, Progress, connected, retries,
  after_relay, after_direct, try_relay, try_direct, with_provider, ensure_provider_id, after_round,
  dial_round, dial_rounds,
}

-- A round in which no call panics and a subscription would be answered.
pub record Healthy {Peer : Type 0} (r : Round Peer) : Type 0 where
  pub provider : Peer
  pub answered : r.subscribed ≡ ok provider
  pub dials : (p : Peer) → r.dialed p ≢ panic
  pub relays : (p : Peer) → r.relayed p ≢ panic

pub record Connected {Peer : Type 0} (end : Progress Peer) : Type 0 where
  pub way : Way
  pub provider : Peer
  pub state : Dialing Peer
  pub up : end ≡ connected way provider state

module _ {Peer : Type 0} (show_error : DialError → Text) (is_auth_error : DialError → Bool)
    (name : Text) (prefer_direct : Bool) (top : ℕ) where
  -- A healthy round connects or retries.
  abbrev Lively : Progress Peer → Type 0
  Lively (connected way p s) = Unit {0}
  Lively (retries ms s) = Unit {0}
  Lively _ = ⊥

  relay-Lively :
      (r : Round Peer) (p : Peer) (s : Dialing Peer)
      → r.relayed p ≢ panic
      → Lively (try_relay show_error is_auth_error name prefer_direct top r p s)
  unfolding try_relay
  relay-Lively r p s calm = go (r.relayed p) calm
    where
      go :
          (o : Result DialError (Unit {0}))
          → o ≢ panic
          → Lively (after_relay show_error is_auth_error name prefer_direct top o r.now p s)
      go (ok done) h = tt
      go (err e) h = tt
      go panic h = absurd (h refl)

  direct-Lively :
      (r : Round Peer) (p : Peer) (s : Dialing Peer)
      → Healthy r
      → Lively (try_direct show_error is_auth_error name prefer_direct top r p s)
  unfolding try_direct
  direct-Lively r p s well = go (r.dialed p) (well.dials p)
    where
      go :
          (o : Result DialError (Unit {0}))
          → o ≢ panic
          → Lively (after_direct show_error is_auth_error name prefer_direct top o r p s)
      go (ok done) h = tt
      go (err e) h = relay-Lively r p _ (well.relays p)
      go panic h = absurd (h refl)

  round-Lively :
      (r : Round Peer) (s : Dialing Peer)
      → Healthy r
      → Lively (dial_round show_error is_auth_error name prefer_direct top r s)
  unfolding dial_round ensure_provider_id
  round-Lively r s well =
      go prefer_direct r.subscribed s.cached_provider well.provider well.answered
    where
      go :
          (b : Bool) (o : Result ClientError Peer) (cached : Option Peer) (p : Peer)
          → o ≡ ok p
          → Lively
              (with_provider show_error is_auth_error name b top r (ensure_provider_id o cached) s)
      go true o (some q) p h = direct-Lively r q _ well
      go false o (some q) p h = relay-Lively r q _ (well.relays q)
      go true (ok q) none p h = direct-Lively r q _ well
      go false (ok q) none p h = relay-Lively r q _ (well.relays q)
      go b (err e) none p h = absurd (cc h)
      go b panic none p h = absurd (cc h)

  -- And a round whose relay answers connects.
  relay-Connected :
      (r : Round Peer) (p : Peer) (s : Dialing Peer)
      → r.relayed p ≡ ok tt
      → Connected (try_relay show_error is_auth_error name prefer_direct top r p s)
  unfolding try_relay
  relay-Connected r p s works =
      rw works (record { way = relay; provider = p; state = _; up = refl })

  direct-Connected :
      (r : Round Peer) (p : Peer) (s : Dialing Peer)
      → Healthy r
      → ((q : Peer) → r.relayed q ≡ ok tt)
      → Connected (try_direct show_error is_auth_error name prefer_direct top r p s)
  unfolding try_direct
  direct-Connected r p s well works = go (r.dialed p) (well.dials p)
    where
      go :
          (o : Result DialError (Unit {0}))
          → o ≢ panic
          → Connected (after_direct show_error is_auth_error name prefer_direct top o r p s)
      go (ok done) h = record { way = direct; provider = p; state = _; up = refl }
      go (err e) h = relay-Connected r p _ (works p)
      go panic h = absurd (h refl)

  round-Connected :
      (r : Round Peer) (s : Dialing Peer)
      → Healthy r
      → ((q : Peer) → r.relayed q ≡ ok tt)
      → Connected (dial_round show_error is_auth_error name prefer_direct top r s)
  unfolding dial_round ensure_provider_id
  round-Connected r s well works =
      go prefer_direct r.subscribed s.cached_provider well.provider well.answered
    where
      go :
          (b : Bool) (o : Result ClientError Peer) (cached : Option Peer) (p : Peer)
          → o ≡ ok p
          → Connected
              (with_provider show_error is_auth_error name b top r (ensure_provider_id o cached) s)
      go true o (some q) p h = direct-Connected r q _ well works
      go false o (some q) p h = relay-Connected r q _ (works q)
      go true (ok q) none p h = direct-Connected r q _ well works
      go false (ok q) none p h = relay-Connected r q _ (works q)
      go b (err e) none p h = absurd (cc h)
      go b panic none p h = absurd (cc h)

  rounds-Connected :
      (before after : List (Round Peer)) (r : Round Peer) (s : Dialing Peer)
      → All Healthy before
      → Healthy r
      → ((q : Peer) → r.relayed q ≡ ok tt)
      → Connected
          (dial_rounds show_error is_auth_error name prefer_direct top (before ++ (r ∷ after)) s).1
  unfolding dial_rounds
  rounds-Connected [] after r s calm well works =
      let c = round-Connected r s well works in
      rw c.up (record { way = c.way; provider = c.provider; state = c.state; up = refl })
  rounds-Connected (b ∷ before) after r s calm well works =
      go (dial_round show_error is_auth_error name prefer_direct top b s) (round-Lively b s calm.0)
        (λ s'. rounds-Connected before after r s' calm.1 well works)
    where
      rest : Dialing Peer → List ℕ × Progress Peer
      rest s' =
          dial_rounds show_error is_auth_error name prefer_direct top (before ++ (r ∷ after)) s'

      go :
          (o : Progress Peer)
          → Lively o
          → ((s' : Dialing Peer) → Connected (rest s').1)
          → Connected (after_round rest o).1
      go (connected way p s') h later = record { way = way; provider = p; state = s'; up = refl }
      go (retries ms s') h later = later s'
      go _ h later = absurd h

module _ {Peer : Type 0} (show_error : DialError → Text) (is_auth_error : DialError → Bool) where
  -- The dial loop does not give up: whatever direct dials and relays have failed in the rounds before, it
  -- has a stream once the relay answers, if every subscription until then would be answered and
  -- no call panics.
  pub keeps_dialing :
      (name : Text) (config : ReconnectConfig) (now : ℕ) (cached : Option Peer)
      (status : RuntimeStatus) (before after : List (Round Peer)) (r : Round Peer)
      → All Healthy before
      → Healthy r
      → ((p : Peer) → r.relayed p ≡ ok tt)
      → Connected
          (dial_stream show_error is_auth_error name config now cached status
            (before ++ (r ∷ after))).1
  unfolding dial_stream
  keeps_dialing name config now cached status before after r calm well works =
      rounds-Connected show_error is_auth_error name config.prefer_direct config.max_backoff_ms
        before after r _ calm well works
