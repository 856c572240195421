-- ===== src/Client/Consumer/Cache.antt =====
-- What becomes of the cached provider in the dial loop.
use meshly_core.Common.{
  ℕ, ◌≡◌, refl, Bool, true, false, some, List, [], ◌∷◌, if◌then◌else◌, nat_eq, list_eq, All, Result,
  ok, err, panic, Text,
}
use meshly_core.Client.Dial.{DialError}
use meshly_core.Client.Status.{RuntimeStatus}
use meshly_core.Client.Consumer.{
  ReconnectConfig, Round, Dialing, Progress, connected, no_provider_id, panicked, retries,
  unfinished, after_relay, after_direct, try_relay, try_direct, ensure_provider_id, after_round,
  dial_round, dial_rounds, dial_stream,
}

module _ {Peer : Type 0} (show_error : DialError → Text) (is_auth_error : DialError → Bool)
    (name : Text) (prefer_direct : Bool) (top : ℕ) (p : Peer) where
  -- Only this provider is dialed, and it stays the cached one.
  abbrev pub Sticks : Progress Peer → Type 0
  Sticks (connected way q s) = (q ≡ p) × (s.cached_provider ≡ some p)
  Sticks (no_provider_id e s) = ⊥
  Sticks panicked = Unit {0}
  Sticks (retries ms s) = s.cached_provider ≡ some p
  Sticks (unfinished s) = s.cached_provider ≡ some p

  -- No direct dial, if one is made at all, fails as if its proof were refused.
  abbrev pub Unnoticed : Round Peer → Type 0
  Unnoticed r =
      prefer_direct ≡ true
      → (q : Peer) (e : DialError) → r.dialed q ≡ err e
      → is_auth_error e ≡ false

  relay-Sticks :
      (r : Round Peer) (s : Dialing Peer)
      → s.cached_provider ≡ some p
      → Sticks (try_relay show_error is_auth_error name prefer_direct top r p s)
  unfolding try_relay
  relay-Sticks r s kept = go (r.relayed p)
    where
      go :
          (o : Result DialError (Unit {0}))
          → Sticks (after_relay show_error is_auth_error name prefer_direct top o r.now p s)
      go (ok done) = (refl, kept)
      go (err e) = kept
      go panic = tt

  direct-Sticks :
      (r : Round Peer) (s : Dialing Peer)
      → s.cached_provider ≡ some p
      → ((e : DialError) → r.dialed p ≡ err e → is_auth_error e ≡ false)
      → Sticks (try_direct show_error is_auth_error name prefer_direct top r p s)
  unfolding try_direct
  direct-Sticks r s kept unseen = go (r.dialed p) unseen
    where
      go :
          (o : Result DialError (Unit {0}))
          → ((e : DialError) → o ≡ err e → is_auth_error e ≡ false)
          → Sticks (after_direct show_error is_auth_error name prefer_direct top o r p s)
      go (ok done) h = (refl, kept)
      go (err e) h = relay-Sticks r _ (rw (h e refl) kept)
      go panic h = tt

  round-Sticks :
      (r : Round Peer) (s : Dialing Peer)
      → Unnoticed r
      → s.cached_provider ≡ some p
      → Sticks (dial_round show_error is_auth_error name prefer_direct top r s)
  unfolding dial_round ensure_provider_id
  round-Sticks r s unseen kept = rw kept (go prefer_direct unseen)
    where
      kept_here : Dialing Peer
      kept_here = record s { cached_provider = some p }

      go :
          (b : Bool)
          → (b ≡ true → (q : Peer) (e : DialError) → r.dialed q ≡ err e → is_auth_error e ≡ false)
          → Sticks (
              if b
              then try_direct show_error is_auth_error name prefer_direct top r p kept_here
              else try_relay show_error is_auth_error name prefer_direct top r p kept_here)
      go true h = direct-Sticks r kept_here refl (h refl p)
      go false h = relay-Sticks r kept_here refl

  rounds-Sticks :
      (rounds : List (Round Peer)) (s : Dialing Peer)
      → All Unnoticed rounds
      → s.cached_provider ≡ some p
      → Sticks (dial_rounds show_error is_auth_error name prefer_direct top rounds s).1
  unfolding dial_rounds
  rounds-Sticks [] s unseen kept = kept
  rounds-Sticks (r ∷ rs) s unseen kept =
      go (dial_round show_error is_auth_error name prefer_direct top r s)
        (round-Sticks r s unseen.0 kept) (λ s' h. rounds-Sticks rs s' unseen.1 h)
    where
      rest : Dialing Peer → List ℕ × Progress Peer
      rest s' = dial_rounds show_error is_auth_error name prefer_direct top rs s'

      go :
          (o : Progress Peer)
          → Sticks o
          → ((s' : Dialing Peer) → s'.cached_provider ≡ some p → Sticks (rest s').1)
          → Sticks (after_round rest o).1
      go (retries ms s') h later = later s' h
      go (connected way q s') h later = h
      go (no_provider_id e s') h later = h
      go panicked h later = h
      go (unfinished s') h later = h

module _ {Peer : Type 0} (show_error : DialError → Text) (is_auth_error : DialError → Bool) where
  -- A consumer with a cached provider never asks the server for another one, and dials no other, unless a
  -- direct dial fails with what looks like a refused proof: with prefer_direct off, whatever the
  -- relay answers and however often it refuses the proof.
  pub stale_provider_kept :
      (name : Text) (config : ReconnectConfig) (now : ℕ) (p : Peer) (status : RuntimeStatus)
      (rounds : List (Round Peer))
      → All
          (Unnoticed show_error is_auth_error name config.prefer_direct config.max_backoff_ms p)
          rounds
      → Sticks show_error is_auth_error name config.prefer_direct config.max_backoff_ms p
          (dial_stream show_error is_auth_error name config now (some p) status rounds).1
  unfolding dial_stream
  stale_provider_kept name config now p status rounds unseen =
      rounds-Sticks show_error is_auth_error name config.prefer_direct config.max_backoff_ms p
        rounds _ unseen refl
