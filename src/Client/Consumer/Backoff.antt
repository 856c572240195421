-- ===== src/Client/Consumer/Backoff.antt =====
-- How long the dial loop sleeps between its rounds.
use meshly_core.Common.{
  ℕ, zero, suc, ◌+◌, ◌*◌, ◌%◌, ◌^◌, ◌≤◌, ◌<◌, min, max, ◌≡◌, refl, sym, ap, ◌∙◌, Bool, true, false,
  Option, some, List, [], ◌∷◌, arith, nat_eq, list_eq, get_elem?, Result, ok, err, panic, Text,
}
use native.Mathlib.Nat.{pow-suc, mul_assoc}
use meshly_core.Client.{List, ClientError}
use meshly_core.Client.Dial.{DialError}
use meshly_core.Client.Consumer.{
  clamp_backoff, clamped, RuntimeStatus, dial_stream, after_round, dial_rounds, ReconnectConfig,
  Round, Dialing, Progress, retries, next_backoff, after_relay, after_direct, try_relay, try_direct,
  with_provider, ensure_provider_id, dial_round,
}

-- What the k-th sleep should be: the first one as configured, then doubled up to the maximum.
abbrev pub backoff_at : ℕ → ℕ → ℕ → ℕ
backoff_at initial top zero = initial
backoff_at initial top (suc k) = min (initial * 2 ^ suc k) top

module _ {Peer : Type 0} (show_error : DialError → Text) (is_auth_error : DialError → Bool)
    (name : Text) (prefer_direct : Bool) (top : ℕ) where
  -- A round that sleeps sleeps for the backoff, and leaves the next one.
  abbrev Sleeps : ℕ → Progress Peer → Type 0
  Sleeps backoff (retries ms s) = (ms ≡ backoff) × (s.backoff_ms ≡ next_backoff top backoff)
  Sleeps backoff _ = Unit {0}

  relay-Sleeps :
      (r : Round Peer) (p : Peer) (s : Dialing Peer)
      → Sleeps s.backoff_ms (try_relay show_error is_auth_error name prefer_direct top r p s)
  unfolding try_relay
  relay-Sleeps r p s = go (r.relayed p)
    where
      go :
          (o : Result DialError (Unit {0}))
          → Sleeps s.backoff_ms
              (after_relay show_error is_auth_error name prefer_direct top o r.now p s)
      go (ok done) = tt
      go (err e) = (refl, refl)
      go panic = tt

  direct-Sleeps :
      (r : Round Peer) (p : Peer) (s : Dialing Peer)
      → Sleeps s.backoff_ms (try_direct show_error is_auth_error name prefer_direct top r p s)
  unfolding try_direct
  direct-Sleeps r p s = go (r.dialed p)
    where
      go :
          (o : Result DialError (Unit {0}))
          → Sleeps s.backoff_ms
              (after_direct show_error is_auth_error name prefer_direct top o r p s)
      go (ok done) = tt
      go (err e) = relay-Sleeps r p _
      go panic = tt

  round-Sleeps :
      (r : Round Peer) (s : Dialing Peer)
      → Sleeps s.backoff_ms (dial_round show_error is_auth_error name prefer_direct top r s)
  unfolding dial_round
  round-Sleeps r s = go prefer_direct (ensure_provider_id r.subscribed s.cached_provider)
    where
      go :
          (b : Bool) (o : Result ClientError Peer × Option Peer)
          → Sleeps s.backoff_ms (with_provider show_error is_auth_error name b top r o s)
      go true (ok p, cached) = direct-Sleeps r p _
      go false (ok p, cached) = relay-Sleeps r p _
      go b (err e, cached) = tt
      go b (panic, cached) = tt

doubled : (x top : ℕ) → top < 2 ^ 63 → min (min x top * 2 % 2 ^ 64) top ≡ min (x * 2) top
doubled x top h = ground arith

pow_suc : (a k : ℕ) → a * 2 ^ suc k ≡ a * 2 ^ k * 2
pow_suc a k = ap (λ n. a * n) (pow-suc 2 k) ∙ sym (mul_assoc a (2 ^ k) 2)

next_backoff-backoff_at :
    (initial top k : ℕ)
    → initial < 2 ^ 63
    → top < 2 ^ 63
    → next_backoff top (backoff_at initial top k) ≡ backoff_at initial top (suc k)
next_backoff-backoff_at initial top zero h h' = ground arith
next_backoff-backoff_at initial top (suc k) h h' =
    doubled (initial * 2 ^ suc k) top h' ∙ ap (λ n. min n top) (sym (pow_suc initial (suc k)))

module _ {Peer : Type 0} (show_error : DialError → Text) (is_auth_error : DialError → Bool)
    (name : Text) (config : ReconnectConfig) where
  sleeps_from :
      (k : ℕ) (rounds : List (Round Peer)) (s : Dialing Peer) (n ms : ℕ)
      → config.initial_backoff_ms < 2 ^ 63
      → config.max_backoff_ms < 2 ^ 63
      → s.backoff_ms ≡ backoff_at config.initial_backoff_ms config.max_backoff_ms k
      → get_elem?
          (dial_rounds show_error is_auth_error name config.prefer_direct config.max_backoff_ms
            rounds s).0
          n
        ≡ some ms
      → ms ≡ backoff_at config.initial_backoff_ms config.max_backoff_ms (n + k)
  unfolding dial_rounds
  sleeps_from k [] s n ms h h' at there = absurd (cc there)
  sleeps_from k (r ∷ rs) s n ms h h' at there =
      go (dial_round show_error is_auth_error name config.prefer_direct config.max_backoff_ms r s)
        (round-Sleeps show_error is_auth_error name config.prefer_direct config.max_backoff_ms r s)
        n (λ s' m. sleeps_from (suc k) rs s' m ms h h') there
    where
      rest : Dialing Peer → List ℕ × Progress Peer
      rest s' =
          dial_rounds show_error is_auth_error name config.prefer_direct config.max_backoff_ms rs s'

      the_value : {x y : ℕ} → some x ≡ some y → x ≡ y
      the_value q = cc q

      go :
          (o : Progress Peer)
          → Sleeps show_error is_auth_error name config.prefer_direct config.max_backoff_ms
              s.backoff_ms o
          → (m : ℕ)
          → ((s' : Dialing Peer) (m : ℕ)
              → s'.backoff_ms ≡ backoff_at config.initial_backoff_ms config.max_backoff_ms (suc k)
              → get_elem? (rest s').0 m ≡ some ms
              → ms ≡ backoff_at config.initial_backoff_ms config.max_backoff_ms (m + suc k))
          → get_elem? (after_round rest o).0 m ≡ some ms
          → ms ≡ backoff_at config.initial_backoff_ms config.max_backoff_ms (m + k)
      go (retries slept s') (same, next) zero later here =
          sym (the_value here)
          ∙ same
          ∙ at
          ∙ ap (backoff_at config.initial_backoff_ms config.max_backoff_ms) (omega arith)
      go (retries slept s') (same, next) (suc m) later here =
          later s' m
            (next
              ∙ ap (next_backoff config.max_backoff_ms) at
              ∙ next_backoff-backoff_at config.initial_backoff_ms config.max_backoff_ms k h h')
            here
          ∙ ap (backoff_at config.initial_backoff_ms config.max_backoff_ms) (omega arith)
      go _ ok_so m later here = absurd (cc here)

  -- The sleeps of the dial loop are the configured backoff, doubled each time up to the configured
  -- maximum, if both are less than 2 ^ 63.
  pub backoff_doubles :
      (now : ℕ) (cached : Option Peer) (status : RuntimeStatus) (rounds : List (Round Peer))
      (n ms : ℕ)
      → config.initial_backoff_ms < 2 ^ 63
      → config.max_backoff_ms < 2 ^ 63
      → get_elem? (dial_stream show_error is_auth_error name config now cached status rounds).0 n
        ≡ some ms
      → ms ≡ backoff_at config.initial_backoff_ms config.max_backoff_ms n
  unfolding dial_stream
  backoff_doubles now cached status rounds n ms h h' there =
      sleeps_from 0 rounds _ n ms h h' refl there
      ∙ ap (backoff_at config.initial_backoff_ms config.max_backoff_ms) (omega arith)

grows_pow : (a n : ℕ) → a ≤ a * 2 ^ suc n
grows_pow a zero = ground arith
grows_pow a (suc n) = let more = grows_pow a n in ground (arith, pow_suc a (suc n))

-- With the clamped configuration, no sleep is shorter than 10 ms nor longer than both of its bounds.
never_hot :
    (initial top n : ℕ)
    → 10 ≤ initial
    → 100 ≤ top
    → (10 ≤ backoff_at initial top n) × (backoff_at initial top n ≤ max initial top)
never_hot initial top zero h h' = (ground arith, ground arith)
never_hot initial top (suc n) h h' = let grows = grows_pow initial n in (ground arith, ground arith)

module _ {Peer : Type 0} (show_error : DialError → Text) (is_auth_error : DialError → Bool) where
  -- Whatever backoff is configured below 2 ^ 63, a consumer that is started with its clamped values never
  -- sleeps for less than 10 ms between two rounds, nor for more than the larger of the clamped bounds.
  pub clamped_sleeps :
      (name : Text) (config : ReconnectConfig) (now : ℕ) (cached : Option Peer)
      (status : RuntimeStatus) (rounds : List (Round Peer)) (n ms : ℕ)
      → config.initial_backoff_ms < 2 ^ 63
      → config.max_backoff_ms < 2 ^ 63
      → get_elem?
          (dial_stream show_error is_auth_error name (clamped config) now cached status rounds).0
          n
        ≡ some ms
      → (10 ≤ ms) × (ms ≤ max (max config.initial_backoff_ms 10) (max config.max_backoff_ms 100))
  unfolding clamped clamp_backoff
  clamped_sleeps name config now cached status rounds n ms h h' there =
      let same =
        backoff_doubles show_error is_auth_error name (clamped config) now cached status rounds n ms
          (ground arith) (ground arith) there in
      let bounds =
        never_hot (clamp_backoff config.initial_backoff_ms 10)
          (clamp_backoff config.max_backoff_ms 100) n (ground arith) (ground arith) in
      (rw same bounds.0, rw same (below bounds.1))
    where
      below :
          {x : ℕ}
          → x
            ≤ max
                (clamp_backoff config.initial_backoff_ms 10)
                (clamp_backoff config.max_backoff_ms 100)
          → x ≤ max (max config.initial_backoff_ms 10) (max config.max_backoff_ms 100)
      below p = ground arith
