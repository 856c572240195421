-- ===== src/Relay/Rates.antt =====
-- The rates of the streams in flight.
use mathlib.Core.Option
use meshly_core.Common.{
  ℕ, zero, suc, ◌<◌, ◌≡◌, refl, sym, ◌∙◌, ◌≢◌, inl, inr, Bool, true, false, ◌&&◌, Option, none,
  some, List, [], ◌∷◌, ◌++◌, arith, nat_beq, nat_beq_iff, if◌then◌else◌, Bool-cases, Option-cases,
  Eq, ◌==◌, nat_eq, list_eq, length, get_elem?, set, Result, ok, err, panic, Bytes, Text,
}
use meshly_core.Common.Map.{get, get-insert, get-remove}
use meshly_core.Alpn.{AlpnError, alpn_for_service}
use meshly_core.Registry.{
  Handle, ServerState, new_atomic, load, store, alloc_stream_id, register_relay_rate,
  unregister_relay_rate, update_relay_rate,
}
use meshly_core.Relay.{running, take_rate, start_with, start_relay, finish_relay}

module _ {A : Type 0} where
  get_elem?-old :
      (xs : List A) (i : ℕ) (y : A) → i < length xs → get_elem? (xs ++ (y ∷ [])) i ≡ get_elem? xs i
  get_elem?-old [] i y h = absurd (ground (arith, h))
  get_elem?-old (x ∷ xs) zero y h = refl
  get_elem?-old (x ∷ xs) (suc i) y h = get_elem?-old xs i y (ground (arith, h))

  get_elem?-set :
      (xs : List A) (i j : ℕ) (v : A)
      → i < length xs
      → get_elem? (set xs i v) j ≡ (if nat_beq i j then some v else get_elem? xs j)
  get_elem?-set [] i j v h = absurd (ground (arith, h))
  get_elem?-set (x ∷ xs) zero zero v h = refl
  get_elem?-set (x ∷ xs) zero (suc j) v h = ground arith
  get_elem?-set (x ∷ xs) (suc i) zero v h = ground arith
  get_elem?-set (x ∷ xs) (suc i) (suc j) v h =
      get_elem?-set xs i j v (ground (arith, h)) ∙ ground arith

module _ {Peer : Type 0} where
  -- The registered streams have ids that were given out, and handles of their own.
  pub record IsRates (st : ServerState Peer) : Type 0 where
    pub given : (i : ℕ) (h : Handle) → get i st.relay_rates ≡ some h → i < st.next_stream_id
    pub stored : (i : ℕ) (h : Handle) → get i st.relay_rates ≡ some h → h < length st.atomics
    pub own :
        (i j : ℕ) (h : Handle)
        → get i st.relay_rates ≡ some h
        → get j st.relay_rates ≡ some h
        → i ≡ j

  -- The rate that a stream's writer reads.
  abbrev pub rate_of : ServerState Peer → ℕ → Option ℕ
  rate_of st i = Option.map (λ h. load h st) (get i st.relay_rates)

  load-store :
      (h k : Handle) (v : ℕ) (st : ServerState Peer)
      → h < length st.atomics
      → load k (store h v st) ≡ (if nat_beq h k then v else load k st)
  unfolding load store
  load-store h k v st there = ground (arith, get_elem?-set st.atomics h k v there)

  rates-store :
      (h : Handle) (v : ℕ) (st : ServerState Peer) → (store h v st).relay_rates ≡ st.relay_rates
  unfolding store
  rates-store h v st = refl

module _ {Peer : Type 0} ⦃e : Eq Peer⦄ where
  updated :
      (i : ℕ) (h : Handle) (v : ℕ) (st : ServerState Peer)
      → get i st.relay_rates ≡ some h
      → update_relay_rate i v st ≡ (true, store h v st)
  unfolding update_relay_rate
  updated i h v st there = rw (there, update_relay_rate)

  -- Where the registered streams have ids that were given out and handles of their own, setting
  -- the rate of a registered stream changes what that stream's writer reads, and what no other
  -- stream's does.
  pub update_relay_rate-rate_of :
      (i j v : ℕ) (h : Handle) (st : ServerState Peer)
      → IsRates st
      → get i st.relay_rates ≡ some h
      → rate_of (update_relay_rate i v st).1 j ≡ (if nat_beq i j then some v else rate_of st j)
  unfolding load
  update_relay_rate-rate_of i j v h st good there =
      rw (updated i h v st there, rates-store h v st)
        (elim (Option-cases (get j st.relay_rates)) [
          | inl gone ↦ rw gone (ground (arith, nat_beq_iff i j, there, gone))
          | inr (k, here) ↦ rw here (
              rw (load-store h k v st (good.stored i h there))
                (ground (arith, nat_beq_iff i j, nat_beq_iff h k, there, here, good.own i j h)))
        ])

  -- A stream that runs took the next id.
  start_with-takes :
      (initial : Option ℕ) (reached : Bool) (st : ServerState Peer) (a : Result AlpnError Bytes)
      (i : ℕ) (handle : Option Handle)
      → (start_with initial reached st a).0 ≡ running i handle
      → start_with initial reached st a ≡ take_rate st.next_stream_id initial (alloc_stream_id st).1
  unfolding start_with
  start_with-takes initial false st (ok alpn) i handle h = absurd (cc h)
  start_with-takes initial true st (ok alpn) i handle h = refl
  start_with-takes initial reached st (err x) i handle h = absurd (cc h)
  start_with-takes initial reached st panic i handle h = absurd (cc h)

  take_rate-id :
      (sid : ℕ) (initial : Option ℕ) (st : ServerState Peer) (i : ℕ) (handle : Option Handle)
      → (take_rate sid initial st).0 ≡ running i handle
      → sid ≡ i
  unfolding take_rate
  take_rate-id sid none st i handle h = cc h
  take_rate-id sid (some bps) st i handle h = cc h

  take_rate-rates :
      (sid : ℕ) (initial : Option ℕ) (st : ServerState Peer) (j : ℕ)
      → nat_beq sid j ≡ false
      → get j (take_rate sid initial st).1.relay_rates ≡ get j st.relay_rates
  unfolding take_rate new_atomic register_relay_rate
  take_rate-rates sid none st j apart = refl
  take_rate-rates sid (some bps) st j apart =
      rw (get-insert sid j (length st.atomics) st.relay_rates, apart) refl

  finish-rates :
      {E : Type 0} (sid : ℕ) (result : Result E (ℕ × ℕ)) (st : ServerState Peer) (j : ℕ)
      → result ≢ panic
      → get j (finish_relay sid result st).1.relay_rates
        ≡ (if sid == j then none else get j st.relay_rates)
  unfolding finish_relay unregister_relay_rate
  finish-rates sid (ok n) st j calm = get-remove sid j st.relay_rates
  finish-rates sid (err x) st j calm = get-remove sid j st.relay_rates
  finish-rates sid panic st j calm = absurd (calm refl)

  next_unused : (st : ServerState Peer) → IsRates st → get st.next_stream_id st.relay_rates ≡ none
  next_unused st good = elim (Option-cases (get st.next_stream_id st.relay_rates)) [
    | inl gone ↦ gone
    | inr (h, there) ↦ absurd (omega (arith, good.given st.next_stream_id h there))
  ]

  -- Where the registered streams have ids that were given out, a relay task that got as far as its
  -- copy leaves the table of rates as it found it, whether the copy succeeded or failed without a
  -- panic, and whatever its initial rate was.
  pub relay_leaves_no_rate :
      {E : Type 0} (initial : Option ℕ) (service : Text) (connects opens : Bool)
      (st : ServerState Peer) (i j : ℕ) (handle : Option Handle) (result : Result E (ℕ × ℕ))
      → IsRates st
      → result ≢ panic
      → (start_relay initial service connects opens st).0 ≡ running i handle
      → get j
          (finish_relay i result (start_relay initial service connects opens st).1).1.relay_rates
        ≡ get j st.relay_rates
  unfolding start_relay
  relay_leaves_no_rate initial service connects opens st i j handle result good calm starts =
      let taken =
        start_with-takes initial (connects && opens) st (alpn_for_service service) i handle
          starts in
      let same =
        take_rate-id st.next_stream_id initial (alloc_stream_id st).1 i handle
          (rw taken at starts) in
      rw
        (
          taken,
          ← same,
          finish-rates st.next_stream_id result
              (take_rate st.next_stream_id initial (alloc_stream_id st).1).1 j calm,
        )
        (elim (Bool-cases (nat_beq st.next_stream_id j)) [
          | inl here ↦
              rw here (rw (← (nat_beq_iff st.next_stream_id j).0 here) (sym (next_unused st good)))
          | inr apart ↦
              rw apart (take_rate-rates st.next_stream_id initial (alloc_stream_id st).1 j apart)
        ])
