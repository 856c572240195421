-- ===== src/Relay/Reached.antt =====
-- The states that the relay tasks and the changes of rates can bring the server into.
use meshly_core.Common.{
  ℕ, ◌+◌, ◌^◌, ◌<◌, ◌≡◌, sym, ap, inl, inr, Bool, true, false, ◌&&◌, Option, none, some, List, [],
  ◌∷◌, arith, nat_beq_iff, if◌then◌else◌, Option-cases, Eq, nat_eq, list_eq, length, length-append,
  length-set, Result, ok, err, panic, Bytes, Text,
}
use meshly_core.Common.Map.{get, get-insert, get-remove}
use meshly_core.Config.{GroupConfig}
use meshly_core.Alpn.{AlpnError, alpn_for_service}
use meshly_core.Registry.{
  Handle, ServerState, RegisterError, new, new_atomic, store, alloc_stream_id, register_relay_rate,
  unregister_relay_rate, update_relay_rate,
}
use meshly_core.Relay.{take_rate, start_with, start_relay, finish_relay}
use meshly_core.Relay.Rates.{IsRates}

module _ {Peer : Type 0} ⦃e : Eq Peer⦄ where
  -- From the start of the server, by relay tasks that begin and end and by changes of rates, in any order.
  -- The counter of stream ids does not wrap.
  pub data Reached : ServerState Peer → Type 0 where
    fresh :
        {st : ServerState Peer} (groups : List GroupConfig) (overrides : List (Peer × ℕ))
        → new groups overrides ≡ ok st
        → Reached st
    started :
        {st : ServerState Peer} (initial : Option ℕ) (service : Text) (connects opens : Bool)
        → st.next_stream_id + 1 < 2 ^ 64
        → Reached st
        → Reached (start_relay initial service connects opens st).1
    ended :
        {st : ServerState Peer} (i : ℕ) (result : Result AlpnError (ℕ × ℕ))
        → Reached st
        → Reached (finish_relay i result st).1
    retuned : {st : ServerState Peer} (i v : ℕ) → Reached st → Reached (update_relay_rate i v st).1

  pub passed_assert :
      (failed : Bool) (made st : ServerState Peer)
      → ◌≡◌ {A = Result RegisterError (ServerState Peer)}
          (if failed then panic else ok made)
          (ok st)
      → made ≡ st
  passed_assert true made st h = cc h
  passed_assert false made st h = cc h

  no-IsRates : (st : ServerState Peer) → st.relay_rates ≡ [] → IsRates st
  unfolding get
  no-IsRates st none_yet = record {
    given = λ i h there. ground (arith, none_yet);
    stored = λ i h there. ground (arith, none_yet);
    own = λ i j h here there. ground (arith, none_yet);
  }

  fresh-IsRates :
      (groups : List GroupConfig) (overrides : List (Peer × ℕ)) (st : ServerState Peer)
      → new groups overrides ≡ ok st
      → IsRates st
  unfolding new
  fresh-IsRates groups overrides st h =
      no-IsRates st (ap (λ (x : ServerState Peer). x.relay_rates) (sym (passed_assert _ _ st h)))

  take-IsRates :
      (initial : Option ℕ) (st : ServerState Peer)
      → st.next_stream_id + 1 < 2 ^ 64
      → IsRates st
      → IsRates (take_rate st.next_stream_id initial (alloc_stream_id st).1).1
  unfolding take_rate alloc_stream_id new_atomic register_relay_rate
  take-IsRates none st small good = record {
    given = λ i h there. omega (arith, good.given i h there);
    stored = good.stored;
    own = good.own;
  }
  take-IsRates (some bps) st small good = record {
    given = λ i h there.
        ground (
          arith,
          good.given i h,
          get-insert st.next_stream_id i (length st.atomics) st.relay_rates,
        );
    stored = λ i h there. ground (
      arith,
      good.stored i h,
      length-append st.atomics (bps ∷ []),
      get-insert st.next_stream_id i (length st.atomics) st.relay_rates,
    );
    own = λ i j h here there. ground (
      arith,
      good.own i j h,
      good.stored i h,
      good.stored j h,
      nat_beq_iff st.next_stream_id i,
      nat_beq_iff st.next_stream_id j,
      get-insert st.next_stream_id i (length st.atomics) st.relay_rates,
      get-insert st.next_stream_id j (length st.atomics) st.relay_rates,
    );
  }

  start-IsRates :
      (initial : Option ℕ) (reached : Bool) (st : ServerState Peer) (a : Result AlpnError Bytes)
      → st.next_stream_id + 1 < 2 ^ 64
      → IsRates st
      → IsRates (start_with initial reached st a).1
  unfolding start_with
  start-IsRates initial false st (ok alpn) small good = good
  start-IsRates initial true st (ok alpn) small good = take-IsRates initial st small good
  start-IsRates initial reached st (err x) small good = good
  start-IsRates initial reached st panic small good = good

  unregister-IsRates :
      (i : ℕ) (st : ServerState Peer) → IsRates st → IsRates (unregister_relay_rate i st)
  unfolding unregister_relay_rate
  unregister-IsRates i st good = record {
    given = λ j h there. ground (arith, good.given j h, get-remove i j st.relay_rates);
    stored = λ j h there. ground (arith, good.stored j h, get-remove i j st.relay_rates);
    own = λ j k h here there.
        ground
          (arith, good.own j k h, get-remove i j st.relay_rates, get-remove i k st.relay_rates);
  }

  finish-IsRates :
      {E : Type 0} (i : ℕ) (result : Result E (ℕ × ℕ)) (st : ServerState Peer)
      → IsRates st
      → IsRates (finish_relay i result st).1
  unfolding finish_relay
  finish-IsRates i (ok n) st good = unregister-IsRates i st good
  finish-IsRates i (err x) st good = unregister-IsRates i st good
  finish-IsRates i panic st good = good

  store-IsRates : (h : Handle) (v : ℕ) (st : ServerState Peer) → IsRates st → IsRates (store h v st)
  unfolding store
  store-IsRates h v st good = record {
    given = good.given;
    stored = λ i k there. ground (arith, good.stored i k, length-set st.atomics h v);
    own = good.own;
  }

  retune-IsRates :
      (i v : ℕ) (st : ServerState Peer) → IsRates st → IsRates (update_relay_rate i v st).1
  unfolding update_relay_rate
  retune-IsRates i v st good = elim (Option-cases (get i st.relay_rates)) [
    | inl gone ↦ rw (gone, update_relay_rate) good
    | inr (h, there) ↦ rw (there, update_relay_rate) (store-IsRates h v st good)
  ]

  -- In every state that is reached, the registered streams have ids that were given out, and each has a
  -- handle of its own.
  pub Reached-IsRates : (st : ServerState Peer) → Reached st → IsRates st
  unfolding start_relay
  Reached-IsRates st (fresh groups overrides h) = fresh-IsRates groups overrides st h
  Reached-IsRates _ (started {st} initial service connects opens small r) =
      start-IsRates initial (connects && opens) st (alpn_for_service service) small
        (Reached-IsRates st r)
  Reached-IsRates _ (ended {st} i result r) = finish-IsRates i result st (Reached-IsRates st r)
  Reached-IsRates _ (retuned {st} i v r) = retune-IsRates i v st (Reached-IsRates st r)
