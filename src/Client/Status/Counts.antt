-- ===== src/Client/Status/Counts.antt =====
-- What the count of forwarded streams counts.
use meshly_core.Common.{
  ℕ, ◌+◌, ◌-◌, ◌^◌, ◌≤◌, min, ◌≡◌, refl, ap, ◌∙◌, inl, inr, Bool, true, false, ◌&&◌, Option, some,
  List, [], ◌∷◌, arith, if◌then◌else◌, Bool-cases, ◌==◌, eq_iff, beq_self, nat_eq, list_eq, Text,
}
use meshly_core.Common.Map.{Map, get, insert, get-insert}
use meshly_core.Client.Status.{
  ConsumerState, ConsumerStatus, RuntimeStatus, default_consumer, default_consumers, or_default,
  is_live, new_status, updated_consumer, consumer_of, set_consumer_state,
}

-- One call of `set_consumer_state`.
pub record Report : Type 0 where
  pub at : ℕ
  pub consumer : Text
  pub state : ConsumerState
  pub mode : Option Text
  pub error : Option Text

abbrev pub reported : List Report → RuntimeStatus → RuntimeStatus
reported [] s = s
reported (r ∷ rs) s = reported rs (set_consumer_state r.at r.consumer r.state r.mode r.error s)

-- How often these reports say that a stream of this consumer is live.
abbrev pub lives : Text → List Report → ℕ
lives name [] = 0
lives name (r ∷ rs) = (if r.consumer == name && is_live r.state then 1 else 0) + lives name rs

set_consumer_state-consumer_of :
    (name : Text) (r : Report) (s : RuntimeStatus)
    → consumer_of name (set_consumer_state r.at r.consumer r.state r.mode r.error s) ≡ (
        if r.consumer == name
        then updated_consumer r.at r.state r.mode r.error (consumer_of name s)
        else consumer_of name s)
unfolding set_consumer_state
set_consumer_state-consumer_of name r s = elim (Bool-cases (r.consumer == name)) [
  | inl same ↦ rw ((eq_iff r.consumer name).0 same) (here name)
  | inr other ↦ rw other (
      ap or_default (
        rw other at (
          get-insert r.consumer name
            (updated_consumer r.at r.state r.mode r.error (consumer_of r.consumer s)) s.consumers)))
]
  where
    here :
        (n : Text)
        → or_default (
            get n (
              insert n
                (updated_consumer r.at r.state r.mode r.error (consumer_of n s))
                s.consumers))
          ≡ (if n == n
              then updated_consumer r.at r.state r.mode r.error (consumer_of n s)
              else consumer_of n s)
    here n = rw (beq_self n) (
        ap or_default (
          rw (beq_self n) at (
            get-insert n n (updated_consumer r.at r.state r.mode r.error (consumer_of n s))
              s.consumers)))

forwarded_once :
    (name : Text) (r : Report) (s : RuntimeStatus)
    → (consumer_of name s).forwarded_streams ≤ 2 ^ 64 - 1
    → (consumer_of name
        (set_consumer_state r.at r.consumer r.state r.mode r.error s)).forwarded_streams
      ≡ min
          ((consumer_of name s).forwarded_streams
            + (if r.consumer == name && is_live r.state then 1 else 0))
          (2 ^ 64 - 1)
unfolding updated_consumer
forwarded_once name r s h =
    ap (λ (c : ConsumerStatus). c.forwarded_streams) (set_consumer_state-consumer_of name r s)
    ∙ ground arith

forwarded_from :
    (name : Text) (rs : List Report) (s : RuntimeStatus)
    → (consumer_of name s).forwarded_streams ≤ 2 ^ 64 - 1
    → (consumer_of name (reported rs s)).forwarded_streams
      ≡ min ((consumer_of name s).forwarded_streams + lives name rs) (2 ^ 64 - 1)
forwarded_from name [] s h = ground arith
forwarded_from name (r ∷ rs) s h =
    let one = forwarded_once name r s h in
    forwarded_from name rs (set_consumer_state r.at r.consumer r.state r.mode r.error s)
      (ground (arith, one))
    ∙ ground (arith, one)

all_default :
    (name : Text) (names : List Text) (m : Map Text ConsumerStatus)
    → or_default (get name m) ≡ default_consumer
    → or_default (get name (default_consumers names m)) ≡ default_consumer
all_default name [] m h = h
all_default name (n ∷ names) m h =
    all_default name names (insert n default_consumer m)
      (ap or_default (get-insert n name default_consumer m) ∙ either (n == name))
  where
    either :
        (b : Bool) → or_default (if b then some default_consumer else get name m) ≡ default_consumer
    either true = refl
    either false = h

-- From the start of the client, the count that `--status` shows for a consumer is the number of its
-- streams that came up, and stays at 2 ^ 64 - 1 from there on, whatever was reported of others.
pub forwarded_counts :
    (name : Text) (names : List Text) (rs : List Report)
    → (consumer_of name (reported rs (new_status names))).forwarded_streams
      ≡ min (lives name rs) (2 ^ 64 - 1)
unfolding new_status get
forwarded_counts name names rs =
    let fresh = ap (λ (c : ConsumerStatus). c.forwarded_streams) (all_default name names [] refl) in
    forwarded_from name rs (new_status names) (ground (arith, fresh)) ∙ ground (arith, fresh)
