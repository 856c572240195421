-- ===== src/Client/Consumer/Tests.antt =====
-- A consumer whose relay fails once and then works, and the theorems on it.
use meshly_core.Common.{
  ℕ, ◌≤◌, max, ◌≡◌, refl, Bool, false, none, some, [], ◌∷◌, ◌++◌, arith, nat_eq, list_eq, get_elem?,
  ok, err, Text, text,
}
use meshly_core.Client.Dial.{DialError, call_failed}
use meshly_core.Client.Status.{RuntimeStatus, new_status}
use meshly_core.Client.Consumer.{
  ReconnectConfig, Round, clamped, clamp_backoff, ensure_provider_id, try_relay, dial_round,
  dial_rounds, dial_stream,
}
use meshly_core.Client.Consumer.Backoff.{backoff_at, backoff_doubles, clamped_sleeps}
use meshly_core.Client.Consumer.Rounds.{Healthy, Connected, keeps_dialing}
use meshly_core.Client.Consumer.Cache.{Sticks, stale_provider_kept}

abbrev show_error : DialError → Text
show_error e = text "failed"

abbrev never : DialError → Bool
never e = false

abbrev config : ReconnectConfig
config = record { initial_backoff_ms = 50; max_backoff_ms = 5000; prefer_direct = false }

abbrev down : Round ℕ
down = record {
  subscribed = ok 7;
  dialed = λ p. err (call_failed []);
  relayed = λ p. err (call_failed []);
  now = 1;
}

abbrev up : Round ℕ
up = record { subscribed = ok 7; dialed = λ p. err (call_failed []); relayed = λ p. ok tt; now = 2 }

abbrev status : RuntimeStatus
status = new_status (text "ssh" ∷ [])

abbrev hasty : ReconnectConfig
hasty = record { initial_backoff_ms = 0; max_backoff_ms = 0; prefer_direct = false }

second_sleep :
    get_elem?
      (dial_stream show_error never (text "ssh") config 0 none status (down ∷ down ∷ up ∷ [])).0
      1
    ≡ some 100
unfolding dial_stream dial_rounds dial_round ensure_provider_id try_relay
second_sleep = refl

backoff_doubles_example : 100 ≡ backoff_at 50 5000 1
backoff_doubles_example =
    backoff_doubles show_error never (text "ssh") config 0 none status (down ∷ down ∷ up ∷ []) 1 100
      (omega arith) (omega arith) second_sleep

first_sleep :
    get_elem?
      (dial_stream show_error never (text "ssh") (clamped hasty) 0 none status (down ∷ [])).0
      0
    ≡ some 10
unfolding dial_stream dial_rounds dial_round ensure_provider_id try_relay clamped clamp_backoff
first_sleep = refl

clamped_sleeps_example : (10 ≤ 10) × (10 ≤ max (max 0 10) (max 0 100))
clamped_sleeps_example =
    clamped_sleeps show_error never (text "ssh") hasty 0 none status (down ∷ []) 0 10 (omega arith)
      (omega arith) first_sleep

down-Healthy : Healthy down
down-Healthy = record { provider = 7; answered = refl; dials = λ p h. cc h; relays = λ p h. cc h }

up-Healthy : Healthy up
up-Healthy = record { provider = 7; answered = refl; dials = λ p h. cc h; relays = λ p h. cc h }

keeps_dialing_example :
    Connected
      (dial_stream show_error never (text "ssh") config 0 none status ((down ∷ []) ++ (up ∷ []))).1
keeps_dialing_example =
    keeps_dialing show_error never (text "ssh") config 0 none status (down ∷ []) [] up
      (down-Healthy, tt) up-Healthy (λ p. refl)

-- The cached provider is 3; the server would name 7.
stale_provider_kept_example :
    Sticks show_error never
      (text "ssh")
      false
      5000
      3
      (dial_stream show_error never (text "ssh") config 0 (some 3) status (down ∷ down ∷ [])).1
stale_provider_kept_example =
    stale_provider_kept show_error never (text "ssh") config 0 3 status (down ∷ down ∷ [])
      ((λ h. absurd (cc h)), ((λ h. absurd (cc h)), tt))
