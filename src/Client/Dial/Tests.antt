-- ===== src/Client/Dial/Tests.antt =====
-- A consumer and a provider with a toy HMAC, and the theorems on them.
use meshly_core.Common.{
  ℕ, ◌≡◌, refl, ◌⊎◌, true, false, ◌&&◌, Option, none, some, List, [], ◌∷◌, ◌++◌, if◌then◌else◌,
  ◌==◌, eq_iff, nat_eq, list_eq, replicate, ok, err, Bytes, Text, text,
}
use meshly_core.Alpn.{AlpnError, alpn_for_service, validate_service_name}
use meshly_core.Protocol.{Frame, AuthErr, auth_hello, auth_proof}
use meshly_core.Protocol.Proof.{Crypto, ComparesExactly, Collision, compute_proof, verify_proof}
use meshly_core.Registry.{ServerState, dump_services}
use meshly_core.Relay.{lookup_service_any_group}
use meshly_core.Client.Provider.{opened, authenticated, Incoming, frame, static_step, run}
use meshly_core.Client.Provider.Honest.{
  static, handler_step, Proved, authenticated_only, replay_refused,
}
use meshly_core.Client.Dial.{
  direct, relay, make_proof, dial_direct, dial_relay, call_failed, auth_refused, proof_rejected,
  connection_lost,
}
use meshly_core.Client.Dial.Agreement.{
  to_provider, to_relay, told, registered_as, named, dial_direct-told, dial_relay-told, same_secret,
}
use meshly_core.Client.Dial.Classify.{is_auth_error, direct_refusals}

abbrev toy : Crypto
toy = record { hmac = λ key message. key ++ message; ct_eq = λ a b. a == b }

toy_compares : ComparesExactly toy
toy_compares a b = eq_iff a b

abbrev nonce : Bytes
nonce = replicate 32 7

abbrev secret : Bytes
secret = text "s"

abbrev ssh : Text
ssh = text "ssh"

abbrev honest : List Incoming
honest = frame auth_hello true ∷ frame (auth_proof (compute_proof toy secret ssh nonce)) true ∷ []

gets_through :
    run toy secret ssh (handler_step toy secret ssh static nonce) opened honest ≡ authenticated
unfolding static_step verify_proof
gets_through = refl

authenticated_only_example : Proved toy secret ssh nonce honest
authenticated_only_example = authenticated_only toy secret ssh static nonce honest gets_through

replay_refused_example : ((ssh ≡ ssh) × (nonce ≡ nonce)) ⊎ Collision toy secret
replay_refused_example =
    replay_refused toy toy_compares static secret ssh ssh nonce nonce true true refl refl
      gets_through

valid : alpn_for_service ssh ≡ ok (text "meshly-core/ssh")
unfolding alpn_for_service validate_service_name
valid = refl

dial_direct-told_example :
    dial_direct toy secret ssh (to_provider toy none (text "other") ssh nonce)
    ≡ told direct none (verify_proof toy (text "other") ssh nonce (make_proof toy secret ssh nonce))
dial_direct-told_example =
    dial_direct-told toy none secret (text "other") ssh ssh nonce (text "meshly-core/ssh") valid

abbrev show : ℕ → Text
show n = n ∷ []

abbrev parse : Text → Option ℕ
parse (n ∷ []) = some n
parse _ = none

abbrev at : ℕ → Text → Bytes × Bytes
at p service = (secret, nonce)

abbrev server : ServerState ℕ
server = record {
  groups =
      (
        text "g",
        record {
          name = text "g";
          token = text "t";
          sessions = [];
          services = (ssh, record { provider_id = 7 }) ∷ [];
        },
      )
      ∷ [];
  next_stream_id = 1;
  relay_rates = [];
  relay_rate_overrides = [];
  atomics = [];
}

provides : lookup_service_any_group server ssh ≡ some 7
unfolding lookup_service_any_group dump_services
provides = refl

dial_relay-told_example :
    dial_relay toy secret ssh (show 7) (show 9) (to_relay toy none parse show none at 9 server) ≡ (
      if registered_as 7 (lookup_service_any_group server ssh) && named (alpn_for_service ssh)
      then told relay none (verify_proof toy secret ssh nonce (make_proof toy secret ssh nonce))
      else err (call_failed (text "stream closed")))
dial_relay-told_example =
    dial_relay-told toy none parse show none at secret ssh 9 7 server (λ q. refl)

same_secret_example :
    (dial_relay toy secret ssh (show 7) (show 9) (to_relay toy none parse show none at 9 server)
      ≡ ok tt)
    × (dial_direct toy secret ssh (to_provider toy none secret ssh nonce) ≡ ok tt)
same_secret_example =
    same_secret toy none parse show none at ssh 9 7 server (text "meshly-core/ssh") toy_compares
      (λ q. refl) provides valid

abbrev show_alpn : AlpnError → Text
show_alpn e = text "bad name"

abbrev show_frame : Frame → Text
show_frame f = text "frame"

abbrev bad : AuthErr
bad = record { code = 1; reason = text "bad HMAC proof" }

direct_refusals_example :
    (is_auth_error show_alpn show_frame (auth_refused direct bad) ≡ true)
    × (is_auth_error show_alpn show_frame (proof_rejected direct bad) ≡ true)
    × (is_auth_error show_alpn show_frame (connection_lost direct (text "eof")) ≡ true)
direct_refusals_example = direct_refusals show_alpn show_frame bad (text "eof")

-- The same refusal over the relay goes unseen.
unseen_over_relay : is_auth_error show_alpn show_frame (proof_rejected relay bad) ≡ false
unfolding is_auth_error
unseen_over_relay = refl
