-- ===== src/Client/Dial/Classify.antt =====
-- `is_auth_error` of crates/client/src/consume.rs: which failures of a dial it takes for a refused proof.
use meshly_core.Common.{◌≡◌, refl, Bool, true, ◌||◌, ◌++◌, arith, nat_eq, list_eq, Text, text}
use meshly_core.Common.Strings.{contains, decimal}
use meshly_core.Alpn.{AlpnError}
use meshly_core.Protocol.{Frame, AuthErr}
use meshly_core.Client.Dial.{
  DialError, bad_alpn, connect_failed, hello_not_written, call_failed, auth_refused, no_nonce,
  proof_rejected, connection_lost, no_verdict, direct, relay,
}

-- `show_alpn` is the `Display` of an ALPN error and `show_frame` the derived `Debug` of a frame.
module _ (show_alpn : AlpnError → Text) (show_frame : Frame → Text) where
  abbrev coded : Text → AuthErr → Text
  coded what e = what ++ decimal e.code ++ text " reason=" ++ e.reason

  -- `format!("{e:#}")`
  unfoldable pub display : DialError → Text
  unfolding decimal
  display (bad_alpn e) = show_alpn e
  display (connect_failed direct cause) = text "connect to provider: " ++ cause
  display (connect_failed relay cause) = text "connect to server relay: " ++ cause
  display (hello_not_written direct cause) = text "write auth hello: " ++ cause
  display (hello_not_written relay cause) = text "relay: write auth hello: " ++ cause
  display (call_failed cause) = cause
  display (auth_refused direct e) = coded (text "provider auth err code=") e
  display (auth_refused relay e) = coded (text "relay auth err code=") e
  display (no_nonce direct f) = text "expected AuthNonce, got " ++ show_frame f
  display (no_nonce relay f) = text "expected AuthNonce from relay, got " ++ show_frame f
  display (proof_rejected direct e) = coded (text "provider rejected proof: code=") e
  display (proof_rejected relay e) = coded (text "relay auth rejected: code=") e
  display (connection_lost direct cause) =
      text "provider rejected proof: code=1 reason=connection lost (" ++ cause ++ text ")"
  display (connection_lost relay cause) =
      text "relay auth rejected: code=1 reason=connection lost (" ++ cause ++ text ")"
  display (no_verdict direct f) = text "expected AuthOk, got " ++ show_frame f
  display (no_verdict relay f) = text "expected AuthOk from relay, got " ++ show_frame f

  abbrev refusal : Text → Bool
  refusal message =
      contains (text "provider rejected proof") message
      || contains (text "provider auth err") message
      || contains (text "AuthErr") message

  unfoldable pub is_auth_error : DialError → Bool
  unfolding display
  is_auth_error e = refusal (display e)

  -- Over the direct way, a provider that answers with AuthErr at either point, and a stream that is lost
  -- before the verdict, are taken for a refused proof, whatever code and reason they come with.
  pub direct_refusals :
      (e : AuthErr) (cause : Text)
      → (is_auth_error (auth_refused direct e) ≡ true)
        × (is_auth_error (proof_rejected direct e) ≡ true)
        × (is_auth_error (connection_lost direct cause) ≡ true)
  unfolding is_auth_error
  direct_refusals e cause = (ground arith, refl, refl)
