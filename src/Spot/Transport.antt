-- ===== src/Spot/Transport.antt =====
-- crates/binance-spot-exec/src/order.rs: `NativeTlsTransport`. Its helpers are, word for word,
-- those of the other execution crate.
use trolly.Prelude.{ℕ, Text, List, Result}
use trolly.Exec.Http
use trolly.Exec.Http.{HttpResponse, TransportError}
use trolly.Exec.Transport
use trolly.Spot.Client.{Post}

unfoldable parse_https_url : Text → Result (Text × ℕ × Text) TransportError
unfolding Http.parse_https_url
parse_https_url = Http.parse_https_url

module _ (from_utf8 : List ℕ → Result Text Text) where
  unfoldable parse_http_response : List ℕ → Result HttpResponse TransportError
  unfolding Http.parse_http_response
  parse_http_response = Http.parse_http_response from_utf8

  module _ (byte_len : Text → ℕ) {S : Type 0}
      (exchange : S → Text → ℕ → Text → S × Result (List ℕ) Text) where
    unfoldable post_form_native_tls :
        S → Text → Text → Text → S × Result HttpResponse TransportError
    unfolding Transport.post_form
    post_form_native_tls = Transport.post_form byte_len exchange from_utf8

    -- `post_form` of `NativeTlsTransport`, as the client takes it.
    unfoldable native_tls_transport : S → Post → S × Result HttpResponse TransportError
    unfolding post_form_native_tls
    native_tls_transport s p = post_form_native_tls s p.url p.api_key p.body
