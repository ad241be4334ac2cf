-- ===== src/Exec/Transport.antt =====
-- `post_form_native_tls` of crates/binance-usdm-exec/src/order.rs and crates/binance-spot-exec/src/order.rs:
-- the request that goes out and the answer that is read. The TLS connection is a parameter, which
-- sends a request to a host and a port and returns what came back, or the text of an error, and
-- may change a state outside; so are the length of a text in bytes and `from_utf8`.
use trolly.Prelude.{ℕ, Text, codes, to_string, List, ◌++◌, Result, ok, err}
use trolly.Exec.Http.{TransportError, http, HttpResponse, parse_https_url, parse_http_response}

abbrev pub crlf : Text
crlf = codes "\r\n"

module _ (byte_len : Text → ℕ) where
  unfoldable pub request_text : Text → Text → Text → Text → Text
  request_text host path api_key body =
      codes "POST "
      ++ (path
          ++ (codes " HTTP/1.1"
              ++ (crlf
                  ++ (codes "Host: "
                      ++ (host
                          ++ (crlf
                              ++ (codes "X-MBX-APIKEY: "
                                  ++ (api_key
                                      ++ (crlf
                                          ++ (codes
                                                "Content-Type: application/x-www-form-urlencoded"
                                              ++ (crlf
                                                  ++ (codes "Content-Length: "
                                                      ++ (to_string (byte_len body)
                                                          ++ (crlf
                                                            ++ (codes "Connection: close"
                                                            ++ (crlf
                                                            ++ (crlf ++ body)))))))))))))))))

  module _ {S : Type 0} (exchange : S → Text → ℕ → Text → S × Result (List ℕ) Text)
      (from_utf8 : List ℕ → Result Text Text) where
    abbrev read_answer : S × Result (List ℕ) Text → S × Result HttpResponse TransportError
    read_answer (s, err e) = (s, err (http e))
    read_answer (s, ok raw) = (s, parse_http_response from_utf8 raw)

    unfoldable pub post_form : S → Text → Text → Text → S × Result HttpResponse TransportError
    unfolding parse_https_url parse_http_response request_text
    post_form s url api_key body = elim (parse_https_url url) [
      | err e ↦ (s, err e)
      | ok target ↦
          let (host, port, path) = target in
          read_answer (exchange s host port (request_text host path api_key body))
    ]
