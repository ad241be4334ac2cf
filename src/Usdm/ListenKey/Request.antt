-- ===== src/Usdm/ListenKey/Request.antt =====
-- `request_native_tls` and `parse_http_response` of crates/binance-usdm-exec/src/listen_key.rs. The
-- TLS connection, the length of a text in bytes and `from_utf8` are parameters, as they are of
-- the order transport.
use trolly.Prelude.{
  ℕ, Text, codes, to_string, split_once, parse_uint, Option, none, some, List, [], ◌++◌, Result, ok,
  err, ok_or, ◌>>=◌,
}
use trolly.Exec.Http.{HttpResponse, u16_max, first_line, words_from, second}
use trolly.Exec.Transport.{crlf}
use trolly.Usdm.ListenKey.{ListenKeyError, transport, parse_listen_key_url}

-- `nth(1)` and the number that it is, if it is one.
abbrev status_of : Option Text → Option ℕ
status_of none = none
status_of (some word) = parse_uint u16_max word

module _ (from_utf8 : List ℕ → Result Text Text) where
  unfoldable parse_http_response : List ℕ → Result HttpResponse ListenKeyError
  unfolding split_once first_line words_from parse_uint
  parse_http_response raw = elim (from_utf8 raw) [
    | err e ↦ err (transport e)
    | ok text ↦ do
      parts ←
          ok_or (split_once (codes "\r\n\r\n") text) (transport (codes "malformed http response"))
      status_line ← ok_or (first_line parts.0) (transport (codes "missing status line"))
      status ←
          ok_or (status_of (second (words_from none status_line)))
            (transport (codes "invalid status line"))
      ok (record { status = status; body = parts.1 })
  ]

  module _ (byte_len : Text → ℕ) {S : Type 0}
      (exchange : S → Text → ℕ → Text → S × Result (List ℕ) Text) where
    abbrev body_or_empty : Option Text → Text
    body_or_empty none = []
    body_or_empty (some body) = body

    abbrev header : Text → Text → Text
    header name value = name ++ (codes ": " ++ (value ++ crlf))

    unfoldable request_text : Text → Text → Text → Text → Text → Text
    request_text method path host api_key body =
        (method ++ (codes " " ++ (path ++ (codes " HTTP/1.1" ++ crlf))))
        ++ (header (codes "Host") host
            ++ (header (codes "X-MBX-APIKEY") api_key
                ++ (header (codes "Content-Length") (to_string (byte_len body))
                    ++ (header (codes "Connection") (codes "close") ++ (crlf ++ body)))))

    abbrev read_answer : S × Result (List ℕ) Text → S × Result HttpResponse ListenKeyError
    read_answer (s, err e) = (s, err (transport e))
    read_answer (s, ok raw) = (s, parse_http_response raw)

    unfoldable request_native_tls :
        S → Text → Text → Text → Option Text → S × Result HttpResponse ListenKeyError
    unfolding parse_listen_key_url parse_http_response request_text
    request_native_tls s method url api_key body = elim (parse_listen_key_url url) [
      | err e ↦ (s, err e)
      | ok target ↦
          let (host, port, path) = target in
          read_answer
            (exchange s host port (request_text method path host api_key (body_or_empty body)))
    ]
