-- ===== src/Exec/Urls.antt =====
-- The parts of a URL are read back from it.
use trolly.Prelude.{
  ℕ, Text, codes, ◌≤◌, ◌≡◌, ok, ◌++◌, to_string, Free, Free-append, split_once_found,
  split_once_missing, parse_uint-to_string, to_string-Free, arith,
}
use trolly.Exec.Http.{parse_https_url, split_port}

-- After the scheme comes a host without `:` and `/`, then a port, then a path: these are what the
-- URL is read as.
pub parse_https_url_port :
    (host path : Text) (port : ℕ)
    → Free b':' host
    → Free b'/' host
    → port ≤ 65535
    → parse_https_url
        (codes "https://" ++ (host ++ (codes ":" ++ to_string port) ++ (codes "/" ++ path)))
      ≡ ok (host, port, codes "/" ++ path)
unfolding parse_https_url split_port
parse_https_url_port host path port colon slash h =
    let authority = host ++ (codes ":" ++ to_string port) in
    let free : Free b'/' authority =
      Free-append b'/' host _ slash (omega arith, to_string-Free b'/' port (omega arith)) in
    ground (
      arith,
      split_once_found b'/' authority path free,
      split_once_found b':' host (to_string port) colon,
      parse_uint-to_string 65535 port h,
    )

-- Without a port it is 443, and without a path it is `/`.
pub parse_https_url_default :
    (host path : Text)
    → Free b':' host
    → Free b'/' host
    → (parse_https_url (codes "https://" ++ (host ++ (codes "/" ++ path)))
        ≡ ok (host, 443, codes "/" ++ path))
      × (parse_https_url (codes "https://" ++ host) ≡ ok (host, 443, codes "/"))
unfolding parse_https_url split_port
parse_https_url_default host path colon slash =
    let found = split_once_found b'/' host path slash in
    let missing = split_once_missing b'/' host slash in
    let no_port = split_once_missing b':' host colon in
    (ground (arith, found, no_port), ground (arith, missing, no_port))
