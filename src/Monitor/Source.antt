-- ===== src/Monitor/Source.antt =====
-- src/monitor/mod.rs: providers, book sources and the reading of `--sources`. An error keeps the
-- text that its message is formatted from.
pub mod Trimming
pub mod RoundTrip
use trolly.Prelude.{
  ℕ, Text, codes, text_eq, to_ascii_lowercase, to_uppercase, trim, is_empty, split_once, split,
  Bool, ◌||◌, Option, none, some, List, [], ◌∷◌, ◌++◌, map, if◌then◌else◌, Result, ok, err, ◌>>=◌,
  ok_or,
}

pub data Provider : Type 0 where
  binance : Provider
  binance_usd_m : Provider
  stub : Provider
  other : Provider

unfoldable pub label : Provider → Text
label binance = codes "binance"
label binance_usd_m = codes "binance-usd-m"
label stub = codes "stub"
label other = codes "other"

abbrev provider_of : Text → Option Provider
provider_of l =
    if text_eq l (codes "binance")
    then some binance
    else if text_eq l (codes "binance-usd-m")
        || text_eq l (codes "binance_usd_m")
        || text_eq l (codes "binanceusdm")
    then some binance_usd_m
    else if text_eq l (codes "stub")
    then some stub
    else none

unfoldable pub from_label : Text → Option Provider
unfolding text_eq
from_label l = provider_of (to_ascii_lowercase (trim l))

pub record BookSource : Type 0 where
  pub provider : Provider
  pub symbol : Text

pub data SourceError : Type 0 where
  expected_pair : Text → SourceError
  unknown_provider : Text → SourceError
  missing_symbol : Text → SourceError
  no_source : SourceError

-- `upper` is the Unicode table of `char::to_uppercase`.
module _ (upper : ℕ → Text) where
  unfoldable pub new : Provider → Text → BookSource
  new provider symbol = record { provider = provider; symbol = to_uppercase upper (trim symbol) }

  unfoldable pub stream_id : BookSource → Text
  unfolding label
  stream_id s = label s.provider ++ (codes ":" ++ s.symbol)

  unfoldable pub canonical_instrument : BookSource → Text
  canonical_instrument s = s.symbol

  abbrev with_symbol : Text → Text → Provider → Result BookSource SourceError
  with_symbol raw symbol provider =
      if is_empty (trim symbol) then err (missing_symbol raw) else ok (new provider symbol)

  abbrev with_pair : Text → Text × Text → Result BookSource SourceError
  with_pair raw pair =
      ok_or (from_label pair.0) (unknown_provider pair.0) >>= with_symbol raw pair.1

  unfoldable pub parse : Text → Result BookSource SourceError
  unfolding new from_label split_once
  parse raw =
      ok_or (split_once (codes ":") (trim raw)) (expected_pair (trim raw)) >>= with_pair (trim raw)

  -- `map(str::trim).filter(|s| !s.is_empty())`
  unfoldable pub parts : List Text → List Text
  parts [] = []
  parts (s ∷ rest) = if is_empty (trim s) then parts rest else trim s ∷ parts rest

  -- The loop of `parse_book_sources`.
  unfoldable pub parse_parts : List Text → Result (List BookSource) SourceError
  unfolding parse
  parse_parts [] = ok []
  parse_parts (part ∷ rest) =
      parse part >>= (λ source. parse_parts rest >>= (λ sources. ok (source ∷ sources)))

  abbrev at_least_one : List BookSource → Result (List BookSource) SourceError
  at_least_one [] = err no_source
  at_least_one (s ∷ ss) = ok (s ∷ ss)

  unfoldable pub parse_book_sources : Text → Result (List BookSource) SourceError
  unfolding parts parse_parts
  parse_book_sources list = parse_parts (parts (split b',' list)) >>= at_least_one
