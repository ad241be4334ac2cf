-- ===== src/Monitor/Config.antt =====
-- src/monitor/depth.rs: the configuration of the depth monitor and the symbols that it starts streams
-- for. `upper` is the Unicode table of `char::to_uppercase`.
use trolly.Prelude.{
  ℕ, Text, to_uppercase, trim, is_empty, split, Bool, true, ◌&&◌, Option, none, some, List, [], ◌∷◌,
  if◌then◌else◌, Result, ok, err,
}
use trolly.Monitor.Source.{Provider, BookSource, SourceError, parse_book_sources, parts}

pub data DepthOutput : Type 0 where
  serve global echo : DepthOutput

pub record DepthConfig : Type 0 where
  pub provider : Provider
  pub ws_url : Option Text
  pub symbols : Text
  pub sources : Option Text
  pub server_port : Option ℕ
  pub output : DepthOutput

pub data ConfigError : Type 0 where
  sources_required sources_empty symbols_empty : ConfigError
  bad_sources : SourceError → ConfigError

-- `all(|s| s.trim().is_empty())`
unfoldable pub all_blank : List Text → Bool
unfolding trim
all_blank [] = true
all_blank (s ∷ ss) = is_empty (trim s) && all_blank ss

module _ (upper : ℕ → Text) where
  abbrev pub read_sources : Text → Result (List BookSource) ConfigError
  read_sources sources = elim (parse_book_sources upper sources) [
    | ok parsed ↦ ok parsed
    | err e ↦ err (bad_sources e)
  ]

  abbrev check_sources : Option Text → Result (Unit {0}) ConfigError
  check_sources none = err sources_required
  check_sources (some sources) =
      let parsed : Result (Unit {0}) ConfigError = elim (read_sources sources) [
        | ok _ ↦ ok tt
        | err e ↦ err e
      ] in
      if is_empty (trim sources) then err sources_empty else parsed

  abbrev check_symbols : Text → Result (Unit {0}) ConfigError
  check_symbols symbols = if all_blank (split b',' symbols) then err symbols_empty else ok tt

  unfoldable pub validate : DepthConfig → Result (Unit {0}) ConfigError
  unfolding split all_blank trim parse_book_sources
  validate c = elim c.output [
    | serve ↦ check_symbols c.symbols
    | global ↦ check_sources c.sources
    | echo ↦ check_symbols c.symbols
  ]

  -- The symbols that `stream_depth_echo` starts a stream for.
  unfoldable pub echo_symbols : Text → List Text
  unfolding split parts
  echo_symbols symbols = parts upper (split b',' (to_uppercase upper symbols))

  -- The symbols that `stream_depth_serve` starts a stream for.
  unfoldable pub serve_symbols : Text → List Text
  unfolding split
  serve_symbols symbols = split b',' (to_uppercase upper symbols)
