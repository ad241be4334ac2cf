-- ===== src/Exec/Http.antt =====
-- The URL and response parsing that crates/binance-usdm-exec/src/order.rs and listen_key.rs and
-- crates/binance-spot-exec/src/order.rs each have a copy of. `std::str::from_utf8` is an argument
-- with the text of its error.
use trolly.Prelude.{
  ℕ, Text, text_Eq, codes, is_white_space, Option, none, some, List, [], ◌∷◌, ◌++◌, Result, ok, err,
  ok_or, ◌>>=◌, if◌then◌else◌, strip_prefix, split_once, parse_uint, eqb,
}

-- `TransportError::Http` and its text.
pub data TransportError : Type 0 where
  http : Text → TransportError

pub record HttpResponse : Type 0 where
  pub status : ℕ
  pub body : Text

abbrev pub u16_max : ℕ
u16_max = 65535

-- What stands before and after the first `/`.
abbrev split_path : Text → Text × Text
split_path rest = elim (split_once (codes "/") rest) [
  | none ↦ (rest, codes "/")
  | some (authority, path) ↦ (authority, codes "/" ++ path)
]

unfoldable pub split_port : Text → Result (Text × ℕ) TransportError
unfolding split_once parse_uint
split_port authority = elim (split_once (codes ":") authority) [
  | none ↦ ok (authority, 443)
  | some (host, port) ↦ elim (parse_uint u16_max port) [
    | none ↦ err (http (codes "invalid port"))
    | some n ↦ ok (host, n)
  ]
]

unfoldable pub parse_https_url : Text → Result (Text × ℕ × Text) TransportError
unfolding strip_prefix split_once split_port
parse_https_url url = do
  rest ← ok_or (strip_prefix (codes "https://") url) (http (codes "only https URLs are supported"))
  let (authority, path) = split_path rest
  host_port ← split_port authority
  ok (host_port.0, host_port.1, path)

-- `lines().next()`: up to the first line feed, without a carriage return before it. There is no
-- line in an empty text.
unfoldable drop_return : Text → Text
drop_return [] = []
drop_return (c ∷ []) = if eqb c 13 then [] else c ∷ []
drop_return (c ∷ d ∷ s) = c ∷ drop_return (d ∷ s)

unfoldable pub first_line : Text → Option Text
unfolding split_once drop_return
first_line [] = none
first_line (c ∷ s) = elim (split_once (codes "\n") (c ∷ s)) [
  | none ↦ some (c ∷ s)
  | some (line, rest) ↦ some (drop_return line)
]

-- `split_whitespace()`: the maximal runs of characters that are no white space. `word` is the
-- run that is being read, and whether there is one.
abbrev flush : Option Text → List Text → List Text
flush none words = words
flush (some word) words = word ∷ words

abbrev extend : Option Text → ℕ → Text
extend none c = c ∷ []
extend (some word) c = word ++ c ∷ []

unfoldable pub words_from : Option Text → Text → List Text
unfolding is_white_space
words_from word [] = flush word []
words_from word (c ∷ s) =
    let stop = flush word (words_from none s) in
    let go_on = words_from (some (extend word c)) s in if is_white_space c then stop else go_on

abbrev pub second : List Text → Option Text
second [] = none
second (a ∷ []) = none
second (a ∷ b ∷ rest) = some b

module _ (from_utf8 : List ℕ → Result Text Text) where
  unfoldable pub parse_http_response : List ℕ → Result HttpResponse TransportError
  unfolding split_once first_line words_from parse_uint
  parse_http_response raw = elim (from_utf8 raw) [
    | err e ↦ err (http e)
    | ok text ↦ do
      parts ← ok_or (split_once (codes "\r\n\r\n") text) (http (codes "malformed http response"))
      status_line ← ok_or (first_line parts.0) (http (codes "missing status line"))
      word ← ok_or (second (words_from none status_line)) (http (codes "missing status code"))
      status ← ok_or (parse_uint u16_max word) (http (codes "invalid status code"))
      ok (record { status = status; body = parts.1 })
  ]
