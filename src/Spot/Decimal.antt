-- ===== src/Spot/Decimal.antt =====
-- crates/binance-spot-exec/src/account.rs: the sum of two decimal texts. `none` is a panic: of a
-- slice that does not end at a character, or of a result past `i128`, where the build checks for
-- overflow. `str::len` and the slice count the bytes of UTF-8, while a padding counts characters.
use trolly.Prelude.{
  ℕ, zero, suc, ◌+◌, ◌-◌, Text, codes, ℤ, pos, negsuc, Bool, false, Option, none, some, List, [],
  ◌∷◌, ◌++◌, if◌then◌else◌, ltb, leb, eqb, length, drop, replicate, split, split_once, to_string,
  parse_uint, parse_digits,
}

abbrev i128_max : ℕ
i128_max = 170141183460469231731687303715884105727

-- `char::len_utf8`
abbrev utf8_len : ℕ → ℕ
utf8_len c = if ltb c 128 then 1 else if ltb c 2048 then 2 else if ltb c 65536 then 3 else 4

unfoldable byte_len : Text → ℕ
byte_len [] = 0
byte_len (c ∷ s) = utf8_len c + byte_len s

abbrev second_length : List Text → ℕ
second_length (a ∷ b ∷ rest) = byte_len b
second_length (a ∷ []) = 0
second_length [] = 0

unfoldable decimal_scale : Text → ℕ
unfolding byte_len
decimal_scale value = second_length (split b'.' value)

starts_negative : Text → Bool
starts_negative [] = false
starts_negative (c ∷ s) = eqb c b'-'

-- `trim_start_matches('-')`
drop_minus : Text → Text
drop_minus [] = []
drop_minus (c ∷ s) = if eqb c b'-' then drop_minus s else c ∷ s

abbrev negate : ℤ → ℤ
negate (pos zero) = pos 0
negate (pos (suc n)) = negsuc n
negate (negsuc n) = pos (n + 1)

abbrev difference : ℕ → ℕ → ℤ
difference a b = if leb b a then pos (a - b) else negsuc (b - a - 1)

abbrev add : ℤ → ℤ → ℤ
add (pos a) (pos b) = pos (a + b)
add (pos a) (negsuc b) = difference a (b + 1)
add (negsuc a) (pos b) = difference b (a + 1)
add (negsuc a) (negsuc b) = negsuc (a + b + 1)

abbrev unsigned : Option ℕ → ℤ
unsigned none = pos 0
unsigned (some n) = pos n

abbrev within : Option ℕ → ℤ
within none = pos 0
within (some n) = if leb n (i128_max + 1) then negate (pos n) else pos 0

-- `parse::<i128>().unwrap_or(0)`
unfoldable parse_i128_or_zero : Text → ℤ
unfolding parse_uint parse_digits
parse_i128_or_zero [] = pos 0
parse_i128_or_zero (c ∷ []) = unsigned (parse_uint i128_max (c ∷ []))
parse_i128_or_zero (c ∷ d ∷ s) =
    if eqb c b'-'
    then within (parse_digits 0 (d ∷ s))
    else unsigned (parse_uint i128_max (c ∷ d ∷ s))

abbrev take : ℕ → Text → Text
take zero s = []
take (suc n) [] = []
take (suc n) (c ∷ s) = c ∷ take n s

abbrev then_all {ℓ κ} : {A : Type ℓ} {B : Type κ} → (A → B) → Option A → Option B
then_all f none = none
then_all f (some a) = some (f a)

-- `&s[..n.min(s.len())]`
unfoldable slice : ℕ → Text → Option Text
slice n [] = some []
slice n (c ∷ s) =
    let rest = then_all (λ t. c ∷ t) (slice (n - utf8_len c) s) in
    if eqb n 0 then some [] else if ltb n (utf8_len c) then none else rest

-- The checks of `i128` arithmetic.
abbrev in_i128 : ℤ → Option ℤ
in_i128 (pos n) = if leb n i128_max then some (pos n) else none
in_i128 (negsuc n) = if leb n i128_max then some (negsuc n) else none

-- `{frac:0<scale$}` and `{abs:0>scale$}`
abbrev pad_right : Text → ℕ → Text
pad_right s n = s ++ replicate (n - length s) b'0'

abbrev pad_left : Text → ℕ → Text
pad_left s n = replicate (n - length s) b'0' ++ s

abbrev whole_frac : Text → Text × Text
whole_frac s = elim (split_once (codes ".") s) [ none ↦ (s, []) | some parts ↦ parts ]

unfoldable scaled : Bool → Text → Text → Option ℤ
unfolding parse_i128_or_zero
scaled is_negative whole frac =
    let parsed = parse_i128_or_zero (whole ++ frac) in
    if is_negative then in_i128 (negate parsed) else some parsed

unfoldable to_scaled_i128 : Text → ℕ → Option ℤ
unfolding starts_negative drop_minus split_once slice scaled
to_scaled_i128 value scale =
    let parts = whole_frac (drop_minus value) in
    elim (slice scale (pad_right parts.1 scale)) [
      | none ↦ none
      | some frac ↦ scaled (starts_negative value) parts.0 frac
    ]

abbrev with_point : ℕ → ℕ → Text
with_point abs scale =
    let digits = to_string abs in
    let cut = length digits - scale in
    if leb (length digits) scale
    then codes "0." ++ pad_left digits scale
    else take cut digits ++ (codes "." ++ drop cut digits)

unfoldable format_scaled : ℤ → ℕ → Text
format_scaled (pos n) scale = if eqb scale 0 then to_string n else with_point n scale
format_scaled (negsuc n) scale =
    codes "-" ++ (if eqb scale 0 then to_string (n + 1) else with_point (n + 1) scale)

abbrev max : ℕ → ℕ → ℕ
max a b = if ltb a b then b else a

abbrev checked_sum : Option ℤ → Option ℤ → Option ℤ
checked_sum none rhs = none
checked_sum (some a) none = none
checked_sum (some a) (some b) = in_i128 (add a b)

unfoldable pub add_decimal_strings : Text → Text → Option Text
unfolding decimal_scale to_scaled_i128 format_scaled
add_decimal_strings lhs rhs =
    let scale = max (decimal_scale lhs) (decimal_scale rhs) in
    then_all (λ sum. format_scaled sum scale)
      (checked_sum (to_scaled_i128 lhs scale) (to_scaled_i128 rhs scale))
