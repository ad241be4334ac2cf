-- ===== src/Prelude/Splits.antt =====
-- The searching and number-printing methods of `str` that the program calls.
use Prim.Native.Nat.{ℕ, zero, suc, ◌+◌, ◌-◌, ◌*◌, ◌/◌, ◌%◌, ◌<◌, ◌≤◌}
use mathlib.Core.Path.{◌≡◌, refl, ap, ◌∙◌}
use mathlib.Core.Logic.{inl, inr, ◌≢◌}
use mathlib.Core.Bool.{◌&&◌}
use mathlib.Core.List.{List, [], ◌∷◌, ◌++◌, reverse, append_assoc, append-nil}
use mathlib.Core.Option.{Option, none, some}
use native.Mathlib.Omega.{arith}
use trolly.Prelude.Tests.{if◌then◌else◌, ltb, leb, eqb, Bool-cases}
use trolly.Prelude.Strings.{Text}

unfoldable pub strip_prefix : Text → Text → Option Text
strip_prefix [] s = some s
strip_prefix (p ∷ ps) [] = none
strip_prefix (p ∷ ps) (c ∷ s) = if eqb p c then strip_prefix ps s else none

abbrev before : ℕ → Option (Text × Text) → Option (Text × Text)
before c none = none
before c (some (a, b)) = some (c ∷ a, b)

-- `split_once` at the first occurrence of a separator.
unfoldable pub split_once : Text → Text → Option (Text × Text)
unfolding strip_prefix
split_once sep [] = elim (strip_prefix sep []) [ none ↦ none | some rest ↦ some ([], rest) ]
split_once sep (c ∷ s) = elim (strip_prefix sep (c ∷ s)) [
  | none ↦ before c (split_once sep s)
  | some rest ↦ some ([], rest)
]

-- `split(c)`: one part more than there are separators.
abbrev onto_first : ℕ → List Text → List Text
onto_first c [] = (c ∷ []) ∷ []
onto_first c (part ∷ parts) = (c ∷ part) ∷ parts

unfoldable pub split : ℕ → Text → List Text
split sep [] = [] ∷ []
split sep (c ∷ s) = if eqb c sep then [] ∷ split sep s else onto_first c (split sep s)

drop_leading : ℕ → Text → Text
drop_leading d [] = []
drop_leading d (c ∷ s) = if eqb c d then drop_leading d s else c ∷ s

-- `trim_end_matches(d)`
unfoldable pub trim_end_matches : ℕ → Text → Text
unfolding drop_leading
trim_end_matches d s = reverse (drop_leading d (reverse s))

-- `slice.join(sep)`
unfoldable pub join : Text → List Text → Text
join sep [] = []
join sep (s ∷ []) = s
join sep (s ∷ t ∷ ts) = s ++ (sep ++ join sep (t ∷ ts))

-- `u64::to_string`, on fuel: `decimal (suc n) n` is enough for `n`.
unfoldable pub decimal : ℕ → ℕ → Text
decimal zero n = []
decimal (suc f) n =
    let rest = decimal f (n / 10) ++ (n % 10 + 48) ∷ [] in if ltb n 10 then (n + 48) ∷ [] else rest

unfoldable pub to_string : ℕ → Text
unfolding decimal
to_string n = decimal (suc n) n

unfoldable pub parse_digits : ℕ → Text → Option ℕ
parse_digits acc [] = some acc
parse_digits acc (c ∷ s) =
    let rest = parse_digits (acc * 10 + (c - 48)) s in if leb 48 c && leb c 57 then rest else none

abbrev at_most : ℕ → Option ℕ → Option ℕ
at_most max none = none
at_most max (some n) = if leb n max then some n else none

-- `str::parse` at an unsigned type with the given greatest value: an optional `+`, then digits.
-- A value too large for the type is an error; the digits are read before they are compared.
unfoldable pub parse_uint : ℕ → Text → Option ℕ
unfolding parse_digits
parse_uint max [] = none
parse_uint max (c ∷ []) = at_most max (parse_digits 0 (c ∷ []))
parse_uint max (c ∷ d ∷ s) =
    if eqb c b'+'
    then at_most max (parse_digits 0 (d ∷ s))
    else at_most max (parse_digits 0 (c ∷ d ∷ s))

parse_digits-decimal :
    (f n : ℕ) (rest : Text) → n < f → parse_digits 0 (decimal f n ++ rest) ≡ parse_digits n rest
unfolding decimal parse_digits
parse_digits-decimal zero n rest h = elim h [ ]
parse_digits-decimal (suc f) n rest h = elim (Bool-cases (ltb n 10)) [
  | inl small ↦ rw small (ground arith)
  | inr large ↦ rw large (
      rw (append_assoc (decimal f (n / 10)) ((n % 10 + 48) ∷ []) rest)
        (parse_digits-decimal f (n / 10) ((n % 10 + 48) ∷ rest) (ground arith) ∙ ground arith))
]

decimal_head : (f n : ℕ) → n < f → (c : ℕ) × (s : Text) × (decimal f n ≡ c ∷ s) × (48 ≤ c)
unfolding decimal
decimal_head zero n h = elim h [ ]
decimal_head (suc f) n h = elim (Bool-cases (ltb n 10)) [
  | inl small ↦ (n + 48, [], rw small, omega arith)
  | inr large ↦
      let (c, s, e, d) = decimal_head f (n / 10) (ground arith) in
      (c, s ++ (n % 10 + 48) ∷ [], rw large (rw e), d)
]

parse_uint_digit :
    (max c : ℕ) (s : Text) → 48 ≤ c → parse_uint max (c ∷ s) ≡ at_most max (parse_digits 0 (c ∷ s))
unfolding parse_uint
parse_uint_digit max c [] h = refl
parse_uint_digit max c (d ∷ s) h = ground arith

-- What is printed is read back, in its range.
pub parse_uint-to_string : (max n : ℕ) → n ≤ max → parse_uint max (to_string n) ≡ some n
unfolding to_string
parse_uint-to_string max n h =
    let (c, s, e, d) = decimal_head (suc n) n (omega arith) in
    let back = parse_digits-decimal (suc n) n [] (omega arith) in
    rw e (parse_uint_digit max c s d ∙ ground (arith, back, append-nil (decimal (suc n) n), parsed))
  where
    parsed : parse_digits n [] ≡ some n
    parsed = unfold parse_digits in refl

-- A character does not occur.
abbrev pub Free : ℕ → Text → Type 0
Free c [] = Unit
Free c (d ∷ s) = (d ≢ c) × Free c s

pub split_once_found :
    (c : ℕ) (a b : Text) → Free c a → split_once (c ∷ []) (a ++ c ∷ b) ≡ some (a, b)
unfolding split_once strip_prefix
split_once_found c [] b f = ground arith
split_once_found c (d ∷ a) b f = ground (arith, split_once_found c a b f.1)

pub split_once_missing : (c : ℕ) (a : Text) → Free c a → split_once (c ∷ []) a ≡ none
unfolding split_once strip_prefix
split_once_missing c [] f = refl
split_once_missing c (d ∷ a) f = ground (arith, split_once_missing c a f.1)

pub Free-append : (c : ℕ) (a b : Text) → Free c a → Free c b → Free c (a ++ b)
Free-append c [] b f g = g
Free-append c (d ∷ a) b f g = (f.0, Free-append c a b f.1 g)

-- The separator between parts that do not hold it.
abbrev pub AllFree : ℕ → List Text → Type 0
AllFree c [] = Unit
AllFree c (s ∷ ss) = Free c s × AllFree c ss

split-Free : (c : ℕ) (s : Text) → Free c s → split c s ≡ s ∷ []
unfolding split
split-Free c [] f = refl
split-Free c (d ∷ s) f = ground (arith, split-Free c s f.1)

split-append : (c : ℕ) (s rest : Text) → Free c s → split c (s ++ c ∷ rest) ≡ s ∷ split c rest
unfolding split
split-append c [] rest f = ground arith
split-append c (d ∷ s) rest f = ground (arith, split-append c s rest f.1)

pub split-join :
    (c : ℕ) (s : Text) (ss : List Text)
    → AllFree c (s ∷ ss)
    → split c (join (c ∷ []) (s ∷ ss)) ≡ s ∷ ss
unfolding join
split-join c s [] f = split-Free c s f.0
split-join c s (t ∷ ss) f =
    split-append c s (join (c ∷ []) (t ∷ ss)) f.0 ∙ ap (λ ts. s ∷ ts) (split-join c t ss f.1)

decimal-Free : (c f n : ℕ) → c < 48 → Free c (decimal f n)
unfolding decimal
decimal-Free c zero n h = tt
decimal-Free c (suc f) n h = elim (Bool-cases (ltb n 10)) [
  | inl small ↦ rw small (omega arith, tt)
  | inr large ↦
      rw large
        (Free-append c (decimal f (n / 10)) _ (decimal-Free c f (n / 10) h) (omega arith, tt))
]

-- A printed number holds nothing below the digits: no `/`, no `+`, no space.
pub to_string-Free : (c n : ℕ) → c < 48 → Free c (to_string n)
unfolding to_string
to_string-Free c n h = decimal-Free c (suc n) n h

pub strip_prefix-append : (p s : Text) → strip_prefix p (p ++ s) ≡ some s
unfolding strip_prefix
strip_prefix-append [] s = refl
strip_prefix-append (c ∷ p) s = ground (arith, strip_prefix-append p s)

-- A separator whose first character does not stand before it.
pub split_once_text :
    (c : ℕ) (sep a b : Text) → Free c a → split_once (c ∷ sep) (a ++ ((c ∷ sep) ++ b)) ≡ some (a, b)
unfolding split_once
split_once_text c sep [] b f = rw (split_once, strip_prefix-append (c ∷ sep) b) refl
split_once_text c sep (d ∷ a) b f = ground (arith, split_once_text c sep a b f.1)
