-- ===== src/Tui/Ladder.antt =====
-- Ladders of src/bin/aggregated_depth_tui.rs: reading the printed book. `levels` is the search of
-- the crate regex for pairs of a price and a quantity.
pub mod Reading
use Prim.Native.Nat.{bit_xor}
use trolly.Prelude.{
  ℕ, zero, suc, ◌+◌, ◌*◌, ◌%◌, Text, codes, text_eq, strip_prefix, split_once, trim, trim_start,
  parse_uint, Option, none, some, List, [], ◌∷◌, ◌++◌, ◌≡◌, ap, if◌then◌else◌, eqb, tail,
}

-- The operator `?` on an `Option`.
abbrev pub and_then {ℓ κ} : {A : Type ℓ} {B : Type κ} → Option A → (A → Option B) → Option B
and_then none f = none
and_then (some a) f = f a

pub and_then-some {ℓ κ} :
    {A : Type ℓ} {B : Type κ} (o : Option A) (a : A) (f : A → Option B)
    → o ≡ some a
    → and_then o f ≡ f a
and_then-some o a f e = ap (λ x. and_then x f) e

abbrev pub u64_max : ℕ
u64_max = 18446744073709551615

-- `strip_suffix(']')`
unfoldable pub strip_bracket : Text → Option Text
strip_bracket [] = none
strip_bracket (c ∷ []) = if eqb c 93 then some [] else none
strip_bracket (c ∷ d ∷ s) = elim (strip_bracket (d ∷ s)) [ none ↦ none | some t ↦ some (c ∷ t) ]

-- What follows the bids: `, asks:` and a list in brackets.
abbrev asks_section : Text → Option Text
asks_section tail_text =
    and_then (strip_prefix (codes ", asks:") (trim_start tail_text))
      (λ listed. and_then (strip_prefix (codes "[") (trim_start listed)) strip_bracket)

abbrev pub with_bids : Text → Option Text → Option (Text × Text)
with_bids bids none = none
with_bids bids (some asks) = some (bids, asks)

-- The loop over the characters: `before` are those read so far, of which the first is `[`.
unfoldable pub scan : ℕ → Text → Text → Option (Text × Text)
unfolding strip_bracket strip_prefix trim_start
scan depth before [] = none
scan depth before (c ∷ s) =
    let nested = scan (suc depth) (before ++ c ∷ []) s in
    let inside = scan depth (before ++ c ∷ []) s in
    let closed : Option (Text × Text) = elim depth [
      | zero ↦ none
      | suc d ↦
          if eqb d 0 then with_bids (tail before) (asks_section s) else scan d (before ++ c ∷ []) s
    ] in
    if eqb c 91 then nested else if eqb c 93 then closed else inside

unfoldable pub split_bids_asks_sections : Text → Option (Text × Text)
unfolding scan
split_bids_asks_sections [] = none
split_bids_asks_sections (c ∷ s) = if eqb c 91 then scan 0 [] (c ∷ s) else none

module _ (levels : Text → List (Text × Text)) where
  unfoldable pub parse_book_display : Text → Option (ℕ × List (Text × Text) × List (Text × Text))
  unfolding split_once strip_prefix trim trim_start parse_uint split_bids_asks_sections
  parse_book_display s = and_then (split_once (codes ", bids: ") (trim s)) (λ parts.
      and_then (strip_prefix (codes "update_id: ") parts.0) (λ id_s.
        and_then (parse_uint u64_max id_s) (λ id.
          and_then (split_bids_asks_sections (trim_start parts.1))
            (λ sides. some (id, levels sides.0, levels sides.1)))))

-- The bytes of the first `max`, as `wrapping_mul` on 64 bits.
unfoldable pub fnv1a64_from : ℕ → List ℕ → ℕ → ℕ
fnv1a64_from h bytes zero = h
fnv1a64_from h [] (suc max) = h
fnv1a64_from h (b ∷ bytes) (suc max) =
    fnv1a64_from ((bit_xor h b * 1099511628211) % 18446744073709551616) bytes max

unfoldable pub fnv1a64_prefix : List ℕ → ℕ → ℕ
unfolding fnv1a64_from
fnv1a64_prefix = fnv1a64_from 14695981039346656037
