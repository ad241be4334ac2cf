-- ===== src/Tui/Levels.antt =====
-- The curves of src/bin/aggregated_depth_tui.rs: cumulative sizes, and the differences between two
-- ladders. `f64` is a parameter; `show` is its `Display`. A stable sort is insertion from the back.
pub mod Bounds
use trolly.Prelude.{
  ℕ, zero, suc, Text, codes, text_eq, text_Eq, Bool, true, false, not, ◌&&◌, ◌||◌, Option, none,
  some, List, [], ◌∷◌, ◌++◌, map, if◌then◌else◌, HashMap, lookup, insert, Arithmetic,
}

abbrev pub take {ℓ} : {A : Type ℓ} → ℕ → List A → List A
take zero xs = []
take (suc n) [] = []
take (suc n) (x ∷ xs) = x ∷ take n xs

module _ {A : Type 0} (less : A → A → Bool) where
  unfoldable pub insert_by : A → List A → List A
  insert_by x [] = x ∷ []
  insert_by x (y ∷ ys) = let rest = insert_by x ys in if less y x then y ∷ rest else x ∷ y ∷ ys

  unfoldable pub sort_by : List A → List A
  unfolding insert_by
  sort_by [] = []
  sort_by (x ∷ xs) = insert_by x (sort_by xs)

module _ (f64 : Arithmetic) where
  open f64 use {Float, literal, parse, plus, minus, below, is_finite}

  abbrev nought : Float
  nought = literal (codes "0.0")

  abbrev both_parsed : Option Float → Option Float → Option (Float × Float)
  both_parsed none q = none
  both_parsed (some p) none = none
  both_parsed (some p) (some q) = some (p, q)

  abbrev keep_if :
      (Float × Float → Bool) → Option (Float × Float) → List (Float × Float) → List (Float × Float)
  keep_if test none rest = rest
  keep_if test (some l) rest = if test l then l ∷ rest else rest

  -- `filter_map` of the levels that parse and pass the test.
  unfoldable pub level_pairs : (Float × Float → Bool) → List (Text × Text) → List (Float × Float)
  level_pairs test [] = []
  level_pairs test ((p, q) ∷ ls) =
      keep_if test (both_parsed (parse p) (parse q)) (level_pairs test ls)

  unfoldable pub parse_level_pairs : List (Text × Text) → List (Float × Float)
  unfolding level_pairs
  parse_level_pairs = level_pairs (λ l. is_finite l.0 && is_finite l.1 && below nought l.1)

  unfoldable pub parse_signed_level_pairs : List (Text × Text) → List (Float × Float)
  unfolding level_pairs
  parse_signed_level_pairs = level_pairs (λ l. is_finite l.0 && is_finite l.1)

  abbrev rising : Float × Float → Float × Float → Bool
  rising a b = below a.0 b.0

  abbrev falling : Float × Float → Float × Float → Bool
  falling a b = below b.0 a.0

  -- The size at a price and beyond it, inward: the total, less what was passed.
  unfoldable pub cumulate_down : Float → List (Float × Float) → List (Float × Float)
  cumulate_down total [] = []
  cumulate_down total ((p, q) ∷ ls) = (p, total) ∷ cumulate_down (minus total q) ls

  unfoldable pub cumulate_up : Float → List (Float × Float) → List (Float × Float)
  cumulate_up cum [] = []
  cumulate_up cum ((p, q) ∷ ls) = (p, plus cum q) ∷ cumulate_up (plus cum q) ls

  module _ (sum : List Float → Float) where
    unfoldable pub bid_cumulative_top_n : List (Text × Text) → ℕ → List (Float × Float)
    unfolding parse_level_pairs sort_by cumulate_down
    bid_cumulative_top_n levels max_levels =
        let v = sort_by rising (take max_levels (sort_by falling (parse_level_pairs levels))) in
        cumulate_down (sum (map (λ l. l.1) v)) v

  unfoldable pub ask_cumulative_top_n : List (Text × Text) → ℕ → List (Float × Float)
  unfolding parse_level_pairs sort_by cumulate_up
  ask_cumulative_top_n levels max_levels =
      cumulate_up nought (take max_levels (sort_by rising (parse_level_pairs levels)))

  unfoldable pub bid_delta_line_top_n : List (Text × Text) → ℕ → List (Float × Float)
  unfolding parse_signed_level_pairs sort_by
  bid_delta_line_top_n levels max_levels =
      sort_by rising (take max_levels (sort_by falling (parse_signed_level_pairs levels)))

  unfoldable pub ask_delta_line_top_n : List (Text × Text) → ℕ → List (Float × Float)
  unfolding parse_signed_level_pairs sort_by
  ask_delta_line_top_n levels max_levels =
      take max_levels (sort_by rising (parse_signed_level_pairs levels))

  abbrev or_nought : Option Float → Float
  or_nought none = nought
  or_nought (some q) = q

  abbrev add_qty : Text → Option Float → HashMap Text Float → HashMap Text Float
  add_qty p none m = m
  add_qty p (some q) m = if is_finite q then insert p (plus (or_nought (lookup p m)) q) m else m

  unfoldable pub qty_map_from : HashMap Text Float → List (Text × Text) → HashMap Text Float
  unfolding lookup insert
  qty_map_from m [] = m
  qty_map_from m ((p, q) ∷ ls) = qty_map_from (add_qty p (parse q) m) ls

  unfoldable pub levels_qty_map : List (Text × Text) → HashMap Text Float
  unfolding qty_map_from
  levels_qty_map = qty_map_from []

  -- The keys of the two maps, each once.
  unfoldable pub union_keys : HashMap Text Float → List Text → List Text
  union_keys [] ks = ks
  union_keys ((k, q) ∷ m) ks =
      let rest = union_keys m ks in if any_text k rest then rest else k ∷ rest
    where
      any_text : Text → List Text → Bool
      any_text k [] = false
      any_text k (j ∷ js) = text_eq k j || any_text k js

  -- A price key with its value and its difference, unless it is left out.
  abbrev pub delta_row : Bool → Text → Option Float → Float → Option (Float × Text × Float)
  delta_row omit_zero_delta p none d = none
  delta_row omit_zero_delta p (some pf) d =
      if not (is_finite d)
        || (omit_zero_delta && below (f64.abs d) (literal (codes "1e-12")))
        || not (is_finite pf)
      then none
      else some (pf, p, d)

  abbrev row_onto :
      Option (Float × Text × Float) → List (Float × Text × Float) → List (Float × Text × Float)
  row_onto none rows = rows
  row_onto (some r) rows = r ∷ rows

  unfoldable pub delta_rows :
      Bool → HashMap Text Float → HashMap Text Float → List Text → List (Float × Text × Float)
  unfolding lookup
  delta_rows omit_zero_delta bm sm [] = []
  delta_rows omit_zero_delta bm sm (p ∷ keys) =
      let d = minus (or_nought (lookup p sm)) (or_nought (lookup p bm)) in
      row_onto (delta_row omit_zero_delta p (parse p) d) (delta_rows omit_zero_delta bm sm keys)

  module _ (show : Float → Text) where
    -- `order` is the order in which the set of keys is walked.
    unfoldable pub diff_qty_levels :
        (List Text → List Text)
        → List (Text × Text)
        → List (Text × Text)
        → Bool
        → List (Text × Text)
    unfolding levels_qty_map union_keys delta_rows sort_by
    diff_qty_levels order left_side right_side omit_zero_delta =
        let bm = levels_qty_map left_side in
        let sm = levels_qty_map right_side in
        let keys = order (union_keys bm (union_keys sm [])) in
        let rows = sort_by (λ a b. below a.0 b.0) (delta_rows omit_zero_delta bm sm keys) in
        map (λ r. (r.1, show r.2)) (take 2048 rows)

  -- The bounds of an axis: a margin on both sides.
  unfoldable widen_bounds : Float → Float → Float × Float
  widen_bounds lo hi =
      let pad = f64.times (minus hi lo) (literal (codes "0.02")) in
      if not (is_finite lo) || not (is_finite hi)
      then (nought, literal (codes "1.0"))
      else if below (f64.abs (minus hi lo)) (literal (codes "1e-12"))
      then (minus lo (literal (codes "1.0")), plus hi (literal (codes "1.0")))
      else (minus lo pad, plus hi pad)
