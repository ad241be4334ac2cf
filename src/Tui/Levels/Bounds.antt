-- ===== src/Tui/Levels/Bounds.antt =====
-- How many points a curve has.
use trolly.Prelude.{
  ℕ, zero, suc, ◌≤◌, ◌≡◌, refl, ap, ◌∙◌, Text, Bool, List, [], ◌∷◌, map, length, Arithmetic, arith,
}
use trolly.Tui.Levels.{
  take, insert_by, sort_by, cumulate_down, cumulate_up, bid_cumulative_top_n, ask_cumulative_top_n,
  bid_delta_line_top_n, ask_delta_line_top_n, parse_level_pairs, parse_signed_level_pairs,
}

length-take : {A : Type 0} (n : ℕ) (xs : List A) → length (take n xs) ≤ n
length-take zero xs = omega arith
length-take (suc n) [] = omega arith
length-take (suc n) (x ∷ xs) = omega (arith, length-take n xs)

length-insert_by :
    {A : Type 0} (less : A → A → Bool) (x : A) (xs : List A)
    → length (insert_by less x xs) ≡ suc (length xs)
unfolding insert_by
length-insert_by less x [] = refl
length-insert_by less x (y ∷ ys) = ground (arith, length-insert_by less x ys)

length-sort_by :
    {A : Type 0} (less : A → A → Bool) (xs : List A) → length (sort_by less xs) ≡ length xs
unfolding sort_by
length-sort_by less [] = refl
length-sort_by less (x ∷ xs) =
    length-insert_by less x (sort_by less xs) ∙ ap suc (length-sort_by less xs)

module _ (f64 : Arithmetic) where
  open f64 use {Float}

  length-cumulate_down :
      (total : Float) (ls : List (Float × Float)) → length (cumulate_down f64 total ls) ≡ length ls
  unfolding cumulate_down
  length-cumulate_down total [] = refl
  length-cumulate_down total ((p, q) ∷ ls) = ap suc (length-cumulate_down (f64.minus total q) ls)

  length-cumulate_up :
      (cum : Float) (ls : List (Float × Float)) → length (cumulate_up f64 cum ls) ≡ length ls
  unfolding cumulate_up
  length-cumulate_up cum [] = refl
  length-cumulate_up cum ((p, q) ∷ ls) = ap suc (length-cumulate_up (f64.plus cum q) ls)

  -- No curve has more points than the levels that are asked for.
  pub length-top_n :
      (sum : List Float → Float) (levels : List (Text × Text)) (max_levels : ℕ)
      → (length (bid_cumulative_top_n f64 sum levels max_levels) ≤ max_levels)
        × (length (ask_cumulative_top_n f64 levels max_levels) ≤ max_levels)
        × (length (bid_delta_line_top_n f64 levels max_levels) ≤ max_levels)
        × (length (ask_delta_line_top_n f64 levels max_levels) ≤ max_levels)
  unfolding bid_cumulative_top_n ask_cumulative_top_n bid_delta_line_top_n ask_delta_line_top_n
  length-top_n sum levels max_levels =
      let rising : Float × Float → Float × Float → Bool = λ a b. f64.below a.0 b.0 in
      let falling : Float × Float → Float × Float → Bool = λ a b. f64.below b.0 a.0 in
      let all = parse_level_pairs f64 levels in
      let signed = parse_signed_level_pairs f64 levels in
      let bids = take max_levels (sort_by falling all) in
      let deltas = take max_levels (sort_by falling signed) in
      (
        omega (
          arith,
          length-cumulate_down (sum (map (λ l. l.1) (sort_by rising bids))) (sort_by rising bids),
          length-sort_by rising bids,
          length-take max_levels (sort_by falling all),
        ),
        omega (
          arith,
          length-cumulate_up (f64.literal (48 ∷ 46 ∷ 48 ∷ []))
              (take max_levels (sort_by rising all)),
          length-take max_levels (sort_by rising all),
        ),
        omega
            (arith, length-sort_by rising deltas, length-take max_levels (sort_by falling signed)),
        length-take max_levels (sort_by rising signed),
      )
