-- ===== src/Gym/Games.antt =====
-- crates/trolly-gym/src/games: two-player zero-sum matrix games, and what self-play computes outside the
-- tensors. `none` is a panic.
pub mod Payoffs
use Prim.Native.String.{String}
use trolly.Prelude.{
  ℕ, zero, suc, ◌-◌, Text, codes, Bool, true, false, ◌&&◌, Option, none, some, List, [], ◌∷◌, map,
  if◌then◌else◌, eqb, ltb, length, get_elem?, drop, Arithmetic,
}

module _ (f64 : Arithmetic) where
  open f64 use {Float, literal, negate}

  pub record MatrixGame : Type 0 where
    pub payoff : List (List Float)
    pub num_row_actions : ℕ
    pub num_col_actions : ℕ

  unfoldable pub all_of_length : ℕ → List (List Float) → Bool
  all_of_length n [] = true
  all_of_length n (row ∷ rows) = eqb (length row) n && all_of_length n rows

  -- `MatrixGame::new`, with its three assertions.
  unfoldable pub new_game : List (List Float) → Option MatrixGame
  unfolding all_of_length
  new_game [] = none
  new_game (row ∷ rows) =
      if ltb 0 (length row) && all_of_length (length row) (row ∷ rows)
      then some (record {
        payoff = row ∷ rows;
        num_row_actions = length (row ∷ rows);
        num_col_actions = length row;
      })
      else none

  abbrev at_column : Option (List Float) → ℕ → Option Float
  at_column none j = none
  at_column (some row) j = get_elem? row j

  unfoldable pub payoff_for : MatrixGame → ℕ → ℕ → Option Float
  payoff_for g row_action col_action = at_column (get_elem? g.payoff row_action) col_action

  abbrev lit : String → Float
  lit s = literal (codes s)

  unfoldable pub matching_pennies_standard : Option MatrixGame
  unfolding new_game
  matching_pennies_standard =
      new_game ((lit "1.0" ∷ lit "-1.0" ∷ []) ∷ (lit "-1.0" ∷ lit "1.0" ∷ []) ∷ [])

  unfoldable pub matching_pennies_weighted : Option MatrixGame
  unfolding new_game
  matching_pennies_weighted =
      new_game ((lit "2.0" ∷ lit "-1.0" ∷ []) ∷ (lit "-1.0" ∷ lit "1.0" ∷ []) ∷ [])

  unfoldable pub rps_standard : Option MatrixGame
  unfolding new_game
  rps_standard = new_game (
      (lit "0.0" ∷ lit "-1.0" ∷ lit "1.0" ∷ [])
      ∷ (lit "1.0" ∷ lit "0.0" ∷ lit "-1.0" ∷ [])
      ∷ (lit "-1.0" ∷ lit "1.0" ∷ lit "0.0" ∷ [])
      ∷ [])

  unfoldable pub rps_weighted : Option MatrixGame
  unfolding new_game
  rps_weighted = new_game (
      (lit "0.0" ∷ lit "-2.0" ∷ lit "2.0" ∷ [])
      ∷ (lit "2.0" ∷ lit "0.0" ∷ lit "-1.0" ∷ [])
      ∷ (lit "-2.0" ∷ lit "1.0" ∷ lit "0.0" ∷ [])
      ∷ [])

  -- The payoffs of the two players for the sampled pairs of actions; the casts to `f32` are left
  -- to `narrow`.
  module _ (f32 : Arithmetic) (narrow : Float → f32.Float) where
    abbrev pay :
        Option Float
        → Option (List f32.Float × List f32.Float)
        → Option (List f32.Float × List f32.Float)
    pay none rest = none
    pay (some r) none = none
    pay (some r) (some (p1, p2)) = some (narrow r ∷ p1, f32.negate (narrow r) ∷ p2)

    unfoldable pub payoffs : MatrixGame → List (ℕ × ℕ) → Option (List f32.Float × List f32.Float)
    unfolding payoff_for
    payoffs g [] = some ([], [])
    payoffs g ((a1, a2) ∷ pairs) = pay (payoff_for g a1 a2) (payoffs g pairs)

  -- `fold(f64::NEG_INFINITY, f64::max)`
  unfoldable largest_from : Float → List Float → Float
  largest_from best [] = best
  largest_from best (d ∷ ds) = largest_from (f64.maximum best d) ds

  module _ (is_infinite : Float → Bool) where
    -- The reported distance of `to_result`.
    unfoldable max_distance_last_10 : List Float → Float
    unfolding largest_from
    max_distance_last_10 distances =
        let most = largest_from (negate f64.infinity) (drop (length distances - 10) distances) in
        if is_infinite most then lit "0.0" else most

  -- The squares of the differences.
  unfoldable distances : List Float → List Float → List Float
  distances [] qs = []
  distances (p ∷ ps) [] = []
  distances (p ∷ ps) (q ∷ qs) = f64.times (f64.minus p q) (f64.minus p q) ∷ distances ps qs

  module _ (sum : List Float → Float) where
    -- The assertion, then the distance.
    unfoldable euclidean_distance_to_nes : List Float → List Float → Option Float
    unfolding distances
    euclidean_distance_to_nes policy_probs nes_probs =
        if eqb (length policy_probs) (length nes_probs)
        then some (f64.sqrt (sum (distances policy_probs nes_probs)))
        else none
