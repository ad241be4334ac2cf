-- ===== src/Gym/Games/Payoffs.antt =====
-- Games that are built pay for all their actions, and the players' payoffs sum to nothing.
use trolly.Prelude.{
  ℕ, zero, suc, ◌<◌, ◌≡◌, true, some, List, [], ◌∷◌, map, length, get_elem?, get_elem?-lt,
  Arithmetic, arith, Option-cases, inl, inr,
}
use trolly.Gym.Games.{MatrixGame, all_of_length, new_game, payoff_for, payoffs}

module _ (f64 : Arithmetic) where
  open f64 use {Float}

  row_length :
      (n i : ℕ) (rows : List (List Float)) (row : List Float)
      → all_of_length f64 n rows ≡ true
      → get_elem? rows i ≡ some row
      → length row ≡ n
  unfolding all_of_length
  row_length n i [] row e at = cc
  row_length n zero (r ∷ rows) row e at = ground arith
  row_length n (suc i) (r ∷ rows) row e at = row_length n i rows row (ground arith) at

  -- In a game that is built, each pair of actions in range has a payoff.
  payoff_for-new_game :
      (table : List (List Float)) (g : MatrixGame f64) (i j : ℕ)
      → new_game f64 table ≡ some g
      → i < g.num_row_actions
      → j < g.num_col_actions
      → (p : Float) × (payoff_for f64 g i j ≡ some p)
  unfolding new_game payoff_for
  payoff_for-new_game [] g i j e h k = cc
  payoff_for-new_game (r ∷ rows) g i j e h k =
      let all : all_of_length f64 (length r) (r ∷ rows) ≡ true = ground arith in
      let table : g.payoff ≡ r ∷ rows = ground arith in
      let wide : g.num_col_actions ≡ length r = ground arith in
      let high : g.num_row_actions ≡ length (r ∷ rows) = ground arith in
      let (row, at) = get_elem?-lt (r ∷ rows) i (omega (arith, high)) in
      let len = row_length (length r) i (r ∷ rows) row all at in
      let (p, at') = get_elem?-lt row j (omega (arith, wide, len)) in (p, rw (table, at) at')

  module _ (f32 : Arithmetic) (narrow : Float → f32.Float) where
    -- The column player gets the negation of what the row player gets, pair by pair.
    payoffs-negate :
        (g : MatrixGame f64) (pairs : List (ℕ × ℕ)) (p1 p2 : List f32.Float)
        → payoffs f64 f32 narrow g pairs ≡ some (p1, p2)
        → p2 ≡ map f32.negate p1
    unfolding payoffs
    payoffs-negate g [] p1 p2 e = ground arith
    payoffs-negate g ((a1, a2) ∷ pairs) p1 p2 e =
        elim (Option-cases (payoffs f64 f32 narrow g pairs)) [
          | inl n ↦ elim (Option-cases (payoff_for f64 g a1 a2)) [
            | inl m ↦ absurd (ground arith)
            | inr (r, m) ↦ absurd (ground arith)
          ]
          | inr ((q1, q2), n) ↦ elim (Option-cases (payoff_for f64 g a1 a2)) [
            | inl m ↦ absurd (ground arith)
            | inr (r, m) ↦ ground (arith, payoffs-negate g pairs q1 q2 n)
          ]
        ]
