-- ===== src/Gym/Train/Gae/Reference.antt =====
-- The loop of `compute_gae` against the recursion from the back that it computes.
use trolly.Prelude.{
  ℕ, zero, suc, ◌≤◌, ◌<◌, codes, List, [], ◌∷◌, ◌++◌, ◌≡◌, refl, sym, ap, ◌∙◌, length, set, drop,
  replicate, get_elem?-lt, drop-get_elem?, drop-length, append-nil, arith,
}
use trolly.Gym.Train.Numbers.{Numbers}
use trolly.Gym.Train.Rollout.{OnPolicyTransition}
use trolly.Gym.Train.Gae.{GaeState, mask_of, gae_at, gae_step, gae_loop, compute_gae}

-- A write behind the zeros that are left.
set_last :
    {A : Type 0} (k : ℕ) (a v : A) (xs : List A)
    → set (replicate (suc k) a ++ xs) k v ≡ replicate k a ++ v ∷ xs
set_last zero a v xs = refl
set_last (suc k) a v xs = ap (λ l. a ∷ l) (set_last k a v xs)

module _ (n : Numbers) (gamma lambda : n.f64.Float) (bootstrap : n.f32.Float) where
  open n use {f32, f64, widen, narrow}

  -- The value of the state after a transition's successors: the first one's, or the bootstrap.
  abbrev pub value_after : List (OnPolicyTransition n) → f64.Float
  value_after [] = widen bootstrap
  value_after (tr ∷ rest) = widen tr.value

  -- The advantage of the first transition: its temporal difference, and the advantage of the rest
  -- with the factor gamma lambda unless the episode ended.
  abbrev pub advantage : List (OnPolicyTransition n) → f64.Float
  advantage [] = f64.literal (codes "0.0")
  advantage (tr ∷ rest) =
      let alive = mask_of n tr.is_done in
      f64.plus
        (f64.minus
          (f64.plus (widen tr.reward) (f64.times (f64.times gamma (value_after rest)) alive))
          (widen tr.value))
        (f64.times (f64.times (f64.times gamma lambda) alive) (advantage rest))

  abbrev pub advantages_of : List (OnPolicyTransition n) → List f32.Float
  advantages_of [] = []
  advantages_of (tr ∷ rest) = narrow (advantage (tr ∷ rest)) ∷ advantages_of rest

  abbrev pub returns_of : List (OnPolicyTransition n) → List f32.Float
  returns_of [] = []
  returns_of (tr ∷ rest) =
      narrow (f64.plus (advantage (tr ∷ rest)) (widen tr.value)) ∷ returns_of rest

  abbrev nought : f32.Float
  nought = f32.literal (codes "0.0")

  -- The vectors are zeros up to index `k`, and filled for the transitions `rest` from there.
  abbrev filled : ℕ → List (OnPolicyTransition n) → GaeState n gamma lambda
  filled k rest = record {
    returns = replicate k nought ++ returns_of rest;
    advantages = replicate k nought ++ advantages_of rest;
    gae = advantage rest;
    next_value = value_after rest;
  }

  gae_at-filled :
      (k : ℕ) (tr : OnPolicyTransition n) (rest : List (OnPolicyTransition n))
      → gae_at n gamma lambda k tr (filled (suc k) rest) ≡ filled k (tr ∷ rest)
  gae_at-filled k tr rest =
      let gae = advantage (tr ∷ rest) in
      rw
        (
          set_last k nought (narrow (f64.plus gae (widen tr.value))) (returns_of rest),
          set_last k nought (narrow gae) (advantages_of rest),
        )
        refl

  gae_step-filled :
      (ts : List (OnPolicyTransition n)) (k : ℕ)
      → k < length ts
      → gae_step n gamma lambda ts k (filled (suc k) (drop (suc k) ts)) ≡ filled k (drop k ts)
  unfolding gae_step
  gae_step-filled ts k h =
      let (tr, at) = get_elem?-lt ts k h in
      rw (gae_step, at)
        (gae_at-filled k tr (drop (suc k) ts) ∙ ap (filled k) (sym (drop-get_elem? ts k tr at)))

  gae_loop-filled :
      (ts : List (OnPolicyTransition n)) (k : ℕ)
      → k ≤ length ts
      → gae_loop n gamma lambda ts k (filled k (drop k ts)) ≡ filled 0 ts
  unfolding gae_loop
  gae_loop-filled ts zero h = refl
  gae_loop-filled ts (suc k) h =
      ap (gae_loop n gamma lambda ts k) (gae_step-filled ts k (omega arith))
      ∙ gae_loop-filled ts k (omega arith)

  -- The loop returns, for each transition, its return and its advantage as the recursion over the
  -- transitions after it gives them.
  pub compute_gae-reference :
      (ts : List (OnPolicyTransition n))
      → compute_gae n gamma lambda ts bootstrap ≡ (returns_of ts, advantages_of ts)
  unfolding compute_gae
  compute_gae-reference ts =
      let start : filled (length ts) (drop (length ts) ts) ≡ record {
        returns = replicate (length ts) nought;
        advantages = replicate (length ts) nought;
        gae = f64.literal (codes "0.0");
        next_value = widen bootstrap;
      } =
        rw (drop-length ts) (rw (append-nil (replicate (length ts) nought)) refl) in
      ap (λ s. (s.returns, s.advantages))
        (ap (gae_loop n gamma lambda ts (length ts)) (sym start)
          ∙ gae_loop-filled ts (length ts) (omega arith))
