-- ===== src/Gym/Train/Gae.antt =====
-- `compute_gae` and `into_batch` of crates/trolly-gym/src/train/rollout.rs: the loop that fills the
-- two vectors from the back. `ts[i]` is in range there, as `i` is below the length.
pub mod Reference
use trolly.Prelude.{
  ℕ, zero, suc, codes, Bool, true, false, Option, none, some, List, [], ◌∷◌, map, length, get_elem?,
  set, replicate,
}
use trolly.Gym.Observation.{flatten}
use trolly.Gym.Train.Numbers.{Numbers}
use trolly.Gym.Train.Rollout.{OnPolicyTransition, RolloutBatch, RolloutCollector}

module _ (n : Numbers) where
  open n use {f32, f64, widen, narrow}

  abbrev pub mask_of : Bool → f64.Float
  mask_of true = f64.literal (codes "0.0")
  mask_of false = f64.literal (codes "1.0")

  module _ (gamma lambda : f64.Float) where
    -- The variables that the loop changes.
    pub record GaeState : Type 0 where
      pub returns : List f32.Float
      pub advantages : List f32.Float
      pub gae : f64.Float
      pub next_value : f64.Float

    abbrev pub delta : OnPolicyTransition n → f64.Float → f64.Float
    delta tr next_value =
        f64.minus
          (f64.plus (widen tr.reward) (f64.times (f64.times gamma next_value) (mask_of tr.is_done)))
          (widen tr.value)

    abbrev pub next_gae : OnPolicyTransition n → f64.Float → f64.Float → f64.Float
    next_gae tr gae next_value =
        f64.plus (delta tr next_value)
          (f64.times (f64.times (f64.times gamma lambda) (mask_of tr.is_done)) gae)

    -- The body of the loop at index `i`.
    abbrev pub gae_at : ℕ → OnPolicyTransition n → GaeState → GaeState
    gae_at i tr s =
        let gae = next_gae tr s.gae s.next_value in
        record {
          returns = set s.returns i (narrow (f64.plus gae (widen tr.value)));
          advantages = set s.advantages i (narrow gae);
          gae = gae;
          next_value = widen tr.value;
        }

    unfoldable pub gae_step : List (OnPolicyTransition n) → ℕ → GaeState → GaeState
    gae_step ts i s = elim (get_elem? ts i) [ none ↦ s | some tr ↦ gae_at i tr s ]

    -- The indices below `k`, from the greatest.
    unfoldable pub gae_loop : List (OnPolicyTransition n) → ℕ → GaeState → GaeState
    unfolding gae_step
    gae_loop ts zero s = s
    gae_loop ts (suc k) s = gae_loop ts k (gae_step ts k s)

    unfoldable pub compute_gae :
        List (OnPolicyTransition n) → f32.Float → List f32.Float × List f32.Float
    unfolding gae_loop
    compute_gae ts bootstrap_value =
        let zeros = replicate (length ts) (f32.literal (codes "0.0")) in
        let start : GaeState = record {
          returns = zeros;
          advantages = zeros;
          gae = f64.literal (codes "0.0");
          next_value = widen bootstrap_value;
        } in
        let s = gae_loop ts (length ts) start in (s.returns, s.advantages)

  -- `none` is the panic on an empty collector.
  abbrev pub batch_of :
      f64.Float → f64.Float → List (OnPolicyTransition n) → f32.Float → Option (RolloutBatch n)
  batch_of gamma lambda [] bootstrap_value = none
  batch_of gamma lambda (first ∷ rest) bootstrap_value =
      let ts = first ∷ rest in
      let (returns, advantages) = compute_gae gamma lambda ts bootstrap_value in
      some (record {
        observations = flatten (map (λ t. t.observation) ts);
        obs_dim = length first.observation;
        actions = map (λ t. t.action) ts;
        old_log_probs = map (λ t. t.log_prob) ts;
        returns = returns;
        advantages = advantages;
      })

  unfoldable pub into_batch : RolloutCollector n → f32.Float → Option (RolloutBatch n)
  unfolding compute_gae flatten
  into_batch c bootstrap_value = batch_of c.gamma c.gae_lambda c.transitions bootstrap_value
