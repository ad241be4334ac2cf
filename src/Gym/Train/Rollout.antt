-- ===== src/Gym/Train/Rollout.antt =====
-- crates/trolly-gym/src/train/rollout.rs: collecting transitions. The network is a parameter: what
-- `ActorCritic` computes with tensors, where sampling an action moves the random generator.
pub mod Collecting
use trolly.Prelude.{
  ℕ, zero, suc, ℤ, codes, Bool, Option, none, some, List, [], ◌∷◌, ◌++◌, map, if◌then◌else◌, length,
  replicate, Arithmetic,
}
use trolly.Gym.Observation.{flatten}
use trolly.Gym.Train.Numbers.{Numbers}

module _ (n : Numbers) where
  open n use {f32, f64, narrow}

  pub record OnPolicyTransition : Type 0 where
    pub observation : List f32.Float
    pub action : ℤ
    pub log_prob : f32.Float
    pub value : f32.Float
    pub reward : f32.Float
    pub is_done : Bool

  pub record StepOutput : Type 0 where
    pub next_observation : List f32.Float
    pub reward : f32.Float
    pub is_done : Bool

  pub record ActorCritic : Type 1 where
    pub Network : Type 0
    pub Random : Type 0
    pub action_and_log_prob : Network → Random → List f32.Float → Random × ℤ × f64.Float
    pub value : Network → List f32.Float → f64.Float

  -- The lists that the tensors of a `RolloutBatch` are made of.
  pub record RolloutBatch : Type 0 where
    pub observations : List f32.Float
    pub obs_dim : ℕ
    pub actions : List ℤ
    pub old_log_probs : List f32.Float
    pub returns : List f32.Float
    pub advantages : List f32.Float

  pub record RolloutCollector : Type 0 where
    pub transitions : List OnPolicyTransition
    pub horizon : ℕ
    pub gamma : f64.Float
    pub gae_lambda : f64.Float

  unfoldable pub new_collector : ℕ → f64.Float → f64.Float → RolloutCollector
  new_collector horizon gamma gae_lambda = record {
    transitions = [];
    horizon = horizon;
    gamma = gamma;
    gae_lambda = gae_lambda;
  }

  -- `env_step` may change the environment's state `W`.
  module _ (ac : ActorCritic) {W : Type 0}
      (env_step : W → List f32.Float → ℤ → W × StepOutput) where
    open ac use {Network, Random}

    -- What the loop changes but the transitions.
    pub record Rolling : Type 0 where
      pub world : W
      pub random : Random
      pub current_obs : List f32.Float

    -- One pass of the loop's body.
    unfoldable pub collect_step : Network → ℕ → Rolling → Rolling × OnPolicyTransition
    collect_step net obs_dim s =
        let (random, action, log_prob) = ac.action_and_log_prob net s.random s.current_obs in
        let value = ac.value net s.current_obs in
        let (world, out) = env_step s.world s.current_obs action in
        let next =
          if out.is_done
          then replicate obs_dim (f32.literal (codes "0.0"))
          else out.next_observation in
        (
          record { world = world; random = random; current_obs = next },
          record {
            observation = s.current_obs;
            action = action;
            log_prob = narrow log_prob;
            value = narrow value;
            reward = out.reward;
            is_done = out.is_done;
          },
        )

    unfoldable pub collect_steps : Network → ℕ → ℕ → Rolling → Rolling × List OnPolicyTransition
    unfolding collect_step
    collect_steps net obs_dim zero s = (s, [])
    collect_steps net obs_dim (suc k) s =
        let (s1, t) = collect_step net obs_dim s in
        let (s2, ts) = collect_steps net obs_dim k s1 in (s2, t ∷ ts)

    -- `RolloutCollector::collect`
    unfoldable pub collect :
        RolloutCollector → Network → W → Random → List f32.Float → Rolling × RolloutCollector
    unfolding collect_steps
    collect c net world random initial_obs =
        let (s, ts) =
          collect_steps net (length initial_obs) c.horizon
            (record { world = world; random = random; current_obs = initial_obs }) in
        (s, record c { transitions = ts })
