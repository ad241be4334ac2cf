-- ===== src/Gym/Train/Driver.antt =====
-- crates/trolly-gym/src/train/driver.rs: one collect and update cycle. What the diagnostics, the mean
-- of the returns and the softmax of the policy compute with tensors is a parameter.
use trolly.Prelude.{ℕ, ◌+◌, ◌%◌, ℤ, codes, Option, none, some, List, [], ◌∷◌, length}
use trolly.Gym.Train.Numbers.{Numbers}
use trolly.Gym.Train.Rollout.{
  StepOutput, ActorCritic, RolloutBatch, RolloutCollector, new_collector, Rolling, collect,
}
use trolly.Gym.Train.Gae.{into_batch}
use trolly.Gym.Train.Wolf.{
  WolfPpoConfig, PpoTrainer, WolfPpoTrainer, new_wolf, active_lr, wolf_update,
}

module _ (n : Numbers) where
  open n use {f32, f64, sum}

  pub record TrainDriverConfig : Type 0 where
    pub obs_dim : ℕ
    pub num_actions : ℕ
    pub horizon : ℕ
    pub gamma : f64.Float
    pub gae_lambda : f64.Float

  unfoldable default_driver : TrainDriverConfig
  default_driver = record {
    obs_dim = 4;
    num_actions = 3;
    horizon = 64;
    gamma = f64.literal (codes "0.99");
    gae_lambda = f64.literal (codes "0.95");
  }

  pub record TrainMetrics : Type 0 where
    pub policy_loss : f64.Float
    pub value_loss : f64.Float
    pub entropy : f64.Float
    pub nes_distance : Option f64.Float
    pub active_lr : f64.Float
    pub steps_collected : ℕ

  -- `zip`, then the squares of the differences.
  unfoldable squares : List f64.Float → List f64.Float → List f64.Float
  squares [] bs = []
  squares (a ∷ xs) [] = []
  squares (a ∷ xs) (b ∷ bs) = f64.times (f64.minus a b) (f64.minus a b) ∷ squares xs bs

  unfoldable pub euclidean_distance : List f64.Float → List f64.Float → f64.Float
  unfolding squares
  euclidean_distance a b = f64.sqrt (sum (squares a b))

  module _ (ac : ActorCritic n) (ppo : PpoTrainer n ac) where
    pub record Diagnostics : Type 0 where
      pub value_and_entropy : ac.Network → RolloutBatch n → f64.Float × f64.Float
      pub mean : List f32.Float → f64.Float
      pub policy_probs : ac.Network → ℕ → List f64.Float

    pub record WolfPpoTrainDriver : Type 0 where
      pub trainer : WolfPpoTrainer n ac ppo
      pub collector : RolloutCollector n
      pub config : TrainDriverConfig
      pub total_steps : ℕ

    -- `make` is `PpoTrainer::new` at the two dimensions.
    unfoldable new_driver :
        (ℕ → ℕ → WolfPpoConfig n → ppo.Inner)
        → TrainDriverConfig
        → WolfPpoConfig n
        → WolfPpoTrainDriver
    unfolding new_wolf new_collector
    new_driver make driver_config wolf_config = record {
      trainer =
          new_wolf n ac ppo (make driver_config.obs_dim driver_config.num_actions wolf_config)
            wolf_config;
      collector =
          new_collector n driver_config.horizon driver_config.gamma driver_config.gae_lambda;
      config = driver_config;
      total_steps = 0;
    }

    abbrev pub distance_to : Option (List f64.Float) → List f64.Float → Option f64.Float
    distance_to none probs = none
    distance_to (some nes) probs = some (euclidean_distance probs nes)

    module _ (dg : Diagnostics) {W : Type 0}
        (env_step : W → List f32.Float → ℤ → W × StepOutput n) where
      -- From the batch on.
      abbrev pub update_on :
          WolfPpoTrainDriver
          → Option (List f64.Float)
          → RolloutBatch n
          → ℕ
          → WolfPpoTrainDriver × TrainMetrics
      update_on d nes_target batch steps =
          let (value_loss, entropy) =
            dg.value_and_entropy (ppo.actor_critic d.trainer.inner) batch in
          let episode_return = dg.mean batch.returns in
          let rate = active_lr n ac ppo d.trainer in
          let (trainer, policy_loss) = wolf_update n ac ppo d.trainer batch episode_return in
          (
            record d { trainer = trainer },
            record {
              policy_loss = policy_loss;
              value_loss = value_loss;
              entropy = entropy;
              nes_distance =
                  distance_to nes_target
                    (dg.policy_probs (ppo.actor_critic trainer.inner) d.config.obs_dim);
              active_lr = rate;
              steps_collected = steps;
            },
          )

      -- The rollout of a step, and the driver with it.
      abbrev pub collected :
          WolfPpoTrainDriver
          → W
          → ac.Random
          → List f32.Float
          → Rolling n ac env_step × RolloutCollector n
      collected d world random initial_obs =
          collect n ac env_step d.collector (ppo.actor_critic d.trainer.inner) world random
            initial_obs

      -- `usize` is of 64 bits; `none` is the panic of an empty rollout.
      unfoldable pub train_step :
          WolfPpoTrainDriver
          → W
          → ac.Random
          → List f32.Float
          → f32.Float
          → Option (List f64.Float)
          → Option (Rolling n ac env_step × WolfPpoTrainDriver × TrainMetrics)
      unfolding collect into_batch wolf_update active_lr
      train_step d world random initial_obs bootstrap_value nes_target =
          let (rolling, collector) = collected d world random initial_obs in
          let steps = length collector.transitions in
          let d' = record d {
            collector = collector;
            total_steps = (d.total_steps + steps) % 18446744073709551616;
          } in
          elim (into_batch n collector bootstrap_value) [
            | none ↦ none
            | some batch ↦
                let (updated, metrics) = update_on d' nes_target batch steps in
                some (rolling, updated, metrics)
          ]
