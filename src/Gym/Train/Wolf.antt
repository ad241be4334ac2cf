-- ===== src/Gym/Train/Wolf.antt =====
-- crates/trolly-gym/src/ppo/wolf_ppo.rs and config.rs: the choice of the learning rate. The inner
-- PPO trainer, its optimizer and its gradient steps, which are tensors, are a parameter.
pub mod Window
use trolly.Prelude.{
  ℕ, ◌+◌, codes, Bool, false, List, [], ◌∷◌, ◌++◌, if◌then◌else◌, ltb, length, tail, Arithmetic,
  Option,
}
use trolly.Gym.Train.Numbers.{Numbers}
use trolly.Gym.Train.Rollout.{RolloutBatch, ActorCritic}

pub data Optimizer : Type 0 where
  adam sgd : Optimizer

module _ (n : Numbers) where
  open n use {f64, sum}
  open f64 use {literal}

  pub record PpoConfig : Type 0 where
    pub clip_epsilon : f64.Float
    pub entropy_coef : f64.Float
    pub value_coef : f64.Float
    pub ppo_epochs : ℕ
    pub hidden_sizes : List ℕ
    pub lr : f64.Float
    pub use_adam : Bool

  unfoldable pub default_ppo : PpoConfig
  default_ppo = record {
    clip_epsilon = literal (codes "0.2");
    entropy_coef = literal (codes "0.01");
    value_coef = literal (codes "0.5");
    ppo_epochs = 4;
    hidden_sizes = 20 ∷ 20 ∷ [];
    lr = literal (codes "0.01");
    use_adam = false;
  }

  -- The optimizer that `build_optimizer` makes.
  unfoldable build_optimizer : PpoConfig → Optimizer × f64.Float
  build_optimizer c = (if c.use_adam then adam else sgd, c.lr)

  pub record WolfPpoConfig : Type 0 where
    pub ppo : PpoConfig
    pub alpha_lose : f64.Float
    pub alpha_win : f64.Float
    pub payoff_window : ℕ

  unfoldable pub default_wolf : WolfPpoConfig
  unfolding default_ppo
  default_wolf = record {
    ppo = default_ppo;
    alpha_lose = literal (codes "0.01");
    alpha_win = f64.over (literal (codes "0.01")) (literal (codes "4.0"));
    payoff_window = 100;
  }

  unfoldable pub with_alpha_lose : WolfPpoConfig → f64.Float → WolfPpoConfig
  with_alpha_lose c alpha_lose = record c {
    alpha_lose = alpha_lose;
    alpha_win = f64.over alpha_lose (literal (codes "4.0"));
  }

  -- `PpoTrainer`: the network with its optimizer.
  pub record PpoTrainer (ac : ActorCritic n) : Type 1 where
    pub Inner : Type 0
    pub actor_critic : Inner → ac.Network
    pub set_lr : Inner → f64.Float → Inner
    pub policy_update : Inner → RolloutBatch n → Inner × f64.Float

  module _ (ac : ActorCritic n) (ppo : PpoTrainer ac) where
    pub record WolfPpoTrainer : Type 0 where
      pub inner : ppo.Inner
      pub config : WolfPpoConfig
      pub payoff_history : List f64.Float
      pub rolling_avg_payoff : f64.Float
      pub current_payoff : f64.Float

    unfoldable pub new_wolf : ppo.Inner → WolfPpoConfig → WolfPpoTrainer
    new_wolf inner config = record {
      inner = inner;
      config = config;
      payoff_history = [];
      rolling_avg_payoff = literal (codes "0.0");
      current_payoff = literal (codes "0.0");
    }

    unfoldable pub is_winning : WolfPpoTrainer → Bool
    is_winning t = f64.below t.rolling_avg_payoff t.current_payoff

    unfoldable pub active_lr : WolfPpoTrainer → f64.Float
    unfolding is_winning
    active_lr t = if is_winning t then t.config.alpha_win else t.config.alpha_lose

    abbrev pub push_payoff : ℕ → List f64.Float → f64.Float → List f64.Float
    push_payoff window history payoff =
        let pushed = history ++ payoff ∷ [] in
        if ltb window (length pushed) then tail pushed else pushed

    unfoldable pub update_payoff_estimate : WolfPpoTrainer → f64.Float → WolfPpoTrainer
    update_payoff_estimate t episode_return =
        let history = push_payoff t.config.payoff_window t.payoff_history episode_return in
        record t {
          current_payoff = episode_return;
          payoff_history = history;
          rolling_avg_payoff = f64.over (sum history) (f64.of_nat (length history));
        }

    unfoldable pub wolf_update :
        WolfPpoTrainer → RolloutBatch n → f64.Float → WolfPpoTrainer × f64.Float
    unfolding update_payoff_estimate active_lr
    wolf_update t batch episode_return =
        let estimated = update_payoff_estimate t episode_return in
        let (inner, loss) =
          ppo.policy_update (ppo.set_lr estimated.inner (active_lr estimated)) batch in
        (record estimated { inner = inner }, loss)
