-- ===== src/Gym/Replay.antt =====
-- crates/trolly-gym/src/replay.rs: the transitions of `ReplayBuffer`, and the rollout buffer.
use trolly.Prelude.{ℤ, codes, Bool, false, Option, List, [], ◌∷◌, ◌++◌, Arithmetic}
use trolly.Gym.Action.{Action, hold, action_index}
use trolly.Gym.Ring.{Ring, push}

module _ (f32 : Arithmetic) where
  open f32 use {Float, literal}

  pub record Transition : Type 0 where
    pub observation : List Float
    pub action : Action
    pub reward : Float
    pub is_done : Bool

  abbrev pub prefill : List Float → Transition
  prefill window = record {
    observation = window;
    action = hold;
    reward = literal (codes "0.0");
    is_done = false;
  }

  unfoldable pub push_observation_window : Ring Transition → List Float → Option (Ring Transition)
  unfolding push
  push_observation_window b window = push b (prefill window)

  unfoldable pub push_step :
      Ring Transition → List Float → Action → Float → Bool → Option (Ring Transition)
  unfolding push
  push_step b observation action reward is_done =
      push b
        (record { observation = observation; action = action; reward = reward; is_done = is_done })

  module _ (f64 : Arithmetic) where
    pub record OnPolicyStep : Type 0 where
      pub observation : List Float
      pub action : ℤ
      pub log_prob : f64.Float
      pub value : f64.Float
      pub reward : f64.Float
      pub is_done : Bool

    -- `OnPolicyRolloutBuffer`, the steps in the order of the pushes.
    pub record OnPolicyRolloutBuffer : Type 0 where
      pub steps : List OnPolicyStep

    unfoldable clear : OnPolicyRolloutBuffer → OnPolicyRolloutBuffer
    clear b = record b { steps = [] }

    unfoldable push_env_step :
        OnPolicyRolloutBuffer
        → List Float
        → Action
        → f64.Float
        → f64.Float
        → f64.Float
        → Bool
        → OnPolicyRolloutBuffer
    unfolding action_index
    push_env_step b observation action log_prob value reward is_done = record b {
      steps =
          b.steps
          ++ record {
            observation = observation;
            action = action_index action;
            log_prob = log_prob;
            value = value;
            reward = reward;
            is_done = is_done;
          }
            ∷ [];
    }
