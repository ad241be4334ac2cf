-- ===== src/Examples/Gym.antt =====
-- The training environment and the training loop at whole numbers.
use trolly.Prelude.{
  ℕ, ℤ, pos, ◌+◌, ◌-◌, ◌%◌, ◌≡◌, refl, Text, codes, true, false, some, List, [], ◌∷◌, ◌++◌, length,
  map, get_elem?, replicate, drop, parse_uint, if◌then◌else◌, ltb, arith,
}
use trolly.Strategy.Event.{StreamEvent}
use trolly.Strategy.Egress.{recording_egress}
use trolly.Usdm.Egress.{OrderQueue, usdm_order_egress}
use trolly.Gym.Action.{Action, hold, buy, sell}
use trolly.Gym.Observation.{flatten}
use trolly.Gym.Ring.{snapshot}
use trolly.Gym.Env.{EnvConfig, Env, new_env}
use trolly.Gym.Env.Episodes.{
  Command, ingest, act, run, view, frames_from, transitions_from, run-new_env,
}
use trolly.Gym.Env.Orders.{Ordering, orders_of, outcome_of, act_all, queued-act_all}
use trolly.Gym.Train.Numbers.{Numbers}
use trolly.Gym.Train.Rollout.{
  OnPolicyTransition, StepOutput, ActorCritic, RolloutBatch, RolloutCollector, new_collector,
  collect,
}
use trolly.Gym.Train.Rollout.Collecting.{observations, restarts, collect-horizon}
use trolly.Gym.Train.Gae.{compute_gae}
use trolly.Gym.Train.Gae.Reference.{returns_of, advantages_of, compute_gae-reference}
use trolly.Gym.Train.Wolf.{default_wolf, WolfPpoConfig, PpoTrainer, new_wolf, wolf_update}
use trolly.Gym.Train.Wolf.Window.{updates, last_of, estimate, payoffs, wolf_update-rate}
use trolly.Examples.Data.{numerals, texts}

abbrev small : EnvConfig
small = record {
  symbol = codes "BTCUSDT";
  window_frames = 2;
  replay_capacity = 2;
  default_qty = codes "1";
}

abbrev quote_for : Text → StreamEvent
quote_for symbol =
    StreamEvent.depth (record { symbol = symbol; bids = []; asks = []; update_id = some 7 })

abbrev episode : List Command
episode =
    ingest (quote_for (codes "BTCUSDT"))
    ∷ act buy
    ∷ ingest (quote_for (codes "ETHUSDT"))
    ∷ act hold
    ∷ []

run-new_env_example :
    let recorded = recording_egress Text in
    let ts = transitions_from numerals texts recorded small [] episode in
    (env : Env numerals texts recorded) × (run numerals texts recorded small
        (new_env numerals texts recorded small [])
        episode
      ≡ some env)
    × (flatten env.window.frames
        ≡ view numerals texts recorded small (frames_from numerals texts recorded small [] episode))
    × (snapshot env.replay ≡ some (drop (length ts - 2) ts))
run-new_env_example =
    run-new_env numerals texts (recording_egress Text) small (omega arith)
      (λ g m. (g ++ m ∷ [], refl)) [] episode

abbrev live : OrderQueue
live = record { receiver_alive = true; queued = [] }

abbrev wanted : List Action
wanted = buy ∷ hold ∷ sell ∷ []

queued-act_all_example :
    (last : Ordering numerals texts small) × (act_all numerals texts small
        (new_env numerals texts (usdm_order_egress Text) small live)
        wanted
      ≡ some (last, map (outcome_of numerals texts small) wanted))
    × (last.egress.queued ≡ [] ++ orders_of numerals texts small wanted)
queued-act_all_example = queued-act_all numerals texts small live wanted (omega arith) refl

abbrev wholes : Numbers
wholes = record { f32 = numerals; f64 = numerals; widen = λ a. a; narrow = λ a. a; sum = total }
  where
    total : List ℕ → ℕ
    total [] = 0
    total (x ∷ xs) = x + total xs

-- A network that always buys, and is worth 1.
abbrev buyer : ActorCritic wholes
buyer = record {
  Network = ℕ;
  Random = ℕ;
  action_and_log_prob = λ net random obs. (random + 1, pos 1, 0);
  value = λ net obs. 1;
}

-- An environment that counts its steps, and ends each episode with the second.
abbrev counting : ℕ → List ℕ → ℤ → ℕ × StepOutput wholes
counting world obs action =
    (world + 1, record { next_observation = world ∷ []; reward = 3; is_done = ltb 0 (world % 2) })

abbrev collector : RolloutCollector wholes
collector = new_collector wholes 3 1 1

-- A transition that ends an episode, and one that does not.
abbrev second : OnPolicyTransition wholes
second = record {
  observation = 0 ∷ [];
  action = pos 1;
  log_prob = 0;
  value = 1;
  reward = 3;
  is_done = true;
}

abbrev third : OnPolicyTransition wholes
third = record second { is_done = false }

collect-horizon_example :
    let ts = (collect wholes buyer counting collector 0 0 0 (9 ∷ [])).1.transitions in
    (length ts ≡ 3)
    × (get_elem? (observations wholes buyer counting ts) 0 ≡ some (9 ∷ []))
    × (restarts wholes buyer counting ts
        ≡ replicate
            (length (restarts wholes buyer counting ts))
            (replicate 1 (numerals.literal (codes "0.0"))))
unfolding new_collector
collect-horizon_example = collect-horizon wholes buyer counting collector 0 0 0 (9 ∷ [])

-- One episode ends within the rollout.
one_restart :
    length (
      restarts wholes buyer counting
        (collect wholes buyer counting collector 0 0 0 (9 ∷ [])).1.transitions)
    ≡ 1
unfolding collect parse_uint new_collector
one_restart = refl

compute_gae-reference_example : compute_gae wholes 1 1 (second ∷ third ∷ []) 5 ≡ (
  returns_of wholes 1 1 5 (second ∷ third ∷ []),
  advantages_of wholes 1 1 5 (second ∷ third ∷ []),
)
compute_gae-reference_example = compute_gae-reference wholes 1 1 5 (second ∷ third ∷ [])

-- A trainer that is the rate that was set last.
abbrev rated : PpoTrainer wholes buyer
rated = record {
  Inner = ℕ;
  actor_critic = λ inner. inner;
  set_lr = λ inner lr. lr;
  policy_update = λ inner batch. (inner, 0);
}

abbrev rates : WolfPpoConfig wholes
rates = record (default_wolf wholes) { alpha_lose = 8; alpha_win = 2; payoff_window = 2 }

abbrev some_batch : RolloutBatch wholes
some_batch = record {
  observations = [];
  obs_dim = 1;
  actions = [];
  old_log_probs = [];
  returns = 6 ∷ [];
  advantages = [];
}

abbrev earlier : List (RolloutBatch wholes × ℕ)
earlier = (some_batch, 1) ∷ (some_batch, 4) ∷ []

wolf_update-rate_example :
    let p = updates wholes buyer rated (new_wolf wholes buyer rated 0 rates) earlier in
    let h = last_of 2 (payoffs wholes buyer rated earlier ++ 9 ∷ []) in
    let t = (wolf_update wholes buyer rated p some_batch 9).0 in
    let mean = estimate wholes buyer rated h in
    (t.payoff_history ≡ h)
    × (t.rolling_avg_payoff ≡ mean)
    × (t.inner
        ≡ (rated.policy_update
            (rated.set_lr p.inner (if ltb mean 9 then rates.alpha_win else rates.alpha_lose))
            some_batch).0)
wolf_update-rate_example = wolf_update-rate wholes buyer rated 0 rates earlier some_batch 9
