-- ===== src/Gym/Env.antt =====
-- crates/trolly-gym/src/env.rs: the training environment. `none` is a panic of the replay ring, as
-- with a capacity of 0.
pub mod Episodes
pub mod Orders
use trolly.Prelude.{
  ℕ, ◌+◌, ◌%◌, Text, codes, text_Eq, Bool, true, false, Option, none, some, List, [], ◌∷◌,
  if◌then◌else◌, ◌==◌, get_elem?, Result, ok, err, Arithmetic, Frames,
}
use trolly.Strategy.Event.{StreamEvent, routing_id}
use trolly.Strategy.Egress.{OutboundMessage, StreamEgress}
use trolly.Strategy.Runtime.{EventFormat, ParseError, parse_envelope}
use trolly.Gym.Action.{Action, hold, buy, sell, dispatch_action}
use trolly.Gym.Observation.{
  ObservationWindow, new_window, push_frame, flattened, features_from_event, or_else,
}
use trolly.Gym.Ring.{Ring, new}
use trolly.Gym.Replay.{Transition, push_observation_window, push_step}

pub record EnvConfig : Type 0 where
  pub symbol : Text
  pub window_frames : ℕ
  pub replay_capacity : ℕ
  pub default_qty : Text

unfoldable new_config : Text → EnvConfig
new_config symbol = record {
  symbol = symbol;
  window_frames = 8;
  replay_capacity = 256;
  default_qty = codes "0.01";
}

abbrev pub unless_empty : {T : Type 0} → List T → List T → List T
unless_empty [] d = d
unless_empty (x ∷ xs) d = x ∷ xs

module _ (f32 : Arithmetic) where
  open f32 use {Float, literal, times, negate}

  unfoldable pub reward_stub : List Float → Action → Float
  reward_stub observation hold = literal (codes "0.0")
  reward_stub observation buy =
      times (or_else (get_elem? observation 5) (literal (codes "0.0"))) (literal (codes "0.001"))
  reward_stub observation sell =
      times (negate (or_else (get_elem? observation 5) (literal (codes "0.0"))))
        (literal (codes "0.001"))

  pub record StepResult : Type 0 where
    pub observation : List Float
    pub reward : Float
    pub is_done : Bool

  module _ (ws : Frames) (eg : StreamEgress ws.Message) where
    pub record Env : Type 0 where
      pub config : EnvConfig
      pub window : ObservationWindow Float
      pub replay : Ring (Transition f32)
      pub egress : eg.Egress
      pub last_observation : List Float
      pub steps : ℕ

    unfoldable pub new_env : EnvConfig → eg.Egress → Env
    new_env config egress = record {
      config = config;
      window = new_window config.window_frames;
      replay = new config.replay_capacity;
      egress = egress;
      last_observation = [];
      steps = 0;
    }

    -- The arm of `ingest_event` for a frame.
    abbrev pub take_frame : Env → List Float → Option (Env × Bool)
    take_frame env frame =
        let window = push_frame env.window frame in
        let observation = flattened window in
        elim (push_observation_window f32 env.replay observation) [
          | none ↦ none
          | some replay ↦ some (
            record env { window = window; last_observation = observation; replay = replay },
            true,
          )
        ]

    unfoldable pub ingest_event : Env → StreamEvent → Option (Env × Bool)
    unfolding routing_id features_from_event push_frame flattened push_observation_window
    ingest_event env event =
        let other_symbol : Option (Env × Bool) = some (env, false) in
        let taken : Option (Env × Bool) = elim (features_from_event f32 event) [
          | none ↦ some (env, false)
          | some frame ↦ take_frame env frame
        ] in
        if routing_id event == env.config.symbol then taken else other_symbol

    unfoldable ingest_message :
        (format : EventFormat)
        → Env
        → ws.Message
        → Result (Option (Env × Bool)) (ParseError format.Error)
    unfolding parse_envelope ingest_event
    ingest_message format env msg = elim (parse_envelope ws format msg) [
      | err e ↦ err e
      | ok event ↦ ok (ingest_event env event)
    ]

    -- The observation that an action is taken on.
    unfoldable pub observe : Env → List Float
    unfolding flattened
    observe env = unless_empty env.last_observation (flattened env.window)

    -- `steps` is a `u64`.
    abbrev pub count : ℕ → ℕ
    count n = (n + 1) % 18446744073709551616

    -- After the dispatch: the transition is recorded, and the step counted.
    abbrev pub record_step :
        Env → Action → List Float → Float → Option (Env × Result StepResult eg.Error)
    record_step env action observation reward =
        elim (push_step f32 env.replay observation action reward false) [
          | none ↦ none
          | some replay ↦ some (
            record env { replay = replay; steps = count env.steps },
            ok (record { observation = observation; reward = reward; is_done = false }),
          )
        ]

    unfoldable pub step : Env → Action → Option (Env × Result StepResult eg.Error)
    unfolding observe reward_stub dispatch_action push_step
    step env action =
        let observation = observe env in
        let (egress, sent) =
          dispatch_action ws.Message eg action env.egress env.config.symbol env.config.default_qty
            none in
        elim sent [
          | err e ↦ some (record env { egress = egress }, err e)
          | ok _ ↦
              record_step (record env { egress = egress }) action observation
                (reward_stub observation action)
        ]

    unfoldable dispatch : Env → OutboundMessage ws.Message → Env × Result (Unit {0}) eg.Error
    dispatch env message =
        let (egress, sent) = eg.dispatch env.egress message in
        (record env { egress = egress }, sent)
