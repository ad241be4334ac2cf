-- ===== src/Gym/Env/Episodes.antt =====
-- What an environment records over a sequence of events and actions.
use trolly.Prelude.{
  ◌-◌, ◌<◌, ◌≡◌, refl, sym, ap, ◌∙◌, text_Eq, true, false, Option, none, some, List, [], ◌∷◌, ◌++◌,
  if◌then◌else◌, ◌==◌, eqb, length, drop, Result, append_assoc, append-nil, ok, Arithmetic, Frames,
  arith, inl, inr, Bool-cases, Option-cases,
}
use trolly.Strategy.Event.{StreamEvent, routing_id}
use trolly.Strategy.Egress.{OutboundMessage, StreamEgress}
use trolly.Gym.Action.{Action, dispatch_action, to_outbound}
use trolly.Gym.Observation.{new_window, push_frame, flatten, flattened, features_from_event}
use trolly.Gym.Observation.Window.{push_frames, push_frames-snoc, frames-push_frames}
use trolly.Gym.Ring.{Ring, new, push, push_all, snapshot}
use trolly.Gym.Ring.History.{snapshot-push_all, push_more}
use trolly.Gym.Replay.{Transition, prefill, push_observation_window, push_step}
use trolly.Gym.Env.{
  EnvConfig, Env, StepResult, new_env, ingest_event, step, take_frame, record_step, observe,
  unless_empty, reward_stub, count,
}

pub data Command : Type 0 where
  ingest : StreamEvent → Command
  act : Action → Command

unless_empty_same : {T : Type 0} (o x : List T) → o ≡ x → unless_empty o x ≡ x
unless_empty_same [] x e = refl
unless_empty_same (a ∷ o) x e = e

module _ (f32 : Arithmetic) (ws : Frames) (eg : StreamEgress ws.Message) (config : EnvConfig) where
  open f32 use {Float}

  -- The last `window_frames` frames in a row: what an action is taken on.
  abbrev pub view : List (List Float) → List Float
  view fs =
      flatten
        (if eqb config.window_frames 0 then fs else drop (length fs - config.window_frames) fs)

  -- The frame that an event adds: none if it is for another symbol.
  unfoldable pub frame_of : StreamEvent → Option (List Float)
  unfolding routing_id features_from_event
  frame_of e = if routing_id e == config.symbol then features_from_event f32 e else none

  abbrev pub acted : List Float → Action → Transition f32
  acted observation a = record {
    observation = observation;
    action = a;
    reward = reward_stub f32 observation a;
    is_done = false;
  }

  -- The transitions that commands lead to after the frames `fs`: one for each frame, and one for
  -- each action.
  unfoldable pub transitions_from : List (List Float) → List Command → List (Transition f32)
  unfolding frame_of reward_stub
  transitions_from fs [] = []
  transitions_from fs (act a ∷ cs) = acted (view fs) a ∷ transitions_from fs cs
  transitions_from fs (ingest e ∷ cs) = elim (frame_of e) [
    | none ↦ transitions_from fs cs
    | some f ↦ prefill f32 (view (fs ++ f ∷ [])) ∷ transitions_from (fs ++ f ∷ []) cs
  ]

  unfoldable pub frames_from : List (List Float) → List Command → List (List Float)
  unfolding frame_of
  frames_from fs [] = fs
  frames_from fs (act a ∷ cs) = frames_from fs cs
  frames_from fs (ingest e ∷ cs) = elim (frame_of e) [
    | none ↦ frames_from fs cs
    | some f ↦ frames_from (fs ++ f ∷ []) cs
  ]

  abbrev first_of : {A B : Type 0} → Option (A × B) → Option A
  first_of none = none
  first_of (some (a, b)) = some a

  unfoldable pub perform : Env f32 ws eg → Command → Option (Env f32 ws eg)
  unfolding ingest_event step
  perform env (ingest e) = first_of (ingest_event f32 ws eg env e)
  perform env (act a) = first_of (step f32 ws eg env a)

  unfoldable pub run : Env f32 ws eg → List Command → Option (Env f32 ws eg)
  unfolding perform
  run env [] = some env
  run env (c ∷ cs) = elim (perform env c) [ none ↦ none | some env' ↦ run env' cs ]

  -- The environment after the frames `fs` and the transitions `ts`.
  pub record Tracks (env : Env f32 ws eg) (fs : List (List Float)) (ts : List (Transition f32))
      : Type 0 where
    pub configured : env.config ≡ config
    pub window_is : env.window ≡ push_frames (new_window config.window_frames) fs
    pub replay_is : push_all (new config.replay_capacity) ts ≡ some env.replay
    pub observed : env.last_observation ≡ flatten env.window.frames

  new_env-Tracks : (egress : eg.Egress) → Tracks (new_env f32 ws eg config egress) [] []
  unfolding new_env push_frames push_all new_window flatten
  new_env-Tracks egress = record {
    configured = refl;
    window_is = refl;
    replay_is = refl;
    observed = refl;
  }

  viewed :
      (env : Env f32 ws eg) (fs : List (List Float)) (ts : List (Transition f32))
      → Tracks env fs ts
      → flatten env.window.frames ≡ view fs
  viewed env fs ts v =
      ap flatten (ap (λ w. w.frames) v.window_is ∙ frames-push_frames config.window_frames fs)

  observe_lem :
      (env : Env f32 ws eg) (fs : List (List Float)) (ts : List (Transition f32))
      → Tracks env fs ts
      → observe f32 ws eg env ≡ view fs
  unfolding observe flattened
  observe_lem env fs ts v =
      unless_empty_same env.last_observation (flatten env.window.frames) v.observed
      ∙ viewed env fs ts v

  -- The environment after a frame.
  abbrev framed : Env f32 ws eg → List Float → Ring (Transition f32) → Env f32 ws eg
  framed env f replay =
      let window = push_frame env.window f in
      record env { window = window; last_observation = flatten window.frames; replay = replay }

  take_frame-framed :
      (env : Env f32 ws eg) (f : List Float) (replay : Ring (Transition f32))
      → push env.replay (prefill f32 (flatten (push_frame env.window f).frames)) ≡ some replay
      → take_frame f32 ws eg env f ≡ some (framed env f replay, true)
  unfolding flattened push_observation_window push_frame
  take_frame-framed env f replay pushed = rw (take_frame, push_observation_window, pushed) refl

  ingest_event-framed :
      (env : Env f32 ws eg) (e : StreamEvent) (f : List Float) (replay : Ring (Transition f32))
      → env.config ≡ config
      → frame_of e ≡ some f
      → push env.replay (prefill f32 (flatten (push_frame env.window f).frames)) ≡ some replay
      → ingest_event f32 ws eg env e ≡ some (framed env f replay, true)
  unfolding ingest_event frame_of
  ingest_event-framed env e f replay same here pushed =
      let named : (routing_id e == env.config.symbol) ≡ (routing_id e == config.symbol) =
        ap (λ c. routing_id e == c.symbol) same in
      elim (Bool-cases (routing_id e == config.symbol)) [
        | inl y ↦
            let feats : features_from_event f32 e ≡ some f = rw y at here in
            rw (ingest_event, named, y, feats) (take_frame-framed env f replay pushed)
        | inr n ↦ absurd (ground arith)
      ]

  ingest-Tracks :
      (env : Env f32 ws eg) (fs : List (List Float)) (ts : List (Transition f32)) (e : StreamEvent)
      (f : List Float)
      → 0 < config.replay_capacity
      → Tracks env fs ts
      → frame_of e ≡ some f
      → (env' : Env f32 ws eg) × (perform env (ingest e) ≡ some env')
        × Tracks env' (fs ++ f ∷ []) (ts ++ prefill f32 (view (fs ++ f ∷ [])) ∷ [])
  unfolding perform
  ingest-Tracks env fs ts e f p v here =
      let window : push_frame env.window f
          ≡ push_frames (new_window config.window_frames) (fs ++ f ∷ []) =
        ap (λ w. push_frame w f) v.window_is
        ∙ sym (push_frames-snoc (new_window config.window_frames) fs f) in
      let seen : flatten (push_frame env.window f).frames ≡ view (fs ++ f ∷ []) =
        ap flatten
          (ap (λ w. w.frames) window ∙ frames-push_frames config.window_frames (fs ++ f ∷ [])) in
      let (replay, pushed, all) =
        push_more config.replay_capacity env.replay ts (prefill f32 (view (fs ++ f ∷ []))) p
          v.replay_is in
      (
        framed env f replay,
        ap first_of (ingest_event-framed env e f replay v.configured here (rw seen pushed)),
        record { configured = v.configured; window_is = window; replay_is = all; observed = refl },
      )

  abbrev pub stepped : Env f32 ws eg → eg.Egress → Ring (Transition f32) → Env f32 ws eg
  stepped env g replay = record env {
    egress = g;
    replay = replay;
    steps = count f32 ws eg env.steps;
  }

  abbrev pub result_of : Env f32 ws eg → Action → StepResult f32
  result_of env a = record {
    observation = observe f32 ws eg env;
    reward = reward_stub f32 (observe f32 ws eg env) a;
    is_done = false;
  }

  -- The egress after the dispatch of an action, and the outcome.
  abbrev pub sent_to : Env f32 ws eg → Action → eg.Egress × Result (Unit {0}) eg.Error
  sent_to env a =
      dispatch_action ws.Message eg a env.egress env.config.symbol env.config.default_qty none

  pub step-recorded :
      (env : Env f32 ws eg) (a : Action) (replay : Ring (Transition f32))
      → (sent_to env a).1 ≡ ok tt
      → push env.replay (acted (observe f32 ws eg env) a) ≡ some replay
      → step f32 ws eg env a ≡ some (stepped env (sent_to env a).0 replay, ok (result_of env a))
  unfolding step push_step
  step-recorded env a replay sent pushed =
      rw (step, sent) (rw (record_step, push_step, pushed) refl)

  act-Tracks :
      (env : Env f32 ws eg) (fs : List (List Float)) (ts : List (Transition f32)) (a : Action)
      → 0 < config.replay_capacity
      → ((g : eg.Egress) (m : OutboundMessage ws.Message)
          → (g' : eg.Egress) × (eg.dispatch g m ≡ (g', ok tt)))
      → Tracks env fs ts
      → (env' : Env f32 ws eg) × (perform env (act a) ≡ some env')
        × Tracks env' fs (ts ++ acted (view fs) a ∷ [])
  unfolding perform dispatch_action
  act-Tracks env fs ts a p accepts v =
      let (g, accepted) =
        accepts env.egress (to_outbound a env.config.symbol env.config.default_qty none) in
      let sent : (sent_to env a).1 ≡ ok tt = ap (λ x. x.1) accepted in
      let seen = observe_lem env fs ts v in
      let (replay, pushed, all) =
        push_more config.replay_capacity env.replay ts (acted (view fs) a) p v.replay_is in
      (
        stepped env (sent_to env a).0 replay,
        ap first_of (step-recorded env a replay sent (rw seen pushed)),
        record {
          configured = v.configured;
          window_is = v.window_is;
          replay_is = all;
          observed = v.observed;
        },
      )

  skip-Tracks :
      (env : Env f32 ws eg) (fs : List (List Float)) (ts : List (Transition f32)) (e : StreamEvent)
      → Tracks env fs ts
      → frame_of e ≡ none
      → perform env (ingest e) ≡ some env
  unfolding perform ingest_event frame_of features_from_event
  skip-Tracks env fs ts (StreamEvent.depth d) v skipped = ground (arith, v.configured)
  skip-Tracks env fs ts (StreamEvent.execution d) v skipped = ground (arith, v.configured)
  skip-Tracks env fs ts (StreamEvent.account d) v skipped = ground (arith, v.configured)

  module _ (positive : 0 < config.replay_capacity)
      (accepts : (g : eg.Egress) (m : OutboundMessage ws.Message)
        → (g' : eg.Egress) × (eg.dispatch g m ≡ (g', ok tt))) where
    run-Tracks :
        (env : Env f32 ws eg) (fs : List (List Float)) (ts : List (Transition f32))
        (cs : List Command)
        → Tracks env fs ts
        → (env' : Env f32 ws eg) × (run env cs ≡ some env')
          × Tracks env' (frames_from fs cs) (ts ++ transitions_from fs cs)
    unfolding run frames_from transitions_from
    run-Tracks env fs ts [] v = (env, refl, rw (append-nil ts) v)
    run-Tracks env fs ts (act a ∷ cs) v =
        let (next, did, w) = act-Tracks env fs ts a positive accepts v in
        let (last, ran, u) = run-Tracks next fs (ts ++ acted (view fs) a ∷ []) cs w in
        (
          last,
          rw (run, did) ran,
          rw (append_assoc ts (acted (view fs) a ∷ []) (transitions_from fs cs)) at u,
        )
    run-Tracks env fs ts (ingest e ∷ cs) v = elim (Option-cases (frame_of e)) [
      | inl skipped ↦
          let (last, ran, u) = run-Tracks env fs ts cs v in
          (
            last,
            rw (run, skip-Tracks env fs ts e v skipped) ran,
            rw (frames_from, transitions_from, skipped) u,
          )
      | inr (f, taken) ↦
          let t = prefill f32 (view (fs ++ f ∷ [])) in
          let (next, did, w) = ingest-Tracks env fs ts e f positive v taken in
          let (last, ran, u) = run-Tracks next (fs ++ f ∷ []) (ts ++ t ∷ []) cs w in
          (
            last,
            rw (run, did) ran,
            rw (frames_from, transitions_from, taken)
                (rw (append_assoc ts (t ∷ []) (transitions_from (fs ++ f ∷ []) cs)) at u),
          )
    ]

    -- With a replay of positive capacity and an egress that accepts all commands, no sequence of
    -- events and actions panics. The window then holds the frames of the symbol's events, the
    -- last `window_frames` of them (all, if that is 0), and the replay the last `replay_capacity`
    -- transitions: one for each frame, and one for each action, on the window that it saw.
    pub run-new_env :
        (egress : eg.Egress) (cs : List Command)
        → (env : Env f32 ws eg) × (run (new_env f32 ws eg config egress) cs ≡ some env)
          × (flatten env.window.frames ≡ view (frames_from [] cs))
          × (snapshot env.replay
              ≡ some (
                  drop
                    (length (transitions_from [] cs) - config.replay_capacity)
                    (transitions_from [] cs)))
    run-new_env egress cs =
        let start = new_env f32 ws eg config egress in
        let (last, ran, u) = run-Tracks start [] [] cs (new_env-Tracks egress) in
        let (b, all, held) =
          snapshot-push_all config.replay_capacity (transitions_from [] cs) positive in
        let same : some b ≡ some last.replay = sym all ∙ u.replay_is in
        let same' : b ≡ last.replay = ground arith in
        (last, ran, viewed last (frames_from [] cs) _ u, ap snapshot (sym same') ∙ held)
