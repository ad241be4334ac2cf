-- ===== src/Gym/Train/Rollout/Collecting.antt =====
-- What a rollout consists of.
use trolly.Prelude.{
  ℕ, zero, suc, ℤ, codes, none, some, List, [], ◌∷◌, ◌++◌, if◌then◌else◌, eqb, Bool-cases, inl, inr,
  ◌≡◌, refl, ap, length, get_elem?, map, replicate, arith,
}
use trolly.Gym.Train.Numbers.{Numbers}
use trolly.Gym.Train.Rollout.{
  OnPolicyTransition, StepOutput, ActorCritic, RolloutCollector, Rolling, collect_step,
  collect_steps, collect,
}

module _ (n : Numbers) (ac : ActorCritic n) {W : Type 0}
    (env_step : W → List n.f32.Float → ℤ → W × StepOutput n) where
  open n use {f32}

  length-collect_steps :
      (net : ac.Network) (dim k : ℕ) (s : Rolling n ac env_step)
      → length (collect_steps n ac env_step net dim k s).1 ≡ k
  unfolding collect_steps
  length-collect_steps net dim zero s = refl
  length-collect_steps net dim (suc k) s =
      ap suc (length-collect_steps net dim k (collect_step n ac env_step net dim s).0)

  abbrev pub observations : List (OnPolicyTransition n) → List (List f32.Float)
  observations ts = map (λ t. t.observation) ts

  abbrev zeros : ℕ → List f32.Float
  zeros dim = replicate dim (f32.literal (codes "0.0"))

  -- The observation after a transition, if that ended an episode.
  abbrev restart : OnPolicyTransition n → List (OnPolicyTransition n) → List (List f32.Float)
  restart t [] = []
  restart t (u ∷ ts) = if t.is_done then u.observation ∷ [] else []

  -- The observations that the episodes after the first one start with.
  abbrev pub restarts : List (OnPolicyTransition n) → List (List f32.Float)
  restarts [] = []
  restarts (t ∷ ts) = restart t ts ++ restarts ts

  abbrev ZerosOnly : ℕ → List (List f32.Float) → Type 0
  ZerosOnly dim os = os ≡ replicate (length os) (zeros dim)

  restart-ZerosOnly :
      (net : ac.Network) (dim k : ℕ) (s : Rolling n ac env_step)
      → let (s1, t) = collect_step n ac env_step net dim s in
        (os : List (List f32.Float))
        → ZerosOnly dim os
        → ZerosOnly dim (restart t (collect_steps n ac env_step net dim k s1).1 ++ os)
  unfolding collect_steps
  restart-ZerosOnly net dim zero s os z = z
  restart-ZerosOnly net dim (suc k) s os z =
      let t = (collect_step n ac env_step net dim s).1 in
      elim (Bool-cases t.is_done) [
        | inl ended ↦ rw ended (ap (λ l. zeros dim ∷ l) z)
        | inr goes_on ↦ rw goes_on z
      ]

  restarts-collect_steps :
      (net : ac.Network) (dim k : ℕ) (s : Rolling n ac env_step)
      → ZerosOnly dim (restarts (collect_steps n ac env_step net dim k s).1)
  unfolding collect_steps
  restarts-collect_steps net dim zero s = refl
  restarts-collect_steps net dim (suc k) s =
      let s1 = (collect_step n ac env_step net dim s).0 in
      restart-ZerosOnly net dim k s (restarts (collect_steps n ac env_step net dim k s1).1)
        (restarts-collect_steps net dim k s1)

  first_observation :
      (net : ac.Network) (dim k : ℕ) (s : Rolling n ac env_step)
      → get_elem? (observations (collect_steps n ac env_step net dim k s).1) 0
        ≡ (if eqb k 0 then none else some s.current_obs)
  unfolding collect_steps collect_step
  first_observation net dim zero s = refl
  first_observation net dim (suc k) s = ground arith

  -- Whatever the network and the environment do, a rollout has `horizon` transitions. The first, if
  -- there is one, is on the initial observation, and each that follows the end of an episode is
  -- on zeros, as many as the initial observation is long.
  pub collect-horizon :
      (c : RolloutCollector n) (net : ac.Network) (world : W) (random : ac.Random)
      (initial : List f32.Float)
      → let ts = (collect n ac env_step c net world random initial).1.transitions in
        (length ts ≡ c.horizon)
        × (get_elem? (observations ts) 0 ≡ (if eqb c.horizon 0 then none else some initial))
        × (restarts ts
            ≡ replicate
                (length (restarts ts))
                (replicate (length initial) (f32.literal (codes "0.0"))))
  unfolding collect
  collect-horizon c net world random initial =
      let s : Rolling n ac env_step = record {
        world = world;
        random = random;
        current_obs = initial;
      } in
      (
        length-collect_steps net (length initial) c.horizon s,
        first_observation net (length initial) c.horizon s,
        restarts-collect_steps net (length initial) c.horizon s,
      )
