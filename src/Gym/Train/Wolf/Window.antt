-- ===== src/Gym/Train/Wolf/Window.antt =====
-- The payoffs behind the learning rate.
use trolly.Prelude.{
  ℕ, suc, ◌-◌, ◌≡◌, refl, ap, ◌∙◌, List, [], ◌∷◌, ◌++◌, if◌then◌else◌, ltb, length, drop,
  length-append, append_assoc, append-nil, drop-append_le, drop-tail, length-drop, Bool-cases, inl,
  inr, arith,
}
use trolly.Gym.Train.Numbers.{Numbers}
use trolly.Gym.Train.Rollout.{RolloutBatch, ActorCritic}
use trolly.Gym.Train.Wolf.{
  WolfPpoConfig, PpoTrainer, WolfPpoTrainer, new_wolf, is_winning, active_lr, push_payoff,
  update_payoff_estimate, wolf_update,
}

abbrev pub last_of {ℓ} : {A : Type ℓ} → ℕ → List A → List A
last_of k xs = drop (length xs - k) xs

module _ (n : Numbers) (ac : ActorCritic n) (ppo : PpoTrainer n ac) where
  open n use {f64, sum}

  push_payoff-last_of :
      (window : ℕ) (xs : List f64.Float) (x : f64.Float)
      → push_payoff n ac ppo window (last_of window xs) x ≡ last_of window (xs ++ x ∷ [])
  push_payoff-last_of window xs x =
      let k = length xs - window in
      let joined = drop-append_le k xs (x ∷ []) (omega arith) in
      let total = length-append xs (x ∷ []) in
      let kept = length-append (drop k xs) (x ∷ []) in
      let cut = length-drop k xs in
      elim (Bool-cases (ltb (length xs) window)) [
        | inl room ↦
            let at : k ≡ 0 = ground arith in
            let to : length (xs ++ x ∷ []) - window ≡ 0 = ground (arith, total) in
            ground (arith, kept, cut, at, to)
        | inr full ↦
            let to : length (xs ++ x ∷ []) - window ≡ suc k = ground (arith, total) in
            ground (arith, kept, cut, to, joined, drop-tail k (xs ++ x ∷ []))
      ]

  -- The updates of a sequence of batches and their returns.
  unfoldable pub updates :
      WolfPpoTrainer n ac ppo → List (RolloutBatch n × f64.Float) → WolfPpoTrainer n ac ppo
  unfolding wolf_update
  updates t [] = t
  updates t ((batch, payoff) ∷ rest) = updates (wolf_update n ac ppo t batch payoff).0 rest

  abbrev pub payoffs : List (RolloutBatch n × f64.Float) → List f64.Float
  payoffs [] = []
  payoffs ((batch, payoff) ∷ rest) = payoff ∷ payoffs rest

  updates-history :
      (t : WolfPpoTrainer n ac ppo) (c : WolfPpoConfig n) (xs : List f64.Float)
      (bs : List (RolloutBatch n × f64.Float))
      → t.config ≡ c
      → t.payoff_history ≡ last_of c.payoff_window xs
      → ((updates t bs).config ≡ c)
        × ((updates t bs).payoff_history ≡ last_of c.payoff_window (xs ++ payoffs bs))
  unfolding updates wolf_update update_payoff_estimate
  updates-history t c xs [] same held = (same, rw (append-nil xs) held)
  updates-history t c xs ((batch, payoff) ∷ rest) same held =
      let next : push_payoff n ac ppo t.config.payoff_window t.payoff_history payoff
          ≡ last_of c.payoff_window (xs ++ payoff ∷ []) =
        rw (same, held) (push_payoff-last_of c.payoff_window xs payoff) in
      rw (append_assoc xs (payoff ∷ []) (payoffs rest)) at (
        updates-history (wolf_update n ac ppo t batch payoff).0 c (xs ++ payoff ∷ []) rest same
          next)

  -- The mean of the payoffs that the estimate is made of.
  abbrev pub estimate : List f64.Float → f64.Float
  estimate h = f64.over (sum h) (f64.of_nat (length h))

  -- After any updates, the next one keeps the last `payoff_window` payoffs, its own among them, and
  -- trains with `alpha_win` exactly if its payoff is above their mean, else with `alpha_lose`.
  pub wolf_update-rate :
      (inner : ppo.Inner) (c : WolfPpoConfig n) (bs : List (RolloutBatch n × f64.Float))
      (batch : RolloutBatch n) (payoff : f64.Float)
      → let p = updates (new_wolf n ac ppo inner c) bs in
        let h = last_of c.payoff_window (payoffs bs ++ payoff ∷ []) in
        let t = (wolf_update n ac ppo p batch payoff).0 in
        let rate = if f64.below (estimate h) payoff then c.alpha_win else c.alpha_lose in
        (t.payoff_history ≡ h)
        × (t.rolling_avg_payoff ≡ estimate h)
        × (t.inner ≡ (ppo.policy_update (ppo.set_lr p.inner rate) batch).0)
  unfolding wolf_update update_payoff_estimate active_lr is_winning new_wolf
  wolf_update-rate inner c bs batch payoff =
      let start = new_wolf n ac ppo inner c in
      let none_yet : 0 - c.payoff_window ≡ 0 = omega arith in
      let (same, held) = updates-history start c [] bs refl (rw none_yet refl) in
      let next : push_payoff n ac ppo (updates start bs).config.payoff_window
            (updates start bs).payoff_history payoff
          ≡ last_of c.payoff_window (payoffs bs ++ payoff ∷ []) =
        rw (same, held) (push_payoff-last_of c.payoff_window (payoffs bs) payoff) in
      let p = updates start bs in
      let pushed = push_payoff n ac ppo p.config.payoff_window p.payoff_history payoff in
      let rates : (if f64.below (estimate pushed) payoff
            then p.config.alpha_win
            else p.config.alpha_lose)
          ≡ (if f64.below (estimate (last_of c.payoff_window (payoffs bs ++ payoff ∷ []))) payoff
              then c.alpha_win
              else c.alpha_lose) =
        ap (λ h. if f64.below (estimate h) payoff then p.config.alpha_win else p.config.alpha_lose)
          next
        ∙ ap
            (λ k.
              if f64.below (estimate (last_of c.payoff_window (payoffs bs ++ payoff ∷ []))) payoff
              then k.alpha_win
              else k.alpha_lose)
            same in
      (next, ap estimate next, ap (λ r. (ppo.policy_update (ppo.set_lr p.inner r) batch).0) rates)
