-- ===== src/Gym/Ring/History.antt =====
-- A ring's snapshot after a sequence of pushes.
use trolly.Prelude.{
  ℕ, suc, ◌+◌, ◌-◌, ◌≤◌, ◌<◌, ◌≡◌, refl, sym, ap, ◌∙◌, some, List, [], ◌∷◌, ◌++◌, ltb, length, drop,
  length-append, append_assoc, append-nil, arith, Bool-cases, Option-cases, inl, inr,
}
use trolly.Gym.Ring.{Ring, new, push, snapshot, push_all}
use trolly.Gym.Ring.Recent.{
  Holds, push_recent, new-Holds, pushed, push-some, pushed-Holds, snapshot-Holds,
}

module _ {T : Type 0} where
  abbrev pub fold_recent : ℕ → List T → List T → List T
  fold_recent capacity h [] = h
  fold_recent capacity h (t ∷ ts) = fold_recent capacity (push_recent capacity h t) ts

  push_all-Holds :
      (b : Ring T) (h ts : List T)
      → Holds b h
      → (b' : Ring T) × (push_all b ts ≡ some b') × Holds b' (fold_recent b.capacity h ts)
  unfolding push_all
  push_all-Holds b h [] v = (b, refl, v)
  push_all-Holds b h (t ∷ ts) v =
      let (b', e, w) =
        push_all-Holds (pushed b t) (push_recent b.capacity h t) ts (pushed-Holds b h t v) in
      (b', rw (push_all, push-some b h t v) e, w)

  -- The last `capacity` elements, one push at a time.
  pub fold_recent_lem :
      (capacity : ℕ) (h ts : List T)
      → 0 < capacity
      → length h ≤ capacity
      → fold_recent capacity h ts ≡ drop (length h + length ts - capacity) (h ++ ts)
  fold_recent_lem capacity h [] p le =
      let at : length h + 0 - capacity ≡ 0 = omega arith in rw at (sym (append-nil h))
  fold_recent_lem capacity [] (t ∷ ts) p le =
      let at : length (t ∷ []) + length ts - capacity
          ≡ length {A = T} [] + length (t ∷ ts) - capacity =
        omega arith in
      rw (← at) ground (arith, fold_recent_lem capacity (t ∷ []) ts p (omega arith))
  fold_recent_lem capacity (x ∷ h) (t ∷ ts) p le =
      let same = append_assoc (x ∷ h) (t ∷ []) ts in
      let len = length-append (x ∷ h) (t ∷ []) in
      let cut = length-append h (t ∷ []) in
      elim (Bool-cases (ltb (length (x ∷ h)) capacity)) [
        | inl room ↦
            let le' : length ((x ∷ h) ++ t ∷ []) ≤ capacity = ground (arith, len) in
            let ih = fold_recent_lem capacity ((x ∷ h) ++ t ∷ []) ts p le' in
            let at : length ((x ∷ h) ++ t ∷ []) + length ts - capacity
                ≡ length (x ∷ h) + length (t ∷ ts) - capacity =
              omega (arith, len) in
            ground (arith, ih, same, at)
        | inr full ↦
            let le' : length (h ++ t ∷ []) ≤ capacity = ground (arith, cut) in
            let ih = fold_recent_lem capacity (h ++ t ∷ []) ts p le' in
            let at : length (h ++ t ∷ []) + length ts - capacity ≡ length ts =
              ground (arith, cut) in
            let more : length (x ∷ h) + length (t ∷ ts) - capacity ≡ suc (length ts) =
              ground arith in
            ground (arith, ih, append_assoc h (t ∷ []) ts, at, more)
      ]

  -- After any sequence of pushes on a new ring of positive capacity, no push has panicked, and
  -- `snapshot` returns the last `capacity` elements, oldest first: all of them when there are
  -- fewer.
  pub snapshot-push_all :
      (capacity : ℕ) (ts : List T)
      → 0 < capacity
      → (b : Ring T) × (push_all (new capacity) ts ≡ some b)
        × (snapshot b ≡ some (drop (length ts - capacity) ts))
  unfolding new
  snapshot-push_all capacity ts p =
      let (b, e, v) = push_all-Holds (new capacity) [] ts (new-Holds capacity p) in
      let none_held : length {A = T} [] + length ts ≡ length ts = omega arith in
      let last = fold_recent_lem capacity [] ts p (omega arith) in
      (b, e, snapshot-Holds b _ v ∙ ap some (rw none_held at last))

  push_all-snoc :
      (b b' : Ring T) (ts : List T) (t : T)
      → push_all b ts ≡ some b'
      → push_all b (ts ++ t ∷ []) ≡ push b' t
  unfolding push_all push
  push_all-snoc b b' [] t e = elim (Option-cases (push b t)) [
    | inl n ↦ ground arith
    | inr (b1, p) ↦ ground arith
  ]
  push_all-snoc b b' (x ∷ ts) t e = elim (Option-cases (push b x)) [
    | inl n ↦ absurd (ground arith)
    | inr (b1, p) ↦
        let e' : push_all b1 ts ≡ some b' = ground arith in
        let first : push_all b (x ∷ ts ++ t ∷ []) ≡ push_all b1 (ts ++ t ∷ []) = ground arith in
        first ∙ push_all-snoc b1 b' ts t e'
  ]

  -- A push on a ring of positive capacity that any transitions led to succeeds.
  pub push_more :
      (capacity : ℕ) (b : Ring T) (ts : List T) (t : T)
      → 0 < capacity
      → push_all (new capacity) ts ≡ some b
      → (b' : Ring T) × (push b t ≡ some b') × (push_all (new capacity) (ts ++ t ∷ []) ≡ some b')
  push_more capacity b ts t p e =
      let (b', all, held) = snapshot-push_all capacity (ts ++ t ∷ []) p in
      (b', sym (push_all-snoc (new capacity) b ts t e) ∙ all, all)
