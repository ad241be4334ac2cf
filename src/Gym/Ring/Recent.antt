-- ===== src/Gym/Ring/Recent.antt =====
-- The ring against the list of the last pushes.
use trolly.Prelude.{
  ℕ, zero, suc, ◌+◌, ◌-◌, ◌%◌, ◌≤◌, ◌<◌, ◌≡◌, refl, sym, ap, ◌∙◌, none, some, List, [], ◌∷◌, ◌++◌,
  if◌then◌else◌, ltb, length, get_elem?, set, drop, tail, length-append, length-set,
  length-replicate, get_elem?-set_self, get_elem?-set_ne, get_elem?-append_lt,
  get_elem?-append_last, get_elem?-tail, length-tail, drop-get_elem?, get_elem?-lt, get_elem?-bound,
  drop-length, arith, Bool-cases, inl, inr,
}
use native.Mathlib.Nat.{mod-lt}
use trolly.Gym.Ring.{Ring, new, push, start, collect, snapshot}
use trolly.Gym.Ring.Wrap.{wrap_lt, wrap_ge, wrap_step, wrap_ne, wrap_last}

module _ {T : Type 0} where
  -- A queue that holds `capacity` elements at most: the oldest goes when it is full.
  abbrev pub push_recent : ℕ → List T → T → List T
  push_recent capacity h t = if ltb (length h) capacity then h ++ t ∷ [] else tail h ++ t ∷ []

  -- The ring holds the queue `h`: element `i` stands `i` slots after the start.
  pub record Holds (b : Ring T) (h : List T) : Type 0 where
    pub positive : 0 < b.capacity
    pub sized : length b.slots ≡ b.capacity
    pub counted : b.len ≡ length h
    pub bounded : b.len ≤ b.capacity
    pub in_range : b.head < b.capacity
    pub growing : b.len < b.capacity → b.head ≡ b.len
    pub stored :
        (i : ℕ) (t : T)
        → get_elem? h i ≡ some t
        → get_elem? b.slots ((start b + i) % b.capacity) ≡ some (some t)

  pub new-Holds : (capacity : ℕ) → 0 < capacity → Holds (new capacity) []
  unfolding new
  new-Holds capacity p = record {
    positive = p;
    sized = length-replicate capacity none;
    counted = refl;
    bounded = omega arith;
    in_range = p;
    growing = λ h. refl;
    stored = λ i t e. cc;
  }

  collect-Holds :
      (b : Ring T) (h : List T) (n i : ℕ)
      → Holds b h
      → n + i ≡ length h
      → collect b n i ≡ some (drop i h)
  unfolding collect
  collect-Holds b h zero i v e = let q : i ≡ length h = omega arith in rw q (rw (drop-length h))
  collect-Holds b h (suc n) i v e =
      let (t, at) = get_elem?-lt h i (omega arith) in
      rw (v.stored i t at)
        (rw (collect-Holds b h n (suc i) v (omega arith)) (ap some (sym (drop-get_elem? h i t at))))

  pub snapshot-Holds : (b : Ring T) (h : List T) → Holds b h → snapshot b ≡ some h
  unfolding snapshot collect
  snapshot-Holds b [] v = ground (arith, v.counted)
  snapshot-Holds b (t ∷ h) v = ground (arith, v.counted, collect-Holds b (t ∷ h) b.len 0 v)

  -- The slot that a push writes.
  abbrev pub pushed : Ring T → T → Ring T
  pushed b t = record b {
    slots = set b.slots b.head (some t);
    head = (b.head + 1) % b.capacity;
    len = if ltb b.len b.capacity then b.len + 1 else b.len;
  }

  pub push-some : (b : Ring T) (h : List T) (t : T) → Holds b h → push b t ≡ some (pushed b t)
  unfolding push
  push-some b h t v = ground (arith, v.sized, v.in_range)

  stored_growing :
      (b : Ring T) (h : List T) (t : T) (i : ℕ) (a : T)
      → Holds b h
      → b.len < b.capacity
      → get_elem? (h ++ t ∷ []) i ≡ some a
      → get_elem? (set b.slots b.head (some t)) (i % b.capacity) ≡ some (some a)
  stored_growing b h t i a v less e =
      let bound = get_elem?-bound (h ++ t ∷ []) i a e in
      let len = length-append h (t ∷ []) in
      elim (Bool-cases (ltb i b.len)) [
        | inl older ↦
            let lt : i < b.len = ground arith in
            let old : get_elem? h i ≡ some a =
              sym (get_elem?-append_lt h (t ∷ []) i (omega (arith, v.counted))) ∙ e in
            let here : (start b + i) % b.capacity ≡ i = ground (arith, wrap_lt i b.capacity) in
            rw (wrap_lt i b.capacity (omega arith)) (
              get_elem?-set_ne b.slots b.head i (some t) (omega (arith, v.growing less))
              ∙ (rw here at (v.stored i a old)))
        | inr newest ↦
            let same : i ≡ length h = ground (arith, bound, len, v.counted) in
            let it : some t ≡ some a = sym (get_elem?-append_last h t) ∙ rw (← same) e in
            let here : i ≡ b.head = omega (arith, v.growing less, v.counted) in
            rw (wrap_lt i b.capacity (omega (arith, v.counted))) (
              rw here (
                get_elem?-set_self b.slots b.head (some t) (omega (arith, v.sized, v.in_range))
                ∙ ap some it))
      ]

  stored_full :
      (b : Ring T) (h : List T) (t : T) (i : ℕ) (a : T)
      → Holds b h
      → b.len ≡ b.capacity
      → get_elem? (tail h ++ t ∷ []) i ≡ some a
      → get_elem? (set b.slots b.head (some t)) (((b.head + 1) % b.capacity + i) % b.capacity)
        ≡ some (some a)
  stored_full b h t i a v full e =
      let bound = get_elem?-bound (tail h ++ t ∷ []) i a e in
      let len = length-append (tail h) (t ∷ []) in
      let cut = length-tail h in
      elim (Bool-cases (ltb (i + 1) b.capacity)) [
        | inl older ↦
            let lt : i + 1 < b.capacity = ground arith in
            let old : get_elem? h (suc i) ≡ some a =
              sym (get_elem?-tail h i)
              ∙ (sym (get_elem?-append_lt (tail h) (t ∷ []) i (omega (arith, v.counted))) ∙ e) in
            let here : (start b + suc i) % b.capacity
                ≡ ((b.head + 1) % b.capacity + i) % b.capacity =
              ground (arith, wrap_step b.head i b.capacity v.in_range lt) in
            get_elem?-set_ne b.slots b.head _ (some t) (wrap_ne b.head i b.capacity v.in_range lt)
            ∙ (rw here at (v.stored (suc i) a old))
        | inr newest ↦
            let same : i ≡ length (tail h) = ground (arith, bound, len, cut, v.counted) in
            let it : some t ≡ some a = sym (get_elem?-append_last (tail h) t) ∙ rw (← same) e in
            let here : ((b.head + 1) % b.capacity + i) % b.capacity ≡ b.head =
              wrap_last b.head i b.capacity v.in_range (omega (arith, v.counted, v.positive)) in
            rw here (
              get_elem?-set_self b.slots b.head (some t) (omega (arith, v.sized, v.in_range))
              ∙ ap some it)
      ]

  head_lem :
      (b : Ring T) (h : List T) (t : T)
      → Holds b h
      → (pushed b t).len < b.capacity
      → (pushed b t).head ≡ (pushed b t).len
  head_lem b h t v less = elim (Bool-cases (ltb b.len b.capacity)) [
    | inl room ↦ ground (
      arith,
      v.growing (ground arith),
      wrap_lt (b.head + 1) b.capacity (ground (arith, v.growing (ground arith))),
    )
    | inr full ↦ ground (arith, v.bounded)
  ]

  start_zero :
      (b : Ring T) (h : List T) (t : T) → Holds b h → b.len < b.capacity → start (pushed b t) ≡ 0
  start_zero b h t v less =
      let at = v.growing less in
      elim (Bool-cases (ltb (b.len + 1) b.capacity)) [
        | inl room ↦ ground arith
        | inr filled ↦
            let cap : b.head + 1 ≡ b.capacity = ground arith in
            let past : b.head + 1 - b.capacity ≡ 0 = omega arith in
            let turn = wrap_ge (b.head + 1) b.capacity (omega arith) (omega arith) ∙ past in
            ground (arith, turn)
      ]

  pushed_stored :
      (b : Ring T) (h : List T) (t : T) (i : ℕ) (a : T)
      → Holds b h
      → get_elem? (push_recent b.capacity h t) i ≡ some a
      → get_elem? (pushed b t).slots ((start (pushed b t) + i) % b.capacity) ≡ some (some a)
  pushed_stored b h t i a v e = elim (Bool-cases (ltb b.len b.capacity)) [
    | inl room ↦
        let less : b.len < b.capacity = ground arith in
        let e' : get_elem? (h ++ t ∷ []) i ≡ some a = ground (arith, v.counted) in
        let begins = start_zero b h t v less in
        let none_added : 0 + i ≡ i = omega arith in
        rw (begins, none_added) (stored_growing b h t i a v less e')
    | inr full ↦
        let all : b.len ≡ b.capacity = ground (arith, v.bounded) in
        let e' : get_elem? (tail h ++ t ∷ []) i ≡ some a = ground (arith, v.counted) in
        let begins : start (pushed b t) ≡ (b.head + 1) % b.capacity = ground arith in
        rw begins (stored_full b h t i a v all e')
  ]

  pub pushed-Holds :
      (b : Ring T) (h : List T) (t : T)
      → Holds b h
      → Holds (pushed b t) (push_recent b.capacity h t)
  pushed-Holds b h t v = record {
    positive = v.positive;
    sized = length-set b.slots b.head (some t) ∙ v.sized;
    counted = ground (
      arith,
      v.counted,
      v.bounded,
      length-append h (t ∷ []),
      length-append (tail h) (t ∷ []),
      length-tail h,
      v.positive,
    );
    bounded = ground (arith, v.bounded);
    in_range = mod-lt (b.head + 1) v.positive;
    growing = head_lem b h t v;
    stored = λ i a e. pushed_stored b h t i a v e;
  }
