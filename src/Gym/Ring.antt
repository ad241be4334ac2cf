-- ===== src/Gym/Ring.antt =====
-- crates/trolly-gym/src/replay.rs: the ring that `ReplayBuffer` (of transitions) and
-- `FeatureRingBuffer` (of frames) each implement, with the same bodies. `none` is a panic: an
-- index out of bounds, as in a ring of capacity 0.
pub mod Wrap
pub mod Recent
pub mod History
use trolly.Prelude.{
  ℕ, zero, suc, ◌+◌, ◌%◌, Bool, Option, none, some, List, [], ◌∷◌, if◌then◌else◌, ltb, eqb, length,
  get_elem?, set, replicate,
}

pub record Ring (T : Type 0) : Type 0 where
  pub capacity : ℕ
  pub slots : List (Option T)
  pub head : ℕ
  pub len : ℕ

module _ {T : Type 0} where
  unfoldable pub new : ℕ → Ring T
  new capacity = record { capacity = capacity; slots = replicate capacity none; head = 0; len = 0 }

  unfoldable is_full : Ring T → Bool
  is_full b = eqb b.len b.capacity

  unfoldable pub push : Ring T → T → Option (Ring T)
  push b t =
      if ltb b.head (length b.slots)
      then some (record b {
        slots = set b.slots b.head (some t);
        head = (b.head + 1) % b.capacity;
        len = if ltb b.len b.capacity then b.len + 1 else b.len;
      })
      else none

  abbrev pub start : Ring T → ℕ
  start b = if eqb b.len b.capacity then b.head else 0

  -- `filter_map`: a slot that holds nothing is left out.
  abbrev pub keep : Option T → Option (List T) → Option (List T)
  keep s none = none
  keep none (some ts) = some ts
  keep (some t) (some ts) = some (t ∷ ts)

  abbrev pub read : Option (Option T) → Option (List T) → Option (List T)
  read none rest = none
  read (some s) rest = keep s rest

  -- The steps `i`, `i + 1`, … of the loop, `n` of them.
  unfoldable pub collect : Ring T → ℕ → ℕ → Option (List T)
  collect b zero i = some []
  collect b (suc n) i = read (get_elem? b.slots ((start b + i) % b.capacity)) (collect b n (suc i))

  unfoldable pub snapshot : Ring T → Option (List T)
  unfolding collect
  snapshot b = if eqb b.len 0 then some [] else collect b b.len 0

  -- A push for each element in turn.
  unfoldable pub push_all : Ring T → List T → Option (Ring T)
  unfolding push
  push_all b [] = some b
  push_all b (t ∷ ts) = elim (push b t) [ none ↦ none | some b' ↦ push_all b' ts ]
