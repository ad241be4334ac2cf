-- ===== src/Gym/Observation.antt =====
-- crates/trolly-gym/src/observation.rs: features of stream events, and the rolling window. `f32`
-- is a parameter.
pub mod Window
use trolly.Prelude.{
  ℕ, Text, codes, Bool, ◌&&◌, Option, none, some, List, [], ◌∷◌, ◌++◌, if◌then◌else◌, eqb, length,
  tail, is_empty, Arithmetic,
}
use trolly.Strategy.Event.{EventKind, PriceLevel, DepthUpdate, StreamEvent, kind}

pub record ObservationWindow (T : Type 0) : Type 0 where
  pub capacity : ℕ
  pub frames : List (List T)

module _ {T : Type 0} where
  unfoldable pub new_window : ℕ → ObservationWindow T
  new_window capacity = record { capacity = capacity; frames = [] }

  unfoldable pub push_frame : ObservationWindow T → List T → ObservationWindow T
  push_frame w frame =
      let kept = if eqb (length w.frames) w.capacity then tail w.frames else w.frames in
      record w { frames = kept ++ frame ∷ [] }

  -- The frames in a row, oldest first.
  unfoldable pub flatten : List (List T) → List T
  flatten [] = []
  flatten (f ∷ fs) = f ++ flatten fs

  unfoldable pub flattened : ObservationWindow T → List T
  unfolding flatten
  flattened w = flatten w.frames

  unfoldable latest : List (List T) → Option (List T)
  latest [] = none
  latest (f ∷ []) = some f
  latest (f ∷ g ∷ fs) = latest (g ∷ fs)

abbrev pub or_else {ℓ} : {A : Type ℓ} → Option A → A → A
or_else none d = d
or_else (some a) d = a

module _ (f32 : Arithmetic) where
  open f32 use {Float, literal, parse, of_nat, plus, minus, over, below}

  abbrev nought : Float
  nought = literal (codes "0.0")

  abbrev parse_level : PriceLevel → Float × Float
  parse_level l = (or_else (parse l.price) nought, or_else (parse l.qty) nought)

  -- The first level of a side, or zeros.
  abbrev first_level : List PriceLevel → Float × Float
  first_level [] = (nought, nought)
  first_level (l ∷ ls) = parse_level l

  unfoldable pub depth_features : DepthUpdate → List Float
  depth_features depth =
      let (best_bid, bid_qty) = first_level depth.bids in
      let (best_ask, ask_qty) = first_level depth.asks in
      let both = below nought best_bid && below nought best_ask in
      let spread = if both then minus best_ask best_bid else nought in
      let mid = if both then over (plus best_bid best_ask) (literal (codes "2.0")) else nought in
      best_bid
      ∷ bid_qty
      ∷ best_ask
      ∷ ask_qty
      ∷ spread
      ∷ mid
      ∷ of_nat (or_else depth.update_id 0)
      ∷ []

  abbrev kind_tag : EventKind → Float
  kind_tag EventKind.depth = literal (codes "1.0")
  kind_tag EventKind.execution = literal (codes "2.0")
  kind_tag EventKind.account = literal (codes "3.0")

  unfoldable pub kind_tag_features : EventKind → List Float
  kind_tag_features k = kind_tag k ∷ []

  unfoldable pub features_from_event : StreamEvent → Option (List Float)
  unfolding depth_features kind_tag_features kind
  features_from_event (StreamEvent.depth d) = some (depth_features d)
  features_from_event (StreamEvent.execution e) =
      some (kind_tag_features (kind (StreamEvent.execution e)))
  features_from_event (StreamEvent.account a) =
      some (kind_tag_features (kind (StreamEvent.account a)))
