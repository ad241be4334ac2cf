-- ===== src/Monitor/Lob.antt =====
-- What the program takes from the `lob` crate: the order book and the depth update, with the
-- fields that it reads. Assumed of them is that a field that was set is read back, that the default
-- book equals itself, and that a default book that is extended takes the other book's update id.
use trolly.Prelude.{ℕ, Text, ◌≡◌, Bool, true, List}

pub record Lob : Type 1 where
  pub LimitOrderBook : Type 0
  pub DepthUpdate : Type 0
  pub PriceAndQuantity : Type 0
  -- `LimitOrderBook::default()` and `new()`
  pub default : LimitOrderBook
  pub empty : LimitOrderBook
  pub update_id : LimitOrderBook → ℕ
  pub with_update_id : ℕ → LimitOrderBook → LimitOrderBook
  pub add_bid : LimitOrderBook → PriceAndQuantity → LimitOrderBook
  pub add_ask : LimitOrderBook → PriceAndQuantity → LimitOrderBook
  pub extend : LimitOrderBook → LimitOrderBook → LimitOrderBook
  pub merge_aggregate_absorb : LimitOrderBook → LimitOrderBook → LimitOrderBook
  -- `PartialEq`
  pub book_eq : LimitOrderBook → LimitOrderBook → Bool
  pub symbol : DepthUpdate → Text
  pub with_symbol : Text → DepthUpdate → DepthUpdate
  pub last_update_id : DepthUpdate → ℕ
  pub bids : DepthUpdate → List PriceAndQuantity
  pub asks : DepthUpdate → List PriceAndQuantity
  pub skip_update : DepthUpdate → ℕ → Bool
  pub update_id-with_update_id : (n : ℕ) (b : LimitOrderBook) → update_id (with_update_id n b) ≡ n
  pub book_eq-default : book_eq default default ≡ true
  pub update_id-extend : (b : LimitOrderBook) → update_id (extend default b) ≡ update_id b
