-- ===== src/Usdm/Order/Words.antt =====
-- The words of an order: `parse` against `as_str`.
use trolly.Prelude.{Text, text_eq_iff, codes, to_ascii_uppercase, ◌≡◌, ◌↔◌, ok, arith}
use trolly.Usdm.Order.{
  OrderSide, buy, sell, TimeInForce, gtc, ioc, fok, gtx, PositionSide, long, short, both, side_str,
  parse_side, tif_str, parse_tif, position_side_str, parse_position_side,
}

-- A text is read as a side exactly when its upper-case form is the word of that side.
pub parse_side_iff :
    (v : Text) (s : OrderSide) → (parse_side v ≡ ok s) ↔ (to_ascii_uppercase v ≡ side_str s)
unfolding parse_side side_str
parse_side_iff v buy = ground (
  arith,
  text_eq_iff (to_ascii_uppercase v) (codes "BUY"),
  text_eq_iff (to_ascii_uppercase v) (codes "SELL"),
)
parse_side_iff v sell = ground (
  arith,
  text_eq_iff (to_ascii_uppercase v) (codes "BUY"),
  text_eq_iff (to_ascii_uppercase v) (codes "SELL"),
)

-- A text is read as a time in force exactly when its upper-case form is the word of that one.
pub parse_tif_iff :
    (v : Text) (t : TimeInForce) → (parse_tif v ≡ ok t) ↔ (to_ascii_uppercase v ≡ tif_str t)
unfolding parse_tif tif_str
parse_tif_iff v t = all t
  where
    g : Text
    g = codes "GTC"

    all : (t : TimeInForce) → (parse_tif v ≡ ok t) ↔ (to_ascii_uppercase v ≡ tif_str t)
    all gtc = ground (
      arith,
      text_eq_iff (to_ascii_uppercase v) g,
      text_eq_iff (to_ascii_uppercase v) (codes "IOC"),
      text_eq_iff (to_ascii_uppercase v) (codes "FOK"),
      text_eq_iff (to_ascii_uppercase v) (codes "GTX"),
    )
    all ioc = ground (
      arith,
      text_eq_iff (to_ascii_uppercase v) g,
      text_eq_iff (to_ascii_uppercase v) (codes "IOC"),
      text_eq_iff (to_ascii_uppercase v) (codes "FOK"),
      text_eq_iff (to_ascii_uppercase v) (codes "GTX"),
    )
    all fok = ground (
      arith,
      text_eq_iff (to_ascii_uppercase v) g,
      text_eq_iff (to_ascii_uppercase v) (codes "IOC"),
      text_eq_iff (to_ascii_uppercase v) (codes "FOK"),
      text_eq_iff (to_ascii_uppercase v) (codes "GTX"),
    )
    all gtx = ground (
      arith,
      text_eq_iff (to_ascii_uppercase v) g,
      text_eq_iff (to_ascii_uppercase v) (codes "IOC"),
      text_eq_iff (to_ascii_uppercase v) (codes "FOK"),
      text_eq_iff (to_ascii_uppercase v) (codes "GTX"),
    )

-- A text is read as a position side exactly when its upper-case form is the word of that side.
pub parse_position_side_iff :
    (v : Text) (s : PositionSide)
    → (parse_position_side v ≡ ok s) ↔ (to_ascii_uppercase v ≡ position_side_str s)
unfolding parse_position_side position_side_str
parse_position_side_iff v s = all s
  where
    all :
        (s : PositionSide)
        → (parse_position_side v ≡ ok s) ↔ (to_ascii_uppercase v ≡ position_side_str s)
    all long = ground (
      arith,
      text_eq_iff (to_ascii_uppercase v) (codes "LONG"),
      text_eq_iff (to_ascii_uppercase v) (codes "SHORT"),
      text_eq_iff (to_ascii_uppercase v) (codes "BOTH"),
    )
    all short = ground (
      arith,
      text_eq_iff (to_ascii_uppercase v) (codes "LONG"),
      text_eq_iff (to_ascii_uppercase v) (codes "SHORT"),
      text_eq_iff (to_ascii_uppercase v) (codes "BOTH"),
    )
    all both = ground (
      arith,
      text_eq_iff (to_ascii_uppercase v) (codes "LONG"),
      text_eq_iff (to_ascii_uppercase v) (codes "SHORT"),
      text_eq_iff (to_ascii_uppercase v) (codes "BOTH"),
    )
