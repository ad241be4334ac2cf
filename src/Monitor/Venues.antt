-- ===== src/Monitor/Venues.antt =====
-- src/providers/binance_usd_m.rs, src/providers/depth/binance/spot.rs and src/providers/depth/stub.rs:
-- the URLs and subscriptions of the depth venues. `upper` and `lower` are the Unicode tables of
-- `char::to_uppercase` and `char::to_lowercase`; `debug` is the `Debug` text of a list of texts.
pub mod UsdM
pub mod Spot
pub mod Stub
use trolly.Prelude.{
  ℕ, Text, codes, to_uppercase, strip_prefix, Bool, true, false, ◌||◌, Option, none, some, List, [],
  ◌∷◌, ◌++◌, map, if◌then◌else◌,
}

unfoldable pub strip_rpi : Text → Text × Bool
unfolding strip_prefix
strip_rpi symbol = elim (strip_prefix (codes "RPI:") symbol) [
  | some raw ↦ (raw, true)
  | none ↦ (symbol, false)
]

-- `{"method": "SUBSCRIBE", "params": …, "id": 1}`
abbrev pub subscribe_frame : Text → Text
subscribe_frame params =
    codes "{\"method\": \"SUBSCRIBE\", \"params\": " ++ (params ++ codes ", \"id\": 1}")
