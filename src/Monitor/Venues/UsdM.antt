-- ===== src/Monitor/Venues/UsdM.antt =====
-- src/providers/binance_usd_m.rs: USD-M depth.
use trolly.Prelude.{
  ℕ, Text, codes, to_uppercase, Bool, false, ◌||◌, List, [], ◌∷◌, ◌++◌, map, if◌then◌else◌,
}
use trolly.Monitor.Venues.{strip_rpi, subscribe_frame}

module _ (upper lower : ℕ → Text) (debug : List Text → Text) where
  -- A text is mapped character by character, as `to_uppercase` does.
  abbrev to_lowercase : Text → Text
  to_lowercase = to_uppercase lower

  unfoldable pub rest_api_url : Text → Text
  unfolding strip_rpi
  rest_api_url symbol =
      codes "https://fapi.binance.com/fapi/v1/depth?symbol="
      ++ (to_uppercase upper (strip_rpi symbol).0 ++ codes "&limit=1000")

  -- The stream of a symbol.
  unfoldable pub param : Text → Text
  unfolding strip_rpi
  param symbol =
      let (raw, rpi) = strip_rpi symbol in
      if rpi
      then to_lowercase raw ++ codes "@rpiDepth@500ms"
      else to_lowercase raw ++ codes "@depth"

  -- The flag that the closure sets.
  unfoldable pub has_rpi : List Text → Bool
  unfolding strip_rpi
  has_rpi [] = false
  has_rpi (s ∷ symbols) = (strip_rpi s).1 || has_rpi symbols

  unfoldable pub ws_subscriptions : List Text → List Text
  unfolding has_rpi param
  ws_subscriptions symbols =
      let subscribe = subscribe_frame (debug (map param symbols)) in
      if has_rpi symbols
      then codes "{\"method\":\"SET_PROPERTY\",\"params\":[\"combined\",true],\"id\":0}"
        ∷ subscribe
        ∷ []
      else subscribe ∷ []
