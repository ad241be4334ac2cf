-- ===== src/Monitor/Venues/Stub.antt =====
-- src/providers/depth/stub.rs: the placeholder venue.
use trolly.Prelude.{ℕ, Text, codes, to_uppercase, List, [], ◌∷◌, ◌++◌, map}
use trolly.Monitor.Venues.{subscribe_frame}

module _ (upper lower : ℕ → Text) (debug : List Text → Text) where
  -- A text is mapped character by character, as `to_uppercase` does.
  abbrev to_lowercase : Text → Text
  to_lowercase = to_uppercase lower

  unfoldable pub rest_api_url : Text → Text
  rest_api_url symbol = codes "https://stub.example/depth?symbol=" ++ to_uppercase upper symbol

  unfoldable pub ws_subscriptions : List Text → List Text
  ws_subscriptions symbols =
      subscribe_frame (debug (map (λ s. to_lowercase s ++ codes "@depth") symbols)) ∷ []
