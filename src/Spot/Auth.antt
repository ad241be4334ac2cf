-- ===== src/Spot/Auth.antt =====
-- crates/binance-spot-exec/src/auth.rs: signed parameters. `sign secret payload` is the HMAC-SHA256
-- in hexadecimal, and `now` the time in milliseconds.
use trolly.Prelude.{
  ℕ, Text, codes, text_eq, text_Eq, to_string, join, [], map, ◌++◌, ◌≡◌, ◌∙◌, none, some, false,
  BTreeMap, put, lookup, remove, lookup-put, remove-put,
}

abbrev key_value : Text × Text → Text
key_value (k, v) = k ++ (codes "=" ++ v)

unfoldable pub signed_params_payload : BTreeMap → Text
signed_params_payload params = join (codes "&") (map key_value params)

module _ (sign : Text → Text → Text) where
  -- Also the body of `build_signed_rest_params`, which takes and returns the map.
  unfoldable pub append_signature : Text → BTreeMap → BTreeMap
  unfolding signed_params_payload
  append_signature secret_key params =
      put (codes "signature") (sign secret_key (signed_params_payload params)) params

  module _ (now : ℕ) where
    unfoldable pub sign_params : Text → BTreeMap → BTreeMap
    unfolding append_signature
    sign_params secret_key params =
        append_signature secret_key (put (codes "timestamp") (to_string now) params)

    unfoldable pub build_subscribe_signature_params : Text → Text → BTreeMap
    unfolding sign_params
    build_subscribe_signature_params api_key secret_key =
        sign_params secret_key (put (codes "apiKey") api_key [])

  -- What a signature covers: the payload of the other parameters.
  pub append_signature_lem :
      (secret : Text) (m : BTreeMap)
      → lookup (codes "signature") m ≡ none
      → lookup (codes "signature") (append_signature secret m)
        ≡ some (
            sign secret
              (signed_params_payload (remove (codes "signature") (append_signature secret m))))
  unfolding append_signature text_eq
  append_signature_lem secret m unsigned =
      let signature = sign secret (signed_params_payload m) in
      lookup-put (codes "signature") (codes "signature") signature m
      ∙ rw (remove-put (codes "signature") signature m unsigned)

  pub lookup-append_signature :
      (secret k : Text) (m : BTreeMap)
      → text_eq (codes "signature") k ≡ false
      → lookup k (append_signature secret m) ≡ lookup k m
  unfolding append_signature
  lookup-append_signature secret k m ne =
      lookup-put k (codes "signature") (sign secret (signed_params_payload m)) m ∙ rw ne
