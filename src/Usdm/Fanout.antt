-- ===== src/Usdm/Fanout.antt =====
-- What `parse_user_events` makes of an `ACCOUNT_UPDATE`, and of the combined-stream envelope.
use trolly.Prelude.{
  ℕ, Text, codes, ◌≡◌, ◌∙◌, Option, none, some, List, [], ◌∷◌, ◌++◌, map, append_assoc, append-nil,
  Result, ok, >>=-eq-ok, ok_or, Json, Frames, arith,
}
use trolly.Usdm.Types.{
  BalanceChange, PositionChange, UsdmExecUpdate, balance_change, position_change,
}
use trolly.Usdm.Parse.{
  missing_field, required_u64, optional_str, balance_row, position_row, push_balances,
  push_positions, rows_of, parse_account_update, unwrap_combined_envelope, parse_user_events,
  option_or,
}

-- Row by row, the decoder accepts the inputs and gives the outputs.
pub data Decodes {A B E : Type 0} (f : A → Result B E) : List A → List B → Type 0 where
  done : Decodes f [] []
  row :
      {a : A} {b : B} {as' : List A} {bs : List B}
      → f a ≡ ok b
      → Decodes f as' bs
      → Decodes f (a ∷ as') (b ∷ bs)

ok_or-eq-ok {ℓ κ} :
    {A : Type ℓ} {E : Type κ} (o : Option A) (x : E) {a : A} → ok_or o x ≡ ok a → o ≡ some a
ok_or-eq-ok none x e = cc
ok_or-eq-ok (some b) x e = cc

module _ (js : Json) where
  open js use {Value, Error, from_str, get}

  push_balances-Decodes :
      (t : ℕ) (reason : Text) (out : List UsdmExecUpdate) (rows : List Value)
      (us : List UsdmExecUpdate)
      → push_balances js t reason out rows ≡ ok us
      → (bs : List BalanceChange) × Decodes (balance_row js t reason) rows bs
        × (us ≡ out ++ map balance_change bs)
  unfolding push_balances
  push_balances-Decodes t reason out [] us e = ([], done, ground (arith, append-nil out))
  push_balances-Decodes t reason out (r ∷ rows) us e =
      let (b, p, q) =
        >>=-eq-ok (balance_row js t reason r)
          (λ b. push_balances js t reason (out ++ balance_change b ∷ []) rows) e in
      let (bs, ds, eq) = push_balances-Decodes t reason (out ++ balance_change b ∷ []) rows us q in
      (b ∷ bs, row p ds, eq ∙ append_assoc out (balance_change b ∷ []) (map balance_change bs))

  push_positions-Decodes :
      (t : ℕ) (reason : Text) (out : List UsdmExecUpdate) (rows : List Value)
      (us : List UsdmExecUpdate)
      → push_positions js t reason out rows ≡ ok us
      → (ps : List PositionChange) × Decodes (position_row js t reason) rows ps
        × (us ≡ out ++ map position_change ps)
  unfolding push_positions
  push_positions-Decodes t reason out [] us e = ([], done, ground (arith, append-nil out))
  push_positions-Decodes t reason out (r ∷ rows) us e =
      let (b, p, q) =
        >>=-eq-ok (position_row js t reason r)
          (λ b. push_positions js t reason (out ++ position_change b ∷ []) rows) e in
      let (bs, ds, eq) =
        push_positions-Decodes t reason (out ++ position_change b ∷ []) rows us q in
      (b ∷ bs, row p ds, eq ∙ append_assoc out (position_change b ∷ []) (map position_change bs))

  -- The rows of an account update that was read, and the updates that they became.
  pub record Fanned (payload : Value) (us : List UsdmExecUpdate) : Type 0 where
    pub event_time : ℕ
    pub account : Value
    pub balances : List BalanceChange
    pub positions : List PositionChange
    pub timed : required_u64 js payload (codes "E") (codes "ACCOUNT_UPDATE") ≡ ok event_time
    pub found : get payload (codes "a") ≡ some account
    pub balance_rows :
        Decodes
          (balance_row js event_time (optional_str js account (codes "m")))
          (rows_of js account (codes "B"))
          balances
    pub position_rows :
        Decodes
          (position_row js event_time (optional_str js account (codes "m")))
          (rows_of js account (codes "P"))
          positions
    pub fanned : us ≡ map balance_change balances ++ map position_change positions

  -- An `ACCOUNT_UPDATE` that is read gives one update for each row: first each row of `B` as a
  -- balance, then each row of `P` as a position, in the order of the arrays, and no row is skipped.
  pub parse_account_update-Fanned :
      (payload : Value) (us : List UsdmExecUpdate)
      → parse_account_update js payload ≡ ok us
      → Fanned payload us
  unfolding parse_account_update
  parse_account_update-Fanned payload us e =
      let (t, timed, e1) =
        >>=-eq-ok (required_u64 js payload (codes "E") (codes "ACCOUNT_UPDATE")) _ e in
      let (account, got, e2) =
        >>=-eq-ok
          (ok_or (get payload (codes "a")) (missing_field (codes "a") (codes "ACCOUNT_UPDATE"))) _
          e1 in
      let (out, pushed, e3) =
        >>=-eq-ok
          (push_balances js t (optional_str js account (codes "m")) []
            (rows_of js account (codes "B")))
          _ e2 in
      let (bs, ds, eq) = push_balances-Decodes t _ [] (rows_of js account (codes "B")) out pushed in
      let (ps, ds', eq') = push_positions-Decodes t _ out (rows_of js account (codes "P")) us e3 in
      record {
        event_time = t;
        account = account;
        balances = bs;
        positions = ps;
        timed = timed;
        found = ok_or-eq-ok (get payload (codes "a")) _ got;
        balance_rows = ds;
        position_rows = ds';
        fanned = rw (← eq) eq';
      }

  module _ (ws : Frames) where
    -- A payload inside a combined-stream envelope is read as the payload alone: where the frame's
    -- text is an object with `data`, the result is that of a frame whose text is that `data`,
    -- which has no `data` of its own.
    pub parse_user_events-envelope :
        (wrapped bare : Text) (root payload : Value)
        → from_str wrapped ≡ ok root
        → from_str bare ≡ ok payload
        → get root (codes "data") ≡ some payload
        → get payload (codes "data") ≡ none
        → parse_user_events js ws (ws.of_text wrapped) ≡ parse_user_events js ws (ws.of_text bare)
    unfolding parse_user_events unwrap_combined_envelope option_or
    parse_user_events-envelope wrapped bare root payload r p d n =
        simp (ws.as_text-of_text, r, p, d, n)
