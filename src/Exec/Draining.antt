-- ===== src/Exec/Draining.antt =====
-- The loop of `run_order_executor`, which the egress.rs of both execution crates has: the queue in
-- order, up to the first order that fails. The queue is what is received until its senders are gone:
-- the wait for more is not modelled. `place` is the client's `place_order`, which may change
-- the world outside.
use trolly.Prelude.{List, [], ◌∷◌, Result, ok, err, ◌≡◌, ◌∙◌, refl, arith}

module _ {S R A E : Type 0} (place : S → R → S × Result A E) where
  unfoldable pub drain : S → List R → S × Result (Unit {0}) E
  drain s [] = (s, ok tt)
  drain s (r ∷ rest) =
      let (s', placed) = place s r in elim placed [ ok _ ↦ drain s' rest | err e ↦ (s', err e) ]

  -- The orders are placed one after the other, each with success.
  pub data Places : S → List R → S → Type 0 where
    idle : {s : S} → Places s [] s
    placed :
        {s t u : S} {r : R} {rs : List R} (a : A)
        → place s r ≡ (t, ok a)
        → Places t rs u
        → Places s (r ∷ rs) u

  drain-cons :
      (s t : S) (r : R) (rest : List R) (a : A)
      → place s r ≡ (t, ok a)
      → drain s (r ∷ rest) ≡ drain t rest
  unfolding drain
  drain-cons s t r rest a p = ground arith

  -- A queue that can be placed is placed.
  pub drain-Places : {s t : S} {queue : List R} → Places s queue t → drain s queue ≡ (t, ok tt)
  unfolding drain
  drain-Places idle = refl
  drain-Places {s = s} (placed {t = t} {r = r} {rs = rs} a p ps) =
      drain-cons s t r rs a p ∙ drain-Places ps
