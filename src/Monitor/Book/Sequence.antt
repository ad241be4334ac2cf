-- ===== src/Monitor/Book/Sequence.antt =====
-- The update ids of a book that its readers see.
use trolly.Prelude.{
  ℕ, Text, text_Eq, ◌≡◌, refl, ap, ◌∙◌, if◌then◌else◌, some, List, [], ◌∷◌, lookup, Frames,
  Bool-cases, inl, inr,
}
use trolly.Monitor.Lob.{Lob}
use trolly.Monitor.Book.{
  LeftRight, DepthJson, absorb_first, sync_with, add_bids, add_asks, update, initialize,
  handle_update, from_snapshot, order_book,
}
use trolly.Stream.Multiplexor.{MonitorMultiplexor}
use trolly.Stream.Routing.{ingest_messages, handled, handle_all, updates_of, lookup-ingest_messages}

module _ (lob : Lob) (lr : LeftRight lob) (json : DepthJson lob) (ws : Frames) where
  -- The id after an update that is not skipped is the update's last id.
  abbrev next_id : ℕ → lob.DepthUpdate → ℕ
  next_id n u = if lob.skip_update u n then n else lob.last_update_id u

  abbrev pub sequence : ℕ → List lob.DepthUpdate → ℕ
  sequence n [] = n
  sequence n (u ∷ us) = sequence (next_id n u) us

  -- Whatever the other copy is, an update sets the id of the copy that absorbs it.
  absorb-update :
      (book other : lob.LimitOrderBook) (u : lob.DepthUpdate)
      → (next : lob.LimitOrderBook) × (absorb_first lob book (update u) other ≡ some next)
        × (lob.update_id next ≡ next_id (lob.update_id book) u)
  unfolding absorb_first
  absorb-update book other u = elim (Bool-cases (lob.skip_update u (lob.update_id book))) [
    | inl stale ↦ (book, rw stale refl, rw stale refl)
    | inr fresh ↦
        let old = add_asks lob (add_bids lob book (lob.bids u)) (lob.asks u) in
        (
          lob.with_update_id (lob.last_update_id u) old,
          rw fresh refl,
          rw fresh (lob.update_id-with_update_id (lob.last_update_id u) old),
        )
  ]

  -- Both copies of the book have the update id.
  record IsAt (w : lr.WriteHandle) (n : ℕ) : Type 0 where
    shown : lob.LimitOrderBook
    hidden : lob.LimitOrderBook
    copies : lr.Copies w shown hidden
    shown_id : lob.update_id shown ≡ n
    hidden_id : lob.update_id hidden ≡ n

  handle_update-IsAt :
      (w : lr.WriteHandle) (n : ℕ) (u : lob.DepthUpdate)
      → IsAt w n
      → IsAt (lr.publish (lr.append w (update u))) (next_id n u)
  handle_update-IsAt w n u v =
      let (first, e, id) = absorb-update v.hidden v.shown u in
      let (second, e', id') = absorb-update v.shown first u in
      record {
        shown = first;
        hidden = second;
        copies = lr.publish-append w (update u) v.shown v.hidden first second v.copies e e';
        shown_id = id ∙ ap (λ m. next_id m u) v.hidden_id;
        hidden_id = id' ∙ ap (λ m. next_id m u) v.shown_id;
      }

  handle_all-IsAt :
      (w : lr.WriteHandle) (n : ℕ) (us : List lob.DepthUpdate)
      → IsAt w n
      → IsAt (handle_all ws (order_book lob json lr ws) w us) (sequence n us)
  unfolding handle_update
  handle_all-IsAt w n [] v = v
  handle_all-IsAt w n (u ∷ us) v =
      handle_all-IsAt (lr.publish (lr.append w (update u))) (next_id n u) us
        (handle_update-IsAt w n u v)

  -- A book that starts from a snapshot has the snapshot's id in both copies.
  from_snapshot-IsAt :
      (book : lob.LimitOrderBook) → IsAt (from_snapshot lob json lr ws book) (lob.update_id book)
  unfolding from_snapshot absorb_first sync_with
  from_snapshot-IsAt book =
      let held = lob.extend lob.default book in
      record {
        shown = held;
        hidden = lob.extend lob.default held;
        copies = lr.publish-first (initialize book) held (rw lob.book_eq-default refl);
        shown_id = lob.update_id-extend book;
        hidden_id = lob.update_id-extend held ∙ lob.update_id-extend book;
      }

  -- A multiplexor's book for a symbol that started from a snapshot: after any sequence of frames,
  -- its readers see the update id that the symbol's own updates lead to, one at a time from the
  -- snapshot's: an update that is stale at the id before it leaves the id, any other sets it to
  -- its last id. Frames of other symbols do not count.
  pub update_id-ingest_messages :
      (mux : MonitorMultiplexor lr.WriteHandle) (symbol : Text) (book : lob.LimitOrderBook)
      (msgs : List ws.Message)
      → lookup symbol mux.writers ≡ some (from_snapshot lob json lr ws book)
      → (w : lr.WriteHandle) × (lookup symbol
            (ingest_messages ws (order_book lob json lr ws) mux msgs).writers
          ≡ some w)
        × (lob.update_id (lr.read w)
            ≡ sequence (lob.update_id book) (updates_of ws (order_book lob json lr ws) symbol msgs))
  update_id-ingest_messages mux symbol book msgs start =
      let us = updates_of ws (order_book lob json lr ws) symbol msgs in
      let w = from_snapshot lob json lr ws book in
      let last = handle_all ws (order_book lob json lr ws) w us in
      let v = handle_all-IsAt w (lob.update_id book) us (from_snapshot-IsAt book) in
      (
        last,
        lookup-ingest_messages ws (order_book lob json lr ws) symbol mux msgs
            ∙ ap (λ o. handled ws (order_book lob json lr ws) o us) start,
        ap lob.update_id (lr.read-Copies last v.shown v.hidden v.copies) ∙ v.shown_id,
      )
