-- ===== src/Tui/Ladder/Reading.antt =====
-- A printed book is read back.
use trolly.Prelude.{
  ℕ, ◌≤◌, ◌≡◌, refl, ap, ◌∙◌, Text, codes, trim, trim_start, strip_prefix, split_once, parse_uint,
  to_string, Option, some, List, [], ◌∷◌, ◌++◌, append_assoc, append-nil, tail, Free, Free-append,
  to_string-Free, parse_uint-to_string, strip_prefix-append, split_once_text, arith,
}
use trolly.Monitor.Source.Trimming.{trim-append}
use trolly.Tui.Ladder.{
  and_then, and_then-some, u64_max, strip_bracket, scan, split_bids_asks_sections,
  parse_book_display,
}

strip_bracket-append : (a : Text) → strip_bracket (a ++ 93 ∷ []) ≡ some a
unfolding strip_bracket
strip_bracket-append [] = refl
strip_bracket-append (c ∷ []) = refl
strip_bracket-append (c ∷ d ∷ a) = ground (arith, strip_bracket-append (d ∷ a))

-- The loop passes over a text without brackets, up to the bracket that closes it.
scan-Free :
    (before bids asks : Text)
    → Free 91 bids
    → Free 93 bids
    → scan 1 before (bids ++ (codes "], asks:[" ++ (asks ++ codes "]")))
      ≡ some (tail (before ++ bids), asks)
unfolding scan strip_prefix trim_start
scan-Free before [] asks o c = rw (strip_bracket-append asks, append-nil before) refl
scan-Free before (b ∷ bids) asks o c =
    ground
      (arith, scan-Free (before ++ b ∷ []) bids asks o.1 c.1, append_assoc before (b ∷ []) bids)

-- A book as it is printed.
abbrev pub printed : ℕ → Text → Text → Text
printed id bids asks =
    codes "update_id: "
    ++ (to_string id
        ++ (codes ", bids: "
            ++ (codes "[" ++ (bids ++ (codes "], asks:[" ++ (asks ++ codes "]"))))))

-- All of a printed book but the bracket at its end.
abbrev opened : ℕ → Text → Text → Text
opened id bids asks =
    codes "update_id: "
    ++ (to_string id ++ (codes ", bids: " ++ (codes "[" ++ (bids ++ (codes "], asks:[" ++ asks)))))

opened-printed :
    (id : ℕ) (bids asks : Text) → opened id bids asks ++ codes "]" ≡ printed id bids asks
opened-printed id bids asks = simp append_assoc

trim_bracket : trim (codes "]") ≡ codes "]"
unfolding trim trim_start
trim_bracket = refl

trim_start-opened :
    (id : ℕ) (bids asks : Text) → trim_start (opened id bids asks) ≡ opened id bids asks
unfolding trim_start
trim_start-opened id bids asks = refl

trim-printed : (id : ℕ) (bids asks : Text) → trim (printed id bids asks) ≡ printed id bids asks
trim-printed id bids asks =
    let whole = opened-printed id bids asks in
    rw (← whole) (trim-append b'u' _ b']' [] (trim_start-opened id bids asks) trim_bracket)

abbrev sides_text : Text → Text → Text
sides_text bids asks = codes "[" ++ (bids ++ (codes "], asks:[" ++ (asks ++ codes "]")))

-- The bids and the asks of the text after `, bids: `.
sides_printed :
    (bids asks : Text)
    → Free b'[' bids
    → Free b']' bids
    → split_bids_asks_sections (trim_start (sides_text bids asks)) ≡ some (bids, asks)
unfolding split_bids_asks_sections scan trim_start
sides_printed bids asks o c = scan-Free (codes "[") bids asks o c

split_printed :
    (id : ℕ) (bids asks : Text)
    → split_once (codes ", bids: ") (printed id bids asks)
      ≡ some (codes "update_id: " ++ to_string id, sides_text bids asks)
split_printed id bids asks =
    split_once_text b',' (codes " bids: ") (codes "update_id: " ++ to_string id)
      (sides_text bids asks)
      (Free-append b',' (codes "update_id: ") (to_string id) (ground arith)
        (to_string-Free b',' id (omega arith)))

module _ (levels : Text → List (Text × Text)) where
  -- A printed book, whose bids hold no bracket, is read back: its update id, in the range of
  -- `u64`, and the levels that are found in its bids and in its asks.
  pub parse_book_display-printed :
      (id : ℕ) (bids asks : Text)
      → id ≤ 18446744073709551615
      → Free b'[' bids
      → Free b']' bids
      → parse_book_display levels (printed id bids asks) ≡ some (id, levels bids, levels asks)
  unfolding parse_book_display
  parse_book_display-printed id bids asks h o c =
      let parts =
        ap (split_once (codes ", bids: ")) (trim-printed id bids asks)
        ∙ split_printed id bids asks in
      let B = ℕ × List (Text × Text) × List (Text × Text) in
      let sides : ℕ → Text × Text → Option B = λ i x. some (i, levels x.0, levels x.1) in
      let ids : ℕ → Option B =
        λ i. and_then (split_bids_asks_sections (trim_start (sides_text bids asks))) (sides i) in
      let id_s : Text → Option B = λ t. and_then (parse_uint u64_max t) ids in
      and_then-some _ _ _ parts
      ∙ (and_then-some _ _ id_s (strip_prefix-append (codes "update_id: ") (to_string id))
          ∙ (and_then-some _ _ ids (parse_uint-to_string u64_max id h)
              ∙ and_then-some _ _ (sides id) (sides_printed bids asks o c)))
