-- ===== src/Examples/Tui.antt =====
-- The terminal display: tabs, keys and a printed book.
use trolly.Prelude.{
  ℕ, Text, codes, ◌≡◌, some, List, [], ◌∷◌, map, if◌then◌else◌, length, get_elem?, Free, arith,
}
use trolly.Tui.Tabs.{
  Key, forward, backward, ignored, TabKind, tab_strip, frames, view_for_tab, view_of, mem_text,
  canonical_from_stream_id,
}
use trolly.Tui.Tabs.Keys.{frames-selected}
use trolly.Tui.Tabs.Legs.{count_text, streams_of, merged_of, tab_strip-legs}
use trolly.Tui.Ladder.{parse_book_display}
use trolly.Tui.Ladder.Reading.{printed, parse_book_display-printed}

-- Upper case of a character that is in upper case.
abbrev same_case : ℕ → Text
same_case c = c ∷ []

abbrev others : List Text
others = codes "binance-usd-m:RPI:BTCUSDT" ∷ codes "binance:ETHUSDT" ∷ []

abbrev keys : List Key
keys = backward ∷ forward ∷ forward ∷ ignored ∷ []

frames-selected_example :
    let (labels, kinds) = tab_strip same_case (codes "binance-usd-m:BTCUSDT" ∷ others) in
    let shown = frames (length labels) 0 keys in
    (l : Text) × (k : TabKind) × (get_elem? labels shown ≡ some l)
    × (get_elem? kinds shown ≡ some k)
    × (view_for_tab shown kinds ≡ view_of (some k))
frames-selected_example = frames-selected same_case (codes "binance-usd-m:BTCUSDT") others 0 keys

tab_strip-legs_example :
    let kinds = (tab_strip same_case others).1 in
    (count_text (codes "binance:ETHUSDT") (streams_of kinds)
      ≡ count_text (codes "binance:ETHUSDT") others)
    × (count_text (codes "BTCUSDT") (merged_of kinds) ≡ (
        if mem_text (codes "BTCUSDT") (map (canonical_from_stream_id same_case) others)
        then 1
        else 0))
tab_strip-legs_example = tab_strip-legs same_case others (codes "binance:ETHUSDT") (codes "BTCUSDT")

-- A search that finds the whole text as one pair.
abbrev whole : Text → List (Text × Text)
whole t = (t, []) ∷ []

bids-Free : (Free b'[' (codes "50000:2")) × (Free b']' (codes "50000:2"))
bids-Free = ground arith

parse_book_display-printed_example :
    parse_book_display whole (printed 42 (codes "50000:2") (codes "50001:1"))
    ≡ some (42, whole (codes "50000:2"), whole (codes "50001:1"))
parse_book_display-printed_example =
    parse_book_display-printed whole 42 (codes "50000:2") (codes "50001:1") (omega arith)
      bids-Free.0 bids-Free.1
