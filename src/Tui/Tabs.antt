-- ===== src/Tui/Tabs.antt =====
-- The tabs of src/bin/aggregated_depth_tui.rs: their order, and how the keys move between them.
-- `upper` is the Unicode table of `char::to_uppercase`.

pub mod Legs
pub mod Keys
use trolly.Prelude.{
  ℕ, zero, suc, ◌+◌, ◌-◌, ◌%◌, Text, codes, text_Eq, text_eq, to_uppercase, to_ascii_uppercase,
  strip_prefix, Bool, true, false, ◌&&◌, ◌||◌, Option, none, some, List, [], ◌∷◌, ◌++◌, map,
  if◌then◌else◌, ◌==◌, leb, length, get_elem?,
}

unfoldable pub mem_text : Text → List Text → Bool
mem_text s [] = false
mem_text s (t ∷ ts) = t == s || mem_text s ts

abbrev rpi_prefix : Text
rpi_prefix = codes "RPI:"

abbrev first_some {ℓ} : {A : Type ℓ} → Option A → Option A → Option A
first_some none o = o
first_some (some a) o = some a

abbrev or_text : Option Text → Text → Text
or_text none d = d
or_text (some t) d = t

-- The text after the first provider's prefix that fits, or the whole text.
abbrev without_provider : Text → Text
without_provider stream_id =
    or_text
      (first_some (strip_prefix (codes "binance-usd-m:") stream_id) (
        first_some (strip_prefix (codes "binance:") stream_id)
          (strip_prefix (codes "stub:") stream_id)))
      stream_id

pub data TabKind : Type 0 where
  merged_canon sym diff : Text → TabKind

pub data View : Type 0 where
  merged_canonical symbol diff_of : Text → View

-- `MERGED·` and `Δ·`
abbrev merged_label : Text → Text
merged_label c = codes "MERGED" ++ 183 ∷ c

abbrev pub diff_label : Text → Text
diff_label c = 916 ∷ 183 ∷ c

abbrev pub view_of : Option TabKind → View
view_of none = merged_canonical []
view_of (some (merged_canon c)) = merged_canonical c
view_of (some (sym s)) = symbol s
view_of (some (diff s)) = diff_of s

unfoldable pub view_for_tab : ℕ → List TabKind → View
view_for_tab tab kinds = view_of (get_elem? kinds tab)

module _ (upper : ℕ → Text) where
  unfoldable pub canonical_from_stream_id : Text → Text
  unfolding strip_prefix
  canonical_from_stream_id stream_id =
      let sym = without_provider stream_id in
      to_uppercase upper (or_text (strip_prefix rpi_prefix sym) sym)

  -- The loop of `canonical_first_seen`; `seen` is the set.
  unfoldable pub first_seen : List Text → List Text → List Text
  unfolding canonical_from_stream_id mem_text
  first_seen seen [] = []
  first_seen seen (s ∷ order) =
      let c = canonical_from_stream_id s in
      let known = first_seen seen order in
      let added = c ∷ first_seen (c ∷ seen) order in if mem_text c seen then known else added

  unfoldable pub canonical_first_seen : List Text → List Text
  unfolding first_seen
  canonical_first_seen = first_seen []

  -- The inner loop of `tab_strip`: the streams of the instrument `c`.
  unfoldable pub legs : Text → List Text → List Text
  unfolding canonical_from_stream_id
  legs c [] = []
  legs c (s ∷ order) =
      let rest = legs c order in if canonical_from_stream_id s == c then s ∷ rest else rest

  -- The labels and the kinds that the outer loop pushes.
  unfoldable pub groups : List Text → List Text → List Text × List TabKind
  unfolding legs
  groups order [] = ([], [])
  groups order (c ∷ cs) =
      let (labels, kinds) = groups order cs in
      (
        merged_label c ∷ (legs c order ++ (diff_label c ∷ labels)),
        merged_canon c ∷ (map sym (legs c order) ++ (diff c ∷ kinds)),
      )

  unfoldable pub tab_strip : List Text → List Text × List TabKind
  unfolding groups canonical_first_seen
  tab_strip order = groups order (canonical_first_seen order)

  unfoldable usdm_std_stream_id : Text → Text
  usdm_std_stream_id base = codes "binance-usd-m:" ++ to_uppercase upper base

  unfoldable usdm_rpi_stream_id : Text → Text
  usdm_rpi_stream_id base = codes "binance-usd-m:RPI:" ++ to_uppercase upper base

  unfoldable rpi_depth_pair_in_keys : List Text → Text → Bool
  unfolding usdm_std_stream_id usdm_rpi_stream_id mem_text
  rpi_depth_pair_in_keys keys instrument =
      let base = to_uppercase upper instrument in
      let known = map to_ascii_uppercase keys in
      mem_text (to_ascii_uppercase (usdm_std_stream_id base)) known
      && mem_text (to_ascii_uppercase (usdm_rpi_stream_id base)) known

  unfoldable diff_tab_title_to_canonical : Text → Text
  unfolding canonical_from_stream_id strip_prefix
  diff_tab_title_to_canonical title = canonical_from_stream_id (
      or_text
        (first_some (strip_prefix (916 ∷ 183 ∷ []) title) (strip_prefix (916 ∷ 32 ∷ []) title))
        title)

-- What the keys do: `Right` and `Tab`, `Left`, and any other.
pub data Key : Type 0 where
  forward backward ignored : Key

-- `max(1)` of a length.
abbrev pub at_least_1 : ℕ → ℕ
at_least_1 zero = 1
at_least_1 (suc n) = suc n

-- `checked_sub(1)`, or the last tab.
abbrev back_from : ℕ → ℕ → ℕ
back_from zero count = count - 1
back_from (suc tab) count = tab

unfoldable pub press : ℕ → ℕ → Key → ℕ
press count tab forward = (tab + 1) % at_least_1 count
press count tab backward = back_from tab count
press count tab ignored = tab

-- The clamp at the start of a frame.
unfoldable pub clamp_tab : ℕ → ℕ → ℕ
clamp_tab count tab = if leb count tab then count - 1 else tab

-- The frames of the loop, each with the key that is read in it.
unfoldable pub frames : ℕ → ℕ → List Key → ℕ
unfolding press clamp_tab
frames count tab [] = clamp_tab count tab
frames count tab (k ∷ ks) = frames count (press count (clamp_tab count tab) k) ks
