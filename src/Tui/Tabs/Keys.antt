-- ===== src/Tui/Tabs/Keys.antt =====
-- The selected tab is one of the strip.
use trolly.Prelude.{
  ℕ, zero, suc, ◌+◌, ◌<◌, ◌≡◌, refl, ap, Text, List, [], ◌∷◌, map, some, length, get_elem?,
  get_elem?-lt, length-append, arith,
}
use native.Mathlib.Nat.{mod-lt}
use trolly.Tui.Tabs.{
  Key, forward, backward, ignored, press, clamp_tab, frames, TabKind, sym, legs, groups, tab_strip,
  view_for_tab, view_of, canonical_first_seen, diff, diff_label,
}

length-map : {A B : Type 0} (f : A → B) (xs : List A) → length (map f xs) ≡ length xs
length-map f [] = refl
length-map f (x ∷ xs) = ap suc (length-map f xs)

press-lt : (count tab : ℕ) (k : Key) → 0 < count → tab < count → press count tab k < count
unfolding press
press-lt zero tab k p h = absurd (omega arith)
press-lt (suc n) tab forward p h = mod-lt (tab + 1) p
press-lt (suc n) zero backward p h = omega arith
press-lt (suc n) (suc tab) backward p h = omega arith
press-lt count tab ignored p h = h

clamp_tab-lt : (count tab : ℕ) → 0 < count → clamp_tab count tab < count
unfolding clamp_tab
clamp_tab-lt count tab p = ground arith

frames-lt : (count tab : ℕ) (ks : List Key) → 0 < count → frames count tab ks < count
unfolding frames
frames-lt count tab [] p = clamp_tab-lt count tab p
frames-lt count tab (k ∷ ks) p = frames-lt count (press count (clamp_tab count tab) k) ks p

module _ (upper : ℕ → Text) where
  length-groups :
      (order cs : List Text) → length (groups upper order cs).0 ≡ length (groups upper order cs).1
  unfolding groups
  length-groups order [] = refl
  length-groups order (c ∷ cs) = ground (
    arith,
    length-groups order cs,
    length-append (legs upper c order) (diff_label c ∷ (groups upper order cs).0),
    length-append (map sym (legs upper c order)) (diff c ∷ (groups upper order cs).1),
    length-map sym (legs upper c order),
  )

  -- Whatever keys are pressed, from whatever tab: when there is a stream, the tab that is shown
  -- has a label and a kind in the strip.
  pub frames-selected :
      (s : Text) (order : List Text) (tab : ℕ) (ks : List Key)
      → let (labels, kinds) = tab_strip upper (s ∷ order) in
        let shown = frames (length labels) tab ks in
        (l : Text) × (k : TabKind) × (get_elem? labels shown ≡ some l)
        × (get_elem? kinds shown ≡ some k)
        × (view_for_tab shown kinds ≡ view_of (some k))
  unfolding tab_strip view_for_tab
  frames-selected s order tab ks =
      let (labels, kinds) = tab_strip upper (s ∷ order) in
      let same = length-groups (s ∷ order) (canonical_first_seen upper (s ∷ order)) in
      let lt = frames-lt (length labels) tab ks (omega arith) in
      let (l, at) = get_elem?-lt labels (frames (length labels) tab ks) lt in
      let (k, at') = get_elem?-lt kinds (frames (length labels) tab ks) (omega (arith, same)) in
      (l, k, at, at', ap (view_of) at')
