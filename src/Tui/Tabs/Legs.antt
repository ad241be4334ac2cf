-- ===== src/Tui/Tabs/Legs.antt =====
-- Each stream has its tab.
use trolly.Prelude.{
  ℕ, suc, ◌+◌, ◌*◌, ◌≡◌, refl, ap, ◌∙◌, Text, text_Eq, text_eq_iff, false, List, [], ◌∷◌, ◌++◌, map,
  if◌then◌else◌, ◌==◌, arith, Bool-cases, inl, inr,
}
use native.Mathlib.Nat.{suc-mul}
use trolly.Tui.Tabs.{
  TabKind, merged_canon, sym, diff, mem_text, canonical_from_stream_id, first_seen,
  canonical_first_seen, legs, groups, tab_strip,
}

abbrev pub count_text : Text → List Text → ℕ
count_text s [] = 0
count_text s (t ∷ ts) = if t == s then suc (count_text s ts) else count_text s ts

-- The streams that have a tab of their own, in the order of the tabs.
abbrev pub streams_of : List TabKind → List Text
streams_of [] = []
streams_of (merged_canon c ∷ ks) = streams_of ks
streams_of (sym s ∷ ks) = s ∷ streams_of ks
streams_of (diff c ∷ ks) = streams_of ks

-- The instruments that have a tab of merged books.
abbrev pub merged_of : List TabKind → List Text
merged_of [] = []
merged_of (merged_canon c ∷ ks) = c ∷ merged_of ks
merged_of (sym s ∷ ks) = merged_of ks
merged_of (diff c ∷ ks) = merged_of ks

streams_of-syms :
    (xs : List Text) (ks : List TabKind) → streams_of (map sym xs ++ ks) ≡ xs ++ streams_of ks
streams_of-syms [] ks = refl
streams_of-syms (x ∷ xs) ks = ap (λ l. x ∷ l) (streams_of-syms xs ks)

merged_of-syms : (xs : List Text) (ks : List TabKind) → merged_of (map sym xs ++ ks) ≡ merged_of ks
merged_of-syms [] ks = refl
merged_of-syms (x ∷ xs) ks = merged_of-syms xs ks

count_text-append :
    (s : Text) (xs ys : List Text) → count_text s (xs ++ ys) ≡ count_text s xs + count_text s ys
count_text-append s [] ys = omega arith
count_text-append s (x ∷ xs) ys = ground (arith, count_text-append s xs ys)

module _ (upper : ℕ → Text) where
  abbrev canon : Text → Text
  canon = canonical_from_stream_id upper

  count_text-legs :
      (s c : Text) (order : List Text)
      → count_text s (legs upper c order) ≡ (if canon s == c then count_text s order else 0)
  unfolding legs
  count_text-legs s c [] = ground arith
  count_text-legs s c (t ∷ order) = ground (
    arith,
    count_text-legs s c order,
    text_eq_iff t s,
    text_eq_iff (canon t) c,
    text_eq_iff (canon s) c,
  )

  count_text-groups :
      (s : Text) (order cs : List Text)
      → count_text s (streams_of (groups upper order cs).1)
        ≡ count_text (canon s) cs * count_text s order
  unfolding groups
  count_text-groups s order [] = omega arith
  count_text-groups s order (c ∷ cs) =
      let tail_kinds = diff c ∷ (groups upper order cs).1 in
      rw (streams_of-syms (legs upper c order) tail_kinds) (
        count_text-append s (legs upper c order) (streams_of tail_kinds)
        ∙ ground (
          arith,
          count_text-legs s c order,
          count_text-groups s order cs,
          text_eq_iff c (canon s),
          text_eq_iff (canon s) c,
          suc-mul (count_text (canon s) cs) (count_text s order),
        ))

  merged_of-groups : (order cs : List Text) → merged_of (groups upper order cs).1 ≡ cs
  unfolding groups
  merged_of-groups order [] = refl
  merged_of-groups order (c ∷ cs) =
      ap (λ l. c ∷ l)
        (merged_of-syms (legs upper c order) (diff c ∷ (groups upper order cs).1)
          ∙ merged_of-groups order cs)

  count_text-first_seen :
      (c : Text) (seen order : List Text)
      → count_text c (first_seen upper seen order)
        ≡ (if mem_text c seen then 0 else if mem_text c (map canon order) then 1 else 0)
  unfolding first_seen mem_text
  count_text-first_seen c seen [] = ground arith
  count_text-first_seen c seen (s ∷ order) = ground (
    arith,
    count_text-first_seen c seen order,
    count_text-first_seen c (canon s ∷ seen) order,
    text_eq_iff (canon s) c,
  )

  absent :
      (s : Text) (order : List Text)
      → mem_text (canon s) (map canon order) ≡ false
      → count_text s order ≡ 0
  unfolding mem_text
  absent s [] e = refl
  absent s (t ∷ order) e =
      ground (arith, absent s order, text_eq_iff t s, text_eq_iff (canon t) (canon s))

  -- The strip has a tab for each stream, as often as the stream is listed and no other, and one
  -- tab of merged books for each instrument of a stream.
  pub tab_strip-legs :
      (order : List Text) (s c : Text)
      → let kinds = (tab_strip upper order).1 in
        (count_text s (streams_of kinds) ≡ count_text s order)
        × (count_text c (merged_of kinds)
            ≡ (if mem_text c (map (canonical_from_stream_id upper) order) then 1 else 0))
  unfolding tab_strip canonical_first_seen mem_text
  tab_strip-legs order s c =
      let first = first_seen upper [] order in
      let sum = count_text-groups s order first in
      let once = count_text-first_seen (canon s) [] order in
      (
        elim (Bool-cases (mem_text (canon s) (map canon order))) [
          | inl y ↦ ground (arith, sum, once, suc-mul 0 (count_text s order))
          | inr n ↦ ground (arith, sum, once, absent s order n)
        ],
        ap (count_text c) (merged_of-groups order first) ∙ count_text-first_seen c [] order,
      )
