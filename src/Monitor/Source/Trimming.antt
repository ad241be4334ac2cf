-- ===== src/Monitor/Source/Trimming.antt =====
-- What `trim` leaves as it is.
use mathlib.Core.List.{reverse, reverse_aux, reverse-append, reverse-reverse}
use trolly.Prelude.{
  ℕ, ◌+◌, ◌≤◌, Text, trim, trim_start, ◌≡◌, refl, sym, ap, ◌∙◌, [], ◌∷◌, ◌++◌, length, arith,
}

length-trim_start : (s : Text) → length (trim_start s) ≤ length s
unfolding trim_start
length-trim_start [] = omega arith
length-trim_start (c ∷ s) = ground (arith, length-trim_start s)

length-reverse_aux : (s t : Text) → length (reverse_aux s t) ≡ length s + length t
length-reverse_aux [] t = omega arith
length-reverse_aux (c ∷ s) t = omega (arith, length-reverse_aux s (c ∷ t))

length-reverse_text : (s : Text) → length (reverse s) ≡ length s
length-reverse_text s = omega (arith, length-reverse_aux s [])

trim_start-full : (s : Text) → length s ≤ length (trim_start s) → trim_start s ≡ s
unfolding trim_start
trim_start-full [] h = refl
trim_start-full (c ∷ s) h = ground (arith, length-trim_start s)

-- A text that starts with no white space keeps its start when another follows.
trim_start-append :
    (c : ℕ) (a b : Text) → trim_start (c ∷ a) ≡ c ∷ a → trim_start ((c ∷ a) ++ b) ≡ (c ∷ a) ++ b
unfolding trim_start
trim_start-append c a b h = ground (arith, length-trim_start a, ap length h)

trim-ends : (s : Text) → trim s ≡ s → (trim_start s ≡ s) × (trim_start (reverse s) ≡ reverse s)
unfolding trim
trim-ends s h =
    let u = trim_start s in
    let v = trim_start (reverse u) in
    let short : length s ≤ length u = omega (
      arith,
      ap length h,
      length-reverse_text v,
      length-trim_start (reverse u),
      length-reverse_text u,
    ) in
    let start = trim_start-full s short in
    let rest : reverse (trim_start (reverse s)) ≡ s = rw start at h in
    (start, sym (reverse-reverse (trim_start (reverse s))) ∙ ap reverse rest)

trim_start-reverse :
    (d : ℕ) (b a r : Text) → reverse (d ∷ b) ≡ r → trim_start r ≡ r → trim_start (r ++ a) ≡ r ++ a
trim_start-reverse d b a [] e h = absurd (omega (arith, ap length e, length-reverse_text (d ∷ b)))
trim_start-reverse d b a (c ∷ r) e h = trim_start-append c r a h

-- A trimmed text that is not empty, after a text that starts with no white space.
pub trim-append :
    (c : ℕ) (a : Text) (d : ℕ) (b : Text)
    → trim_start (c ∷ a) ≡ c ∷ a
    → trim (d ∷ b) ≡ d ∷ b
    → trim ((c ∷ a) ++ d ∷ b) ≡ (c ∷ a) ++ d ∷ b
unfolding trim
trim-append c a d b h k =
    let ends = trim-ends (d ∷ b) k in
    let flip = reverse-append (c ∷ a) (d ∷ b) in
    let kept = trim_start-reverse d b (reverse (c ∷ a)) (reverse (d ∷ b)) refl ends.1 in
    ap (λ s. reverse (trim_start (reverse s))) (trim_start-append c a (d ∷ b) h)
    ∙ (ap (λ s. reverse (trim_start s)) flip
        ∙ (ap reverse (kept ∙ sym flip) ∙ reverse-reverse ((c ∷ a) ++ d ∷ b)))
