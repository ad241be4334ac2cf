-- ===== src/Gym/Ring/Wrap.antt =====
-- Indices below twice the capacity of a ring, wrapped.
use trolly.Prelude.{
  ℕ, suc, ◌+◌, ◌-◌, ◌%◌, ◌≤◌, ◌<◌, ◌≡◌, ◌≢◌, sym, ap, ◌∙◌, ltb, arith, Bool-cases, inl, inr,
}

-- An index below twice the capacity, wrapped.
pub wrap_lt : (a c : ℕ) → a < c → a % c ≡ a
wrap_lt a c h = grind arith

pub wrap_ge : (a c : ℕ) → c ≤ a → a < c + c → a % c ≡ a - c
wrap_ge a c h k = grind arith

pub wrap_step :
    (head i c : ℕ) → head < c → i + 1 < c → ((head + 1) % c + i) % c ≡ (head + suc i) % c
wrap_step head i c h k = elim (Bool-cases (ltb (head + 1) c)) [
  | inl inside ↦
      let same : head + 1 + i ≡ head + suc i = omega arith in
      rw (wrap_lt (head + 1) c (ground arith)) (ap (λ n. n % c) same)
  | inr outside ↦
      let last : head + 1 ≡ c = ground arith in
      let back : head + 1 - c ≡ 0 = omega arith in
      let left : (head + 1) % c ≡ 0 = wrap_ge (head + 1) c (omega arith) (omega arith) ∙ back in
      let same : i ≡ head + suc i - c = omega arith in
      let none_added : 0 + i ≡ i = omega arith in
      rw (left, none_added)
        (wrap_lt i c (omega arith)
          ∙ (same ∙ sym (wrap_ge (head + suc i) c (omega arith) (omega arith))))
]

pub wrap_ne : (head i c : ℕ) → head < c → i + 1 < c → head ≢ ((head + 1) % c + i) % c
wrap_ne head i c h k = grind arith

pub wrap_last : (head i c : ℕ) → head < c → i + 1 ≡ c → ((head + 1) % c + i) % c ≡ head
wrap_last head i c h k = grind arith
