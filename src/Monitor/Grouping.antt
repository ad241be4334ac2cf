-- ===== src/Monitor/Grouping.antt =====
-- `run_global_book_stream` of src/monitor/global_book.rs: the symbols of each provider's stream.
use trolly.Prelude.{
  ℕ, Text, eqb, eqb_iff, true, ◌≡◌, ◌↔◌, refl, sym, ap, ◌∙◌, Option, none, some, List, [], ◌∷◌,
  ◌++◌, append_assoc, if◌then◌else◌, ◌==◌, Eq, HashMap, lookup, insert, lookup-insert, append-nil,
  Bool-cases, inl, inr,
}
use trolly.Monitor.Source.{Provider, binance, binance_usd_m, stub, other, BookSource}

-- The order of the constructors, for the derived `PartialEq`.
abbrev rank : Provider → ℕ
rank binance = 0
rank binance_usd_m = 1
rank stub = 2
rank other = 3

of_rank : ℕ → Provider
of_rank n =
    if eqb n 0 then binance else if eqb n 1 then binance_usd_m else if eqb n 2 then stub else other

of_rank-rank : (p : Provider) → of_rank (rank p) ≡ p
unfolding of_rank
of_rank-rank binance = refl
of_rank-rank binance_usd_m = refl
of_rank-rank stub = refl
of_rank-rank other = refl

provider_eq_iff : (p q : Provider) → (eqb (rank p) (rank q) ≡ true) ↔ (p ≡ q)
provider_eq_iff p q = (
  λ e. sym (of_rank-rank p) ∙ (ap of_rank ((eqb_iff (rank p) (rank q)).0 e) ∙ of_rank-rank q),
  λ e. (eqb_iff (rank p) (rank q)).1 (ap rank e),
)

instance abbrev provider_Eq : Eq Provider
provider_Eq = record { beq = λ p q. eqb (rank p) (rank q); beq_iff = provider_eq_iff }

abbrev symbols_or_empty : Option (List Text) → List Text
symbols_or_empty none = []
symbols_or_empty (some symbols) = symbols

-- `entry(provider).or_default().push(symbol)`
abbrev add_symbol : BookSource → HashMap Provider (List Text) → HashMap Provider (List Text)
add_symbol s m = insert s.provider (symbols_or_empty (lookup s.provider m) ++ s.symbol ∷ []) m

unfoldable group_from :
    HashMap Provider (List Text) → List BookSource → HashMap Provider (List Text)
unfolding lookup insert
group_from m [] = m
group_from m (s ∷ sources) = group_from (add_symbol s m) sources

unfoldable by_provider : List BookSource → HashMap Provider (List Text)
unfolding group_from
by_provider = group_from []

-- The symbols of a provider's sources, in their order.
abbrev symbols_for : Provider → List BookSource → List Text
symbols_for p [] = []
symbols_for p (s ∷ sources) =
    let rest = symbols_for p sources in if s.provider == p then s.symbol ∷ rest else rest

lookup-group_from :
    (p : Provider) (m : HashMap Provider (List Text)) (sources : List BookSource)
    → symbols_or_empty (lookup p (group_from m sources))
      ≡ symbols_or_empty (lookup p m) ++ symbols_for p sources
unfolding group_from
lookup-group_from p m [] = sym (append-nil (symbols_or_empty (lookup p m)))
lookup-group_from p m (s ∷ sources) =
    let added = symbols_or_empty (lookup s.provider m) ++ s.symbol ∷ [] in
    let there = lookup-insert p s.provider added m in
    let rest = lookup-group_from p (add_symbol s m) sources in
    elim (Bool-cases (s.provider == p)) [
      | inl y ↦
          let same : s.provider ≡ p = (provider_eq_iff s.provider p).0 y in
          rest
          ∙ rw (there, y)
              (append_assoc (symbols_or_empty (lookup s.provider m)) (s.symbol ∷ [])
                  (symbols_for p sources)
                ∙ ap (λ q. symbols_or_empty (lookup q m) ++ s.symbol ∷ symbols_for p sources) same)
      | inr n ↦ rest ∙ rw (there, n) refl
    ]

-- A provider's stream gets the symbols of its sources, in their order.
lookup-by_provider :
    (p : Provider) (sources : List BookSource)
    → symbols_or_empty (lookup p (by_provider sources)) ≡ symbols_for p sources
unfolding by_provider lookup
lookup-by_provider p sources = lookup-group_from p [] sources
