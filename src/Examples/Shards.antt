-- ===== src/Examples/Shards.antt =====
-- Two sources of one instrument, and an update of one of them.
use trolly.Prelude.{
  ℕ, Text, codes, text_Eq, text_eq, to_uppercase, ◌≡◌, refl, sym, ap, insert, trim, ◌∙◌, Option,
  none, some, [], ◌∷◌, ok, HashMap, lookup, get_elem?, ◌==◌, Bool-cases, inl, inr, arith,
}
use trolly.Monitor.Source
use trolly.Monitor.Source.{binance, stub}
use trolly.Monitor.Hub
use trolly.Monitor.Hub.{group_of, merge_group, get, register_factory, refresh_merged_for}
use trolly.Monitor.Shard.{GlobalBookShard, enter, shard_of, ingest_message, build}
use trolly.Monitor.Shard.Steps.{
  World, built, received, Reaches, start, next, initial, get-Reaches, after,
}
use trolly.Examples.Data.{texts}
use trolly.Examples.Monitor.{books, handles, documents, capitals, at}

abbrev btc : GlobalBookShard
btc = shard_of books documents handles texts capitals 0 (Source.new capitals binance (codes "BTC"))

abbrev writers : HashMap Text GlobalBookShard
writers = (codes "BTC", btc) ∷ []

abbrev one : World books documents handles texts capitals
one =
    after books documents handles texts capitals (initial books documents handles texts capitals) (
      build books documents handles texts capitals
        (initial books documents handles texts capitals).books binance (codes "BTC") (ok (at 3)))

abbrev two : World books documents handles texts capitals
two =
    after books documents handles texts capitals one
      (build books documents handles texts capitals one.books stub (codes "BTC") (ok (at 5)))

abbrev updated : World books documents handles texts capitals
updated = record two {
  books = ingest_message books documents handles texts capitals two.books writers (codes "BTC");
}

abbrev book_of : Option GlobalBookShard → ℕ
book_of none = 0
book_of (some shard) = shard.book

btc_built :
    (id : Text) (shard : GlobalBookShard)
    → lookup id writers ≡ some shard
    → get_elem? two.shards shard.book ≡ some shard
unfolding lookup build shard_of
btc_built id shard e = elim (Bool-cases (codes "BTC" == id)) [
  | inl y ↦
      let same : some btc ≡ some shard = rw y at e in
      ap (λ o. get_elem? two.shards (book_of o)) (sym same) ∙ same
  | inr differ ↦ absurd (ground (arith, e, differ))
]

updated_Reaches :
    Reaches books documents handles texts capitals
      (initial books documents handles texts capitals)
      updated
updated_Reaches =
    next
      (next (next start (built binance (codes "BTC") (ok (at 3))))
        (built stub (codes "BTC") (ok (at 5))))
      (received writers (codes "BTC") btc_built)

two_books :
    group_of books capitals ℕ updated.books.hub (to_uppercase capitals (codes "BTC")) ≡ 0 ∷ 1 ∷ []
unfolding group_of ingest_message build lookup text_eq register_factory refresh_merged_for
    to_uppercase Hub.with_serve_registry insert trim
two_books = refl

get-Reaches_example :
    get books capitals ℕ
      (enter books documents handles texts capitals updated.books.handles)
      updated.books.hub
      (codes "BTC")
    ≡ some (
        merge_group books capitals ℕ
          (enter books documents handles texts capitals updated.books.handles)
          (0 ∷ 1 ∷ []))
get-Reaches_example =
    get-Reaches books documents handles texts capitals updated (codes "BTC") 0 (1 ∷ [])
      updated_Reaches two_books
