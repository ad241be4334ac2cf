-- ===== src/Monitor/Source/RoundTrip.antt =====
-- The id that a source is printed as, read back.
use trolly.Prelude.{
  ℕ, Text, codes, text_eq, to_ascii_lowercase, to_uppercase, trim, trim_start, is_white_space,
  is_empty, split_once, lower_code, ◌≡◌, ◌≢◌, refl, sym, ap, ◌∙◌, false, Option, none, some, List,
  [], ◌∷◌, ◌++◌, map, ok, Free, Free-append, AllFree, split_once_found, split-join, join, arith,
}
use trolly.Monitor.Source.{
  Provider, binance, binance_usd_m, stub, other, label, from_label, BookSource, new, stream_id,
  canonical_instrument, parse, parts, parse_parts, parse_book_sources,
}
use trolly.Monitor.Source.Trimming.{trim-append}

module _ (upper : ℕ → Text) where
  -- A source as `new` makes it of a symbol: trimmed, in upper case, and not empty; and its
  -- provider is one that can be read.
  pub record IsCanonical (s : BookSource) : Type 0 where
    pub known : s.provider ≢ other
    pub trimmed : trim s.symbol ≡ s.symbol
    pub upper_case : to_uppercase upper s.symbol ≡ s.symbol
    pub not_empty : s.symbol ≢ []

  from_label-label : (p : Provider) → p ≢ other → from_label (label p) ≡ some p
  unfolding from_label label text_eq to_ascii_lowercase lower_code trim trim_start is_white_space
  from_label-label binance h = refl
  from_label-label binance_usd_m h = refl
  from_label-label stub h = refl
  from_label-label other h = absurd (h refl)

  label-Free : (p : Provider) → Free b':' (label p)
  unfolding label
  label-Free p = elim p [
    | binance ↦ ground arith
    | binance_usd_m ↦ ground arith
    | stub ↦ ground arith
    | other ↦ ground arith
  ]

  label_no_comma : (p : Provider) → Free b',' (label p)
  unfolding label
  label_no_comma p = elim p [
    | binance ↦ ground arith
    | binance_usd_m ↦ ground arith
    | stub ↦ ground arith
    | other ↦ ground arith
  ]

  trim-labelled :
      (p : Provider) (d : ℕ) (s : Text)
      → trim (d ∷ s) ≡ d ∷ s
      → trim (label p ++ (codes ":" ++ d ∷ s)) ≡ label p ++ (codes ":" ++ d ∷ s)
  unfolding label trim_start is_white_space
  trim-labelled binance d s h = trim-append b'b' (codes "inance:") d s refl h
  trim-labelled binance_usd_m d s h = trim-append b'b' (codes "inance-usd-m:") d s refl h
  trim-labelled stub d s h = trim-append b's' (codes "tub:") d s refl h
  trim-labelled other d s h = trim-append b'o' (codes "ther:") d s refl h

  parse_lem :
      (raw l : Text) (p : Provider) (d : ℕ) (y : Text)
      → trim raw ≡ raw
      → split_once (codes ":") raw ≡ some (l, d ∷ y)
      → from_label l ≡ some p
      → trim (d ∷ y) ≡ d ∷ y
      → to_uppercase upper (d ∷ y) ≡ d ∷ y
      → parse upper raw ≡ ok (record { provider = p; symbol = d ∷ y })
  unfolding parse new
  parse_lem raw l p d y t f g k u = rw (t, parse) (rw (f, parse) (rw (g, parse) (rw k (rw u refl))))

  -- What `parse` needs of a canonical source, at the symbol's characters.
  with_symbol :
      (p : Provider) (y : Text)
      → IsCanonical (record { provider = p; symbol = y })
      → (trim (label p ++ (codes ":" ++ y)) ≡ label p ++ (codes ":" ++ y))
        × (parse upper (label p ++ (codes ":" ++ y)) ≡ ok (record { provider = p; symbol = y }))
  with_symbol p [] c = absurd (c.not_empty refl)
  with_symbol p (d ∷ y) c =
      let whole = trim-labelled p d y c.trimmed in
      let cut = split_once_found b':' (label p) (d ∷ y) (label-Free p) in
      (
        whole,
        parse_lem _ (label p) p d y whole cut (from_label-label p c.known) c.trimmed c.upper_case,
      )

  trim-stream_id : (s : BookSource) → IsCanonical s → trim (stream_id upper s) ≡ stream_id upper s
  unfolding stream_id
  trim-stream_id s c = (with_symbol s.provider s.symbol c).0

  -- A canonical source is read back from the id that it is printed as.
  pub parse-stream_id : (s : BookSource) → IsCanonical s → parse upper (stream_id upper s) ≡ ok s
  unfolding stream_id
  parse-stream_id s c = (with_symbol s.provider s.symbol c).1

  -- Each source is canonical, and its symbol holds no comma.
  abbrev pub AllListed : List BookSource → Type 0
  AllListed [] = Unit
  AllListed (s ∷ ss) = (IsCanonical s × Free b',' s.symbol) × AllListed ss

  ids_Free : (ss : List BookSource) → AllListed ss → AllFree b',' (map (stream_id upper) ss)
  unfolding stream_id
  ids_Free [] a = tt
  ids_Free (s ∷ ss) a = (
    Free-append b',' (label s.provider) (codes ":" ++ s.symbol) (label_no_comma s.provider)
        (omega arith, a.0.1),
    ids_Free ss a.1,
  )

  label_not_empty : (p : Provider) (y : Text) → is_empty (label p ++ y) ≡ false
  unfolding label
  label_not_empty binance y = refl
  label_not_empty binance_usd_m y = refl
  label_not_empty stub y = refl
  label_not_empty other y = refl

  is_empty-stream_id : (s : BookSource) → is_empty (stream_id upper s) ≡ false
  unfolding stream_id
  is_empty-stream_id s = label_not_empty s.provider (codes ":" ++ s.symbol)

  parts-ids :
      (ss : List BookSource)
      → AllListed ss
      → parts upper (map (stream_id upper) ss) ≡ map (stream_id upper) ss
  unfolding parts
  parts-ids [] a = refl
  parts-ids (s ∷ ss) a =
      let t = trim-stream_id s a.0.0 in
      rw t (rw (is_empty-stream_id s) (ap (λ r. stream_id upper s ∷ r) (parts-ids ss a.1)))

  parse_parts-ids :
      (ss : List BookSource) → AllListed ss → parse_parts upper (map (stream_id upper) ss) ≡ ok ss
  unfolding parse_parts
  parse_parts-ids [] a = refl
  parse_parts-ids (s ∷ ss) a = rw (parse-stream_id s a.0.0) (rw (parse_parts-ids ss a.1) refl)

  -- A list of at least one source, each canonical and without a comma in its symbol, is read back
  -- from its ids joined by commas.
  pub parse_book_sources-join :
      (s : BookSource) (ss : List BookSource)
      → AllListed (s ∷ ss)
      → parse_book_sources upper (join (codes ",") (map (stream_id upper) (s ∷ ss))) ≡ ok (s ∷ ss)
  unfolding parse_book_sources
  parse_book_sources-join s ss a =
      rw (split-join b',' (stream_id upper s) (map (stream_id upper) ss) (ids_Free (s ∷ ss) a))
        (rw (parts-ids (s ∷ ss) a) (rw (parse_parts-ids (s ∷ ss) a) refl))

  abbrev symbol_part : Option (Text × Text) → Text
  symbol_part none = []
  symbol_part (some pair) = pair.1

  -- Sources that are printed alike are for one instrument.
  pub stream_id-canonical_instrument :
      (s t : BookSource)
      → stream_id upper s ≡ stream_id upper t
      → canonical_instrument upper s ≡ canonical_instrument upper t
  unfolding stream_id canonical_instrument
  stream_id-canonical_instrument s t e =
      let cut_s = split_once_found b':' (label s.provider) s.symbol (label-Free s.provider) in
      let cut_t = split_once_found b':' (label t.provider) t.symbol (label-Free t.provider) in
      ap symbol_part (sym cut_s ∙ ap (split_once (codes ":")) e ∙ cut_t)
