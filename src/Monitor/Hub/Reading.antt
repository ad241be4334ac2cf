-- ===== src/Monitor/Hub/Reading.antt =====
-- What the hub's registry serves depends on the lanes and the cells, and the merge on the books
-- that its group reads.
use trolly.Prelude.{
  ℕ, ◌<◌, Text, text_Eq, to_uppercase, ◌≡◌, ◌≢◌, refl, sym, ap, ◌∙◌, Option, none, some, List, [],
  ◌∷◌, ◌++◌, HashMap, lookup, length, get_elem?, get_elem?-append_lt, Option-cases, inl, inr,
}
use trolly.Monitor.Lob.{Lob}
use trolly.Monitor.Hub.{
  BookHandle, merged, GlobalBookHub, publish_serve_instrument, ensure_lane, add_source,
  register_factory, merge_group, merge_from, merge_books, max_update_id, absorb, later_id,
  unwrap_or_default, get,
}
use trolly.Monitor.Hub.Lanes.{
  IsWellFormed, handle_of, ensure_lane-Lane, register_factory-IsWellFormed,
}
use trolly.Monitor.Hub.Sources.{register-serve}

-- Each element of a list has the property.
abbrev pub All : {A : Type 0} → (A → Type 0) → List A → Type 0
All P [] = Unit
All P (x ∷ xs) = P x × All P xs

pub All-append :
    {A : Type 0} (P : A → Type 0) (xs ys : List A) → All P xs → All P ys → All P (xs ++ ys)
All-append P [] ys h k = k
All-append P (x ∷ xs) ys h k = (h.0, All-append P xs ys h.1 k)

pub All-map :
    {A : Type 0} (P Q : A → Type 0) (xs : List A) → ((a : A) → P a → Q a) → All P xs → All Q xs
All-map P Q [] h k = tt
All-map P Q (x ∷ xs) h k = (h x k.0, All-map P Q xs h k.1)

module _ (lob : Lob) (upper : ℕ → Text) (Factory : Type 0) where
  abbrev Hub : Type 0
  Hub = GlobalBookHub lob upper Factory

  abbrev held : List lob.LimitOrderBook → Option ℕ → Option lob.LimitOrderBook
  held cells none = none
  held cells (some a) = get_elem? cells a

  module _ (enter : Factory → Option lob.LimitOrderBook) where
    get-held :
        (hub : Hub) (registry : HashMap Text (BookHandle Factory)) (pair : Text)
        → IsWellFormed lob upper Factory hub
        → hub.serve ≡ some registry
        → get lob upper Factory enter hub pair
          ≡ held hub.cells (lookup (to_uppercase upper pair) hub.merged_by_instrument)
    unfolding get
    get-held hub registry pair v e =
        let key = to_uppercase upper pair in
        let handle = v.served registry e key in
        elim (Option-cases (lookup key hub.merged_by_instrument)) [
          | inl n ↦
              let missing : lookup key registry ≡ none =
                handle ∙ ap (handle_of lob upper Factory) n in
              rw (e, get) (rw (missing, get) (rw n refl))
          | inr (a, at) ↦
              let there : lookup key registry ≡ some (merged a) =
                handle ∙ ap (handle_of lob upper Factory) at in
              rw (e, get) (rw (there, get) (rw at refl))
        ]

    pub get-upper :
        (hub : Hub) (p q : Text)
        → to_uppercase upper p ≡ to_uppercase upper q
        → get lob upper Factory enter hub p ≡ get lob upper Factory enter hub q
    unfolding get
    get-upper hub p q e = elim (Option-cases hub.serve) [
      | inl n ↦ rw (n, get) refl
      | inr (r, s) ↦ rw (s, get) (rw e refl)
    ]

  -- A registry of lanes is served from the cells, whatever the books' handles read.
  pub get-enter :
      (enter enter' : Factory → Option lob.LimitOrderBook) (hub : Hub)
      (registry : HashMap Text (BookHandle Factory)) (pair : Text)
      → IsWellFormed lob upper Factory hub
      → hub.serve ≡ some registry
      → get lob upper Factory enter hub pair ≡ get lob upper Factory enter' hub pair
  get-enter enter enter' hub registry pair v e =
      get-held enter hub registry pair v e ∙ sym (get-held enter' hub registry pair v e)

  ensure_lane-cells :
      (hub : Hub) (key : Text) (i : ℕ)
      → i < length hub.cells
      → get_elem? (ensure_lane lob upper Factory hub key).cells i ≡ get_elem? hub.cells i
  unfolding ensure_lane
  ensure_lane-cells hub key i lt = elim (Option-cases (lookup key hub.merged_by_instrument)) [
    | inl n ↦ rw (n, ensure_lane) (get_elem?-append_lt hub.cells (lob.default ∷ []) i lt)
    | inr (a, e) ↦ rw (e, ensure_lane) refl
  ]

  register-held :
      (hub : Hub) (id : Text) (f : Factory) (instrument key : Text)
      → IsWellFormed lob upper Factory hub
      → to_uppercase upper instrument ≢ key
      → held
          (register_factory lob upper Factory hub id f instrument).cells
          (lookup key (register_factory lob upper Factory hub id f instrument).merged_by_instrument)
        ≡ held hub.cells (lookup key hub.merged_by_instrument)
  unfolding register_factory publish_serve_instrument add_source
  register-held hub id f instrument key v ne =
      let k = to_uppercase upper instrument in
      let added = add_source lob upper Factory hub id f k in
      let same = (ensure_lane-Lane lob upper Factory added k).elsewhere key ne in
      elim (Option-cases (lookup key hub.merged_by_instrument)) [
        | inl n ↦ rw same (rw n refl)
        | inr (a, at) ↦ rw same (rw at (ensure_lane-cells added k a (v.lanes.bound key a at)))
      ]

  -- A registration changes what no pair of another instrument is served.
  pub get-register_ne :
      (enter : Factory → Option lob.LimitOrderBook) (hub : Hub)
      (registry : HashMap Text (BookHandle Factory)) (id : Text) (f : Factory)
      (instrument pair : Text)
      → IsWellFormed lob upper Factory hub
      → hub.serve ≡ some registry
      → to_uppercase upper instrument ≢ to_uppercase upper pair
      → get lob upper Factory enter (register_factory lob upper Factory hub id f instrument) pair
        ≡ get lob upper Factory enter hub pair
  get-register_ne enter hub registry id f instrument pair v e ne =
      let next = register_factory lob upper Factory hub id f instrument in
      let w = register_factory-IsWellFormed lob upper Factory hub id f instrument v in
      let (registry', e') = register-serve lob upper Factory hub registry id f instrument e in
      get-held enter next registry' pair w e'
      ∙ register-held hub id f instrument (to_uppercase upper pair) v ne
      ∙ sym (get-held enter hub registry pair v e)

  module _ (enter enter' : Factory → Option lob.LimitOrderBook) where
    abbrev Agree : List Factory → Type 0
    Agree = All (λ f. enter f ≡ enter' f)

    merge_from-Agree :
        (book : lob.LimitOrderBook) (fs : List Factory)
        → Agree fs
        → merge_from lob upper Factory enter book fs ≡ merge_from lob upper Factory enter' book fs
    merge_from-Agree book [] h = refl
    merge_from-Agree book (f ∷ fs) h =
        let next = absorb lob upper Factory enter book (enter f) in
        let same : absorb lob upper Factory enter book (enter f)
            ≡ absorb lob upper Factory enter' book (enter' f) =
          ap (absorb lob upper Factory enter book) h.0 in
        merge_from-Agree next fs h.1 ∙ ap (λ b. merge_from lob upper Factory enter' b fs) same

    max_update_id-Agree :
        (fs : List Factory)
        → Agree fs
        → max_update_id lob upper Factory enter fs ≡ max_update_id lob upper Factory enter' fs
    max_update_id-Agree [] h = refl
    max_update_id-Agree (f ∷ fs) h = rw (max_update_id-Agree fs h.1) (
        ap (λ o. later_id lob upper Factory enter o (max_update_id lob upper Factory enter' fs))
          h.0)

    merge_books-Agree :
        (fs : List Factory)
        → Agree fs
        → merge_books lob upper Factory enter fs ≡ merge_books lob upper Factory enter' fs
    merge_books-Agree [] h = refl
    merge_books-Agree (f ∷ []) h = ap (unwrap_or_default lob upper Factory enter) h.0
    merge_books-Agree (f ∷ g ∷ fs) h = merge_from-Agree lob.empty (f ∷ g ∷ fs) h

    -- The merge depends on what the handles of the group read, and on nothing else.
    pub merge_group-Agree :
        (fs : List Factory)
        → Agree fs
        → merge_group lob upper Factory enter fs ≡ merge_group lob upper Factory enter' fs
    unfolding merge_group
    merge_group-Agree fs h =
        ap (λ n. lob.with_update_id n (merge_books lob upper Factory enter fs))
          (max_update_id-Agree fs h)
        ∙ ap (lob.with_update_id (max_update_id lob upper Factory enter' fs))
            (merge_books-Agree fs h)
