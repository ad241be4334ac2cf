-- ===== src/Monitor/Hub/Sources.antt =====
-- The hub after a list of registrations.
use trolly.Prelude.{
  ℕ, Text, text_Eq, text_eq, text_eq_iff, to_uppercase, ◌≡◌, ◌≢◌, refl, sym, ◌∙◌, none, some, List,
  [], ◌∷◌, ◌++◌, if◌then◌else◌, ◌==◌, HashMap, lookup, insert, lookup-insert, append_assoc,
  append-nil, Option-cases, Bool-cases, inl, inr, arith,
}
use trolly.Monitor.Lob.{Lob}
use trolly.Monitor.Hub.{
  BookHandle, merged, GlobalBookHub, new, with_serve_registry, merged_swap_for,
  publish_serve_instrument, or_default, add_source, register_factory, group_of, factories_of,
}
use trolly.Monitor.Hub.Lanes.{IsWellFormed, ensure_lane-Lane, register_factory-IsWellFormed}

abbrev pub Registration : Type 0 → Type 0
Registration Factory = Text × Factory × Text

module _ (lob : Lob) (upper : ℕ → Text) (Factory : Type 0) where
  abbrev Hub : Type 0
  Hub = GlobalBookHub lob upper Factory

  -- A call of `register_factory` for each element in turn.
  abbrev pub register_all : Hub → List (Registration Factory) → Hub
  register_all hub [] = hub
  register_all hub ((id, f, instrument) ∷ rs) =
      register_all (register_factory lob upper Factory hub id f instrument) rs

  pub register_all-IsWellFormed :
      (hub : Hub) (rs : List (Registration Factory))
      → IsWellFormed lob upper Factory hub
      → IsWellFormed lob upper Factory (register_all hub rs)
  register_all-IsWellFormed hub [] v = v
  register_all-IsWellFormed hub ((id, f, i) ∷ rs) v =
      register_all-IsWellFormed (register_factory lob upper Factory hub id f i) rs
        (register_factory-IsWellFormed lob upper Factory hub id f i v)

  pub with_serve_registry-IsWellFormed :
      IsWellFormed lob upper Factory (with_serve_registry lob upper Factory [])
  unfolding with_serve_registry new lookup
  with_serve_registry-IsWellFormed = record {
    lanes = record { bound = λ k a e. cc; apart = λ j k a e e'. cc };
    has_lane = λ k ids e. cc;
    served = λ registry e k. ground (arith, e);
  }

  -- The sources of an instrument.
  abbrev pub sources : Hub → Text → List Text
  sources hub key = or_default lob upper Factory (lookup key hub.sources_by_instrument)

  pub register-factories :
      (hub : Hub) (id : Text) (f : Factory) (i : Text)
      → (register_factory lob upper Factory hub id f i).factories ≡ insert id f hub.factories
  unfolding register_factory publish_serve_instrument add_source
  register-factories hub id f i =
      (ensure_lane-Lane lob upper Factory
        (add_source lob upper Factory hub id f (to_uppercase upper i))
        (to_uppercase upper i)).factories

  pub register-sources :
      (hub : Hub) (id : Text) (f : Factory) (i key : Text)
      → sources (register_factory lob upper Factory hub id f i) key
        ≡ sources hub key ++ (if to_uppercase upper i == key then id ∷ [] else [])
  unfolding register_factory publish_serve_instrument add_source
  register-sources hub id f i key =
      let k = to_uppercase upper i in
      let l = ensure_lane-Lane lob upper Factory (add_source lob upper Factory hub id f k) k in
      let entry = lookup-insert key k (sources hub k ++ id ∷ []) hub.sources_by_instrument in
      elim (Bool-cases (text_eq k key)) [
        | inl same ↦ ground (arith, l.sources, entry, text_eq_iff k key)
        | inr differ ↦ ground (arith, l.sources, entry, append-nil (sources hub key))
      ]

  -- The ids, and the factories, of the registrations for an instrument.
  abbrev ids_for : Text → List (Registration Factory) → List Text
  ids_for key [] = []
  ids_for key ((id, f, i) ∷ rs) =
      (if to_uppercase upper i == key then id ∷ [] else []) ++ ids_for key rs

  abbrev pub factories_for : Text → List (Registration Factory) → List Factory
  factories_for key [] = []
  factories_for key ((id, f, i) ∷ rs) =
      (if to_uppercase upper i == key then f ∷ [] else []) ++ factories_for key rs

  register_all-sources :
      (hub : Hub) (rs : List (Registration Factory)) (key : Text)
      → sources (register_all hub rs) key ≡ sources hub key ++ ids_for key rs
  register_all-sources hub [] key = sym (append-nil (sources hub key))
  register_all-sources hub ((id, f, i) ∷ rs) key =
      register_all-sources (register_factory lob upper Factory hub id f i) rs key
      ∙ rw (register-sources hub id f i key) (
          append_assoc (sources hub key) (if to_uppercase upper i == key then id ∷ [] else [])
            (ids_for key rs))

  abbrev Fresh : Text → List (Registration Factory) → Type 0
  Fresh id [] = Unit
  Fresh id ((j, _, _) ∷ rs) = (j ≢ id) × Fresh id rs

  -- No id is registered twice.
  abbrev pub Distinct : List (Registration Factory) → Type 0
  Distinct [] = Unit
  Distinct ((id, _, _) ∷ rs) = Fresh id rs × Distinct rs

  register_all-Fresh :
      (hub : Hub) (rs : List (Registration Factory)) (id : Text)
      → Fresh id rs
      → lookup id (register_all hub rs).factories ≡ lookup id hub.factories
  register_all-Fresh hub [] id u = refl
  register_all-Fresh hub ((j, f, i) ∷ rs) id u =
      register_all-Fresh (register_factory lob upper Factory hub j f i) rs id u.1
      ∙ rw (register-factories hub j f i)
          (ground (arith, lookup-insert id j f hub.factories, text_eq_iff j id, u.0))

  abbrev AllAt : HashMap Text Factory → List (Registration Factory) → Type 0
  AllAt fs [] = Unit
  AllAt fs ((id, f, i) ∷ rs) = (lookup id fs ≡ some f) × AllAt fs rs

  register_all-at :
      (hub : Hub) (rs : List (Registration Factory))
      → Distinct rs
      → AllAt (register_all hub rs).factories rs
  register_all-at hub [] u = tt
  register_all-at hub ((id, f, i) ∷ rs) u =
      let next = register_factory lob upper Factory hub id f i in
      (
        register_all-Fresh next rs id u.0
            ∙ rw (register-factories hub id f i)
                (ground (arith, lookup-insert id id f hub.factories, text_eq_iff id id)),
        register_all-at next rs u.1,
      )

  factories_of-ids_for :
      (hub : Hub) (rs : List (Registration Factory)) (key : Text)
      → AllAt hub.factories rs
      → factories_of lob upper Factory hub (ids_for key rs) ≡ factories_for key rs
  factories_of-ids_for hub [] key a = refl
  factories_of-ids_for hub ((id, f, i) ∷ rs) key a =
      ground (arith, a.0, factories_of-ids_for hub rs key a.1)

  pub group_of-register_all :
      (hub : Hub) (rs : List (Registration Factory)) (key : Text)
      → Distinct rs
      → sources hub key ≡ []
      → group_of lob upper Factory (register_all hub rs) key ≡ factories_for key rs
  unfolding group_of
  group_of-register_all hub rs key u empty =
      let all = register_all hub rs in
      rw (register_all-sources hub rs key)
        (rw empty (factories_of-ids_for all rs key (register_all-at hub rs u)))

  pub opened_registry :
      (r : HashMap Text (BookHandle Factory))
      → (with_serve_registry lob upper Factory r).serve ≡ some r
  unfolding with_serve_registry
  opened_registry r = refl

  pub no_sources : (key : Text) → sources (with_serve_registry lob upper Factory []) key ≡ []
  unfolding with_serve_registry new lookup
  no_sources key = refl

  pub register-serve :
      (hub : Hub) (r : HashMap Text (BookHandle Factory)) (id : Text) (f : Factory) (i : Text)
      → hub.serve ≡ some r
      → (r' : HashMap Text (BookHandle Factory)) × ((register_factory lob upper Factory hub id f
            i).serve
          ≡ some r')
  unfolding register_factory publish_serve_instrument add_source merged_swap_for
  register-serve hub r id f i e =
      let k = to_uppercase upper i in
      let l = ensure_lane-Lane lob upper Factory (add_source lob upper Factory hub id f k) k in
      (insert k (merged l.lane) r, ground (arith, l.serve, l.at_key, e))

  pub register_all-serve :
      (hub : Hub) (r : HashMap Text (BookHandle Factory)) (rs : List (Registration Factory))
      → hub.serve ≡ some r
      → (r' : HashMap Text (BookHandle Factory)) × ((register_all hub rs).serve ≡ some r')
  register_all-serve hub r [] e = (r, e)
  register_all-serve hub r ((id, f, i) ∷ rs) e =
      let (r', e') = register-serve hub r id f i e in
      register_all-serve (register_factory lob upper Factory hub id f i) r' rs e'

  pub group_of-lane :
      (hub : Hub) (key : Text) (f : Factory) (fs : List Factory)
      → IsWellFormed lob upper Factory hub
      → group_of lob upper Factory hub key ≡ f ∷ fs
      → lookup key hub.merged_by_instrument ≢ none
  unfolding group_of
  group_of-lane hub key f fs v g = elim (Option-cases (lookup key hub.sources_by_instrument)) [
    | inl n ↦ absurd (ground (arith, n, g))
    | inr (ids, e) ↦ v.has_lane key ids e
  ]
