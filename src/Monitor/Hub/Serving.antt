-- ===== src/Monitor/Hub/Serving.antt =====
-- What the registry serves after registrations and a refresh.
use trolly.Prelude.{
  ℕ, Text, text_Eq, to_uppercase, ◌≡◌, ◌≢◌, refl, ap, ◌∙◌, Option, none, some, List, [], ◌∷◌,
  HashMap, lookup, length-set, set, get_elem?-set_self, get_elem?-set_ne, Option-cases, ◌⊎◌, inl,
  inr,
}
use trolly.Monitor.Lob.{Lob}
use trolly.Monitor.Hub.{
  BookHandle, merged, GlobalBookHub, with_serve_registry, group_of, refresh_merged_for, merge_group,
  get,
}
use trolly.Monitor.Hub.Lanes.{IsWellFormed, handle_of}
use trolly.Monitor.Hub.Sources.{
  Registration, register_all, register_all-IsWellFormed, with_serve_registry-IsWellFormed,
  factories_for, Distinct, group_of-register_all, opened_registry, no_sources, register_all-serve,
  group_of-lane,
}

module _ (lob : Lob) (upper : ℕ → Text) (Factory : Type 0) where
  abbrev Hub : Type 0
  Hub = GlobalBookHub lob upper Factory

  module _ (enter : Factory → Option lob.LimitOrderBook) where
    List-cases :
        (fs : List Factory) → (fs ≡ []) ⊎ ((f : Factory) × (fs' : List Factory) × (fs ≡ f ∷ fs'))
    List-cases [] = inl refl
    List-cases (f ∷ fs) = inr (f, fs, refl)

    -- A refresh stores a book in the instrument's cell, or does nothing.
    refresh-cases :
        (hub : Hub) (instrument : Text)
        → (refresh_merged_for lob upper Factory enter hub instrument ≡ hub)
          ⊎ ((a : ℕ) × (book : lob.LimitOrderBook) × (lookup
                  (to_uppercase upper instrument)
                  hub.merged_by_instrument
                ≡ some a)
              × (refresh_merged_for lob upper Factory enter hub instrument
                  ≡ record hub { cells = set hub.cells a book }))
    unfolding refresh_merged_for
    refresh-cases hub instrument =
        let key = to_uppercase upper instrument in
        elim (List-cases (group_of lob upper Factory hub key)) [
          | inl e ↦ inl (rw (e, refresh_merged_for) refl)
          | inr (f, fs, e) ↦ elim (Option-cases (lookup key hub.merged_by_instrument)) [
            | inl n ↦ inl (rw (e, refresh_merged_for) (rw (n, refresh_merged_for) refl))
            | inr (a, at) ↦ inr (
              a,
              merge_group lob upper Factory enter (f ∷ fs),
              at,
              rw (e, refresh_merged_for) (rw (at, refresh_merged_for) refl),
            )
          ]
        ]

    -- A refresh changes cells alone.
    pub refresh-same :
        (hub : Hub) (instrument : Text)
        → let next = refresh_merged_for lob upper Factory enter hub instrument in
          (next.factories ≡ hub.factories)
          × (next.sources_by_instrument ≡ hub.sources_by_instrument)
          × (next.serve ≡ hub.serve)
    refresh-same hub instrument = elim (refresh-cases hub instrument) [
      | inl e ↦ rw e (refl, refl, refl)
      | inr (a, book, at, e) ↦ rw e (refl, refl, refl)
    ]

    pub group_of-refresh :
        (hub : Hub) (instrument key : Text)
        → group_of lob upper Factory (refresh_merged_for lob upper Factory enter hub instrument) key
          ≡ group_of lob upper Factory hub key
    unfolding group_of
    group_of-refresh hub instrument key = elim (refresh-cases hub instrument) [
      | inl e ↦ rw e refl
      | inr (a, book, at, e) ↦ rw e refl
    ]

    set-IsWellFormed :
        (hub : Hub) (a : ℕ) (book : lob.LimitOrderBook)
        → IsWellFormed lob upper Factory hub
        → IsWellFormed lob upper Factory (record hub { cells = set hub.cells a book })
    set-IsWellFormed hub a book v = record {
      lanes = rw (length-set hub.cells a book) v.lanes;
      has_lane = v.has_lane;
      served = v.served;
    }

    -- A refresh keeps the invariant.
    pub refresh_merged_for-IsWellFormed :
        (hub : Hub) (instrument : Text)
        → IsWellFormed lob upper Factory hub
        → IsWellFormed lob upper Factory (refresh_merged_for lob upper Factory enter hub instrument)
    refresh_merged_for-IsWellFormed hub instrument v = elim (refresh-cases hub instrument) [
      | inl e ↦ rw e v
      | inr (a, book, at, e) ↦ rw e (set-IsWellFormed hub a book v)
    ]

    get-set :
        (hub : Hub) (registry : HashMap Text (BookHandle Factory)) (pair : Text) (a : ℕ)
        (book : lob.LimitOrderBook)
        → IsWellFormed lob upper Factory hub
        → hub.serve ≡ some registry
        → lookup (to_uppercase upper pair) hub.merged_by_instrument ≡ some a
        → get lob upper Factory enter (record hub { cells = set hub.cells a book }) pair ≡ some book
    unfolding get
    get-set hub registry pair a book v e at =
        let key = to_uppercase upper pair in
        let handle : lookup key registry ≡ some (merged a) =
          v.served registry e key ∙ ap (handle_of lob upper Factory) at in
        rw e (rw handle (get_elem?-set_self hub.cells a book (v.lanes.bound key a at)))

    -- A refresh of an instrument whose group is not empty stores the merge of the group in the
    -- cell that the registry serves the instrument from.
    pub get-refresh_merged_for :
        (hub : Hub) (registry : HashMap Text (BookHandle Factory)) (instrument : Text) (f : Factory)
        (fs : List Factory)
        → IsWellFormed lob upper Factory hub
        → hub.serve ≡ some registry
        → group_of lob upper Factory hub (to_uppercase upper instrument) ≡ f ∷ fs
        → lookup (to_uppercase upper instrument) hub.merged_by_instrument ≢ none
        → get lob upper Factory enter
            (refresh_merged_for lob upper Factory enter hub instrument)
            instrument
          ≡ some (merge_group lob upper Factory enter (f ∷ fs))
    unfolding refresh_merged_for
    get-refresh_merged_for hub registry instrument f fs v e g lane =
        elim (Option-cases (lookup (to_uppercase upper instrument) hub.merged_by_instrument)) [
          | inl n ↦ absurd (lane n)
          | inr (a, at) ↦
              rw (g, refresh_merged_for)
                (rw (at, refresh_merged_for) (get-set hub registry instrument a _ v e at))
        ]

    get-set_ne :
        (hub : Hub) (instrument pair : Text) (a : ℕ) (book : lob.LimitOrderBook)
        → IsWellFormed lob upper Factory hub
        → lookup (to_uppercase upper instrument) hub.merged_by_instrument ≡ some a
        → to_uppercase upper instrument ≢ to_uppercase upper pair
        → get lob upper Factory enter (record hub { cells = set hub.cells a book }) pair
          ≡ get lob upper Factory enter hub pair
    unfolding get
    get-set_ne hub instrument pair a book v at ne =
        let key = to_uppercase upper pair in
        elim (Option-cases hub.serve) [
          | inl closed ↦ rw (closed, get) refl
          | inr (registry, e) ↦
              let handle = v.served registry e key in
              elim (Option-cases (lookup key hub.merged_by_instrument)) [
                | inl n ↦
                    let missing : lookup key registry ≡ none =
                      handle ∙ ap (handle_of lob upper Factory) n in
                    rw (e, get) (rw (missing, get) refl)
                | inr (b, there) ↦
                    let held : lookup key registry ≡ some (merged b) =
                      handle ∙ ap (handle_of lob upper Factory) there in
                    let differ : a ≢ b = λ same. ne (
                      v.lanes.apart (to_uppercase upper instrument) key b (at ∙ ap some same)
                        there) in
                    rw (e, get) (rw (held, get) (get_elem?-set_ne hub.cells a b book differ))
              ]
        ]

    -- A refresh of an instrument changes what no pair of another instrument is served.
    pub get-refresh_ne :
        (hub : Hub) (instrument pair : Text)
        → IsWellFormed lob upper Factory hub
        → to_uppercase upper instrument ≢ to_uppercase upper pair
        → get lob upper Factory enter
            (refresh_merged_for lob upper Factory enter hub instrument)
            pair
          ≡ get lob upper Factory enter hub pair
    unfolding get
    get-refresh_ne hub instrument pair v ne = elim (refresh-cases hub instrument) [
      | inl e ↦ rw e refl
      | inr (a, book, at, e) ↦ rw e (get-set_ne hub instrument pair a book v at ne)
    ]

    -- Registrations whose stream ids differ, on a hub with an empty registry, and a refresh of an
    -- instrument that one of them is for: the registry serves the merge of the books of all the
    -- registrations for that instrument, in the order they were made in.
    pub get-register_all :
        (rs : List (Registration Factory)) (instrument : Text) (f : Factory) (fs : List Factory)
        → Distinct lob upper Factory rs
        → factories_for lob upper Factory (to_uppercase upper instrument) rs ≡ f ∷ fs
        → get lob upper Factory enter
            (refresh_merged_for lob upper Factory enter
              (register_all lob upper Factory (with_serve_registry lob upper Factory []) rs)
              instrument)
            instrument
          ≡ some (merge_group lob upper Factory enter (f ∷ fs))
    get-register_all rs instrument f fs u g =
        let start = with_serve_registry lob upper Factory [] in
        let all = register_all lob upper Factory start rs in
        let key = to_uppercase upper instrument in
        let v =
          register_all-IsWellFormed lob upper Factory start rs
            (with_serve_registry-IsWellFormed lob upper Factory) in
        let (registry, e) =
          register_all-serve lob upper Factory start [] rs (opened_registry lob upper Factory []) in
        let group =
          group_of-register_all lob upper Factory start rs key u (no_sources lob upper Factory key)
          ∙ g in
        get-refresh_merged_for all registry instrument f fs v e group
          (group_of-lane lob upper Factory all key f fs v group)
