-- ===== src/Prelude/Sorted.antt =====
-- `BTreeMap<String, String>`, as the list of its entries in key order: the order of the bytes of
-- UTF-8, which is the order of the code points.
use mathlib.Core.Path.{◌≡◌, refl}
use mathlib.Core.Bool.{Bool, true, false}
use mathlib.Core.List.{[], ◌∷◌}
use mathlib.Core.Option.{none, some}
use native.Mathlib.Omega.{arith}
use trolly.Prelude.Tests.{if◌then◌else◌, ltb, eqb, ◌==◌}
use trolly.Prelude.Strings.{Text, text_eq, text_eq_iff, text_Eq}
use trolly.Prelude.Maps.{HashMap, lookup, remove}

unfoldable text_lt : Text → Text → Bool
text_lt [] [] = false
text_lt [] (b ∷ t) = true
text_lt (a ∷ s) [] = false
text_lt (a ∷ s) (b ∷ t) = if eqb a b then text_lt s t else ltb a b

abbrev pub BTreeMap : Type 0
BTreeMap = HashMap Text Text

-- `insert`: replaces the value of a key that is there.
unfoldable pub put : Text → Text → BTreeMap → BTreeMap
unfolding text_lt text_eq
put k v [] = (k, v) ∷ []
put k v ((j, w) ∷ m) =
    if text_eq j k
    then (k, v) ∷ m
    else if text_lt k j
    then (k, v) ∷ (j, w) ∷ m
    else (j, w) ∷ put k v m

pub lookup-put :
    (j k v : Text) (m : BTreeMap) → lookup j (put k v m) ≡ (if k == j then some v else lookup j m)
unfolding lookup put
lookup-put j k v [] = refl
lookup-put j k v ((i, w) ∷ m) =
    ground (arith, text_eq_iff k j, text_eq_iff i k, text_eq_iff i j, lookup-put j k v m)

-- A key that was not there can be taken out again.
pub remove-put : (k v : Text) (m : BTreeMap) → lookup k m ≡ none → remove k (put k v m) ≡ m
unfolding lookup put remove
remove-put k v [] n = ground (arith, text_eq_iff k k)
remove-put k v ((i, w) ∷ m) n =
    ground (arith, text_eq_iff k k, text_eq_iff i k, remove_missing k m, remove-put k v m)
  where
    remove_missing : (k : Text) (m : BTreeMap) → lookup k m ≡ none → remove k m ≡ m
    remove_missing k [] n = refl
    remove_missing k ((i, w) ∷ m) n = ground (arith, text_eq_iff i k, remove_missing k m)
