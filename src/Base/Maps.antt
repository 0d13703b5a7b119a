-- ===== src/Base/Maps.antt =====
-- The JavaScript `Map` with string keys: an association list in insertion order.
use Prim.Native.String.{String}
use mathlib.Core.Path.{◌≡◌, refl, sym}
use mathlib.Core.Logic.{◌≢◌, inl, inr}
use mathlib.Core.Option.{Option, none, some}
use mathlib.Core.List.{List, [], ◌∷◌}
use native.Mathlib.Omega.{arith}
use text.Mathlib.TextEquality.{eq_iff}
use text.Mathlib.TextPositions.{eq_refl}
use senecial.Base.Tests.{Bool-cases, str_eq, if◌then◌else◌}

abbrev pub Dict {ℓ} : Type ℓ → Type ℓ
Dict V = List (String × V)

module _ {ℓ} {V : Type ℓ} where
  -- `map.get(key)`
  unfoldable pub get : String → Dict V → Option V
  get k [] = none
  get k ((j, v) ∷ m) = if str_eq j k then some v else get k m

  -- `map.set(key, value)`: an old key keeps its place, a new one goes last
  unfoldable pub put : String → V → Dict V → Dict V
  put k v [] = (k, v) ∷ []
  put k v ((j, w) ∷ m) = if str_eq j k then (j, v) ∷ m else (j, w) ∷ put k v m

  -- `map.delete(key)`; every entry of the key goes, and a map has one at most
  unfoldable pub delete : String → Dict V → Dict V
  delete k [] = []
  delete k ((j, w) ∷ m) = let rest = delete k m in if str_eq j k then rest else (j, w) ∷ rest

  pub get-put :
      (k j : String) (v : V) (m : Dict V)
      → get j (put k v m) ≡ (if str_eq k j then some v else get j m)
  unfolding get put
  get-put k j v [] = refl
  get-put k j v ((i, w) ∷ m) = ground (arith, eq_iff k j, eq_iff i k, eq_iff i j, get-put k j v m)

  pub get-delete :
      (k j : String) (m : Dict V) → get j (delete k m) ≡ (if str_eq k j then none else get j m)
  unfolding get delete
  get-delete k j [] = ground arith
  get-delete k j ((i, w) ∷ m) = ground (arith, eq_iff k j, eq_iff i k, eq_iff i j, get-delete k j m)

  pub get-put_self : (k : String) (v : V) (m : Dict V) → get k (put k v m) ≡ some v
  get-put_self k v m = simp (get-put, eq_refl)

  pub get-delete_self : (k : String) (m : Dict V) → get k (delete k m) ≡ none
  get-delete_self k m = simp (get-delete, eq_refl)

  pub get-put_other : (k j : String) (v : V) (m : Dict V) → k ≢ j → get j (put k v m) ≡ get j m
  get-put_other k j v m h = ground (arith, eq_iff k j, get-put k j v m)

  pub get-delete_other : (k j : String) (m : Dict V) → k ≢ j → get j (delete k m) ≡ get j m
  get-delete_other k j m h = ground (arith, eq_iff k j, get-delete k j m)

  -- A map has one entry for a key.
  abbrev pub NoKey : String → Dict V → Type 0
  NoKey key [] = Unit
  NoKey key ((k, v) ∷ m) = (k ≢ key) × NoKey key m

  abbrev pub IsMap : Dict V → Type 0
  IsMap [] = Unit
  IsMap ((k, v) ∷ m) = NoKey k m × IsMap m

  pub get_of_NoKey : (key : String) (m : Dict V) → NoKey key m → get key m ≡ none
  unfolding get
  get_of_NoKey key [] h = refl
  get_of_NoKey key ((k, b) ∷ m) (h, hs) = ground (arith, eq_iff k key, get_of_NoKey key m hs)

  NoKey-put : (key k : String) (v : V) (m : Dict V) → k ≢ key → NoKey key m → NoKey key (put k v m)
  unfolding put
  NoKey-put key k v [] ne h = (ne, tt)
  NoKey-put key k v ((j, w) ∷ m) ne (h, hs) = elim (Bool-cases (str_eq j k)) [
    | inl same ↦ rw same (h, hs)
    | inr differs ↦ rw differs (h, NoKey-put key k v m ne hs)
  ]

  pub IsMap-put : (k : String) (v : V) (m : Dict V) → IsMap m → IsMap (put k v m)
  unfolding put
  IsMap-put k v [] h = (tt, tt)
  IsMap-put k v ((j, w) ∷ m) (h, hs) = elim (Bool-cases (str_eq j k)) [
    | inl same ↦ rw same (h, hs)
    | inr differs ↦
        rw differs (
          NoKey-put j k v m (λ e. absurd (ground (arith, eq_iff j k, sym e))) h,
          IsMap-put k v m hs,
        )
  ]
