-- ===== src/TextMap.antt =====
-- `BTreeMap<String, V>` as the list of its entries in the order of their keys, each key once. The
-- same type stands for a `HashMap` with text keys, whose order of iteration no theorem uses.
pub mod Order
pub mod Laws
pub mod Search
use oxidrive.Base.{
  ℕ, suc, Bool, true, false, not, ◌&&◌, Option, none, some, List, [], ◌∷◌, Ordering, if◌then◌else◌,
}
use oxidrive.Text.{Text, text_cmp, text_eq}

abbrev pub TextMap {ℓ} : Type ℓ → Type ℓ
TextMap V = List (Text × V)

module _ {ℓ} {V : Type ℓ} where
  -- `map.get(key)`
  unfoldable pub lookup : Text → TextMap V → Option V
  lookup k [] = none
  lookup k ((j, v) ∷ m) = if text_eq k j then some v else lookup k m

  -- `map.contains_key(key)`
  abbrev pub contains_key : Text → TextMap V → Bool
  contains_key k m = elim (lookup k m) [ none ↦ false | some _ ↦ true ]

  -- `map.entry(key).and_modify(f).or_insert(v)`
  unfoldable pub upsert : (V → V) → Text → V → TextMap V → TextMap V
  upsert f k v [] = (k, v) ∷ []
  upsert f k v ((j, w) ∷ m) = elim (text_cmp k j) [
    | Ordering.lt ↦ (k, v) ∷ (j, w) ∷ m
    | Ordering.eq ↦ (j, f w) ∷ m
    | Ordering.gt ↦ (j, w) ∷ upsert f k v m
  ]

  -- `map.insert(key, v)`
  abbrev pub insert : Text → V → TextMap V → TextMap V
  insert k v m = upsert (λ _. v) k v m

  -- `map.remove(key)`
  unfoldable pub remove : Text → TextMap V → TextMap V
  remove k [] = []
  remove k ((j, w) ∷ m) = let rest = remove k m in if text_eq k j then rest else (j, w) ∷ rest

  -- `map.retain(f)`
  unfoldable pub retain : (Text → V → Bool) → TextMap V → TextMap V
  retain f [] = []
  retain f ((j, w) ∷ m) = let rest = retain f m in if f j w then (j, w) ∷ rest else rest

  -- `map.keys()`
  abbrev pub keys : TextMap V → List Text
  keys [] = []
  keys ((k, v) ∷ m) = k ∷ keys m
