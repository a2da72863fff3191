-- ===== src/BTree.antt =====
-- The standard library's `BTreeMap<u64, _>`, as the dirty cache of src/engine.rs uses it: an
-- association list in ascending order of keys.
pub mod Laws
use temporal_nbd.Prelude.{
  ℕ, zero, suc, ◌<◌, Bool, ◌&&◌, Option, none, some, List, [], ◌∷◌, ltb, leb, ◌==◌, if◌then◌else◌,
  map,
}

abbrev pub BTreeMap {ℓ} : Type ℓ → Type ℓ
BTreeMap V = List (ℕ × V)

module _ {ℓ} {V : Type ℓ} where
  -- `get`
  abbrev pub lookup : ℕ → BTreeMap V → Option V
  lookup k [] = none
  lookup k (e ∷ d) = if k == e.0 then some e.1 else lookup k d

  -- A new key goes before the first greater one; an old key keeps its place.
  abbrev pub insert : ℕ → V → BTreeMap V → BTreeMap V
  insert k v [] = (k, v) ∷ []
  insert k v (e ∷ d) =
      if ltb k e.0 then (k, v) ∷ e ∷ d else if k == e.0 then (k, v) ∷ d else e ∷ insert k v d

  abbrev pub remove : ℕ → BTreeMap V → BTreeMap V
  remove k [] = []
  remove k (e ∷ d) = if k == e.0 then d else e ∷ remove k d

  -- `range(lo..hi)`
  abbrev pub range : ℕ → ℕ → BTreeMap V → BTreeMap V
  range lo hi [] = []
  range lo hi (e ∷ d) =
      let rest = range lo hi d in if leb lo e.0 && ltb e.0 hi then e ∷ rest else rest

  -- Every key is greater than `k`.
  abbrev pub Above : ℕ → BTreeMap V → Type 0
  Above k [] = Unit
  Above k (e ∷ d) = (k < e.0) × Above k d

  abbrev pub IsSorted : BTreeMap V → Type 0
  IsSorted [] = Unit
  IsSorted (e ∷ d) = Above e.0 d × IsSorted d

  abbrev pub keys : BTreeMap V → List ℕ
  keys = map (λ e. e.0)

  -- `for k in ks { map.remove(&k); }`
  abbrev pub remove_all : List ℕ → BTreeMap V → BTreeMap V
  remove_all [] d = d
  remove_all (k ∷ ks) d = remove_all ks (remove k d)
