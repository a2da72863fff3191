-- ===== src/BTree/Laws.antt =====
-- The laws of the ordered map: what an insertion, a removal and a range leave under each key.
use temporal_nbd.Prelude.{
  ℕ, zero, suc, ◌≤◌, ◌<◌, ◌≡◌, refl, none, some, [], ◌∷◌, arith, ◌==◌, if◌then◌else◌, length, take,
  drop, All,
}
use temporal_nbd.BTree.{BTreeMap, lookup, insert, range, Above, IsSorted, keys, remove_all}

module _ {ℓ} {V : Type ℓ} where
  pub lookup-insert :
      (j k : ℕ) (v : V) (d : BTreeMap V)
      → lookup j (insert k v d) ≡ (if j == k then some v else lookup j d)
  lookup-insert j k v [] = refl
  lookup-insert j k v (e ∷ d) = ground (arith, lookup-insert j k v d)

  pub Above-trans : (j k : ℕ) (d : BTreeMap V) → j < k → Above k d → Above j d
  Above-trans j k [] h a = tt
  Above-trans j k (e ∷ d) h a = (omega arith, Above-trans j k d h a.1)

  pub Above-insert : (j k : ℕ) (v : V) (d : BTreeMap V) → j < k → Above j d → Above j (insert k v d)
  Above-insert j k v [] h a = (h, tt)
  Above-insert j k v (e ∷ d) h a = ground (arith, Above-insert j k v d h a.1)

  pub insert-IsSorted : (k : ℕ) (v : V) (d : BTreeMap V) → IsSorted d → IsSorted (insert k v d)
  insert-IsSorted k v [] s = (tt, tt)
  insert-IsSorted k v (e ∷ d) s =
      ground (arith, insert-IsSorted k v d s.1, Above-insert e.0 k v d, Above-trans k e.0 d)

  pub All-insert {κ} :
      (P : ℕ × V → Type κ) (k : ℕ) (v : V) (d : BTreeMap V)
      → P (k, v)
      → All P d
      → All P (insert k v d)
  All-insert P k v [] p a = (p, tt)
  All-insert P k v (e ∷ d) p a = ground (arith, All-insert P k v d p a.1)

  pub length-le-insert : (k : ℕ) (v : V) (d : BTreeMap V) → length d ≤ length (insert k v d)
  length-le-insert k v [] = omega arith
  length-le-insert k v (e ∷ d) = ground (arith, length-le-insert k v d)

  pub length-insert-le : (k : ℕ) (v : V) (d : BTreeMap V) → length (insert k v d) ≤ suc (length d)
  length-insert-le k v [] = omega arith
  length-insert-le k v (e ∷ d) = ground (arith, length-insert-le k v d)

  pub lookup_of_Above : (k : ℕ) (d : BTreeMap V) → Above k d → lookup k d ≡ none
  lookup_of_Above k [] a = refl
  lookup_of_Above k (e ∷ d) a = ground (arith, lookup_of_Above k d a.1)

  pub Above-drop : (k n : ℕ) (d : BTreeMap V) → Above k d → Above k (drop n d)
  Above-drop k zero d a = a
  Above-drop k (suc n) [] a = tt
  Above-drop k (suc n) (e ∷ d) a = Above-drop k n d a.1

  pub drop-IsSorted : (n : ℕ) (d : BTreeMap V) → IsSorted d → IsSorted (drop n d)
  drop-IsSorted zero d s = s
  drop-IsSorted (suc n) [] s = tt
  drop-IsSorted (suc n) (e ∷ d) s = drop-IsSorted n d s.1

  -- Removing the keys that the first `n` entries have leaves the others.
  pub remove_all-take : (n : ℕ) (d : BTreeMap V) → remove_all (keys (take n d)) d ≡ drop n d
  remove_all-take zero d = refl
  remove_all-take (suc n) [] = refl
  remove_all-take (suc n) (e ∷ d) = ground (arith, remove_all-take n d)

  -- Inside the range a key has its value, and nothing else is found.
  pub lookup-range :
      (k lo hi : ℕ) (d : BTreeMap V) → lo ≤ k → k < hi → lookup k (range lo hi d) ≡ lookup k d
  lookup-range k lo hi [] p q = refl
  lookup-range k lo hi (e ∷ d) p q = ground (arith, lookup-range k lo hi d p q)

  pub All-range :
      (P : ℕ × V → Type 0) (lo hi : ℕ) (d : BTreeMap V)
      → All P d
      → All (λ e. (lo ≤ e.0) × (e.0 < hi) × P e) (range lo hi d)
  All-range P lo hi [] a = tt
  All-range P lo hi (e ∷ d) a = ground (arith, All-range P lo hi d a.1)

  pub range-Above : (j lo hi : ℕ) (d : BTreeMap V) → Above j d → Above j (range lo hi d)
  range-Above j lo hi [] a = tt
  range-Above j lo hi (e ∷ d) a = ground (arith, range-Above j lo hi d a.1)

  pub range-IsSorted : (lo hi : ℕ) (d : BTreeMap V) → IsSorted d → IsSorted (range lo hi d)
  range-IsSorted lo hi [] s = tt
  range-IsSorted lo hi (e ∷ d) s =
      ground (arith, range-IsSorted lo hi d s.1, range-Above e.0 lo hi d s.0)
