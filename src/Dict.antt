-- ===== src/Dict.antt =====
-- Python's `dict` with text keys, as the list of its items in insertion order. No operation
-- stores a key twice.
pub mod Lookup
pub mod Tally
use Prim.Native.String.{compare}
use Prim.Native.Nat.{Ordering}
use e2h.Prelude.{
  ℕ, zero, ◌+◌, Bool, true, false, ◌&&◌, String, Option, none, some, List, [], ◌∷◌, Eq, ◌==◌,
  text_eq, all, if◌then◌else◌, map,
}

abbrev pub Dict {ℓ} : Type ℓ → Type ℓ
Dict V = List (String × V)

-- The order of texts, by code points.
unfoldable pub text_ltb : String → String → Bool
text_ltb s t = elim (compare s t) [ Ordering.lt ↦ true | _ ↦ false ]

module _ {ℓ} {V : Type ℓ} where
  -- `d.get(k)`
  unfoldable pub lookup : String → Dict V → Option V
  lookup k [] = none
  lookup k ((j, v) ∷ d) = if j == k then some v else lookup k d

  -- `d[k] = v`
  unfoldable pub put : String → V → Dict V → Dict V
  put k v [] = (k, v) ∷ []
  put k v ((j, w) ∷ d) = if j == k then (j, v) ∷ d else (j, w) ∷ put k v d

  -- `d.pop(k, None)`, `del d[k]`
  unfoldable pub remove : String → Dict V → Dict V
  remove k [] = []
  remove k ((j, w) ∷ d) = let rest = remove k d in if j == k then rest else (j, w) ∷ rest

  -- `dict(sorted(d.items()))`: the keys differ, so they decide.
  unfoldable pub insert_sorted : String → V → Dict V → Dict V
  insert_sorted k v [] = (k, v) ∷ []
  insert_sorted k v ((j, w) ∷ d) =
      if text_ltb j k then (j, w) ∷ insert_sorted k v d else (k, v) ∷ (j, w) ∷ d

  unfoldable pub sort_items : Dict V → Dict V
  sort_items [] = []
  sort_items ((k, v) ∷ d) = insert_sorted k v (sort_items d)

-- `d == e`: the same items, in any order.
module _ {ℓ} {V : Type ℓ} ⦃e : Eq V⦄ where
  abbrev pub holds : Option V → V → Bool
  holds none v = false
  holds (some w) v = w == v

  unfoldable pub items_within : Dict V → Dict V → Bool
  items_within [] b = true
  items_within ((k, v) ∷ a) b = holds (lookup k b) v && items_within a b

  unfoldable pub same_items : Dict V → Dict V → Bool
  same_items a b = items_within a b && items_within b a

-- `collections.Counter`: `c[k] += n`
unfoldable pub add_count : String → ℕ → Dict ℕ → Dict ℕ
add_count k n [] = (k, n) ∷ []
add_count k n ((j, m) ∷ d) = if j == k then (j, m + n) ∷ d else (j, m) ∷ add_count k n d

-- `sum(d.values())`
abbrev pub sum_values : Dict ℕ → ℕ
sum_values [] = 0
sum_values ((k, n) ∷ d) = n + sum_values d

-- `for k, n in items: c[k] += n`, from the empty counter
unfoldable pub add_counts : Dict ℕ → List (String × ℕ) → Dict ℕ
add_counts d [] = d
add_counts d ((k, n) ∷ items) = add_counts (add_count k n d) items

-- `Counter(keys)`
unfoldable pub counter : List String → Dict ℕ
unfolding add_counts
counter keys = add_counts [] (map (λ k. (k, 1)) keys)
