-- ===== src/Dict/Tally.antt =====
-- Counters: what a sum over the keys that pass a test comes to.
use e2h.Prelude.{
  ℕ, ◌+◌, ◌<◌, ◌≡◌, refl, Bool, true, false, String, none, some, List, [], ◌∷◌, ◌==◌, text_eq,
  if◌then◌else◌, arith, map, any, leb, eqb, Bool-cases, inl, inr, count_if,
}
use e2h.Dict.{Dict, lookup, insert_sorted, sort_items, add_count, add_counts, counter, sum_values}
use e2h.Dict.Lookup.{IsDict}

-- The sum of the counts whose keys pass the test.
abbrev pub sum_if : (String → Bool) → List (String × ℕ) → ℕ
sum_if p [] = 0
sum_if p ((k, n) ∷ d) = (if p k then n else 0) + sum_if p d

-- `any(count <= 0 for count in d.values())`
abbrev pub has_empty : Dict ℕ → Bool
has_empty d = any (λ item. leb item.1 0) d

module _ (p : String → Bool) where
  sum_if-add_count :
      (k : String) (n : ℕ) (d : Dict ℕ)
      → sum_if p (add_count k n d) ≡ sum_if p d + (if p k then n else 0)
  unfolding add_count
  sum_if-add_count k n [] = ground arith
  sum_if-add_count k n ((j, m) ∷ d) = elim (Bool-cases (j == k)) [
    | inl same ↦ rw (same, (text_eq.equal_iff j k).0 same) (ground arith)
    | inr differ ↦ rw differ (omega (arith, sum_if-add_count k n d))
  ]

  -- Counting keeps every such sum.
  pub sum_if-add_counts :
      (d : Dict ℕ) (items : List (String × ℕ))
      → sum_if p (add_counts d items) ≡ sum_if p d + sum_if p items
  unfolding add_counts
  sum_if-add_counts d [] = omega arith
  sum_if-add_counts d ((k, n) ∷ items) =
      omega (arith, sum_if-add_counts (add_count k n d) items, sum_if-add_count k n d)

  sum_if-insert_sorted :
      (k : String) (n : ℕ) (d : Dict ℕ)
      → sum_if p (insert_sorted k n d) ≡ (if p k then n else 0) + sum_if p d
  unfolding insert_sorted
  sum_if-insert_sorted k n [] = refl
  sum_if-insert_sorted k n ((j, m) ∷ d) = ground (arith, sum_if-insert_sorted k n d)

  pub sum_if-sort_items : (d : Dict ℕ) → sum_if p (sort_items d) ≡ sum_if p d
  unfolding sort_items
  sum_if-sort_items [] = refl
  sum_if-sort_items ((k, n) ∷ d) =
      omega (arith, sum_if-insert_sorted k n (sort_items d), sum_if-sort_items d)

  pub sum_if-counter : (keys : List String) → sum_if p (counter keys) ≡ count_if p keys
  unfolding counter
  sum_if-counter keys = omega (arith, sum_if-add_counts [] (map (λ k. (k, 1)) keys), units keys)
    where
      units : (ks : List String) → sum_if p (map (λ k. (k, 1)) ks) ≡ count_if p ks
      units [] = refl
      units (k ∷ ks) = omega (arith, units ks)

pub sum_values-eq-sum_if : (d : Dict ℕ) → sum_values d ≡ sum_if (λ k. true) d
sum_values-eq-sum_if [] = refl
sum_values-eq-sum_if ((k, n) ∷ d) = omega (arith, sum_values-eq-sum_if d)

lookup-add_count :
    (k j : String) (n : ℕ) (d : Dict ℕ)
    → lookup j d ≡ none
    → (k == j) ≡ false
    → lookup j (add_count k n d) ≡ none
unfolding lookup add_count
lookup-add_count k j n [] h e = rw e
lookup-add_count k j n ((i, m) ∷ d) h e = ground (arith, lookup-add_count k j n d)

add_count-IsDict : (k : String) (n : ℕ) (d : Dict ℕ) → IsDict d → IsDict (add_count k n d)
unfolding lookup add_count
add_count-IsDict k n [] h = (refl, tt)
add_count-IsDict k n ((j, m) ∷ d) h = elim (Bool-cases (j == k)) [
  | inl same ↦ rw same h
  | inr differ ↦ rw differ (
    lookup-add_count k j n d h.0 (ground (arith, text_eq.equal_iff j k, text_eq.equal_iff k j)),
    add_count-IsDict k n d h.1,
  )
]

pub add_counts-IsDict :
    (d : Dict ℕ) (items : List (String × ℕ)) → IsDict d → IsDict (add_counts d items)
unfolding add_counts
add_counts-IsDict d [] h = h
add_counts-IsDict d ((k, n) ∷ items) h =
    add_counts-IsDict (add_count k n d) items (add_count-IsDict k n d h)

has_empty-add_count :
    (k : String) (n : ℕ) (d : Dict ℕ)
    → 0 < n
    → has_empty d ≡ false
    → has_empty (add_count k n d) ≡ false
unfolding add_count
has_empty-add_count k n [] p h = ground arith
has_empty-add_count k n ((j, m) ∷ d) p h = ground (arith, has_empty-add_count k n d)

-- Adding positive counts leaves no empty one.
pub has_empty-add_counts :
    (d : Dict ℕ) (items : List (String × ℕ))
    → has_empty items ≡ false
    → has_empty d ≡ false
    → has_empty (add_counts d items) ≡ false
unfolding add_counts
has_empty-add_counts d [] p h = h
has_empty-add_counts d ((k, n) ∷ items) p h =
    has_empty-add_counts (add_count k n d) items (ground arith)
      (has_empty-add_count k n d (ground arith) h)

has_empty-insert_sorted :
    (k : String) (n : ℕ) (d : Dict ℕ)
    → leb n 0 ≡ false
    → has_empty d ≡ false
    → has_empty (insert_sorted k n d) ≡ false
unfolding insert_sorted
has_empty-insert_sorted k n [] p h = ground arith
has_empty-insert_sorted k n ((j, m) ∷ d) p h = ground (arith, has_empty-insert_sorted k n d)

pub has_empty-sort_items : (d : Dict ℕ) → has_empty d ≡ false → has_empty (sort_items d) ≡ false
unfolding sort_items
has_empty-sort_items [] h = refl
has_empty-sort_items ((k, n) ∷ d) h =
    has_empty-insert_sorted k n (sort_items d) (ground arith)
      (has_empty-sort_items d (ground arith))

absent : (k : String) (d : Dict ℕ) → lookup k d ≡ none → sum_if (λ j. j == k) d ≡ 0
unfolding lookup
absent k [] h = refl
absent k ((j, n) ∷ d) h = ground (arith, absent k d)

-- A look-up in a counter finds the sum of its key, and nothing where that is zero.
pub lookup-eq-sum :
    (k : String) (d : Dict ℕ)
    → IsDict d
    → has_empty d ≡ false
    → lookup k d ≡ (if eqb (sum_if (λ j. j == k) d) 0 then none else some (sum_if (λ j. j == k) d))
unfolding lookup
lookup-eq-sum k [] h p = refl
lookup-eq-sum k ((j, n) ∷ d) h p = elim (Bool-cases (j == k)) [
  | inl same ↦ rw same (ground (arith, absent k d (rw ((text_eq.equal_iff j k).0 same) at h.0)))
  | inr differ ↦ rw differ (ground (arith, lookup-eq-sum k d h.1))
]
