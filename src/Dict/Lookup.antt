-- ===== src/Dict/Lookup.antt =====
-- What a look-up finds after each operation on a dictionary.
use text.Mathlib.TextPositions.{compare_refl}
use e2h.Prelude.{
  ◌≡◌, refl, true, false, String, none, some, [], ◌∷◌, Eq, ◌==◌, text_eq, ==→≡, ==-refl,
  if◌then◌else◌, arith, sym, ◌∙◌, Bool-cases, inl, inr,
}
use e2h.Dict.{
  Dict, text_ltb, lookup, put, remove, insert_sorted, sort_items, items_within, same_items,
}

text_ltb_irrefl : (s : String) → text_ltb s s ≡ false
unfolding text_ltb
text_ltb_irrefl s = rw (compare_refl s, text_ltb)

-- Texts in order differ.
pub ltb→ne : (s t : String) → text_ltb s t ≡ true → (s == t) ≡ false
ltb→ne s t h = elim (Bool-cases (s == t)) [
  | inl same ↦ cc (rw (==→≡ s t same) at h, text_ltb_irrefl t)
  | inr differ ↦ differ
]

module _ {ℓ} {V : Type ℓ} where
  pub lookup-put :
      (k j : String) (v : V) (d : Dict V)
      → lookup j (put k v d) ≡ (if k == j then some v else lookup j d)
  unfolding lookup put
  lookup-put k j v [] = refl
  lookup-put k j v ((i, w) ∷ d) = ground (
    arith,
    lookup-put k j v d,
    text_eq.equal_iff i k,
    text_eq.equal_iff i j,
    text_eq.equal_iff k j,
  )

  pub lookup-remove :
      (k j : String) (d : Dict V) → lookup j (remove k d) ≡ (if k == j then none else lookup j d)
  unfolding lookup remove
  lookup-remove k j [] = ground arith
  lookup-remove k j ((i, w) ∷ d) = ground (
    arith,
    lookup-remove k j d,
    text_eq.equal_iff i k,
    text_eq.equal_iff i j,
    text_eq.equal_iff k j,
  )

  lookup-insert_sorted :
      (k j : String) (v : V) (d : Dict V)
      → lookup j (insert_sorted k v d) ≡ (if k == j then some v else lookup j d)
  unfolding lookup insert_sorted
  lookup-insert_sorted k j v [] = refl
  lookup-insert_sorted k j v ((i, w) ∷ d) = ground (
    arith,
    lookup-insert_sorted k j v d,
    ltb→ne i k,
    text_eq.equal_iff i k,
    text_eq.equal_iff i j,
    text_eq.equal_iff k j,
  )

  -- Sorting the items changes no look-up.
  pub lookup-sort_items : (j : String) (d : Dict V) → lookup j (sort_items d) ≡ lookup j d
  unfolding lookup sort_items
  lookup-sort_items j [] = refl
  lookup-sort_items j ((k, v) ∷ d) =
      ground (arith, lookup-insert_sorted k j v (sort_items d), lookup-sort_items j d)

  -- No key occurs twice.
  abbrev pub IsDict : Dict V → Type ℓ
  IsDict [] = Unit
  IsDict ((k, v) ∷ d) = (lookup k d ≡ none) × IsDict d

  pub insert_sorted-IsDict :
      (k : String) (v : V) (d : Dict V)
      → lookup k d ≡ none
      → IsDict d
      → IsDict (insert_sorted k v d)
  unfolding insert_sorted lookup
  insert_sorted-IsDict k v [] n h = (n, tt)
  insert_sorted-IsDict k v ((j, w) ∷ d) n h = elim (Bool-cases (text_ltb j k)) [
    | inl before ↦ rw before (
      ground (
        arith,
        lookup-insert_sorted k j v d,
        ltb→ne j k,
        text_eq.equal_iff j k,
        text_eq.equal_iff k j,
        h.0,
      ),
      insert_sorted-IsDict k v d (ground (arith, text_eq.equal_iff j k)) h.1,
    )
    | inr after ↦ rw after (ground (arith, n, text_eq.equal_iff j k, text_eq.equal_iff k j), h)
  ]

  pub sort_items-IsDict : (d : Dict V) → IsDict d → IsDict (sort_items d)
  unfolding sort_items
  sort_items-IsDict [] h = tt
  sort_items-IsDict ((k, v) ∷ d) h =
      insert_sorted-IsDict k v (sort_items d) (lookup-sort_items k d ∙ h.0)
        (sort_items-IsDict d h.1)

module _ {ℓ} {V : Type ℓ} ⦃e : Eq V⦄ where
  -- Items that are found in another dictionary lie within it.
  pub items_within_intro :
      (a b : Dict V)
      → IsDict a
      → ((k : String) (v : V) → lookup k a ≡ some v → lookup k b ≡ some v)
      → items_within a b ≡ true
  unfolding items_within lookup
  items_within_intro [] b h f = refl
  items_within_intro ((k, v) ∷ a) b h f =
      rw (f k v (ground (arith, ==-refl k)), ==-refl v)
        (items_within_intro a b h.1
          (λ j w e. f j w (ground (arith, text_eq.equal_iff k j, h.0, e))))

  -- Dictionaries with the same look-ups are equal.
  pub same_items_intro :
      (a b : Dict V)
      → IsDict a
      → IsDict b
      → ((k : String) → lookup k a ≡ lookup k b)
      → same_items a b ≡ true
  unfolding same_items
  same_items_intro a b h k f = ground (
    arith,
    items_within_intro a b h (λ j v e. sym (f j) ∙ e),
    items_within_intro b a k (λ j v e. f j ∙ e),
  )
