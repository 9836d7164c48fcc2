-- ===== src/Failures/Counts.antt =====
-- Sums over the codes that a summary counts (src/e2h/failures.py, `FailureSummary`).
use e2h.Prelude.{
  ℕ, ◌+◌, ◌≡◌, refl, ap, ◌∙◌, Bool, true, false, String, none, some, List, [], ◌∷◌, ◌==◌, leb,
  length, map, any, count_if, if◌then◌else◌, text_eq, number_eq, arith, Bool-cases, inl, inr,
}
use e2h.Result.{ok}
use e2h.Dict.{Dict, insert_sorted, sort_items, sum_values, add_count, add_counts, counter}
use e2h.Dict.{text_ltb}
use e2h.Dict.Lookup.{IsDict, sort_items-IsDict}
use e2h.Dict.Tally.{
  sum_if, has_empty, sum_if-sort_items, sum_if-counter, sum_values-eq-sum_if, add_counts-IsDict,
  has_empty-add_counts, has_empty-sort_items,
}
use e2h.Failures
use e2h.Failures.{
  FailureCode, FailureImpact, FailureImpact-discrete, code_value, code_category, category_value,
  code_impact, impact_eq,
}
use e2h.Failures.Summary.{code_of, code_counts}

-- The counts of the codes that pass the test.
abbrev pub sum_codes : (FailureCode → Bool) → List (FailureCode × ℕ) → ℕ
sum_codes q [] = 0
sum_codes q ((c, n) ∷ counts) = (if q c then n else 0) + sum_codes q counts

-- The test, on the text of a code.
abbrev pub on_code : (FailureCode → Bool) → String → Bool
on_code q text = elim (code_of text) [ none ↦ false | some c ↦ q c ]

-- A code is found again by its text.
pub code_of-code_value : (c : FailureCode) → code_of (code_value c) ≡ some c
unfolding code_of code_value
code_of-code_value Failures.unexpected_exit = refl
code_of-code_value _ = refl

pub count_if-code_value :
    (q : FailureCode → Bool) (cs : List FailureCode)
    → count_if (on_code q) (map code_value cs) ≡ count_if q cs
count_if-code_value q [] = refl
count_if-code_value q (c ∷ cs) =
    rw (code_of-code_value c, on_code) (omega (arith, count_if-code_value q cs))

-- Each key is the text of a code.
abbrev pub HasCodes : Dict ℕ → Type 0
HasCodes [] = Unit {0}
HasCodes ((k, n) ∷ d) = ((c : FailureCode) × (k ≡ code_value c)) × HasCodes d

add_count-HasCodes :
    (c : FailureCode) (k : String) (n : ℕ) (d : Dict ℕ)
    → k ≡ code_value c
    → HasCodes d
    → HasCodes (add_count k n d)
unfolding add_count
add_count-HasCodes c k n [] e h = ((c, e), tt)
add_count-HasCodes c k n ((j, m) ∷ d) e h = elim (Bool-cases (j == k)) [
  | inl same ↦ rw same h
  | inr differ ↦ rw differ (h.0, add_count-HasCodes c k n d e h.1)
]

counter-HasCodes :
    (cs : List FailureCode) (d : Dict ℕ)
    → HasCodes d
    → HasCodes (add_counts d (map (λ k. (k, 1)) (map code_value cs)))
unfolding add_counts
counter-HasCodes [] d h = h
counter-HasCodes (c ∷ cs) d h =
    counter-HasCodes cs (add_count (code_value c) 1 d)
      (add_count-HasCodes c (code_value c) 1 d refl h)

insert_sorted-HasCodes :
    (k : String) (n : ℕ) (d : Dict ℕ)
    → (c : FailureCode) × (k ≡ code_value c)
    → HasCodes d
    → HasCodes (insert_sorted k n d)
unfolding insert_sorted
insert_sorted-HasCodes k n [] c h = (c, tt)
insert_sorted-HasCodes k n ((j, m) ∷ d) c h = elim (Bool-cases (text_ltb j k)) [
  | inl before ↦ rw before (h.0, insert_sorted-HasCodes k n d c h.1)
  | inr after ↦ rw after (c, h)
]

sort_items-HasCodes : (d : Dict ℕ) → HasCodes d → HasCodes (sort_items d)
unfolding sort_items
sort_items-HasCodes [] h = tt
sort_items-HasCodes ((k, n) ∷ d) h =
    insert_sorted-HasCodes k n (sort_items d) h.0 (sort_items-HasCodes d h.1)

-- Some count is zero.
abbrev pub has_zero : List (FailureCode × ℕ) → Bool
has_zero counts = any (λ item. leb item.1 0) counts

-- What reading the dictionary back gives.
pub record Reads (d : Dict ℕ) (counts : List (FailureCode × ℕ)) : Type 0 where
  pub read : code_counts d ≡ ok counts
  pub sums : (q : FailureCode → Bool) → sum_codes q counts ≡ sum_if (on_code q) d
  pub filled : has_zero counts ≡ has_empty d

-- Such a dictionary is read back.
code_counts-Reads : (d : Dict ℕ) → HasCodes d → (counts : List (FailureCode × ℕ)) × Reads d counts
unfolding code_counts
code_counts-Reads [] h = ([], record { read = refl; sums = λ q. refl; filled = refl })
code_counts-Reads ((k, n) ∷ d) h =
    let (counts, r) = code_counts-Reads d h.1 in
    let found : code_of k ≡ some h.0.0 = ap code_of h.0.1 ∙ code_of-code_value h.0.0 in
    (
      (h.0.0, n) ∷ counts,
      record {
        read = rw (r.read, found) refl;
        sums = λ q. rw (found, on_code) (omega (arith, r.sums q));
        filled = rw r.filled refl;
      },
    )

-- The codes' own counter, as the summary stores it.
abbrev pub codes_counted : List FailureCode → Dict ℕ
codes_counted cs = sort_items (counter (map code_value cs))

abbrev pub categories_counted : List FailureCode → Dict ℕ
categories_counted cs = sort_items (counter (map (λ c. category_value (code_category c)) cs))

counter-filled : (keys : List String) → has_empty (counter keys) ≡ false
unfolding counter
counter-filled keys = has_empty-add_counts [] (map (λ k. (k, 1)) keys) (ones keys) refl
  where
    ones : (ks : List String) → has_empty (map (λ k. (k, 1)) ks) ≡ false
    ones [] = refl
    ones (k ∷ ks) = ones ks

pub counted-filled : (keys : List String) → has_empty (sort_items (counter keys)) ≡ false
counted-filled keys = has_empty-sort_items (counter keys) (counter-filled keys)

pub counted-IsDict : (keys : List String) → IsDict (sort_items (counter keys))
unfolding counter
counted-IsDict keys = sort_items-IsDict _ (add_counts-IsDict [] (map (λ k. (k, 1)) keys) tt)

pub sum_if-counted :
    (p : String → Bool) (keys : List String)
    → sum_if p (sort_items (counter keys)) ≡ count_if p keys
sum_if-counted p keys = sum_if-sort_items p (counter keys) ∙ sum_if-counter p keys

pub sum_values-counted : (keys : List String) → sum_values (sort_items (counter keys)) ≡ length keys
sum_values-counted keys = omega (
  arith,
  sum_values-eq-sum_if (sort_items (counter keys)),
  sum_if-counted (λ k. true) keys,
  all_counted keys,
)
  where
    all_counted : (ks : List String) → count_if (λ k. true) ks ≡ length ks
    all_counted [] = refl
    all_counted (k ∷ ks) = omega (arith, all_counted ks)

-- What the summary stores of the codes is read back, and every sum over it counts the codes.
pub codes_counted-Reads :
    (cs : List FailureCode)
    → (counts : List (FailureCode × ℕ)) × (code_counts (codes_counted cs) ≡ ok counts)
      × ((q : FailureCode → Bool) → sum_codes q counts ≡ count_if q cs)
      × (has_zero counts ≡ false)
unfolding counter
codes_counted-Reads cs =
    let (counts, r) =
      code_counts-Reads (codes_counted cs) (sort_items-HasCodes _ (counter-HasCodes cs [] tt)) in
    (
      counts,
      r.read,
      (λ q. r.sums q ∙ sum_if-counted (on_code q) (map code_value cs) ∙ count_if-code_value q cs),
      r.filled ∙ counted-filled (map code_value cs),
    )
