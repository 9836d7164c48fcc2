-- ===== src/Failures/Primary.antt =====
-- Which failure `summarize_failures` of src/e2h/failures.py calls primary.
use e2h.Prelude.{
  ℕ, ◌<◌, ◌≡◌, refl, sym, ap, ◌∙◌, true, false, String, List, [], ◌∷◌, ◌++◌, ◌==◌, ltb, leb, map,
  all, count_if, all-append, append-nil, append_assoc, text_eq, number_eq, arith, Bool-cases, inl,
  inr, ≡→==,
}
use e2h.Failures.{FailureCode, code_category, code_impact, impact_primary_rank, impact_eq, code_eq}
use e2h.Failures.Record.{FailureRecord}
use e2h.Failures.Summary.{code_rank, primary_of}

module _ {F : Type 0} where
  -- The record's classification is its code's.
  pub record IsClassified (r : FailureRecord F) : Type 0 where
    pub category : r.category ≡ code_category r.code
    pub impact : r.impact ≡ code_impact r.code

  abbrev pub AllClassified : List (String × FailureRecord F) → Type 0
  AllClassified [] = Unit {0}
  AllClassified (p ∷ ps) = IsClassified p.1 × AllClassified ps

  abbrev pub rank_of : String × FailureRecord F → ℕ
  rank_of p = impact_primary_rank p.1.impact

  abbrev pub codes : List (String × FailureRecord F) → List FailureCode
  codes ps = map (λ p. p.1.code) ps

  -- The first failure of the least rank, with what stands before it and behind it.
  pub record IsPrimary (ps : List (String × FailureRecord F)) (p : String × FailureRecord F)
      : Type 0 where
    pub before : List (String × FailureRecord F)
    pub after : List (String × FailureRecord F)
    pub split : ps ≡ before ++ p ∷ after
    pub above : all (λ q. ltb (rank_of p) (rank_of q)) before ≡ true
    pub no_less : all (λ q. leb (rank_of p) (rank_of q)) after ≡ true

  pub all-ltb :
      (a b : ℕ) (ps : List (String × FailureRecord F))
      → a < b
      → all (λ q. leb b (rank_of q)) ps ≡ true
      → all (λ q. ltb a (rank_of q)) ps ≡ true
  all-ltb a b [] h k = refl
  all-ltb a b (p ∷ ps) h k = ground (arith, all-ltb a b ps h)

  all-ltb-lower :
      (a b : ℕ) (ps : List (String × FailureRecord F))
      → a < b
      → all (λ q. ltb b (rank_of q)) ps ≡ true
      → all (λ q. ltb a (rank_of q)) ps ≡ true
  all-ltb-lower a b [] h k = refl
  all-ltb-lower a b (p ∷ ps) h k = ground (arith, all-ltb-lower a b ps h)

  moved :
      {ps qs : List (String × FailureRecord F)} {p : String × FailureRecord F}
      → qs ≡ ps
      → IsPrimary ps p
      → IsPrimary qs p
  moved e r = record {
    before = r.before;
    after = r.after;
    split = e ∙ r.split;
    above = r.above;
    no_less = r.no_less;
  }

  primary_of-from :
      (ps before mid : List (String × FailureRecord F)) (best : String × FailureRecord F)
      → all (λ q. ltb (rank_of best) (rank_of q)) before ≡ true
      → all (λ q. leb (rank_of best) (rank_of q)) mid ≡ true
      → IsPrimary (before ++ best ∷ (mid ++ ps)) (primary_of best ps)
  unfolding primary_of
  primary_of-from [] before mid best h k = record {
    before = before;
    after = mid;
    split = rw (append-nil);
    above = h;
    no_less = k;
  }
  primary_of-from (next ∷ ps) before mid best h k =
      elim (Bool-cases (ltb (rank_of next) (rank_of best))) [
        | inl less ↦ rw less (
            moved (sym (append_assoc before (best ∷ mid) (next ∷ ps))) (
              primary_of-from ps (before ++ best ∷ mid) [] next
                (ground (
                  arith,
                  all-append (λ q. ltb (rank_of next) (rank_of q)) before (best ∷ mid),
                  all-ltb-lower (rank_of next) (rank_of best) before,
                  all-ltb (rank_of next) (rank_of best) mid,
                ))
                refl))
        | inr no_less ↦ rw no_less (
            moved (ap (λ l. before ++ best ∷ l) (sym (append_assoc mid (next ∷ []) ps))) (
              primary_of-from ps before (mid ++ next ∷ []) best h
                (ground (arith, all-append (λ q. leb (rank_of best) (rank_of q)) mid (next ∷ [])))))
      ]

  -- Of the failures that are present, the primary one has the least impact rank, and those before it
  -- have a greater one.
  pub primary_of-IsPrimary :
      (first : String × FailureRecord F) (rest : List (String × FailureRecord F))
      → IsPrimary (first ∷ rest) (primary_of first rest)
  primary_of-IsPrimary first rest = primary_of-from rest [] [] first refl refl

  -- A test that the first one passes, and that is kept by each choice, holds of the primary one.
  pub IsClassified-primary :
      (first : String × FailureRecord F) (rest : List (String × FailureRecord F))
      → AllClassified (first ∷ rest)
      → IsClassified (primary_of first rest).1
  unfolding primary_of
  IsClassified-primary first [] h = h.0
  IsClassified-primary first (next ∷ rest) h =
      elim (Bool-cases (ltb (rank_of next) (rank_of first))) [
        | inl less ↦ rw (less, primary_of) (IsClassified-primary next rest h.1)
        | inr no_less ↦ rw (no_less, primary_of) (IsClassified-primary first rest (h.0, h.1.1))
      ]

  primary_of-less :
      (first next : String × FailureRecord F) (rest : List (String × FailureRecord F))
      → ltb (rank_of next) (rank_of first) ≡ true
      → primary_of first (next ∷ rest) ≡ primary_of next rest
  unfolding primary_of
  primary_of-less first next rest h = rw h

  primary_of-no_less :
      (first next : String × FailureRecord F) (rest : List (String × FailureRecord F))
      → ltb (rank_of next) (rank_of first) ≡ false
      → primary_of first (next ∷ rest) ≡ primary_of first rest
  unfolding primary_of
  primary_of-no_less first next rest h = rw h

  pub primary-occurs :
      (c : FailureCode) (first : String × FailureRecord F) (rest : List (String × FailureRecord F))
      → (primary_of first rest).1.code ≡ c
      → 0 < count_if (λ d. d == c) (codes (first ∷ rest))
  primary-occurs c first [] e = rw (≡→== first.1.code c (unfold primary_of in e)) (omega arith)
  primary-occurs c first (next ∷ rest) e = elim (Bool-cases (ltb (rank_of next) (rank_of first))) [
    | inl less ↦ omega (
      arith,
      primary-occurs c next rest
          (ap (λ p. p.1.code) (sym (primary_of-less first next rest less)) ∙ e),
    )
    | inr no_less ↦ omega (
      arith,
      primary-occurs c first rest
          (ap (λ p. p.1.code) (sym (primary_of-no_less first next rest no_less)) ∙ e),
    )
  ]

  pub none_below :
      (r : ℕ) (ps : List (String × FailureRecord F))
      → AllClassified ps
      → all (λ q. leb r (rank_of q)) ps ≡ true
      → count_if (λ c. ltb (code_rank c) r) (codes ps) ≡ 0
  unfolding code_rank
  none_below r [] h k = refl
  none_below r (p ∷ ps) h k = ground (arith, h.0.impact, none_below r ps h.1)

  pub leb_of_ltb :
      (r : ℕ) (ps : List (String × FailureRecord F))
      → all (λ q. ltb r (rank_of q)) ps ≡ true
      → all (λ q. leb r (rank_of q)) ps ≡ true
  leb_of_ltb r [] h = refl
  leb_of_ltb r (p ∷ ps) h = ground (arith, leb_of_ltb r ps)

  pub primary-least :
      (first : String × FailureRecord F) (rest : List (String × FailureRecord F))
      → all (λ q. leb (rank_of (primary_of first rest)) (rank_of q)) (first ∷ rest) ≡ true
  primary-least first rest =
      let r = primary_of-IsPrimary first rest in
      let p = primary_of first rest in
      ap (all (λ q. leb (rank_of p) (rank_of q))) r.split
      ∙ ground (
        arith,
        all-append (λ q. leb (rank_of p) (rank_of q)) r.before (p ∷ r.after),
        leb_of_ltb (rank_of p) r.before,
        r.above,
        r.no_less,
      )
