-- ===== src/Variants/Routing/Decided.antt =====
-- A routing of src/e2h/variants.py decides: no two rules of one priority fit the same request.
use e2h.Prelude.{
  ◌≡◌, ◌∙◌, ap, sym, refl, Bool, true, false, ◌&&◌, String, some, List, [], ◌∷◌, map, any, keep,
  ◌==◌, ==-refl, text_eq, contains, all_unique, all_unique-cons, ℤ, Bool-cases, Option-cases, inl,
  inr, arith,
}
use e2h.Result.{ok, Result-cases}
use e2h.Dict.{Dict, lookup, holds}
use e2h.Variants.Routing.{
  int_eq, RoutingRule, RoutingVariant, routing_matches_overlap, validated_targets, validated_rules,
  peers, check_routing_rules, validated_routing,
}

-- The metadata of a request have what the rule matches.
abbrev pub fits : Dict String → Dict String → Bool
fits metadata [] = true
fits metadata ((key, value) ∷ match) = holds (lookup key metadata) value && fits metadata match

abbrev pub fitting : Dict String → List RoutingRule → List RoutingRule
fitting metadata rules = keep (λ rule. fits metadata rule.match) rules

abbrev pub priorities : List RoutingRule → List ℤ
priorities rules = map (λ rule. rule.priority) rules

fits-lookup :
    (metadata match : Dict String) (key value : String)
    → fits metadata match ≡ true
    → lookup key match ≡ some value
    → lookup key metadata ≡ some value
unfolding lookup
fits-lookup metadata [] key value h found = absurd (ground (arith, found))
fits-lookup metadata ((k, v) ∷ match) key value h found = elim (Bool-cases (k == key)) [
  | inr other ↦
      fits-lookup metadata match key value (ground (arith, h)) (ground (arith, found, other))
  | inl here ↦ elim (Option-cases (lookup k metadata)) [
    | inl missing ↦ absurd (ground (arith, h, missing))
    | inr (w, there) ↦
        let same_value : v ≡ value = ground (arith, found, here) in
        let same_found : w ≡ v = ground (arith, h, there, text_eq.equal_iff w v) in
        ap (λ i. lookup i metadata) (sym ((text_eq.equal_iff k key).0 here))
        ∙ there
        ∙ ap some (same_found ∙ same_value)
  ]
]

-- Two matches that one request fits overlap.
fits-overlap :
    (metadata left right : Dict String)
    → fits metadata left ≡ true
    → fits metadata right ≡ true
    → routing_matches_overlap left right ≡ true
unfolding routing_matches_overlap
fits-overlap metadata [] right h k = refl
fits-overlap metadata ((key, value) ∷ left) right h k =
    let rest = fits-overlap metadata left right (ground (arith, h)) k in
    elim (Option-cases (lookup key right)) [
      | inl missing ↦ ground (arith, missing, rest)
      | inr (w, found) ↦
          let there = fits-lookup metadata right key w k found in
          ground
            (arith, found, rest, h, there, text_eq.equal_iff w value, text_eq.equal_iff value w)
    ]

-- An earlier rule of the priority that the request fits is an overlapping peer.
fitting-peer :
    (metadata : Dict String) (rule : RoutingRule) (seen : List RoutingRule)
    → fits metadata rule.match ≡ true
    → contains rule.priority (priorities (fitting metadata seen)) ≡ true
    → any (λ peer. routing_matches_overlap peer.match rule.match) (peers rule.priority seen) ≡ true
fitting-peer metadata rule [] h found = absurd (ground (arith, found))
fitting-peer metadata rule (other ∷ seen) h found = elim (Bool-cases (fits metadata other.match)) [
  | inr unfit ↦
      let later = fitting-peer metadata rule seen h (ground (arith, found, unfit)) in
      ground (arith, later)
  | inl fit ↦ elim (Bool-cases (other.priority == rule.priority)) [
    | inl same ↦ ground (arith, same, fits-overlap metadata other.match rule.match fit h)
    | inr differ ↦
        let later = fitting-peer metadata rule seen h (ground (arith, found, fit, differ)) in
        ground (arith, later, differ)
  ]
]

-- Among the rules that the loop accepts, those that a request fits differ in priority, from each
-- other and from the earlier ones that it fits.
check_routing_rules-decide :
    (metadata : Dict String) (target_ids : List String) (seen rules : List RoutingRule)
    → check_routing_rules target_ids seen rules ≡ ok tt
    → (all_unique (priorities (fitting metadata rules)) ≡ true)
      × ((p : ℤ)
          → contains p (priorities (fitting metadata rules)) ≡ true
          → contains p (priorities (fitting metadata seen)) ≡ false)
unfolding check_routing_rules
check_routing_rules-decide metadata target_ids seen [] h =
    (refl, λ p found. absurd (ground (arith, found)))
check_routing_rules-decide metadata target_ids seen (rule ∷ rules) h =
    let (unique, apart) =
      check_routing_rules-decide metadata target_ids (rule ∷ seen) rules (ground (arith, h)) in
    elim (Bool-cases (fits metadata rule.match)) [
      | inr unfit ↦ (
        ground (arith, unfit, unique),
        λ p found. ground (arith, unfit, apart p (ground (arith, found, unfit))),
      )
      | inl fit ↦
          let alone : contains rule.priority (priorities (fitting metadata seen)) ≡ false =
            ground (arith, h, fitting-peer metadata rule seen fit) in
          (
            ground (
              arith,
              fit,
              unique,
              apart rule.priority,
              ==-refl rule.priority,
              all_unique-cons rule.priority (priorities (fitting metadata rules)),
            ),
            λ p found. elim (Bool-cases (rule.priority == p)) [
              | inl same ↦
                  ap (λ q. contains q (priorities (fitting metadata seen)))
                    (sym ((int_eq.equal_iff rule.priority p).0 same))
                  ∙ alone
              | inr differ ↦ ground (arith, fit, differ, found, apart p)
            ],
          )
    ]

-- In a routing that `routing_must_be_total_and_unambiguous` accepts, for every request the rules
-- whose matches its metadata fit have different priorities, so that at most one comes first.
pub validated_routing-decides :
    (routing routing' : RoutingVariant) (metadata : Dict String)
    → validated_routing routing ≡ ok routing'
    → all_unique (priorities (fitting metadata routing.rules)) ≡ true
unfolding validated_routing
validated_routing-decides routing routing' metadata h =
    let target_ids = map (λ target. target.id) routing.targets in
    elim (Result-cases (validated_targets routing.targets)) [
      | inr (problem, refused) ↦ absurd (ground (arith, h, refused))
      | inl (done, v) ↦ elim (Result-cases (validated_rules routing.rules)) [
        | inr (problem, refused) ↦ absurd (ground (arith, h, v, refused))
        | inl (done', w) ↦ elim (Result-cases (check_routing_rules target_ids [] routing.rules)) [
          | inr (problem, refused) ↦ absurd (ground (arith, h, v, w, refused))
          | inl (done'', checked) ↦
              (check_routing_rules-decide metadata target_ids [] routing.rules
                (ground (arith, checked))).0
        ]
      ]
    ]
