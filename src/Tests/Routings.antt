-- ===== src/Tests/Routings.antt =====
-- Two rules that a request may fit at once, of different priorities.
use e2h.Prelude.{decide, ℕ_discrete, ℤ, ℤ-discrete, ◌≡◌, refl, true, String, [], ◌∷◌, all_unique}
use e2h.Result.{ok, err}
use e2h.Dict.{Dict, lookup}
use e2h.Variants.Routing.{
  int_eq, RouteTarget, RoutingRule, RoutingVariant, ambiguous_rules, routing_matches_overlap,
  validated_targets, validated_rules, check_routing_rules, validated_routing,
}
use e2h.Variants.Routing.Decided.{fitting, priorities, validated_routing-decides}

abbrev target : String → RouteTarget
target id = record { id = id; provider = "local"; model = "small"; capabilities = "text" ∷ [] }

abbrev rule : String → String → String → ℤ → RoutingRule
rule id key target_id priority = record {
  id = id;
  match = (key, "yes") ∷ [];
  target_id = target_id;
  priority = priority;
}

abbrev routed : ℤ → RoutingVariant
routed priority = record {
  id = "routed";
  targets = target "fast" ∷ target "large" ∷ [];
  rules = rule "urgent" "urgent" "fast" (ℤ.pos 1) ∷ rule "hard" "hard" "large" priority ∷ [];
  fallback_target = "fast";
}

abbrev request : Dict String
request = ("urgent", "yes") ∷ ("hard", "yes") ∷ []

ambiguous_refused : validated_routing (routed (ℤ.pos 1)) ≡ err ambiguous_rules
unfolding validated_routing validated_targets validated_rules check_routing_rules
    routing_matches_overlap lookup ℤ-discrete ℕ_discrete decide
ambiguous_refused = refl

routed_holds : validated_routing (routed (ℤ.negsuc 0)) ≡ ok (routed (ℤ.negsuc 0))
unfolding validated_routing validated_targets validated_rules check_routing_rules
    routing_matches_overlap lookup ℤ-discrete ℕ_discrete decide
routed_holds = refl

validated_routing-decides_example :
    all_unique (priorities (fitting request (routed (ℤ.negsuc 0)).rules)) ≡ true
validated_routing-decides_example =
    validated_routing-decides (routed (ℤ.negsuc 0)) (routed (ℤ.negsuc 0)) request routed_holds
