-- ===== src/Variants/Routing.antt =====
-- Routing targets and rules of src/e2h/variants.py, with `routing_must_be_total_and_unambiguous`.
-- Patterns of ids, provider and model texts, and metadata are not validated here.
pub mod Decided
use e2h.Prelude.{
  ℕ, Bool, true, false, not, ◌&&◌, ◌||◌, String, Option, none, some, List, [], ◌∷◌, map, any, all,
  keep, ◌==◌, text_eq, Eq, eq_of, contains, all_unique, length, leb, within, ℤ, ℤ-discrete,
  ℕ_discrete, is_negative, magnitude, if◌then◌else◌,
}
use e2h.Result.{Result, ok, err, refuse, ◌>>=◌, ◌>>◌}
use e2h.Dict.{Dict, lookup}

pub data RoutingError : Type 0 where
  wrong_length repeated_capability empty_value bad_priority repeated_target : RoutingError
  unknown_fallback repeated_rule unknown_target ambiguous_rules : RoutingError

instance abbrev pub int_eq : Eq ℤ
int_eq = eq_of (ℤ-discrete ℕ_discrete)

pub record RouteTarget : Type 0 where
  pub id : String
  pub provider : String
  pub model : String
  pub capabilities : List String

pub record RoutingRule : Type 0 where
  pub id : String
  pub match : Dict String
  pub target_id : String
  pub priority : ℤ

pub record RoutingVariant : Type 0 where
  pub id : String
  pub targets : List RouteTarget
  pub rules : List RoutingRule
  pub fallback_target : String

-- `_routing_matches_overlap`: the keys that both have, have one value.
abbrev pub agrees : Option String → String → Bool
agrees none value = true
agrees (some other) value = value == other

unfoldable pub routing_matches_overlap : Dict String → Dict String → Bool
routing_matches_overlap [] right = true
routing_matches_overlap ((key, value) ∷ left) right =
    agrees (lookup key right) value && routing_matches_overlap left right

-- `RouteTarget(...)`
unfoldable pub validated_targets : List RouteTarget → Result RoutingError (Unit {0})
validated_targets [] = ok tt
validated_targets (target ∷ targets) =
    refuse (not (leb 1 (length target.capabilities))) wrong_length
    >> refuse (not (all_unique target.capabilities)) repeated_capability
    >> validated_targets targets

-- `RoutingRule(...)`
unfoldable pub validated_rules : List RoutingRule → Result RoutingError (Unit {0})
validated_rules [] = ok tt
validated_rules (rule ∷ rules) =
    refuse (not (within 1 32 (length rule.match))) wrong_length
    >> refuse (any (λ item. item.1 == "") rule.match) empty_value
    >> refuse (not (leb (magnitude rule.priority) 10000)) bad_priority
    >> validated_rules rules

-- `rules_by_priority.setdefault(priority, [])` over the rules read so far, the last one first
abbrev pub peers : ℤ → List RoutingRule → List RoutingRule
peers priority seen = keep (λ rule. rule.priority == priority) seen

-- The loop over the rules; the order of the peers matters to the error's text only.
unfoldable pub check_routing_rules :
    List String → List RoutingRule → List RoutingRule → Result RoutingError (Unit {0})
unfolding routing_matches_overlap
check_routing_rules target_ids seen [] = ok tt
check_routing_rules target_ids seen (rule ∷ rules) =
    refuse (not (contains rule.target_id target_ids)) unknown_target
    >> refuse
        (any (λ peer. routing_matches_overlap peer.match rule.match) (peers rule.priority seen))
        ambiguous_rules
    >> check_routing_rules target_ids (rule ∷ seen) rules

-- `RoutingVariant(...)`
unfoldable pub validated_routing : RoutingVariant → Result RoutingError RoutingVariant
unfolding validated_targets validated_rules check_routing_rules
validated_routing routing = do
  refuse (not (within 1 64 (length routing.targets))) wrong_length
  validated_targets routing.targets
  refuse (not (leb (length routing.rules) 256)) wrong_length
  validated_rules routing.rules
  let target_ids = map (λ target. target.id) routing.targets
  refuse (not (all_unique target_ids)) repeated_target
  refuse (not (contains routing.fallback_target target_ids)) unknown_fallback
  refuse (not (all_unique (map (λ rule. rule.id) routing.rules))) repeated_rule
  check_routing_rules target_ids [] routing.rules
  ok routing
