-- ===== src/LongHorizon/Replay/Probes.antt =====
-- The probes after a turn and what is recorded for them in src/e2h/long_horizon.py.
use e2h.Prelude.{
  ◌≡◌, ap, refl, true, false, String, some, List, [], ◌∷◌, ◌⊎◌, map, ◌==◌, ==-refl, text_eq,
  contains, all_unique, all_unique-cons, Bool-cases, inl, inr, arith, if◌then◌else◌,
}
use e2h.Dict.{Dict, lookup, put, sort_items}
use e2h.Dict.Lookup.{lookup-put}
use e2h.LongHorizon.{LongHorizonTurn, LongHorizonProbe}
use e2h.LongHorizon.Replay.{probes_after, expect}

abbrev pub Among : LongHorizonProbe → List LongHorizonProbe → Type 0
Among p [] = ⊥
Among p (q ∷ probes) = (p ≡ q) ⊎ Among p probes

abbrev pub ids_of : List LongHorizonProbe → List String
ids_of probes = map (λ p. p.id) probes

abbrev pub turn_ids_of : List LongHorizonTurn → List String
turn_ids_of turns = map (λ t. t.id) turns

pub Among-contains :
    (p : LongHorizonProbe) (probes : List LongHorizonProbe)
    → Among p probes
    → contains p.id (ids_of probes) ≡ true
Among-contains p [] here = absurd here
Among-contains p (q ∷ probes) (inl same) =
    ground (arith, ap (λ k. k.id) same, ==-refl p.id, text_eq.equal_iff q.id p.id)
Among-contains p (q ∷ probes) (inr later) = ground (arith, Among-contains p probes later)

contains-probes_after :
    (id turn_id : String) (probes : List LongHorizonProbe)
    → contains id (ids_of (probes_after turn_id probes)) ≡ true
    → contains id (ids_of probes) ≡ true
contains-probes_after id turn_id [] h = h
contains-probes_after id turn_id (q ∷ probes) h = elim (Bool-cases (q.after_turn_id == turn_id)) [
  | inl here ↦ ground (arith, h, here, contains-probes_after id turn_id probes)
  | inr other ↦ ground (arith, h, other, contains-probes_after id turn_id probes)
]

-- A probe is among those after a turn exactly where it names the turn.
pub probes_after-own :
    (p : LongHorizonProbe) (turn_id : String) (probes : List LongHorizonProbe)
    → Among p probes
    → all_unique (ids_of probes) ≡ true
    → contains p.id (ids_of (probes_after turn_id probes)) ≡ (p.after_turn_id == turn_id)
probes_after-own p turn_id [] here unique = absurd here
probes_after-own p turn_id (q ∷ probes) (inl same) unique =
    let after = contains-probes_after p.id turn_id probes in
    let id = ap (λ k. k.id) same in
    let turn = ap (λ k. k.after_turn_id) same in
    elim (Bool-cases (q.after_turn_id == turn_id)) [
      | inl here ↦ ground (arith, here, id, turn, text_eq.equal_iff q.id p.id)
      | inr other ↦
          ground (arith, other, id, turn, after, unique, all_unique-cons q.id (ids_of probes))
    ]
probes_after-own p turn_id (q ∷ probes) (inr later) unique =
    let cons = all_unique-cons q.id (ids_of probes) in
    let rest = probes_after-own p turn_id probes later (ground (arith, unique, cons)) in
    let differs : (q.id == p.id) ≡ false =
      ground (arith, unique, cons, Among-contains p probes later, text_eq.equal_iff q.id p.id) in
    elim (Bool-cases (q.after_turn_id == turn_id)) [
      | inl here ↦ ground (arith, here, rest, differs)
      | inr other ↦ ground (arith, other, rest)
    ]

-- Recording a state for some probes is seen at their ids and nowhere else.
pub lookup-expect :
    (id : String) (state : Dict String) (probes : List LongHorizonProbe)
    (expected : Dict (Dict String))
    → lookup id (expect state probes expected)
      ≡ (if contains id (ids_of probes) then some (sort_items state) else lookup id expected)
unfolding expect
lookup-expect id state [] expected = refl
lookup-expect id state (p ∷ probes) expected = ground (
  arith,
  lookup-expect id state probes (put p.id (sort_items state) expected),
  lookup-put p.id id (sort_items state) expected,
)
