-- ===== src/LongHorizon/Replay/Expected.antt =====
-- What `_expected_probe_states` of src/e2h/long_horizon.py expects at each probe of a valid task.
use e2h.Prelude.{
  ◌≡◌, ◌∙◌, ap, sym, refl, true, false, String, Option, none, some, List, [], ◌∷◌, ◌++◌, append-nil,
  all, ◌==◌, text_eq, contains, all_unique, all_unique-cons, Bool-cases, Option-cases, inl, inr,
  arith, if◌then◌else◌,
}
use e2h.Result.{ok, Result-cases}
use e2h.Dict.{Dict, lookup, sort_items}
use e2h.Dict.Lookup.{lookup-sort_items, IsDict, sort_items-IsDict}
use e2h.LongHorizon.{
  ConstraintUpdate, LongHorizonTurn, LongHorizonProbe, LongHorizonTask, validated_turn,
  validated_task, each,
}
use e2h.LongHorizon.Replay.{probes_after, expect, replay_turns, expected_probe_states}
use e2h.LongHorizon.Replay.Facts.{task-Facts}
use e2h.LongHorizon.Replay.Last.{last_update, last_value, apply_updates-last}
use e2h.LongHorizon.Replay.Probes.{Among, ids_of, turn_ids_of, probes_after-own, lookup-expect}

-- The updates of the turns up to and including the one with the id
unfoldable pub history : String → List LongHorizonTurn → List ConstraintUpdate
history turn_id [] = []
history turn_id (turn ∷ turns) =
    let rest = history turn_id turns in turn.updates ++ (if turn.id == turn_id then [] else rest)

pub last_update-append :
    (k : String) (us vs : List ConstraintUpdate)
    → last_update k (us ++ vs)
      ≡ elim (last_update k vs) [ some later ↦ some later | none ↦ last_update k us ]
unfolding last_update
last_update-append k [] vs = elim (Option-cases (last_update k vs)) [
  | inl missing ↦ ground (arith, missing)
  | inr (later, found) ↦ ground (arith, found)
]
last_update-append k (u ∷ us) vs = elim (Option-cases (last_update k vs)) [
  | inl missing ↦ ground (arith, missing, last_update-append k us vs)
  | inr (later, found) ↦ ground (arith, found, last_update-append k us vs)
]

last_value-append :
    (k : String) (before : Option String) (us vs : List ConstraintUpdate)
    → last_value k (last_value k before us) vs ≡ last_value k before (us ++ vs)
last_value-append k before us vs = elim (Option-cases (last_update k vs)) [
  | inl missing ↦ ground (arith, missing, last_update-append k us vs)
  | inr (later, found) ↦ ground (arith, found, last_update-append k us vs)
]

-- What the replay leaves at a probe that is made after one of the turns.
Expects : Dict (Dict String) → Dict String → List LongHorizonTurn → LongHorizonProbe → Type 0
Expects expected state turns p =
    (s : Dict String) × (lookup p.id expected ≡ some s)
    × IsDict s
    × ((k : String) → lookup k s ≡ last_value k (lookup k state) (history p.after_turn_id turns))

history-here :
    (turn : LongHorizonTurn) (turns : List LongHorizonTurn) (id : String)
    → (turn.id == id) ≡ true
    → history id (turn ∷ turns) ≡ turn.updates
unfolding history
history-here turn turns id here = rw here (append-nil turn.updates)

history-later :
    (turn : LongHorizonTurn) (turns : List LongHorizonTurn) (id : String)
    → (turn.id == id) ≡ false
    → history id (turn ∷ turns) ≡ turn.updates ++ history id turns
unfolding history
history-later turn turns id other = rw other refl

module _ (result : Dict (Dict String)) (state next : Dict String) (turn : LongHorizonTurn)
    (turns : List LongHorizonTurn) (p : LongHorizonProbe)
    (at : (k : String) → lookup k next ≡ last_value k (lookup k state) turn.updates) where
  Expects-here :
      IsDict next
      → lookup p.id result ≡ some (sort_items next)
      → (turn.id == p.after_turn_id) ≡ true
      → Expects result state (turn ∷ turns) p
  unfolding Expects
  Expects-here d found here = (
    sort_items next,
    found,
    sort_items-IsDict next d,
    λ k.
        lookup-sort_items k next
        ∙ at k
        ∙ ap (last_value k (lookup k state)) (sym (history-here turn turns p.after_turn_id here)),
  )

  Expects-later :
      Expects result next turns p
      → (turn.id == p.after_turn_id) ≡ false
      → Expects result state (turn ∷ turns) p
  unfolding Expects
  Expects-later (s, found, d, values) other = (
    s,
    found,
    d,
    λ k.
        values k
        ∙ ap (λ v. last_value k v (history p.after_turn_id turns)) (at k)
        ∙ last_value-append k (lookup k state) turn.updates (history p.after_turn_id turns)
        ∙ ap (last_value k (lookup k state)) (sym (history-later turn turns p.after_turn_id other)),
  )

replay_turns-last :
    (probes : List LongHorizonProbe) (state : Dict String) (expected : Dict (Dict String))
    (turns : List LongHorizonTurn)
    → all_unique (ids_of probes) ≡ true
    → each validated_turn turns ≡ ok tt
    → all_unique (turn_ids_of turns) ≡ true
    → IsDict state
    → (result : Dict (Dict String)) × (replay_turns probes state expected turns ≡ ok result)
      × ((p : LongHorizonProbe)
          → Among p probes
          → (contains p.after_turn_id (turn_ids_of turns) ≡ false
              → lookup p.id result ≡ lookup p.id expected)
            × (contains p.after_turn_id (turn_ids_of turns) ≡ true → Expects result state turns p))
unfolding replay_turns
replay_turns-last probes state expected [] unique valid distinct d =
    (expected, refl, λ p among. (λ none_left. refl, λ found. absurd (ground (arith, found))))
replay_turns-last probes state expected (turn ∷ turns) unique valid distinct d =
    elim (Result-cases (validated_turn turn)) [
      | inr (problem, refused) ↦ absurd (ground (arith, valid, refused))
      | inl (done, fits) ↦
          let cons = all_unique-cons turn.id (turn_ids_of turns) in
          let (next, applied, d', at) =
            apply_updates-last state turn.updates (ground (arith, fits)) d in
          let recorded = expect next (probes_after turn.id probes) expected in
          let (result, replayed, rest) =
            replay_turns-last probes next recorded turns unique (ground (arith, valid, fits))
              (ground (arith, distinct, cons)) d' in
          (
            result,
            rw applied replayed,
            λ p among.
                let own = probes_after-own p turn.id probes among unique in
                let seen = lookup-expect p.id next (probes_after turn.id probes) expected in
                (
                  λ absent.
                      (rest p among).0 (ground (arith, absent))
                      ∙ ground (
                        arith,
                        absent,
                        seen,
                        own,
                        text_eq.equal_iff p.after_turn_id turn.id,
                        text_eq.equal_iff turn.id p.after_turn_id,
                      ),
                  λ present. elim (Bool-cases (turn.id == p.after_turn_id)) [
                    | inl here ↦
                        Expects-here result state next turn turns p at d'
                          ((rest p among).0 (
                              ground (
                                arith,
                                here,
                                distinct,
                                cons,
                                text_eq.equal_iff turn.id p.after_turn_id,
                              ))
                            ∙ ground (
                              arith,
                              seen,
                              own,
                              here,
                              text_eq.equal_iff p.after_turn_id turn.id,
                              text_eq.equal_iff turn.id p.after_turn_id,
                            ))
                          here
                    | inr other ↦
                        Expects-later result state next turn turns p at
                          ((rest p among).1 (ground (arith, present, other))) other
                  ],
                ),
          )
    ]

Among-known :
    (turn_ids : List String) (p : LongHorizonProbe) (probes : List LongHorizonProbe)
    → Among p probes
    → all (λ q. contains q.after_turn_id turn_ids) probes ≡ true
    → contains p.after_turn_id turn_ids ≡ true
Among-known turn_ids p [] here h = absurd here
Among-known turn_ids p (q ∷ probes) (inl same) h =
    ap (λ k. contains k.after_turn_id turn_ids) same ∙ ground (arith, h)
Among-known turn_ids p (q ∷ probes) (inr later) h =
    Among-known turn_ids p probes later (ground (arith, h))

-- For a task that the validator accepts, `_expected_probe_states` fails no assertion, and expects at
-- each probe of the task the constraints that the last update of their key sets, among the updates
-- of the turns up to the probe's; a key whose last update revokes it, or that has none, is absent.
pub expected_probe_states-last :
    (task : LongHorizonTask)
    → validated_task task ≡ ok tt
    → (expected : Dict (Dict String)) × (expected_probe_states task ≡ ok expected)
      × ((p : LongHorizonProbe)
          → Among p task.probes
          → (s : Dict String) × (lookup p.id expected ≡ some s)
            × IsDict s
            × ((k : String) → lookup k s ≡ last_value k none (history p.after_turn_id task.turns)))
unfolding expected_probe_states Expects lookup
expected_probe_states-last task valid =
    let facts = task-Facts task valid in
    let (expected, made, at) =
      replay_turns-last task.probes [] [] task.turns facts.distinct_probes facts.values
        facts.distinct_turns tt in
    (
      expected,
      made,
      λ p among.
          (at p among).1
            (Among-known (turn_ids_of task.turns) p task.probes among facts.probes_known),
    )
