-- ===== src/LongHorizon/Replay.antt =====
-- `_expected_probe_states` of src/e2h/long_horizon.py.
pub mod Facts
pub mod Last
pub mod Probes
pub mod Expected
use e2h.Prelude.{String, Option, none, some, List, [], ◌∷◌, ◌==◌, text_eq, if◌then◌else◌, keep}
use e2h.Result.{Result, ok, err, ◌>>=◌}
use e2h.Dict.{Dict, put, remove, sort_items}
use e2h.LongHorizon.{
  set, revoke, ConstraintUpdate, LongHorizonTurn, LongHorizonProbe, LongHorizonTask,
  LongHorizonError, assertion_failed,
}

-- The branch on `update.action`; `None` fails the assertion.
unfoldable pub apply_update : Dict String → ConstraintUpdate → Result LongHorizonError (Dict String)
apply_update state update = elim update.action [
  | set ↦ elim update.value [
    | none ↦ err assertion_failed
    | some value ↦ ok (put update.key value state)
  ]
  | revoke ↦ ok (remove update.key state)
]

unfoldable pub apply_updates :
    Dict String → List ConstraintUpdate → Result LongHorizonError (Dict String)
unfolding apply_update
apply_updates state [] = ok state
apply_updates state (update ∷ updates) =
    apply_update state update >>= λ next. apply_updates next updates

-- `probes_by_turn.get(turn_id, [])`: the probes after the turn, in their order
abbrev pub probes_after : String → List LongHorizonProbe → List LongHorizonProbe
probes_after turn_id probes = keep (λ probe. probe.after_turn_id == turn_id) probes

-- `for probe in probes: expected[probe.id] = dict(sorted(state.items()))`
unfoldable pub expect :
    Dict String → List LongHorizonProbe → Dict (Dict String) → Dict (Dict String)
expect state [] expected = expected
expect state (probe ∷ probes) expected =
    expect state probes (put probe.id (sort_items state) expected)

-- The loop over the turns
unfoldable pub replay_turns :
    List LongHorizonProbe
    → Dict String
    → Dict (Dict String)
    → List LongHorizonTurn
    → Result LongHorizonError (Dict (Dict String))
replay_turns probes state expected [] = ok expected
replay_turns probes state expected (turn ∷ turns) = do
  next ← apply_updates state turn.updates
  replay_turns probes next (expect next (probes_after turn.id probes) expected) turns

-- `_expected_probe_states`
unfoldable pub expected_probe_states :
    LongHorizonTask → Result LongHorizonError (Dict (Dict String))
unfolding replay_turns
expected_probe_states task = replay_turns task.probes [] [] task.turns
