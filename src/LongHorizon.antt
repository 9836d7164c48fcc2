-- ===== src/LongHorizon.antt =====
-- The documents of src/e2h/long_horizon.py with their validators: dialogues whose turns set and
-- revoke constraints, and the check that follows the active ones. Texts that only have to match a
-- pattern or a length, and metadata, are not validated here.
pub mod Replay
pub mod Supersedes
pub mod Scoring
pub mod Evaluation
use e2h.Prelude.{
  ℕ, suc, ◌<◌, Bool, true, false, not, ◌&&◌, ◌||◌, String, Option, none, some, List, [], ◌∷◌, map,
  ◌==◌, text_eq, Eq, eq_of, contains, all_unique, length, leb, within, ltb, if◌then◌else◌,
}
use e2h.Result.{Result, ok, err, refuse, ◌>>=◌, ◌>>◌}
use e2h.Dict.{Dict, lookup, put, remove}

pub data LongHorizonRole : Type 0 where
  system user assistant : LongHorizonRole

pub data ConstraintAction : Type 0 where
  set revoke : ConstraintAction

pub record ConstraintUpdate : Type 0 where
  pub id : String
  pub key : String
  pub action : ConstraintAction
  pub value : Option String
  pub supersedes : Option String

pub record LongHorizonTurn : Type 0 where
  pub id : String
  pub role : LongHorizonRole
  pub content : String
  pub updates : List ConstraintUpdate

pub record LongHorizonProbe : Type 0 where
  pub id : String
  pub after_turn_id : String
  pub prompt : String

pub record LongHorizonTask : Type 0 where
  pub id : String
  pub title : String
  pub constraint_keys : List String
  pub turns : List LongHorizonTurn
  pub probes : List LongHorizonProbe

pub record LongHorizonCorpus : Type 0 where
  pub id : String
  pub title : String
  pub tasks : List LongHorizonTask

-- `LongHorizonError`, what the validators refuse, and the exceptions of the evaluation itself.
pub data LongHorizonError : Type 0 where
  set_without_value revoke_with_value repeated_key repeated_turn : LongHorizonError
  repeated_update undeclared_key supersedes_inactive wrong_supersedes : LongHorizonError
  revokes_inactive repeated_probe unknown_turn probes_out_of_order : LongHorizonError
  wrong_length repeated_task repeated_pair wrong_corpus unknown_pair : LongHorizonError
  bad_counts bad_score bad_value assertion_failed key_missing : LongHorizonError

-- `ConstraintUpdate(...)` with `action_fields_must_be_consistent`
unfoldable pub validated_update : ConstraintUpdate → Result LongHorizonError (Unit {0})
validated_update update = elim update.action [
  | set ↦ elim update.value [
    | none ↦ err set_without_value
    | some value ↦ refuse (value == "") set_without_value
  ]
  | revoke ↦ elim update.value [ none ↦ ok tt | some value ↦ err revoke_with_value ]
]

-- The local variables of `state_transitions_and_probes_must_be_valid`
pub record Scan : Type 0 where
  pub turn_ids : Dict ℕ
  pub update_ids : List String
  pub active : Dict ConstraintUpdate

-- `update.supersedes != current.id`
abbrev pub names : Option String → String → Bool
names none id = false
names (some other) id = other == id

abbrev pub is_none : {A : Type 0} → Option A → Bool
is_none none = true
is_none (some a) = false

-- What an update does to the active constraints, given the current one of its key
unfoldable pub transition :
    Option ConstraintUpdate
    → ConstraintAction
    → ConstraintUpdate
    → Dict ConstraintUpdate
    → Result LongHorizonError (Dict ConstraintUpdate)
transition none set update active =
    refuse (not (is_none update.supersedes)) supersedes_inactive
    >> ok (put update.key update active)
transition (some current) set update active =
    refuse (not (names update.supersedes current.id)) wrong_supersedes
    >> ok (put update.key update active)
transition none revoke update active = err revokes_inactive
transition (some current) revoke update active =
    refuse (not (names update.supersedes current.id)) wrong_supersedes
    >> ok (remove update.key active)

-- One iteration of the loop over a turn's updates
unfoldable pub scan_update : List String → Scan → ConstraintUpdate → Result LongHorizonError Scan
scan_update keys scan update = do
  refuse (contains update.id scan.update_ids) repeated_update
  refuse (not (contains update.key keys)) undeclared_key
  active ← transition (lookup update.key scan.active) update.action update scan.active
  ok (record scan { active = active; update_ids = update.id ∷ scan.update_ids })

unfoldable pub scan_updates :
    List String → Scan → List ConstraintUpdate → Result LongHorizonError Scan
unfolding scan_update
scan_updates keys scan [] = ok scan
scan_updates keys scan (update ∷ updates) =
    scan_update keys scan update >>= λ next. scan_updates keys next updates

-- The loop over the turns, from the given index
unfoldable pub scan_turns :
    List String → ℕ → Scan → List LongHorizonTurn → Result LongHorizonError Scan
scan_turns keys turn_index scan [] = ok scan
scan_turns keys turn_index scan (turn ∷ turns) = do
  refuse (not (is_none (lookup turn.id scan.turn_ids))) repeated_turn
  next ←
      scan_updates keys (record scan { turn_ids = put turn.id turn_index scan.turn_ids })
        turn.updates
  scan_turns keys (suc turn_index) next turns

-- The loop over the probes; `first` is the least index that the next probe may have, that is, the
-- maximum of 0 and `previous_turn_index`.
unfoldable pub scan_probes :
    Dict ℕ → List String → ℕ → List LongHorizonProbe → Result LongHorizonError (Unit {0})
scan_probes turn_ids probe_ids first [] = ok tt
scan_probes turn_ids probe_ids first (probe ∷ probes) =
    refuse (contains probe.id probe_ids) repeated_probe
    >> elim (lookup probe.after_turn_id turn_ids) [
      | none ↦ err unknown_turn
      | some turn_index ↦
          refuse (ltb turn_index first) probes_out_of_order
          >> scan_probes turn_ids (probe.id ∷ probe_ids) turn_index probes
    ]

abbrev pub each :
    {A : Type 0}
    → (A → Result LongHorizonError (Unit {0}))
    → List A
    → Result LongHorizonError (Unit {0})
each f [] = ok tt
each f (x ∷ xs) = f x >> each f xs

-- `LongHorizonTurn(...)`
abbrev pub validated_turn : LongHorizonTurn → Result LongHorizonError (Unit {0})
validated_turn turn =
    refuse (not (leb (length turn.updates) 32)) wrong_length >> each validated_update turn.updates

-- `LongHorizonTask(...)`
unfoldable pub validated_task : LongHorizonTask → Result LongHorizonError (Unit {0})
validated_task task = do
  refuse (not (within 1 128 (length task.constraint_keys))) wrong_length
  refuse (not (all_unique task.constraint_keys)) repeated_key
  refuse (not (within 1 1000 (length task.turns))) wrong_length
  each validated_turn task.turns
  refuse (not (within 1 1000 (length task.probes))) wrong_length
  scan ←
      scan_turns task.constraint_keys 0 (record { turn_ids = []; update_ids = []; active = [] })
        task.turns
  scan_probes scan.turn_ids [] 0 task.probes

-- `LongHorizonCorpus(...)`
unfoldable pub validated_corpus : LongHorizonCorpus → Result LongHorizonError LongHorizonCorpus
validated_corpus corpus = do
  refuse (not (within 1 1000 (length corpus.tasks))) wrong_length
  each validated_task corpus.tasks
  refuse (not (all_unique (map (λ task. task.id) corpus.tasks))) repeated_task
  ok corpus
