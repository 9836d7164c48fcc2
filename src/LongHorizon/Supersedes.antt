-- ===== src/LongHorizon/Supersedes.antt =====
-- What `state_transitions_and_probes_must_be_valid` of src/e2h/long_horizon.py accepts, said of the
-- updates of the dialogue alone: how each of them follows the earlier ones.
use e2h.Prelude.{
  ℕ, suc, ◌≡◌, ◌∙◌, ap, sym, refl, true, false, String, Option, none, some, List, [], ◌∷◌, ◌++◌,
  map, ◌==◌, text_eq, contains, append-nil, append_assoc, Bool-cases, inl, inr, arith, subst,
  if◌then◌else◌,
}
use e2h.Result.{ok, Result-cases}
use e2h.Dict.{Dict, lookup, put, remove}
use e2h.Dict.Lookup.{lookup-put, lookup-remove}
use e2h.LongHorizon.{
  ConstraintAction, set, revoke, ConstraintUpdate, LongHorizonTurn, LongHorizonTask, Scan, names,
  is_none, each, validated_turn, transition, scan_update, scan_updates, scan_turns, validated_task,
}
use e2h.LongHorizon.Replay.Last.{last_update}
use e2h.LongHorizon.Replay.Expected.{last_update-append}

abbrev effect : ConstraintAction → ConstraintUpdate → Option ConstraintUpdate
effect set update = some update
effect revoke update = none

-- The last update of a key, where it sets the constraint
abbrev pub open_update : String → List ConstraintUpdate → Option ConstraintUpdate
open_update k updates = elim (last_update k updates) [
  | none ↦ none
  | some update ↦ effect update.action update
]

-- A constraint that is not open is set, and nothing is superseded; the update of an open one
-- supersedes the update that opened it.
abbrev pub Supersedes : Option ConstraintUpdate → ConstraintUpdate → Type 0
Supersedes none update = (update.action ≡ set) × (update.supersedes ≡ none)
Supersedes (some current) update = update.supersedes ≡ some current.id

-- How an update follows the earlier ones, given the declared keys
pub record Follows (keys : List String) (earlier : List ConstraintUpdate)
    (update : ConstraintUpdate) : Type 0 where
  pub has_new_id : contains update.id (map (λ u. u.id) earlier) ≡ false
  pub has_declared_key : contains update.key keys ≡ true
  pub supersedes_current : Supersedes (open_update update.key earlier) update

abbrev pub AllFollow : List String → List ConstraintUpdate → List ConstraintUpdate → Type 0
AllFollow keys earlier [] = Unit
AllFollow keys earlier (update ∷ updates) =
    Follows keys earlier update × AllFollow keys (earlier ++ (update ∷ [])) updates

abbrev pub updates_of : List LongHorizonTurn → List ConstraintUpdate
updates_of [] = []
updates_of (turn ∷ turns) = turn.updates ++ updates_of turns

AllFollow-append :
    (keys : List String) (earlier us vs : List ConstraintUpdate)
    → AllFollow keys earlier us
    → AllFollow keys (earlier ++ us) vs
    → AllFollow keys earlier (us ++ vs)
AllFollow-append keys earlier [] vs h k = subst (λ l. AllFollow keys l vs) (append-nil earlier) k
AllFollow-append keys earlier (u ∷ us) vs (here, h) k = (
  here,
  AllFollow-append keys (earlier ++ (u ∷ [])) us vs h
      (subst (λ l. AllFollow keys l vs) (sym (append_assoc earlier (u ∷ []) us)) k),
)

names-equal : (o : Option String) (id : String) → names o id ≡ true → o ≡ some id
names-equal none id h = absurd (ground (arith, h))
names-equal (some other) id h = ground (arith, h, text_eq.equal_iff other id)

is_none-equal : {A : Type 0} (o : Option A) → is_none o ≡ true → o ≡ none
is_none-equal none h = refl
is_none-equal (some a) h = absurd (ground (arith, h))

-- A change of the active constraints: what it supersedes, and what it leaves at every key.
transition-Supersedes :
    (current : Option ConstraintUpdate) (action : ConstraintAction) (update : ConstraintUpdate)
    (active next : Dict ConstraintUpdate)
    → update.action ≡ action
    → transition current action update active ≡ ok next
    → Supersedes current update
      × ((k : String)
          → lookup k next ≡ (if update.key == k then effect action update else lookup k active))
unfolding transition
transition-Supersedes none set update active next is h =
    let made : put update.key update active ≡ next = ground (arith, h) in
    (
      (is, is_none-equal update.supersedes (ground (arith, h))),
      λ k. ap (lookup k) (sym made) ∙ lookup-put update.key k update active,
    )
transition-Supersedes (some current) set update active next is h =
    let made : put update.key update active ≡ next = ground (arith, h) in
    (
      names-equal update.supersedes current.id (ground (arith, h)),
      λ k. ap (lookup k) (sym made) ∙ lookup-put update.key k update active,
    )
transition-Supersedes none revoke update active next is h = absurd (ground (arith, h))
transition-Supersedes (some current) revoke update active next is h =
    let made : remove update.key active ≡ next = ground (arith, h) in
    (
      names-equal update.supersedes current.id (ground (arith, h)),
      λ k. ap (lookup k) (sym made) ∙ lookup-remove update.key k active,
    )

open_update-append :
    (k : String) (us : List ConstraintUpdate) (u : ConstraintUpdate)
    → open_update k (us ++ (u ∷ [])) ≡ (if u.key == k then effect u.action u else open_update k us)
unfolding last_update
open_update-append k us u = elim (Bool-cases (u.key == k)) [
  | inl here ↦ ground (arith, here, last_update-append k us (u ∷ []))
  | inr other ↦ ground (arith, other, last_update-append k us (u ∷ []))
]

contains_id-append :
    (id : String) (us : List ConstraintUpdate) (u : ConstraintUpdate)
    → contains id (map (λ v. v.id) (us ++ (u ∷ []))) ≡ contains id (u.id ∷ map (λ v. v.id) us)
contains_id-append id [] u = refl
contains_id-append id (v ∷ us) u = ground (arith, contains_id-append id us u)

-- The state of the validator is told by the updates that it has read.
record Tracks (scan : Scan) (earlier : List ConstraintUpdate) : Type 0 where
  known : (id : String) → contains id scan.update_ids ≡ contains id (map (λ u. u.id) earlier)
  current : (k : String) → lookup k scan.active ≡ open_update k earlier

module _ (keys : List String) where
  scan_update-Follows :
      (earlier : List ConstraintUpdate) (scan next : Scan) (update : ConstraintUpdate)
      → Tracks scan earlier
      → scan_update keys scan update ≡ ok next
      → Follows keys earlier update × Tracks next (earlier ++ (update ∷ []))
  unfolding scan_update
  scan_update-Follows earlier scan next update t h =
      elim (Result-cases
        (transition (lookup update.key scan.active) update.action update scan.active)) [
          | inr (problem, refused) ↦ absurd (ground (arith, h, refused))
          | inl (active, made) ↦
              let (supersedes, at) =
                transition-Supersedes _ update.action update scan.active active refl made in
              let ids : next.update_ids ≡ update.id ∷ scan.update_ids = ground (arith, h, made) in
              let now : next.active ≡ active = ground (arith, h, made) in
              (
                record {
                  has_new_id = ground (arith, h, t.known update.id);
                  has_declared_key = ground (arith, h);
                  supersedes_current =
                      subst (λ o. Supersedes o update) (t.current update.key) supersedes;
                },
                record {
                  known = λ id.
                      ap (contains id) ids
                      ∙ ground (arith, t.known id, contains_id-append id earlier update);
                  current = λ k.
                      ap (lookup k) now
                      ∙ at k
                      ∙ ground (arith, t.current k, open_update-append k earlier update);
                },
              )
        ]

  scan_updates-AllFollow :
      (earlier : List ConstraintUpdate) (scan next : Scan) (updates : List ConstraintUpdate)
      → Tracks scan earlier
      → scan_updates keys scan updates ≡ ok next
      → AllFollow keys earlier updates × Tracks next (earlier ++ updates)
  unfolding scan_updates
  scan_updates-AllFollow earlier scan next [] t h =
      let same : scan ≡ next = ground (arith, h) in
      let all_read : earlier ≡ earlier ++ [] = sym (append-nil earlier) in
      (tt, subst (Tracks next) all_read (subst (λ s. Tracks s earlier) same t))
  scan_updates-AllFollow earlier scan next (update ∷ updates) t h =
      elim (Result-cases (scan_update keys scan update)) [
        | inr (problem, refused) ↦ absurd (ground (arith, h, refused))
        | inl (middle, made) ↦
            let (here, t') = scan_update-Follows earlier scan middle update t made in
            let (later, t'') =
              scan_updates-AllFollow (earlier ++ (update ∷ [])) middle next updates t'
                (ground (arith, h, made)) in
            ((here, later), subst (Tracks next) (append_assoc earlier (update ∷ []) updates) t'')
      ]

  scan_turns-AllFollow :
      (n : ℕ) (earlier : List ConstraintUpdate) (scan next : Scan) (turns : List LongHorizonTurn)
      → Tracks scan earlier
      → scan_turns keys n scan turns ≡ ok next
      → AllFollow keys earlier (updates_of turns)
  unfolding scan_turns
  scan_turns-AllFollow n earlier scan next [] t h = tt
  scan_turns-AllFollow n earlier scan next (turn ∷ turns) t h =
      let started = record scan { turn_ids = put turn.id n scan.turn_ids } in
      elim (Result-cases (scan_updates keys started turn.updates)) [
        | inr (problem, refused) ↦ absurd (ground (arith, h, refused))
        | inl (middle, made) ↦
            let (here, t') =
              scan_updates-AllFollow earlier started middle turn.updates
                (record { known = t.known; current = t.current }) made in
            AllFollow-append keys earlier turn.updates (updates_of turns) here (
              scan_turns-AllFollow (suc n) (earlier ++ turn.updates) middle next turns t'
                (ground (arith, h, made)))
      ]

-- In a task that the validator accepts, every update of the dialogue has an id that no earlier one
-- has and a declared key; it sets a constraint that is not open and supersedes nothing, or it
-- supersedes the last update of its key, where that one has set it. What is open is told by the
-- last update of each key, over all the turns.
pub validated_task-AllFollow :
    (task : LongHorizonTask)
    → validated_task task ≡ ok tt
    → AllFollow task.constraint_keys [] (updates_of task.turns)
unfolding validated_task lookup last_update
validated_task-AllFollow task h =
    let start : Scan = record { turn_ids = []; update_ids = []; active = [] } in
    elim (Result-cases (each validated_turn task.turns)) [
      | inr (problem, refused) ↦ absurd (ground (arith, h, refused))
      | inl (done, valid) ↦
          elim (Result-cases (scan_turns task.constraint_keys 0 start task.turns)) [
            | inr (problem, refused) ↦ absurd (ground (arith, h, valid, refused))
            | inl (scan, scanned) ↦
                scan_turns-AllFollow task.constraint_keys 0 [] start scan task.turns
                  (record { known = λ id. refl; current = λ k. refl }) scanned
          ]
    ]
