-- ===== src/LongHorizon/Replay/Facts.antt =====
-- What the validators of src/e2h/long_horizon.py guarantee about a task.
use e2h.Prelude.{
  ℕ, suc, ◌≤◌, ◌≡◌, ◌∙◌, ap, sym, refl, true, false, not, ◌&&◌, String, some, List, [], ◌∷◌, map,
  all, ◌==◌, ==-refl, text_eq, contains, all_unique, all_unique-cons, length, Option-cases, inl,
  inr, arith, if◌then◌else◌,
}
use e2h.Result.{ok, Result-cases}
use e2h.Dict.{Dict, lookup, put}
use e2h.Dict.Lookup.{lookup-put}
use e2h.LongHorizon.{
  ConstraintUpdate, LongHorizonTurn, LongHorizonProbe, LongHorizonTask, validated_turn,
  validated_task, each, Scan, is_none, transition, scan_update, scan_updates, scan_turns,
  scan_probes,
}

-- The task has a state after every turn, and each probe is made after one turn of it.
pub record Facts (task : LongHorizonTask) : Type 0 where
  pub values : each validated_turn task.turns ≡ ok tt
  pub distinct_keys : all_unique task.constraint_keys ≡ true
  pub distinct_turns : all_unique (map (λ t. t.id) task.turns) ≡ true
  pub distinct_probes : all_unique (map (λ p. p.id) task.probes) ≡ true
  pub probes_known :
      all (λ p. contains p.after_turn_id (map (λ t. t.id) task.turns)) task.probes ≡ true
  pub some_probe : 1 ≤ length task.probes

scan_update-turn_ids :
    (keys : List String) (scan scan' : Scan) (update : ConstraintUpdate)
    → scan_update keys scan update ≡ ok scan'
    → scan'.turn_ids ≡ scan.turn_ids
unfolding scan_update
scan_update-turn_ids keys scan scan' update h =
    elim (Result-cases
      (transition (lookup update.key scan.active) update.action update scan.active)) [
        | inr (problem, refused) ↦ absurd (ground (arith, h, refused))
        | inl (active, made) ↦ ground (arith, h, made)
      ]

scan_updates-turn_ids :
    (keys : List String) (scan scan' : Scan) (updates : List ConstraintUpdate)
    → scan_updates keys scan updates ≡ ok scan'
    → scan'.turn_ids ≡ scan.turn_ids
unfolding scan_updates
scan_updates-turn_ids keys scan scan' [] h = ground (arith, h)
scan_updates-turn_ids keys scan scan' (update ∷ updates) h =
    elim (Result-cases (scan_update keys scan update)) [
      | inr (problem, refused) ↦ absurd (ground (arith, h, refused))
      | inl (next, made) ↦
          scan_updates-turn_ids keys next scan' updates (ground (arith, h, made))
          ∙ scan_update-turn_ids keys scan next update made
    ]

-- The turns that the scan knows at its end are those it knew and those it has read, and it has
-- read none twice.
scan_turns-known :
    (keys : List String) (n : ℕ) (scan scan' : Scan) (turns : List LongHorizonTurn)
    → scan_turns keys n scan turns ≡ ok scan'
    → (all_unique (map (λ t. t.id) turns) ≡ true)
      × ((id : String)
          → is_none (lookup id scan'.turn_ids)
            ≡ (is_none (lookup id scan.turn_ids) && not (contains id (map (λ t. t.id) turns))))
      × ((id : String)
          → contains id (map (λ t. t.id) turns) ≡ true
          → is_none (lookup id scan.turn_ids) ≡ true)
unfolding scan_turns
scan_turns-known keys n scan scan' [] h =
    let same : scan ≡ scan' = ground (arith, h) in
    (
      refl,
      λ id. ap (λ s. is_none (lookup id s.turn_ids)) (sym same) ∙ ground arith,
      λ id found. absurd (ground (arith, found)),
    )
scan_turns-known keys n scan scan' (turn ∷ turns) h =
    let started = record scan { turn_ids = put turn.id n scan.turn_ids } in
    elim (Result-cases (scan_updates keys started turn.updates)) [
      | inr (problem, refused) ↦ absurd (ground (arith, h, refused))
      | inl (next, made) ↦
          let (unique, known, fresh) =
            scan_turns-known keys (suc n) next scan' turns (ground (arith, h, made)) in
          let ids : next.turn_ids ≡ put turn.id n scan.turn_ids =
            scan_updates-turn_ids keys started next turn.updates made in
          let at : (id : String)
              → lookup id next.turn_ids
                ≡ (if turn.id == id then some n else lookup id scan.turn_ids) =
            λ id. ap (lookup id) ids ∙ lookup-put turn.id id n scan.turn_ids in
          let new : is_none (lookup turn.id scan.turn_ids) ≡ true = ground (arith, h) in
          (
            ground (
              arith,
              unique,
              fresh turn.id,
              at turn.id,
              ==-refl turn.id,
              all_unique-cons turn.id (map (λ t. t.id) turns),
            ),
            λ id. ground (arith, known id, at id, text_eq.equal_iff turn.id id, new),
            λ id found. ground (arith, found, fresh id, at id, text_eq.equal_iff turn.id id, new),
          )
    ]

scan_probes-known :
    (turn_ids : Dict ℕ) (probe_ids : List String) (first : ℕ) (probes : List LongHorizonProbe)
    → scan_probes turn_ids probe_ids first probes ≡ ok tt
    → (all_unique (map (λ p. p.id) probes) ≡ true)
      × (all (λ p. not (is_none (lookup p.after_turn_id turn_ids))) probes ≡ true)
      × ((id : String)
          → contains id (map (λ p. p.id) probes) ≡ true
          → contains id probe_ids ≡ false)
unfolding scan_probes
scan_probes-known turn_ids probe_ids first [] h =
    (refl, refl, λ id found. absurd (ground (arith, found)))
scan_probes-known turn_ids probe_ids first (probe ∷ probes) h =
    elim (Option-cases (lookup probe.after_turn_id turn_ids)) [
      | inl missing ↦ absurd (ground (arith, h, missing))
      | inr (n, found) ↦
          let (unique, known, fresh) =
            scan_probes-known turn_ids (probe.id ∷ probe_ids) n probes (ground (arith, h, found)) in
          let new : contains probe.id probe_ids ≡ false = ground (arith, h) in
          (
            ground (
              arith,
              unique,
              fresh probe.id,
              ==-refl probe.id,
              all_unique-cons probe.id (map (λ p. p.id) probes),
            ),
            ground (arith, found, known),
            λ id here. ground (arith, here, fresh id, new, text_eq.equal_iff probe.id id),
          )
    ]

-- Known turns of the scan are turns of the list.
all-known :
    (ids : List String) (turn_ids : Dict ℕ) (probes : List LongHorizonProbe)
    → ((id : String) → is_none (lookup id turn_ids) ≡ not (contains id ids))
    → all (λ p. not (is_none (lookup p.after_turn_id turn_ids))) probes ≡ true
    → all (λ p. contains p.after_turn_id ids) probes ≡ true
all-known ids turn_ids [] same h = refl
all-known ids turn_ids (p ∷ probes) same h =
    ground (arith, same p.after_turn_id, h, all-known ids turn_ids probes same (ground (arith, h)))

pub task-Facts : (task : LongHorizonTask) → validated_task task ≡ ok tt → Facts task
unfolding validated_task lookup
task-Facts task h =
    let start : Scan = record { turn_ids = []; update_ids = []; active = [] } in
    elim (Result-cases (each validated_turn task.turns)) [
      | inr (problem, refused) ↦ absurd (ground (arith, h, refused))
      | inl (done, valid) ↦
          elim (Result-cases (scan_turns task.constraint_keys 0 start task.turns)) [
            | inr (problem, refused) ↦ absurd (ground (arith, h, valid, refused))
            | inl (scan, scanned) ↦
                let (unique, known, fresh) =
                  scan_turns-known task.constraint_keys 0 start scan task.turns scanned in
                let (unique', known', fresh') =
                  scan_probes-known scan.turn_ids [] 0 task.probes
                    (ground (arith, h, valid, scanned)) in
                record {
                  values = valid;
                  distinct_keys = ground (arith, h);
                  distinct_turns = unique;
                  distinct_probes = unique';
                  probes_known =
                      all-known (map (λ t. t.id) task.turns) scan.turn_ids task.probes
                        (λ id. ground (arith, known id)) known';
                  some_probe = ground (arith, h);
                }
          ]
    ]
