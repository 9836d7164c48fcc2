-- ===== src/LongHorizon/Replay/Last.antt =====
-- The state of the replay: every constraint has the value of the last update of its key.
use e2h.Prelude.{
  ◌≡◌, ◌∙◌, refl, String, Option, none, some, List, [], ◌∷◌, ◌==◌, text_eq, Bool-cases,
  Option-cases, inl, inr, ◌⊎◌, arith, if◌then◌else◌,
}
use e2h.Result.{ok, Result-cases}
use e2h.Dict.{Dict, lookup, put, remove}
use e2h.Dict.Lookup.{lookup-put, lookup-remove, IsDict}
use e2h.LongHorizon.{ConstraintAction, set, revoke, ConstraintUpdate, validated_update, each}
use e2h.LongHorizon.Replay.{apply_update, apply_updates}

pub action-cases : (a : ConstraintAction) → (a ≡ set) ⊎ (a ≡ revoke)
action-cases set = inl refl
action-cases revoke = inr refl

-- The last of the updates of a key
unfoldable pub last_update : String → List ConstraintUpdate → Option ConstraintUpdate
last_update k [] = none
last_update k (update ∷ updates) = elim (last_update k updates) [
  | some later ↦ some later
  | none ↦ if update.key == k then some update else none
]

-- The value that the last update of a key sets, or the earlier one where no update has the key
abbrev pub last_value : String → Option String → List ConstraintUpdate → Option String
last_value k before updates = elim (last_update k updates) [
  | some update ↦ update.value
  | none ↦ before
]

pub put-IsDict : {V : Type 0} (k : String) (v : V) (d : Dict V) → IsDict d → IsDict (put k v d)
unfolding put lookup
put-IsDict k v [] h = (refl, tt)
put-IsDict k v ((j, w) ∷ d) h = elim (Bool-cases (j == k)) [
  | inl same ↦ rw same h
  | inr other ↦ rw other (
    lookup-put k j v d ∙ ground (arith, h.0, other, text_eq.equal_iff j k, text_eq.equal_iff k j),
    put-IsDict k v d h.1,
  )
]

pub remove-IsDict : {V : Type 0} (k : String) (d : Dict V) → IsDict d → IsDict (remove k d)
unfolding remove lookup
remove-IsDict k [] h = tt
remove-IsDict k ((j, w) ∷ d) h = elim (Bool-cases (j == k)) [
  | inl same ↦ rw same (remove-IsDict k d h.1)
  | inr other ↦ rw other (
    lookup-remove k j d ∙ ground (arith, h.0, other, text_eq.equal_iff j k, text_eq.equal_iff k j),
    remove-IsDict k d h.1,
  )
]

update-set :
    (update : ConstraintUpdate)
    → validated_update update ≡ ok tt
    → update.action ≡ set
    → (value : String) × (update.value ≡ some value)
unfolding validated_update
update-set update h is = elim (Option-cases update.value) [
  | inr found ↦ found
  | inl missing ↦ absurd (ground (arith, h, is, missing))
]

update-revoke :
    (update : ConstraintUpdate)
    → validated_update update ≡ ok tt
    → update.action ≡ revoke
    → update.value ≡ none
unfolding validated_update
update-revoke update h is = elim (Option-cases update.value) [
  | inl missing ↦ missing
  | inr (value, found) ↦ absurd (ground (arith, h, is, found))
]

-- A valid update leaves its own value at its key, and every other key as it is.
apply_update-lookup :
    (state : Dict String) (update : ConstraintUpdate)
    → validated_update update ≡ ok tt
    → IsDict state
    → (next : Dict String) × (apply_update state update ≡ ok next)
      × IsDict next
      × ((k : String) → lookup k next ≡ (if update.key == k then update.value else lookup k state))
unfolding apply_update
apply_update-lookup state update h d = elim (action-cases update.action) [
  | inl is ↦
      let (value, found) = update-set update h is in
      (
        put update.key value state,
        rw (is, found) refl,
        put-IsDict update.key value state d,
        λ k. rw found (lookup-put update.key k value state),
      )
  | inr is ↦ (
    remove update.key state,
    rw is refl,
    remove-IsDict update.key state d,
    λ k. rw (update-revoke update h is) (lookup-remove update.key k state),
  )
]

last-step :
    (k : String) (update : ConstraintUpdate) (updates : List ConstraintUpdate)
    (before middle : Option String)
    → middle ≡ (if update.key == k then update.value else before)
    → last_value k middle updates ≡ last_value k before (update ∷ updates)
unfolding last_update
last-step k update updates before middle h = elim (Option-cases (last_update k updates)) [
  | inr (later, found) ↦ ground (arith, found)
  | inl none_later ↦ elim (Bool-cases (update.key == k)) [
    | inl here ↦ ground (arith, none_later, h, here)
    | inr other ↦ ground (arith, none_later, h, other)
  ]
]

-- Valid updates are applied without failing, and every key then has the value of its last update.
pub apply_updates-last :
    (state : Dict String) (updates : List ConstraintUpdate)
    → each validated_update updates ≡ ok tt
    → IsDict state
    → (next : Dict String) × (apply_updates state updates ≡ ok next)
      × IsDict next
      × ((k : String) → lookup k next ≡ last_value k (lookup k state) updates)
unfolding apply_updates last_update
apply_updates-last state [] h d = (state, refl, d, λ k. refl)
apply_updates-last state (update ∷ updates) h d = elim (Result-cases (validated_update update)) [
  | inr (problem, refused) ↦ absurd (ground (arith, h, refused))
  | inl (done, valid) ↦
      let (middle, applied, d', at) = apply_update-lookup state update valid d in
      let (next, rest, d'', at') =
        apply_updates-last middle updates (ground (arith, h, valid)) d' in
      (
        next,
        rw applied rest,
        d'',
        λ k. at' k ∙ last-step k update updates (lookup k state) (lookup k middle) (at k),
      )
]
