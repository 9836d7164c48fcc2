-- ===== src/Genome/Targets.antt =====
-- What a patch of a check in src/e2h/genome.py asks of it, and what other patches keep of that.
use e2h.Prelude.{
  ◌≡◌, ◌≢◌, ◌∙◌, refl, ap, false, String, none, some, ◌==◌, ==-refl, text_eq, number_eq, Eq,
  Bool-cases, inl, inr, arith,
}
use Prim.Native.String.{◌++◌ as append_text}
use e2h.Result.{ok}
use e2h.Dict.{lookup, put, remove}
use e2h.Dict.Lookup.{lookup-put, lookup-remove}
use e2h.Genome.Capsule.{Check}
use e2h.Genome.Patches.{
  CheckChange, argv_set, cwd_set, env_set, env_remove, timeout_set, expected_exit_codes_set,
  continue_on_failure_set, check_target, apply_to_check, network_eq,
}

-- What a patch asks of a check
abbrev pub HasChange : {F : Type 0} → CheckChange F → Check F → Type 0
HasChange (argv_set argv) check = check.argv ≡ argv
HasChange (cwd_set cwd) check = check.cwd ≡ cwd
HasChange (env_set name value) check = lookup name check.env ≡ some value
HasChange (env_remove name) check = lookup name check.env ≡ none
HasChange (timeout_set seconds) check = check.timeout_seconds ≡ seconds
HasChange (expected_exit_codes_set codes) check = check.expected_exit_codes ≡ codes
HasChange (continue_on_failure_set keep_on) check = check.continue_on_failure ≡ keep_on

-- The fields of a check after an accepted patch
unfoldable pub effect : {F : Type 0} → CheckChange F → Check F → Check F
effect (argv_set argv) check = record check { argv = argv }
effect (cwd_set cwd) check = record check { cwd = cwd }
effect (env_set name value) check = record check { env = put name value check.env }
effect (env_remove name) check = record check { env = remove name check.env }
effect (timeout_set seconds) check = record check { timeout_seconds = seconds }
effect (expected_exit_codes_set codes) check = record check { expected_exit_codes = codes }
effect (continue_on_failure_set keep_on) check = record check { continue_on_failure = keep_on }

pub effect-HasChange :
    {F : Type 0} (change : CheckChange F) (check : Check F) → HasChange change (effect change check)
unfolding effect
effect-HasChange (env_set name value) check =
    lookup-put name name value check.env ∙ ground (arith, ==-refl name)
effect-HasChange (env_remove name) check =
    lookup-remove name name check.env ∙ ground (arith, ==-refl name)
effect-HasChange change check = refl

other_name :
    (name other : String)
    → append_text "env:" name ≢ append_text "env:" other
    → (name == other) ≡ false
other_name name other d = elim (Bool-cases (name == other)) [
  | inr differ ↦ differ
  | inl same ↦
      let equal : name ≡ other = ground (arith, same, text_eq.equal_iff name other) in
      absurd (d (ap (append_text "env:") equal))
]

-- A patch with another target keeps what an earlier one asks.
pub effect-keeps :
    {F : Type 0} (change kept : CheckChange F) (check : Check F)
    → check_target change ≢ check_target kept
    → HasChange kept check
    → HasChange kept (effect change check)
unfolding effect check_target
effect-keeps (argv_set a) (argv_set b) check d h = absurd (d refl)
effect-keeps (argv_set a) kept check d h = h
effect-keeps (cwd_set a) (cwd_set b) check d h = absurd (d refl)
effect-keeps (cwd_set a) kept check d h = h
effect-keeps (env_set n v) (env_set m w) check d h =
    lookup-put n m v check.env ∙ ground (arith, other_name n m d, h)
effect-keeps (env_set n v) (env_remove m) check d h =
    lookup-put n m v check.env ∙ ground (arith, other_name n m d, h)
effect-keeps (env_set n v) kept check d h = h
effect-keeps (env_remove n) (env_set m w) check d h =
    lookup-remove n m check.env ∙ ground (arith, other_name n m d, h)
effect-keeps (env_remove n) (env_remove m) check d h =
    lookup-remove n m check.env ∙ ground (arith, other_name n m d, h)
effect-keeps (env_remove n) kept check d h = h
effect-keeps (timeout_set a) (timeout_set b) check d h = absurd (d refl)
effect-keeps (timeout_set a) kept check d h = h
effect-keeps (expected_exit_codes_set a) (expected_exit_codes_set b) check d h = absurd (d refl)
effect-keeps (expected_exit_codes_set a) kept check d h = h
effect-keeps (continue_on_failure_set a) (continue_on_failure_set b) check d h = absurd (d refl)
effect-keeps (continue_on_failure_set a) kept check d h = h

module _ {F : Type 0} ⦃e : Eq F⦄ where
  pub apply_to_check-effect :
      (patch_id : String) (change : CheckChange F) (check new : Check F)
      → apply_to_check patch_id change check ≡ ok new
      → effect change check ≡ new
  unfolding apply_to_check effect
  apply_to_check-effect patch_id (argv_set argv) check new h = ground (arith, h)
  apply_to_check-effect patch_id (cwd_set cwd) check new h = ground (arith, h)
  apply_to_check-effect patch_id (env_set name value) check new h = ground (arith, h)
  apply_to_check-effect patch_id (env_remove name) check new h = ground (arith, h)
  apply_to_check-effect patch_id (timeout_set seconds) check new h = ground (arith, h)
  apply_to_check-effect patch_id (expected_exit_codes_set codes) check new h = ground (arith, h)
  apply_to_check-effect patch_id (continue_on_failure_set keep_on) check new h = ground (arith, h)
