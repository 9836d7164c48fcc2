-- ===== src/Genome/Patches.antt =====
-- The patches of src/e2h/genome.py, their targets and their application.
use Prim.Native.String.{◌++◌ as append_text}
use e2h.Prelude.{
  ℕ, Bool, true, false, not, ◌&&◌, ◌||◌, String, Option, none, some, List, [], ◌∷◌, map, all, ◌==◌,
  text_eq, number_eq, Eq, eq_of, all_unique, ℤ, pos, negsuc, if◌then◌else◌,
}
use e2h.Result.{Result, ok, err, refuse, ◌>>=◌, ◌>>◌}
use e2h.Dict.{lookup, put, remove}
use e2h.Genome.Capsule.{Network, Network-discrete, Check, Capsule}

instance abbrev pub network_eq : Eq Network
network_eq = eq_of Network-discrete

-- What a patch does, with the fields of its class; all but five name a check.
pub data CheckChange (F : Type 0) : Type 0 where
  argv_set : List String → CheckChange F
  cwd_set : String → CheckChange F
  env_set : (name value : String) → CheckChange F
  env_remove : (name : String) → CheckChange F
  timeout_set : Option F → CheckChange F
  expected_exit_codes_set : List ℤ → CheckChange F
  continue_on_failure_set : Bool → CheckChange F

pub data Change (F : Type 0) : Type 0 where
  goal_set : String → Change F
  network_set : Network → Change F
  default_timeout_set : F → Change F
  max_output_chars_set : ℕ → Change F
  check_set : (check_id : String) → CheckChange F → Change F

pub record Patch (F : Type 0) : Type 0 where
  pub id : String
  pub change : Change F

pub data GenomeError : Type 0 where
  unknown_check no_op : (id : String) → GenomeError
  cannot_remove : (id : String) → GenomeError
  wrong_base repeated_patch_id repeated_target : GenomeError
  bad_base bad_result : GenomeError
  unchanged : GenomeError

-- The end of `target_key` for a patch of a check.
unfoldable pub check_target : {F : Type 0} → CheckChange F → String
check_target (argv_set argv) = "argv"
check_target (cwd_set cwd) = "cwd"
check_target (env_set name value) = append_text "env:" name
check_target (env_remove name) = append_text "env:" name
check_target (timeout_set seconds) = "timeout_seconds"
check_target (expected_exit_codes_set codes) = "expected_exit_codes"
check_target (continue_on_failure_set keep_on) = "continue_on_failure"

-- `target_key`
unfoldable pub target_key : {F : Type 0} → Change F → String
unfolding check_target
target_key (goal_set goal) = "goal"
target_key (network_set network) = "allowed_actions.network"
target_key (default_timeout_set seconds) = "limits.default_timeout_seconds"
target_key (max_output_chars_set n) = "limits.max_output_chars"
target_key (check_set check_id change) =
    append_text "check:" (append_text check_id (append_text ":" (check_target change)))

-- `_find_check`
unfoldable pub find_check : {F : Type 0} → String → List (Check F) → Option (Check F)
find_check check_id [] = none
find_check check_id (check ∷ checks) =
    if check.id == check_id then some check else find_check check_id checks

-- The object that `_find_check` returns is changed in its place in the list.
unfoldable pub replace_check : {F : Type 0} → String → Check F → List (Check F) → List (Check F)
replace_check check_id new [] = []
replace_check check_id new (check ∷ checks) =
    if check.id == check_id then new ∷ checks else check ∷ replace_check check_id new checks

same_texts : List String → List String → Bool
same_texts [] [] = true
same_texts (s ∷ ss) (t ∷ ts) = s == t && same_texts ss ts
same_texts _ _ = false

abbrev int_equal : ℤ → ℤ → Bool
int_equal (pos m) (pos n) = m == n
int_equal (negsuc m) (negsuc n) = m == n
int_equal _ _ = false

int_in : ℤ → List ℤ → Bool
int_in c [] = false
int_in c (d ∷ codes) = int_equal d c || int_in c codes

-- `==` on two sets
same_codes : List ℤ → List ℤ → Bool
same_codes a b = all (λ c. int_in c b) a && all (λ c. int_in c a) b

abbrev holds_text : Option String → String → Bool
holds_text none value = false
holds_text (some before) value = before == value

module _ {F : Type 0} ⦃e : Eq F⦄ where
  abbrev same_timeout : Option F → Option F → Bool
  same_timeout none none = true
  same_timeout (some a) (some b) = a == b
  same_timeout _ _ = false

  -- The branches of `_apply_patch` that change a check; `patch_id` is for the message.
  unfoldable pub apply_to_check :
      (patch_id : String) → CheckChange F → Check F → Result GenomeError (Check F)
  unfolding same_texts same_codes int_in lookup put remove
  apply_to_check patch_id (argv_set argv) check = do
    refuse (same_texts check.argv argv) (no_op patch_id)
    ok (record check { argv = argv })
  apply_to_check patch_id (cwd_set cwd) check = do
    refuse (check.cwd == cwd) (no_op patch_id)
    ok (record check { cwd = cwd })
  apply_to_check patch_id (env_set name value) check = do
    refuse (holds_text (lookup name check.env) value) (no_op patch_id)
    ok (record check { env = put name value check.env })
  apply_to_check patch_id (env_remove name) check = elim (lookup name check.env) [
    | none ↦ err (cannot_remove patch_id)
    | some value ↦ ok (record check { env = remove name check.env })
  ]
  apply_to_check patch_id (timeout_set seconds) check = do
    refuse (same_timeout check.timeout_seconds seconds) (no_op patch_id)
    ok (record check { timeout_seconds = seconds })
  apply_to_check patch_id (expected_exit_codes_set codes) check = do
    refuse (same_codes check.expected_exit_codes codes) (no_op patch_id)
    ok (record check { expected_exit_codes = codes })
  apply_to_check patch_id (continue_on_failure_set keep_on) check = do
    refuse (if check.continue_on_failure then keep_on else not keep_on) (no_op patch_id)
    ok (record check { continue_on_failure = keep_on })

module _ {F R : Type 0} ⦃e : Eq F⦄ where
  -- `_apply_patch`
  unfoldable pub apply_patch : Capsule F R → Patch F → Result GenomeError (Capsule F R)
  unfolding find_check replace_check apply_to_check
  apply_patch capsule patch = elim patch.change [
    | goal_set goal ↦
        refuse (capsule.goal == goal) (no_op patch.id) >> ok (record capsule { goal = goal })
    | network_set network ↦
        refuse (capsule.network == network) (no_op patch.id)
        >> ok (record capsule { network = network })
    | default_timeout_set seconds ↦
        refuse (capsule.default_timeout_seconds == seconds) (no_op patch.id)
        >> ok (record capsule { default_timeout_seconds = seconds })
    | max_output_chars_set n ↦
        refuse (capsule.max_output_chars == n) (no_op patch.id)
        >> ok (record capsule { max_output_chars = n })
    | check_set check_id change ↦ elim (find_check check_id capsule.commands) [
      | none ↦ err (unknown_check check_id)
      | some check ↦ apply_to_check patch.id change check >>= λ new.
          ok (record capsule { commands = replace_check check_id new capsule.commands })
    ]
  ]

  -- The loop over `genome.patches`
  unfoldable pub apply_patches : Capsule F R → List (Patch F) → Result GenomeError (Capsule F R)
  unfolding apply_patch
  apply_patches capsule [] = ok capsule
  apply_patches capsule (patch ∷ patches) =
      apply_patch capsule patch >>= λ next. apply_patches next patches

-- `HarnessGenome`; its metadata is not modelled.
pub record HarnessGenome (F : Type 0) : Type 0 where
  pub id : String
  pub base_capsule_sha256 : String
  pub patches : List (Patch F)

-- `patches_must_be_unambiguous`, up to the size of the metadata.
unfoldable pub patches_must_be_unambiguous :
    {F : Type 0} → HarnessGenome F → Result GenomeError (Unit {0})
unfolding target_key
patches_must_be_unambiguous genome = do
  refuse (not (all_unique (map (λ patch. patch.id) genome.patches))) repeated_patch_id
  refuse (not (all_unique (map (λ patch. target_key patch.change) genome.patches))) repeated_target

pub record GenomeApplication (F R : Type 0) : Type 0 where
  pub genome_id : String
  pub genome_sha256 : String
  pub base_capsule_sha256 : String
  pub result_capsule_sha256 : String
  pub applied_patch_ids : List String
  pub capsule : Capsule F R

-- The digests are those of `hashlib` over canonical JSON; `validate` is the validation of a capsule
-- by its schema, which is made of the capsule that is given and again of the patched one.
module _ {F R : Type 0} ⦃e : Eq F⦄ (capsule_sha256 : Capsule F R → String)
    (genome_sha256 : HarnessGenome F → String) (validate : Capsule F R → Option (Capsule F R)) where
  -- `result_digest_must_match_capsule`
  unfoldable pub validated_application :
      GenomeApplication F R → Result GenomeError (GenomeApplication F R)
  validated_application a = do
    refuse (not (capsule_sha256 a.capsule == a.result_capsule_sha256)) bad_result
    refuse (a.base_capsule_sha256 == a.result_capsule_sha256) unchanged
    refuse (not (all_unique a.applied_patch_ids)) repeated_patch_id
    ok a

  -- `apply_genome`
  unfoldable pub apply_genome :
      HarnessGenome F → Capsule F R → Result GenomeError (GenomeApplication F R)
  unfolding patches_must_be_unambiguous apply_patches validated_application
  apply_genome genome capsule = do
    patches_must_be_unambiguous genome
    base ← elim (validate capsule) [ none ↦ err bad_base | some same ↦ ok same ]
    refuse (not (genome.base_capsule_sha256 == capsule_sha256 base)) wrong_base
    updated ← apply_patches base genome.patches
    validated ← elim (validate updated) [ none ↦ err bad_result | some new ↦ ok new ]
    validated_application (record {
      genome_id = genome.id;
      genome_sha256 = genome_sha256 genome;
      base_capsule_sha256 = capsule_sha256 base;
      result_capsule_sha256 = capsule_sha256 validated;
      applied_patch_ids = map (λ patch. patch.id) genome.patches;
      capsule = validated;
    })
