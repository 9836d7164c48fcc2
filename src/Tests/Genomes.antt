-- ===== src/Tests/Genomes.antt =====
-- A genome of two patches and the capsule that it is for.
use e2h.Prelude.{
  ℕ, ◌≡◌, refl, false, String, Option, none, some, List, [], ◌∷◌, map, any, pos, text_eq, number_eq,
}
use e2h.Result.{err}
use e2h.Genome.Capsule.{Network, Check, Capsule}
use e2h.Genome.Patches.{
  Patch, goal_set, check_set, env_set, HarnessGenome, GenomeApplication, wrong_base, apply_patches,
  apply_genome, find_check, patches_must_be_unambiguous,
}
use e2h.Genome.Applied.{touches, apply_patches-frame}
use e2h.Genome.Once.{apply_genome-once}
use e2h.Genome.Kept.{AllHold, apply_patches-AllHold}

abbrev build_check : Check ℕ
build_check = record {
  id = "build";
  argv = "make" ∷ [];
  description = none;
  cwd = ".";
  env = ("CC", "gcc") ∷ [];
  timeout_seconds = none;
  expected_exit_codes = pos 0 ∷ [];
  continue_on_failure = false;
}

abbrev base : Capsule ℕ (Unit {0})
base = record {
  goal = "build it";
  network = Network.deny;
  default_timeout_seconds = 60;
  max_output_chars = 1000;
  commands = build_check ∷ [];
  rest = tt;
}

abbrev with_clang : Check ℕ
with_clang = record build_check { env = ("CC", "clang") ∷ [] }

abbrev changed : Capsule ℕ (Unit {0})
changed = record base { goal = "build it fast"; commands = with_clang ∷ [] }

abbrev two_patches : List (Patch ℕ)
two_patches =
    record { id = "p1"; change = goal_set "build it fast" }
    ∷ (record { id = "p2"; change = check_set "build" (env_set "CC" "clang") } ∷ [])

abbrev sample_genome : HarnessGenome ℕ
sample_genome = record { id = "g"; base_capsule_sha256 = "build it"; patches = two_patches }

apply_patches-frame_example :
    (map (λ c. c.id) changed.commands ≡ map (λ c. c.id) base.commands)
    × ((j : String)
        → any (λ patch. touches j patch.change) two_patches ≡ false
        → find_check j changed.commands ≡ find_check j base.commands)
unfolding apply_patches
apply_patches-frame_example = apply_patches-frame base changed two_patches refl

apply_patches-AllHold_example : AllHold two_patches changed
unfolding patches_must_be_unambiguous apply_patches
apply_patches-AllHold_example = apply_patches-AllHold sample_genome base changed refl refl

-- The goal stands for the digest.
abbrev goal_digest : Capsule ℕ (Unit {0}) → String
goal_digest capsule = capsule.goal

abbrev genome_digest : HarnessGenome ℕ → String
genome_digest genome = genome.id

abbrev accepts_all : Capsule ℕ (Unit {0}) → Option (Capsule ℕ (Unit {0}))
accepts_all capsule = some capsule

abbrev application : GenomeApplication ℕ (Unit {0})
application = record {
  genome_id = "g";
  genome_sha256 = "g";
  base_capsule_sha256 = "build it";
  result_capsule_sha256 = "build it fast";
  applied_patch_ids = "p1" ∷ ("p2" ∷ []);
  capsule = changed;
}

apply_genome-once_example :
    apply_genome goal_digest genome_digest accepts_all sample_genome changed ≡ err wrong_base
unfolding apply_genome
apply_genome-once_example =
    apply_genome-once goal_digest genome_digest accepts_all sample_genome base application refl refl
