-- ===== src/Genome/Capsule.antt =====
-- The part of a task capsule of src/e2h/models.py that the patches of src/e2h/genome.py change.
use e2h.Prelude.{ℕ, Bool, String, Option, List, ℤ}
use e2h.Dict.{Dict}

pub data Network : Type 0 where
  deny allow : Network

pub Network-discrete : Discrete Network
Network-discrete = hlevel

-- `CommandCheck`; `F` is the type of Python's floats.
pub record Check (F : Type 0) : Type 0 where
  pub id : String
  pub argv : List String
  pub description : Option String
  pub cwd : String
  pub env : Dict String
  pub timeout_seconds : Option F
  pub expected_exit_codes : List ℤ
  pub continue_on_failure : Bool

-- `TaskCapsule`; `rest` is what no patch reads.
pub record Capsule (F R : Type 0) : Type 0 where
  pub goal : String
  pub network : Network
  pub default_timeout_seconds : F
  pub max_output_chars : ℕ
  pub commands : List (Check F)
  pub rest : R
