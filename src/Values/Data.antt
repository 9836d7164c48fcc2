-- ===== src/Values/Data.antt =====
-- The values themselves. `F` is the type of Python's floats, which the program only passes on.
use Prim.Native.Char.{code}
use e2h.Prelude.{ℕ, ◌≤◌, ◌≡◌, Bool, true, ◌&&◌, ◌||◌, leb, eqb, ℤ, String}

-- A dictionary's key: a text, or a value of another type.
pub data Key : Type 0 where
  text : String → Key
  other_key : Key

-- `opaque` is a value that is none of JSON's.
mutual
  pub data Value (F : Type 0) : Type 0 where
    null : Value F
    bool : Bool → Value F
    int : ℤ → Value F
    float : F → Value F
    str : String → Value F
    list : Items F → Value F
    dict : Entries F → Value F
    opaque : Value F

  pub data Items (F : Type 0) : Type 0 where
    nil : Items F
    cons : Value F → Items F → Items F

  pub data Entries (F : Type 0) : Type 0 where
    end : Entries F
    entry : Key → Value F → Entries F → Entries F

-- Lower-case ASCII letters and underscores only.
plain_code : ℕ → Bool
plain_code c = (leb b'a' c && leb c b'z') || eqb c b'_'

unfoldable pub is_plain : String → Bool
unfolding plain_code
is_plain String.[] = true
is_plain (String.◌∷◌ c s) = plain_code (code c) && is_plain s

-- What the program takes from Python's floats and texts. `float_size` is the length of the text
-- that `json.dumps` writes for a finite float: the shortest digits that read back, at most 24.
-- `str.casefold` leaves a text of lower-case ASCII letters and underscores as it is.
pub record PyRuntime (F : Type 0) : Type 0 where
  pub is_finite : F → Bool
  pub float_size : F → ℕ
  pub casefold : String → String
  pub float_size-le : (x : F) → is_finite x ≡ true → float_size x ≤ 24
  pub casefold-plain : (s : String) → is_plain s ≡ true → casefold s ≡ s
