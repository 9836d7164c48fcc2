-- ===== src/Values/Size.antt =====
-- The number of bytes that `json.dumps(value, sort_keys=True, separators=(",", ":"))` writes.
-- The order of the keys does not change it.
use Prim.Native.Char.{code}
use e2h.Prelude.{
  ℕ, zero, suc, ◌+◌, ◌*◌, ◌/◌, ◌^◌, ◌≤◌, ◌<◌, String, ◌&&◌, ◌||◌, ltb, leb, eqb, if◌then◌else◌, ℤ,
  is_negative, magnitude, arith,
}
use native.Mathlib.Nat.{pow-suc}
use e2h.Values.Data.{
  Value, null, bool, int, float, str, list, dict, opaque, Items, nil, cons, Entries, end, entry,
  Key, text, other_key, PyRuntime,
}

-- The decimal digits of a number, counted with fuel; `n` rounds are enough.
count_digits : ℕ → ℕ → ℕ
count_digits zero n = 1
count_digits (suc fuel) n =
    let rest = count_digits fuel (n / 10) in if ltb n 10 then 1 else suc rest

unfoldable pub digits_size : ℕ → ℕ
unfolding count_digits
digits_size n = count_digits n n

unfoldable pub int_size : ℤ → ℕ
unfolding digits_size
int_size x = (if is_negative x then 1 else 0) + digits_size (magnitude x)

-- Pure ASCII output: quotes, backslashes and five control characters take two bytes, all else
-- outside the printable range six for each UTF-16 unit.
char_size : ℕ → ℕ
char_size c =
    if eqb c 0x22 || eqb c 0x5c
    then 2
    else if leb 0x20 c && leb c 0x7e
    then 1
    else if (leb 0x8 c && leb c 0xa) || eqb c 0xc || eqb c 0xd
    then 2
    else if ltb c 0x10000
    then 6
    else 12

chars_size : String → ℕ
unfolding char_size
chars_size String.[] = 0
chars_size (String.◌∷◌ c s) = char_size (code c) + chars_size s

unfoldable pub text_size : String → ℕ
unfolding chars_size
text_size s = chars_size s + 2

-- Between entries stands a comma.
comma : {F : Type 0} → Items F → ℕ
comma nil = 0
comma (cons x xs) = 1

entry_comma : {F : Type 0} → Entries F → ℕ
entry_comma end = 0
entry_comma (entry k v d) = 1

key_size : Key → ℕ
unfolding text_size
key_size (text k) = text_size k
key_size other_key = 0

module _ {F : Type 0} (py : PyRuntime F) where
  unfoldable mutual
    unfolding int_size text_size key_size comma entry_comma

    pub json_size : Value F → ℕ
    json_size null = 4
    json_size (bool b) = if b then 4 else 5
    json_size (int n) = int_size n
    json_size (float x) = py.float_size x
    json_size (str s) = text_size s
    json_size (list xs) = 2 + items_size xs
    json_size (dict d) = 2 + entries_size d
    json_size opaque = 0

    pub items_size : Items F → ℕ
    items_size nil = 0
    items_size (cons x xs) = json_size x + comma xs + items_size xs

    pub entries_size : Entries F → ℕ
    entries_size end = 0
    entries_size (entry k v d) = key_size k + 1 + json_size v + entry_comma d + entries_size d

count_digits-le : (k fuel n : ℕ) → n < 10 ^ suc k → count_digits fuel n ≤ suc k
unfolding count_digits
count_digits-le k zero n h = omega arith
count_digits-le zero (suc fuel) n h = ground arith
count_digits-le (suc k) (suc fuel) n h =
    let p : n < 10 ^ suc k * 10 = rw (pow-suc) at h in
    ground (arith, count_digits-le k fuel (n / 10) (omega arith))

-- A number below a power of ten has at most that many digits.
pub digits_size-le : (k n : ℕ) → n < 10 ^ suc k → digits_size n ≤ suc k
unfolding digits_size
digits_size-le k n h = count_digits-le k n n h

pub int_size-le : (k : ℕ) (x : ℤ) → magnitude x < 10 ^ suc k → int_size x ≤ suc k + 1
unfolding int_size
int_size-le k x h = ground (arith, digits_size-le k (magnitude x) h)

count_digits-pos : (fuel n : ℕ) → 1 ≤ count_digits fuel n
unfolding count_digits
count_digits-pos zero n = omega arith
count_digits-pos (suc fuel) n = ground (arith, count_digits-pos fuel (n / 10))

pub int_size-pos : (x : ℤ) → 1 ≤ int_size x
unfolding int_size
int_size-pos x = ground (arith, count_digits-pos (magnitude x) (magnitude x))
