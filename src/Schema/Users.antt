-- ===== src/Schema/Users.antt =====
-- Which users of a container `user_must_be_non_root` of src/e2h/models.py accepts.
use e2h.Prelude.{
  ℕ, suc, zero, ◌+◌, ◌-◌, ◌*◌, ◌/◌, ◌%◌, ◌≡◌, ◌∙◌, ◌≤◌, ◌<◌, refl, Bool, true, false, ◌&&◌, ◌||◌,
  Option, none, some, [], ◌∷◌, ◌++◌, all, ◌==◌, number_eq, ltb, Bool-cases, inl, inr, arith,
  if◌then◌else◌,
}
use e2h.Result.{ok, err}
use e2h.Schema.Texts.{
  user_id_too_large, root_user, is_empty, Text, split, is_digit, is_decimal, decimal,
  max_numeric_id, user_must_be_non_root,
}

-- A number in decimal digits, without leading zeros; `fuel` bounds the number of digits.
printed : (fuel : ℕ) → ℕ → Text
printed zero n = []
printed (suc fuel) n =
    let rest = printed fuel (n / 10) in (if ltb n 10 then [] else rest) ++ ((b'0' + n % 10) ∷ [])

-- A number has no more digits than its value and one.
unfoldable pub print : ℕ → Text
unfolding printed
print n = printed (suc n) n

decimal-append :
    (a : ℕ) (text : Text) (c : ℕ) → decimal a (text ++ (c ∷ [])) ≡ decimal a text * 10 + (c - b'0')
unfolding decimal
decimal-append a [] c = refl
decimal-append a (d ∷ text) c = decimal-append (a * 10 + (d - b'0')) text c

small_digit : (n : ℕ) → n < 10 → n % 10 ≡ n
small_digit n h = omega (arith, h)

decimal-printed : (fuel n : ℕ) → n < fuel → decimal 0 (printed fuel n) ≡ n
unfolding printed decimal
decimal-printed zero n h = absurd (ground (arith, h))
decimal-printed (suc fuel) n h = elim (Bool-cases (ltb n 10)) [
  | inl small ↦
      let digit : n < 10 = ground (arith, small) in rw small (omega (arith, small_digit n digit))
  | inr large ↦
      let ten : 10 ≤ n = ground (arith, large) in
      let next : n / 10 < fuel = omega (arith, h, ten) in
      rw large (
        decimal-append 0 (printed fuel (n / 10)) (b'0' + n % 10)
        ∙ omega (arith, decimal-printed fuel (n / 10) next))
]

all-append : (p : ℕ → Bool) (s t : Text) → all p (s ++ t) ≡ (all p s && all p t)
all-append p [] t = refl
all-append p (c ∷ s) t = ground (arith, all-append p s t)

printed-digits : (fuel n : ℕ) → all is_digit (printed fuel n) ≡ true
unfolding printed
printed-digits zero n = refl
printed-digits (suc fuel) n =
    let digit : is_digit (b'0' + n % 10) ≡ true = ground arith in
    elim (Bool-cases (ltb n 10)) [
      | inl small ↦ rw small (ground (arith, digit))
      | inr large ↦ rw large (
          all-append is_digit (printed fuel (n / 10)) ((b'0' + n % 10) ∷ [])
          ∙ ground (arith, digit, printed-digits fuel (n / 10)))
    ]

split-digits : (text : Text) → all is_digit text ≡ true → split b':' text ≡ text ∷ []
unfolding split
split-digits [] h = refl
split-digits (c ∷ text) h =
    let other : (c == b':') ≡ false = ground (arith, h) in
    rw (other, split-digits text (ground (arith, h))) refl

split-two :
    (text rest : Text)
    → all is_digit text ≡ true
    → split b':' (text ++ (b':' ∷ rest)) ≡ text ∷ split b':' rest
unfolding split
split-two [] rest h = refl
split-two (c ∷ text) rest h =
    let other : (c == b':') ≡ false = ground (arith, h) in
    rw (other, split-two text rest (ground (arith, h))) refl

is_empty-append : (text : Text) (c : ℕ) → is_empty (text ++ (c ∷ [])) ≡ false
is_empty-append [] c = refl
is_empty-append (d ∷ text) c = refl

is_decimal-print : (n : ℕ) → is_decimal (print n) ≡ true
unfolding print printed
is_decimal-print n = ground (
  arith,
  is_empty-append (if ltb n 10 then [] else printed n (n / 10)) (b'0' + n % 10),
  printed-digits (suc n) n,
)

print-digits : (n : ℕ) → all is_digit (print n) ≡ true
unfolding print
print-digits n = printed-digits (suc n) n

decimal-print : (n : ℕ) → decimal 0 (print n) ≡ n
unfolding print
decimal-print n = decimal-printed (suc n) n (omega arith)

-- A user is written as its uid, or as its uid and its gid.
abbrev pub user_text : ℕ → Option ℕ → Text
user_text uid none = print uid
user_text uid (some gid) = print uid ++ (b':' ∷ print gid)

abbrev pub exceeds : Option ℕ → Bool
exceeds none = false
exceeds (some id) = ltb max_numeric_id id

-- A user that is written in decimal, without leading zeros, is refused exactly where its uid or its gid is larger than
-- 2147483647, or else its uid is 0; every other one is accepted as it is.
pub user_must_be_non_root-user_text :
    (uid : ℕ) (gid : Option ℕ)
    → user_must_be_non_root (user_text uid gid) ≡ (
        if ltb max_numeric_id uid || exceeds gid
        then err user_id_too_large
        else if uid == 0
        then err root_user
        else ok (user_text uid gid))
unfolding user_must_be_non_root
user_must_be_non_root-user_text uid none =
    rw (split-digits (print uid) (print-digits uid), is_decimal-print uid, decimal-print uid)
      (ground arith)
user_must_be_non_root-user_text uid (some gid) =
    rw
      (
        split-two (print uid) (print gid) (print-digits uid),
        split-digits (print gid) (print-digits gid),
        is_decimal-print uid,
        is_decimal-print gid,
        decimal-print uid,
        decimal-print gid,
      )
      (ground arith)
