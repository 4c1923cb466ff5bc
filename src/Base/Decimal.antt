-- ===== src/Base/Decimal.antt =====
-- `strconv.ParseUint(s, 10, …)`, `strconv.Atoi` without a sign, and `%d` of a natural number.
use Prim.Native.Nat.{ℕ, zero, suc, ◌+◌, ◌-◌, ◌*◌, ◌/◌, ◌%◌, ◌<◌}
use mathlib.Core.Bool.{Bool, true, ◌&&◌}
use mathlib.Core.List.{[], ◌∷◌}
use mathlib.Core.Option.{Option, none, some}
use mathlib.Core.Logic.{inl, inr}
use mathlib.Core.Path.{◌≡◌, refl, ap, ◌∙◌, sym}
use native.Mathlib.Omega.{arith}
use docker_analysis.Base.Classes.{Str}
use docker_analysis.Base.Int.{ℤ, pos, negsuc}
use docker_analysis.Base.Tests.{nat_beq, ltb, leb, if◌then◌else◌, Bool-cases}

abbrev pub is_digit : ℕ → Bool
is_digit c = leb b'0' c && leb c b'9'

-- The digits after those whose value is `acc`.
unfoldable pub digits_from : ℕ → Str → Option ℕ
digits_from acc [] = some acc
digits_from acc (c ∷ cs) =
    let rest = digits_from (acc * 10 + (c - b'0')) cs in if is_digit c then rest else none

-- A number below `limit`, in decimal, of one digit at least.
unfoldable pub parse_uint : ℕ → Str → Option ℕ
unfolding digits_from
parse_uint limit [] = none
parse_uint limit (c ∷ cs) = elim (digits_from 0 (c ∷ cs)) [
  | none ↦ none
  | some n ↦ if ltb n limit then some n else none
]

abbrev pub negated : ℕ → ℤ
negated zero = pos 0
negated (suc n) = negsuc n

abbrev pub map_some {ℓ κ} : {A : Type ℓ} {B : Type κ} → (A → B) → Option A → Option B
map_some f none = none
map_some f (some a) = some (f a)

-- `%d`, by fuel: a number has no more digits than its value plus one.
unfoldable pub print_fuel : ℕ → ℕ → Str → Str
print_fuel zero n acc = acc
print_fuel (suc f) n acc =
    let rest = print_fuel f (n / 10) ((b'0' + n % 10) ∷ acc) in
    if ltb n 10 then (b'0' + n) ∷ acc else rest

unfoldable pub print : ℕ → Str
unfolding print_fuel
print n = print_fuel (suc n) n []

digits_from-print_fuel :
    (f n : ℕ) (acc : Str) → n < f → digits_from 0 (print_fuel f n acc) ≡ digits_from n acc
unfolding digits_from print_fuel
digits_from-print_fuel zero n acc h = absurd (omega arith)
digits_from-print_fuel (suc f) n acc h = elim (Bool-cases (ltb n 10)) [
  | inl small ↦
      let digit : is_digit (b'0' + n) ≡ true = ground arith in
      let value : 0 * 10 + (b'0' + n - b'0') ≡ n = omega arith in
      rw (small, digit) (ap (λ m. digits_from m acc) value)
  | inr large ↦
      let digit : is_digit (b'0' + n % 10) ≡ true = ground arith in
      let value : n / 10 * 10 + (b'0' + n % 10 - b'0') ≡ n = omega arith in
      let ih = digits_from-print_fuel f (n / 10) ((b'0' + n % 10) ∷ acc) (ground arith) in
      rw large (ih ∙ rw digit (ap (λ m. digits_from m acc) value))
]

print_fuel-cons :
    (f n : ℕ) (c : ℕ) (acc : Str) → (d : ℕ) × (ds : Str) × (print_fuel f n (c ∷ acc) ≡ d ∷ ds)
unfolding print_fuel
print_fuel-cons zero n c acc = (c, acc, refl)
print_fuel-cons (suc f) n c acc = elim (Bool-cases (ltb n 10)) [
  | inl small ↦ (b'0' + n, c ∷ acc, rw small)
  | inr large ↦
      let (d, ds, e) = print_fuel-cons f (n / 10) (b'0' + n % 10) (c ∷ acc) in
      (d, ds, rw (large, e))
]

pub print-cons : (n : ℕ) → (d : ℕ) × (ds : Str) × (print n ≡ d ∷ ds)
unfolding print print_fuel
print-cons n = elim (Bool-cases (ltb n 10)) [
  | inl small ↦ (b'0' + n, [], rw small)
  | inr large ↦
      let (d, ds, e) = print_fuel-cons n (n / 10) (b'0' + n % 10) [] in (d, ds, rw (large, e))
]

digits_from-print : (n : ℕ) → digits_from 0 (print n) ≡ some n
unfolding print digits_from
digits_from-print n = digits_from-print_fuel (suc n) n [] (omega arith)

-- A printed number is read back.
pub parse_uint-print : (limit n : ℕ) → n < limit → parse_uint limit (print n) ≡ some n
unfolding parse_uint
parse_uint-print limit n h =
    let (d, ds, e) = print-cons n in
    let read : digits_from 0 (d ∷ ds) ≡ some n = ap (digits_from 0) (sym e) ∙ digits_from-print n in
    let low : ltb n limit ≡ true = ground arith in rw (e, parse_uint, read, low)

-- `strconv.Atoi`: an optional sign, and 64 bits.
unfoldable pub atoi : Str → Option ℤ
unfolding parse_uint
atoi [] = none
atoi (c ∷ cs) =
    if nat_beq c b'-'
    then map_some negated (parse_uint 0x8000_0000_0000_0001 cs)
    else if nat_beq c b'+'
    then map_some pos (parse_uint 0x8000_0000_0000_0000 cs)
    else map_some pos (parse_uint 0x8000_0000_0000_0000 (c ∷ cs))

-- `%d` of a signed number.
unfoldable pub print_int : ℤ → Str
unfolding print
print_int (pos n) = print n
print_int (negsuc n) = b'-' ∷ print (suc n)

-- The number that `strconv.ParseUint` reads before it ends: it stops as soon as the value does
-- not fit in 64 bits, and the result is 0 where the text is not a number.
unfoldable pub read_from : ℕ → Str → ℕ
read_from acc [] = acc
read_from acc (c ∷ cs) =
    let next = acc * 10 + (c - b'0') in
    let rest = read_from next cs in
    if is_digit c
    then (if leb 0x1_0000_0000_0000_0000 next then 0xFFFF_FFFF_FFFF_FFFF else rest)
    else 0

abbrev pub at_most : ℕ → ℕ → ℕ
at_most limit n = if ltb limit n then limit else n

-- The first result of `strconv.Atoi`, whatever the second is.
unfoldable pub atoi_value : Str → ℤ
unfolding read_from
atoi_value [] = pos 0
atoi_value (c ∷ cs) =
    if nat_beq c b'-'
    then negated (at_most 0x8000_0000_0000_0000 (read_from 0 cs))
    else if nat_beq c b'+'
    then pos (at_most 0x7FFF_FFFF_FFFF_FFFF (read_from 0 cs))
    else pos (at_most 0x7FFF_FFFF_FFFF_FFFF (read_from 0 (c ∷ cs)))
