-- ===== src/Base/Signed.antt =====
-- `%d` and `strconv.Atoi` of a signed number of 64 bits undo each other.
use docker_analysis.Base.Classes.{Str, codes}
use docker_analysis.Base.Decimal.{
  is_digit, print, print_fuel, print-cons, parse_uint-print, atoi, print_int,
}
use docker_analysis.Base.Int.{ℤ, pos, negsuc}
use docker_analysis.Base.Lists.{all}
use docker_analysis.Base.Text.{contains_byte}
use docker_analysis.Base.Tests.{nat_beq, ltb, Bool-cases}
use docker_analysis.Base.Trim.{trim, trim_clean}
use mathlib.Core.Bool.{true, false, not}
use mathlib.Core.List.{[], ◌∷◌}
use mathlib.Core.Logic.{inl, inr}
use mathlib.Core.Option.{some}
use mathlib.Core.Path.{◌≡◌, refl, ap, ◌∙◌, sym}
use Prim.Native.Nat.{ℕ, zero, suc, ◌+◌, ◌/◌, ◌%◌, ◌<◌}
use native.Mathlib.Omega.{arith}

all-digit-print_fuel :
    (f n : ℕ) (acc : Str) → all is_digit acc ≡ true → all is_digit (print_fuel f n acc) ≡ true
unfolding print_fuel
all-digit-print_fuel zero n acc h = h
all-digit-print_fuel (suc f) n acc h = elim (Bool-cases (ltb n 10)) [
  | inl small ↦ ground arith
  | inr large ↦
      let digit : is_digit (b'0' + n % 10) ≡ true = ground arith in
      let ih = all-digit-print_fuel f (n / 10) ((b'0' + n % 10) ∷ acc) (ground arith) in rw large ih
]

all-digit-print : (n : ℕ) → all is_digit (print n) ≡ true
unfolding print
all-digit-print n = all-digit-print_fuel (suc n) n [] refl

-- The numbers of 64 bits.
abbrev pub Int64 : ℤ → Type 0
Int64 (pos n) = n < 0x8000_0000_0000_0000
Int64 (negsuc n) = n < 0x8000_0000_0000_0000

atoi-digit : (d : ℕ) (ds : Str) → is_digit d ≡ true → atoi (d ∷ ds) ≡ atoi (b'+' ∷ d ∷ ds)
unfolding atoi
atoi-digit d ds h =
    let minus : nat_beq d b'-' ≡ false = ground arith in
    let plus : nat_beq d b'+' ≡ false = ground arith in rw (minus, plus) refl

atoi-plus :
    (s : Str) (n : ℕ) → n < 0x8000_0000_0000_0000 → s ≡ print n → atoi (b'+' ∷ s) ≡ some (pos n)
unfolding atoi
atoi-plus s n h e = rw (e, parse_uint-print 0x8000_0000_0000_0000 n h) refl

-- A printed number is read back.
pub atoi-print_int : (v : ℤ) → Int64 v → atoi (print_int v) ≡ some v
unfolding print_int
atoi-print_int (pos n) h =
    let (d, ds, e) = print-cons n in
    let digits : all is_digit (d ∷ ds) ≡ true = ap (all is_digit) (sym e) ∙ all-digit-print n in
    let first : is_digit d ≡ true = ground arith in
    ap atoi e ∙ atoi-digit d ds first ∙ atoi-plus (d ∷ ds) n h (sym e)
atoi-print_int (negsuc n) h =
    unfold atoi in rw (parse_uint-print 0x8000_0000_0000_0001 (suc n) (omega (arith, h))) refl

blank_free :
    (s : Str) → all is_digit s ≡ true → all (λ c. not (contains_byte c (codes " \t"))) s ≡ true
unfolding contains_byte
blank_free [] h = refl
blank_free (c ∷ cs) h = ground (arith, blank_free cs)

pub trim-print_int : (v : ℤ) → trim (codes " \t") (print_int v) ≡ print_int v
unfolding print_int contains_byte
trim-print_int (pos n) =
    trim_clean (codes " \t") (print n) (blank_free (print n) (all-digit-print n))
trim-print_int (negsuc n) =
    trim_clean (codes " \t") (b'-' ∷ print (suc n))
      (blank_free (print (suc n)) (all-digit-print (suc n)))
