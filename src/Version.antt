-- ===== src/Version.antt =====
-- pkg/version/version.go: versions compared number by number.
pub mod Kernel
pub mod Order
use docker_analysis.Base.{
  ℕ, zero, suc, ◌≡◌, Bool, true, false, List, [], ◌∷◌, Option, none, some, ltb, leb, nat_beq,
  if◌then◌else◌, Str,
}
use docker_analysis.Base.Decimal.{atoi_value}
use docker_analysis.Base.Int.{ℤ, pos, negsuc, int_leb}
use docker_analysis.Base.Text.{split}
use docker_analysis.Runconfig.Compare.{int_beq}

abbrev pub int_ltb : ℤ → ℤ → Bool
int_ltb a b = if int_leb b a then false else true

-- `compareTo` is 1, 0 or -1.
pub data Sign : Type 0 where
  greater equal less : Sign

-- One round of the loop.
abbrev pub compare_int : ℤ → ℤ → Sign → Sign
compare_int me other rest =
    if int_ltb other me then greater else if int_ltb me other then less else rest

-- The loop to the longer table: a missing number is 0.
unfoldable pub compare_tabs : List Str → List Str → Sign
compare_tabs [] [] = equal
compare_tabs [] (o ∷ os) = compare_int (pos 0) (atoi_value o) (compare_tabs [] os)
compare_tabs (m ∷ ms) [] = compare_int (atoi_value m) (pos 0) (compare_tabs ms [])
compare_tabs (m ∷ ms) (o ∷ os) = compare_int (atoi_value m) (atoi_value o) (compare_tabs ms os)

unfoldable pub compare_to : Str → Str → Sign
unfolding compare_tabs split
compare_to me other = compare_tabs (split b'.' me) (split b'.' other)

unfoldable pub less_than : Str → Str → Bool
unfolding compare_to
less_than me other = elim (compare_to me other) [ greater ↦ false | equal ↦ false | less ↦ true ]

unfoldable pub less_than_or_equal_to : Str → Str → Bool
unfolding compare_to
less_than_or_equal_to me other = elim (compare_to me other) [
  | greater ↦ false
  | equal ↦ true
  | less ↦ true
]

unfoldable pub greater_than : Str → Str → Bool
unfolding compare_to
greater_than me other = elim (compare_to me other) [ greater ↦ true | equal ↦ false | less ↦ false ]

unfoldable pub greater_than_or_equal_to : Str → Str → Bool
unfolding compare_to
greater_than_or_equal_to me other = elim (compare_to me other) [
  | greater ↦ true
  | equal ↦ true
  | less ↦ false
]

unfoldable pub equal_to : Str → Str → Bool
unfolding compare_to
equal_to me other = elim (compare_to me other) [ greater ↦ false | equal ↦ true | less ↦ false ]
