-- ===== src/Version/Order.antt =====
-- The order of versions.
use docker_analysis.Base.{◌≡◌, List, [], ◌∷◌, arith, refl, Str, not, ap, ◌∙◌, inl, inr, ◌⊎◌, ◌&&◌}
use docker_analysis.Base.Decimal.{atoi_value}
use docker_analysis.Base.Int.{ℤ, pos, negsuc}
use docker_analysis.Base.Text.{split}
use docker_analysis.Version.{
  Sign, greater, equal, less, compare_int, compare_tabs, compare_to, less_than,
  less_than_or_equal_to, greater_than, greater_than_or_equal_to, equal_to,
}

abbrev pub opposite : Sign → Sign
opposite greater = less
opposite equal = equal
opposite less = greater

opposite-opposite : (r : Sign) → opposite (opposite r) ≡ r
opposite-opposite greater = refl
opposite-opposite equal = refl
opposite-opposite less = refl

Sign-cases : (r : Sign) → (r ≡ greater) ⊎ ((r ≡ equal) ⊎ (r ≡ less))
Sign-cases greater = inl refl
Sign-cases equal = inr (inl refl)
Sign-cases less = inr (inr refl)

compare_int-opposite :
    (a b : ℤ) (r : Sign) → compare_int a b (opposite r) ≡ opposite (compare_int b a r)
compare_int-opposite (pos a) (pos b) r = ground arith
compare_int-opposite (pos a) (negsuc b) r = refl
compare_int-opposite (negsuc a) (pos b) r = refl
compare_int-opposite (negsuc a) (negsuc b) r = ground arith

compare_tabs-opposite : (ms os : List Str) → compare_tabs ms os ≡ opposite (compare_tabs os ms)
unfolding compare_tabs
compare_tabs-opposite [] [] = refl
compare_tabs-opposite [] (o ∷ os) =
    rw (compare_tabs-opposite [] os)
      (compare_int-opposite (pos 0) (atoi_value o) (compare_tabs os []))
compare_tabs-opposite (m ∷ ms) [] =
    rw (compare_tabs-opposite ms [])
      (compare_int-opposite (atoi_value m) (pos 0) (compare_tabs [] ms))
compare_tabs-opposite (m ∷ ms) (o ∷ os) =
    rw (compare_tabs-opposite ms os)
      (compare_int-opposite (atoi_value m) (atoi_value o) (compare_tabs os ms))

-- A version compares with another the opposite way round.
pub compare_to-opposite : (me other : Str) → compare_to me other ≡ opposite (compare_to other me)
unfolding compare_to
compare_to-opposite me other = compare_tabs-opposite (split b'.' me) (split b'.' other)

-- Each of the five tests agrees with the others on which way two versions compare.
pub less_than-greater_than :
    (me other : Str)
    → (less_than me other ≡ greater_than other me)
      × (less_than_or_equal_to me other ≡ not (greater_than me other))
      × (greater_than_or_equal_to me other ≡ not (less_than me other))
      × (equal_to me other ≡ (less_than_or_equal_to me other && greater_than_or_equal_to me other))
unfolding less_than greater_than less_than_or_equal_to greater_than_or_equal_to equal_to
less_than-greater_than me other =
    let back = compare_to-opposite me other in
    elim (Sign-cases (compare_to other me)) [
      | inl e ↦
          let f = back ∙ ap opposite e in
          rw
            (
              less_than, greater_than, less_than_or_equal_to, greater_than_or_equal_to, equal_to, f,
              e,
            )
            (refl, refl, refl, refl)
      | inr (inl e) ↦
          let f = back ∙ ap opposite e in
          rw
            (
              less_than, greater_than, less_than_or_equal_to, greater_than_or_equal_to, equal_to, f,
              e,
            )
            (refl, refl, refl, refl)
      | inr (inr e) ↦
          let f = back ∙ ap opposite e in
          rw
            (
              less_than, greater_than, less_than_or_equal_to, greater_than_or_equal_to, equal_to, f,
              e,
            )
            (refl, refl, refl, refl)
    ]
