-- ===== src/Base/Search.antt =====
-- The first index that passes a test: the meaning of a loop that skips what fails.
use Prim.Native.Nat.{ℕ, zero, suc, ◌+◌, ◌≤◌, ◌<◌}
use mathlib.Core.Bool.{Bool, true, false}
use mathlib.Core.Logic.{inl, inr}
use mathlib.Core.Option.{Option, none, some}
use mathlib.Core.Path.{◌≡◌, subst}
use native.Mathlib.Decide.{dec_le}
use native.Mathlib.Omega.{arith}
use docker_analysis.Base.Tests.{if◌then◌else◌, Bool-cases}

module _ (test : ℕ → Bool) where
  -- The first of the `n` indices from `k` on that passes.
  unfoldable pub first_index : ℕ → ℕ → Option ℕ
  first_index zero k = none
  first_index (suc n) k = let rest = first_index n (k + 1) in if test k then some k else rest

  abbrev pub FailsFrom : ℕ → ℕ → Type 0
  FailsFrom k j = (i : ℕ) → k ≤ i → i < j → test i ≡ false

  from_first : (k j : ℕ) → test k ≡ false → FailsFrom (k + 1) j → FailsFrom k j
  from_first k j here above i low high = elim (dec_le (k + 1) i) [
    | yes h ↦ above i h high
    | no h ↦ subst (λ m. test m ≡ false) (omega arith) here
  ]

  pub first_index-some :
      (n k j : ℕ)
      → first_index n k ≡ some j
      → (k ≤ j) × (j < k + n) × (test j ≡ true) × FailsFrom k j
  unfolding first_index
  first_index-some zero k j h = absurd (ground arith)
  first_index-some (suc n) k j h = elim (Bool-cases (test k)) [
    | inl pass ↦ (ground arith, ground arith, ground arith, λ i low high. absurd (ground arith))
    | inr fail ↦
        let (low, high, pass, before) = first_index-some n (k + 1) j (ground arith) in
        (omega arith, omega arith, pass, from_first k j fail before)
  ]

  pub first_index-none : (n k : ℕ) → first_index n k ≡ none → FailsFrom k (k + n)
  unfolding first_index
  first_index-none zero k h = λ i low high. absurd (omega arith)
  first_index-none (suc n) k h = elim (Bool-cases (test k)) [
    | inl pass ↦ absurd (ground arith)
    | inr fail ↦
        from_first k (k + suc n) fail
          λ i low high. first_index-none n (k + 1) (ground arith) i low (omega arith)
  ]
