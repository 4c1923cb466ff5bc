-- ===== src/Network/IpAllocator/Next.antt =====
-- The cyclic search of `getNextIP`.
use docker_analysis.Base.{
  ℕ, zero, suc, ◌+◌, ◌-◌, ◌%◌, ◌≤◌, ◌<◌, ◌≡◌, refl, Bool, not, ◌||◌, ◌&&◌, List, arith, ltb, leb,
  nat_beq, if◌then◌else◌, nat_eq, Bool-cases, inl, inr,
}
use mathlib.Core.Option
use native.Mathlib.Nat.{mod-eq_of_lt, mod_self}
use docker_analysis.Base.Keys.{contains}
use docker_analysis.Base.Search.{first_index}
use docker_analysis.Network.Ip.{two31, add32, rem32}
use docker_analysis.Network.IpAllocator.{Range, next_pos}

-- A position that may be handed out: neither the bridge's address nor the first of the network,
-- and not allocated.
unfoldable pub usable : Range → List ℕ → ℕ → Bool
usable r p pos =
    let next = add32 r.base pos in
    not (nat_beq next r.own || nat_beq next r.first) && not (contains p pos)

-- The position that round `k` looks at, from 0, and the round that looks at a position.
abbrev pub visited : ℕ → ℕ → ℕ → ℕ
visited max last k = if ltb (last + k) max then last + k + 1 else last + k + 1 - max

abbrev pub round_of : ℕ → ℕ → ℕ → ℕ
round_of max last pos = if leb pos last then pos + max - 1 - last else pos - 1 - last

mod_of_le : (x m : ℕ) → x ≤ m → 0 < m → x % m ≡ (if ltb x m then x else 0)
mod_of_le x m h o = elim (Bool-cases (ltb x m)) [
  | inl low ↦ let small : x < m = ground arith in rw low (mod-eq_of_lt small)
  | inr high ↦ let e : x ≡ m = ground arith in rw (high, e) (mod_self m)
]

-- `last` is 0 at the start and then a position of the network.
module _ (r : Range) (last : ℕ) (bound : last < r.max) (small : r.max < two31) where
  pub visited-round_of :
      (pos : ℕ)
      → 1 ≤ pos
      → pos ≤ r.max
      → (visited r.max last (round_of r.max last pos) ≡ pos) × (round_of r.max last pos < r.max)
  visited-round_of pos low high = (ground arith, ground arith)

  pub round_of-visited :
      (k : ℕ)
      → k < r.max
      → (round_of r.max last (visited r.max last k) ≡ k)
        × (1 ≤ visited r.max last k)
        × (visited r.max last k ≤ r.max)
  round_of-visited k h = (ground arith, ground arith, ground arith)

  next_round :
      (k pos : ℕ)
      → k < r.max
      → pos < two31
      → pos % r.max ≡ visited r.max last k - 1
      → (add32 (rem32 pos r.max) 1 ≡ visited r.max last k)
  next_round k pos h b e = ground arith

  after_round :
      (k : ℕ) → k + 1 < r.max → visited r.max last k % r.max ≡ visited r.max last (k + 1) - 1
  after_round k h = ground (arith, mod_of_le (visited r.max last k) r.max)

  pub next_pos-first_index :
      (p : List ℕ) (n k pos : ℕ)
      → k + n ≡ r.max
      → pos < two31
      → ((0 < n) → pos % r.max ≡ visited r.max last k - 1)
      → next_pos r p n pos
        ≡ Option.map (visited r.max last) (first_index (λ j. usable r p (visited r.max last j)) n k)
  unfolding next_pos first_index usable
  next_pos-first_index p zero k pos s b e = refl
  next_pos-first_index p (suc n) k pos s b e =
      let here = next_round k pos (omega arith) b (e (omega arith)) in
      let at = visited r.max last k in
      let ih =
        next_pos-first_index p n (k + 1) at (omega arith) (omega (arith, round_of-visited k))
          (λ m. after_round k (omega arith)) in
      rw here (ground (arith, ih))
