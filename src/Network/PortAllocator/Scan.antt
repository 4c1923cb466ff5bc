-- ===== src/Network/PortAllocator/Scan.antt =====
-- The cyclic search of `findPort`: the loop against a search over the distances from `last`.
use docker_analysis.Base.{
  dec_le, subst, ℕ, zero, suc, ◌+◌, ◌-◌, ◌≤◌, ◌<◌, ◌≡◌, ◌≢◌, refl, true, false, List, Option, none,
  some, arith, ltb, nat_beq, leb, if◌then◌else◌, Bool-cases, inl, inr, nat_eq,
}
use docker_analysis.Base.Keys.{contains}
use docker_analysis.Network.PortAllocator.{wrap, begin_port_range, end_port_range, scan}

-- The number of ports of the range.
abbrev pub range_size : ℕ
range_size = 16383

-- The port at distance `k` after `last`, round the range.
abbrev pub port_after : ℕ → ℕ → ℕ
port_after last k = if leb (last + k) end_port_range then last + k else last + k - range_size

-- The distance from `last` to `port`, between 1 and `range_size`.
abbrev pub distance : ℕ → ℕ → ℕ
distance last port = if ltb last port then port - last else port + range_size - last

abbrev pub InRange : ℕ → Type 0
InRange port = (begin_port_range ≤ port) × (port ≤ end_port_range)

-- The first port at a distance `k`, `k + 1`, … (`n` of them) that is not taken.
pub first_free : List ℕ → ℕ → ℕ → ℕ → Option ℕ
first_free p last zero k = none
first_free p last (suc n) k =
    let rest = first_free p last n (k + 1) in
    if contains p (port_after last k) then rest else some (port_after last k)

module _ (p : List ℕ) (last : ℕ) where
  abbrev pub Found : ℕ → ℕ → ℕ → Type 0
  Found k n q =
      (j : ℕ) × (k ≤ j)
      × (j < k + n)
      × (q ≡ port_after last j)
      × (contains p q ≡ false)
      × ((i : ℕ) → k ≤ i → i < j → contains p (port_after last i) ≡ true)

  -- A fact from `k + 1` on, and the fact at `k`.
  from_first :
      {P : ℕ → Type 0} (k j : ℕ)
      → P k
      → ((i : ℕ) → k + 1 ≤ i → i < j → P i)
      → (i : ℕ) → k ≤ i
      → i < j
      → P i
  from_first {P} k j here above i low high = elim (dec_le (k + 1) i) [
    | yes h ↦ above i h high
    | no h ↦ subst P (omega arith) here
  ]

  pub first_free-Found : (n k : ℕ) (q : ℕ) → first_free p last n k ≡ some q → Found k n q
  unfolding first_free
  first_free-Found zero k q h = absurd (ground arith)
  first_free-Found (suc n) k q h = elim (Bool-cases (contains p (port_after last k))) [
    | inl taken ↦
        let (j, low, high, eq, free, before) = first_free-Found n (k + 1) q (ground arith) in
        (j, omega arith, omega arith, eq, free, from_first k j taken before)
    | inr free ↦
        (k, omega arith, omega arith, ground arith, ground arith, λ i hi hj. absurd (omega arith))
  ]

  pub first_free-none :
      (n k : ℕ)
      → first_free p last n k ≡ none
      → (i : ℕ) → k ≤ i
      → i < k + n
      → contains p (port_after last i) ≡ true
  unfolding first_free
  first_free-none zero k h i low high = absurd (omega arith)
  first_free-none (suc n) k h i low high = elim (Bool-cases (contains p (port_after last k))) [
    | inl taken ↦
        from_first k (k + suc n) taken
          (λ m lo hi. first_free-none n (k + 1) (ground arith) m lo (omega arith)) i low high
    | inr free ↦ absurd (ground arith)
  ]

-- One round of the loop keeps its port at the distance that the search has reached.
wrap_next :
    (last k : ℕ)
    → begin_port_range ≤ last
    → last ≤ end_port_range
    → 0 < k
    → k < range_size
    → (wrap (port_after last k + 1) ≡ port_after last (k + 1))
      × (port_after last k + 1 ≤ 65536)
      × (port_after last k ≢ last)
wrap_next last k b e o s = (ground arith, ground arith, ground arith)

-- After `last`, the loop is the search: it ends within as many rounds as the range has ports.
pub scan-first_free :
    (p : List ℕ) (last n k fuel port : ℕ)
    → begin_port_range < last
    → last ≤ end_port_range
    → k + n ≡ range_size
    → n < fuel
    → 0 < k
    → wrap port ≡ port_after last k
    → port ≤ 65536
    → scan fuel p last port ≡ some (first_free p last n k)
unfolding scan first_free
scan-first_free p last n k zero port b e s f o h u = absurd (omega arith)
scan-first_free p last zero k (suc fuel) port b e s f o h u = ground arith
scan-first_free p last (suc n) k (suc fuel) port b e s f o h u =
    let (next, bound, other) = wrap_next last k (omega arith) e o (omega arith) in
    let ih =
      scan-first_free p last n (k + 1) fuel (port_after last k + 1) b e (omega arith) (omega arith)
        (omega arith) next bound in
    let miss : nat_beq port last ≡ false = ground arith in rw (miss, h, ih) (ground arith)

-- At the first port of the range the loop's exit test is never met: with the range full it runs on.
pub scan_diverges :
    (p : List ℕ) (fuel port : ℕ)
    → ((q : ℕ) → InRange q → contains p q ≡ true)
    → begin_port_range < port
    → port ≤ 65536
    → scan fuel p begin_port_range port ≡ none
unfolding scan
scan_diverges p zero port full low high = refl
scan_diverges p (suc fuel) port full low high =
    let taken = full (wrap port) (ground arith) in
    let ih = scan_diverges p fuel (wrap port + 1) full (ground arith) (ground arith) in
    let miss : nat_beq port begin_port_range ≡ false = ground arith in rw (miss, taken, ih)
