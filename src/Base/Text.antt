-- ===== src/Base/Text.antt =====
-- The functions of Go's `strings` that the program uses, on bytes.
use Prim.Native.Nat.{ℕ}
use mathlib.Core.Bool.{Bool, true, false, ◌||◌}
use mathlib.Core.List.{List, [], ◌∷◌, ◌++◌}
use mathlib.Core.Logic.{inl, inr}
use mathlib.Core.Option.{Option, none, some}
use mathlib.Core.Path.{◌≡◌, refl}
use native.Mathlib.Omega.{arith}
use docker_analysis.Base.Classes.{Str}
use docker_analysis.Base.Tests.{nat_beq, if◌then◌else◌, Option-cases}

-- `strings.Contains(s, c)` for a text of one byte.
unfoldable pub contains_byte : ℕ → Str → Bool
contains_byte c [] = false
contains_byte c (x ∷ xs) = nat_beq x c || contains_byte c xs

abbrev pub push_head : ℕ → List Str → List Str
push_head x [] = (x ∷ []) ∷ []
push_head x (w ∷ ws) = (x ∷ w) ∷ ws

-- `strings.Split(s, c)` for a separator of one byte.
unfoldable pub split : ℕ → Str → List Str
split c [] = [] ∷ []
split c (x ∷ xs) = let rest = split c xs in if nat_beq x c then [] ∷ rest else push_head x rest

-- `s[:i], s[i+1:]` at the first occurrence of a byte.
unfoldable pub cut : ℕ → Str → Option (Str × Str)
cut c [] = none
cut c (x ∷ xs) =
    let rest = cut c xs in
    if nat_beq x c then some ([], xs) else elim rest [ none ↦ none | some (a, b) ↦ some (x ∷ a, b) ]

-- `s[:i], s[i+1:]` at `i = strings.LastIndex(s, c)`.
unfoldable pub cut_last : ℕ → Str → Option (Str × Str)
cut_last c [] = none
cut_last c (x ∷ xs) = elim (cut_last c xs) [
  | some (a, b) ↦ some (x ∷ a, b)
  | none ↦ if nat_beq x c then some ([], xs) else none
]

-- `strings.HasPrefix(s, p)`, and what follows the prefix.
unfoldable pub after_prefix : Str → Str → Option Str
after_prefix [] s = some s
after_prefix (p ∷ ps) [] = none
after_prefix (p ∷ ps) (x ∷ xs) = let rest = after_prefix ps xs in if nat_beq x p then rest else none

abbrev pub has_prefix : Str → Str → Bool
has_prefix p s = elim (after_prefix p s) [ none ↦ false | some _ ↦ true ]

abbrev pub NoByte : ℕ → Str → Type 0
NoByte c s = contains_byte c s ≡ false

pub split_none : (c : ℕ) (s : Str) → NoByte c s → split c s ≡ s ∷ []
unfolding split contains_byte
split_none c [] h = refl
split_none c (x ∷ xs) h = ground (arith, split_none c xs)

pub split-append : (c : ℕ) (a b : Str) → NoByte c a → split c (a ++ c ∷ b) ≡ a ∷ split c b
unfolding split contains_byte
split-append c [] b h = ground arith
split-append c (x ∷ xs) b h = ground (arith, split-append c xs b)

pub cut-append : (c : ℕ) (a b : Str) → NoByte c a → cut c (a ++ c ∷ b) ≡ some (a, b)
unfolding cut contains_byte
cut-append c [] b h = ground arith
cut-append c (x ∷ xs) b h = ground (arith, cut-append c xs b)

pub cut_last_absent : (c : ℕ) (s : Str) → NoByte c s → cut_last c s ≡ none
unfolding cut_last contains_byte
cut_last_absent c [] h = refl
cut_last_absent c (x ∷ xs) h = ground (arith, cut_last_absent c xs)

pub cut_last-append : (c : ℕ) (a b : Str) → NoByte c b → cut_last c (a ++ c ∷ b) ≡ some (a, b)
unfolding cut_last contains_byte
cut_last-append c [] b h = ground (arith, cut_last_absent c b)
cut_last-append c (x ∷ xs) b h = ground (arith, cut_last-append c xs b)

cut_last-none : (c : ℕ) (s : Str) → cut_last c s ≡ none → NoByte c s
unfolding cut_last contains_byte
cut_last-none c [] h = refl
cut_last-none c (x ∷ xs) h = ground (arith, cut_last-none c xs)

-- A cut gives the text back, and no separator follows it.
pub cut_last-some :
    (c : ℕ) (s a b : Str) → cut_last c s ≡ some (a, b) → (s ≡ a ++ c ∷ b) × NoByte c b
unfolding cut_last
cut_last-some c [] a b h = absurd (ground arith)
cut_last-some c (x ∷ xs) a b h = elim (Option-cases (cut_last c xs)) [
  | inl e ↦ let free = cut_last-none c xs e in ground (arith, e)
  | inr ((a', b'), e) ↦ let ih = cut_last-some c xs a' b' e in ground (arith, e)
]
