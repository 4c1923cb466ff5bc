-- ===== src/Utils/StdCopy/Fill.antt =====
-- However a reader cuts the bytes into pieces, filling the buffer loses and reorders nothing.
use docker_analysis.Base.{
  ℕ, zero, suc, ◌+◌, ◌-◌, ◌≤◌, ◌<◌, ◌≡◌, refl, true, false, List, [], ◌∷◌, ◌++◌, arith, ltb, Str,
  length, take, drop, All, sym, ap, ◌∙◌, Bool-cases, inl, inr, length-append,
}
use mathlib.Core.List.{append_assoc, append-nil}
use docker_analysis.Utils.StdCopy.{Piece, Reader, no_error, read, Filled, full, ended, fill}

-- All that the reader will give.
abbrev pub content : Reader → Str
content [] = []
content (p ∷ rest) = p.bytes ++ content rest

-- No `Read` fails; the end of the file comes after the last piece.
abbrev pub IsClean : Reader → Type 0
IsClean = All (λ p. p.error ≡ no_error)

-- More than the number of `Read` calls that the reader can serve.
abbrev pub calls : Reader → ℕ
calls [] = 0
calls (p ∷ rest) = length p.bytes + 1 + calls rest

pub take-append-drop {ℓ} : {A : Type ℓ} (n : ℕ) (xs : List A) → take n xs ++ drop n xs ≡ xs
take-append-drop zero xs = refl
take-append-drop (suc n) [] = refl
take-append-drop (suc n) (x ∷ xs) = ap (◌∷◌ x) (take-append-drop n xs)

length-drop {ℓ} : {A : Type ℓ} (n : ℕ) (xs : List A) → length (drop n xs) ≡ length xs - n
length-drop zero xs = omega arith
length-drop (suc n) [] = omega arith
length-drop (suc n) (x ∷ xs) = omega (arith, length-drop n xs)

abbrev pub Reads : ℕ → Reader → Piece × Reader → Type 0
Reads space rd (p, rd') =
    (p.bytes ++ content rd' ≡ content rd)
    × (p.error ≡ no_error)
    × IsClean rd'
    × (suc (calls rd') ≤ calls rd)

read-Reads :
    (space : ℕ) (p : Piece) (rd : Reader)
    → 0 < space
    → IsClean (p ∷ rd)
    → Reads space (p ∷ rd) (read space (p ∷ rd))
unfolding read
read-Reads space p rd free clean = elim (Bool-cases (ltb space (length p.bytes))) [
  | inl long ↦
      rw (long, read)
        (
          sym (append_assoc (take space p.bytes) (drop space p.bytes) (content rd))
              ∙ ap (λ b. b ++ content rd) (take-append-drop space p.bytes),
          refl,
          clean,
          ground (arith, length-drop space p.bytes),
        )
  | inr short ↦ rw (short, read) (refl, clean.0, clean.1, omega arith)
]

-- The buffer is filled to `need` bytes, and with what the reader still has it holds the same bytes.
abbrev pub Fills : ℕ → Str → Reader → Filled → Type 0
Fills need buf rd f =
    (buf' : Str) × (rd' : Reader) × (f ≡ full buf' rd')
    × (buf' ++ content rd' ≡ buf ++ content rd)
    × (need ≤ length buf')
    × IsClean rd'
    × (calls rd' ≤ calls rd)

pub fill-Fills :
    (fuel need room : ℕ) (buf : Str) (rd : Reader)
    → IsClean rd
    → calls rd < fuel
    → need ≤ room
    → need ≤ length (buf ++ content rd)
    → Fills need buf rd (fill fuel need room buf rd)
unfolding fill
fill-Fills zero need room buf rd clean f b e = absurd (omega arith)
fill-Fills (suc fuel) need room buf [] clean f b e =
    let enough : ltb (length buf) need ≡ false = ground (arith, ap length (append-nil buf)) in
    rw enough (buf, [], refl, refl, ground arith, tt, omega arith)
fill-Fills (suc fuel) need room buf (p ∷ rd) clean f b e =
    elim (Bool-cases (ltb (length buf) need)) [
      | inr enough ↦ rw enough (buf, p ∷ rd, refl, refl, ground arith, clean, omega arith)
      | inl short ↦
          let r = read (room - length buf) (p ∷ rd) in
          let (same, fine, clean', fewer) =
            read-Reads (room - length buf) p rd (ground arith) clean in
          let all : (buf ++ r.0.bytes) ++ content r.1 ≡ buf ++ content (p ∷ rd) =
            append_assoc buf r.0.bytes (content r.1) ∙ ap (◌++◌ buf) same in
          let (buf', rd', run, kept, long, clean'', calls') =
            fill-Fills fuel need room (buf ++ r.0.bytes) r.1 clean' (omega arith) b
              (omega (arith, ap length all)) in
          rw (short, fine) (buf', rd', run, kept ∙ all, long, clean'', omega arith)
    ]

-- A reader that ends before `need` bytes ends the copy.
pub fill-ended :
    (fuel need room : ℕ) (buf : Str) (rd : Reader)
    → IsClean rd
    → calls rd < fuel
    → need ≤ room
    → length (buf ++ content rd) < need
    → fill fuel need room buf rd ≡ ended
unfolding fill read
fill-ended zero need room buf rd clean f b e = absurd (omega arith)
fill-ended (suc fuel) need room buf [] clean f b e =
    let short : ltb (length (buf ++ [])) need ≡ true = ground arith in
    let before : ltb (length buf) need ≡ true = ground (arith, ap length (append-nil buf)) in
    rw (before, short)
fill-ended (suc fuel) need room buf (p ∷ rd) clean f b e =
    let r = read (room - length buf) (p ∷ rd) in
    let (same, fine, clean', fewer) =
      read-Reads (room - length buf) p rd (omega (arith, length-append buf (content (p ∷ rd))))
        clean in
    let all : (buf ++ r.0.bytes) ++ content r.1 ≡ buf ++ content (p ∷ rd) =
      append_assoc buf r.0.bytes (content r.1) ∙ ap (◌++◌ buf) same in
    let short : ltb (length buf) need ≡ true =
      ground (arith, length-append buf (content (p ∷ rd))) in
    rw (short, fine)
      (fill-ended fuel need room (buf ++ r.0.bytes) r.1 clean' (omega arith) b
        (omega (arith, ap length all)))
