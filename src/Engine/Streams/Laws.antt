-- ===== src/Engine/Streams/Laws.antt =====
-- What reaches the destinations of an output, and the line that a failed job reports.
use docker_analysis.Base.{
  ℕ, suc, ◌≡◌, true, false, [], ◌∷◌, ◌++◌, Str, arith, refl, length, drop, nat_beq, ap, ap₂, ◌∙◌,
  sym, length-append,
}
use docker_analysis.Base.Text.{contains_byte, NoByte}
use docker_analysis.Engine.Streams.{without_newline, newline_at, tail_from, tail}
use Prim.Native.Nat.{◌-◌}
use mathlib.Core.List.{append_assoc, append-nil}

newline_at-append :
    (pre : Str) (c : ℕ) (post : Str) → newline_at (length pre) (pre ++ c ∷ post) ≡ nat_beq c b'\n'
unfolding newline_at
newline_at-append [] c post = refl
newline_at-append (x ∷ pre) c post = newline_at-append pre c post

-- Bytes that are no newline are passed over.
tail_from-skip :
    (pre w post : Str) (n : ℕ)
    → NoByte b'\n' w
    → tail_from (length (pre ++ w)) n (pre ++ (w ++ post))
      ≡ tail_from (length pre) n (pre ++ (w ++ post))
unfolding tail_from contains_byte
tail_from-skip pre [] post n free = ap (λ s. tail_from (length s) n (pre ++ post)) (append-nil pre)
tail_from-skip pre (c ∷ w) post n free =
    let here : nat_beq c b'\n' ≡ false = ground arith in
    let rest : NoByte b'\n' w = ground arith in
    let ih = tail_from-skip (pre ++ c ∷ []) w post n rest in
    let shift : pre ++ c ∷ [] ++ (w ++ post) ≡ pre ++ c ∷ (w ++ post) =
      append_assoc pre (c ∷ []) (w ++ post) in
    let shift' : pre ++ c ∷ [] ++ w ≡ pre ++ c ∷ w = append_assoc pre (c ∷ []) w in
    let size : length (pre ++ c ∷ []) ≡ suc (length pre) =
      omega (arith, length-append pre (c ∷ [])) in
    let seen : newline_at (length pre) (pre ++ c ∷ (w ++ post)) ≡ false =
      newline_at-append pre c (w ++ post) ∙ here in
    let moved : tail_from (length (pre ++ c ∷ w)) n (pre ++ c ∷ (w ++ post))
        ≡ tail_from (suc (length pre)) n (pre ++ c ∷ (w ++ post)) =
      rw (shift, shift', size) at ih in
    moved ∙ rw (tail_from, seen) refl

without_newline-append : (s : Str) → without_newline (s ++ b'\n' ∷ []) ≡ s
unfolding without_newline
without_newline-append [] = refl
without_newline-append (c ∷ []) = refl
without_newline-append (c ∷ d ∷ s) = ap (◌∷◌ c) (without_newline-append (d ∷ s))

length-line : (s : Str) → length (s ++ b'\n' ∷ []) - 1 ≡ length s
length-line s = omega (arith, length-append s (b'\n' ∷ []))

drop-newline : (before line : Str) → drop (suc (length before)) (before ++ b'\n' ∷ line) ≡ line
drop-newline [] line = refl
drop-newline (c ∷ before) line = drop-newline before line

-- The last line of a text of lines, without its newline, is what `Tail` gives for 1.
pub tail-append :
    (before line : Str) → NoByte b'\n' line → tail (before ++ b'\n' ∷ (line ++ b'\n' ∷ [])) 1 ≡ line
unfolding tail tail_from
tail-append before line free =
    let text : Str = before ++ b'\n' ∷ line in
    let whole : before ++ b'\n' ∷ (line ++ b'\n' ∷ []) ≡ text ++ b'\n' ∷ [] =
      sym (append_assoc before (b'\n' ∷ line) (b'\n' ∷ [])) in
    let shift : before ++ b'\n' ∷ [] ++ line ≡ text = append_assoc before (b'\n' ∷ []) line in
    let size : length (before ++ b'\n' ∷ []) ≡ suc (length before) =
      omega (arith, length-append before (b'\n' ∷ [])) in
    let skip : tail_from (length text) 1 text ≡ tail_from (suc (length before)) 1 text =
      ap₂ (λ (i : ℕ) (s : Str). tail_from i 1 s) (ap length (sym shift)) (sym shift')
      ∙ tail_from-skip (before ++ b'\n' ∷ []) line [] 1 free
      ∙ ap₂ (λ (i : ℕ) (s : Str). tail_from i 1 s) size shift' in
    let seen : newline_at (length before) text ≡ true = newline_at-append before b'\n' line in
    ap (λ s. tail s 1) whole
    ∙ ap₂ (λ (i : ℕ) (s : Str). tail_from i 1 s) (length-line text) (without_newline-append text)
    ∙ skip
    ∙ last before line seen
  where
    shift' : before ++ b'\n' ∷ [] ++ (line ++ []) ≡ before ++ b'\n' ∷ line
    shift' =
        append_assoc before (b'\n' ∷ []) (line ++ [])
        ∙ ap (λ s. before ++ b'\n' ∷ s) (append-nil line)

    last :
        (before line : Str)
        → newline_at (length before) (before ++ b'\n' ∷ line) ≡ true
        → tail_from (suc (length before)) 1 (before ++ b'\n' ∷ line) ≡ line
    last before line seen = rw seen (drop-newline before line)
