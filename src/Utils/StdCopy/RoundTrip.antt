-- ===== src/Utils/StdCopy/RoundTrip.antt =====
-- `StdCopy` undoes `StdWriter`.
use mathlib.Core.List.{append_assoc}
use docker_analysis.Base.{
  ℕ, zero, suc, ◌+◌, ◌≤◌, ◌<◌, ◌≡◌, refl, true, List, [], ◌∷◌, ◌++◌, some, arith, Str, length, take,
  drop, All, sym, ap, ap₂, ◌∙◌, length-append, take-length-append, drop-length-append, nat_beq,
}
use docker_analysis.Utils.StdCopy.{
  StdType, stdin, stdout, stderr, fd_byte, put_uint32, header, write_frame, Reader, full, Writer,
  Copied, done, stream_of, uint32, head_or_zero, extended, note, std_copy, initial_len, fill,
}
use docker_analysis.Utils.StdCopy.Fill.{content, IsClean, calls, fill-Fills, fill-ended}

-- What the writers of several streams put on one connection, in turn.
unfoldable pub write_all : List (StdType × Str) → Str
write_all [] = []
write_all ((t, s) ∷ fs) = write_frame t s ++ write_all fs

-- The frames by stream; what was written to the standard input goes to the output.
unfoldable pub note_all : List (StdType × Str) → Copied → Copied
note_all [] c = c
note_all ((stdin, s) ∷ fs) c = note_all fs (note stdout s c)
note_all ((stdout, s) ∷ fs) c = note_all fs (note stdout s c)
note_all ((stderr, s) ∷ fs) c = note_all fs (note stderr s c)

-- A list that reaches past the first part of another begins with that part.
append_split {ℓ} :
    {A : Type ℓ} (p a c q : List A)
    → a ++ c ≡ p ++ q
    → length p ≤ length a
    → (r : List A) × (a ≡ p ++ r) × (r ++ c ≡ q)
append_split [] a c q e h = (a, refl, e)
append_split (x ∷ p) [] c q e h = absurd (omega arith)
append_split (x ∷ p) (y ∷ a) c q e h =
    let (r, same, rest) = append_split p a c q (ground arith) (omega arith) in
    (r, ground arith, rest)

uint32-put_uint32 : (n : ℕ) (r : Str) → n < 0x1_0000_0000 → uint32 (put_uint32 n ++ r) ≡ n
uint32-put_uint32 n r h = omega arith

-- The stream to which `StdCopy` sends a frame.
abbrev pub target : StdType → StdType
target stdin = stdout
target stdout = stdout
target stderr = stderr

stream_of-fd_byte : (t : StdType) → stream_of (fd_byte t) ≡ some (target t)
stream_of-fd_byte stdin = refl
stream_of-fd_byte stdout = refl
stream_of-fd_byte stderr = refl

note_all-cons :
    (t : StdType) (s : Str) (fs : List (StdType × Str)) (c : Copied)
    → note_all ((t, s) ∷ fs) c ≡ note_all fs (note (target t) s c)
unfolding note_all
note_all-cons stdin s fs c = refl
note_all-cons stdout s fs c = refl
note_all-cons stderr s fs c = refl

eight : (n : ℕ) → n + 8 ≡ suc (suc (suc (suc (suc (suc (suc (suc n)))))))
eight n = omega arith

module _ (w : Writer) (takes_all : (t : StdType) (s : Str) → w t s ≡ some (length s)) where
  -- One round of the loop, its reads given.
  std_copy_step :
      (fuel room size : ℕ) (buf head whole : Str) (rd rd₁ rd₂ : Reader) (t : StdType) (c : Copied)
      → fill (suc fuel) 8 room buf rd ≡ full head rd₁
      → stream_of (head_or_zero head) ≡ some t
      → uint32 (drop 4 head) ≡ size
      → fill (suc fuel) (size + 8) (extended room size) head rd₁ ≡ full whole rd₂
      → length (take size (drop 8 whole)) ≡ size
      → std_copy (suc fuel) w room buf rd c
        ≡ std_copy fuel w
            (extended room size)
            (drop (size + 8) whole)
            rd₂
            (note t (take size (drop 8 whole)) c)
  unfolding std_copy
  std_copy_step fuel room size buf head whole rd rd₁ rd₂ t c run₁ kind sized run₂ long =
      let even : nat_beq size size ≡ true = ground arith in
      rw (run₁, std_copy, kind, sized, run₂, takes_all, sized, long, even)

  std_copy_from :
      (fs : List (StdType × Str)) (fuel room : ℕ) (buf : Str) (rd : Reader) (c : Copied)
      → All (λ f. length f.1 < 0x1_0000_0000) fs
      → IsClean rd
      → buf ++ content rd ≡ write_all fs
      → calls rd + length fs < fuel
      → 8 ≤ room
      → std_copy fuel w room buf rd c ≡ done (note_all fs c)
  unfolding std_copy write_all note_all write_frame
  std_copy_from [] zero room buf rd c sizes clean e f b = absurd (omega arith)
  std_copy_from [] (suc fuel) room buf rd c sizes clean e f b = rw (
    fill-ended (suc fuel) 8 room buf rd clean (omega arith) b (omega (arith, ap length e)),
    std_copy,
  )
  std_copy_from ((t, s) ∷ fs) zero room buf rd c sizes clean e f b = absurd (omega arith)
  std_copy_from ((t, s) ∷ fs) (suc fuel) room buf rd c sizes clean e f b =
      let h = header t (length s) in
      let size : ℕ = length s in
      let all : buf ++ content rd ≡ h ++ (s ++ write_all fs) =
        e ∙ append_assoc h s (write_all fs) in
      let (head, rd₁, run₁, kept₁, long₁, clean₁, calls₁) =
        fill-Fills (suc fuel) 8 room buf rd clean (omega arith) b (omega (arith, ap length all)) in
      let (body, at₁, rest₁) =
        append_split h head (content rd₁) (s ++ write_all fs) (kept₁ ∙ all) long₁ in
      let kind : stream_of (head_or_zero head) ≡ some (target t) =
        ap (λ b. stream_of (head_or_zero b)) at₁ ∙ stream_of-fd_byte t in
      let sized : uint32 (drop 4 head) ≡ size =
        ap (λ b. uint32 (drop 4 b)) at₁ ∙ uint32-put_uint32 size body sizes.0 in
      let (whole, rd₂, run₂, kept₂, long₂, clean₂, calls₂) =
        fill-Fills (suc fuel) (size + 8) (extended room size) head rd₁ clean₁ (omega arith)
          (ground arith) (omega (arith, ap length (kept₁ ∙ all), length-append s (write_all fs))) in
      let (rest, at₂, rest₂) =
        append_split (h ++ s) whole (content rd₂) (write_all fs) (kept₂ ∙ kept₁ ∙ e)
          (omega arith) in
      let frame : take size (drop 8 whole) ≡ s =
        ap (λ b. take size (drop 8 b)) at₂ ∙ take-length-append s rest in
      let left : drop (size + 8) whole ≡ rest =
        ap (λ n. drop n whole) (eight size)
        ∙ ap (drop (suc (suc (suc (suc (suc (suc (suc (suc size))))))))) at₂
        ∙ drop-length-append s rest in
      let ih =
        std_copy_from fs fuel (extended room size) rest rd₂ (note (target t) s c) sizes.1 clean₂
          rest₂ (omega arith) (ground arith) in
      std_copy_step fuel room size buf head whole rd rd₁ rd₂ (target t) c run₁ kind sized run₂
        (ap length frame)
      ∙ ap₂ (λ r f. std_copy fuel w (extended room size) r rd₂ (note (target t) f c)) left frame
      ∙ ih
      ∙ ap done (sym (note_all-cons t s fs c))

-- However the bytes of a multiplexed connection are cut into pieces, `StdCopy` ends without an
-- error and passes every frame, whole and in order, to the stream that it was written for, if
-- no frame reaches 2 ^ 32 bytes, no read fails, the writers take what they are given, and
-- there is more fuel than bytes, pieces and frames together.
pub std_copy-write_all :
    (w : Writer) (fs : List (StdType × Str)) (rd : Reader) (fuel : ℕ)
    → ((t : StdType) (s : Str) → w t s ≡ some (length s))
    → All (λ f. length f.1 < 0x1_0000_0000) fs
    → IsClean rd
    → content rd ≡ write_all fs
    → calls rd + length fs < fuel
    → std_copy fuel w initial_len [] rd (record { out = []; err = []; written = 0 })
      ≡ done (note_all fs (record { out = []; err = []; written = 0 }))
std_copy-write_all w fs rd fuel takes_all sizes clean e f =
    std_copy_from w takes_all fs fuel initial_len [] rd _ sizes clean e f (omega arith)
