-- ===== src/BroadcastWriter/Lines.antt =====
-- The lines that the named streams get do not depend on how the bytes are cut into writes, but for the
-- times in them.
use docker_analysis.Base.{
  ℕ, ◌≡◌, true, List, [], ◌∷◌, ◌++◌, Option, subst, if◌then◌else◌, Str, nat_beq, is_empty, arith,
  refl, ap, ◌∙◌, sym, Bool-cases, Option-cases, inl, inr,
}
use docker_analysis.BroadcastWriter.{
  Streams, BroadcastWriter, push_byte, read_lines, broadcast, broadcast_all, write_raw, write,
}
use docker_analysis.BroadcastWriter.Times.{
  TimeOnly, AllBlind, untimed_streams, untimed_broadcast_all, untimed_broadcast_all-append,
  AllBlind-broadcast_all, untimed_streams-broadcast_all,
}
use mathlib.Core.List.{append_assoc}

-- The lines of a text after others, and what is left.
abbrev join : List Str → List Str × Str → List Str × Str
join ls (more, rest) = (ls ++ more, rest)

push_byte-join :
    (c : ℕ) (ls : List Str) (rest b : Str)
    → push_byte c (join ls (read_lines (rest ++ b)))
      ≡ join (push_byte c (ls, rest)).0 (read_lines ((push_byte c (ls, rest)).1 ++ b))
unfolding push_byte read_lines
push_byte-join c [] rest b = elim (Bool-cases (nat_beq c b'\n')) [
  | inl e ↦ rw (push_byte, e) (newline c (read_lines (rest ++ b)) e)
  | inr e ↦ rw (push_byte, e) refl
]
  where
    newline :
        (c : ℕ) (p : List Str × Str)
        → nat_beq c b'\n' ≡ true
        → push_byte c p ≡ join ((c ∷ []) ∷ []) p
    newline c ([], r) e = rw (push_byte, e) refl
    newline c (l ∷ ls, r) e = rw (push_byte, e) refl
push_byte-join c (l ∷ ls) rest b = elim (Bool-cases (nat_beq c b'\n')) [
  | inl e ↦ rw (push_byte, e) refl
  | inr e ↦ rw (push_byte, e) refl
]

-- A text after another: what is left of the first one begins the rest.
read_lines-append :
    (a b : Str) → read_lines (a ++ b) ≡ join (read_lines a).0 (read_lines ((read_lines a).1 ++ b))
unfolding read_lines
read_lines-append [] b = refl
read_lines-append (c ∷ a) b =
    ap (push_byte c) (read_lines-append a b) ∙ push_byte-join c (read_lines a).0 (read_lines a).1 b

-- The streams that have a name.
abbrev pub named : Streams → Streams
named [] = []
named ((stream, ws) ∷ rest) =
    let others = named rest in if is_empty stream then others else (stream, ws) ∷ others

module _ (marshal : ℕ → Str → Str → Option Str) (untimed : Str → Str) where
  named-write_raw : (p : Str) (s : Streams) → named (write_raw marshal p s) ≡ named s
  unfolding write_raw
  named-write_raw p [] = refl
  named-write_raw p ((stream, ws) ∷ rest) = ground (arith, named-write_raw p rest)

  named-broadcast :
      (t : ℕ) (l : Str) (s : Streams)
      → named (broadcast marshal t l s) ≡ broadcast marshal t l (named s)
  unfolding broadcast
  named-broadcast t l [] = refl
  named-broadcast t l ((stream, ws) ∷ rest) =
      ground (arith, named-broadcast t l rest, Option-cases (marshal t stream l))

  named-broadcast_all :
      (t : ℕ) (ls : List Str) (s : Streams)
      → named (broadcast_all marshal t ls s) ≡ broadcast_all marshal t ls (named s)
  unfolding broadcast_all
  named-broadcast_all t [] s = refl
  named-broadcast_all t (l ∷ ls) s =
      named-broadcast_all t ls (broadcast marshal t l s)
      ∙ ap (broadcast_all marshal t ls) (named-broadcast t l s)

  -- The buffer and the named streams after a write.
  written :
      (t : ℕ) (p : Str) (b : BroadcastWriter)
      → ((write marshal t p b).1.buf ≡ (read_lines (b.buf ++ p)).1)
        × (named (write marshal t p b).1.streams
            ≡ broadcast_all marshal t (read_lines (b.buf ++ p)).0 (named b.streams))
  unfolding write
  written t p b = (
    refl,
    named-broadcast_all t (read_lines (b.buf ++ p)).0 (write_raw marshal p b.streams)
        ∙ ap (broadcast_all marshal t (read_lines (b.buf ++ p)).0) (named-write_raw p b.streams),
  )

  -- The named streams after a write, without the times.
  untimed_written :
      (t : ℕ) (p : Str) (b : BroadcastWriter)
      → TimeOnly marshal untimed
      → AllBlind marshal untimed (named b.streams)
      → untimed_streams marshal untimed (named (write marshal t p b).1.streams)
        ≡ untimed_broadcast_all marshal untimed
            (read_lines (b.buf ++ p)).0
            (untimed_streams marshal untimed (named b.streams))
  untimed_written t p b only blind =
      ap (untimed_streams marshal untimed) (written t p b).1
      ∙ untimed_streams-broadcast_all marshal untimed t (read_lines (b.buf ++ p)).0
          (named b.streams) only blind

  -- Two writes leave the same in the buffer as one write of both texts, at whatever times they are
  -- made, and the same in every named stream but for the times that the lines carry: it makes no
  -- difference where the bytes are cut, also for which writers are evicted. This takes that a line is
  -- packed into the same at any time, but for the time, and that whether a writer fails does not
  -- depend on the times in what it is given.
  pub write-append :
      (t t₁ t₂ : ℕ) (p q : Str) (b : BroadcastWriter)
      → TimeOnly marshal untimed
      → AllBlind marshal untimed (named b.streams)
      → ((write marshal t (p ++ q) b).1.buf ≡ (write marshal t₂ q (write marshal t₁ p b).1).1.buf)
        × (untimed_streams marshal untimed (named (write marshal t (p ++ q) b).1.streams)
            ≡ untimed_streams marshal untimed
                (named (write marshal t₂ q (write marshal t₁ p b).1).1.streams))
  write-append t t₁ t₂ p q b only blind =
      let b₁ = (write marshal t₁ p b).1 in
      let first = read_lines (b.buf ++ p) in
      let (buf₁, s₁) = written t₁ p b in
      let (buf₂, s₂) = written t₂ q b₁ in
      let (buf, s) = written t (p ++ q) b in
      let start = untimed_streams marshal untimed (named b.streams) in
      let blind₁ : AllBlind marshal untimed (named b₁.streams) =
        subst (AllBlind marshal untimed) (sym s₁)
          (AllBlind-broadcast_all marshal untimed t₁ first.0 (named b.streams) blind) in
      let cut : read_lines (b.buf ++ (p ++ q)) ≡ join first.0 (read_lines (b₁.buf ++ q)) =
        ap read_lines (sym (append_assoc b.buf p q))
        ∙ read_lines-append (b.buf ++ p) q
        ∙ ap (λ r. join first.0 (read_lines (r ++ q))) (sym buf₁) in
      (
        buf ∙ ap (λ (r : List Str × Str). r.1) cut ∙ sym buf₂,
        untimed_written t (p ++ q) b only blind
            ∙ ap (λ (r : List Str × Str). untimed_broadcast_all marshal untimed r.0 start) cut
            ∙ untimed_broadcast_all-append marshal untimed first.0 (read_lines (b₁.buf ++ q)).0
                start
            ∙ ap (untimed_broadcast_all marshal untimed (read_lines (b₁.buf ++ q)).0)
                (sym (untimed_written t₁ p b only blind))
            ∙ sym (untimed_written t₂ q b₁ only blind₁),
      )
