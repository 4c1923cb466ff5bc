-- ===== src/BroadcastWriter/Times.antt =====
-- The streams of a broadcast writer without the times in what they were given.
use docker_analysis.Base.{
  ℕ, ◌≡◌, List, [], ◌∷◌, ◌++◌, Option, none, some, if◌then◌else◌, Str, is_empty, arith, refl, ap,
  ◌∙◌, Bool-cases, Option-cases, inl, inr,
}
use docker_analysis.BroadcastWriter.{Writer, Streams, write_each, broadcast, broadcast_all}

-- What stands in the lines apart from the time.
abbrev untimed_line : (Str → Str) → Option Str → Option Str
untimed_line untimed none = none
untimed_line untimed (some b) = some (untimed (b ++ b'\n' ∷ []))

module _ (marshal : ℕ → Str → Str → Option Str) (untimed : Str → Str) where
  -- Whatever the time, a line of a stream is packed or not, and into the same but for the time.
  abbrev pub TimeOnly : Type 0
  TimeOnly =
      (t t' : ℕ) (stream line : Str)
      → untimed_line untimed (marshal t stream line) ≡ untimed_line untimed (marshal t' stream line)

  -- Which writes fail does not depend on the time in them.
  abbrev pub Blind : List Writer → Type 0
  Blind [] = Unit
  Blind (w ∷ ws) = ((p : Str) → w.fails p ≡ w.fails (untimed p)) × Blind ws

  abbrev pub AllBlind : Streams → Type 0
  AllBlind [] = Unit
  AllBlind ((stream, ws) ∷ rest) = Blind ws × AllBlind rest

  abbrev pub untimed_all : List Str → List Str
  untimed_all [] = []
  untimed_all (p ∷ ps) = untimed p ∷ untimed_all ps

  -- The writers and the streams with the time taken out of what was received.
  abbrev pub untimed_writers : List Writer → List Writer
  untimed_writers [] = []
  untimed_writers (w ∷ ws) = record w { received = untimed_all w.received } ∷ untimed_writers ws

  abbrev pub untimed_streams : Streams → Streams
  untimed_streams [] = []
  untimed_streams ((stream, ws) ∷ rest) = (stream, untimed_writers ws) ∷ untimed_streams rest

  untimed_all-append :
      (ps : List Str) (p : Str) → untimed_all (ps ++ p ∷ []) ≡ untimed_all ps ++ untimed p ∷ []
  untimed_all-append [] p = refl
  untimed_all-append (q ∷ ps) p = ap (◌∷◌ (untimed q)) (untimed_all-append ps p)

  Blind-write_each : (p : Str) (ws : List Writer) → Blind ws → Blind (write_each p ws)
  unfolding write_each
  Blind-write_each p [] h = tt
  Blind-write_each p (w ∷ ws) (here, h) = elim (Bool-cases (w.fails p)) [
    | inl e ↦ rw (write_each, e) (Blind-write_each p ws h)
    | inr e ↦ rw (write_each, e) (here, Blind-write_each p ws h)
  ]

  untimed_writers-write_each :
      (p : Str) (ws : List Writer)
      → Blind ws
      → untimed_writers (write_each p ws) ≡ write_each (untimed p) (untimed_writers ws)
  unfolding write_each
  untimed_writers-write_each p [] h = refl
  untimed_writers-write_each p (w ∷ ws) (here, h) =
      let ih = untimed_writers-write_each p ws h in
      ground (arith, ih, here p, untimed_all-append w.received p)

  -- The effect of a line on the streams, without the time.
  unfoldable pub untimed_broadcast : Str → Streams → Streams
  unfolding write_each
  untimed_broadcast line [] = []
  untimed_broadcast line ((stream, ws) ∷ rest) =
      let others = untimed_broadcast line rest in
      if is_empty stream
      then (stream, ws) ∷ others
      else elim (untimed_line untimed (marshal 0 stream line)) [
        | none ↦ (stream, ws) ∷ others
        | some p ↦ (stream, write_each p ws) ∷ others
      ]

  unfoldable pub untimed_broadcast_all : List Str → Streams → Streams
  untimed_broadcast_all [] s = s
  untimed_broadcast_all (l ∷ ls) s = untimed_broadcast_all ls (untimed_broadcast l s)

  pub untimed_broadcast_all-append :
      (xs ys : List Str) (s : Streams)
      → untimed_broadcast_all (xs ++ ys) s ≡ untimed_broadcast_all ys (untimed_broadcast_all xs s)
  unfolding untimed_broadcast_all
  untimed_broadcast_all-append [] ys s = refl
  untimed_broadcast_all-append (x ∷ xs) ys s =
      untimed_broadcast_all-append xs ys (untimed_broadcast x s)

  AllBlind-broadcast :
      (t : ℕ) (l : Str) (s : Streams) → AllBlind s → AllBlind (broadcast marshal t l s)
  unfolding broadcast
  AllBlind-broadcast t l [] h = tt
  AllBlind-broadcast t l ((stream, ws) ∷ rest) (here, h) =
      let ih = AllBlind-broadcast t l rest h in
      elim (Bool-cases (is_empty stream)) [
        | inl e ↦ rw (broadcast, e) (here, ih)
        | inr e ↦ elim (Option-cases (marshal t stream l)) [
          | inl f ↦ rw (broadcast, e, f) (here, ih)
          | inr (b, f) ↦ rw (broadcast, e, f) (Blind-write_each (b ++ b'\n' ∷ []) ws here, ih)
        ]
      ]

  untimed_streams-broadcast :
      (t : ℕ) (l : Str) (s : Streams)
      → TimeOnly
      → AllBlind s
      → untimed_streams (broadcast marshal t l s) ≡ untimed_broadcast l (untimed_streams s)
  unfolding broadcast untimed_broadcast
  untimed_streams-broadcast t l [] only h = refl
  untimed_streams-broadcast t l ((stream, ws) ∷ rest) only (here, h) =
      let ih = untimed_streams-broadcast t l rest only h in
      let same = only t 0 stream l in
      elim (Option-cases (marshal t stream l)) [
        | inl f ↦ ground (arith, f, ih, same)
        | inr (b, f) ↦
            ground (arith, f, ih, same, untimed_writers-write_each (b ++ b'\n' ∷ []) ws here)
      ]

  pub AllBlind-broadcast_all :
      (t : ℕ) (ls : List Str) (s : Streams) → AllBlind s → AllBlind (broadcast_all marshal t ls s)
  unfolding broadcast_all
  AllBlind-broadcast_all t [] s h = h
  AllBlind-broadcast_all t (l ∷ ls) s h =
      AllBlind-broadcast_all t ls (broadcast marshal t l s) (AllBlind-broadcast t l s h)

  pub untimed_streams-broadcast_all :
      (t : ℕ) (ls : List Str) (s : Streams)
      → TimeOnly
      → AllBlind s
      → untimed_streams (broadcast_all marshal t ls s)
        ≡ untimed_broadcast_all ls (untimed_streams s)
  unfolding broadcast_all untimed_broadcast_all
  untimed_streams-broadcast_all t [] s only h = refl
  untimed_streams-broadcast_all t (l ∷ ls) s only h =
      untimed_streams-broadcast_all t ls (broadcast marshal t l s) only (AllBlind-broadcast t l s h)
      ∙ ap (untimed_broadcast_all ls) (untimed_streams-broadcast t l s only h)
