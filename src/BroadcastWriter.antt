-- ===== src/BroadcastWriter.antt =====
-- pkg/broadcastwriter/broadcastwriter.go: a writer that passes lines on. A writer is its identity,
-- what it received, and which writes to it fail. The packing of a line as JSON, with the time of its
-- `Write` and its stream, is an argument; a time is a number.
mod Tests
pub mod Times
pub mod Lines
use docker_analysis.Base.{
  ℕ, ◌≡◌, Bool, true, false, List, [], ◌∷◌, ◌++◌, Option, none, some, if◌then◌else◌, ◌==◌, str_eq,
  Str, codes, nat_beq, length, is_empty,
}
use docker_analysis.Base.Dict.{lookup, insert}

pub record Writer : Type 0 where
  pub id : ℕ
  pub received : List Str
  pub fails : Str → Bool

abbrev pub Streams : Type 0
Streams = List (Str × List Writer)

pub record BroadcastWriter : Type 0 where
  pub buf : Str
  pub streams : Streams

abbrev pub new : BroadcastWriter
new = record { buf = []; streams = [] }

unfoldable pub add_once : Writer → List Writer → List Writer
add_once w [] = w ∷ []
add_once w (v ∷ vs) = let rest = add_once w vs in if nat_beq v.id w.id then v ∷ vs else v ∷ rest

unfoldable pub add_writer : Writer → Str → BroadcastWriter → BroadcastWriter
unfolding add_once
add_writer w stream b = elim (lookup stream b.streams) [
  | none ↦ record b { streams = insert stream (w ∷ []) b.streams }
  | some ws ↦ record b { streams = insert stream (add_once w ws) b.streams }
]

-- A write to each writer of a stream; one that fails is evicted.
unfoldable pub write_each : Str → List Writer → List Writer
write_each p [] = []
write_each p (w ∷ ws) =
    let rest = write_each p ws in
    if w.fails p then rest else record w { received = w.received ++ p ∷ [] } ∷ rest

-- A byte before the lines and the rest of a text: it ends a line of its own if it is a newline.
unfoldable pub push_byte : ℕ → List Str × Str → List Str × Str
push_byte c ([], rest) = if nat_beq c b'\n' then ((c ∷ []) ∷ [], rest) else ([], c ∷ rest)
push_byte c (l ∷ ls, rest) =
    if nat_beq c b'\n' then ((c ∷ []) ∷ l ∷ ls, rest) else ((c ∷ l) ∷ ls, rest)

-- The lines that are read from the buffer, each with its newline, and what is put back.
unfoldable pub read_lines : Str → List Str × Str
unfolding push_byte
read_lines [] = ([], [])
read_lines (c ∷ cs) = push_byte c (read_lines cs)

module _ (marshal : ℕ → Str → Str → Option Str) where
  -- A line goes to every stream with a name.
  unfoldable pub broadcast : ℕ → Str → Streams → Streams
  unfolding write_each
  broadcast created line [] = []
  broadcast created line ((stream, ws) ∷ rest) =
      let others = broadcast created line rest in
      if is_empty stream then (stream, ws) ∷ others else elim (marshal created stream line) [
        | none ↦ (stream, ws) ∷ others
        | some b ↦ (stream, write_each (b ++ b'\n' ∷ []) ws) ∷ others
      ]

  unfoldable pub broadcast_all : ℕ → List Str → Streams → Streams
  unfolding broadcast
  broadcast_all created [] s = s
  broadcast_all created (l ∷ ls) s = broadcast_all created ls (broadcast created l s)

  -- The stream without a name gets what is written as it is.
  unfoldable pub write_raw : Str → Streams → Streams
  unfolding write_each
  write_raw p [] = []
  write_raw p ((stream, ws) ∷ rest) =
      let others = write_raw p rest in
      if is_empty stream then (stream, write_each p ws) ∷ others else (stream, ws) ∷ others

  -- `Write` at a time, which never fails: the number of bytes and the state.
  unfoldable pub write : ℕ → Str → BroadcastWriter → ℕ × BroadcastWriter
  unfolding read_lines broadcast_all write_raw
  write created p b =
      let (ls, rest) = read_lines (b.buf ++ p) in
      (length p, record { buf = rest; streams = broadcast_all created ls (write_raw p b.streams) })

-- `Clean`: the writers are closed and forgotten, the buffer stays.
unfoldable pub clean : BroadcastWriter → BroadcastWriter
clean b = record b { streams = [] }
