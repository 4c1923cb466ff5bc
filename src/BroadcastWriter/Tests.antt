-- ===== src/BroadcastWriter/Tests.antt =====
-- The cutting of writes on one writer. The first byte of a packed line is its time.
use docker_analysis.Base.{ℕ, ◌≡◌, false, [], ◌∷◌, ◌++◌, Option, some, Str, codes, refl}
use docker_analysis.BroadcastWriter.{BroadcastWriter, write}
use docker_analysis.BroadcastWriter.Lines.{named, write-append}
use docker_analysis.BroadcastWriter.Times.{untimed_streams}

abbrev pack : ℕ → Str → Str → Option Str
pack t stream line = some (t ∷ stream ++ line)

abbrev untimed : Str → Str
untimed [] = []
untimed (t ∷ line) = line

abbrev one_writer : BroadcastWriter
one_writer = record {
  buf = codes "par";
  streams = (codes "stdout", record { id = 1; received = []; fails = λ p. false } ∷ []) ∷ [];
}

write-append_example :
    ((write pack 5 (codes "tial\nne" ++ codes "xt\n") one_writer).1.buf
      ≡ (write pack 9 (codes "xt\n") (write pack 7 (codes "tial\nne") one_writer).1).1.buf)
    × (untimed_streams pack untimed
          (named (write pack 5 (codes "tial\nne" ++ codes "xt\n") one_writer).1.streams)
        ≡ untimed_streams pack untimed (
            named
              (write pack 9
                (codes "xt\n")
                (write pack 7 (codes "tial\nne") one_writer).1).1.streams))
write-append_example =
    write-append pack untimed 5 7 9 (codes "tial\nne") (codes "xt\n") one_writer
      (λ t t' stream line. refl) ((λ p. refl, tt), tt)
