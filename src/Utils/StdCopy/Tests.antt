-- ===== src/Utils/StdCopy/Tests.antt =====
-- A connection of two frames, read in three pieces.
use docker_analysis.Base.{◌≡◌, List, [], ◌∷◌, some, arith, refl, length, Str, codes}
use docker_analysis.Utils.StdCopy.{
  StdType, stdout, stderr, Reader, no_error, Writer, done, std_copy, initial_len, write_frame,
}
use docker_analysis.Utils.StdCopy.RoundTrip.{write_all, note_all, std_copy-write_all}

abbrev frames : List (StdType × Str)
frames = (stdout, codes "hi") ∷ (stderr, codes "no") ∷ []

abbrev pieces : Reader
pieces =
    record { bytes = 1 ∷ 0 ∷ 0 ∷ []; error = no_error }
    ∷ record { bytes = 0 ∷ 0 ∷ 0 ∷ 0 ∷ 2 ∷ b'h' ∷ b'i' ∷ 2 ∷ 0 ∷ []; error = no_error }
    ∷ record { bytes = 0 ∷ 0 ∷ 0 ∷ 0 ∷ 0 ∷ 2 ∷ b'n' ∷ b'o' ∷ []; error = no_error }
    ∷ []

abbrev taker : Writer
taker t s = some (length s)

std_copy-write_all_example :
    std_copy 100 taker initial_len [] pieces (record { out = []; err = []; written = 0 })
    ≡ done (note_all frames (record { out = []; err = []; written = 0 }))
unfolding write_all write_frame
std_copy-write_all_example =
    std_copy-write_all taker frames pieces 100 (λ t s. refl) (omega arith, (omega arith, tt))
      (refl, (refl, (refl, tt))) refl (omega arith)
