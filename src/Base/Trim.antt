-- ===== src/Base/Trim.antt =====
-- `strings.Trim` for a set of bytes, `strings.ToLower` on the letters of ASCII, and the words of a
-- text between its ASCII white space.
use docker_analysis.Base.Classes.{Str}
use docker_analysis.Base.Lists.{is_empty, all}
use docker_analysis.Base.Tests.{nat_beq, leb, if◌then◌else◌}
use docker_analysis.Base.Text.{contains_byte}
use mathlib.Core.Bool.{Bool, true, not, ◌&&◌, ◌||◌}
use mathlib.Core.List.{List, [], ◌∷◌}
use mathlib.Core.Path.{◌≡◌, refl}
use Prim.Native.Nat.{ℕ, ◌+◌}
use native.Mathlib.Omega.{arith}

unfoldable pub trim_left : Str → Str → Str
unfolding contains_byte
trim_left cutset [] = []
trim_left cutset (x ∷ xs) =
    let rest = trim_left cutset xs in if contains_byte x cutset then rest else x ∷ xs

unfoldable pub trim_right : Str → Str → Str
unfolding contains_byte
trim_right cutset [] = []
trim_right cutset (x ∷ xs) =
    let rest = trim_right cutset xs in
    if is_empty rest && contains_byte x cutset then [] else x ∷ rest

unfoldable pub trim : Str → Str → Str
unfolding trim_left trim_right
trim cutset s = trim_left cutset (trim_right cutset s)

abbrev pub lower : ℕ → ℕ
lower c = if leb b'A' c && leb c b'Z' then c + 32 else c

unfoldable pub to_lower : Str → Str
to_lower [] = []
to_lower (c ∷ cs) = lower c ∷ to_lower cs

abbrev pub is_space : ℕ → Bool
is_space c = (leb 9 c && leb c 13) || nat_beq c b' '

abbrev pub end_word : Str → List Str → List Str
end_word [] ws = ws
end_word (c ∷ cs) ws = (c ∷ cs) ∷ ws

-- The word that the text begins with, which is empty before white space, and the words after it.
unfoldable pub words_from : Str → Str × List Str
words_from [] = ([], [])
words_from (c ∷ cs) =
    let (w, ws) = words_from cs in if is_space c then ([], end_word w ws) else (c ∷ w, ws)

unfoldable pub scan_words : Str → List Str
unfolding words_from
scan_words s = let (w, ws) = words_from s in end_word w ws

pub trim_right_clean :
    (cutset s : Str) → all (λ c. not (contains_byte c cutset)) s ≡ true → trim_right cutset s ≡ s
unfolding trim_right
trim_right_clean cutset [] h = refl
trim_right_clean cutset (x ∷ xs) h = ground (arith, trim_right_clean cutset xs)

-- A text without the bytes of the set stays as it is.
pub trim_clean :
    (cutset s : Str) → all (λ c. not (contains_byte c cutset)) s ≡ true → trim cutset s ≡ s
unfolding trim trim_left
trim_clean cutset [] h = rw (trim, trim_right_clean cutset [] h) refl
trim_clean cutset (x ∷ xs) h = rw (trim, trim_right_clean cutset (x ∷ xs) h) (ground arith)
