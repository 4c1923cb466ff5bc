-- ===== src/Engine/Streams.antt =====
-- engine/streams.go: the output of a job, which copies what is written to each destination. A
-- destination is what it holds, whether a write to it fails, and whether its Close does.
pub mod Laws
use docker_analysis.Base.{
  ℕ, suc, zero, ◌+◌, ◌≡◌, ◌<◌, Bool, true, false, ◌&&◌, ◌||◌, List, [], ◌∷◌, ◌++◌, Option, none,
  some, if◌then◌else◌, Str, codes, arith, refl, length, drop, is_empty, nat_beq, not, map, ap, inl,
  inr, Bool-cases, ◌∙◌, sym, leb, ltb,
}
use docker_analysis.Base.Text.{contains_byte, NoByte}
use Prim.Native.Nat.{◌-◌}

pub record Dest : Type 0 where
  pub written : Str
  pub write_error : Option Str
  pub close_error : Option Str
  pub closed : Bool

pub record Output : Type 0 where
  pub dests : List Dest
  pub used : Bool

abbrev pub new_output : Output
new_output = record { dests = []; used = false }

unfoldable pub add_dest : Dest → Output → Output
add_dest d o = record o { dests = o.dests ++ d ∷ [] }

abbrev pub or_first : Option Str → Option Str → Option Str
or_first none e = e
or_first (some e) _ = some e

abbrev pub write_dest : Str → Dest → Dest
write_dest p d = elim d.write_error [ none ↦ record d { written = d.written ++ p } | some _ ↦ d ]

-- The loop of `Write`: each destination is written to, and the first error is kept.
unfoldable pub write_dests : Str → List Dest → Option Str → List Dest × Option Str
write_dests p [] first = ([], first)
write_dests p (d ∷ ds) first =
    let (ds', e) = write_dests p ds (or_first first d.write_error) in (write_dest p d ∷ ds', e)

-- `Write`: the number of bytes, the error, and the output after it.
unfoldable pub write : Str → Output → ℕ × Option Str × Output
unfolding write_dests
write p o =
    let (ds, e) = write_dests p o.dests none in (length p, e, record { dests = ds; used = true })

unfoldable pub close_dests : List Dest → Option Str → List Dest × Option Str
close_dests [] first = ([], first)
close_dests (d ∷ ds) first =
    let (ds', e) = close_dests ds (or_first first d.close_error) in
    (record d { closed = true } ∷ ds', e)

-- `Close`, after the tasks in the background. The destinations stay.
unfoldable pub close : Output → Option Str × Output
unfolding close_dests
close o = let (ds, e) = close_dests o.dests none in (e, record o { dests = ds })

-- `Set` closes the destinations, whatever the error, and puts one in their place.
unfoldable pub set_dest : Dest → Output → Output
unfolding close
set_dest d o = let (_, o') = close o in record o' { dests = d ∷ [] }

unfoldable pub without_newline : Str → Str
without_newline [] = []
without_newline (c ∷ []) = if nat_beq c b'\n' then [] else c ∷ []
without_newline (c ∷ d ∷ cs) = c ∷ without_newline (d ∷ cs)

unfoldable pub newline_at : ℕ → Str → Bool
newline_at i [] = false
newline_at zero (c ∷ cs) = nat_beq c b'\n'
newline_at (suc i) (c ∷ cs) = newline_at i cs

-- The loop of `Tail` over the indices below the first argument, downwards.
unfoldable pub tail_from : ℕ → ℕ → Str → Str
unfolding newline_at
tail_from zero n bytes = bytes
tail_from (suc i) n bytes =
    let found = newline_at i bytes in
    let rest = tail_from i (if found then n - 1 else n) bytes in
    if found && nat_beq n 1 then drop (suc i) bytes else rest

-- `Tail`, for `n` above 0 or 0.
unfoldable pub tail : Str → ℕ → Str
unfolding without_newline tail_from
tail buffer zero = []
tail buffer (suc n) = tail_from (length buffer - 1) (suc n) (without_newline buffer)
