-- ===== src/Events.antt =====
-- events/events.go: the daemon's event log and its listeners. A listener is a number, which
-- stands for its channel.
mod Tests
pub mod Log
use docker_analysis.Base.{
  ℕ, zero, suc, ◌≡◌, Bool, true, false, ◌&&◌, ◌||◌, List, [], ◌∷◌, ◌++◌, Option, none, some,
  nat_beq, length, drop, if◌then◌else◌, Str,
}
use docker_analysis.Base.Int.{ℤ, is_zero, int_leb}

-- A `utils.JSONMessage` as `log` makes it.
pub record Message : Type 0 where
  pub status : Str
  pub id : Str
  pub from : Str
  pub time : ℤ

-- `cap` is the capacity of the slice `events`, which no operation changes; `closed` are the
-- channels that were closed.
pub record Events : Type 0 where
  pub events : List Message
  pub cap : ℕ
  pub subscribers : List ℕ
  pub closed : List ℕ

abbrev pub events_limit : ℕ
events_limit = 64

abbrev pub new_events : Events
new_events = record { events = []; cap = events_limit; subscribers = []; closed = [] }

-- The oldest event goes when the slice is full.
unfoldable pub keep : ℕ → List Message → Message → List Message
keep cap es jm = if nat_beq (length es) cap then drop 1 es ++ jm ∷ [] else es ++ jm ∷ []

-- The listeners that receive the event: `ready` tells which take it within the time window.
unfoldable pub offer : (ℕ → Bool) → List ℕ → List ℕ
offer ready [] = []
offer ready (s ∷ ss) = let rest = offer ready ss in if ready s then s ∷ rest else rest

-- `log`, at a time, with the listeners that it reached.
unfoldable pub log_event : ℤ → (ℕ → Bool) → Str → Str → Str → Events → Events × List ℕ
unfolding keep offer
log_event now ready action id from e =
    let jm : Message = record { status = action; id = id; from = from; time = now } in
    (record e { events = keep e.cap e.events jm }, offer ready e.subscribers)

unfoldable pub subscribe : ℕ → Events → Events
subscribe l e = record e { subscribers = e.subscribers ++ l ∷ [] }

-- The listeners without the first one that is `l`, if there is one.
unfoldable pub remove_first : ℕ → List ℕ → Option (List ℕ)
remove_first l [] = none
remove_first l (s ∷ ss) =
    let rest = remove_first l ss in
    if nat_beq s l then some ss else elim rest [ none ↦ none | some r ↦ some (s ∷ r) ]

unfoldable pub unsubscribe : ℕ → Events → Bool × Events
unfolding remove_first
unsubscribe l e = elim (remove_first l e.subscribers) [
  | none ↦ (false, e)
  | some ss ↦ (true, record e { subscribers = ss; closed = l ∷ e.closed })
]

abbrev pub subscribers_count : Events → ℕ
subscribers_count e = length e.subscribers

-- The interval test of `writeCurrent`.
abbrev pub in_interval : ℤ → ℤ → Message → Bool
in_interval since until event =
    int_leb since event.time && (int_leb event.time until || is_zero until)

-- `marshal` is the JSON encoding; `write` is the job's output, with whether it failed.
module _ {S : Type 0} (marshal : Message → Option Str) (write : S → Str → S × Bool) where
  unfoldable pub write_event : S → Message → S × Bool
  write_event out event = elim (marshal event) [ none ↦ (out, false) | some b ↦ write out b ]

  unfoldable pub write_current : ℤ → ℤ → List Message → S → S × Bool
  unfolding write_event
  write_current since until [] out = (out, false)
  write_current since until (event ∷ es) out =
      if in_interval since until event
      then (let (out', failed) = write_event out event in
          elim failed [ true ↦ (out', true) | false ↦ write_current since until es out' ])
      else write_current since until es out
