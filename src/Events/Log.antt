-- ===== src/Events/Log.antt =====
-- What the event log retains, and whom an event reaches.
use docker_analysis.Base.{
  ℕ, zero, suc, ◌≡◌, ◌-◌, ◌≤◌, ◌<◌, Bool, true, false, List, [], ◌∷◌, ◌++◌, some, arith, refl, ap,
  sym, ◌∙◌, nat_beq, length, drop, length-append, map, Str, nat_eq, Bool-cases, inl, inr, ◌&&◌,
  ◌||◌, dec_lt,
}
use docker_analysis.Base.Int.{ℤ}
use mathlib.Core.List.{append_assoc, append-nil}
use docker_analysis.Base.Keys.{contains}
use docker_analysis.Events.{
  Message, Events, keep, offer, subscribe, remove_first, unsubscribe, log_event, new_events,
  events_limit,
}

-- The last `n` elements.
unfoldable pub last_n : {A : Type 0} → ℕ → List A → List A
last_n n xs = drop (length xs - n) xs

drop-append :
    {A : Type 0} (n : ℕ) (xs ys : List A) → n ≤ length xs → drop n (xs ++ ys) ≡ drop n xs ++ ys
drop-append zero xs ys h = refl
drop-append (suc n) [] ys h = absurd (omega arith)
drop-append (suc n) (x ∷ xs) ys h = drop-append n xs ys (omega arith)

drop-drop : {A : Type 0} (n : ℕ) (xs : List A) → drop 1 (drop n xs) ≡ drop (suc n) xs
drop-drop zero xs = refl
drop-drop (suc n) [] = refl
drop-drop (suc n) (x ∷ xs) = drop-drop n xs

length-drop : {A : Type 0} (n : ℕ) (xs : List A) → length (drop n xs) ≡ length xs - n
length-drop zero xs = omega arith
length-drop (suc n) [] = omega arith
length-drop (suc n) (x ∷ xs) = omega (arith, length-drop n xs)

keep-last_n :
    (cap : ℕ) (es : List Message) (jm : Message)
    → 0 < cap
    → keep cap (last_n cap es) jm ≡ last_n cap (es ++ jm ∷ [])
unfolding keep last_n
keep-last_n cap es jm some_cap =
    let total : length (es ++ jm ∷ []) ≡ suc (length es) =
      omega (arith, length-append es (jm ∷ [])) in
    let kept = length-drop (length es - cap) es in
    elim (dec_lt (length es) cap) [
      | yes small ↦
          let none_gone : length es - cap ≡ 0 = omega arith in
          let none_goes : length (es ++ jm ∷ []) - cap ≡ 0 = omega arith in
          let room : nat_beq (length es) cap ≡ false = ground arith in
          rw (none_gone, none_goes, room) refl
      | no full ↦
          let same : nat_beq (length (drop (length es - cap) es)) cap ≡ true = ground arith in
          let gone : length (es ++ jm ∷ []) - cap ≡ suc (length es - cap) = omega arith in
          rw (same, gone, drop-drop (length es - cap) es)
            (sym (drop-append (suc (length es - cap)) es (jm ∷ []) (omega arith)))
    ]

-- One call of `log`: its time, its arguments and the listeners that are ready.
pub record Entry : Type 0 where
  pub now : ℤ
  pub ready : ℕ → Bool
  pub action : Str
  pub id : Str
  pub from : Str

abbrev pub message_of : Entry → Message
message_of x = record { status = x.action; id = x.id; from = x.from; time = x.now }

unfoldable pub log_entries : List Entry → Events → Events
unfolding log_event
log_entries [] e = e
log_entries (x ∷ xs) e = log_entries xs (log_event x.now x.ready x.action x.id x.from e).0

log_entries_from :
    (xs : List Entry) (es : List Message) (e : Events)
    → 0 < e.cap
    → e.events ≡ last_n e.cap es
    → (log_entries xs e).events ≡ last_n e.cap (es ++ map message_of xs)
unfolding log_entries log_event
log_entries_from [] es e some_cap h = h ∙ ap (last_n e.cap) (sym (append-nil es))
log_entries_from (x ∷ xs) es e some_cap h =
    log_entries_from xs (es ++ message_of x ∷ []) (log_event x.now x.ready x.action x.id x.from e).0
      some_cap
      (ap (λ old. keep e.cap old (message_of x)) h ∙ keep-last_n e.cap es (message_of x) some_cap)
    ∙ ap (last_n e.cap) (append_assoc es (message_of x ∷ []) (map message_of xs))

-- Whatever is logged from the start on, the log holds the last 64 messages, in their order.
pub log_entries_last :
    (xs : List Entry) → (log_entries xs new_events).events ≡ last_n events_limit (map message_of xs)
unfolding last_n
log_entries_last xs = log_entries_from xs [] new_events (omega arith) refl

contains-offer_head :
    (ready : ℕ → Bool) (s l : ℕ) (rest got : Bool)
    → got ≡ (ready l && rest)
    → (ready s && nat_beq s l || got) ≡ (ready l && (nat_beq s l || rest))
contains-offer_head ready s l rest got h = elim (Bool-cases (nat_beq s l)) [
  | inl same ↦ let e : ready s ≡ ready l = ap ready (ground arith) in ground arith
  | inr other ↦ ground arith
]

-- An event reaches exactly the subscribers that are ready for it.
contains-offer :
    (ready : ℕ → Bool) (ss : List ℕ) (l : ℕ)
    → contains (offer ready ss) l ≡ (ready l && contains ss l)
unfolding offer contains
contains-offer ready [] l = ground arith
contains-offer ready (s ∷ ss) l =
    let split : contains (offer ready (s ∷ ss)) l
        ≡ (ready s && nat_beq s l || contains (offer ready ss) l) =
      ground arith in
    split
    ∙ contains-offer_head ready s l (contains ss l) (contains (offer ready ss) l)
        (contains-offer ready ss l)

remove_first-append :
    (l : ℕ) (ss : List ℕ) → contains ss l ≡ false → remove_first l (ss ++ l ∷ []) ≡ some ss
unfolding remove_first contains
remove_first-append l [] h = ground arith
remove_first-append l (s ∷ ss) h = ground (arith, remove_first-append l ss)

subscribers-log_entries :
    (xs : List Entry) (e : Events)
    → ((log_entries xs e).subscribers ≡ e.subscribers) × ((log_entries xs e).closed ≡ e.closed)
unfolding log_entries log_event
subscribers-log_entries [] e = (refl, refl)
subscribers-log_entries (x ∷ xs) e =
    subscribers-log_entries xs (log_event x.now x.ready x.action x.id x.from e).0

-- A listener that was not subscribed, subscribes and unsubscribes is found and closed, and the
-- subscribers are as before, whatever is logged meanwhile.
pub unsubscribe-log_entries :
    (l : ℕ) (xs : List Entry) (e : Events)
    → contains e.subscribers l ≡ false
    → ((unsubscribe l (log_entries xs (subscribe l e))).0 ≡ true)
      × ((unsubscribe l (log_entries xs (subscribe l e))).1.subscribers ≡ e.subscribers)
      × ((unsubscribe l (log_entries xs (subscribe l e))).1.closed ≡ l ∷ e.closed)
unfolding unsubscribe subscribe
unsubscribe-log_entries l xs e h =
    let (subscribers, closed) = subscribers-log_entries xs (subscribe l e) in
    let found : remove_first l (log_entries xs (subscribe l e)).subscribers ≡ some e.subscribers =
      ap (remove_first l) subscribers ∙ remove_first-append l e.subscribers h in
    rw (unsubscribe, found) (refl, refl, ap (◌∷◌ l) closed)
