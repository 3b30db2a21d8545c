-- ===== src/Spawner/Progress.antt =====
-- `progress`: the reports of a start to the user. What the loop meets is a list of looks, one for
-- each turn. `F` is the type of Python's floats, `closer` is `progress + (90 - progress) / 3` and
-- `percent` is `int`.
use kubespawner.Prelude.{
  lt→ltb, drop-append, length-append, ◌≡◌, ◌∙◌, sym, ap, refl, ℕ, Bool, true, false, List, [], ◌∷◌,
  ◌++◌, length, drop, map, ltb, if◌then◌else◌, arith, append-nil, append_assoc,
}
use mathlib.Core.List.{map-append}
use kubespawner.Spawner.Events.{Event}

-- One turn of `while True`: whether `start_future` is there and done, and then `self.events`.
pub record Look : Type 0 where
  pub start_done : Bool
  pub events : List Event

-- `range(next_event, len_events)` in `events`
unfoldable pub unseen : (next_event : ℕ) → List Event → List Event
unseen next_event events = if ltb next_event (length events) then drop next_event events else []

unfoldable pub seen : (next_event : ℕ) → List Event → ℕ
seen next_event events = if ltb next_event (length events) then length events else next_event

-- `if break_while_loop: break`, after the turn's reports.
unfoldable pub turned :
    (start_done : Bool)
    → (reported : List (ℕ × Event)) → List (ℕ × Event) × Bool
    → List (ℕ × Event) × Bool
turned true reported later = (reported, true)
turned false reported (later, ended) = (reported ++ later, ended)

module _ {F : Type 0} (closer : F → F) (percent : F → ℕ) where
  -- The reports of some events, from the progress before them.
  unfoldable pub reports : F → List Event → List (ℕ × Event)
  reports p [] = []
  reports p (e ∷ es) = (percent (closer p), e) ∷ reports (closer p) es

  -- The progress after some events.
  unfoldable pub advanced : F → List Event → F
  advanced p [] = p
  advanced p (e ∷ es) = advanced (closer p) es

  -- `while True`, from its state: the reports, and whether it has ended.
  unfoldable pub progress_loop : List Look → (next_event : ℕ) → F → List (ℕ × Event) × Bool
  progress_loop [] next_event p = ([], false)
  progress_loop (l ∷ looks) next_event p =
      let new = unseen next_event l.events in
      turned l.start_done (reports p new)
        (progress_loop looks (seen next_event l.events) (advanced p new))

  -- `progress`, once `_start_watching_events` has returned.
  unfoldable pub progress :
      (events_enabled : Bool) → (start : F) → List Look → List (ℕ × Event) × Bool
  progress events_enabled start looks =
      if events_enabled then progress_loop looks 0 start else ([], true)

abbrev pub EitherWay : Bool → Type 0 → Type 0 → Type 0
EitherWay true A B = A
EitherWay false A B = B

-- From `before` on, the events only grow, up to `last` in the turn that sees the start done.
abbrev pub GrowsTo : (before : List Event) → List Look → (last : List Event) → Type 0
GrowsTo before [] last = ⊥
GrowsTo before (l ∷ looks) last =
    (more : List Event) × (l.events ≡ before ++ more)
    × EitherWay l.start_done (l.events ≡ last) (GrowsTo l.events looks last)

abbrev pub event_of : ℕ × Event → Event
event_of (n, e) = e

unseen-append : (before more : List Event) → unseen (length before) (before ++ more) ≡ more
unfolding unseen
unseen-append before [] = rw (append-nil before) (ground arith)
unseen-append before (e ∷ more) =
    rw
      (lt→ltb (length before) (length (before ++ e ∷ more))
        (omega (arith, length-append {_} before (e ∷ more))))
      (drop-append before (e ∷ more))

seen-append :
    (before more : List Event) → seen (length before) (before ++ more) ≡ length (before ++ more)
unfolding seen
seen-append before more = ground (arith, length-append before more)

module _ {F : Type 0} (closer : F → F) (percent : F → ℕ) where
  events-reports : (p : F) (es : List Event) → map event_of (reports closer percent p es) ≡ es
  unfolding reports
  events-reports p [] = refl
  events-reports p (e ∷ es) = ap (λ fs. e ∷ fs) (events-reports (closer p) es)

  -- What the loop reports, when the turn before has seen `before`.
  abbrev Reports : (before last : List Event) → List (ℕ × Event) × Bool → Type 0
  Reports before last r =
      (rest : List Event) × (last ≡ before ++ rest) × (map event_of (r.0) ≡ rest) × (r.1 ≡ true)

  later-Reports :
      (b : Bool) (before more last : List Event) (p : F) (later : List (ℕ × Event) × Bool)
      → EitherWay b (before ++ more ≡ last) (Reports (before ++ more) last later)
      → Reports before last (turned b (reports closer percent p more) later)
  unfolding turned
  later-Reports true before more last p later e = (more, sym e, events-reports p more, refl)
  later-Reports false before more last p (later, b) (rest, all_of, reported, ended) = (
    more ++ rest,
    all_of ∙ append_assoc before more rest,
    map-append event_of (reports closer percent p more) later
        ∙ rw (events-reports p more, reported) refl,
    ended,
  )

  turned-Reports :
      (b : Bool) (es before more last : List Event) (looks : List Look) (p : F)
      → es ≡ before ++ more
      → EitherWay b (es ≡ last) (
          Reports es last
            (progress_loop closer percent looks (length es) (advanced closer percent p more)))
      → Reports before last (
          turned b (reports closer percent p (unseen (length before) es)) (
            progress_loop closer percent looks
              (seen (length before) es)
              (advanced closer percent p (unseen (length before) es))))
  turned-Reports b es before more last looks p grown h =
      rw (grown, unseen-append before more, seen-append before more)
        (later-Reports b before more last p
          (progress_loop closer percent looks (length (before ++ more))
            (advanced closer percent p more))
          (rw (sym grown) h))

  later_way : (A B C : Type 0) (b : Bool) → (B → C) → EitherWay b A B → EitherWay b A C
  later_way A B C true f h = h
  later_way A B C false f h = f h

  loop-Reports :
      (looks : List Look) (before last : List Event) (p : F)
      → GrowsTo before looks last
      → Reports before last (progress_loop closer percent looks (length before) p)
  unfolding progress_loop
  loop-Reports [] before last p h = absurd h
  loop-Reports (l ∷ looks) before last p (more, grown, h) =
      turned-Reports l.start_done l.events before more last looks p grown (
        later_way _ _ _ l.start_done
          (loop-Reports looks l.events last (advanced closer percent p more)) h)

  -- When the events that the turns see only grow, each time by appending, until a turn sees the start
  -- done, `progress` ends, and reports just the events of that turn, in their order, each once.
  pub progress_complete :
      (start : F) (looks : List Look) (last : List Event)
      → GrowsTo [] looks last
      → (map event_of ((progress closer percent true start looks).0) ≡ last)
        × ((progress closer percent true start looks).1 ≡ true)
  unfolding progress
  progress_complete start looks last h =
      let (rest, all_of, reported, ended) = loop-Reports looks [] last start h in
      (reported ∙ sym all_of, ended)
