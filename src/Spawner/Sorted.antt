-- ===== src/Spawner/Sorted.antt =====
-- `EventReflector.events` sorts: what `sorted` promises of the reflected events.
use kubespawner.Prelude.{
  ◌≡◌, refl, ◌∙◌, inl, inr, Bool-cases, true, false, List, [], ◌∷◌, arith, if◌then◌else◌, Option,
  some,
}
use mathlib.Core.List.{Perm}
use kubespawner.Text.{Text, text_eq, text_eq_iff}
use kubespawner.Spawner.Events.{
  Event, text_lt, place, sorted_events, sorted_events-perm, own_events, own_events-eq, after_last,
  is_marker, of_pod,
}

text_lt-asym : (s t : Text) → text_lt s t ≡ true → text_lt t s ≡ false
unfolding text_lt
text_lt-asym s [] h = absurd (cc h)
text_lt-asym [] (d ∷ t) h = refl
text_lt-asym (c ∷ s) (d ∷ t) h = ground (arith, text_lt-asym s t)

text_lt_irreflexive : (s : Text) → text_lt s s ≡ false
text_lt_irreflexive s = elim (Bool-cases (text_lt s s)) [ inl e ↦ text_lt-asym s s e | inr e ↦ e ]

-- No event stands in front of an earlier one.
abbrev pub IsOrdered : List Event → Type 0
IsOrdered [] = Unit
IsOrdered (e ∷ []) = Unit
IsOrdered (e ∷ f ∷ es) = (text_lt f.timestamp e.timestamp ≡ false) × IsOrdered (f ∷ es)

-- The events of one time.
abbrev pub at_time : Text → List Event → List Event
at_time t [] = []
at_time t (e ∷ es) = if text_eq e.timestamp t then e ∷ at_time t es else at_time t es

-- The events in the order of their times; those of one time stand as they stood.
pub record IsStableSort (events sorted : List Event) : Type 0 where
  pub ordered : IsOrdered sorted
  pub same : Perm sorted events
  pub stable : (t : Text) → at_time t sorted ≡ at_time t events

place-IsOrdered : (e : Event) (es : List Event) → IsOrdered es → IsOrdered (place e es)
unfolding place
place-IsOrdered e [] h = tt
place-IsOrdered e (f ∷ []) h = elim (Bool-cases (text_lt f.timestamp e.timestamp)) [
  | inl later ↦ rw later (text_lt-asym f.timestamp e.timestamp later, tt)
  | inr now ↦ rw now (now, tt)
]
place-IsOrdered e (f ∷ g ∷ es) h = elim (Bool-cases (text_lt f.timestamp e.timestamp)) [
  | inl later ↦ elim (Bool-cases (text_lt g.timestamp e.timestamp)) [
    | inl last ↦
        let rest = place-IsOrdered e (g ∷ es) h.1 in rw (later, last) (h.0, rw last at rest)
    | inr next ↦ rw (later, next) (text_lt-asym f.timestamp e.timestamp later, (next, h.1))
  ]
  | inr now ↦ rw now (now, h)
]

sorted_events-IsOrdered : (es : List Event) → IsOrdered (sorted_events es)
unfolding sorted_events
sorted_events-IsOrdered [] = tt
sorted_events-IsOrdered (e ∷ es) = place-IsOrdered e (sorted_events es) (sorted_events-IsOrdered es)

at_time-place :
    (t : Text) (e : Event) (es : List Event) → at_time t (place e es) ≡ at_time t (e ∷ es)
unfolding place
at_time-place t e [] = refl
at_time-place t e (f ∷ es) = elim (Bool-cases (text_lt f.timestamp e.timestamp)) [
  | inl later ↦ rw later (
      ground (
        arith,
        at_time-place t e es,
        text_eq_iff e.timestamp t,
        text_eq_iff f.timestamp t,
        text_lt_irreflexive t,
      ))
  | inr now ↦ rw now refl
]

sorted_stable : (es : List Event) (t : Text) → at_time t (sorted_events es) ≡ at_time t es
unfolding sorted_events
sorted_stable [] t = refl
sorted_stable (e ∷ es) t = at_time-place t e (sorted_events es) ∙ rw (sorted_stable es t) refl

-- `sorted_events` is a stable sort.
pub sorted_events-IsStableSort : (es : List Event) → IsStableSort es (sorted_events es)
sorted_events-IsStableSort es = record {
  ordered = sorted_events-IsOrdered es;
  same = sorted_events-perm es;
  stable = sorted_stable es;
}

-- In the order of their times, and those of one time in the order of the reflector, the spawner's
-- events are the reflected events of its pod behind the last one that has the uid of `_last_event`,
-- or all of them if none has.
pub own_events-after_last :
    (reflected : List Event) (pod_name : Text) (last_event : Option Text)
    → (sorted : List Event) × IsStableSort reflected sorted
      × (own_events (some reflected) pod_name last_event
          ≡ after_last (is_marker last_event) (of_pod pod_name sorted))
own_events-after_last reflected n m =
    (sorted_events reflected, sorted_events-IsStableSort reflected, own_events-eq reflected n m)
