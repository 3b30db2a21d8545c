-- ===== src/Spawner/Events.antt =====
-- `EventReflector.events` and `KubeSpawner.events`: the events of the spawner's own pod since its
-- last start.
use kubespawner.Prelude.{
  ◌≡◌, ◌∙◌, refl, sym, inl, inr, Bool, true, false, not, ◌&&◌, ◌||◌, Option, none, some, List, [],
  ◌∷◌, ◌++◌, arith, ltb, ◌==◌, if◌then◌else◌, append_assoc, append-nil, Bool-cases,
}
use mathlib.Core.List.{Perm}
use mathlib.Core.List.Perm
use kubespawner.Text.{Text, text_eq}

-- An event of the Kubernetes API. `timestamp` is `event["lastTimestamp"] or event["eventTime"]`.
pub record Event : Type 0 where
  pub involved_name : Text
  pub uid : Text
  pub timestamp : Text
  pub event_type : Text
  pub message : Text

-- `s < t` for texts
unfoldable pub text_lt : Text → Text → Bool
text_lt s [] = false
text_lt [] (d ∷ t) = true
text_lt (c ∷ s) (d ∷ t) = ltb c d || (c == d && text_lt s t)

-- In front of the first later event: what `sorted`, which is stable, does with one more element.
unfoldable pub place : Event → List Event → List Event
place e [] = e ∷ []
place e (f ∷ es) = if text_lt f.timestamp e.timestamp then f ∷ place e es else e ∷ f ∷ es

-- `EventReflector.events`: `sorted(self.resources.values(), key=…)`
unfoldable pub sorted_events : List Event → List Event
unfolding place
sorted_events [] = []
sorted_events (e ∷ es) = place e (sorted_events es)

place-perm : (e : Event) (es : List Event) → Perm (place e es) (e ∷ es)
unfolding place
place-perm e [] = Perm.refl (e ∷ [])
place-perm e (f ∷ es) = elim (Bool-cases (text_lt f.timestamp e.timestamp)) [
  | inl later ↦ rw later (Perm.trans (Perm.cons f (place-perm e es)) (Perm.swap e f es))
  | inr now ↦ rw now (Perm.refl (e ∷ f ∷ es))
]

-- The sorted events are the reflected events, each as often.
pub sorted_events-perm : (es : List Event) → Perm (sorted_events es) es
unfolding sorted_events
sorted_events-perm [] = Perm.refl []
sorted_events-perm (e ∷ es) =
    Perm.trans (place-perm e (sorted_events es)) (Perm.cons e (sorted_events-perm es))

abbrev pub is_marker : Option Text → Event → Bool
is_marker none e = false
is_marker (some uid) e = text_eq e.uid uid

-- The loop of `KubeSpawner.events`, with the events so far.
unfoldable pub collect : Text → Option Text → List Event → List Event → List Event
collect pod_name last_event [] events = events
collect pod_name last_event (e ∷ es) events = collect pod_name last_event es (
    if not (text_eq e.involved_name pod_name)
    then events
    else if is_marker last_event e
    then []
    else events ++ e ∷ [])

-- `KubeSpawner.events`; without an event reflector there are none.
unfoldable pub own_events : Option (List Event) → Text → Option Text → List Event
unfolding collect
own_events none pod_name last_event = []
own_events (some reflected) pod_name last_event =
    collect pod_name last_event (sorted_events reflected) []

-- The events that are the pod's.
abbrev pub of_pod : Text → List Event → List Event
of_pod pod_name [] = []
of_pod pod_name (e ∷ es) =
    if text_eq e.involved_name pod_name then e ∷ of_pod pod_name es else of_pod pod_name es

abbrev pub any : (Event → Bool) → List Event → Bool
any p [] = false
any p (e ∷ es) = p e || any p es

-- What stands behind the last event that satisfies `p`; everything if none does.
abbrev pub after_last : (Event → Bool) → List Event → List Event
after_last p [] = []
after_last p (e ∷ es) = if any p es then after_last p es else if p e then es else e ∷ es

after_last_none : (p : Event → Bool) (es : List Event) → any p es ≡ false → after_last p es ≡ es
after_last_none p [] h = refl
after_last_none p (e ∷ es) h = ground arith

collect-eq :
    (pod_name : Text) (last_event : Option Text) (es events : List Event)
    → collect pod_name last_event es events ≡ (
        if any (is_marker last_event) (of_pod pod_name es)
        then after_last (is_marker last_event) (of_pod pod_name es)
        else events ++ of_pod pod_name es)
unfolding collect
collect-eq n m [] events = sym (append-nil events)
collect-eq n m (e ∷ es) events = elim (Bool-cases (text_eq e.involved_name n)) [
  | inl own ↦ elim (Bool-cases (is_marker m e)) [
    | inl marker ↦ rw (own, marker) (collect-eq n m es [] ∙ ground arith)
    | inr plain ↦
        rw (own, plain)
          (collect-eq n m es (events ++ e ∷ [])
            ∙ rw (append_assoc events (e ∷ []) (of_pod n es)) (ground arith))
  ]
  | inr other ↦ rw other (collect-eq n m es events)
]

-- The spawner's events are the sorted events of its pod behind the last one that has the uid of
-- `_last_event`, or all of them if none has.
pub own_events-eq :
    (reflected : List Event) (pod_name : Text) (last_event : Option Text)
    → own_events (some reflected) pod_name last_event
      ≡ after_last (is_marker last_event) (of_pod pod_name (sorted_events reflected))
unfolding own_events
own_events-eq reflected n m =
    let es = of_pod n (sorted_events reflected) in
    collect-eq n m (sorted_events reflected) [] ∙ ground (arith, after_last_none (is_marker m) es)
