-- ===== src/Spawner/Tests/Reports.antt =====
-- Reports of `progress`, with whole percents for floats, and an instance of the theorem.
use kubespawner.Prelude.{◌≡◌, refl, ℕ, ◌+◌, ◌-◌, ◌/◌, true, false, List, [], ◌∷◌, map}
use kubespawner.Text.{codes}
use kubespawner.Spawner.Events.{Event}
use kubespawner.Spawner.Progress.{
  Look, progress, progress_loop, turned, reports, advanced, unseen, seen, event_of,
  progress_complete,
}

abbrev third_closer : ℕ → ℕ
third_closer p = p + (90 - p) / 3

abbrev whole : ℕ → ℕ
whole p = p

abbrev scheduled : Event
scheduled = record {
  involved_name = codes "jupyter-ada";
  uid = codes "1";
  timestamp = codes "08:00";
  event_type = codes "Normal";
  message = codes "Scheduled";
}

abbrev pulled : Event
pulled = record {
  involved_name = codes "jupyter-ada";
  uid = codes "2";
  timestamp = codes "08:01";
  event_type = codes "Normal";
  message = codes "Pulled";
}

abbrev two_looks : List Look
two_looks =
    record { start_done = false; events = scheduled ∷ [] }
    ∷ record { start_done = true; events = scheduled ∷ pulled ∷ [] }
    ∷ []

two_reports :
    progress third_closer whole true 0 two_looks ≡ ((30, scheduled) ∷ (50, pulled) ∷ [], true)
unfolding progress progress_loop turned reports advanced unseen seen
two_reports = refl

-- When the events of the start before go away, as many new ones are not reported.
swallowed :
    progress third_closer whole true 0 (
      record { start_done = false; events = scheduled ∷ [] }
      ∷ record { start_done = true; events = pulled ∷ [] }
      ∷ [])
    ≡ ((30, scheduled) ∷ [], true)
unfolding progress progress_loop turned reports advanced unseen seen
swallowed = refl

progress_complete_example :
    (map event_of ((progress third_closer whole true 0 two_looks).0) ≡ scheduled ∷ pulled ∷ [])
    × ((progress third_closer whole true 0 two_looks).1 ≡ true)
progress_complete_example =
    progress_complete third_closer whole 0 two_looks (scheduled ∷ pulled ∷ [])
      (scheduled ∷ [], refl, (pulled ∷ [], refl, refl))
