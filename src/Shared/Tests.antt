-- ===== src/Shared/Tests.antt =====
-- Runs of the shared reflectors, and instances of the theorems.
use kubespawner.Prelude.{◌<◌, ◌≡◌, refl, sym, ◌∙◌, true, false, none, some, [], ◌∷◌, arith}
use kubespawner.Text.{codes, text_eq}
use kubespawner.Reflector
use kubespawner.Reflector.{
  Reflector, ListReply, listed, refused, from_items, running, no_task, is_done, api_exception,
}
use kubespawner.Reflector.Init.{fresh}
use kubespawner.Shared.{
  Key, key_eq, find, reflector_key, Shared, Owner, returned, failed_with, from_reflector, enter,
  start_reflector, pod_options,
}
use kubespawner.Shared.Steps.{enters, Steps, no_step, then_step, NoneLost, Steps-NoneLost}
use kubespawner.Shared.Replacing.{replace_loaded, replace_refused}

abbrev owner : Owner
owner = record {
  namespace = codes "jhub";
  enable_user_namespaces = false;
  component_label = codes "singleuser-server";
}

abbrev watched : Reflector (Unit {0})
watched = record (fresh (pod_options owner)) {
  watch_task = running;
  first_load_future = Reflector.done;
}

abbrev nobody : Shared (Unit {0})
nobody = record { table = []; next = 0; object = λ i. watched }

abbrev watching : Shared (Unit {0})
watching = record {
  table = (record { kind = codes "pods"; namespace = some (codes "jhub") }, 0) ∷ [];
  next = 1;
  object = λ i. watched;
}

nothing_found : (k : Key) → find k [] ≡ none
unfolding find
nothing_found k = refl

nobody-NoneLost : NoneLost nobody
nobody-NoneLost = record {
  below = λ k i e. (let both : none ≡ some i = sym (nothing_found k) ∙ e in cc both);
  kept = λ i lt. absurd (omega arith);
}

-- Two calls for the pods begin before the first listing comes back.
two_calls :
    Steps false nobody
      (enter false
        (pod_options owner)
        (reflector_key owner (codes "pods"))
        (enter false (pod_options owner) (reflector_key owner (codes "pods")) nobody).0).0
two_calls =
    then_step
      (then_step no_step
        (enters false (pod_options owner) (reflector_key owner (codes "pods")) (λ e. cc e) refl))
      (enters false (pod_options owner) (reflector_key owner (codes "pods")) (λ e. cc e) refl)

Steps-NoneLost_example :
    NoneLost
      (enter false
        (pod_options owner)
        (reflector_key owner (codes "pods"))
        (enter false (pod_options owner) (reflector_key owner (codes "pods")) nobody).0).0
Steps-NoneLost_example = Steps-NoneLost two_calls nobody-NoneLost

found_pods : find (reflector_key owner (codes "pods")) watching.table ≡ some 0
unfolding find key_eq reflector_key text_eq
found_pods = refl

zero_below : 0 < 1
zero_below = omega arith

replace_loaded_example :
    let r = start_reflector owner true (pod_options owner) (listed [] (codes "7")) watching in
    let new = r.0.object 1 in
    let previous = r.0.object 0 in
    (r.1 ≡ returned 1)
    × (find (reflector_key owner (codes "pods")) r.0.table ≡ some 1)
    × (new.watch_task ≡ running)
    × (is_done new.first_load_future ≡ true)
    × (new.resources ≡ from_items [] [])
    × (previous.stopping ≡ true)
    × (previous.watch_task ≡ no_task)
replace_loaded_example =
    replace_loaded owner (pod_options owner) watching 0 found_pods zero_below [] (codes "7")

replace_refused_example :
    let t = (start_reflector owner true (pod_options owner) (refused 403) watching).0 in
    ((start_reflector owner true (pod_options owner) (refused 403) watching).1
      ≡ failed_with (from_reflector (api_exception 403)))
    × (t.object 0 ≡ watched)
    × (start_reflector owner false (pod_options owner) (refused 403) t ≡ (t, returned 1))
    × ((t.object 1).watch_task ≡ no_task)
    × ((t.object 1).resources ≡ [])
replace_refused_example =
    replace_refused owner (pod_options owner) watching 0 found_pods zero_below refl 403
      (refused 403)
