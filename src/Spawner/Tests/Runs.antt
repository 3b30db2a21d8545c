-- ===== src/Spawner/Tests/Runs.antt =====
-- Runs of the spawner's actions, and instances of the theorems.
use kubespawner.Prelude.{ℕ, ◌≡◌, ◌≢◌, refl, ◌⊎◌, inl, true, none, some, all, List, [], ◌∷◌}
use kubespawner.Text.{Text, codes, text_eq}
use kubespawner.Dict.{get}
use kubespawner.Spawner.Defs.{
  Exn, ok, err, value, success, Cluster, Pod, Url, Spawner, St, Exec, pure, raise, own_key, ◌>>=◌,
}
use kubespawner.Spawner.State.{get_state, load_state, load_state-get_state}
use kubespawner.Spawner.Events.{
  Event, collect, sorted_events, own_events, is_marker, of_pod, after_last,
}
use kubespawner.Spawner.Sorted.{IsStableSort, own_events-after_last}
use kubespawner.Spawner.Requests.{
  deleted, make_delete_pod_request, pvc_created, make_create_pvc_request, pod_created,
  make_create_pod_request, pod_has_uid, is_pod_running,
}
use kubespawner.Spawner.Url.{update_url}
use kubespawner.Spawner.Stop.{
  stop, exit_code, poll_terminated, poll_running, poll_containers, poll_started, poll_pod, poll,
}
use kubespawner.Spawner.Stop.Exited.{Alive}
use kubespawner.Spawner.Stop.Polled.{Stopped, poll-Stopped, poll-Alive}
use kubespawner.Spawner.Start.{
  record_last_event, find_legacy_pvc, ensure_pvc, create_owned, owned_or_stop, wait_running, finish,
  prepare, create, start,
}
use kubespawner.Spawner.Start.Outcome.{IsReady, start_running}
use kubespawner.Spawner.Start.Failure.{CleanedUp, owned_or_stop_cleans_up}
use kubespawner.Spawner.Stop.Gone.{stop_gone, stop_returns}
use kubespawner.Spawner.Tests.{
  World, no_pod, up, shown_pods, cluster, config, alex, state, backoff, backoff-IsBackoff, watch,
  watch-KeepsSpawner, pod_url,
}

-- A running pod is stopped: the wait sees it deleting, and the next time gone.
stop_run : stop config cluster backoff watch pod_url true (state (up none)) ≡ (ok tt, state no_pod)
unfolding stop make_delete_pod_request deleted get text_eq
stop_run = refl

-- The pod of a notebook that has exited with 3 is removed.
poll_run :
    poll config cluster backoff watch pod_url (state (up (some 3))) ≡ (ok (some 3), state no_pod)
unfolding poll poll_pod poll_started poll_containers poll_terminated exit_code stop
    make_delete_pod_request deleted get text_eq
poll_run = refl

poll_run_alive :
    poll config cluster backoff watch pod_url (state (up none)) ≡ (ok none, state (up none))
unfolding poll poll_pod poll_started poll_containers poll_running exit_code update_url
    is_pod_running get text_eq all
poll_run_alive = refl

abbrev build_pod : Exec World Text
build_pod = pure (codes "jupyter-alex")

abbrev nothing : Exec World (Unit {0})
nothing = pure tt

abbrev url : Url
url = record { scheme = codes "http"; hostname = codes "10.0.0.7"; port = some 8888 }

-- The spawner after a start.
abbrev started : Spawner
started = record alex { pvc_exists = true; pod_id = some (codes "uid-7") }

start_run :
    start config cluster backoff watch pod_url nothing nothing nothing build_pod (state no_pod)
    ≡ (ok url, record { spawner = started; world = up none })
unfolding start prepare create wait_running finish owned_or_stop create_owned record_last_event
    find_legacy_pvc ensure_pvc make_create_pvc_request pvc_created make_create_pod_request
    pod_created pod_has_uid is_pod_running get text_eq own_events sorted_events collect all
start_run = refl

-- A hook that raises, and what is left of the pod.
abbrev failing_hook : Exec World (Unit {0})
failing_hook = raise Exn.other

hook_run :
    owned_or_stop config cluster backoff watch pod_url nothing nothing failing_hook build_pod
      (codes "jhub/jupyter-alex")
      (state (up none))
    ≡ (err Exn.other, state no_pod)
unfolding owned_or_stop create_owned pod_has_uid get text_eq stop make_delete_pod_request deleted
hook_run = refl

no_name : get {V = Text} (codes "pvc_name") [] ≡ none
unfolding get
no_name = refl

stop_gone_example : get (codes "jhub/jupyter-alex") (shown_pods no_pod) ≡ none
stop_gone_example =
    stop_gone config cluster backoff watch pod_url backoff-IsBackoff true (state (up none))
      (state no_pod) stop_run

not_shown : get (codes "jhub/jupyter-alex") (shown_pods no_pod) ≡ none
unfolding get
not_shown = refl

-- A cluster in which a deleted pod is gone at once.
abbrev prompt_cluster : Cluster World
prompt_cluster = record cluster { delete_pod = λ namespace name grace w. (success, no_pod) }

stop_returns_example :
    stop config prompt_cluster backoff watch pod_url true (state (up none)) ≡ (ok tt, state no_pod)
stop_returns_example =
    stop_returns config prompt_cluster backoff watch pod_url backoff-IsBackoff true
      (state (up none)) (state (up none)) refl (inl refl) not_shown

poll-Stopped_example :
    let pod = get (codes "jhub/jupyter-alex") (shown_pods (up (some 3))) in
    ((pod ≡ none) × ◌≡◌ {A = ℕ} 3 1)
    ⊎ ((p : Pod) × (pod ≡ some p)
        × (p.phase ≢ codes "Pending")
        × Stopped config cluster backoff watch pod_url backoff-IsBackoff watch-KeepsSpawner p
            (codes "jhub/jupyter-alex")
            3
            (state no_pod))
poll-Stopped_example =
    poll-Stopped config cluster backoff watch pod_url backoff-IsBackoff watch-KeepsSpawner
      (state (up (some 3))) (state no_pod) 3 poll_run

poll-Alive_example :
    (p : Pod) × (get (codes "jhub/jupyter-alex") (shown_pods (up none)) ≡ some p) × Alive p
poll-Alive_example =
    poll-Alive config cluster backoff watch pod_url backoff-IsBackoff watch-KeepsSpawner
      (state (up none)) (state (up none)) poll_run_alive

start_running_example :
    (name : Text) × (u : St World) × ((prepare config cluster backoff watch pod_url nothing nothing
            nothing build_pod
          >>= λ _. build_pod)
        (state no_pod)
      ≡ (ok name, u))
    × (p : Pod) × (get (own_key u.spawner) (shown_pods (up none)) ≡ some p)
    × IsReady p
    × (pod_url started p ≡ ok url)
    × ((uid : Text) → p.uid ≡ value uid → some (codes "uid-7") ≡ some uid)
start_running_example =
    start_running config cluster backoff watch pod_url nothing nothing nothing build_pod
      backoff-IsBackoff (state no_pod) (record { spawner = started; world = up none }) url start_run

owned_or_stop_cleans_up_example :
    (e : Exn) × (u : St World) × (create_owned config cluster backoff watch pod_url nothing nothing
        failing_hook build_pod
        (codes "jhub/jupyter-alex")
        (state (up none))
      ≡ (err e, u))
    × CleanedUp config cluster backoff watch pod_url nothing nothing failing_hook build_pod
        backoff-IsBackoff e u Exn.other
        (state no_pod)
owned_or_stop_cleans_up_example =
    owned_or_stop_cleans_up config cluster backoff watch pod_url nothing nothing failing_hook
      build_pod backoff-IsBackoff (codes "jhub/jupyter-alex") (state (up none)) (state no_pod)
      Exn.other hook_run

load_state-get_state_example :
    let q = load_state config (get_state (codes "7.0.0") [] started) alex in
    (q.pod_name ≡ codes "jupyter-alex")
    × (q.namespace ≡ codes "jhub")
    × (q.dns_name ≡ codes "jupyter-alex.jhub.svc")
    × (q.state_version ≡ some (codes "7.0.0"))
    × (q.pvc_name ≡ codes "claim-alex")
    × (q.pvc_exists ≡ true)
load_state-get_state_example = load_state-get_state config (codes "7.0.0") [] started alex no_name

abbrev event : Text → Text → Event
event uid timestamp = record {
  involved_name = codes "jupyter-alex";
  uid = uid;
  timestamp = timestamp;
  event_type = codes "Normal";
  message = codes "Pulled";
}

abbrev events : List Event
events = event (codes "b") (codes "2024-02") ∷ event (codes "a") (codes "2024-01") ∷ []

own_events-after_last_example :
    (sorted : List Event) × IsStableSort events sorted
    × (own_events (some events) (codes "jupyter-alex") (some (codes "a"))
        ≡ after_last (is_marker (some (codes "a"))) (of_pod (codes "jupyter-alex") sorted))
own_events-after_last_example =
    own_events-after_last events (codes "jupyter-alex") (some (codes "a"))
