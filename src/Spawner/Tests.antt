-- ===== src/Spawner/Tests.antt =====
-- A cluster, a configuration and a wait to run the spawner's actions with. The cluster holds at most
-- one pod, which can be `jhub/jupyter-alex` only; the wait tries three times, and while it sleeps
-- the cluster does what it was asked for.
mod Runs
mod Manifests
mod Reports
use kubespawner.Prelude.{
  ℕ, zero, suc, ◌≡◌, ◌≢◌, refl, ◌⊎◌, inl, Bool, true, false, Option, none, some, all, List, [], ◌∷◌,
}
use kubespawner.Text.{Text, codes, text_eq}
use kubespawner.Dict.{Dict, get}
use kubespawner.Spawner.Defs.{
  Exn, Result, ok, err, value, ContainerStatus, Pod, Url, Spawner, Config, Reply, Cluster, St, Exec,
  pure, raise, Backoff, Waited, passes, raises, expires, retries, IsBackoff, own_key, success,
  api_error, timeout_error, ◌>>=◌,
}
use kubespawner.Spawner.State.{get_state, load_state, load_state-get_state}
use kubespawner.Spawner.Events.{
  Event, collect, sorted_events, own_events, sorted_events-perm, own_events-eq, is_marker, of_pod,
  after_last,
}
use kubespawner.Spawner.Requests.{
  deleted, make_delete_pod_request, pvc_created, make_create_pvc_request, pod_created,
  make_create_pod_request, pod_has_uid, is_pod_running,
}
use kubespawner.Spawner.Url.{update_url}
use kubespawner.Spawner.Stop.{
  stop, exit_code, poll_terminated, poll_running, poll_containers, poll_started, poll_pod, poll,
}
use kubespawner.Spawner.Stop.Exited.{Alive}
use kubespawner.Spawner.Stop.Polled.{Stopped, poll-Stopped, poll-Alive}
use kubespawner.Spawner.Start.{
  record_last_event, find_legacy_pvc, ensure_pvc, create_owned, owned_or_stop, wait_running, finish,
  prepare, create, start,
}
use kubespawner.Spawner.Start.Outcome.{IsReady, start_running}
use kubespawner.Spawner.Start.Failure.{CleanedUp, owned_or_stop_cleans_up}
use mathlib.Core.List.{Perm}
use kubespawner.Spawner.Stop.Gone.{KeepsSpawner, stop_gone, stop_returns}

-- The pod: there is none, one that has not started yet, one with the exit code of its notebook, or
-- one that is being deleted.
pub data World : Type 0 where
  no_pod : World
  pending : World
  up : Option ℕ → World
  deleting : World

abbrev pub notebook : Option ℕ → ContainerStatus
notebook code = record { name = codes "notebook"; ready = true; terminated = code }

abbrev pub alex_pod : Option ℕ → Pod
alex_pod code = record {
  phase = codes "Running";
  pod_ip = value (codes "10.0.0.7");
  deletion_timestamp = false;
  uid = value (codes "uid-7");
  container_statuses = value (notebook code ∷ []);
}

abbrev pub shown_pods : World → Dict Pod
shown_pods no_pod = []
shown_pods pending =
    (codes "jhub/jupyter-alex", record (alex_pod none) { phase = codes "Pending" }) ∷ []
shown_pods (up code) = (codes "jhub/jupyter-alex", alex_pod code) ∷ []
shown_pods deleting =
    (codes "jhub/jupyter-alex", record (alex_pod none) { deletion_timestamp = true }) ∷ []

-- What the cluster has come to after a pause.
abbrev pub settled : World → World
settled no_pod = no_pod
settled pending = up none
settled (up code) = up code
settled deleting = no_pod

abbrev pub accept : World → Reply × World
accept w = (success, w)

abbrev pub cluster : Cluster World
cluster = record {
  create_pod = λ namespace name w. (success, pending);
  delete_pod = λ namespace name grace w. (success, deleting);
  create_pvc = λ namespace name w. accept w;
  read_pvc = λ namespace name w. accept w;
  delete_pvc = λ namespace name w. accept w;
  create = λ kind namespace name w. accept w;
  read = λ kind namespace name w. (api_error 404, w);
  delete = λ kind namespace name w. accept w;
  create_namespace = λ name w. accept w;
  pods = shown_pods;
  events = λ w. [];
}

abbrev pub config : Config
config = record {
  delete_grace_period = 1;
  retry_timeout = 30;
  start_timeout = 60;
  enable_user_namespaces = false;
  events_enabled = true;
  storage_pvc_ensure = true;
  handle_legacy_names = true;
  remember_pvc_name = true;
  legacy_pvc_name = codes "claim-alex";
  delete_stopped_pods = true;
  internal_ssl = false;
  services_enabled = false;
  has_created_hook = true;
  secret_name = codes "alex";
  delete_pvc = true;
  shared_pvc = false;
  port = 8888;
  connect_hostname = none;
}

abbrev pub alex : Spawner
alex = record {
  namespace = codes "jhub";
  pod_name = codes "jupyter-alex";
  dns_name = codes "jupyter-alex.jhub.svc";
  pvc_name = codes "claim-alex";
  pvc_exists = false;
  state_version = none;
  pod_id = none;
  last_event = none;
  server = none;
}

abbrev pub state : World → St World
state w = record { spawner = alex; world = w }

abbrev pub slept : St World → St World
slept s = record s { world = settled s.world }

abbrev pub attempted : Exec World (Unit {0}) → Result Bool → Exec World (Unit {0})
attempted rest (ok true) s = (ok tt, s)
attempted rest (err e) s = (err e, s)
attempted rest (ok false) s = rest s

abbrev pub attempts : ℕ → Exec World Bool → Exec World (Unit {0})
attempts zero pass s = let (r, t) = pass s in attempted (raise timeout_error) r t
attempts (suc tries) pass s =
    let (r, t) = pass s in attempted (λ v. attempts tries pass (slept v)) r t

abbrev pub backoff : Backoff World
backoff pass timeout s = attempts 2 pass s

last-Waited :
    (pass : Exec World Bool) (s t : St World) (r : Result Bool)
    → pass s ≡ (r, t)
    → let x = attempted (raise timeout_error) r t in Waited pass s x.0 x.1
last-Waited pass s t (ok true) h = passes h
last-Waited pass s t (ok false) h = expires h
last-Waited pass s t (err e) h = raises h

next-Waited :
    (pass : Exec World Bool) (rest : Exec World (Unit {0})) (s t : St World) (r : Result Bool)
    → pass s ≡ (r, t)
    → (let u = slept t in Waited pass u (rest u).0 (rest u).1)
    → let x = attempted (λ v. rest (slept v)) r t in Waited pass s x.0 x.1
next-Waited pass rest s t (ok true) h w = passes h
next-Waited pass rest s t (ok false) h w = retries h (settled t.world) w
next-Waited pass rest s t (err e) h w = raises h

waited :
    (tries : ℕ) (pass : Exec World Bool) (s : St World)
    → Waited pass s (attempts tries pass s).0 (attempts tries pass s).1
waited zero pass s = last-Waited pass s (pass s).1 (pass s).0 refl
waited (suc tries) pass s =
    next-Waited pass (attempts tries pass) s (pass s).1 (pass s).0 refl
      (waited tries pass (slept (pass s).1))

pub backoff-IsBackoff : IsBackoff backoff
backoff-IsBackoff pass timeout s = waited 2 pass s

abbrev pub watch : Bool → Exec World (Unit {0})
watch replace s = (ok tt, s)

pub watch-KeepsSpawner : KeepsSpawner watch
watch-KeepsSpawner b s = refl

abbrev pub pod_url : Spawner → Pod → Result Url
pod_url p pod = ok (record { scheme = codes "http"; hostname = codes "10.0.0.7"; port = some 8888 })
