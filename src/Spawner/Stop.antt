-- ===== src/Spawner/Stop.antt =====
-- `stop`, `poll` and `delete_forever`. `watch` is `_start_watching_pods`, with its `replace`, and
-- `pod_url` is `_get_pod_url`, which a hook can replace.
pub mod Gone
pub mod Exited
pub mod Polled
use kubespawner.Prelude.{
  ℕ, Bool, true, false, not, ◌&&◌, Option, none, some, List, [], ◌∷◌, if◌then◌else◌,
}
use kubespawner.Text.{Text, codes, text_eq}
use kubespawner.Dict.{get, has}
use kubespawner.Spawner.Defs.{
  Exn, Result, ok, err, Field, missing, null, value, Pod, ContainerStatus, Spawner, Config, Url,
  Cluster, St, Exec, pure, raise, catch, gets, modify, Backoff, own_key, ref_key, ◌>>=◌, ◌>>◌,
  timeout_error, key_error,
}
use kubespawner.Spawner.Requests.{make_delete_pod_request, make_delete_pvc_request, is_pod_running}
use kubespawner.Spawner.Url.{update_url}

-- `except TimeoutError: handler; raise`
abbrev pub on_timeout : {W A : Type 0} → Exec W (Unit {0}) → Exn → Exec W A
on_timeout handler timeout_error = do handler; raise timeout_error
on_timeout handler e = raise e

-- Pods that are there, by key: `self.pod_reflector.pods.get(key, None)`.
abbrev pub shown : {W : Type 0} → Cluster W → Text → St W → Option Pod
shown k key s = get key (k.pods s.world)

abbrev pub is_none {ℓ} : {A : Type ℓ} → Option A → Bool
is_none none = true
is_none (some a) = false

-- The loop of `poll` over the containers: the exit code of the notebook container, if it has
-- terminated. Only the first container of that name is looked at.
unfoldable pub exit_code : List ContainerStatus → Option ℕ
exit_code [] = none
exit_code (x ∷ xs) = if text_eq x.name (codes "notebook") then x.terminated else exit_code xs

module _ {W : Type 0} (c : Config) (k : Cluster W) (backoff : Backoff W)
    (watch : (replace : Bool) → Exec W (Unit {0})) (pod_url : Spawner → Pod → Result Url) where
  abbrev pub grace_period : Bool → ℕ
  grace_period now = if now then 0 else c.delete_grace_period

  -- The wait for the pod to disappear.
  abbrev pub wait_gone : (key : Text) → Exec W (Unit {0})
  wait_gone key =
      catch (backoff (gets (λ s. is_none (shown k key s))) c.start_timeout)
        (on_timeout (watch true))

  abbrev pub request_gone : (now : Bool) (key pod_name : Text) → Exec W (Unit {0})
  request_gone now key pod_name = do
    backoff (make_delete_pod_request k pod_name (grace_period now)) c.retry_timeout
    wait_gone key

  -- `stop`
  unfoldable pub stop : (now : Bool) → Exec W (Unit {0})
  stop now = do
    watch false
    key ← gets (λ s. own_key s.spawner)
    pod_name ← gets (λ s. s.spawner.pod_name)
    request_gone now key pod_name

  unfoldable pub poll_terminated : ℕ → Exec W (Option ℕ)
  poll_terminated code = do if c.delete_stopped_pods then stop true else pure tt; pure (some code)

  -- A pod that runs: once it is ready, its url is compared with the server's.
  unfoldable pub poll_running : Pod → Exec W (Option ℕ)
  poll_running pod = do
    running ← (λ s. (is_pod_running (some pod), s))
    if running then update_url pod_url pod else pure tt
    pure none

  unfoldable pub poll_containers : Pod → Option ℕ → Exec W (Option ℕ)
  poll_containers pod none = poll_running pod
  poll_containers pod (some code) = poll_terminated code

  -- `pod["status"].get("containerStatuses")`, and the rest of `poll` for a pod that is not pending.
  unfoldable pub poll_started : Pod → Field (List ContainerStatus) → Exec W (Option ℕ)
  poll_started pod missing = pure (some 1)
  poll_started pod null = pure (some 1)
  poll_started pod (value statuses) = poll_containers pod (exit_code statuses)

  unfoldable pub poll_pod : Option Pod → Exec W (Option ℕ)
  poll_pod none = pure (some 1)
  poll_pod (some pod) =
      if text_eq pod.phase (codes "Pending")
      then pure none
      else poll_started pod pod.container_statuses

  -- `poll`; `none` says that the server runs or is about to.
  unfoldable pub poll : Exec W (Option ℕ)
  poll = do watch false; pod ← gets (λ s. shown k (own_key s.spawner) s); poll_pod pod

  -- `delete_forever`
  unfoldable pub delete_forever : Exec W (Unit {0})
  delete_forever = if not c.delete_pvc then pure tt else if c.shared_pvc then pure tt else (do
    pvc_name ← gets (λ s. s.spawner.pvc_name)
    backoff (make_delete_pvc_request k pvc_name) c.retry_timeout)
