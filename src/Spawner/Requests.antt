-- ===== src/Spawner/Requests.antt =====
-- The handlers that `exponential_backoff` retries: each makes one call of the API, and says
-- whether it is done, is to be tried again, or failed.
use kubespawner.Prelude.{
  ℕ, Bool, true, false, not, Option, none, some, List, all, ◌==◌, if◌then◌else◌,
}
use kubespawner.Text.{Text, codes, text_eq}
use kubespawner.Spawner.Defs.{
  Exn, Result, ok, err, Field, missing, null, value, Pod, ContainerStatus, Reply, Cluster, Exec,
  pure, raise, gets, call, ◌>>=◌, ◌>>◌, success, api_error, timed_out, raised, api_exception,
  timeout_error, key_error,
}

module _ {W : Type 0} (k : Cluster W) where
  -- `_make_delete_pod_request` and `_make_delete_pvc_request`, on the reply to their call.
  unfoldable pub deleted : Reply → Exec W Bool
  deleted success = pure true
  deleted timed_out = pure false
  deleted (api_error status) = if status == 404 then pure true else raise (api_exception status)
  deleted (raised e) = raise e

  unfoldable pub make_delete_pod_request : (pod_name : Text) (grace_seconds : ℕ) → Exec W Bool
  unfolding deleted
  make_delete_pod_request pod_name grace_seconds = do
    namespace ← gets (λ s. s.spawner.namespace)
    reply ← call (k.delete_pod namespace pod_name grace_seconds)
    deleted reply

  unfoldable pub make_delete_pvc_request : (pvc_name : Text) → Exec W Bool
  unfolding deleted
  make_delete_pvc_request pvc_name = do
    namespace ← gets (λ s. s.spawner.namespace)
    reply ← call (k.delete_pvc namespace pvc_name)
    deleted reply

  -- `except ApiException` of `_make_create_pod_request`: a conflict stops the pod that is there.
  unfoldable pub pod_created : (stop : Exec W (Unit {0})) → Reply → Exec W Bool
  pod_created stop success = pure true
  pod_created stop timed_out = pure false
  pod_created stop (api_error status) =
      if status == 409 then (do stop; pure false) else raise (api_exception status)
  pod_created stop (raised e) = raise e

  unfoldable pub make_create_pod_request :
      (stop : Exec W (Unit {0})) (pod_name : Text) → Exec W Bool
  unfolding pod_created
  make_create_pod_request stop pod_name = do
    namespace ← gets (λ s. s.spawner.namespace)
    reply ← call (k.create_pod namespace pod_name)
    pod_created stop reply

  -- After a refusal for the quota, whether the claim is there.
  unfoldable pub quota_read : Reply → Exec W Bool
  quota_read success = pure true
  quota_read (api_error status) = raise (api_exception 403)
  quota_read timed_out = raise timeout_error
  quota_read (raised e) = raise e

  unfoldable pub pvc_created : (pvc_name : Text) → Reply → Exec W Bool
  unfolding quota_read
  pvc_created pvc_name success = pure true
  pvc_created pvc_name timed_out = pure false
  pvc_created pvc_name (api_error status) =
      if status == 409
      then pure true
      else if status == 403
      then (do
        namespace ← gets (λ s. s.spawner.namespace)
        reply ← call (k.read_pvc namespace pvc_name)
        quota_read reply)
      else raise (api_exception status)
  pvc_created pvc_name (raised e) = raise e

  -- `_make_create_pvc_request`
  unfoldable pub make_create_pvc_request : (pvc_name : Text) → Exec W Bool
  unfolding pvc_created
  make_create_pvc_request pvc_name = do
    namespace ← gets (λ s. s.spawner.namespace)
    reply ← call (k.create_pvc namespace pvc_name)
    pvc_created pvc_name reply

  -- The second half of `_ensure_not_exists`: a resource that can be read is still there.
  unfoldable pub still_there : Reply → Exec W Bool
  still_there success = pure false
  still_there timed_out = pure false
  still_there (api_error status) = pure (status == 404)
  still_there (raised e) = raise e

  unfoldable pub delete_requested : (kind name : Text) → Reply → Exec W Bool
  unfolding still_there
  delete_requested kind name success = do
    namespace ← gets (λ s. s.spawner.namespace)
    reply ← call (k.read kind namespace name)
    still_there reply
  delete_requested kind name timed_out = pure false
  delete_requested kind name (api_error status) = pure (status == 404)
  delete_requested kind name (raised e) = raise e

  -- `_ensure_not_exists`
  unfoldable pub ensure_not_exists : (kind name : Text) → Exec W Bool
  unfolding delete_requested
  ensure_not_exists kind name = do
    namespace ← gets (λ s. s.spawner.namespace)
    reply ← call (k.delete kind namespace name)
    delete_requested kind name reply

  unfoldable pub resource_created : Reply → Exec W Bool
  resource_created success = pure true
  resource_created timed_out = pure false
  resource_created (api_error status) =
      if status == 409 then pure true else raise (api_exception status)
  resource_created (raised e) = raise e

  -- `_make_create_resource_request`
  unfoldable pub make_create_resource_request : (kind name : Text) → Exec W Bool
  unfolding resource_created
  make_create_resource_request kind name = do
    namespace ← gets (λ s. s.spawner.namespace)
    reply ← call (k.create kind namespace name)
    resource_created reply

  -- `_ensure_namespace`; a timeout is not caught.
  unfoldable pub namespace_created : Reply → Exec W (Unit {0})
  namespace_created success = pure tt
  namespace_created timed_out = raise timeout_error
  namespace_created (api_error status) =
      if status == 409 then pure tt else raise (api_exception status)
  namespace_created (raised e) = raise e

  unfoldable pub ensure_namespace : Exec W (Unit {0})
  unfolding namespace_created
  ensure_namespace = do
    namespace ← gets (λ s. s.spawner.namespace)
    reply ← call (k.create_namespace namespace)
    namespace_created reply

-- `pod["status"]["podIP"] is not None`
abbrev pub has_ip : Field Text → Result Bool
has_ip missing = err key_error
has_ip null = ok false
has_ip (value ip) = ok true

-- `all([cs["ready"] for cs in pod["status"]["containerStatuses"]])`; `None` cannot be iterated.
abbrev pub all_ready : Field (List ContainerStatus) → Result Bool
all_ready missing = err key_error
all_ready null = err Exn.other
all_ready (value cs) = ok (all (λ (c : ContainerStatus). c.ready) cs)

abbrev pub is_pod_running_rest : Pod → Result Bool → Result Bool
is_pod_running_rest pod (err e) = err e
is_pod_running_rest pod (ok ip) =
    if not ip
    then ok false
    else if pod.deletion_timestamp
    then ok false
    else all_ready pod.container_statuses

-- `is_pod_running`
unfoldable pub is_pod_running : Option Pod → Result Bool
is_pod_running none = ok false
is_pod_running (some pod) =
    if text_eq pod.phase (codes "Running")
    then is_pod_running_rest pod (has_ip pod.pod_ip)
    else ok false

-- `pod_has_uid`
unfoldable pub pod_has_uid : Option Pod → Bool
pod_has_uid none = false
pod_has_uid (some pod) = elim pod.uid [ value uid ↦ true | _ ↦ false ]
