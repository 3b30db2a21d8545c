-- ===== src/Spawner/Start.antt =====
-- `_start`: from the options of the user to a running pod. The actions that other modules or hooks
-- provide are arguments: `load_options` (`load_user_options`), `watch` and `watch_events` (the
-- reflectors), `build_pod` (`get_pod_manifest` and `modify_pod_hook`; it gives the pod's name) and
-- `created_hook` (`after_pod_created_hook`).
pub mod Outcome
pub mod Failure
use kubespawner.Prelude.{
  ℕ, Bool, true, false, not, ◌&&◌, ◌||◌, Option, none, some, List, [], ◌∷◌, ◌==◌, if◌then◌else◌,
}
use kubespawner.Text.{Text, codes, text_eq}
use kubespawner.Dict.{get, has}
use kubespawner.Spawner.Defs.{
  Exn, Result, ok, err, Field, missing, null, value, Pod, Spawner, Config, Reply, Url, Cluster, St,
  Exec, pure, raise, catch, gets, call, modify, Backoff, own_key, ◌>>=◌, ◌>>◌, success, api_error,
  timed_out, raised, timeout_error, key_error, api_exception,
}
use kubespawner.Spawner.Events.{Event, own_events}
use kubespawner.Spawner.Requests.{
  make_create_pod_request, make_create_pvc_request, make_create_resource_request, ensure_not_exists,
  ensure_namespace, is_pod_running, pod_has_uid,
}
use kubespawner.Spawner.Stop.{stop, on_timeout, shown, is_none}

-- The default timeout of `exponential_backoff`.
abbrev default_timeout : ℕ
default_timeout = 10

abbrev pub required : {W : Type 0} → Option Pod → Exec W Pod
required none = raise key_error
required (some pod) = pure pod

-- `pod["metadata"]["uid"]`
abbrev pub pod_uid : {W : Type 0} → Field Text → Exec W (Option Text)
pod_uid missing = raise key_error
pod_uid null = pure none
pod_uid (value uid) = pure (some uid)

module _ {W : Type 0} (c : Config) (k : Cluster W) (backoff : Backoff W)
    (watch : (replace : Bool) → Exec W (Unit {0})) (pod_url : Spawner → Pod → Result Url)
    (watch_events load_options created_hook : Exec W (Unit {0})) (build_pod : Exec W Text) where
  abbrev stop_now : Exec W (Unit {0})
  stop_now = stop c k backoff watch pod_url true

  abbrev when : Bool → Exec W (Unit {0}) → Exec W (Unit {0})
  when b m = if b then m else pure tt

  -- `if events: self._last_event = events[-1]["metadata"]["uid"]`
  abbrev marked : List Event → Spawner → Spawner
  marked [] p = p
  marked (e ∷ []) p = record p { last_event = some e.uid }
  marked (e ∷ f ∷ es) p = marked (f ∷ es) p

  unfoldable pub record_last_event : Exec W (Unit {0})
  record_last_event = do
    s ← gets (λ s. s)
    modify (
        marked (
          own_events (if c.events_enabled then some (k.events s.world) else none) s.spawner.pod_name
            s.spawner.last_event))

  -- The pass function of `_check_pvc_exists`: a claim that is read is true.
  abbrev pvc_read : Reply → Exec W Bool
  pvc_read success = pure true
  pvc_read (api_error status) = raise (api_exception status)
  pvc_read timed_out = raise timeout_error
  pvc_read (raised e) = raise e

  unfoldable pub read_pvc_request : (pvc_name : Text) → Exec W Bool
  read_pvc_request pvc_name = do
    namespace ← gets (λ s. s.spawner.namespace)
    reply ← call (k.read_pvc namespace pvc_name)
    pvc_read reply

  abbrev if_missing : Exn → Exec W Bool
  if_missing (api_exception status) =
      if status == 404 then pure false else raise (api_exception status)
  if_missing e = raise e

  -- `_check_pvc_exists`
  unfoldable pub check_pvc_exists : (pvc_name : Text) → Exec W Bool
  check_pvc_exists pvc_name =
      catch (do backoff (read_pvc_request pvc_name) c.retry_timeout; pure true) if_missing

  abbrev known_pvc : Text → Spawner → Spawner
  known_pvc name p = record p { pvc_name = name; pvc_exists = true }

  abbrev state_unknown : Option Text → Bool
  state_unknown none = false
  state_unknown (some v) = text_eq v (codes "unknown")

  -- The claim of a state saved before kubespawner 7 may have the legacy name.
  unfoldable pub find_legacy_pvc : Exec W (Unit {0})
  unfolding check_pvc_exists
  find_legacy_pvc = do
    p ← gets (λ s. s.spawner)
    when
        (c.handle_legacy_names
          && c.remember_pvc_name
          && not p.pvc_exists
          && state_unknown p.state_version
          && not (text_eq c.legacy_pvc_name p.pvc_name))
        (do
          current ← check_pvc_exists p.pvc_name
          if current then modify (known_pvc p.pvc_name) else (do
            legacy ← check_pvc_exists c.legacy_pvc_name
            when legacy (modify (known_pvc c.legacy_pvc_name))))

  unfoldable pub ensure_pvc : Exec W (Unit {0})
  ensure_pvc = do
    find_legacy_pvc
    name ← gets (λ s. s.spawner.pvc_name)
    backoff (make_create_pvc_request k name) c.retry_timeout
    modify (λ p. record p { pvc_exists = true })

  -- The two steps that replace an object that the pod owns.
  unfoldable pub replace_resource : (kind name : Text) → Exec W (Unit {0})
  replace_resource kind name = do
    backoff (ensure_not_exists k kind name) default_timeout
    backoff (make_create_resource_request k kind name) default_timeout

  -- The body of the `try` statement after the pod's creation.
  unfoldable pub create_owned : (key : Text) → Exec W (Unit {0})
  create_owned key = do
    backoff (gets (λ s. pod_has_uid (shown k key s))) default_timeout
    there ← gets (λ s. is_none (shown k key s))
    when there (raise key_error)
    when c.internal_ssl (replace_resource (codes "secret") c.secret_name)
    name ← gets (λ s. s.spawner.pod_name)
    when (c.internal_ssl || c.services_enabled) (replace_resource (codes "service") name)
    when c.has_created_hook created_hook

  -- `except Exception: await self.stop(True); raise`
  unfoldable pub owned_or_stop : (key : Text) → Exec W (Unit {0})
  owned_or_stop key = catch (create_owned key) (λ e. do stop_now; raise e)

  unfoldable pub wait_running : (key : Text) → Exec W (Unit {0})
  wait_running key =
      catch (backoff (λ s. (is_pod_running (shown k key s), s)) c.start_timeout)
        (on_timeout (do absent ← gets (λ s. is_none (shown k key s)); when absent (watch true)))

  -- `self.pod_id = …`, and the url.
  abbrev pub located : Pod → Option Text → Exec W Url
  located pod uid = do
    modify (λ p. record p { pod_id = uid })
    p ← gets (λ s. s.spawner)
    (λ s. (pod_url p pod, s))

  abbrev pub identified : Pod → Exec W Url
  identified pod = do uid ← pod_uid pod.uid; located pod uid

  -- From the running pod on.
  unfoldable pub finish : (key : Text) → Exec W Url
  finish key = do pod ← (λ s. required (shown k key s) s); identified pod

  -- `_start` up to the pod's manifest.
  unfoldable pub prepare : Exec W (Unit {0})
  prepare = do
    load_options
    when c.enable_user_namespaces (ensure_namespace k)
    watch false
    when c.events_enabled watch_events
    record_last_event
    when c.storage_pvc_ensure ensure_pvc

  -- The creation of the pod called `name`, and of what it owns.
  unfoldable pub create : (key name : Text) → Exec W (Unit {0})
  create key name = do
    backoff (make_create_pod_request k stop_now name) c.retry_timeout
    when (c.internal_ssl || c.services_enabled || c.has_created_hook) (owned_or_stop key)

  -- `_start`
  unfoldable pub start : Exec W Url
  start = do
    prepare
    name ← build_pod
    key ← gets (λ s. own_key s.spawner)
    create key name
    wait_running key
    finish key
