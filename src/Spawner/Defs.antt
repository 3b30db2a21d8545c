-- ===== src/Spawner/Defs.antt =====
-- What the actions of the spawner work on: the object, the cluster behind its API, the pods that
-- the reflector shows, and actions that may raise. What was written before a raise stays written.
use kubespawner.Prelude.{ℕ, ◌≡◌, Bool, true, false, Option, List, ◌++◌}
use kubespawner.Text.{Text, codes}
use kubespawner.Dict.{Dict}
use kubespawner.Spawner.Events.{Event}

pub data Exn : Type 0 where
  api_exception : ℕ → Exn
  timeout_error : Exn
  key_error : Exn
  value_error : Exn
  other : Exn

pub data Result {ℓ} (A : Type ℓ) : Type ℓ where
  ok : A → Result A
  err : Exn → Result A

-- The value under a key of a JSON object.
pub data Field (A : Type 0) : Type 0 where
  missing : Field A
  null : Field A
  value : A → Field A

-- An element of `containerStatuses`; `terminated` is the exit code of that state.
pub record ContainerStatus : Type 0 where
  pub name : Text
  pub ready : Bool
  pub terminated : Option ℕ

-- A pod as the reflector holds it, as far as the spawner reads it.
pub record Pod : Type 0 where
  pub phase : Text
  pub pod_ip : Field Text
  pub deletion_timestamp : Bool
  pub uid : Field Text
  pub container_statuses : Field (List ContainerStatus)

-- A url as `urlparse` takes it apart, without its path.
pub record Url : Type 0 where
  pub scheme : Text
  pub hostname : Text
  pub port : Option ℕ

-- The traits and attributes that the actions change.
pub record Spawner : Type 0 where
  pub namespace : Text
  pub pod_name : Text
  pub dns_name : Text
  pub pvc_name : Text
  pub pvc_exists : Bool
  pub state_version : Option Text
  pub pod_id : Option Text
  pub last_event : Option Text
  pub server : Option Url

-- The configuration that the actions read. `legacy_pvc_name` is what `pvc_name_template` expands
-- to under the `escape` scheme, `shared_pvc` says that the spawner is of a named server whose
-- template lacks `{user_server}`, and `connect_hostname` is `pod_connect_ip` with its parts expanded.
pub record Config : Type 0 where
  pub delete_grace_period : ℕ
  pub retry_timeout : ℕ
  pub start_timeout : ℕ
  pub enable_user_namespaces : Bool
  pub events_enabled : Bool
  pub storage_pvc_ensure : Bool
  pub handle_legacy_names : Bool
  pub remember_pvc_name : Bool
  pub legacy_pvc_name : Text
  pub delete_stopped_pods : Bool
  pub internal_ssl : Bool
  pub services_enabled : Bool
  pub has_created_hook : Bool
  pub secret_name : Text
  pub delete_pvc : Bool
  pub shared_pvc : Bool
  pub port : ℕ
  pub connect_hostname : Option Text

-- What a call of the API under `asyncio.wait_for` gives.
pub data Reply : Type 0 where
  success : Reply
  api_error : ℕ → Reply
  timed_out : Reply
  raised : Exn → Reply

-- The world outside the hub: each call is answered, and moves the world on.
pub record Cluster (W : Type 0) : Type 0 where
  pub create_pod : (namespace name : Text) → W → Reply × W
  pub delete_pod : (namespace name : Text) (grace_seconds : ℕ) → W → Reply × W
  pub create_pvc : (namespace name : Text) → W → Reply × W
  pub read_pvc : (namespace name : Text) → W → Reply × W
  pub delete_pvc : (namespace name : Text) → W → Reply × W
  pub create : (kind namespace name : Text) → W → Reply × W
  pub read : (kind namespace name : Text) → W → Reply × W
  pub delete : (kind namespace name : Text) → W → Reply × W
  pub create_namespace : (name : Text) → W → Reply × W
  pub pods : W → Dict Pod
  pub events : W → List Event

pub record St (W : Type 0) : Type 0 where
  pub spawner : Spawner
  pub world : W

abbrev pub Exec : Type 0 → Type 0 → Type 0
Exec W A = St W → Result A × St W

module _ {W A : Type 0} where
  abbrev pub pure : A → Exec W A
  pure a s = (ok a, s)

  abbrev pub raise : Exn → Exec W A
  raise e s = (err e, s)

  abbrev pub gets : (St W → A) → Exec W A
  gets f s = (ok (f s), s)

  -- A call of the API.
  abbrev pub call : (W → A × W) → Exec W A
  call f s = let (a, w) = f s.world in (ok a, record s { world = w })

abbrev pub modify : {W : Type 0} → (Spawner → Spawner) → Exec W (Unit {0})
modify f s = (ok tt, record s { spawner = f s.spawner })

module _ {W A B : Type 0} where
  abbrev pub continue : Result A → (A → Exec W B) → Exec W B
  continue (ok a) f s = f a s
  continue (err e) f s = (err e, s)

  infixl 5 ◌>>=◌ ◌>>◌
  abbrev pub ◌>>=◌ : Exec W A → (A → Exec W B) → Exec W B
  ◌>>=◌ m f s = let (r, s') = m s in continue r f s'

  abbrev pub ◌>>◌ : Exec W A → Exec W B → Exec W B
  m >> n = m >>= λ _. n

-- `exponential_backoff` of JupyterHub: it awaits the pass function until it gives a true value,
-- raises what the function raises, and raises `TimeoutError` when its time is over.
abbrev pub Backoff : Type 0 → Type 0
Backoff W = (pass : Exec W Bool) (timeout : ℕ) → Exec W (Unit {0})

-- `raise` behind a handler, and the end of a `try` statement.
abbrev pub after_error : {W A : Type 0} → (Exn → Exec W A) → Result A → Exec W A
after_error handler (ok a) = pure a
after_error handler (err e) = handler e

-- `try: m except: handler`
abbrev pub catch : {W A : Type 0} → Exec W A → (Exn → Exec W A) → Exec W A
catch m handler s = let (r, s') = m s in after_error handler r s'

-- How such a wait can have gone, from a state to a result and a state. While it sleeps between two
-- calls the world moves on, in any way; the spawner's attributes stay.
pub data Waited {W : Type 0} (pass : Exec W Bool) : St W → Result (Unit {0}) → St W → Type 0 where
  passes : {s t : St W} → pass s ≡ (ok true, t) → Waited pass s (ok tt) t
  raises : {s t : St W} {e : Exn} → pass s ≡ (err e, t) → Waited pass s (err e) t
  expires : {s t : St W} → pass s ≡ (ok false, t) → Waited pass s (err timeout_error) t
  retries :
      {s t u : St W} {r : Result (Unit {0})}
      → pass s ≡ (ok false, t)
      → (later : W) → Waited pass (record t { world = later }) r u
      → Waited pass s r u

-- The documented behaviour of `exponential_backoff`.
abbrev pub IsBackoff : {W : Type 0} → Backoff W → Type 0
IsBackoff {W} backoff =
    (pass : Exec W Bool) (timeout : ℕ) (s : St W)
    → Waited pass s (backoff pass timeout s).0 (backoff pass timeout s).1

abbrev pub ref_key : Text → Text → Text
ref_key namespace name = namespace ++ (codes "/" ++ name)

-- The key of the spawner's own pod.
abbrev pub own_key : Spawner → Text
own_key p = ref_key p.namespace p.pod_name
