-- ===== src/Spawner/Start/Outcome.antt =====
-- `_start`: when it returns a url, the pod runs.
use kubespawner.Prelude.{
  ◌≡◌, refl, sym, ◌∙◌, ap, Bool, true, false, Option, none, some, if◌then◌else◌, List, all,
}
use kubespawner.Text.{Text, codes, text_eq, text_eq_iff}
use kubespawner.Dict.{get}
use kubespawner.Spawner.Defs.{
  Result, ok, err, Field, ContainerStatus, missing, null, value, Pod, Spawner, Config, Url, Cluster,
  St, Exec, Backoff, IsBackoff, own_key, gets, pure, ◌>>=◌, ◌>>◌,
}
use kubespawner.Spawner.Requests.{is_pod_running, is_pod_running_rest, has_ip, all_ready}
use kubespawner.Spawner.Stop.{shown, is_none}
use kubespawner.Spawner.Stop.Gone.{ok_value}
use kubespawner.Spawner.Start.{
  prepare, create, wait_running, finish, start, required, pod_uid, located, identified,
}
use kubespawner.Spawner.Waits.{bind_inv, catch_inv, backoff_inv}

required_inv :
    {W : Type 0} (o : Option Pod) (s t : St W) (p : Pod)
    → required o s ≡ (ok p, t)
    → (o ≡ some p) × (s ≡ t)
required_inv none s t p h = let e = ap (λ (r : Result Pod × St _). r.0) h in cc e
required_inv (some q) s t p h = (ap some (ok_value h), ap (λ (r : Result Pod × St _). r.1) h)

pod_uid_inv :
    {W : Type 0} (f : Field Text) (s t : St W) (o : Option Text)
    → pod_uid f s ≡ (ok o, t)
    → (s ≡ t) × ((uid : Text) → f ≡ value uid → o ≡ some uid)
pod_uid_inv missing s t o h = let e = ap (λ (r : Result (Option Text) × St _). r.0) h in cc e
pod_uid_inv null s t o h = (ap (λ (r : Result (Option Text) × St _). r.1) h, λ uid e. cc e)
pod_uid_inv (value u) s t o h = (
  ap (λ (r : Result (Option Text) × St _). r.1) h,
  λ uid e. (let v : some u ≡ o = ok_value h in cc (e, v)),
)

-- A pod that runs, has an IP address, is not being deleted, and whose containers are all ready.
pub record IsReady (p : Pod) : Type 0 where
  pub running : p.phase ≡ codes "Running"
  pub has_address : (ip : Text) × (p.pod_ip ≡ value ip)
  pub not_deleted : p.deletion_timestamp ≡ false
  pub all_ready :
      (xs : List ContainerStatus) × (p.container_statuses ≡ value xs)
      × (all (λ (x : ContainerStatus). x.ready) xs ≡ true)

has_ip_inv : (f : Field Text) → has_ip f ≡ ok true → (ip : Text) × (f ≡ value ip)
has_ip_inv missing h = cc h
has_ip_inv null h = cc h
has_ip_inv (value ip) h = (ip, refl)

all_ready_inv :
    (f : Field (List ContainerStatus))
    → all_ready f ≡ ok true
    → (xs : List ContainerStatus) × (f ≡ value xs)
      × (all (λ (x : ContainerStatus). x.ready) xs ≡ true)
all_ready_inv missing h = cc h
all_ready_inv null h = cc h
all_ready_inv (value xs) h = (xs, refl, cc h)

unless_inv :
    (b : Bool) (r : Result Bool)
    → (if b then ok false else r) ≡ ok true
    → (b ≡ false) × (r ≡ ok true)
unless_inv true r h = cc h
unless_inv false r h = (refl, h)

when_inv :
    (b : Bool) (r : Result Bool)
    → (if b then r else ok false) ≡ ok true
    → (b ≡ true) × (r ≡ ok true)
when_inv true r h = (refl, h)
when_inv false r h = cc h

rest_inv :
    (p : Pod) (r : Result Bool)
    → is_pod_running_rest p r ≡ ok true
    → (r ≡ ok true) × (p.deletion_timestamp ≡ false) × (all_ready p.container_statuses ≡ ok true)
rest_inv p (err e) h = cc h
rest_inv p (ok false) h = cc h
rest_inv p (ok true) h =
    let (kept, ready) = unless_inv p.deletion_timestamp (all_ready p.container_statuses) h in
    (refl, kept, ready)

pub is_pod_running-IsReady : (p : Pod) → is_pod_running (some p) ≡ ok true → IsReady p
unfolding is_pod_running
is_pod_running-IsReady p h =
    let rest = is_pod_running_rest p (has_ip p.pod_ip) in
    let (phase, r) = when_inv (text_eq p.phase (codes "Running")) rest h in
    let (ip, kept, ready) = rest_inv p (has_ip p.pod_ip) r in
    record {
      running = (text_eq_iff p.phase (codes "Running")).0 phase;
      has_address = has_ip_inv p.pod_ip ip;
      not_deleted = kept;
      all_ready = all_ready_inv p.container_statuses ready;
    }

module _ {W : Type 0} (c : Config) (k : Cluster W) (backoff : Backoff W)
    (watch : (replace : Bool) → Exec W (Unit {0})) (pod_url : Spawner → Pod → Result Url)
    (watch_events load_options created_hook : Exec W (Unit {0})) (build_pod : Exec W Text)
    (wait : IsBackoff backoff) where
  waited_running :
      (key : Text) (s t : St W)
      → wait_running c k backoff watch pod_url watch_events load_options created_hook build_pod key
          s
        ≡ (ok tt, t)
      → is_pod_running (shown k key t) ≡ ok true
  unfolding wait_running
  waited_running key s t h =
      let pass : Exec W Bool = λ u. (is_pod_running (shown k key u), u) in
      let absent : Exec W (Unit {0}) = (do
        a ← gets (λ u. is_none (shown k key u))
        if a then watch true else pure tt) in
      let waited = catch_inv (backoff pass c.start_timeout) absent s t tt h in
      let (u, e) = backoff_inv backoff wait pass c.start_timeout s t waited in
      let same : u ≡ t = ap (λ (p : Result Bool × St W). p.1) e in
      let runs : is_pod_running (shown k key u) ≡ ok true =
        ap (λ (p : Result Bool × St W). p.0) e in
      rw (← same) runs

  located_inv :
      (pod : Pod) (uid : Option Text) (s t : St W) (url : Url)
      → located c k backoff watch pod_url watch_events load_options created_hook build_pod pod uid s
        ≡ (ok url, t)
      → (s.world ≡ t.world) × (pod_url t.spawner pod ≡ ok url) × (t.spawner.pod_id ≡ uid)
  located_inv pod uid s t url h =
      let p = record s.spawner { pod_id = uid } in
      let after : record s { spawner = p } ≡ t = ap (λ (r : Result Url × St W). r.1) h in
      let found : pod_url p pod ≡ ok url = ap (λ (r : Result Url × St W). r.0) h in
      rw (← after) (refl, found, refl)

  -- What `finish` returns, for a pod that is shown.
  finished :
      (key : Text) (s t : St W) (url : Url)
      → finish c k backoff watch pod_url watch_events load_options created_hook build_pod key s
        ≡ (ok url, t)
      → (p : Pod) × (get key (k.pods s.world) ≡ some p)
        × (s.world ≡ t.world)
        × (pod_url t.spawner p ≡ ok url)
        × ((uid : Text) → p.uid ≡ value uid → t.spawner.pod_id ≡ some uid)
  unfolding finish
  finished key s t url h =
      let here =
        identified c k backoff watch pod_url watch_events load_options created_hook build_pod in
      let place =
        located c k backoff watch pod_url watch_events load_options created_hook build_pod in
      let a = bind_inv (λ u. required (shown k key u) u) here s t url h in
      let (there, same) = required_inv (shown k key s) s a.state a.value a.first in
      let b = bind_inv (pod_uid a.value.uid) (place a.value) a.state t url a.then_rest in
      let (unmoved, uid_of) = pod_uid_inv a.value.uid a.state b.state b.value b.first in
      let (world, to, id) = located_inv a.value b.value b.state t url b.then_rest in
      let still : s.world ≡ t.world = ap (λ (v : St W). v.world) (same ∙ unmoved) ∙ world in
      (a.value, there, still, to, λ uid e. id ∙ uid_of uid e)

  -- If `_start` returns a url, then the pod under the key that the spawner has once the manifest is
  -- built is shown at the end and runs: its phase is "Running", it has an IP address and no
  -- deletion timestamp, and all its containers are ready. The url is that pod's, and `pod_id` is
  -- the pod's uid, if it has one. The wait is as IsBackoff says.
  pub start_running :
      (s t : St W) (url : Url)
      → start c k backoff watch pod_url watch_events load_options created_hook build_pod s
        ≡ (ok url, t)
      → (name : Text) × (u : St W) × ((prepare c k backoff watch pod_url watch_events load_options
                created_hook build_pod
              >>= λ _. build_pod)
            s
          ≡ (ok name, u))
        × (p : Pod) × (get (own_key u.spawner) (k.pods t.world) ≡ some p)
        × IsReady p
        × (pod_url t.spawner p ≡ ok url)
        × ((uid : Text) → p.uid ≡ value uid → t.spawner.pod_id ≡ some uid)
  unfolding start
  start_running s t url h =
      let ready =
        prepare c k backoff watch pod_url watch_events load_options created_hook build_pod in
      let make =
        create c k backoff watch pod_url watch_events load_options created_hook build_pod in
      let running =
        wait_running c k backoff watch pod_url watch_events load_options created_hook build_pod in
      let end = finish c k backoff watch pod_url watch_events load_options created_hook build_pod in
      let run : (key : Text) → Exec W Url = λ key. (do running key; end key) in
      let made : Text → Exec W Url =
        λ name u. (do make (own_key u.spawner) name; run (own_key u.spawner)) u in
      let a = bind_inv ready (λ _. build_pod >>= made) s t url h in
      let b = bind_inv build_pod made a.state t url a.then_rest in
      let key = own_key b.state.spawner in
      let d = bind_inv (make key b.value) (λ _. run key) b.state t url b.then_rest in
      let e = bind_inv (running key) (λ _. end key) d.state t url d.then_rest in
      let runs = waited_running key d.state e.state e.first in
      let (p, there, still, to, uid_of) = finished key e.state t url e.then_rest in
      (
        b.value,
        b.state,
        rw a.first b.first,
        p,
        ap (λ w. get key (k.pods w)) (sym still) ∙ there,
        is_pod_running-IsReady p (ap is_pod_running (sym there) ∙ runs),
        to,
        uid_of,
      )
