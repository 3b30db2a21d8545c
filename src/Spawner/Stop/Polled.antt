-- ===== src/Spawner/Stop/Polled.antt =====
-- `poll`: what its answers say of the pod that the reflector shows.
use kubespawner.Prelude.{
  ℕ, ◌≡◌, refl, sym, ◌∙◌, ap, Bool, true, false, Option, none, some, List, inl, inr, if◌then◌else◌,
  ◌≢◌, ◌⊎◌,
}
use kubespawner.Text.{Text, codes, text_eq, text_eq_iff}
use kubespawner.Dict.{get}
use kubespawner.Spawner.Defs.{
  Result, ok, Field, missing, null, value, ContainerStatus, Pod, Spawner, Config, Url, Cluster, St,
  Exec, Backoff, IsBackoff, own_key, pure,
}
use kubespawner.Spawner.Requests.{is_pod_running}
use kubespawner.Spawner.Url.{update_url}
use kubespawner.Spawner.Stop.{
  shown, exit_code, stop, poll, poll_pod, poll_started, poll_containers, poll_terminated,
  poll_running,
}
use kubespawner.Spawner.Stop.Exited.{HasExited, exited, not_exited, Alive, is_pending, has_statuses}
use kubespawner.Spawner.Stop.Gone.{KeepsSpawner, stop_gone, ok_value}
use kubespawner.Spawner.Waits.{bind_inv, if_inv}

module _ {W : Type 0} (c : Config) (k : Cluster W) (backoff : Backoff W)
    (watch : (replace : Bool) → Exec W (Unit {0})) (pod_url : Spawner → Pod → Result Url)
    (wait : IsBackoff backoff) (keeps : KeepsSpawner watch) where
  -- The reasons for an exit code, for a pod that is not pending.
  pub data Stopped (pod : Pod) (key : Text) (n : ℕ) (t : St W) : Type 0 where
    no_statuses :
        (pod.container_statuses ≡ missing) ⊎ (pod.container_statuses ≡ null)
        → n ≡ 1
        → Stopped pod key n t
    exited_with :
        (xs : List ContainerStatus)
        → pod.container_statuses ≡ value xs
        → HasExited xs n
        → (c.delete_stopped_pods ≡ true → get key (k.pods t.world) ≡ none)
        → Stopped pod key n t

  maybe_stopped :
      (b : Bool) (s t : St W)
      → (if b then stop c k backoff watch pod_url true else pure tt) s ≡ (ok tt, t)
      → b ≡ true
      → get (own_key s.spawner) (k.pods t.world) ≡ none
  maybe_stopped true s t h e =
      rw (ap own_key (sym (keeps false s))) (stop_gone c k backoff watch pod_url wait true s t h)
  maybe_stopped false s t h e = cc e

  terminated_inv :
      (s t : St W) (m n : ℕ)
      → poll_terminated c k backoff watch pod_url m s ≡ (ok (some n), t)
      → (m ≡ n) × (c.delete_stopped_pods ≡ true → get (own_key s.spawner) (k.pods t.world) ≡ none)
  unfolding poll_terminated
  terminated_inv s t m n h =
      let stopping : Exec W (Unit {0}) =
        if c.delete_stopped_pods then stop c k backoff watch pod_url true else pure tt in
      let r = bind_inv stopping (λ _. pure (some m)) s t (some n) h in
      let same : r.state ≡ t = ap (λ (p : Result (Option ℕ) × St W). p.1) r.then_rest in
      let code : some m ≡ some n = ok_value r.then_rest in
      (cc code, maybe_stopped c.delete_stopped_pods s t (r.first ∙ ap (λ u. (ok tt, u)) same))

  running_none :
      (pod : Pod) (s t : St W) (a : Option ℕ)
      → poll_running c k backoff watch pod_url pod s ≡ (ok a, t)
      → a ≡ none
  unfolding poll_running
  running_none pod s t a h =
      let r = bind_inv (λ u. (is_pod_running (some pod), u)) _ s t a h in
      let update : Exec W (Unit {0}) = if r.value then update_url pod_url pod else pure tt in
      let q = bind_inv update (λ _. pure none) r.state t a r.then_rest in sym (ok_value q.then_rest)

  -- The answers for a pod with statuses.
  containers_stopped :
      (pod : Pod) (e : Option ℕ) (s t : St W) (n : ℕ)
      → poll_containers c k backoff watch pod_url pod e s ≡ (ok (some n), t)
      → (e ≡ some n)
        × (c.delete_stopped_pods ≡ true → get (own_key s.spawner) (k.pods t.world) ≡ none)
  unfolding poll_containers
  containers_stopped pod none s t n h =
      let no : some n ≡ none = running_none pod s t (some n) h in cc no
  containers_stopped pod (some m) s t n h =
      let (e, gone) = terminated_inv s t m n h in (ap some e, gone)

  containers_running :
      (pod : Pod) (e : Option ℕ) (s t : St W)
      → poll_containers c k backoff watch pod_url pod e s ≡ (ok none, t)
      → e ≡ none
  unfolding poll_containers poll_terminated
  containers_running pod none s t h = refl
  containers_running pod (some m) s t h =
      let stopping : Exec W (Unit {0}) =
        if c.delete_stopped_pods then stop c k backoff watch pod_url true else pure tt in
      let r = bind_inv stopping (λ _. pure (some m)) s t none h in ok_value r.then_rest

  started_with_code :
      (pod : Pod) (xs : Field (List ContainerStatus)) (s t : St W) (n : ℕ)
      → pod.container_statuses ≡ xs
      → poll_started c k backoff watch pod_url pod xs s ≡ (ok (some n), t)
      → Stopped pod (own_key s.spawner) n t
  unfolding poll_started
  started_with_code pod missing s t n e h = no_statuses (inl e) (let m = ok_value h in cc m)
  started_with_code pod null s t n e h = no_statuses (inr e) (let m = ok_value h in cc m)
  started_with_code pod (value xs) s t n e h =
      let (code, gone) = containers_stopped pod (exit_code xs) s t n h in
      exited_with xs e (exited xs n code) gone

  pod-Stopped :
      (pod : Option Pod) (s t : St W) (n : ℕ)
      → poll_pod c k backoff watch pod_url pod s ≡ (ok (some n), t)
      → ((pod ≡ none) × (n ≡ 1))
        ⊎ ((p : Pod) × (pod ≡ some p)
            × (p.phase ≢ codes "Pending")
            × Stopped p (own_key s.spawner) n t)
  unfolding poll_pod
  pod-Stopped none s t n h = inl (refl, (let m = ok_value h in cc m))
  pod-Stopped (some p) s t n h =
      let later = poll_started c k backoff watch pod_url p p.container_statuses in
      elim (if_inv (text_eq p.phase (codes "Pending")) (pure none) later s (ok (some n), t) h) [
        | inl (e, r) ↦ let m = ok_value r in cc m
        | inr (e, r) ↦
            let unlike : p.phase ≢ codes "Pending" =
              λ q. (let same = (text_eq_iff p.phase (codes "Pending")).1 q in cc (e, same)) in
            inr (p, refl, unlike, started_with_code p p.container_statuses s t n refl r)
      ]

  started_running :
      (pod : Pod) (xs : Field (List ContainerStatus)) (s t : St W)
      → pod.container_statuses ≡ xs
      → poll_started c k backoff watch pod_url pod xs s ≡ (ok none, t)
      → Alive pod
  unfolding poll_started
  started_running pod missing s t e h = let m = ok_value h in cc m
  started_running pod null s t e h = let m = ok_value h in cc m
  started_running pod (value xs) s t e h =
      has_statuses xs e (λ n. not_exited xs n (containers_running pod (exit_code xs) s t h))

  pod_running :
      (pod : Option Pod) (s t : St W)
      → poll_pod c k backoff watch pod_url pod s ≡ (ok none, t)
      → (p : Pod) × (pod ≡ some p) × Alive p
  unfolding poll_pod
  pod_running none s t h = let m = ok_value h in cc m
  pod_running (some p) s t h =
      let later = poll_started c k backoff watch pod_url p p.container_statuses in
      elim (if_inv (text_eq p.phase (codes "Pending")) (pure none) later s (ok none, t) h) [
        | inl (e, r) ↦ (p, refl, is_pending ((text_eq_iff p.phase (codes "Pending")).0 e))
        | inr (e, r) ↦ (p, refl, started_running p p.container_statuses s t refl r)
      ]

  same_key :
      (s u : St W) (a : Unit {0})
      → watch false s ≡ (ok a, u)
      → own_key u.spawner ≡ own_key s.spawner
  same_key s u a e =
      ap own_key (sym (ap (λ (p : Result (Unit {0}) × St W). p.1.spawner) e) ∙ keeps false s)

  shown_at :
      (s u : St W) (p : Pod)
      → watch false s ≡ (ok tt, u)
      → shown k (own_key u.spawner) u ≡ some p
      → get (own_key s.spawner) (k.pods (watch false s).1.world) ≡ some p
  shown_at s u p e h = rw (e, ← same_key s u tt e) h

  code_at :
      (s u t : St W) (n : ℕ)
      → watch false s ≡ (ok tt, u)
      → poll_pod c k backoff watch pod_url (shown k (own_key u.spawner) u) u ≡ (ok (some n), t)
      → let key = own_key s.spawner in
        let pod = get key (k.pods (watch false s).1.world) in
        ((pod ≡ none) × (n ≡ 1))
        ⊎ ((p : Pod) × (pod ≡ some p) × (p.phase ≢ codes "Pending") × Stopped p key n t)
  code_at s u t n e h =
      rw (e, ← same_key s u tt e) (pod-Stopped (shown k (own_key u.spawner) u) u t n h)

  -- When `poll` gives an exit code, then the reflector, started, shows no pod under the spawner's
  -- key and the code is 1; or the pod is not pending, and either has no container statuses, with
  -- code 1, or its first container called "notebook" has terminated with this code. In this last
  -- case, if `delete_stopped_pods` is set, the pod is not shown at the end. The wait must be as
  -- IsBackoff says, and the reflectors must not touch the object.
  pub poll-Stopped :
      (s t : St W) (n : ℕ)
      → poll c k backoff watch pod_url s ≡ (ok (some n), t)
      → let key = own_key s.spawner in
        let pod = get key (k.pods (watch false s).1.world) in
        ((pod ≡ none) × (n ≡ 1))
        ⊎ ((p : Pod) × (pod ≡ some p) × (p.phase ≢ codes "Pending") × Stopped p key n t)
  unfolding poll
  poll-Stopped s t n h =
      let r = bind_inv (watch false) _ s t (some n) h in code_at s r.state t n r.first r.then_rest

  -- When `poll` says that the server runs, then the reflector, started, shows the spawner's pod, and
  -- this is pending, or has container statuses of which the first one called "notebook", if there
  -- is one, has not terminated. The wait must be as IsBackoff says, and the reflectors must not
  -- touch the object.
  pub poll-Alive :
      (s t : St W)
      → poll c k backoff watch pod_url s ≡ (ok none, t)
      → (p : Pod) × (get (own_key s.spawner) (k.pods (watch false s).1.world) ≡ some p) × Alive p
  unfolding poll
  poll-Alive s t h =
      let r = bind_inv (watch false) _ s t none h in
      let (p, there, alive) = pod_running _ r.state t r.then_rest in
      (p, shown_at s r.state p r.first there, alive)
