-- ===== src/Spawner/Stop/Gone.antt =====
-- `stop`: when it returns, the pod is not among those that the reflector shows.
use kubespawner.Prelude.{
  ℕ, ◌≡◌, refl, ap, Bool, true, false, Option, none, some, inl, inr, if◌then◌else◌, ◌⊎◌,
}
use kubespawner.Dict.{get}
use kubespawner.Spawner.Defs.{
  Result, ok, Pod, Spawner, Config, Url, Cluster, St, Exec, Backoff, IsBackoff, own_key, gets,
  success, api_error,
}
use kubespawner.Spawner.Requests.{deleted, make_delete_pod_request}
use kubespawner.Spawner.Stop.{shown, is_none, grace_period, stop, wait_gone, request_gone}
use kubespawner.Spawner.Waits.{bind_inv, catch_inv, backoff_inv, backoff_at_once}

is_none-true {ℓ} : {A : Type ℓ} (x : Option A) → is_none x ≡ true → x ≡ none
is_none-true none h = refl
is_none-true (some a) h = cc h

pub ok_value :
    {W A : Type 0} {a b : A} {s t : St W} → ◌≡◌ {A = Result A × St W} (ok a, s) (ok b, t) → a ≡ b
ok_value h = let e = ap (λ (p : Result _ × St _). p.0) h in cc e

-- The reflectors do not touch the object.
abbrev pub KeepsSpawner : {W : Type 0} → (Bool → Exec W (Unit {0})) → Type 0
KeepsSpawner {W} watch = (b : Bool) (s : St W) → (watch b s).1.spawner ≡ s.spawner

module _ {W : Type 0} (c : Config) (k : Cluster W) (backoff : Backoff W)
    (watch : (replace : Bool) → Exec W (Unit {0})) (pod_url : Spawner → Pod → Result Url)
    (wait : IsBackoff backoff) where
  -- If `stop` returns, then the pod that was the spawner's after the reflectors were started is not
  -- shown any more, for a wait as IsBackoff says.
  pub stop_gone :
      (now : Bool) (s t : St W)
      → stop c k backoff watch pod_url now s ≡ (ok tt, t)
      → get (own_key (watch false s).1.spawner) (k.pods t.world) ≡ none
  unfolding stop
  stop_gone now s t h =
      let gone = request_gone c k backoff watch pod_url now in
      let rest = λ (u : St W). gone (own_key u.spawner) u.spawner.pod_name u in
      let a = bind_inv (watch false) (λ _. rest) s t tt h in
      let key = own_key a.state.spawner in
      let b =
        bind_inv
          (backoff
            (make_delete_pod_request k a.state.spawner.pod_name
              (grace_period c k backoff watch pod_url now))
            c.retry_timeout)
          (λ _. wait_gone c k backoff watch pod_url key) a.state t tt a.then_rest in
      let absent : Exec W Bool = gets (λ (u : St W). is_none (shown k key u)) in
      let waited =
        catch_inv (backoff absent c.start_timeout) (watch true) b.state t tt b.then_rest in
      let (u, e) = backoff_inv backoff wait absent c.start_timeout b.state t waited in
      let e_absent : is_none (shown k key u) ≡ true = ok_value e in
      let same : u ≡ t = ap (λ (p : Result Bool × St W). p.1) e in
      rw (a.first, ← same) (is_none-true (shown k key u) e_absent)

  -- If the API server accepts the deletion, or knows no such pod, and the reflector does not show
  -- the pod afterwards, then `stop` returns after this one call, with the grace period of a pod that
  -- is to go now or later. The wait is as IsBackoff says.
  pub stop_returns :
      (now : Bool) (s u : St W)
      → watch false s ≡ (ok tt, u)
      → let grace_seconds : ℕ = if now then 0 else c.delete_grace_period in
        let r = k.delete_pod u.spawner.namespace u.spawner.pod_name grace_seconds u.world in
        (r.0 ≡ success) ⊎ (r.0 ≡ api_error 404)
        → get (own_key u.spawner) (k.pods r.1) ≡ none
        → stop c k backoff watch pod_url now s
          ≡ (ok tt, record { spawner = u.spawner; world = r.1 })
  unfolding stop
  stop_returns now s u start done gone =
      let grace = grace_period c k backoff watch pod_url now in
      let r = k.delete_pod u.spawner.namespace u.spawner.pod_name grace u.world in
      let key = own_key u.spawner in
      let v : St W = record { spawner = u.spawner; world = r.1 } in
      let request = make_delete_pod_request k u.spawner.pod_name grace in
      let accepted : request u ≡ (ok true, v) =
        unfold make_delete_pod_request deleted in
        elim done [ inl e ↦ rw e refl | inr e ↦ rw e refl ] in
      let first = backoff_at_once backoff wait request c.retry_timeout u v accepted in
      let absent : Exec W Bool = gets (λ (w : St W). is_none (shown k key w)) in
      let unseen : absent v ≡ (ok true, v) = rw gone refl in
      let second = backoff_at_once backoff wait absent c.start_timeout v v unseen in
      rw (start, first, second) refl
