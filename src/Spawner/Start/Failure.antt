-- ===== src/Spawner/Start/Failure.antt =====
-- `_start`: what is left when the objects that the pod owns cannot be created.
use kubespawner.Prelude.{◌≡◌, refl, sym, ◌∙◌, ap, Bool, true, false, none, inl, inr, ◌⊎◌}
use kubespawner.Text.{Text}
use kubespawner.Dict.{get}
use kubespawner.Spawner.Defs.{
  Exn, Result, ok, err, Pod, Spawner, Config, Url, Cluster, St, Exec, Backoff, IsBackoff, own_key,
  ◌>>◌, raise, continue, after_error,
}
use kubespawner.Spawner.Stop.{stop}
use kubespawner.Spawner.Stop.Gone.{stop_gone}
use kubespawner.Spawner.Start.{create_owned, owned_or_stop}

module _ {W : Type 0} (c : Config) (k : Cluster W) (backoff : Backoff W)
    (watch : (replace : Bool) → Exec W (Unit {0})) (pod_url : Spawner → Pod → Result Url)
    (watch_events load_options created_hook : Exec W (Unit {0})) (build_pod : Exec W Text)
    (wait : IsBackoff backoff) where
  -- How the handler of the exception `e`, raised in the state `u`, ends.
  abbrev pub CleanedUp : Exn → St W → Exn → St W → Type 0
  CleanedUp e u f t =
      ((f ≡ e) × (get (own_key (watch false u).1.spawner) (k.pods t.world) ≡ none))
      ⊎ (stop c k backoff watch pod_url true u ≡ (err f, t))

  cleaned_up :
      (e : Exn) (r : Result (Unit {0})) (u t v : St W) (f : Exn)
      → stop c k backoff watch pod_url true u ≡ (r, v)
      → continue {W = W} {B = Unit {0}} r (λ _. raise e) v ≡ (err f, t)
      → CleanedUp e u f t
  cleaned_up e (ok tt) u t v f h g =
      let same : v ≡ t = ap (λ (p : Result (Unit {0}) × St W). p.1) g in
      let raised : f ≡ e = let q = ap (λ (p : Result (Unit {0}) × St W). p.0) g in cc q in
      inl (
        raised,
        ap (λ (w : St W). get (own_key (watch false u).1.spawner) (k.pods w.world)) (sym same)
            ∙ stop_gone c k backoff watch pod_url wait true u v h,
      )
  cleaned_up e (err x) u t v f h g = inr (h ∙ g)

  handled :
      (r : Result (Unit {0})) (u t : St W) (f : Exn)
      → after_error (λ e. (do stop c k backoff watch pod_url true; raise e)) r u ≡ (err f, t)
      → (e : Exn) × (r ≡ err e) × CleanedUp e u f t
  handled (ok tt) u t f h = let e = ap (λ (p : Result (Unit {0}) × St W). p.0) h in cc e
  handled (err e) u t f h =
      let stopped = stop c k backoff watch pod_url true u in
      (e, refl, cleaned_up e stopped.0 u t stopped.1 f refl h)

  -- If the body of the `try` statement after the pod's creation raises an exception, so that the
  -- whole statement raises one, then either `stop` itself raised this one, or it is the same
  -- exception, and the pod that was the spawner's after the reflectors were started is not shown
  -- any more. The wait is as IsBackoff says.
  pub owned_or_stop_cleans_up :
      (key : Text) (s t : St W) (f : Exn)
      → owned_or_stop c k backoff watch pod_url watch_events load_options created_hook build_pod key
          s
        ≡ (err f, t)
      → (e : Exn) × (u : St W) × (create_owned c k backoff watch pod_url watch_events load_options
            created_hook build_pod key s
          ≡ (err e, u))
        × CleanedUp e u f t
  unfolding owned_or_stop
  owned_or_stop_cleans_up key s t f h =
      let body =
        create_owned c k backoff watch pod_url watch_events load_options created_hook build_pod key
          s in
      let (e, raised, cleaned) = handled body.0 body.1 t f h in
      (e, body.1, ap (λ (r : Result (Unit {0})). (r, body.1)) raised, cleaned)
