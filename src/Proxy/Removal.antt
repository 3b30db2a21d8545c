-- ===== src/Proxy/Removal.antt =====
-- `delete_route` on a cluster that keeps its promises.
use kubespawner.Prelude.{Bool-cases, ◌==◌, inl, inr, ◌≡◌, ◌∙◌, sym, ap, refl, none}
use kubespawner.Text.{Text}
use kubespawner.Dict.{Dict}
use kubespawner.Slugs.{Lower, Hash}
use kubespawner.Proxy.{
  Reply, done, api_error, failed, Api, Kind, gathered, delete_if_exists, delete_objects,
}
use kubespawner.Proxy.Kinds.{delete_if_exists-missing}
use kubespawner.Proxy.Named.{
  endpoints_name, service_name, ingress_name, endpoints_labels, service_labels, ingress_labels,
}
use kubespawner.Proxy.Added.{View, IsCluster}
use kubespawner.Proxy.Calls.{route_name, delete_route}

-- The deletion of a service or an ingress does not make an object of another kind.
pub record AreIndependent {W : Type 0} (k : Api W) (c : View W) : Type 0 where
  pub service_endpoints :
      (n : Text) (w : W)
      → c.endpoints_at n w ≡ none
      → c.endpoints_at n ((Kind.delete k.services n w).1) ≡ none
  pub ingress_endpoints :
      (n : Text) (w : W)
      → c.endpoints_at n w ≡ none
      → c.endpoints_at n ((Kind.delete k.ingresses n w).1) ≡ none
  pub ingress_services :
      (n : Text) (w : W)
      → c.services_at n w ≡ none
      → c.services_at n ((Kind.delete k.ingresses n w).1) ≡ none

-- No object of the route is left.
pub record IsRemoved {W : Type 0} (c : View W) (name : Text) (w : W) : Type 0 where
  pub no_endpoints : c.endpoints_at name w ≡ none
  pub no_service : c.services_at name w ≡ none
  pub no_ingress : c.ingresses_at name w ≡ none

-- Whatever the reply, the deletion leaves the cluster that the call leaves.
delete_if_exists_world : {W : Type 0} (r : Reply × W) → (delete_if_exists r).1 ≡ r.1
unfolding delete_if_exists
delete_if_exists_world (done, w) = refl
delete_if_exists_world (api_error status, w) = elim (Bool-cases (status == 404)) [
  | inl missing ↦ rw missing refl
  | inr other ↦ rw other refl
]
delete_if_exists_world (failed, w) = refl

deleted_world : {W : Type 0} (r : Reply × W) (v : W) → delete_if_exists r ≡ (none, v) → r.1 ≡ v
deleted_world r v e = sym (delete_if_exists_world r) ∙ ap (λ o. o.1) e

delete_objects-IsRemoved :
    {W : Type 0} (namespace : Text) (selector : Dict Text) (k : Api W) (c : View W)
    → IsCluster namespace selector k c
    → AreIndependent k c
    → (name : Text) (w : W) → (v : W) × (delete_objects k name w ≡ (none, v)) × IsRemoved c name v
unfolding delete_objects gathered
delete_objects-IsRemoved namespace selector k c cluster apart name w =
    let (v1, first, no_e) =
      delete_if_exists-missing namespace selector endpoints_name endpoints_labels c.merge_endpoints
        c.endpoints_at k.endpoints cluster.of_endpoints name w in
    let (v2, second, no_s) =
      delete_if_exists-missing namespace selector service_name service_labels c.merge_services
        c.services_at k.services cluster.of_services name v1 in
    let (v3, third, no_i) =
      delete_if_exists-missing namespace selector ingress_name ingress_labels c.merge_ingresses
        c.ingresses_at k.ingresses cluster.of_ingresses name v2 in
    (
      v3,
      rw (first, second, third) refl,
      record {
        no_endpoints = rw (sym (deleted_world (Kind.delete k.ingresses name v2) v3 third)) (
            apart.ingress_endpoints name v2 (
              rw (sym (deleted_world (Kind.delete k.services name v1) v2 second))
                (apart.service_endpoints name v1 no_e)));
        no_service =
            rw (sym (deleted_world (Kind.delete k.ingresses name v2) v3 third))
              (apart.ingress_services name v2 no_s);
        no_ingress = no_i;
      },
    )

-- When the cluster is as IsCluster says, and the deletion of a service or an ingress makes no object
-- of another kind, `delete_route` ends without an exception, whatever of the route was there, and
-- leaves no object of it.
pub delete_route-IsRemoved :
    (lower : Lower) (sha256_hex : Hash) (escape escape_route : Text → Text) {W : Type 0}
    (namespace : Text) (selector : Dict Text) (k : Api W) (c : View W)
    → IsCluster namespace selector k c
    → AreIndependent k c
    → (routespec : Text) (w : W)
    → (v : W) × (delete_route lower sha256_hex escape escape_route k routespec w ≡ (none, v))
      × IsRemoved c (route_name lower sha256_hex escape escape_route routespec) v
unfolding delete_route
delete_route-IsRemoved lower sha256_hex escape escape_route namespace selector k c cluster apart
      routespec w =
    delete_objects-IsRemoved namespace selector k c cluster apart
      (route_name lower sha256_hex escape escape_route routespec) w
