-- ===== src/Clients/Tests.antt =====
-- Calls of `shared_client`, and an instance of the theorem.
use kubespawner.Prelude.{◌≡◌, refl, [], ◌∷◌}
use kubespawner.Text.{codes}
use kubespawner.Clients.{
  Clients, shared_client, client_for, cached, cache_key_eq, client_key, sorted_kwargs,
}
use kubespawner.Clients.Sharing.{run, call, closed, shared_client-run}

abbrev no_clients : Clients
no_clients = record { client_cache = []; made = 0 }

abbrev one_client : Clients
one_client = record { client_cache = (client_key 1 (codes "CoreV1Api") [] [], 0) ∷ []; made = 1 }

first_call : shared_client 1 (codes "CoreV1Api") [] [] no_clients ≡ (0, one_client)
unfolding shared_client client_for cached sorted_kwargs
first_call = refl

shared_client-run_example :
    shared_client 1 (codes "CoreV1Api") [] [] (
      run
        (call 1 (codes "NetworkingV1Api") [] []
          ∷ closed (client_key 2 (codes "CoreV1Api") [] [])
          ∷ [])
        ((shared_client 1 (codes "CoreV1Api") [] [] no_clients).1))
    ≡ (
      (shared_client 1 (codes "CoreV1Api") [] [] no_clients).0,
      run
          (call 1 (codes "NetworkingV1Api") [] []
            ∷ closed (client_key 2 (codes "CoreV1Api") [] [])
            ∷ [])
          ((shared_client 1 (codes "CoreV1Api") [] [] no_clients).1),
    )
shared_client-run_example =
    shared_client-run 1 (codes "CoreV1Api") [] []
      (call 1 (codes "NetworkingV1Api") [] []
        ∷ closed (client_key 2 (codes "CoreV1Api") [] [])
        ∷ [])
      no_clients (tt, (unfold cache_key_eq in refl, tt))
