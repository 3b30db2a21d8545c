-- ===== src/Spawner/Tests/Manifests.antt =====
-- The labels of a pod, and an instance of the theorem on them.
use kubespawner.Prelude.{false, ◌≡◌, refl, some, map}
use kubespawner.Text.{codes, to_lower_ascii}
use kubespawner.Json.{text, Fields, end, field, find_field}
use kubespawner.Dict.{AllEntries}
use kubespawner.Slugs.{Lower, Hash}
use kubespawner.Reflector.Init.{Options}
use kubespawner.Shared.{Owner, pod_options}
use kubespawner.Spawner.Labels.{Described, build_pod_labels}
use kubespawner.Spawner.Watched.{build_pod_labels-pod_options}

abbrev ascii_letters : Lower
ascii_letters = map to_lower_ascii

abbrev any_digest : Hash
any_digest b = codes "c0ffee42c0ffee42c0ffee42c0ffee42c0ffee42c0ffee42c0ffee42c0ffee42"

abbrev described : Described
described = record {
  user_name = codes "ada";
  server_name = codes "gpu";
  component_label = codes "singleuser-server";
  common_labels = field (codes "component") (text (codes "other")) end;
  kubespawner_version = codes "7";
  jupyterhub_version = codes "5";
}

abbrev owner : Owner
owner = record {
  namespace = codes "jhub";
  enable_user_namespaces = false;
  component_label = codes "singleuser-server";
}

build_pod_labels-pod_options_example :
    (labels : Fields) × (build_pod_labels ascii_letters any_digest described end ≡ some labels)
    × AllEntries (λ k v. find_field k labels ≡ some (text v)) (Options.labels (pod_options owner))
build_pod_labels-pod_options_example =
    build_pod_labels-pod_options ascii_letters any_digest described end owner refl
