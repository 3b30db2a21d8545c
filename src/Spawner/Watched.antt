-- ===== src/Spawner/Watched.antt =====
-- The pods that the spawner makes are those that the shared reflector selects.
use kubespawner.Prelude.{◌≡◌, ◌∙◌, refl, inl, inr, Bool-cases, Bool, true, ◌&&◌, none, some}
use kubespawner.Text.{Text, codes, text_eq, contains}
use kubespawner.Json.{
  text, Fields, end, field, find_field, put_field, update_fields, find_field-put_field,
}
use kubespawner.Dict.{AllEntries}
use kubespawner.Slugs.{Lower, Hash, is_valid_label, safe_slug, strip_and_hash}
use kubespawner.Reflector.Init.{Options}
use kubespawner.Shared.{Owner, pod_options}
use kubespawner.Spawner.Labels.{Described, build_common_labels, build_pod_labels}

strip_and_hash_total :
    (lower : Lower) (sha256_hex : Hash) (name : Text)
    → (s : Text) × (strip_and_hash lower sha256_hex name 32 ≡ some s)
unfolding strip_and_hash
strip_and_hash_total lower sha256_hex name = (_, refl)

-- Without a limit there is a slug for every name.
safe_slug_total :
    (lower : Lower) (sha256_hex : Hash) (is_valid : Text → Bool) (name : Text)
    → (s : Text) × (safe_slug lower sha256_hex is_valid name none ≡ some s)
unfolding safe_slug
safe_slug_total lower sha256_hex is_valid name =
    let (s, e) = strip_and_hash_total lower sha256_hex name in
    elim (Bool-cases (contains (codes "--") name)) [
      | inl double ↦ (s, rw double e)
      | inr plain ↦ elim (Bool-cases (is_valid name && true)) [
        | inl ok ↦ (name, rw (plain, ok) refl)
        | inr bad ↦ (s, rw (plain, bad) e)
      ]
    ]

component_label_put :
    (component server : Text) (labels : Fields)
    → find_field (codes "component") (
        update_fields labels (
          field (codes "app.kubernetes.io/component") (text component) (
            field
              (codes "component")
              (text component)
              (field (codes "hub.jupyter.org/servername") (text server) end))))
      ≡ some (text component)
unfolding update_fields text_eq
component_label_put component server labels =
    let base = put_field (codes "app.kubernetes.io/component") (text component) labels in
    find_field-put_field (codes "hub.jupyter.org/servername") (codes "component") (text server)
      (put_field (codes "component") (text component) base)
    ∙ find_field-put_field (codes "component") (codes "component") (text component) base

-- Whatever the names of the user and the server, the configured labels and the extra labels, a pod
-- has labels, and each label by which the reflector of pods selects, for an owner with the spawner's
-- component label, is among them.
pub build_pod_labels-pod_options :
    (lower : Lower) (sha256_hex : Hash) (s : Described) (extra_labels : Fields) (o : Owner)
    → o.component_label ≡ s.component_label
    → (labels : Fields) × (build_pod_labels lower sha256_hex s extra_labels ≡ some labels)
      × AllEntries (λ k v. find_field k labels ≡ some (text v)) (Options.labels (pod_options o))
unfolding build_pod_labels build_common_labels
build_pod_labels-pod_options lower sha256_hex s extra_labels o same =
    let (user, u) = safe_slug_total lower sha256_hex is_valid_label s.user_name in
    let (server, v) = safe_slug_total lower sha256_hex is_valid_label s.server_name in
    let common =
      update_fields
        (update_fields (field (codes "hub.jupyter.org/username") (text user) end) extra_labels)
        s.common_labels in
    (
      update_fields common (
          field (codes "app.kubernetes.io/component") (text s.component_label) (
            field (codes "component") (text s.component_label)
              (field (codes "hub.jupyter.org/servername") (text server) end))),
      rw (u, v) refl,
      (rw same (component_label_put s.component_label server common), tt),
    )
