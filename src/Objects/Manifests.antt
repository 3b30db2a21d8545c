-- ===== src/Objects/Manifests.antt =====
-- The claim, the secret, the service, the namespace and the owner reference of
-- kubespawner/objects.py, with the attributes of the client's models for keys.
use kubespawner.Prelude.{ℕ, true, false, Option, none, some, List, [], ◌∷◌, ◌++◌, ◌>>=◌}
use kubespawner.Text.{Text, codes, utf8, lstrip, rstrip}
use kubespawner.Json.{
  Value, boolean, number, text, list, object, Items, nil, cons, Fields, end, field, put_field,
}

-- `V1ObjectMeta` with a name, annotations and labels.
unfoldable pub metadata_of : (name : Text) (labels annotations : Fields) → Fields
metadata_of name labels annotations =
    field (codes "name") (text name) (
      field (codes "annotations") (object annotations) (field (codes "labels") (object labels) end))

unfoldable pub items : List Value → Items
items [] = nil
items (v ∷ vs) = cons v (items vs)

unfoldable pub pvc_annotations : (storage_class : Option Text) (annotations : Fields) → Fields
pvc_annotations none annotations = annotations
pvc_annotations (some storage_class) annotations =
    put_field (codes "volume.beta.kubernetes.io/storage-class") (text storage_class) annotations

unfoldable pub put_text : Text → Option Text → Fields → Fields
put_text k none d = d
put_text k (some t) d = put_field k (text t) d

-- `if selector: pvc.spec.selector = selector`
unfoldable pub put_selector : (selector : Fields) → Fields → Fields
put_selector end d = d
put_selector (field k v s) d = put_field (codes "selector") (object (field k v s)) d

unfoldable pub make_pvc :
    (name : Text) (storage_class : Option Text) (access_modes : Items) (selector : Fields)
    (storage : Text) (labels annotations : Fields)
    → Fields
make_pvc name storage_class access_modes selector storage labels annotations =
    field (codes "kind") (text (codes "PersistentVolumeClaim")) (
      field (codes "api_version") (text (codes "v1")) (
        field (codes "metadata")
          (object (metadata_of name labels (pvc_annotations storage_class annotations)))
          (field (codes "spec")
            (object (
              put_selector selector (
                put_text (codes "storage_class_name") storage_class (
                  field (codes "access_modes") (list access_modes) (
                    field (codes "resources")
                      (object (
                        field (codes "requests")
                          (object (field (codes "storage") (text storage) end)) end))
                      end)))))
            end)))

unfoldable pub make_owner_reference : (name uid : Text) → Fields
make_owner_reference name uid = field (codes "api_version") (text (codes "v1")) (
    field (codes "kind") (text (codes "Pod")) (
      field (codes "name") (text name) (
        field (codes "uid") (text uid) (
          field (codes "block_owner_deletion") (boolean true)
            (field (codes "controller") (boolean false) end)))))

-- `metadata` with its owners.
unfoldable pub owned : (owner_references : Items) → Fields → Fields
owned owner_references metadata =
    put_field (codes "owner_references") (list owner_references) metadata

-- `make_secret`, where `read` opens and reads a file, and `b64` is `base64.b64encode`.
unfoldable pub make_secret :
    (read : Text → Option Text) (b64 : List ℕ → Text) (name keyfile certfile cafile hub_ca : Text)
    (owner_references : Items) (labels annotations : Fields)
    → Option Fields
make_secret read b64 name keyfile certfile cafile hub_ca owner_references labels annotations = do
  key ← read keyfile
  cert ← read certfile
  ca ← read cafile
  hub ← read hub_ca
  some (
      field (codes "kind") (text (codes "Secret")) (
        field (codes "api_version") (text (codes "v1")) (
          field (codes "metadata")
            (object (owned owner_references (metadata_of name labels annotations)))
            (field (codes "data")
              (object (
                field (codes "ssl.key") (text (b64 (utf8 key))) (
                  field (codes "ssl.crt") (text (b64 (utf8 cert))) (
                    field (codes "notebooks-ca_trust.crt")
                      (text (b64 (utf8 (rstrip b'\n' (lstrip b'\n' ca) ++ (codes "\n" ++ hub)))))
                      end))))
              end))))

unfoldable pub make_service :
    (name : Text) (port : ℕ) (selector : Fields) (owner_references : Items)
    (labels annotations : Fields)
    → Fields
make_service name port selector owner_references labels annotations =
    field (codes "kind") (text (codes "Service")) (
      field (codes "metadata")
        (object (owned owner_references (metadata_of name labels annotations)))
        (field (codes "spec")
          (object (
            field (codes "type") (text (codes "ClusterIP")) (
              field (codes "ports")
                (list (
                  cons
                    (object (
                      field (codes "name") (text (codes "http")) (
                        field (codes "port") (number port)
                          (field (codes "target_port") (number port) end))))
                    nil))
                (field (codes "selector") (object selector) end))))
          end))

unfoldable pub make_namespace : (name : Text) (labels annotations : Fields) → Fields
make_namespace name labels annotations =
    field (codes "metadata") (object (metadata_of name labels annotations)) end
