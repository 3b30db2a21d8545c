-- ===== src/Spawner/Labels.antt =====
-- The labels, the annotations and the environment of a user's objects.
use kubespawner.Prelude.{Bool, true, false, Option, none, some, [], ◌∷◌, if◌then◌else◌, ◌>>=◌}
use kubespawner.Text.{Text, codes}
use kubespawner.Json.{
  Value, null, boolean, number, text, list, object, Items, nil, cons, Fields, end, field, put_field,
  update_fields,
}
use kubespawner.Slugs.{Lower, Hash, is_valid_label, safe_slug}
use kubespawner.Spawner.Events.{text_lt}

-- `_expand_all`, where `expand` is `_expand_user_properties` (Names.antt) on the parsed text.
unfoldable mutual
  pub expand_all : (expand : Text → Option Text) → Value → Option Value
  expand_all expand (text t) = do v ← expand t; some (text v)
  expand_all expand (list xs) = do ys ← expand_items expand xs; some (list ys)
  expand_all expand (object d) = do e ← expand_fields expand d; some (object e)
  expand_all expand null = some null
  expand_all expand (boolean b) = some (boolean b)
  expand_all expand (number n) = some (number n)

  pub expand_items : (expand : Text → Option Text) → Items → Option Items
  expand_items expand nil = some nil
  expand_items expand (cons v xs) = do
    w ← expand_all expand v
    ys ← expand_items expand xs
    some (cons w ys)

  pub expand_fields : (expand : Text → Option Text) → Fields → Option Fields
  expand_fields expand end = some end
  expand_fields expand (field k v d) = do
    w ← expand_all expand v
    e ← expand_fields expand d
    some (field k w e)

-- `isinstance(v, (list, dict, str))`
unfoldable pub is_expandable : Value → Bool
is_expandable (text t) = true
is_expandable (list xs) = true
is_expandable (object d) = true
is_expandable null = false
is_expandable (boolean b) = false
is_expandable (number n) = false

-- `_expand_env`
unfoldable pub expand_env : (expand : Text → Option Text) → Fields → Option Fields
expand_env expand end = some end
expand_env expand (field k v env) = do
  rest ← expand_env expand env
  if is_expandable v then (do w ← expand_all expand v; some (field k w rest)) else some rest

-- `get_env`, from the environment of the parent class.
unfoldable pub get_env :
    (expand : Text → Option Text) (parent : Fields) (image : Text) (environment : Fields)
    → Option Fields
get_env expand parent image environment = do
  expanded ← expand_env expand environment
  some (
      update_fields
        (put_field (codes "JUPYTER_IMAGE") (text image)
          (put_field (codes "JUPYTER_IMAGE_SPEC") (text image) parent))
        expanded)

-- The fields in the order of their keys.
unfoldable pub place_field : Text → Value → Fields → Fields
place_field k v end = field k v end
place_field k v (field j w d) =
    if text_lt j k then field j w (place_field k v d) else field k v (field j w d)

unfoldable pub sorted_fields : Fields → Fields
sorted_fields end = end
sorted_fields (field k v d) = place_field k v (sorted_fields d)

unfoldable pub field_values : Fields → Items
field_values end = nil
field_values (field k v d) = cons v (field_values d)

-- `_sorted_dict_values`
unfoldable pub sorted_dict_values : Value → Value
sorted_dict_values (object d) = list (field_values (sorted_fields d))
sorted_dict_values (list xs) = list xs
sorted_dict_values null = null
sorted_dict_values (boolean b) = boolean b
sorted_dict_values (number n) = number n
sorted_dict_values (text t) = text t

-- What the labels and annotations are made from.
pub record Described : Type 0 where
  pub user_name : Text
  pub server_name : Text
  pub component_label : Text
  pub common_labels : Fields
  pub kubespawner_version : Text
  pub jupyterhub_version : Text

module _ (lower : Lower) (sha256_hex : Hash) where
  -- `_build_common_labels`
  unfoldable pub build_common_labels : Described → (extra_labels : Fields) → Option Fields
  build_common_labels s extra_labels = do
    user ← safe_slug lower sha256_hex is_valid_label s.user_name none
    some (
        update_fields
          (update_fields (field (codes "hub.jupyter.org/username") (text user) end) extra_labels)
          s.common_labels)

  -- `_build_pod_labels`
  unfoldable pub build_pod_labels : Described → (extra_labels : Fields) → Option Fields
  build_pod_labels s extra_labels = do
    labels ← build_common_labels s extra_labels
    server ← safe_slug lower sha256_hex is_valid_label s.server_name none
    some (
        update_fields labels (
          field (codes "app.kubernetes.io/component") (text s.component_label) (
            field (codes "component") (text s.component_label)
              (field (codes "hub.jupyter.org/servername") (text server) end))))

-- `if self.name:`
unfoldable pub put_server_name : Text → Fields → Fields
put_server_name [] annotations = annotations
put_server_name (c ∷ s) annotations =
    put_field (codes "hub.jupyter.org/servername") (text (c ∷ s)) annotations

-- `_build_common_annotations`
unfoldable pub build_common_annotations : Described → (extra_annotations : Fields) → Fields
build_common_annotations s extra_annotations =
    update_fields
      (put_field (codes "hub.jupyter.org/jupyterhub-version") (text s.jupyterhub_version) (
        put_field (codes "hub.jupyter.org/kubespawner-version") (text s.kubespawner_version) (
          put_server_name s.server_name
            (field (codes "hub.jupyter.org/username") (text s.user_name) end))))
      extra_annotations
