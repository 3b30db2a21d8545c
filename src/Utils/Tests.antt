-- ===== src/Utils/Tests.antt =====
-- Runs of utils.py, with ASCII `str.lower` and a constant digest, and instances of the theorems.
use kubespawner.Prelude.{none, arith, ◌≡◌, ◌⊎◌, refl, some, [], ◌∷◌, map, all, take}
use kubespawner.Text.{Text, codes, to_lower_ascii, utf8, text_eq}
use kubespawner.Slugs.{Lower, Hash}
use kubespawner.Slugs.Valid.{is_hex, IsHexDigest}
use kubespawner.Json.{
  null, number, text, object, Fields, end, field, find_field, put_field, drop_field,
}
use kubespawner.Dict.{Dict, get}
use kubespawner.Utils.Slug.{generate_hashed_slug, generate_hashed_slug_collision}
use kubespawner.Utils.Update.{
  unchanged, recursive_update, updated, nested, as_object, put_updated, merged,
}
use kubespawner.Utils.Raises.{recursive_update_lem}
use kubespawner.Utils.Model.{
  Given, dictionary, update_k8s_model, get_k8s_model_dict, map_dict_keys_to_model_attributes,
  map_keys_onto, get_k8s_model_attribute, attribute_of, overridden, is_dict, update_k8s_model_lem,
}

abbrev ascii : Lower
ascii = map to_lower_ascii

abbrev fixed : Hash
fixed b = codes "c0ffee42c0ffee42c0ffee42c0ffee42c0ffee42c0ffee42c0ffee42c0ffee42"

fixed-IsHexDigest : IsHexDigest fixed
unfolding all is_hex
fixed-IsHexDigest = record { digits = λ b. refl; size = λ b. refl }

abbrev long_slug : Text
long_slug = codes "jupyter-route"

hashed_run : generate_hashed_slug ascii fixed long_slug 16 6 ≡ codes "jupyter-r-c0ffee"
unfolding generate_hashed_slug to_lower_ascii
hashed_run = refl

generate_hashed_slug_collision_example :
    (codes "jupyter-routes" ≡ codes "jupyter-router")
    ⊎ ((map to_lower_ascii (take 9 (codes "jupyter-routes"))
          ≡ map to_lower_ascii (take 9 (codes "jupyter-router")))
        × (map to_lower_ascii (take 6 (fixed (utf8 (codes "jupyter-routes"))))
            ≡ map to_lower_ascii (take 6 (fixed (utf8 (codes "jupyter-router"))))))
generate_hashed_slug_collision_example =
    generate_hashed_slug_collision ascii fixed (λ s h. refl) fixed-IsHexDigest 16 6 (omega arith)
      (omega arith) (codes "jupyter-routes") (codes "jupyter-router") (unfold all in refl)
      (unfold all in refl) (unfold generate_hashed_slug in refl)

abbrev target_config : Fields
target_config =
    field (codes "a") (object (field (codes "x") (number 1) end)) (field (codes "b") (number 2) end)

abbrev new_config : Fields
new_config =
    field (codes "a") (object (field (codes "y") (number 3) end)) (field (codes "b") null end)

abbrev updated_config : Fields
updated_config =
    field (codes "a") (object (field (codes "x") (number 1) (field (codes "y") (number 3) end))) end

recursive_update_run : recursive_update new_config target_config ≡ some updated_config
unfolding recursive_update find_field put_field drop_field updated nested as_object put_updated
    text_eq
recursive_update_run = refl

-- A dictionary over a text raises.
object_over_text :
    recursive_update
      (field (codes "A") (object (field (codes "x") (number 1) end)) end)
      (field (codes "A") (text (codes "plain")) end)
    ≡ none
unfolding recursive_update find_field updated nested unchanged put_updated text_eq
object_over_text = refl

recursive_update_lem_example :
    ((result : Fields) × (recursive_update new_config target_config ≡ some result)
      × ((j : Text)
          → merged (find_field j target_config) (find_field j new_config)
            ≡ some (find_field j result)))
    ⊎ ((recursive_update new_config target_config ≡ none)
        × ((j : Text) × (merged (find_field j target_config) (find_field j new_config) ≡ none)))
recursive_update_lem_example =
    recursive_update_lem new_config target_config (unfold find_field text_eq in (refl, (refl, tt)))

abbrev pod_map : Dict Text
pod_map =
    (codes "service_account", codes "serviceAccount") ∷ (codes "volumes", codes "volumes") ∷ []

abbrev old_spec : Fields
old_spec = field (codes "service_account") (text (codes "old")) (field (codes "volumes") null end)

abbrev pod_changes : Given
pod_changes = dictionary (field (codes "serviceAccount") (text (codes "new")) end)

abbrev mapped_changes : Fields
mapped_changes = field (codes "service_account") (text (codes "new")) end

-- A model's attributes that are given, each once: here none.
abbrev no_attributes : Fields → Fields
no_attributes model = end

mapped_run : get_k8s_model_dict no_attributes pod_map pod_changes ≡ some mapped_changes
unfolding get_k8s_model_dict map_dict_keys_to_model_attributes map_keys_onto get_k8s_model_attribute
    attribute_of get text_eq put_field
mapped_run = refl

update_k8s_model_lem_example :
    (result : Fields) × (update_k8s_model no_attributes pod_map old_spec pod_changes ≡ some result)
    × ((a : Text)
        → find_field a result
          ≡ overridden (is_dict pod_changes) (find_field a old_spec) (find_field a mapped_changes))
update_k8s_model_lem_example =
    update_k8s_model_lem no_attributes pod_map (λ model. (tt, tt)) old_spec pod_changes
      mapped_changes mapped_run
