-- ===== src/Profiles/Overrides.antt =====
-- `_apply_overrides`: the spawner's traits are the fields of an object.
use kubespawner.Prelude.{Option, none, some, List, [], ◌∷◌, ◌>>=◌}
use kubespawner.Text.{Text}
use kubespawner.Json.{Value, object, Fields, find_field, put_field}
use kubespawner.Utils.Update.{recursive_update}

-- An override: a value, or a function of the spawner.
pub data Override : Type 0 where
  plain : Value → Override
  called : (Fields → Value) → Override

unfoldable pub resolved : Override → Fields → Value
resolved (plain v) spawner = v
resolved (called f) spawner = f spawner

-- The trait's new value, from the old one and the override.
unfoldable pub merged_trait : (old : Option Value) → Value → Option Value
merged_trait (some (object d)) (object e) = do r ← recursive_update e d; some (object r)
merged_trait none (object e) = none
merged_trait old v = some v

-- `_apply_overrides`; `none` is an exception of `recursive_update`, or an AttributeError.
unfoldable pub apply_overrides :
    (spawner_override : List (Text × Override)) → Fields → Option Fields
apply_overrides [] spawner = some spawner
apply_overrides ((k, v) ∷ rest) spawner = do
  w ← merged_trait (find_field k spawner) (resolved v spawner)
  apply_overrides rest (put_field k w spawner)
