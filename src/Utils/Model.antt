-- ===== src/Utils/Model.antt =====
-- Models of the Kubernetes client: an instance is what its attributes hold, and a model type is its
-- `attribute_map`, from attribute names to the API's field names.
use kubespawner.Prelude.{
  bound, ◌≡◌, refl, sym, ◌∙◌, ap, inl, inr, Bool-cases, Bool, ◌||◌, true, false, Option, none, some,
  [], ◌∷◌, arith, if◌then◌else◌, ◌>>=◌,
}
use kubespawner.Text.{Text, text_eq, text_eq_iff}
use kubespawner.Json.{
  Value, null, Fields, end, field, find_field, put_field, truth, find_field-put_field,
  put_field-IsDistinct, IsDistinct,
}
use kubespawner.Dict.{Dict, get, has}

-- The first attribute whose field has the name.
unfoldable pub attribute_of : Text → Dict Text → Option Text
attribute_of name [] = none
attribute_of name ((attribute, api_field) ∷ rest) =
    if text_eq api_field name then some attribute else attribute_of name rest

-- `_get_k8s_model_attribute`; `none` is the ValueError.
unfoldable pub get_k8s_model_attribute :
    (attribute_map : Dict Text) (field_name : Text) → Option Text
get_k8s_model_attribute attribute_map field_name =
    if has field_name attribute_map then some field_name else attribute_of field_name attribute_map

-- The loop of `_map_dict_keys_to_model_attributes`, with `new_dict` so far.
unfoldable pub map_keys_onto :
    (attribute_map : Dict Text) (model_dict new_dict : Fields) → Option Fields
map_keys_onto attribute_map end new_dict = some new_dict
map_keys_onto attribute_map (field key value rest) new_dict = do
  attribute ← get_k8s_model_attribute attribute_map key
  map_keys_onto attribute_map rest (put_field attribute value new_dict)

unfoldable pub map_dict_keys_to_model_attributes :
    (attribute_map : Dict Text) (model_dict : Fields) → Option Fields
map_dict_keys_to_model_attributes attribute_map model_dict =
    map_keys_onto attribute_map model_dict end

-- What callers pass for a model: an instance of the type, a dictionary, or something else.
pub data Given : Type 0 where
  instance_of : Fields → Given
  dictionary : Fields → Given
  other : Value → Given

-- The attribute's value; None if it is not given.
unfoldable pub held : Option Value → Value
held none = null
held (some v) = v

-- `model_type(**model_dict)`: the attributes that are not given are None.
unfoldable pub initialized : (attribute_map : Dict Text) (model_dict : Fields) → Fields
initialized [] model_dict = end
initialized ((attribute, api_field) ∷ rest) model_dict =
    field attribute (held (find_field attribute model_dict)) (initialized rest model_dict)

-- `get_k8s_model`; `none` is the ValueError or the AttributeError.
unfoldable pub get_k8s_model : (attribute_map : Dict Text) → Given → Option Fields
get_k8s_model attribute_map (instance_of model) = some model
get_k8s_model attribute_map (dictionary d) = do
  attributes ← map_dict_keys_to_model_attributes attribute_map d
  some (initialized attribute_map attributes)
get_k8s_model attribute_map (other v) = none

-- `isinstance(changes, dict)`
unfoldable pub is_dict : Given → Bool
is_dict (instance_of model) = false
is_dict (dictionary d) = true
is_dict (other v) = false

-- `_get_k8s_model_dict`; `to_dict` is the method of the client's models.
unfoldable pub get_k8s_model_dict :
    (to_dict : Fields → Fields) (attribute_map : Dict Text) → Given → Option Fields
get_k8s_model_dict to_dict attribute_map (instance_of model) = some (to_dict model)
get_k8s_model_dict to_dict attribute_map (dictionary d) =
    map_dict_keys_to_model_attributes attribute_map d
get_k8s_model_dict to_dict attribute_map (other v) = none

-- The loop of `update_k8s_model` over `changes_dict`; `overrides` says that `changes` is a dict.
unfoldable pub set_attributes :
    (attribute_map : Dict Text) (overrides : Bool) (changes target : Fields) → Option Fields
set_attributes attribute_map overrides end target = some target
set_attributes attribute_map overrides (field key value changes) target =
    let next =
      set_attributes attribute_map overrides changes
        (if overrides || truth value then put_field key value target else target) in
    if has key attribute_map then next else none

-- `update_k8s_model` of an instance, which leaves it as it returns it.
unfoldable pub update_k8s_model :
    (to_dict : Fields → Fields) (attribute_map : Dict Text) (target : Fields)
    → Given
    → Option Fields
update_k8s_model to_dict attribute_map target changes = do
  changes_dict ← get_k8s_model_dict to_dict attribute_map changes
  set_attributes attribute_map (is_dict changes) changes_dict target

-- Every key is an attribute.
abbrev pub AreAttributes : Dict Text → Fields → Type 0
AreAttributes attribute_map end = Unit
AreAttributes attribute_map (field k v d) =
    (has k attribute_map ≡ true) × AreAttributes attribute_map d

-- What an attribute holds after an update, from what it held and what the changes have for it.
unfoldable pub overridden : (overrides : Bool) → (old new : Option Value) → Option Value
overridden overrides old none = old
overridden overrides old (some v) = if overrides || truth v then some v else old

put_field-AreAttributes :
    (m : Dict Text) (k : Text) (v : Value) (d : Fields)
    → has k m ≡ true
    → AreAttributes m d
    → AreAttributes m (put_field k v d)
unfolding put_field
put_field-AreAttributes m k v end h hs = (h, hs)
put_field-AreAttributes m k v (field j w d) h (hj, hs) = elim (Bool-cases (text_eq j k)) [
  | inl e ↦ rw e (hj, hs)
  | inr e ↦ rw e (hj, put_field-AreAttributes m k v d h hs)
]

has_later : (a j f : Text) (m : Dict Text) → has a m ≡ true → has a ((j, f) ∷ m) ≡ true
unfolding get
has_later a j f m h = elim (Bool-cases (text_eq j a)) [
  | inl same ↦ ground (arith, same)
  | inr unlike ↦ ground (arith, unlike)
]

has_here : (a f : Text) (m : Dict Text) → has a ((a, f) ∷ m) ≡ true
unfolding get
has_here a f m = ground (arith, (text_eq_iff a a).1 refl)

attribute_of-has : (name a : Text) (m : Dict Text) → attribute_of name m ≡ some a → has a m ≡ true
unfolding attribute_of
attribute_of-has name a [] e = absurd (cc e)
attribute_of-has name a ((attribute, api_field) ∷ m) e =
    elim (Bool-cases (text_eq api_field name)) [
      | inl here ↦
          let same : attribute ≡ a = ground (arith, here, e) in
          rw (sym same) (has_here attribute api_field m)
      | inr later ↦
          has_later a attribute api_field m (attribute_of-has name a m (ground (arith, later, e)))
    ]

get_k8s_model_attribute-has :
    (m : Dict Text) (name a : Text) → get_k8s_model_attribute m name ≡ some a → has a m ≡ true
unfolding get_k8s_model_attribute
get_k8s_model_attribute-has m name a e = elim (Bool-cases (has name m)) [
  | inl known ↦ let same : name ≡ a = ground (arith, known, e) in rw (sym same) known
  | inr unknown ↦ attribute_of-has name a m (ground (arith, unknown, e))
]

map_keys_onto-AreAttributes :
    (m : Dict Text) (d new c : Fields)
    → AreAttributes m new
    → IsDistinct new
    → map_keys_onto m d new ≡ some c
    → AreAttributes m c × IsDistinct c
unfolding map_keys_onto
map_keys_onto-AreAttributes m end new c h u e = let same : new ≡ c = cc in rw (sym same) (h, u)
map_keys_onto-AreAttributes m (field key value rest) new c h u e =
    let (a, found, next) =
      bound (get_k8s_model_attribute m key) (λ a. map_keys_onto m rest (put_field a value new)) c
        e in
    map_keys_onto-AreAttributes m rest (put_field a value new) c
      (put_field-AreAttributes m a value new (get_k8s_model_attribute-has m key a found) h)
      (put_field-IsDistinct a value new u) next

overridden_step :
    (m : Dict Text) (overrides : Bool) (k a : Text) (v : Value) (c target : Fields)
    → find_field k c ≡ none
    → overridden overrides
        (find_field a (if overrides || truth v then put_field k v target else target))
        (find_field a c)
      ≡ overridden overrides (find_field a target) (find_field a (field k v c))
unfolding find_field overridden
overridden_step m overrides k a v c target fresh = elim (Bool-cases (text_eq k a)) [
  | inl same ↦
      let missing : find_field a c ≡ none =
        ap (λ i. find_field i c) (sym ((text_eq_iff k a).0 same)) ∙ fresh in
      ground (arith, find_field-put_field k a v target, same, missing)
  | inr unlike ↦ ground (arith, find_field-put_field k a v target, unlike)
]

-- With known and distinct attributes the loop gets to its end, and each attribute is as `overridden` says.
set_attributes-find :
    (m : Dict Text) (overrides : Bool) (c target : Fields)
    → AreAttributes m c
    → IsDistinct c
    → (result : Fields) × (set_attributes m overrides c target ≡ some result)
      × ((a : Text)
          → find_field a result ≡ overridden overrides (find_field a target) (find_field a c))
unfolding set_attributes find_field overridden
set_attributes-find m overrides end target h u = (target, refl, λ a. refl)
set_attributes-find m overrides (field k v c) target (known, h) (fresh, u) =
    let t = if overrides || truth v then put_field k v target else target in
    let (result, e, law) = set_attributes-find m overrides c t h u in
    (result, rw known e, λ a. law a ∙ overridden_step m overrides k a v c target fresh)

-- The client's `to_dict` gives a model's attributes, each once.
abbrev pub IsToDict : Dict Text → (Fields → Fields) → Type 0
IsToDict attribute_map to_dict =
    (model : Fields) → AreAttributes attribute_map (to_dict model) × IsDistinct (to_dict model)

get_k8s_model_dict-AreAttributes :
    (to_dict : Fields → Fields) (m : Dict Text)
    → IsToDict m to_dict
    → (changes : Given) (c : Fields) → get_k8s_model_dict to_dict m changes ≡ some c
    → AreAttributes m c × IsDistinct c
unfolding get_k8s_model_dict map_dict_keys_to_model_attributes
get_k8s_model_dict-AreAttributes to_dict m dicts (instance_of model) c e =
    let same : to_dict model ≡ c = cc in rw (sym same) (dicts model)
get_k8s_model_dict-AreAttributes to_dict m dicts (dictionary d) c e =
    map_keys_onto-AreAttributes m d end c tt tt e
get_k8s_model_dict-AreAttributes to_dict m dicts (other v) c e = absurd (cc e)

-- When `to_dict` gives the attributes of a model, each once, and the changes have a representation
-- with the model's attributes for keys, `update_k8s_model` returns the target with, for every
-- attribute that the representation has, its value, if the changes are a dict or the value is true
-- in Python; all else of the target is as it was.
pub update_k8s_model_lem :
    (to_dict : Fields → Fields) (attribute_map : Dict Text)
    → IsToDict attribute_map to_dict
    → (target : Fields) (changes : Given) (changes_dict : Fields)
    → get_k8s_model_dict to_dict attribute_map changes ≡ some changes_dict
    → (result : Fields) × (update_k8s_model to_dict attribute_map target changes ≡ some result)
      × ((a : Text)
          → find_field a result
            ≡ overridden (is_dict changes) (find_field a target) (find_field a changes_dict))
unfolding update_k8s_model
update_k8s_model_lem to_dict m dicts target changes c e =
    let (known, once) = get_k8s_model_dict-AreAttributes to_dict m dicts changes c e in
    rw e (set_attributes-find m (is_dict changes) c target known once)
