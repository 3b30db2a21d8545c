-- ===== src/Json.antt =====
-- JSON values as Python has them: configuration, manifests and user options. Numbers are natural
-- ones, and the keys of an object stand in insertion order, each once.
use kubespawner.Prelude.{
  ◌≡◌, refl, Bool, true, false, ℕ, zero, suc, Option, none, some, arith, if◌then◌else◌, List, [],
  ◌∷◌,
}
use kubespawner.Text.{Text, text_eq, text_eq_iff}

mutual
  pub data Value : Type 0 where
    null : Value
    boolean : Bool → Value
    number : ℕ → Value
    text : Text → Value
    list : Items → Value
    object : Fields → Value

  pub data Items : Type 0 where
    nil : Items
    cons : Value → Items → Items

  pub data Fields : Type 0 where
    end : Fields
    field : Text → Value → Fields → Fields

-- `d.get(k)`, or none if the key is missing.
unfoldable pub find_field : Text → Fields → Option Value
find_field k end = none
find_field k (field j v d) = if text_eq j k then some v else find_field k d

-- `d[k] = v`
unfoldable pub put_field : Text → Value → Fields → Fields
put_field k v end = field k v end
put_field k v (field j w d) = if text_eq j k then field j v d else field j w (put_field k v d)

-- `d.pop(k, None)`
unfoldable pub drop_field : Text → Fields → Fields
drop_field k end = end
drop_field k (field j v d) =
    let rest = drop_field k d in if text_eq j k then rest else field j v rest

-- `d.update(e)`
unfoldable pub update_fields : Fields → Fields → Fields
update_fields d end = d
update_fields d (field k v e) = update_fields (put_field k v d) e

abbrev pub field_keys : Fields → List Text
field_keys end = []
field_keys (field k v d) = k ∷ field_keys d

-- Python's truth of a value.
unfoldable pub truth : Value → Bool
truth null = false
truth (boolean b) = b
truth (number zero) = false
truth (number (suc n)) = true
truth (text []) = false
truth (text (c ∷ t)) = true
truth (list nil) = false
truth (list (cons v xs)) = true
truth (object end) = false
truth (object (field k v d)) = true

pub find_field-put_field :
    (k j : Text) (v : Value) (d : Fields)
    → find_field j (put_field k v d) ≡ (if text_eq k j then some v else find_field j d)
unfolding find_field put_field
find_field-put_field k j v end = refl
find_field-put_field k j v (field i w d) =
    ground (arith, text_eq_iff k j, text_eq_iff i k, text_eq_iff i j, find_field-put_field k j v d)

pub find_field-drop_field :
    (k j : Text) (d : Fields)
    → find_field j (drop_field k d) ≡ (if text_eq k j then none else find_field j d)
unfolding find_field drop_field
find_field-drop_field k j end = ground arith
find_field-drop_field k j (field i w d) =
    ground (arith, text_eq_iff k j, text_eq_iff i k, text_eq_iff i j, find_field-drop_field k j d)

-- No key stands twice, at the top.
abbrev pub IsDistinct : Fields → Type 0
IsDistinct end = Unit
IsDistinct (field k v d) = (find_field k d ≡ none) × IsDistinct d

pub put_field-IsDistinct :
    (k : Text) (v : Value) (d : Fields) → IsDistinct d → IsDistinct (put_field k v d)
unfolding find_field put_field
put_field-IsDistinct k v end h = (refl, tt)
put_field-IsDistinct k v (field j w d) h = ground (
  arith,
  put_field-IsDistinct k v d h.1,
  find_field-put_field k j v d,
  text_eq_iff k j,
  text_eq_iff j k,
)
