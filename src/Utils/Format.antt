-- ===== src/Utils/Format.antt =====
-- `recursive_format` and `IgnoreMissing`. A text is parsed by `parse`, which is `Formatter.parse` of
-- the standard library; it raises on a text that is no template.
use kubespawner.Prelude.{Option, none, some, [], ◌∷◌, ◌++◌, ◌>>=◌}
use kubespawner.Text.{Text, codes}
use kubespawner.Json.{
  Value, null, boolean, number, text, list, object, Items, nil, cons, Fields, end, field, put_field,
}
use kubespawner.Dict.{Dict, get}
use kubespawner.Names.{Template}
use kubespawner.Names

-- `IgnoreMissing.__missing__`
unfoldable pub or_itself : (key : Text) → Option Text → Text
or_itself key none = codes "{" ++ (key ++ codes "}")
or_itself key (some v) = v

-- `format_map(IgnoreMissing(kwargs))`
unfoldable pub format_map : Template → Dict Text → Text
format_map [] kwargs = []
format_map (Names.literal t ∷ pieces) kwargs = t ++ format_map pieces kwargs
format_map (Names.field k ∷ pieces) kwargs = or_itself k (get k kwargs) ++ format_map pieces kwargs

unfoldable pub format_text :
    (parse : Text → Option Template) (kwargs : Dict Text) → Text → Option Text
format_text parse kwargs t = do pieces ← parse t; some (format_map pieces kwargs)

-- `recursive_format`, on what JSON can hold; `items` and `fields` are its comprehensions.
unfoldable mutual
  pub recursive_format :
      (parse : Text → Option Template) (kwargs : Dict Text) → Value → Option Value
  recursive_format parse kwargs (text t) = do f ← format_text parse kwargs t; some (text f)
  recursive_format parse kwargs (list xs) = do ys ← format_items parse kwargs xs; some (list ys)
  recursive_format parse kwargs (object d) = do
    e ← format_fields parse kwargs d end
    some (object e)
  recursive_format parse kwargs null = some null
  recursive_format parse kwargs (boolean b) = some (boolean b)
  recursive_format parse kwargs (number n) = some (number n)

  pub format_items : (parse : Text → Option Template) (kwargs : Dict Text) → Items → Option Items
  format_items parse kwargs nil = some nil
  format_items parse kwargs (cons v xs) = do
    w ← recursive_format parse kwargs v
    ys ← format_items parse kwargs xs
    some (cons w ys)

  -- Keys are formatted too, and a later one replaces the value of an equal earlier one.
  pub format_fields :
      (parse : Text → Option Template) (kwargs : Dict Text)
      → Fields
      → (so_far : Fields) → Option Fields
  format_fields parse kwargs end so_far = some so_far
  format_fields parse kwargs (field k v d) so_far = do
    j ← format_text parse kwargs k
    w ← recursive_format parse kwargs v
    format_fields parse kwargs d (put_field j w so_far)
