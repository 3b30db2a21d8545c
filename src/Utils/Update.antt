-- ===== src/Utils/Update.antt =====
-- `recursive_update`: one configuration over another.
use kubespawner.Prelude.{
  bound, ◌≡◌, refl, sym, ◌∙◌, ap, inl, inr, Bool-cases, true, false, Option, none, some,
  if◌then◌else◌, ◌>>=◌,
}
use kubespawner.Text.{Text, text_eq, text_eq_iff}
use kubespawner.Json.{
  Value, null, boolean, number, text, list, object, Fields, end, field, find_field, put_field,
  drop_field, IsDistinct, find_field-put_field, find_field-drop_field,
}

-- The dictionary that `target[k]` is, after `if k not in target: target[k] = {}`; other values
-- have no fields.
unfoldable pub nested : Option Value → Fields
nested none = end
nested (some (object d)) = d
nested (some null) = end
nested (some (boolean b)) = end
nested (some (number n)) = end
nested (some (text t)) = end
nested (some (list xs)) = end

-- A target that is no dictionary can be updated with nothing only: the loop body raises.
unfoldable pub unchanged : Value → Fields → Option Value
unchanged target end = some target
unchanged target (field k v new) = none

unfoldable pub as_object : Option Fields → Option Value
as_object none = none
as_object (some d) = some (object d)

-- What the recursive call leaves in `target[k]`, from its outcome for a dictionary there.
unfoldable pub updated : Option Value → (new : Fields) → Option Fields → Option Value
updated none new outcome = as_object outcome
updated (some (object d)) new outcome = as_object outcome
updated (some null) new outcome = unchanged null new
updated (some (boolean b)) new outcome = unchanged (boolean b) new
updated (some (number n)) new outcome = unchanged (number n) new
updated (some (text t)) new outcome = unchanged (text t) new
updated (some (list xs)) new outcome = unchanged (list xs) new

-- `target[k]` as the recursive call leaves it.
unfoldable pub put_updated : Text → Fields → Option Value → Option Fields
put_updated k target none = none
put_updated k target (some v) = some (put_field k v target)

-- `recursive_update` of a dictionary, by the target's new value; `none` is an exception.
unfoldable mutual
  pub recursive_update : (new target : Fields) → Option Fields
  recursive_update end target = some target
  recursive_update (field k v new) target = do t ← update_field k v target; recursive_update new t

  -- The loop's body.
  pub update_field : (k : Text) (v : Value) (target : Fields) → Option Fields
  update_field k (object inner) target =
      put_updated k target (
        updated (find_field k target) inner (recursive_update inner (nested (find_field k target))))
  update_field k null target = some (drop_field k target)
  update_field k (boolean b) target = some (put_field k (boolean b) target)
  update_field k (number n) target = some (put_field k (number n) target)
  update_field k (text t) target = some (put_field k (text t) target)
  update_field k (list xs) target = some (put_field k (list xs) target)

-- What a key holds after an update: `old` is what the target has for it, and `new` what the update
-- has; with a dictionary, the update of the dictionary there.
unfoldable pub merged : (old new : Option Value) → Option (Option Value)
merged old none = some old
merged old (some null) = some none
merged old (some (object inner)) = do
  v ← updated old inner (recursive_update inner (nested old))
  some (some v)
merged old (some (boolean b)) = some (some (boolean b))
merged old (some (number n)) = some (some (number n))
merged old (some (text t)) = some (some (text t))
merged old (some (list xs)) = some (some (list xs))

text_eq_refl : (k : Text) → text_eq k k ≡ true
text_eq_refl k = (text_eq_iff k k).1 refl

put_other :
    (k j : Text) (v : Value) (target result : Fields)
    → text_eq k j ≡ false
    → some (put_field k v target) ≡ some result
    → find_field j result ≡ find_field j target
put_other k j v target result ne e =
    let same : put_field k v target ≡ result = cc in
    ap (find_field j) (sym same) ∙ (find_field-put_field k j v target ∙ rw ne refl)

drop_other :
    (k j : Text) (target result : Fields)
    → text_eq k j ≡ false
    → some (drop_field k target) ≡ some result
    → find_field j result ≡ find_field j target
drop_other k j target result ne e =
    let same : drop_field k target ≡ result = cc in
    ap (find_field j) (sym same) ∙ (find_field-drop_field k j target ∙ rw ne refl)

put_same :
    (k : Text) (v : Value) (target result : Fields)
    → some (put_field k v target) ≡ some result
    → find_field k result ≡ some v
put_same k v target result e =
    let same : put_field k v target ≡ result = cc in
    ap (find_field k) (sym same) ∙ (find_field-put_field k k v target ∙ rw (text_eq_refl k) refl)

drop_same :
    (k : Text) (target result : Fields)
    → some (drop_field k target) ≡ some result
    → find_field k result ≡ none
drop_same k target result e =
    let same : drop_field k target ≡ result = cc in
    ap (find_field k) (sym same) ∙ (find_field-drop_field k k target ∙ rw (text_eq_refl k) refl)

updated_other :
    (k j : Text) (u : Option Value) (target result : Fields)
    → text_eq k j ≡ false
    → put_updated k target u ≡ some result
    → find_field j result ≡ find_field j target
unfolding put_updated
updated_other k j none target result ne e = absurd (cc e)
updated_other k j (some v) target result ne e = put_other k j v target result ne e

updated_same :
    (k : Text) (u : Option Value) (target result : Fields)
    → put_updated k target u ≡ some result
    → (do v ← u; some (some v)) ≡ some (find_field k result)
unfolding put_updated
updated_same k none target result e = absurd (cc e)
updated_same k (some v) target result e = ap some (sym (put_same k v target result e))

-- One step leaves the other keys as they are.
pub update_field_other :
    (k j : Text) (v : Value) (target result : Fields)
    → text_eq k j ≡ false
    → update_field k v target ≡ some result
    → find_field j result ≡ find_field j target
unfolding update_field
update_field_other k j (object inner) target result ne e =
    updated_other k j
      (updated (find_field k target) inner (recursive_update inner (nested (find_field k target))))
      target result ne e
update_field_other k j null target result ne e = drop_other k j target result ne e
update_field_other k j (boolean b) target result ne e = put_other k j (boolean b) target result ne e
update_field_other k j (number n) target result ne e = put_other k j (number n) target result ne e
update_field_other k j (text t) target result ne e = put_other k j (text t) target result ne e
update_field_other k j (list xs) target result ne e = put_other k j (list xs) target result ne e

-- One step merges the value at its key.
update_field_same :
    (k : Text) (v : Value) (target result : Fields)
    → update_field k v target ≡ some result
    → merged (find_field k target) (some v) ≡ some (find_field k result)
unfolding update_field merged
update_field_same k (object inner) target result e =
    updated_same k
      (updated (find_field k target) inner (recursive_update inner (nested (find_field k target))))
      target result e
update_field_same k null target result e = ap some (sym (drop_same k target result e))
update_field_same k (boolean b) target result e =
    ap some (sym (put_same k (boolean b) target result e))
update_field_same k (number n) target result e =
    ap some (sym (put_same k (number n) target result e))
update_field_same k (text t) target result e = ap some (sym (put_same k (text t) target result e))
update_field_same k (list xs) target result e = ap some (sym (put_same k (list xs) target result e))

pub merged-none : (old : Option Value) → merged old none ≡ some old
unfolding merged
merged-none old = refl

-- A key that `new` does not have is left alone.
untouched :
    (k : Text) (target result new : Fields)
    → find_field k new ≡ none
    → merged (find_field k target) (find_field k new) ≡ some (find_field k result)
    → some (find_field k target) ≡ some (find_field k result)
untouched k target result new fresh e =
    sym (merged-none (find_field k target)) ∙ (ap (merged (find_field k target)) (sym fresh) ∙ e)

pub find_field_head :
    (k j : Text) (v : Value) (d : Fields)
    → find_field j (field k v d) ≡ (if text_eq k j then some v else find_field j d)
unfolding find_field
find_field_head k j v d = refl

-- When no key stands twice in `new` and `recursive_update` raises no exception, every key holds
-- afterwards what `merged` says of it, from what the target and `new` had there: without the key in
-- `new`, the target's value; with null there, nothing; with a dictionary, that dictionary merged in
-- the same way into the one of the target, or into an empty one; else the value of `new`.
pub find_field-recursive_update :
    (new target result : Fields)
    → IsDistinct new
    → recursive_update new target ≡ some result
    → (j : Text) → merged (find_field j target) (find_field j new) ≡ some (find_field j result)
unfolding recursive_update find_field
find_field-recursive_update end target result h e j =
    merged-none (find_field j target)
    ∙ (let same : target ≡ result = cc in ap (λ d. some (find_field j d)) same)
find_field-recursive_update (field k v new) target result (fresh, h) e j =
    let (t, step, rest) = bound (update_field k v target) (λ t. recursive_update new t) result e in
    let later = find_field-recursive_update new t result h rest j in
    rw (find_field_head k j v new) (elim (Bool-cases (text_eq k j)) [
      | inl same ↦ rw same (
          rw (sym ((text_eq_iff k j).0 same)) (
            update_field_same k v target t step
            ∙ untouched k t result new fresh (find_field-recursive_update new t result h rest k)))
      | inr ne ↦ rw ne (rw (sym (update_field_other k j v target t ne step)) later)
    ])
