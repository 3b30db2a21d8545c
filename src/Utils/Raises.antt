-- ===== src/Utils/Raises.antt =====
-- Every outcome of `recursive_update`, its exceptions included.
use kubespawner.Prelude.{
  ◌≡◌, ◌≢◌, refl, sym, ◌∙◌, ap, inl, inr, ◌⊎◌, Bool-cases, Option-cases, Option, none, some, ◌>>=◌,
}
use kubespawner.Text.{Text, text_eq, text_eq_iff}
use kubespawner.Json.{
  Value, null, boolean, number, text, list, object, Fields, end, field, find_field, IsDistinct,
}
use kubespawner.Utils.Update.{
  recursive_update, update_field, updated, nested, put_updated, merged, merged-none,
  update_field_other, find_field_head, find_field-recursive_update,
}

put_updated-none :
    (k : Text) (target : Fields) (u : Option Value)
    → put_updated k target u ≡ none
    → (do v ← u; some (some v)) ≡ none
unfolding put_updated
put_updated-none k target none e = refl
put_updated-none k target (some v) e = absurd (cc e)

-- A step that raises has no merged value at its key.
update_field-none :
    (k : Text) (v : Value) (target : Fields)
    → update_field k v target ≡ none
    → merged (find_field k target) (some v) ≡ none
unfolding update_field merged
update_field-none k (object inner) target e =
    put_updated-none k target
      (updated (find_field k target) inner (recursive_update inner (nested (find_field k target))))
      e
update_field-none k null target e = absurd (cc e)
update_field-none k (boolean b) target e = absurd (cc e)
update_field-none k (number n) target e = absurd (cc e)
update_field-none k (text t) target e = absurd (cc e)
update_field-none k (list xs) target e = absurd (cc e)

merged_missing : (old new : Option Value) → new ≡ none → merged old new ≢ none
merged_missing old none e r = absurd (cc (sym (merged-none old) ∙ r))
merged_missing old (some v) e r = absurd (cc e)

chain-none :
    (a : Option Fields) (f : Fields → Option Fields) (t : Fields)
    → a ≡ some t
    → (do x ← a; f x) ≡ none
    → f t ≡ none
chain-none none f t e r = absurd (cc e)
chain-none (some x) f t e r = let same : x ≡ t = cc in rw (sym same) r

find_field_same : (k : Text) (v : Value) (d : Fields) → find_field k (field k v d) ≡ some v
find_field_same k v d = find_field_head k k v d ∙ rw ((text_eq_iff k k).1 refl) refl

-- Where an update raises, some key has no merged value.
raises_at :
    (new target : Fields)
    → IsDistinct new
    → recursive_update new target ≡ none
    → (j : Text) × (merged (find_field j target) (find_field j new) ≡ none)
unfolding recursive_update
raises_at end target h e = absurd (cc e)
raises_at (field k v new) target (fresh, h) e = elim (Option-cases (update_field k v target)) [
  | inl raised ↦ (k, rw (find_field_same k v new) (update_field-none k v target raised))
  | inr (t, step) ↦
      let (j, r) =
        raises_at new t h
          (chain-none (update_field k v target) (λ t. recursive_update new t) t step e) in
      elim (Bool-cases (text_eq k j)) [
        | inl same ↦ absurd (
            merged_missing (find_field j t) (find_field j new)
              (ap (λ i. find_field i new) (sym ((text_eq_iff k j).0 same)) ∙ fresh) r)
        | inr ne ↦ (
          j,
          rw (find_field_head k j v new, ne)
              (rw (sym (update_field_other k j v target t ne step)) r),
        )
      ]
]

-- When no key stands twice in `new`, `recursive_update` either returns, and every key holds afterwards
-- what `merged` says of it, from what the target and `new` had there, or it raises, and for some key
-- `merged` has no value. By `merged`, a key that `new` lacks keeps the target's value; with null there
-- it goes away; with a dictionary there, that dictionary is merged in the same way into the target's,
-- or into an empty one, which fails if the target has something else there and the dictionary is not
-- empty; with any other value, that is the value.
pub recursive_update_lem :
    (new target : Fields)
    → IsDistinct new
    → ((result : Fields) × (recursive_update new target ≡ some result)
        × ((j : Text)
            → merged (find_field j target) (find_field j new) ≡ some (find_field j result)))
      ⊎ ((recursive_update new target ≡ none)
          × ((j : Text) × (merged (find_field j target) (find_field j new) ≡ none)))
recursive_update_lem new target h = elim (Option-cases (recursive_update new target)) [
  | inl raised ↦ inr (raised, raises_at new target h raised)
  | inr (result, e) ↦ inl (result, e, λ j. find_field-recursive_update new target result h e j)
]
