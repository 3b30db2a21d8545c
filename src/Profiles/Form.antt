-- ===== src/Profiles/Form.antt =====
-- `_options_from_form` of kubespawner/spawner.py: the user options that the fields of a form give.
use kubespawner.Prelude.{
  ◌≡◌, refl, sym, ◌∙◌, ap, inl, inr, Bool-cases, Option, none, some, [], ◌∷◌, ◌++◌, if◌then◌else◌,
  ◌==◌, ==_iff, arith,
}
use kubespawner.Text.{Text, codes, text_eq, text_eq_iff}
use kubespawner.Dict.{Dict, get, insert, get-insert, IsUnique}
use kubespawner.Profiles.{given}

-- `k[len(prefix):]`, if `k` starts with the prefix.
unfoldable pub drop_prefix : (prefix k : Text) → Option Text
drop_prefix [] k = some k
drop_prefix (c ∷ prefix) [] = none
drop_prefix (c ∷ prefix) (d ∷ k) = let rest = drop_prefix prefix k in if c == d then rest else none

abbrev pub option_prefix : (slug : Text) → Text
option_prefix slug = codes "profile-option-" ++ (slug ++ codes "--")

abbrev pub put : Option Text → Text → Dict Text → Dict Text
put none v d = d
put (some name) v d = insert name v d

unfoldable pub form_options : (prefix : Text) → Dict Text → Dict Text → Dict Text
form_options prefix [] d = d
form_options prefix ((k, v) ∷ form) d = form_options prefix form (put (drop_prefix prefix k) v d)

abbrev pub options_of_slug : Option Text → Dict Text → Dict Text
options_of_slug none form = []
options_of_slug (some slug) form =
    form_options (option_prefix slug) form ((codes "profile", slug) ∷ [])

-- `_options_from_form`; the form has the first value of each field.
unfoldable pub options_from_form : Dict Text → Dict Text
options_from_form form = options_of_slug (given (codes "profile") form) form

-- The first one, if it is there.
abbrev pub first_of : Option Text → Option Text → Option Text
first_of none b = b
first_of (some a) b = some a

-- `k` starts with the prefix, and goes on with the name, or the key of the name is another one.
drop_prefix-get :
    (prefix k name v : Text) (d : Dict Text)
    → get name (put (drop_prefix prefix k) v d)
      ≡ (if text_eq k (prefix ++ name) then some v else get name d)
unfolding drop_prefix text_eq
drop_prefix-get [] k name v d = get-insert k name v d
drop_prefix-get (c ∷ prefix) [] name v d = refl
drop_prefix-get (c ∷ prefix) (e ∷ k) name v d =
    ground (arith, ==_iff c e, ==_iff e c, drop_prefix-get prefix k name v d)

form_options-get :
    (prefix : Text) (form : Dict Text) (name : Text) (d : Dict Text)
    → IsUnique form
    → get name (form_options prefix form d) ≡ first_of (get (prefix ++ name) form) (get name d)
unfolding form_options get
form_options-get prefix [] name d h = refl
form_options-get prefix ((k, v) ∷ form) name d (fresh, h) =
    let d' = put (drop_prefix prefix k) v d in
    let next = form_options-get prefix form name d' h in
    let first = drop_prefix-get prefix k name v d in
    elim (Bool-cases (text_eq k (prefix ++ name))) [
      | inl same ↦
          let last : get (prefix ++ name) form ≡ none =
            ap (λ j. get j form) (sym ((text_eq_iff k (prefix ++ name)).0 same)) ∙ fresh in
          rw same (next ∙ rw (last, first, same) refl)
      | inr other ↦ rw other (next ∙ rw (first, other) refl)
    ]

-- For a form in which no field stands twice and that names a profile, the user options give for
-- each name the value of the field `profile-option-{profile}--{name}`, if there is one. Without such
-- a field, the name `profile` gives the profile, and every other name gives nothing; a field
-- `profile-option-{profile}--profile` thus takes the place of the profile.
pub options_from_form-get :
    (form : Dict Text) (slug : Text)
    → IsUnique form
    → given (codes "profile") form ≡ some slug
    → (name : Text)
    → get name (options_from_form form)
      ≡ first_of
          (get (option_prefix slug ++ name) form)
          (if text_eq (codes "profile") name then some slug else none)
unfolding options_from_form
options_from_form-get form slug h e name = rw e (
    form_options-get (option_prefix slug) form name ((codes "profile", slug) ∷ []) h
    ∙ unfold get in refl)
