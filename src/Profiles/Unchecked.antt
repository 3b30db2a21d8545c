-- ===== src/Profiles/Unchecked.antt =====
-- What the validation of user options lets through to `_load_profile`.
use kubespawner.Prelude.{
  ◌≡◌, refl, sym, ◌∙◌, ap, inl, inr, Bool-cases, Bool, true, Option, none, some, [], ◌∷◌,
}
use kubespawner.Text.{Text, codes, text_eq, text_eq_iff}
use kubespawner.Dict.{Dict, get}
use kubespawner.Profiles.{
  Choice, Result, proceed, key_error, first_choice, has_default_choice, or_else, profile_of_slug,
  ok, err, Unlisted, ProfileOption, Profile, given, is_true, unlisted_key, get_profile,
  validate_options, validate_user_options, option_overrides, load_options, load_profile,
  load_user_options, init_unlisted, init_option, init_options, init_profile, initialized,
  default_profile,
}

module _ {O S : Type 0} (empty : O) (slugify : Text → Text) (matches : (regex value : Text) → Bool)
    (render : Text → O → Result O) (apply : O → S → S × Result (Unit {0})) where
  proceed-ok : (r : S × Result (Unit {0})) → proceed r (λ s. (s, ok tt)) ≡ r
  proceed-ok (s, ok u) = refl
  proceed-ok (s, err e) = refl

  overrides-init_unlisted :
      (u : Unlisted O) → (init_unlisted empty (some u)).overrides ≡ u.overrides
  unfolding init_unlisted
  overrides-init_unlisted u = elim (Bool-cases (is_true u.enabled)) [
    | inl e ↦ rw e refl
    | inr e ↦ rw e refl
  ]

  -- The only profile of a list is its default.
  record IsOnly (p q : Profile O) : Type 0 where
    list : initialized empty slugify (p ∷ []) ≡ q ∷ []
    chosen : q.is_default ≡ true
    overrides : q.overrides ≡ p.overrides
    tag : q.slug ≡ or_else p.slug (slugify p.display_name)
    options : q.profile_options ≡ init_options empty p.profile_options

  sole_profile : (p : Profile O) → (q : Profile O) × IsOnly p q
  unfolding initialized init_profile
  sole_profile p = elim (Bool-cases p.is_default) [
    | inl e ↦ (
      init_profile empty slugify p,
      record { list = rw e refl; chosen = e; overrides = refl; tag = refl; options = refl },
    )
    | inr e ↦ (
      record (init_profile empty slugify p) { is_default = true },
      record { list = rw e refl; chosen = refl; overrides = refl; tag = refl; options = refl },
    )
  ]

  loaded_unlisted :
      (o : ProfileOption O) (u : Unlisted O) (v : Text) (choice : Option Text)
      → o.unlisted_choice ≡ some u
      → option_overrides render apply (init_option empty o) (some v) choice ≡ render v u.overrides
  unfolding option_overrides init_option
  loaded_unlisted o u v choice e = rw (e, overrides-init_unlisted u) refl

  -- User options that name no profile are not validated: an unlisted choice for the only option of
  -- the only profile is rendered and applied, whether or not it is enabled and whatever its regular
  -- expression, unless the overrides of the profile or the rendering raise an exception.
  pub load_user_options_unchecked :
      (p : Profile O) (name v : Text) (o : ProfileOption O) (u : Unlisted O)
      (user_options : Dict Text) (s t : S) (x : O)
      → p.profile_options ≡ (name, o) ∷ []
      → o.unlisted_choice ≡ some u
      → given (codes "profile") user_options ≡ none
      → given (unlisted_key name) user_options ≡ some v
      → apply p.overrides s ≡ (t, ok tt)
      → render v u.overrides ≡ ok x
      → load_user_options empty slugify matches render apply (p ∷ []) user_options s ≡ apply x t
  unfolding load_user_options validate_user_options load_profile get_profile default_profile
      load_options
  load_user_options_unchecked p name v o u user_options s t x eo eu unnamed e applied rendered =
      let (q, only) = sole_profile p in
      let opts : q.profile_options ≡ (name, init_option empty o) ∷ [] =
        only.options ∙ ap (init_options empty) eo in
      rw (only.list, unnamed, unnamed, only.chosen, only.overrides, opts)
        (rw (applied, e, loaded_unlisted o u v (given name user_options) eu, rendered)
          (proceed-ok (apply x t)))

  get-first_choice :
      (k : Text) (d : Dict (Choice O)) → get k d ≡ none → get k (first_choice d) ≡ none
  unfolding get
  get-first_choice k [] h = refl
  get-first_choice k ((j, c) ∷ d) h = elim (Bool-cases (text_eq j k)) [
    | inl e ↦ (let no : some c ≡ none = sym (rw e refl) ∙ h in cc no)
    | inr e ↦ rw e (sym (rw e refl) ∙ h)
  ]

  unknown_choice :
      (o : ProfileOption O) (choice : Text)
      → get choice o.choices ≡ none
      → option_overrides render apply (init_option empty o) none (some choice) ≡ err key_error
  unfolding option_overrides init_option
  unknown_choice o choice h = elim (Bool-cases (has_default_choice o.choices)) [
    | inl e ↦ rw (e, h) refl
    | inr e ↦ rw (e, get-first_choice choice o.choices h) refl
  ]

  found_only :
      (q : Profile O) (slug : Text) → q.slug ≡ some slug → get_profile (some slug) (q ∷ []) ≡ ok q
  unfolding get_profile profile_of_slug
  found_only q slug tag = simp (tag, (text_eq_iff slug slug).1 refl)

  -- The validation lets a choice pass that the option does not have: when the user options name the
  -- only profile and give such a choice, and no unlisted one, for its only option, then loading them
  -- raises a KeyError after the overrides of the profile have been applied, unless these raise.
  pub load_user_options_unknown :
      (p : Profile O) (slug name choice : Text) (o : ProfileOption O) (user_options : Dict Text)
      (s t : S)
      → p.slug ≡ some slug
      → p.profile_options ≡ (name, o) ∷ []
      → given (codes "profile") user_options ≡ some slug
      → given (unlisted_key name) user_options ≡ none
      → given name user_options ≡ some choice
      → get choice o.choices ≡ none
      → apply p.overrides s ≡ (t, ok tt)
      → load_user_options empty slugify matches render apply (p ∷ []) user_options s
        ≡ (t, err key_error)
  unfolding load_user_options validate_user_options validate_options load_profile load_options
  load_user_options_unknown p slug name choice o user_options s t es eo named unlisted chosen absent
        applied =
      let (q, only) = sole_profile p in
      let opts : q.profile_options ≡ (name, init_option empty o) ∷ [] =
        only.options ∙ ap (init_options empty) eo in
      let tag : q.slug ≡ some slug = only.tag ∙ ap (λ t. or_else t (slugify p.display_name)) es in
      rw (only.list, named, found_only q slug tag, opts, unlisted)
        (rw (named, found_only q slug tag, only.overrides, applied, opts, unlisted, chosen)
          (rw (unknown_choice o choice absent) refl))
