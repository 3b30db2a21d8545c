-- ===== src/Profiles/Default.antt =====
-- Initialized profile lists have defaults, so that a server without user options can start.
use kubespawner.Prelude.{
  ◌≡◌, ◌≢◌, refl, inl, inr, Bool-cases, Bool, true, false, List, [], ◌∷◌, map, if◌then◌else◌, arith,
  is_empty, ◌∙◌,
}
use kubespawner.Text.{Text}
use kubespawner.Dict.{Dict, get, AllEntries}
use mathlib.Core.Path.{fun_ext}
use kubespawner.Profiles.{
  Result, proceed, ok, err, value_error, Choice, ProfileOption, Profile, has_default_choice,
  first_choice, init_option, init_options, any_default, with_default, default_profile, get_profile,
  init_profile, initialized, validate_user_options, option_overrides, default_choice, load_options,
  load_profile, load_user_options, load_validated,
}

module _ {O : Type 0} where
  first_is_default : (ps : List (Profile O)) → ps ≢ [] → any_default (with_default ps) ≡ true
  first_is_default [] h = absurd (h refl)
  first_is_default (p ∷ ps) h = elim (Bool-cases (any_default (p ∷ ps))) [
    | inl e ↦ rw e e
    | inr e ↦ rw e refl
  ]

  -- An option with choices has a default choice once it is initialized.
  chosen : (d : Dict (Choice O)) → has_default_choice d ≡ true → (x : O) × (default_choice d ≡ ok x)
  chosen [] h = cc h
  chosen ((k, c) ∷ d) h = elim (Bool-cases c.is_default) [
    | inl e ↦ (c.overrides, rw e refl)
    | inr e ↦ let (x, found) = chosen d (ground (arith, h, e)) in (x, rw e found)
  ]

  first_chosen :
      (d : Dict (Choice O))
      → is_empty d ≡ false
      → let e = if has_default_choice d then d else first_choice d in
        (x : O) × (default_choice e ≡ ok x)
  first_chosen [] h = cc h
  first_chosen ((k, c) ∷ d) h = elim (Bool-cases (has_default_choice ((k, c) ∷ d))) [
    | inl e ↦ let (x, found) = chosen ((k, c) ∷ d) e in (x, rw e found)
    | inr e ↦ (c.overrides, rw e refl)
  ]

  -- The overrides of the default choice of each option.
  abbrev pub all_defaults : Dict (ProfileOption O) → List (Result O)
  all_defaults [] = []
  all_defaults ((name, o) ∷ d) = default_choice o.choices ∷ all_defaults d

  -- Every option of the profile has overrides for a user who gives no options.
  abbrev HasDefaults : Profile O → Type 0
  HasDefaults p =
      AllEntries (λ name o. (x : O) × (default_choice o.choices ≡ ok x)) p.profile_options

  -- Every option of the profile has choices.
  abbrev pub HasChoices : Profile O → Type 0
  HasChoices p = AllEntries (λ name o. is_empty o.choices ≡ false) p.profile_options

  abbrev pub AllProfiles : (Profile O → Type 0) → List (Profile O) → Type 0
  AllProfiles P [] = Unit
  AllProfiles P (p ∷ ps) = P p × AllProfiles P ps

  options-HasDefaults :
      (empty : O) (d : Dict (ProfileOption O))
      → AllEntries (λ name o. is_empty o.choices ≡ false) d
      → AllEntries (λ name o. (x : O) × (default_choice o.choices ≡ ok x)) (init_options empty d)
  unfolding init_option
  options-HasDefaults empty [] h = tt
  options-HasDefaults empty ((k, o) ∷ d) h =
      (first_chosen o.choices h.0, options-HasDefaults empty d h.1)

  profiles-HasDefaults :
      (empty : O) (slugify : Text → Text) (ps : List (Profile O))
      → AllProfiles HasChoices ps
      → AllProfiles HasDefaults (map (init_profile empty slugify) ps)
  unfolding init_profile
  profiles-HasDefaults empty slugify [] h = tt
  profiles-HasDefaults empty slugify (p ∷ ps) h =
      (options-HasDefaults empty p.profile_options h.0, profiles-HasDefaults empty slugify ps h.1)

  first-HasDefaults :
      (ps : List (Profile O))
      → AllProfiles HasDefaults ps
      → AllProfiles HasDefaults (with_default ps)
  first-HasDefaults [] h = h
  first-HasDefaults (p ∷ ps) h = elim (Bool-cases (any_default (p ∷ ps))) [
    | inl e ↦ rw e h
    | inr e ↦ rw e h
  ]

  found_default :
      (ps : List (Profile O))
      → any_default ps ≡ true
      → AllProfiles HasDefaults ps
      → (p : Profile O) × (default_profile ps ≡ ok p) × HasDefaults p
  unfolding default_profile
  found_default [] h d = cc h
  found_default (p ∷ ps) h d = elim (Bool-cases p.is_default) [
    | inl e ↦ (p, rw e refl, d.0)
    | inr e ↦
        let (q, found, e') = found_default ps (ground (arith, h, e)) d.1 in (q, rw e found, e')
  ]

-- Overrides one after another, up to the first that raises.
abbrev pub apply_all :
    {O S : Type 0} → (O → S → S × Result (Unit {0})) → List O → S → S × Result (Unit {0})
apply_all apply [] s = (s, ok tt)
apply_all apply (x ∷ xs) s = proceed (apply x s) (apply_all apply xs)

module _ {O S : Type 0} (empty : O) (slugify : Text → Text) (matches : (regex value : Text) → Bool)
    (render : Text → O → Result O) (apply : O → S → S × Result (Unit {0})) where
  given_default :
      (d : Dict (Choice O)) (x : O)
      → default_choice d ≡ ok x
      → (if is_empty d then err value_error else default_choice d) ≡ ok x
  given_default [] x e = cc e
  given_default ((k, c) ∷ d) x e = e

  loads :
      (d : Dict (ProfileOption O))
      → AllEntries (λ name o. (x : O) × (default_choice o.choices ≡ ok x)) d
      → (xs : List O) × (all_defaults d ≡ map ok xs)
        × (load_options render apply [] d ≡ apply_all apply xs)
  unfolding load_options option_overrides get
  loads [] h = ([], refl, fun_ext λ s. refl)
  loads ((name, o) ∷ d) ((x, e), rest) =
      let (xs, defaults, same) = loads d rest in
      (x ∷ xs, rw (e, defaults) refl, fun_ext λ s. rw (given_default o.choices x e, same) refl)

  loaded_default :
      (ps : List (Profile O)) (q : Profile O) (s : S)
      → default_profile ps ≡ ok q
      → load_validated empty slugify matches render apply ps [] (ok tt) s
        ≡ proceed (apply q.overrides s) (load_options render apply [] q.profile_options)
  unfolding load_profile get_profile get
  loaded_default [] q s found = absurd (unfold default_profile in cc found)
  loaded_default (p ∷ ps) q s found = rw found refl

  -- With no user options and at least one profile, when every option of the profiles has choices,
  -- the loading applies the overrides of the initialized list's default profile, and then those of
  -- the default choice of each of its options, in this order and up to the first one that raises,
  -- and it raises nothing else.
  pub load_user_options_default :
      (p : Profile O) (ps : List (Profile O)) (s : S)
      → AllProfiles HasChoices (p ∷ ps)
      → (q : Profile O) × (xs : List O) × (default_profile (initialized empty slugify (p ∷ ps))
          ≡ ok q)
        × (all_defaults q.profile_options ≡ map ok xs)
        × (load_user_options empty slugify matches render apply (p ∷ ps) [] s
            ≡ apply_all apply (q.overrides ∷ xs) s)
  unfolding load_user_options validate_user_options load_profile get_profile get initialized
  load_user_options_default p ps s h =
      let all = map (init_profile empty slugify) (p ∷ ps) in
      let defaults = first-HasDefaults all (profiles-HasDefaults empty slugify (p ∷ ps) h) in
      let (q, found, d) =
        found_default (with_default all) (first_is_default all (λ e. cc e)) defaults in
      let (xs, choices, same) = loads q.profile_options d in
      (q, xs, found, choices, loaded_default (with_default all) q s found ∙ rw same refl)
