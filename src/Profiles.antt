-- ===== src/Profiles.antt =====
-- Profiles of kubespawner/spawner.py: `_get_initialized_profile_list`, `_validate_user_options`,
-- `_get_profile`, `_load_profile` and `load_user_options`. The values of
-- `kubespawner_override` are of a type `O`, and the object that they change of a type `S`: `apply`
-- is `_apply_overrides`, which leaves what it has changed when it raises, and `render` replaces
-- `{value}` in every override (`recursive_format`), or raises.
-- The packages' functions are `slugify`, and `matches` for `re.match`. User options are texts.
pub mod Overrides
pub mod Form
pub mod Default
pub mod Validation
pub mod Unchecked
mod Tests
use kubespawner.Prelude.{
  Bool, true, false, not, ◌||◌, Option, none, some, List, [], ◌∷◌, ◌++◌, if◌then◌else◌, map,
  is_empty,
}
use kubespawner.Text.{Text, codes, text_eq}
use kubespawner.Dict.{Dict, get}

-- `override_error` is any exception of `_apply_overrides` or `recursive_format`.
pub data Exn : Type 0 where
  value_error : Exn
  key_error : Exn
  stop_iteration : Exn
  override_error : Exn

pub data Result {ℓ} (A : Type ℓ) : Type ℓ where
  ok : A → Result A
  err : Exn → Result A

pub record Choice (O : Type 0) : Type 0 where
  pub is_default : Bool
  pub overrides : O

-- `unlisted_choice`; fields that may be missing are options.
pub record Unlisted (O : Type 0) : Type 0 where
  pub enabled : Option Bool
  pub validation_regex : Option Text
  pub display_name_in_choices : Option Text
  pub overrides : O

pub record ProfileOption (O : Type 0) : Type 0 where
  pub choices : Dict (Choice O)
  pub unlisted_choice : Option (Unlisted O)

pub record Profile (O : Type 0) : Type 0 where
  pub display_name : Text
  pub slug : Option Text
  pub is_default : Bool
  pub overrides : O
  pub profile_options : Dict (ProfileOption O)

-- A text that is true.
abbrev pub truthy : Option Text → Option Text
truthy none = none
truthy (some []) = none
truthy (some (c ∷ t)) = some (c ∷ t)

-- `user_options.get(k)`, if it is true.
abbrev pub given : Text → Dict Text → Option Text
given k user_options = truthy (get k user_options)

abbrev pub unlisted_key : Text → Text
unlisted_key name = name ++ codes "--unlisted-choice"

abbrev pub is_true : Option Bool → Bool
is_true none = false
is_true (some b) = b

abbrev pub or_else : Option Text → Text → Option Text
or_else none t = some t
or_else (some s) t = some s

abbrev pub and_then : Result (Unit {0}) → Result (Unit {0}) → Result (Unit {0})
and_then (err e) r = err e
and_then (ok u) r = r

-- `validation_regex and not re.match(…)`, negated.
abbrev pub regex_passes : (Text → Text → Bool) → Option Text → Text → Bool
regex_passes matches none v = true
regex_passes matches (some r) v = matches r v

module _ {O : Type 0} where
  abbrev pub has_default_choice : Dict (Choice O) → Bool
  has_default_choice [] = false
  has_default_choice ((k, c) ∷ d) = c.is_default || has_default_choice d

  abbrev pub first_choice : Dict (Choice O) → Dict (Choice O)
  first_choice [] = []
  first_choice ((k, c) ∷ d) = (k, record c { is_default = true }) ∷ d

  -- `setdefault` for `enabled` and `display_name_in_choices`.
  unfoldable pub init_unlisted : (empty : O) → Option (Unlisted O) → Unlisted O
  init_unlisted empty none = record {
    enabled = some false;
    validation_regex = none;
    display_name_in_choices = none;
    overrides = empty;
  }
  init_unlisted empty (some u) =
      if is_true u.enabled
      then record u {
        display_name_in_choices = or_else u.display_name_in_choices (codes "Other...");
      }
      else record u { enabled = elim u.enabled [ none ↦ some false | some b ↦ some b ] }

  unfoldable pub init_option : (empty : O) → ProfileOption O → ProfileOption O
  init_option empty o = record {
    choices = if has_default_choice o.choices then o.choices else first_choice o.choices;
    unlisted_choice = some (init_unlisted empty o.unlisted_choice);
  }

  abbrev pub init_options : (empty : O) → Dict (ProfileOption O) → Dict (ProfileOption O)
  init_options empty [] = []
  init_options empty ((k, o) ∷ d) = (k, init_option empty o) ∷ init_options empty d

  abbrev pub any_default : List (Profile O) → Bool
  any_default [] = false
  any_default (p ∷ ps) = p.is_default || any_default ps

  abbrev pub first_profile : List (Profile O) → List (Profile O)
  first_profile [] = []
  first_profile (p ∷ ps) = record p { is_default = true } ∷ ps

  abbrev pub with_default : List (Profile O) → List (Profile O)
  with_default ps = if any_default ps then ps else first_profile ps

  -- The first default profile.
  unfoldable pub default_profile : List (Profile O) → Result (Profile O)
  default_profile [] = err stop_iteration
  default_profile (p ∷ ps) = if p.is_default then ok p else default_profile ps

  unfoldable pub profile_of_slug : Text → List (Profile O) → Result (Profile O)
  profile_of_slug slug [] = err value_error
  profile_of_slug slug (p ∷ ps) = elim p.slug [
    | none ↦ err key_error
    | some s ↦ if text_eq s slug then ok p else profile_of_slug slug ps
  ]

  -- `_get_profile`, of a slug that is true, if any.
  unfoldable pub get_profile : Option Text → List (Profile O) → Result (Profile O)
  get_profile none ps = default_profile ps
  get_profile (some slug) ps = profile_of_slug slug ps

  abbrev pub choice_overrides : Option (Choice O) → Result O
  choice_overrides none = err key_error
  choice_overrides (some c) = ok c.overrides

  abbrev pub default_choice : Dict (Choice O) → Result O
  default_choice [] = err stop_iteration
  default_choice ((k, c) ∷ d) = if c.is_default then ok c.overrides else default_choice d

module _ {O : Type 0} (empty : O) (slugify : Text → Text) where
  unfoldable pub init_profile : Profile O → Profile O
  init_profile p = record p {
    slug = or_else p.slug (slugify p.display_name);
    profile_options = init_options empty p.profile_options;
  }

  -- `_get_initialized_profile_list`
  unfoldable pub initialized : List (Profile O) → List (Profile O)
  initialized ps = with_default (map init_profile ps)

module _ {O : Type 0} (matches : (regex value : Text) → Bool) where
  -- The tests of an unlisted choice.
  unfoldable pub validate_unlisted : Option (Unlisted O) → Text → Result (Unit {0})
  validate_unlisted none v = err value_error
  validate_unlisted (some u) v =
      if not (is_true u.enabled)
      then err value_error
      else if regex_passes matches (truthy u.validation_regex) v
      then ok tt
      else err value_error

  abbrev pub validate_given : ProfileOption O → Option Text → Result (Unit {0})
  validate_given o none = ok tt
  validate_given o (some v) = validate_unlisted o.unlisted_choice v

  unfoldable pub validate_options : Dict Text → Dict (ProfileOption O) → Result (Unit {0})
  validate_options user_options [] = ok tt
  validate_options user_options ((name, o) ∷ d) =
      and_then (validate_given o (given (unlisted_key name) user_options))
        (validate_options user_options d)

  abbrev pub validate_profile : Dict Text → Result (Profile O) → Result (Unit {0})
  validate_profile user_options (err e) = err e
  validate_profile user_options (ok p) = validate_options user_options p.profile_options

  abbrev pub validate_slug : Dict Text → List (Profile O) → Option Text → Result (Unit {0})
  validate_slug user_options ps none = ok tt
  validate_slug user_options ps (some slug) =
      validate_profile user_options (get_profile (some slug) ps)

  -- `_validate_user_options`
  unfoldable pub validate_user_options : Dict Text → List (Profile O) → Result (Unit {0})
  validate_user_options user_options ps =
      validate_slug user_options ps (given (codes "profile") user_options)

-- What runs after an action that may raise.
abbrev pub proceed :
    {S : Type 0} → S × Result (Unit {0}) → (S → S × Result (Unit {0})) → S × Result (Unit {0})
proceed (s, err e) rest = (s, err e)
proceed (s, ok u) rest = rest s

module _ {O S : Type 0} (render : Text → O → Result O) (apply : O → S → S × Result (Unit {0})) where
  abbrev pub unlisted_overrides : Option (Unlisted O) → Text → Result O
  unlisted_overrides none v = err key_error
  unlisted_overrides (some u) v = render v u.overrides

  -- The overrides of one option, by the unlisted choice and the choice that are given.
  unfoldable pub option_overrides : ProfileOption O → Option Text → Option Text → Result O
  option_overrides o (some v) choice = unlisted_overrides o.unlisted_choice v
  option_overrides o none (some choice) = choice_overrides (get choice o.choices)
  option_overrides o none none =
      if is_empty o.choices then err value_error else default_choice o.choices

  abbrev pub apply_next : Result O → (S → S × Result (Unit {0})) → S → S × Result (Unit {0})
  apply_next (err e) rest s = (s, err e)
  apply_next (ok x) rest s = proceed (apply x s) rest

  unfoldable pub load_options : Dict Text → Dict (ProfileOption O) → S → S × Result (Unit {0})
  load_options user_options [] s = (s, ok tt)
  load_options user_options ((name, o) ∷ d) s =
      apply_next
        (option_overrides o (given (unlisted_key name) user_options) (given name user_options))
        (load_options user_options d) s

  abbrev pub load_found : Dict Text → Result (Profile O) → S → S × Result (Unit {0})
  load_found user_options (err e) s = (s, err e)
  load_found user_options (ok p) s =
      proceed (apply p.overrides s) (load_options user_options p.profile_options)

  -- `_load_profile`
  unfoldable pub load_profile :
      Option Text → List (Profile O) → Dict Text → S → S × Result (Unit {0})
  load_profile slug ps user_options s = load_found user_options (get_profile slug ps) s

module _ {O S : Type 0} (empty : O) (slugify : Text → Text) (matches : (regex value : Text) → Bool)
    (render : Text → O → Result O) (apply : O → S → S × Result (Unit {0})) where
  abbrev pub load_validated :
      List (Profile O) → Dict Text → Result (Unit {0}) → S → S × Result (Unit {0})
  load_validated ps user_options (err e) s = (s, err e)
  load_validated [] user_options (ok u) s = (s, ok tt)
  load_validated (p ∷ ps) user_options (ok u) s =
      load_profile render apply (given (codes "profile") user_options) (p ∷ ps) user_options s

  -- `load_user_options`
  unfoldable pub load_user_options : List (Profile O) → Dict Text → S → S × Result (Unit {0})
  load_user_options profile_list user_options s =
      let ps = initialized empty slugify profile_list in
      load_validated ps user_options (validate_user_options matches user_options ps) s
