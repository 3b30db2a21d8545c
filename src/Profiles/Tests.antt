-- ===== src/Profiles/Tests.antt =====
-- Runs of the profiles, and instances of the theorems. Overrides are texts, and what is applied to
-- the object is listed; the value of an unlisted choice stands in front of the override. An
-- empty override cannot be applied.
use kubespawner.Prelude.{
  ◌≡◌, refl, Bool, true, false, Option, none, some, List, [], ◌∷◌, ◌++◌, if◌then◌else◌, map,
}
use kubespawner.Text.{Text, codes, text_eq}
use kubespawner.Dict.{Dict, get, AllEntries}
use kubespawner.Profiles.{
  Result, override_error, load_options, option_overrides, load_profile, init_profile, init_option,
  init_unlisted, initialized, default_profile, err, key_error, ok, Unlisted, ProfileOption, Profile,
  given, unlisted_key, profile_of_slug, get_profile, validate_unlisted, validate_options,
  validate_user_options, load_user_options,
}
use kubespawner.Profiles.Form.{first_of, options_from_form, options_from_form-get, option_prefix}
use kubespawner.Profiles.Default.{all_defaults, apply_all, load_user_options_default}
use kubespawner.Profiles.Validation.{Permits, validate_user_options-Permits}
use kubespawner.Profiles.Unchecked.{load_user_options_unchecked, load_user_options_unknown}

abbrev same_slug : Text → Text
same_slug s = s

abbrev render : Text → Text → Result Text
render v x = ok (v ++ x)

abbrev apply : Text → List Text → List Text × Result (Unit {0})
apply [] s = (s, err override_error)
apply (c ∷ x) s = (s ++ ((c ∷ x) ∷ []), ok tt)

abbrev unlisted : Option Bool → Unlisted Text
unlisted enabled = record {
  enabled = enabled;
  validation_regex = some (codes "demo");
  display_name_in_choices = none;
  overrides = codes "image";
}

abbrev image : Option Bool → ProfileOption Text
image enabled = record {
  choices =
      (codes "minimal", record { is_default = false; overrides = codes "minimal image" }) ∷ [];
  unlisted_choice = some (unlisted enabled);
}

abbrev profile : Option Bool → Profile Text
profile enabled = record {
  display_name = codes "demo";
  slug = some (codes "demo");
  is_default = false;
  overrides = codes "profile";
  profile_options = (codes "image", image enabled) ∷ [];
}

abbrev asked : Dict Text
asked = (codes "profile", codes "demo") ∷ (codes "image--unlisted-choice", codes "demo") ∷ []

abbrev unnamed : Dict Text
unnamed = (codes "image--unlisted-choice", codes "any") ∷ []

given_profile : given (codes "profile") asked ≡ some (codes "demo")
unfolding get text_eq
given_profile = refl

no_profile_given : given (codes "profile") unnamed ≡ none
unfolding get text_eq
no_profile_given = refl

given_image : given (unlisted_key (codes "image")) unnamed ≡ some (codes "any")
unfolding get text_eq
given_image = refl

asked_valid : validate_user_options text_eq asked (profile (some true) ∷ []) ≡ ok tt
unfolding validate_user_options validate_options validate_unlisted get_profile profile_of_slug get
    text_eq
asked_valid = refl

validate_user_options-Permits_example :
    (p : Profile Text) × (get_profile (some (codes "demo")) (profile (some true) ∷ []) ≡ ok p)
    × AllEntries
        (λ name o. (v : Text) → given (unlisted_key name) asked ≡ some v → Permits text_eq v o)
        p.profile_options
validate_user_options-Permits_example =
    validate_user_options-Permits text_eq asked (profile (some true) ∷ []) (codes "demo")
      given_profile asked_valid

load_user_options_unchecked_example :
    load_user_options [] same_slug text_eq render apply (profile (some false) ∷ []) unnamed []
    ≡ (codes "profile" ∷ codes "anyimage" ∷ [], ok tt)
load_user_options_unchecked_example =
    load_user_options_unchecked [] same_slug text_eq render apply (profile (some false))
      (codes "image") (codes "any") (image (some false)) (unlisted (some false)) unnamed []
      (codes "profile" ∷ []) (codes "anyimage") refl refl no_profile_given given_image refl refl

load_user_options_default_example :
    (q : Profile Text) × (xs : List Text) × (default_profile
        (initialized [] same_slug (profile none ∷ []))
      ≡ ok q)
    × (all_defaults q.profile_options ≡ map ok xs)
    × (load_user_options [] same_slug text_eq render apply (profile none ∷ []) [] []
        ≡ apply_all apply (q.overrides ∷ xs) [])
load_user_options_default_example =
    load_user_options_default [] same_slug text_eq render apply (profile none) [] []
      ((refl, tt), tt)

-- A profile whose option's default choice cannot be applied: its own overrides stay.
abbrev broken : Profile Text
broken = record (profile none) {
  profile_options =
      (
        codes "image",
        record (image none) {
          choices = (codes "none", record { is_default = true; overrides = [] }) ∷ [];
        },
      )
      ∷ [];
}

broken_run :
    load_user_options [] same_slug text_eq render apply (broken ∷ []) [] []
    ≡ (codes "profile" ∷ [], err override_error)
unfolding load_user_options validate_user_options load_profile get_profile get initialized
    init_profile init_option init_unlisted default_profile load_options option_overrides
broken_run = refl

abbrev form : Dict Text
form = (codes "profile", codes "demo") ∷ (codes "profile-option-demo--image", codes "minimal") ∷ []

form_profile : given (codes "profile") form ≡ some (codes "demo")
unfolding get text_eq
form_profile = refl

form_fresh :
    get (codes "profile") ((codes "profile-option-demo--image", codes "minimal") ∷ []) ≡ none
unfolding get text_eq
form_fresh = refl

form_last : get {V = Text} (codes "profile-option-demo--image") [] ≡ none
unfolding get
form_last = refl

options_from_form-get_example :
    get (codes "image") (options_from_form form)
    ≡ first_of
        (get (option_prefix (codes "demo") ++ codes "image") form)
        (if text_eq (codes "profile") (codes "image") then some (codes "demo") else none)
options_from_form-get_example =
    options_from_form-get form (codes "demo") (form_fresh, (form_last, tt)) form_profile
      (codes "image")

abbrev wrong : Dict Text
wrong = (codes "profile", codes "demo") ∷ (codes "image", codes "gone") ∷ []

wrong_profile : given (codes "profile") wrong ≡ some (codes "demo")
unfolding get text_eq
wrong_profile = refl

wrong_unlisted : given (unlisted_key (codes "image")) wrong ≡ none
unfolding get text_eq
wrong_unlisted = refl

wrong_choice : given (codes "image") wrong ≡ some (codes "gone")
unfolding get text_eq
wrong_choice = refl

not_a_choice : get (codes "gone") (image none).choices ≡ none
unfolding get text_eq
not_a_choice = refl

load_user_options_unknown_example :
    load_user_options [] same_slug text_eq render apply (profile none ∷ []) wrong []
    ≡ (codes "profile" ∷ [], err key_error)
load_user_options_unknown_example =
    load_user_options_unknown [] same_slug text_eq render apply (profile none) (codes "demo")
      (codes "image") (codes "gone") (image none) wrong [] (codes "profile" ∷ []) refl refl
      wrong_profile wrong_unlisted wrong_choice not_a_choice refl
