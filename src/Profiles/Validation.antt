-- ===== src/Profiles/Validation.antt =====
-- What the validation of user options ensures.
use kubespawner.Prelude.{
  ◌≡◌, refl, ap, Bool, true, false, not, Option, none, some, List, [], ◌∷◌, if◌then◌else◌,
}
use kubespawner.Text.{Text, codes}
use kubespawner.Dict.{Dict, AllEntries}
use kubespawner.Profiles.{
  Result, ok, err, value_error, Unlisted, ProfileOption, Profile, given, truthy, is_true,
  unlisted_key, get_profile, validate_unlisted, validate_given, validate_options, validate_slug,
  validate_profile, validate_user_options, regex_passes, and_then,
}

is_true_inv : (b : Option Bool) → is_true b ≡ true → b ≡ some true
is_true_inv none h = cc h
is_true_inv (some b) h = ap some h

guard_inv :
    (b : Bool) (r : Result (Unit {0}))
    → (if not b then err value_error else r) ≡ ok tt
    → (b ≡ true) × (r ≡ ok tt)
guard_inv true r h = (refl, h)
guard_inv false r h = cc h

test_inv : (b : Bool) → (if b then ok tt else err value_error) ≡ ok (tt {0}) → b ≡ true
test_inv true h = refl
test_inv false h = cc h

and_then_inv : (r q : Result (Unit {0})) → and_then r q ≡ ok tt → (r ≡ ok tt) × (q ≡ ok tt)
and_then_inv (err e) q h = cc h
and_then_inv (ok tt) q h = (refl, h)

module _ {O : Type 0} (matches : (regex value : Text) → Bool) where
  -- An option that takes unlisted choices, and lets this one pass.
  pub record Permits (v : Text) (o : ProfileOption O) : Type 0 where
    pub unlisted : Unlisted O
    pub configured : o.unlisted_choice ≡ some unlisted
    pub enabled : unlisted.enabled ≡ some true
    pub passes : regex_passes matches (truthy unlisted.validation_regex) v ≡ true

  unlisted-Permits :
      (o : ProfileOption O) (u : Option (Unlisted O)) (v : Text)
      → o.unlisted_choice ≡ u
      → validate_unlisted matches u v ≡ ok tt
      → Permits v o
  unfolding validate_unlisted
  unlisted-Permits o none v e h = cc h
  unlisted-Permits o (some u) v e h =
      let good = regex_passes matches (truthy u.validation_regex) v in
      let (on, rest) = guard_inv (is_true u.enabled) (if good then ok tt else err value_error) h in
      record {
        unlisted = u;
        configured = e;
        enabled = is_true_inv u.enabled on;
        passes = test_inv good rest;
      }

  given-Permits :
      (o : ProfileOption O) (w : Option Text) (v : Text)
      → validate_given matches o w ≡ ok tt
      → w ≡ some v
      → Permits v o
  given-Permits o none v h e = cc e
  given-Permits o (some w) v h e =
      let same : w ≡ v = cc e in unlisted-Permits o o.unlisted_choice v refl (rw (← same) h)

  options-Permits :
      (user_options : Dict Text) (d : Dict (ProfileOption O))
      → validate_options matches user_options d ≡ ok tt
      → AllEntries
          (λ name o. (v : Text) → given (unlisted_key name) user_options ≡ some v → Permits v o)
          d
  unfolding validate_options
  options-Permits user_options [] h = tt
  options-Permits user_options ((name, o) ∷ d) h =
      let w = given (unlisted_key name) user_options in
      let (one, rest) =
        and_then_inv (validate_given matches o w) (validate_options matches user_options d) h in
      (λ v e. given-Permits o w v one e, options-Permits user_options d rest)

  profile_inv :
      (user_options : Dict Text) (r : Result (Profile O))
      → validate_profile matches user_options r ≡ ok tt
      → (p : Profile O) × (r ≡ ok p)
        × (validate_options matches user_options p.profile_options ≡ ok tt)
  profile_inv user_options (err e) h = cc h
  profile_inv user_options (ok p) h = (p, refl, h)

  slug_inv :
      (user_options : Dict Text) (ps : List (Profile O)) (w : Option Text) (slug : Text)
      → w ≡ some slug
      → validate_slug matches user_options ps w ≡ ok tt
      → validate_profile matches user_options (get_profile (some slug) ps) ≡ ok tt
  slug_inv user_options ps none slug e h = cc e
  slug_inv user_options ps (some t) slug e h = let same : t ≡ slug = cc e in rw (← same) h

  -- If user options that name a profile pass the validation, then there is that profile, and each
  -- unlisted choice that they give for one of its options is enabled there and passes the option's
  -- regular expression, if it has one.
  pub validate_user_options-Permits :
      (user_options : Dict Text) (ps : List (Profile O)) (slug : Text)
      → given (codes "profile") user_options ≡ some slug
      → validate_user_options matches user_options ps ≡ ok tt
      → (p : Profile O) × (get_profile (some slug) ps ≡ ok p)
        × AllEntries
            (λ name o. (v : Text) → given (unlisted_key name) user_options ≡ some v → Permits v o)
            p.profile_options
  unfolding validate_user_options
  validate_user_options-Permits user_options ps slug e h =
      let found = slug_inv user_options ps (given (codes "profile") user_options) slug e h in
      let (p, there, valid) = profile_inv user_options (get_profile (some slug) ps) found in
      (p, there, options-Permits user_options p.profile_options valid)
