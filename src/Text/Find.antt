-- ===== src/Text/Find.antt =====
-- `str.startswith` and the test `sub in s`.
use kubespawner.Prelude.{
  ℕ, zero, suc, ◌≡◌, refl, Bool, true, false, ◌&&◌, ◌||◌, [], ◌∷◌, ◌++◌, arith, ◌==◌, take,
  is_empty,
}
use kubespawner.Text.Chars.{Text, head_sat, is_alphanum_lower}
use kubespawner.Text.Strip.{lstrip, rstrip}

unfoldable pub starts_with : Text → Text → Bool
starts_with [] s = true
starts_with (c ∷ p) [] = false
starts_with (c ∷ p) (d ∷ s) = c == d && starts_with p s

unfoldable pub contains : Text → Text → Bool
unfolding starts_with
contains p [] = is_empty p
contains p (c ∷ s) = starts_with p (c ∷ s) || contains p s

abbrev pub is_hyphen : ℕ → Bool
is_hyphen c = c == b'-'

abbrev pub double_hyphen : Text
double_hyphen = b'-' ∷ b'-' ∷ []

-- `'--' in s`
abbrev pub has_double : Text → Bool
has_double = contains double_hyphen

pub has_double-cons :
    (c : ℕ) (s : Text)
    → has_double (c ∷ s) ≡ ((is_hyphen c && head_sat is_hyphen s) || has_double s)
unfolding contains
has_double-cons c [] = ground arith
has_double-cons c (d ∷ s) = ground arith

pub has_double_nil : has_double [] ≡ false
unfolding contains
has_double_nil = refl

pub has_double-lstrip : (s : Text) → has_double s ≡ false → has_double (lstrip b'-' s) ≡ false
unfolding lstrip
has_double-lstrip [] h = h
has_double-lstrip (c ∷ s) h = ground (arith, has_double-cons c s, has_double-lstrip s)

pub head_hyphen-take :
    (n : ℕ) (s : Text) → head_sat is_hyphen s ≡ false → head_sat is_hyphen (take n s) ≡ false
head_hyphen-take zero s h = refl
head_hyphen-take (suc n) [] h = refl
head_hyphen-take (suc n) (c ∷ s) h = h

pub has_double-take : (n : ℕ) (s : Text) → has_double s ≡ false → has_double (take n s) ≡ false
has_double-take zero s h = unfold contains in refl
has_double-take (suc n) [] h = h
has_double-take (suc n) (c ∷ s) h = ground (
  arith,
  has_double-cons c s,
  has_double-cons c (take n s),
  has_double-take n s,
  head_hyphen-take n s,
)

pub head_hyphen-rstrip :
    (s : Text) → head_sat is_hyphen s ≡ false → head_sat is_hyphen (rstrip b'-' s) ≡ false
unfolding rstrip
head_hyphen-rstrip [] h = refl
head_hyphen-rstrip (c ∷ s) h = ground arith

pub has_double-rstrip : (s : Text) → has_double s ≡ false → has_double (rstrip b'-' s) ≡ false
unfolding rstrip
has_double-rstrip [] h = h
has_double-rstrip (c ∷ s) h = ground (
  arith,
  has_double-cons c s,
  has_double-cons c (rstrip b'-' s),
  has_double-rstrip s,
  head_hyphen-rstrip s,
  has_double_nil,
)

-- A text around `--` holds it.
pub has_double-append_hyphens : (s t : Text) → has_double (s ++ b'-' ∷ b'-' ∷ t) ≡ true
has_double-append_hyphens [] t = ground (arith, has_double-cons b'-' (b'-' ∷ t))
has_double-append_hyphens (c ∷ s) t =
    ground (arith, has_double-cons c (s ++ b'-' ∷ b'-' ∷ t), has_double-append_hyphens s t)

pub alphanum_not_hyphen : (c : ℕ) → is_alphanum_lower c ≡ true → is_hyphen c ≡ false
unfolding is_alphanum_lower
alphanum_not_hyphen c h = ground arith
