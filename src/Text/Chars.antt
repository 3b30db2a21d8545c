-- ===== src/Text/Chars.antt =====
-- Texts, the ASCII classes of `string.ascii_lowercase`, `string.ascii_letters` and
-- `string.digits`, tests on the two ends of a text, equality, and slices from the left.
use kubespawner.Prelude.{
  ℕ, ◌+◌, ◌-◌, ◌≤◌, ◌≡◌, refl, ◌↔◌, Bool, true, false, ◌&&◌, ◌||◌, List, [], ◌∷◌, ◌++◌, String,
  code, arith, leb, ◌==◌, ==_iff, if◌then◌else◌, length, take, length-take-le, Bool-cases, inl, inr,
  is_empty, all,
}

abbrev pub Text : Type 0
Text = List ℕ

-- The code points of a literal.
abbrev pub codes : String → Text
codes String.[] = []
codes (String.◌∷◌ c s) = code c ∷ codes s

unfoldable pub is_lower : ℕ → Bool
is_lower c = leb b'a' c && leb c b'z'

unfoldable pub is_upper : ℕ → Bool
is_upper c = leb b'A' c && leb c b'Z'

unfoldable pub is_digit : ℕ → Bool
is_digit c = leb b'0' c && leb c b'9'

unfoldable pub is_alphanum_lower : ℕ → Bool
unfolding is_lower is_digit
is_alphanum_lower c = is_lower c || is_digit c

unfoldable pub is_alphanum : ℕ → Bool
unfolding is_lower is_upper is_digit
is_alphanum c = is_lower c || is_upper c || is_digit c

-- A lowercase letter, a digit or a hyphen.
unfoldable pub is_safe : ℕ → Bool
unfolding is_alphanum_lower
is_safe c = is_alphanum_lower c || c == b'-'

-- `str.lower` on one ASCII character.
unfoldable pub to_lower_ascii : ℕ → ℕ
unfolding is_upper
to_lower_ascii c = if is_upper c then c + 32 else c

-- `s.startswith(chars)` for a tuple of single characters.
abbrev pub head_sat : (ℕ → Bool) → Text → Bool
head_sat p [] = false
head_sat p (c ∷ s) = p c

-- `s.endswith(chars)` for a tuple of single characters.
abbrev pub last_sat : (ℕ → Bool) → Text → Bool
last_sat p [] = false
last_sat p (c ∷ []) = p c
last_sat p (c ∷ d ∷ s) = last_sat p (d ∷ s)

unfoldable pub text_eq : Text → Text → Bool
text_eq [] [] = true
text_eq [] (d ∷ t) = false
text_eq (c ∷ s) [] = false
text_eq (c ∷ s) (d ∷ t) = c == d && text_eq s t

pub text_eq_iff : (s t : Text) → (text_eq s t ≡ true) ↔ (s ≡ t)
unfolding text_eq
text_eq_iff [] [] = (λ h. refl, λ h. refl)
text_eq_iff [] (d ∷ t) = ground arith
text_eq_iff (c ∷ s) [] = ground arith
text_eq_iff (c ∷ s) (d ∷ t) = ground (arith, text_eq_iff s t, ==_iff c d)

-- `s[: n - k]`: a negative bound counts from the end.
unfoldable pub slice_to : Text → ℕ → ℕ → Text
slice_to s n k = if leb k n then take (n - k) s else take (length s - (k - n)) s

pub length-slice_to : (s : Text) (n k : ℕ) → k ≤ n → length (slice_to s n k) ≤ n - k
unfolding slice_to
length-slice_to s n k h = ground (arith, length-take-le (n - k) s)

pub last_sat-append :
    (p : ℕ → Bool) (s : Text) (c : ℕ) (t : Text) → last_sat p (s ++ c ∷ t) ≡ last_sat p (c ∷ t)
last_sat-append p [] c t = refl
last_sat-append p (d ∷ []) c t = refl
last_sat-append p (d ∷ e ∷ s) c t = last_sat-append p (e ∷ s) c t

-- Whatever the bound, a slice from the left is a prefix.
pub slice_to-eq-take : (s : Text) (n k : ℕ) → (m : ℕ) × (slice_to s n k ≡ take m s)
unfolding slice_to
slice_to-eq-take s n k = elim (Bool-cases (leb k n)) [
  | inl fits ↦ (n - k, rw fits)
  | inr negative ↦ (length s - (k - n), rw negative)
]

-- A safe character other than a hyphen is a lowercase letter or a digit.
pub head_alphanum :
    (s : Text)
    → all is_safe s ≡ true
    → is_empty s ≡ false
    → head_sat (λ c. c == b'-') s ≡ false
    → head_sat is_alphanum_lower s ≡ true
unfolding is_safe all
head_alphanum [] h e n = ground arith
head_alphanum (c ∷ s) h e n = ground arith

pub last_alphanum :
    (s : Text)
    → all is_safe s ≡ true
    → is_empty s ≡ false
    → last_sat (λ c. c == b'-') s ≡ false
    → last_sat is_alphanum_lower s ≡ true
unfolding is_safe all
last_alphanum [] h e n = ground arith
last_alphanum (c ∷ []) h e n = ground arith
last_alphanum (c ∷ d ∷ s) h e n = ground (arith, last_alphanum (d ∷ s))

pub head_sat-append : (p : ℕ → Bool) (s t : Text) → head_sat p s ≡ true → head_sat p (s ++ t) ≡ true
head_sat-append p [] t h = ground arith
head_sat-append p (c ∷ s) t h = h

pub last_sat-all :
    (p : ℕ → Bool) (c : ℕ) (s : Text) → all p (c ∷ s) ≡ true → last_sat p (c ∷ s) ≡ true
unfolding all
last_sat-all p c [] h = ground arith
last_sat-all p c (d ∷ s) h = ground (arith, last_sat-all p d s)

pub last_weaken :
    (p q : ℕ → Bool)
    → ((c : ℕ) → p c ≡ true → q c ≡ true)
    → (s : Text) → last_sat p s ≡ true
    → last_sat q s ≡ true
last_weaken p q f [] h = h
last_weaken p q f (c ∷ []) h = f c h
last_weaken p q f (c ∷ d ∷ s) h = last_weaken p q f (d ∷ s) h
