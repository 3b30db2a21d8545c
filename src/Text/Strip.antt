-- ===== src/Text/Strip.antt =====
-- `str.lstrip` and `str.rstrip` of one character.
use kubespawner.Prelude.{
  ℕ, ◌≤◌, ◌≡◌, refl, Bool, true, false, ◌&&◌, [], ◌∷◌, ◌++◌, arith, ◌==◌, if◌then◌else◌, length,
  all, is_empty,
}
use kubespawner.Text.Chars.{Text, head_sat, last_sat}

unfoldable pub lstrip : ℕ → Text → Text
lstrip x [] = []
lstrip x (c ∷ s) = elim (c == x) [ true ↦ lstrip x s | false ↦ c ∷ s ]

unfoldable pub rstrip : ℕ → Text → Text
rstrip x [] = []
rstrip x (c ∷ s) = let r = rstrip x s in if c == x && is_empty r then [] else c ∷ r

is_empty-append_cons : (s : Text) (c : ℕ) (t : Text) → is_empty (s ++ c ∷ t) ≡ false
is_empty-append_cons [] c t = refl
is_empty-append_cons (d ∷ s) c t = refl

pub head-lstrip : (x : ℕ) (s : Text) → head_sat (λ c. c == x) (lstrip x s) ≡ false
unfolding lstrip
head-lstrip x [] = refl
head-lstrip x (c ∷ s) = ground (arith, head-lstrip x s)

pub last-rstrip : (x : ℕ) (s : Text) → last_sat (λ c. c == x) (rstrip x s) ≡ false
unfolding rstrip
last-rstrip x [] = refl
last-rstrip x (c ∷ s) = ground (arith, last-rstrip x s)

pub length-rstrip : (x : ℕ) (s : Text) → length (rstrip x s) ≤ length s
unfolding rstrip
length-rstrip x [] = omega arith
length-rstrip x (c ∷ s) = ground (arith, length-rstrip x s)

pub all-lstrip : (p : ℕ → Bool) (x : ℕ) (s : Text) → all p s ≡ true → all p (lstrip x s) ≡ true
unfolding lstrip all
all-lstrip p x [] h = refl
all-lstrip p x (c ∷ s) h = ground (arith, all-lstrip p x s)

pub all-rstrip : (p : ℕ → Bool) (x : ℕ) (s : Text) → all p s ≡ true → all p (rstrip x s) ≡ true
unfolding rstrip all
all-rstrip p x [] h = refl
all-rstrip p x (c ∷ s) h = ground (arith, all-rstrip p x s)

-- Stripping on the right keeps the first character, unless nothing is left.
pub head-rstrip :
    (p : ℕ → Bool) (x : ℕ) (s : Text)
    → is_empty (rstrip x s) ≡ false
    → head_sat p (rstrip x s) ≡ head_sat p s
unfolding rstrip
head-rstrip p x [] h = refl
head-rstrip p x (c ∷ s) h = ground arith

pub is_empty-rstrip : (x : ℕ) (s : Text) → is_empty (rstrip x s) ≡ false → is_empty s ≡ false
unfolding rstrip
is_empty-rstrip x [] h = h
is_empty-rstrip x (c ∷ s) h = refl

-- Another character stops the stripping.
pub rstrip-append :
    (x : ℕ) (s : Text) (c : ℕ) (t : Text)
    → (c == x) ≡ false
    → rstrip x (s ++ c ∷ t) ≡ s ++ c ∷ rstrip x t
unfolding rstrip
rstrip-append x [] c t h = rw h
rstrip-append x (d ∷ s) c t h =
    ground (arith, rstrip-append x s c t h, is_empty-append_cons s c (rstrip x t))
