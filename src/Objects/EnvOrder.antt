-- ===== src/Objects/EnvOrder.antt =====
-- The order of the container's environment.
use kubespawner.Prelude.{
  Each, ◌≡◌, ◌+◌, refl, inl, inr, Bool-cases, true, false, ◌||◌, some, List, [], ◌∷◌, ◌++◌, map,
  length, arith,
}
use mathlib.Core.List.{Perm}
use mathlib.Core.List.Perm
use kubespawner.Text.{Text}
use kubespawner.Spawner.Events.{text_lt}
use kubespawner.Objects.Env.{
  EnvVar, Entry, get_env_var_deps, member, is_subset, place_entry, sorted_entries, env_of, name_of,
  extracted, remaining,
}

-- All that the variable refers to, but itself, is among the names.
abbrev pub IsReady : List Text → EnvVar → Type 0
IsReady names e = (ds : List Text) × (get_env_var_deps e ≡ some ds) × (is_subset ds names ≡ true)

-- The variable refers to one that is not among the names.
abbrev pub IsBlocked : List Text → EnvVar → Type 0
IsBlocked names e = (ds : List Text) × (get_env_var_deps e ≡ some ds) × (is_subset ds names ≡ false)

-- Each variable stands behind all that it refers to, when the names come first.
abbrev pub InOrder : List Text → List EnvVar → Type 0
InOrder names [] = Unit
InOrder names (e ∷ es) = IsReady names e × InOrder (e.name ∷ names) es

-- An entry holds its variable's dependencies.
abbrev pub IsEntry : Entry → Type 0
IsEntry e = get_env_var_deps e.env ≡ some e.deps

abbrev Includes : List Text → List Text → Type 0
Includes names more = (d : Text) → member d names ≡ true → member d more ≡ true

is_subset_weaken :
    (ds a b : List Text) → Includes a b → is_subset ds a ≡ true → is_subset ds b ≡ true
unfolding is_subset
is_subset_weaken [] a b w h = refl
is_subset_weaken (d ∷ ds) a b w h = ground (arith, w d, is_subset_weaken ds a b w)

Includes-cons : (n : Text) (a b : List Text) → Includes a b → Includes (n ∷ a) (n ∷ b)
unfolding member
Includes-cons n a b w d h = ground (arith, w d, h)

InOrder-weaken : (es : List EnvVar) (a b : List Text) → Includes a b → InOrder a es → InOrder b es
InOrder-weaken [] a b w h = tt
InOrder-weaken (e ∷ es) a b w ((ds, found, ready), h) = (
  (ds, found, is_subset_weaken ds a b w ready),
  InOrder-weaken es (e.name ∷ a) (e.name ∷ b) (Includes-cons e.name a b w) h,
)

pub member-append : (d : Text) (a b : List Text) → member d (a ++ b) ≡ (member d a || member d b)
unfolding member
member-append d [] b = refl
member-append d (n ∷ a) b = ground (arith, member-append d a b)

IsReady-more :
    (n : Text) (a : List Text) (es : List EnvVar) → Each (IsReady a) es → Each (IsReady (n ∷ a)) es
unfolding member
IsReady-more n a [] h = tt
IsReady-more n a (e ∷ es) ((ds, found, ready), h) = (
  (ds, found, is_subset_weaken ds a (n ∷ a) (λ d i. ground (arith, i)) ready),
  IsReady-more n a es h,
)

-- A step's variables may come in any order.
pub InOrder-append :
    (batch es : List EnvVar) (a b : List Text)
    → Each (IsReady a) batch
    → ((d : Text) → member d b ≡ true → (member d a || member d (map name_of batch)) ≡ true)
    → InOrder b es
    → InOrder a (batch ++ es)
unfolding member
InOrder-append [] es a b ready covers h =
    InOrder-weaken es b a (λ d i. ground (arith, covers d i)) h
InOrder-append (e ∷ batch) es a b (first, ready) covers h = (
  first,
  InOrder-append batch es (e.name ∷ a) b (IsReady-more e.name a batch ready)
      (λ d i. ground (arith, covers d i)) h,
)

module _ (P : Entry → Type 0) where
  place_entry-Each : (e : Entry) (es : List Entry) → P e → Each P es → Each P (place_entry e es)
  unfolding place_entry
  place_entry-Each e [] p h = (p, tt)
  place_entry-Each e (f ∷ es) p (q, h) = elim (Bool-cases (text_lt f.key e.key)) [
    | inl later ↦ rw later (q, place_entry-Each e es p h)
    | inr now ↦ rw now (p, (q, h))
  ]

  pub sorted_entries-Each : (es : List Entry) → Each P es → Each P (sorted_entries es)
  unfolding sorted_entries
  sorted_entries-Each [] h = tt
  sorted_entries-Each (e ∷ es) (p, h) =
      place_entry-Each e (sorted_entries es) p (sorted_entries-Each es h)

place_entry-perm : (e : Entry) (es : List Entry) → Perm (place_entry e es) (e ∷ es)
unfolding place_entry
place_entry-perm e [] = Perm.refl (e ∷ [])
place_entry-perm e (f ∷ es) = elim (Bool-cases (text_lt f.key e.key)) [
  | inl later ↦ rw later (Perm.trans (Perm.cons f (place_entry-perm e es)) (Perm.swap e f es))
  | inr now ↦ rw now (Perm.refl (e ∷ f ∷ es))
]

pub sorted_entries-perm : (es : List Entry) → Perm (sorted_entries es) es
unfolding sorted_entries
sorted_entries-perm [] = Perm.refl []
sorted_entries-perm (e ∷ es) =
    Perm.trans (place_entry-perm e (sorted_entries es)) (Perm.cons e (sorted_entries-perm es))

perm_middle {ℓ} : {A : Type ℓ} (x : A) (xs ys : List A) → Perm (xs ++ x ∷ ys) (x ∷ xs ++ ys)
perm_middle x [] ys = Perm.refl (x ∷ ys)
perm_middle x (y ∷ xs) ys =
    Perm.trans (Perm.cons y (perm_middle x xs ys)) (Perm.swap x y (xs ++ ys))

-- A step takes out and leaves all entries between them.
pub step-perm :
    (names : List Text) (es : List Entry) → Perm (extracted names es ++ remaining names es) es
unfolding extracted remaining
step-perm names [] = Perm.refl []
step-perm names (e ∷ es) = elim (Bool-cases (is_subset e.deps names)) [
  | inl ready ↦ rw ready (Perm.cons e (step-perm names es))
  | inr blocked ↦ rw blocked (
      Perm.trans (perm_middle e (extracted names es) (remaining names es))
        (Perm.cons e (step-perm names es)))
]

-- The variables that a step takes out refer to those before it only.
pub extracted-IsReady :
    (names : List Text) (es : List Entry)
    → Each IsEntry es
    → Each (λ e. IsReady names e.env) (extracted names es)
unfolding extracted
extracted-IsReady names [] h = tt
extracted-IsReady names (e ∷ es) (holds, h) = elim (Bool-cases (is_subset e.deps names)) [
  | inl ready ↦ rw ready ((e.deps, holds, ready), extracted-IsReady names es h)
  | inr blocked ↦ rw blocked (extracted-IsReady names es h)
]

pub remaining-IsBlocked :
    (names : List Text) (es : List Entry)
    → Each IsEntry es
    → Each (λ e. IsBlocked names e.env) (remaining names es)
unfolding remaining
remaining-IsBlocked names [] h = tt
remaining-IsBlocked names (e ∷ es) (holds, h) = elim (Bool-cases (is_subset e.deps names)) [
  | inl ready ↦ rw ready (remaining-IsBlocked names es h)
  | inr blocked ↦ rw blocked ((e.deps, holds, blocked), remaining-IsBlocked names es h)
]

pub remaining-entries :
    (names : List Text) (es : List Entry) → Each IsEntry es → Each IsEntry (remaining names es)
unfolding remaining
remaining-entries names [] h = tt
remaining-entries names (e ∷ es) (holds, h) = elim (Bool-cases (is_subset e.deps names)) [
  | inl ready ↦ rw ready (remaining-entries names es h)
  | inr blocked ↦ rw blocked (holds, remaining-entries names es h)
]

pub length-step :
    (names : List Text) (es : List Entry)
    → length (extracted names es) + length (remaining names es) ≡ length es
unfolding extracted remaining
length-step names [] = refl
length-step names (e ∷ es) = elim (Bool-cases (is_subset e.deps names)) [
  | inl ready ↦ rw ready (omega (arith, length-step names es))
  | inr blocked ↦ rw blocked (omega (arith, length-step names es))
]

pub Each-env :
    (P : EnvVar → Type 0) (es : List Entry) → Each (λ e. P e.env) es → Each P (map env_of es)
Each-env P [] h = tt
Each-env P (e ∷ es) (p, h) = (p, Each-env P es h)

pub env-perm : (es fs : List Entry) → Perm es fs → Perm (map env_of es) (map env_of fs)
env-perm es fs h = Perm.map env_of h
