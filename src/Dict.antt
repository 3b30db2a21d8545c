-- ===== src/Dict.antt =====
-- Python's `dict` with text keys, in insertion order. A key stands in it once: `insert` replaces
-- the value in place and `pop` removes every entry of the key.
use kubespawner.Prelude.{
  ◌≡◌, ◌∙◌, refl, inl, inr, Bool-cases, Bool, true, false, Option, none, some, List, [], ◌∷◌, arith,
  if◌then◌else◌,
}
use kubespawner.Text.{Text, text_eq, text_eq_iff}

abbrev pub Dict {ℓ} : Type ℓ → Type ℓ
Dict V = List (Text × V)

module _ {ℓ} {V : Type ℓ} where
  -- `d.get(k)`
  unfoldable pub get : Text → Dict V → Option V
  get k [] = none
  get k ((j, v) ∷ d) = if text_eq j k then some v else get k d

  -- `k in d`
  abbrev pub has : Text → Dict V → Bool
  has k d = elim (get k d) [ none ↦ false | some v ↦ true ]

  -- `d[k] = v`
  unfoldable pub insert : Text → V → Dict V → Dict V
  insert k v [] = (k, v) ∷ []
  insert k v ((j, w) ∷ d) = if text_eq j k then (j, v) ∷ d else (j, w) ∷ insert k v d

  -- `d.pop(k, None)`
  unfoldable pub pop : Text → Dict V → Dict V
  pop k [] = []
  pop k ((j, v) ∷ d) = let rest = pop k d in if text_eq j k then rest else (j, v) ∷ rest

  -- `d.update(e)`
  unfoldable pub update : Dict V → Dict V → Dict V
  unfolding insert
  update d [] = d
  update d ((k, v) ∷ e) = update (insert k v d) e

  -- `d.values()`
  abbrev pub values : Dict V → List V
  values [] = []
  values ((k, v) ∷ d) = v ∷ values d

  -- `list(d.keys())`
  abbrev pub keys : Dict V → List Text
  keys [] = []
  keys ((k, v) ∷ d) = k ∷ keys d

  pub get-insert :
      (k j : Text) (v : V) (d : Dict V)
      → get j (insert k v d) ≡ (if text_eq k j then some v else get j d)
  unfolding get insert
  get-insert k j v [] = refl
  get-insert k j v ((i, w) ∷ d) =
      ground (arith, text_eq_iff k j, text_eq_iff i k, text_eq_iff i j, get-insert k j v d)

  pub get-pop :
      (k j : Text) (d : Dict V) → get j (pop k d) ≡ (if text_eq k j then none else get j d)
  unfolding get pop
  get-pop k j [] = ground arith
  get-pop k j ((i, w) ∷ d) =
      ground (arith, text_eq_iff k j, text_eq_iff i k, text_eq_iff i j, get-pop k j d)

  -- No key stands twice.
  abbrev pub IsUnique : Dict V → Type ℓ
  IsUnique [] = Unit
  IsUnique ((k, v) ∷ d) = (get k d ≡ none) × IsUnique d

  pub insert-IsUnique : (k : Text) (v : V) (d : Dict V) → IsUnique d → IsUnique (insert k v d)
  unfolding get insert
  insert-IsUnique k v [] h = (refl, tt)
  insert-IsUnique k v ((j, w) ∷ d) h =
      ground
        (arith, insert-IsUnique k v d h.1, get-insert k j v d, text_eq_iff k j, text_eq_iff j k)

  pub pop-IsUnique : (k : Text) (d : Dict V) → IsUnique d → IsUnique (pop k d)
  unfolding pop
  pop-IsUnique k [] h = tt
  pop-IsUnique k ((j, w) ∷ d) h = ground (arith, pop-IsUnique k d h.1, get-pop k j d)

  pub update-IsUnique : (d e : Dict V) → IsUnique d → IsUnique (update d e)
  unfolding update
  update-IsUnique d [] h = h
  update-IsUnique d ((k, v) ∷ e) h = update-IsUnique (insert k v d) e (insert-IsUnique k v d h)

  -- A property of every entry.
  abbrev pub AllEntries : (Text → V → Type 0) → Dict V → Type 0
  AllEntries P [] = Unit
  AllEntries P ((k, v) ∷ d) = P k v × AllEntries P d

  -- An update without the key leaves it as it is.
  pub get-update_missing : (k : Text) (d e : Dict V) → get k e ≡ none → get k (update d e) ≡ get k d
  unfolding get update
  get-update_missing k d [] h = refl
  get-update_missing k d ((j, v) ∷ e) h = elim (Bool-cases (text_eq j k)) [
    | inl same ↦ absurd (ground (arith, h, same))
    | inr other ↦
        get-update_missing k (insert j v d) e (ground (arith, h, other))
        ∙ (get-insert j k v d ∙ rw other refl)
  ]
