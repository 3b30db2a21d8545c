-- ===== src/Proxy/Kinds.antt =====
-- What the API and the reflectors promise of one kind of object, and what follows for the calls of
-- the proxy.
use kubespawner.Prelude.{
  ◌≡◌, sym, refl, inl, inr, Bool, true, false, Option, none, some, Option-cases, [], ◌∷◌,
}
use kubespawner.Text.{Text}
use kubespawner.Dict.{Dict, get, AllEntries}
use kubespawner.Proxy.{
  Reply, done, api_error, failed, Kind, proceed, raised, ensured, ensure_object, delete_if_exists,
  waited, settle, full_name_of,
}

-- The labels have each label of the selector, with its value.
abbrev pub IsSelected : (selector labels : Dict Text) → Type 0
IsSelected selector labels = AllEntries (λ k v. get k labels ≡ some v) selector

-- Objects are stored by name: a name is created once, a patch merges into what is there and keeps
-- the new labels, a missing name answers 404, and a reflector, which selects by labels, shows in
-- time what is stored and has these labels.
pub record IsStore {W O : Type 0} (namespace : Text) (selector : Dict Text) (name_of : O → Text)
    (labels_of : O → Dict Text) (merge : O → O → O) (at : Text → W → Option O) (k : Kind W O)
    : Type 0 where
  pub create_new :
      (o : O) (w : W)
      → at (name_of o) w ≡ none
      → ((k.create o w).0 ≡ done) × (at (name_of o) ((k.create o w).1) ≡ some o)
  pub create_again :
      (o old : O) (w : W) → at (name_of o) w ≡ some old → k.create o w ≡ (api_error 409, w)
  pub patch_there :
      (o old : O) (w : W)
      → at (name_of o) w ≡ some old
      → ((k.patch o w).0 ≡ done) × (at (name_of o) ((k.patch o w).1) ≡ some (merge old o))
  pub merge_labels :
      (old new : O) (j v : Text)
      → get j (labels_of new) ≡ some v
      → get j (labels_of (merge old new)) ≡ some v
  pub delete_there :
      (n : Text) (old : O) (w : W)
      → at n w ≡ some old
      → ((k.delete n w).0 ≡ done) × (at n ((k.delete n w).1) ≡ none)
  pub delete_missing : (n : Text) (w : W) → at n w ≡ none → k.delete n w ≡ (api_error 404, w)
  pub wait_there :
      (n : Text) (o : O) (w : W)
      → at n w ≡ some o
      → IsSelected selector (labels_of o)
      → ((k.wait (full_name_of namespace n) w).0 ≡ true)
        × (at n ((k.wait (full_name_of namespace n) w).1) ≡ some o)

-- What is stored for an object: itself, or merged into what was there.
abbrev pub stored : {O : Type 0} → (merge : O → O → O) → Option O → O → O
stored merge none o = o
stored merge (some old) o = merge old o

ensured-done :
    {W : Type 0} (patch : W → Reply × W) (r : Reply × W)
    → r.0 ≡ done
    → ensured patch r ≡ (none, r.1)
unfolding ensured
ensured-done patch (done, w) e = refl
ensured-done patch (api_error n, w) e = absurd (cc e)
ensured-done patch (failed, w) e = absurd (cc e)

raised-done : {W : Type 0} (r : Reply × W) → r.0 ≡ done → raised r ≡ (none, r.1)
unfolding raised
raised-done (done, w) e = refl
raised-done (api_error n, w) e = absurd (cc e)
raised-done (failed, w) e = absurd (cc e)

delete_if_exists-done : {W : Type 0} (r : Reply × W) → r.0 ≡ done → delete_if_exists r ≡ (none, r.1)
unfolding delete_if_exists
delete_if_exists-done (done, w) e = refl
delete_if_exists-done (api_error n, w) e = absurd (cc e)
delete_if_exists-done (failed, w) e = absurd (cc e)

waited-true : {W : Type 0} (r : Bool × W) → r.0 ≡ true → waited r ≡ (none, r.1)
unfolding waited
waited-true (true, w) e = refl
waited-true (false, w) e = absurd (cc e)

ensured_conflict :
    {W : Type 0} (patch : W → Reply × W) (w : W)
    → (patch w).0 ≡ done
    → ensured patch (api_error 409, w) ≡ (none, (patch w).1)
unfolding ensured
ensured_conflict patch w e = raised-done (patch w) e

AllEntries-map :
    {P Q : Text → Text → Type 0} (d : Dict Text)
    → ((j v : Text) → P j v → Q j v)
    → AllEntries P d
    → AllEntries Q d
AllEntries-map [] f h = tt
AllEntries-map ((j, v) ∷ d) f h = (f j v h.0, AllEntries-map d f h.1)

module _ {W O : Type 0} (namespace : Text) (selector : Dict Text) (name_of : O → Text)
    (labels_of : O → Dict Text) (merge : O → O → O) (at : Text → W → Option O) (k : Kind W O)
    (store : IsStore namespace selector name_of labels_of merge at k) where
  stored-IsSelected :
      (old : Option O) (o : O)
      → IsSelected selector (labels_of o)
      → IsSelected selector (labels_of (stored merge old o))
  stored-IsSelected none o h = h
  stored-IsSelected (some old) o h = AllEntries-map selector (store.merge_labels old o) h

  ensure_object-stored :
      (o : O) (w : W)
      → (v : W) × (ensure_object k o w ≡ (none, v))
        × (at (name_of o) v ≡ some (stored merge (at (name_of o) w) o))
  unfolding ensure_object
  ensure_object-stored o w = elim (Option-cases (at (name_of o) w)) [
    | inl new ↦
        let (ok, there) = store.create_new o w new in
        ((k.create o w).1, ensured-done (k.patch o) (k.create o w) ok, rw new there)
    | inr (old, there) ↦
        let (ok, merged) = store.patch_there o old w there in
        (
          (k.patch o w).1,
          rw (store.create_again o old w there) (ensured_conflict (k.patch o) w ok),
          rw there merged,
        )
  ]

  -- An object that is to be there is made, or patched, and found, when its labels are selected.
  pub settle-stored :
      (o : O) (w : W)
      → IsSelected selector (labels_of o)
      → (v : W) × (settle k (full_name_of namespace (name_of o)) (name_of o) (some o) w ≡ (none, v))
        × (at (name_of o) v ≡ some (stored merge (at (name_of o) w) o))
  unfolding settle proceed
  settle-stored o w selected =
      let (v, made, there) = ensure_object-stored o w in
      let (found, still) =
        store.wait_there (name_of o) (stored merge (at (name_of o) w) o) v there
          (stored-IsSelected (at (name_of o) w) o selected) in
      (
        (k.wait (full_name_of namespace (name_of o)) v).1,
        rw made (waited-true (k.wait (full_name_of namespace (name_of o)) v) found),
        still,
      )

  -- An object that is to be away is deleted, if it was there.
  pub delete_if_exists-missing :
      (n : Text) (w : W) → (v : W) × (delete_if_exists (k.delete n w) ≡ (none, v)) × (at n v ≡ none)
  unfolding delete_if_exists
  delete_if_exists-missing n w = elim (Option-cases (at n w)) [
    | inl missing ↦ (w, rw (store.delete_missing n w missing) refl, missing)
    | inr (old, there) ↦
        let (ok, gone) = store.delete_there n old w there in
        ((k.delete n w).1, delete_if_exists-done (k.delete n w) ok, gone)
  ]

  -- Either way there is no exception.
  pub settle-ok :
      (n : Text) (body : Option O) (w : W)
      → ((o : O) → body ≡ some o → (name_of o ≡ n) × IsSelected selector (labels_of o))
      → (v : W) × (settle k (full_name_of namespace n) n body w ≡ (none, v))
  unfolding settle
  settle-ok n none w named = let (v, e, gone) = delete_if_exists-missing n w in (v, e)
  settle-ok n (some o) w named =
      let (name, selected) = named o refl in
      let (v, e, there) = settle-stored o w selected in (v, rw (sym name) e)
