-- ===== src/Shared/Steps.antt =====
-- Interleaved calls of `_start_reflector` by many spawners, as a sequence of steps, and what holds
-- in every state that they reach.
use kubespawner.Prelude.{
  ℕ, suc, ◌<◌, ◌≡◌, ◌≢◌, refl, sym, ◌∙◌, ap, inl, inr, Bool, true, false, Option, none, some, [],
  ◌∷◌, arith, Bool-cases, Option-cases, ◌↔◌, if◌then◌else◌, ◌==◌,
}
use kubespawner.Text.{Text, text_eq_iff}
use kubespawner.Reflector
use kubespawner.Reflector.{Reflector, ListReply}
use kubespawner.Reflector.Init.{Options}
use kubespawner.Shared.{
  Key, namespace_eq, key_eq, Table, find, assign, Shared, Owner, enter, open_reflector, set_object,
  loaded, loaded_outcome,
}

namespace_eq_iff : (a b : Option Text) → (namespace_eq a b ≡ true) ↔ (a ≡ b)
namespace_eq_iff none none = ground arith
namespace_eq_iff (some a) (some b) = ground (arith, text_eq_iff a b)
namespace_eq_iff none (some b) = ground arith
namespace_eq_iff (some a) none = ground arith

pub key_eq_iff : (a b : Key) → (key_eq a b ≡ true) ↔ (a ≡ b)
unfolding key_eq
key_eq_iff a b = ground (arith, text_eq_iff a.kind b.kind, namespace_eq_iff a.namespace b.namespace)

pub find-assign :
    (k j : Key) (i : ℕ) (t : Table)
    → find j (assign k i t) ≡ (if key_eq k j then some i else find j t)
unfolding find assign
find-assign k j i [] = refl
find-assign k j i ((l, n) ∷ t) =
    ground (arith, key_eq_iff k j, key_eq_iff l k, key_eq_iff l j, find-assign k j i t)

module _ {Body : Type 0} where
  -- A call of a spawner begins, with or without `replace`, or the first listing of the reflector
  -- `current` comes back, to the call that opened it.
  pub data Step (replacing : Bool) : Shared Body → Shared Body → Type 0 where
    enters :
        {s t : Shared Body} (replace : Bool) (options : Options) (k : Key)
        → (replace ≡ true → replacing ≡ true)
        → (enter replace options k s).0 ≡ t
        → Step replacing s t
    answers :
        {s t : Shared Body} (o : Owner) (current : ℕ) (reply : ListReply Body)
        → (loaded o current none reply s).0 ≡ t
        → Step replacing s t

  pub data Steps (replacing : Bool) : Shared Body → Shared Body → Type 0 where
    no_step : {s : Shared Body} → Steps replacing s s
    then_step :
        {s t u : Shared Body} → Steps replacing s t → Step replacing t u → Steps replacing s u

  -- Every reflector that has been created is in the table.
  pub record NoneLost (s : Shared Body) : Type 0 where
    pub below : (k : Key) (i : ℕ) → find k s.table ≡ some i → i < s.next
    pub kept : (i : ℕ) → i < s.next → (k : Key) × (find k s.table ≡ some i)

  opened_below :
      (options : Options) (k : Key) (s : Shared Body)
      → NoneLost s
      → (j : Key) (i : ℕ) → find j (open_reflector options k s).table ≡ some i
      → i < suc s.next
  unfolding open_reflector
  opened_below options k s h j i e = elim (Bool-cases (key_eq k j)) [
    | inl same ↦ ground (arith, find-assign k j s.next s.table, e, same)
    | inr other ↦
        let old : find j s.table ≡ some i =
          ground (arith, find-assign k j s.next s.table, e, other) in
        omega (arith, h.below j i old)
  ]

  opened_kept :
      (options : Options) (k : Key) (s : Shared Body)
      → NoneLost s
      → find k s.table ≡ none
      → (i : ℕ) → i < suc s.next
      → (j : Key) × (find j (open_reflector options k s).table ≡ some i)
  unfolding open_reflector
  opened_kept options k s h absent i lt = elim (Bool-cases (i == s.next)) [
    | inl new ↦ (k, ground (arith, find-assign k k s.next s.table, (key_eq_iff k k).1 refl, new))
    | inr old ↦
        let (j, e) = h.kept i (ground (arith, lt, old)) in
        let unlike : k ≢ j = λ q.
          (let both : none ≡ some i = sym absent ∙ (ap (λ l. find l s.table) q ∙ e) in cc both) in
        (j, ground (arith, find-assign k j s.next s.table, e, key_eq_iff k j, unlike))
  ]

  opened-NoneLost :
      (options : Options) (k : Key) (s : Shared Body)
      → NoneLost s
      → find k s.table ≡ none
      → NoneLost (open_reflector options k s)
  unfolding open_reflector
  opened-NoneLost options k s h absent = record {
    below = λ j i e. opened_below options k s h j i e;
    kept = λ i lt. opened_kept options k s h absent i lt;
  }

  enter-NoneLost :
      (options : Options) (k : Key) (s : Shared Body)
      → NoneLost s
      → NoneLost (enter false options k s).0
  unfolding enter
  enter-NoneLost options k s h = elim (Option-cases (find k s.table)) [
    | inl e ↦ rw e (opened-NoneLost options k s h e)
    | inr (i, e) ↦ rw e h
  ]

  outcome-NoneLost :
      (b : Bool) (current : ℕ) (s : Shared Body) (result : Reflector.Result (Unit {0}))
      → NoneLost s
      → NoneLost (loaded_outcome b current none s result).0
  outcome-NoneLost b current s (Reflector.ok u) h = h
  outcome-NoneLost b current s (Reflector.err e) h = h

  loaded-NoneLost :
      (o : Owner) (current : ℕ) (reply : ListReply Body) (s : Shared Body)
      → NoneLost s
      → NoneLost (loaded o current none reply s).0
  unfolding loaded
  loaded-NoneLost o current reply s h =
      let (r, result) = Reflector.start reply (s.object current) in
      outcome-NoneLost o.enable_user_namespaces current (set_object current r s) result
        (record { below = h.below; kept = h.kept })

  Step-NoneLost : {s t : Shared Body} → Step false s t → NoneLost s → NoneLost t
  Step-NoneLost (enters {s} true options k allowed e) h = let no = allowed refl in cc no
  Step-NoneLost (enters {s} false options k allowed e) h = rw (← e) (enter-NoneLost options k s h)
  Step-NoneLost (answers {s} o current reply e) h = rw (← e) (loaded-NoneLost o current reply s h)

  -- However many spawners call `_start_reflector` without `replace`, and however their calls
  -- interleave with the first listings, succeed or fail, no reflector is created beside the one
  -- that the table has for its key: every reflector that was created is in the table.
  pub Steps-NoneLost : {s t : Shared Body} → Steps false s t → NoneLost s → NoneLost t
  Steps-NoneLost no_step h = h
  Steps-NoneLost (then_step before last) h = Step-NoneLost last (Steps-NoneLost before h)
