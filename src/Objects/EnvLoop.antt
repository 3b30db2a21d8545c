-- ===== src/Objects/EnvLoop.antt =====
-- The loop that orders the container's environment.
use kubespawner.Prelude.{
  Each, ◌≡◌, ◌<◌, ℕ, suc, zero, refl, sym, ◌∙◌, ap, inl, inr, ◌⊎◌, Option, some, List, [], ◌∷◌,
  ◌++◌, map, length, arith, append_assoc, append-nil, bound, ◌>>=◌, Bool-cases,
}
use mathlib.Core.List.{Perm, map-append}
use mathlib.Core.List.Perm
use kubespawner.Text.{Text, text_eq}
use kubespawner.Json.{Value}
use kubespawner.Dict.{Dict, insert, values}
use kubespawner.Objects.Env.{
  EnvVar, Entry, get_env_var_deps, member, normalized, collect_env, make_env, sorted_entries,
  env_of, name_of, extracted, remaining, after_step, sort_env,
}
use kubespawner.Objects.EnvOrder.{
  IsReady, IsBlocked, InOrder, IsEntry, InOrder-append, member-append, sorted_entries-Each,
  sorted_entries-perm, step-perm, extracted-IsReady, remaining-IsBlocked, remaining-entries,
  length-step, Each-env, env-perm,
}

-- What the loop makes of the entries that are left, behind the variables that are sorted: first those
-- that can be put in order, then those that no order helps.
pub record Arranged (names : List Text) (es : List Entry) : Type 0 where
  pub ordered : List EnvVar
  pub circular : List EnvVar
  pub in_order : InOrder names ordered
  pub blocked : Each (IsBlocked (names ++ map name_of ordered)) circular
  pub same : Perm (ordered ++ circular) (map env_of es)

List-cases : (es : List Entry) → (es ≡ []) ⊎ ((e : Entry) × (rest : List Entry) × (es ≡ e ∷ rest))
List-cases [] = inl refl
List-cases (e ∷ es) = inr (e, es, refl)

without_front : (front xs ys : List Entry) → front ≡ [] → Perm (front ++ xs) ys → Perm xs ys
without_front [] xs ys e h = h
without_front (f ∷ front) xs ys e h = absurd (cc e)

names-append :
    (s batch es : List EnvVar)
    → map name_of (s ++ batch) ++ map name_of es ≡ map name_of s ++ map name_of (batch ++ es)
names-append s batch es =
    rw (map-append name_of s batch, map-append name_of batch es)
      (append_assoc (map name_of s) (map name_of batch) (map name_of es))

-- A step that takes nothing out ends the loop.
last_step :
    (names : List Text) (es : List Entry)
    → extracted names es ≡ []
    → Each IsEntry es
    → Arranged names es
last_step names es nothing h = record {
  ordered = [];
  circular = map env_of (sorted_entries (remaining names es));
  in_order = tt;
  blocked = rw (append-nil names) (
      Each-env (IsBlocked names) (sorted_entries (remaining names es)) (
        sorted_entries-Each (λ e. IsBlocked names e.env) (remaining names es)
          (remaining-IsBlocked names es h)));
  same = env-perm (sorted_entries (remaining names es)) es (
      Perm.trans (sorted_entries-perm (remaining names es))
        (without_front (extracted names es) (remaining names es) es nothing (step-perm names es)));
}

-- A step that takes entries out puts them in front of what the rest of the loop arranges.
next_step :
    (s : List EnvVar) (es : List Entry)
    → Each IsEntry es
    → Arranged
        (map name_of (s ++ map env_of (sorted_entries (extracted (map name_of s) es))))
        (remaining (map name_of s) es)
    → Arranged (map name_of s) es
next_step s es h rest =
    let names = map name_of s in
    let taken = extracted names es in
    let batch = map env_of (sorted_entries taken) in
    record {
      ordered = batch ++ rest.ordered;
      circular = rest.circular;
      in_order =
          InOrder-append batch rest.ordered names (map name_of (s ++ batch))
            (Each-env (IsReady names) (sorted_entries taken)
              (sorted_entries-Each (λ e. IsReady names e.env) taken (extracted-IsReady names es h)))
            (λ d i.
              sym (member-append d names (map name_of batch))
              ∙ (ap (member d) (sym (map-append name_of s batch)) ∙ i))
            rest.in_order;
      blocked = rw (sym (names-append s batch rest.ordered)) rest.blocked;
      same = rw (append_assoc batch rest.ordered rest.circular) (
          Perm.trans
            (Perm.append (env-perm (sorted_entries taken) taken (sorted_entries-perm taken))
              rest.same)
            (rw (sym (map-append env_of taken (remaining names es)))
              (env-perm (taken ++ remaining names es) es (step-perm names es))));
    }

after_step-last :
    (taken left : List Entry) (s : List EnvVar) (next : List EnvVar → Option (List EnvVar))
    → taken ≡ []
    → after_step taken s left next ≡ some (s ++ map env_of (sorted_entries left))
unfolding after_step
after_step-last [] left s next e = refl
after_step-last (t ∷ taken) left s next e = absurd (cc e)

after_step-more :
    (taken left : List Entry) (s : List EnvVar) (next : List EnvVar → Option (List EnvVar))
    (t : Entry) (ts : List Entry)
    → taken ≡ t ∷ ts
    → after_step taken s left next ≡ next (s ++ map env_of (sorted_entries taken))
unfolding after_step
after_step-more [] left s next t ts e = absurd (cc e)
after_step-more (u ∷ taken) left s next t ts e = refl

-- With more fuel than there are entries, the loop puts them behind the variables that are sorted.
sort_env-Arranged :
    (fuel : ℕ) (s : List EnvVar) (es : List Entry)
    → length es < fuel
    → Each IsEntry es
    → (a : Arranged (map name_of s) es) × (sort_env fuel s es
        ≡ some (s ++ (a.ordered ++ a.circular)))
unfolding sort_env last_step next_step
sort_env-Arranged zero s es enough h = absurd (omega (arith, enough))
sort_env-Arranged (suc fuel) s es enough h =
    let names = map name_of s in
    elim (List-cases (extracted names es)) [
      | inl nothing ↦ (
        last_step names es nothing h,
        after_step-last (extracted names es) (remaining names es) s
            (λ r. sort_env fuel r (remaining names es)) nothing,
      )
      | inr (t, ts, some_taken) ↦
          let batch = map env_of (sorted_entries (extracted names es)) in
          let next = s ++ batch in
          let (rest, e) =
            sort_env-Arranged fuel next (remaining names es)
              (omega (arith, enough, length-step names es, ap length some_taken))
              (remaining-entries names es h) in
          (
            next_step s es h rest,
            after_step-more (extracted names es) (remaining names es) s
                  (λ r. sort_env fuel r (remaining names es)) t ts some_taken
                ∙ (e
                    ∙ ap some (
                        append_assoc s batch (rest.ordered ++ rest.circular)
                        ∙ ap (λ r. s ++ r) (sym (append_assoc batch rest.ordered rest.circular)))),
          )
    ]

insert-entries :
    (name : Text) (e : Entry) (d : Dict Entry)
    → IsEntry e
    → Each IsEntry (values d)
    → Each IsEntry (values (insert name e d))
unfolding insert
insert-entries name e [] holds h = (holds, tt)
insert-entries name e ((j, f) ∷ d) holds (first, h) = elim (Bool-cases (text_eq j name)) [
  | inl same ↦ rw same (holds, h)
  | inr other ↦ rw other (first, insert-entries name e d holds h)
]

collect_env-entries :
    (m : Dict Text) (env : Dict Value) (unsorted_env result : Dict Entry)
    → Each IsEntry (values unsorted_env)
    → collect_env m env unsorted_env ≡ some result
    → Each IsEntry (values result)
unfolding collect_env
collect_env-entries m [] unsorted_env result h e =
    let same : unsorted_env ≡ result = cc in rw (sym same) h
collect_env-entries m ((key, v) ∷ env) unsorted_env result h e =
    let (var, made, later) =
      bound (normalized m key v)
        (λ var. do
          ds ← get_env_var_deps var
          collect_env m env
              (insert var.name (record { deps = ds; key = key; env = var }) unsorted_env))
        result e in
    let (ds, found, rest) =
      bound (get_env_var_deps var)
        (λ ds.
          collect_env m env
            (insert var.name (record { deps = ds; key = key; env = var }) unsorted_env))
        result later in
    collect_env-entries m env
      (insert var.name (record { deps = ds; key = key; env = var }) unsorted_env) result
      (insert-entries var.name (record { deps = ds; key = key; env = var }) unsorted_env found h)
      rest

-- When every item of the configuration gives a variable, the loop comes to its end, and the
-- container has each variable once, by name, first those that can be put in order, each behind all
-- that it refers to but itself, then, if any are left, those that refer to one that is not among
-- the first.
pub make_env-Arranged :
    (attribute_map : Dict Text) (env : Dict Value) (unsorted_env : Dict Entry)
    → collect_env attribute_map env [] ≡ some unsorted_env
    → (a : Arranged [] (values unsorted_env)) × (make_env attribute_map env
        ≡ some (a.ordered ++ a.circular))
unfolding make_env
make_env-Arranged m env unsorted_env e = rw e (
    sort_env-Arranged (suc (length (values unsorted_env))) [] (values unsorted_env) (omega arith)
      (collect_env-entries m env [] unsorted_env tt e))
