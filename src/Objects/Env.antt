-- ===== src/Objects/Env.antt =====
-- The environment of `make_pod`: what each variable refers to, and the order of the container's list.
use kubespawner.Prelude.{
  ◌+◌, ℕ, suc, zero, Bool, true, false, ◌&&◌, ◌||◌, Option, none, some, List, [], ◌∷◌, ◌++◌, map,
  length, ◌==◌, if◌then◌else◌, ◌>>=◌,
}
use kubespawner.Text.{Text, codes, text_eq}
use kubespawner.Json.{
  Value, null, boolean, number, text, list, object, Fields, find_field, put_field, truth,
}
use kubespawner.Dict.{Dict, insert, values}
use kubespawner.Spawner.Events.{text_lt}
use kubespawner.Utils.Model.{get_k8s_model, dictionary, held}

-- `V1EnvVar`: names are texts.
pub record EnvVar : Type 0 where
  pub name : Text
  pub value : Value
  pub value_from : Value

-- The text before the next `)`.
unfoldable pub until_close : Text → Option Text
until_close [] = none
until_close (c ∷ s) = if c == b')' then some [] else (do t ← until_close s; some (c ∷ t))

-- What `[^\)]+` and `)` capture at the front.
unfoldable pub closed : Option Text → Option Text
closed none = none
closed (some []) = none
closed (some (c ∷ t)) = some (c ∷ t)

-- What `\$\(([^\)]+)\)` captures where it matches at the front.
unfoldable pub captured : Text → Option Text
captured [] = none
captured (c ∷ []) = none
captured (c ∷ d ∷ s) = if c == b'$' && d == b'(' then closed (until_close s) else none

-- `re.findall` with that pattern, when the next `skip` characters belong to a match.
unfoldable pub references : (skip : ℕ) → Text → List Text
references skip [] = []
references (suc skip) (c ∷ s) = references skip s
references zero (c ∷ s) = elim (captured (c ∷ s)) [
  | none ↦ references 0 s
  | some t ↦ t ∷ references (length t + 2) s
]

unfoldable pub member : Text → List Text → Bool
member d [] = false
member d (t ∷ ts) = text_eq t d || member d ts

-- `names - {name}`
unfoldable pub without : Text → List Text → List Text
without name [] = []
without name (t ∷ ts) = let rest = without name ts in if text_eq t name then rest else t ∷ rest

-- `ds.issubset(names)`
unfoldable pub is_subset : (ds names : List Text) → Bool
is_subset [] names = true
is_subset (d ∷ ds) names = member d names && is_subset ds names

-- `_get_env_var_deps`; `none` is the TypeError of `re.findall` on what is no text.
unfoldable pub value_deps : (name : Text) → Value → Option (List Text)
value_deps name (text t) = some (without name (references 0 t))
value_deps name null = some []
value_deps name (boolean b) = if truth (boolean b) then none else some []
value_deps name (number n) = if truth (number n) then none else some []
value_deps name (list xs) = if truth (list xs) then none else some []
value_deps name (object d) = if truth (object d) then none else some []

unfoldable pub get_env_var_deps : EnvVar → Option (List Text)
get_env_var_deps env = value_deps env.name env.value

-- An element of `unsorted_env`.
pub record Entry : Type 0 where
  pub deps : List Text
  pub key : Text
  pub env : EnvVar

unfoldable pub as_text : Value → Option Text
as_text (text t) = some t
as_text null = none
as_text (boolean b) = none
as_text (number n) = none
as_text (list xs) = none
as_text (object d) = none

-- `V1EnvVar(**attributes)`; without a name the client raises.
unfoldable pub env_var_of : Fields → Option EnvVar
env_var_of attributes = do
  name ← as_text (held (find_field (codes "name") attributes))
  some (record {
    name = name;
    value = held (find_field (codes "value") attributes);
    value_from = held (find_field (codes "value_from") attributes);
  })

-- `if not "name" in env: env["name"] = key`
unfoldable pub named : Text → Fields → Option Value → Fields
named key d none = put_field (codes "name") (text key) d
named key d (some v) = d

-- The variable of an item; `attribute_map` is that of `V1EnvVar`.
unfoldable pub normalized : (attribute_map : Dict Text) (key : Text) → Value → Option EnvVar
normalized attribute_map key (object d) = do
  attributes ← get_k8s_model attribute_map (dictionary (named key d (find_field (codes "name") d)))
  env_var_of attributes
normalized attribute_map key (text t) =
    some (record { name = key; value = text t; value_from = null })
normalized attribute_map key null = some (record { name = key; value = null; value_from = null })
normalized attribute_map key (boolean b) =
    some (record { name = key; value = boolean b; value_from = null })
normalized attribute_map key (number n) =
    some (record { name = key; value = number n; value_from = null })
normalized attribute_map key (list xs) =
    some (record { name = key; value = list xs; value_from = null })

-- The loop that fills `unsorted_env`.
unfoldable pub collect_env :
    (attribute_map : Dict Text) → Dict Value → Dict Entry → Option (Dict Entry)
collect_env attribute_map [] unsorted_env = some unsorted_env
collect_env attribute_map ((key, v) ∷ env) unsorted_env = do
  e ← normalized attribute_map key v
  ds ← get_env_var_deps e
  collect_env attribute_map env
      (insert e.name (record { deps = ds; key = key; env = e }) unsorted_env)

-- In front of the first entry with no smaller key: `sorted` is stable.
unfoldable pub place_entry : Entry → List Entry → List Entry
place_entry e [] = e ∷ []
place_entry e (f ∷ es) = if text_lt f.key e.key then f ∷ place_entry e es else e ∷ f ∷ es

-- `sorted(es, key=operator.itemgetter("key"))`
unfoldable pub sorted_entries : List Entry → List Entry
sorted_entries [] = []
sorted_entries (e ∷ es) = place_entry e (sorted_entries es)

abbrev pub env_of : Entry → EnvVar
env_of e = e.env

abbrev pub name_of : EnvVar → Text
name_of e = e.name

-- The entries whose dependencies are resolved, which a step takes out, and those that it leaves.
unfoldable pub extracted : (resolved : List Text) → List Entry → List Entry
extracted resolved [] = []
extracted resolved (e ∷ es) =
    let rest = extracted resolved es in if is_subset e.deps resolved then e ∷ rest else rest

unfoldable pub remaining : (resolved : List Text) → List Entry → List Entry
remaining resolved [] = []
remaining resolved (e ∷ es) =
    let rest = remaining resolved es in if is_subset e.deps resolved then rest else e ∷ rest

-- The rest of `while True` after one step has taken out `taken`, where `next` is the rest of the loop.
unfoldable pub after_step :
    (taken : List Entry) (sorted_env : List EnvVar) (left : List Entry)
    → (List EnvVar → Option (List EnvVar))
    → Option (List EnvVar)
after_step [] sorted_env left next = some (sorted_env ++ map env_of (sorted_entries left))
after_step (e ∷ taken) sorted_env left next =
    next (sorted_env ++ map env_of (sorted_entries (e ∷ taken)))

-- `while True`; `none` when the fuel runs out.
unfoldable pub sort_env :
    (fuel : ℕ) (sorted_env : List EnvVar) (unsorted_env : List Entry) → Option (List EnvVar)
sort_env zero sorted_env unsorted_env = none
sort_env (suc fuel) sorted_env unsorted_env =
    after_step (extracted (map name_of sorted_env) unsorted_env) sorted_env
      (remaining (map name_of sorted_env) unsorted_env)
      (λ s. sort_env fuel s (remaining (map name_of sorted_env) unsorted_env))

-- The container's `env`, with a step for each variable and one more.
unfoldable pub make_env : (attribute_map : Dict Text) → Dict Value → Option (List EnvVar)
make_env attribute_map env = do
  unsorted_env ← collect_env attribute_map env []
  sort_env (suc (length (values unsorted_env))) [] (values unsorted_env)
