-- ===== src/Shared.antt =====
-- The reflectors that all spawners share: `KubeSpawner.reflectors`, `_get_reflector_key`,
-- `_start_reflector`, `_start_watching_pods`, `_start_watching_events` and `_stop_all_reflectors`.
-- The reflectors are objects of a store, so that one that has been replaced is still there.
pub mod Steps
pub mod Replacing
mod Tests
use kubespawner.Prelude.{
  ℕ, suc, ◌+◌, Bool, true, false, not, ◌&&◌, ◌||◌, Option, none, some, List, [], ◌∷◌, ◌==◌,
  if◌then◌else◌,
}
use kubespawner.Text.{Text, codes, text_eq}
use kubespawner.Dict.{Dict}
use kubespawner.Reflector.{Reflector, ListReply, Future, pending, done, failed}
use kubespawner.Reflector
use kubespawner.Reflector.Init.{Options, fresh}

-- `(kind, namespace)`; without a namespace for all of them.
pub record Key : Type 0 where
  pub kind : Text
  pub namespace : Option Text

abbrev pub namespace_eq : Option Text → Option Text → Bool
namespace_eq none none = true
namespace_eq (some a) (some b) = text_eq a b
namespace_eq none (some b) = false
namespace_eq (some a) none = false

unfoldable pub key_eq : Key → Key → Bool
key_eq a b = text_eq a.kind b.kind && namespace_eq a.namespace b.namespace

-- The exceptions of a start: those of the reflector, and `sys.exit(1)`.
pub data Exn : Type 0 where
  from_reflector : Reflector.Exn → Exn
  system_exit : Exn

-- How a call of `_start_reflector` has gone so far: it returns a reflector, waits for the first
-- load of one, or has put a new one into the table and awaits its first listing, before it stops
-- the previous one.
pub data Entered : Type 0 where
  returns : ℕ → Entered
  waits : ℕ → Entered
  opened : (current : ℕ) (previous : Option ℕ) → Entered

pub data Outcome : Type 0 where
  returned : ℕ → Outcome
  failed_with : Exn → Outcome
  waiting : ℕ → Outcome

-- What the spawner reads.
pub record Owner : Type 0 where
  pub namespace : Text
  pub enable_user_namespaces : Bool
  pub component_label : Text

abbrev pub Table : Type 0
Table = List (Key × ℕ)

-- `reflectors.get(key, None)`
unfoldable pub find : Key → Table → Option ℕ
find k [] = none
find k ((j, i) ∷ t) = if key_eq j k then some i else find k t

-- `reflectors[key] = …`
unfoldable pub assign : Key → ℕ → Table → Table
assign k i [] = (k, i) ∷ []
assign k i ((j, n) ∷ t) = if key_eq j k then (j, i) ∷ t else (j, n) ∷ assign k i t

-- `_get_reflector_key`
unfoldable pub reflector_key : Owner → (kind : Text) → Key
reflector_key o kind = record {
  kind = kind;
  namespace = if o.enable_user_namespaces then none else some o.namespace;
}

-- The table and the reflector objects, numbered in the order of their creation.
pub record Shared (Body : Type 0) : Type 0 where
  pub table : Table
  pub next : ℕ
  pub object : ℕ → Reflector Body

abbrev pub existing : Future → ℕ → Entered
existing pending i = waits i
existing done i = returns i
existing (failed e) i = returns i

-- `catch_reflector_start`: for all namespaces a failure halts the hub.
abbrev pub start_failure : (enable_user_namespaces : Bool) → Reflector.Exn → Exn
start_failure b Reflector.Exn.cancelled = from_reflector Reflector.Exn.cancelled
start_failure true e = system_exit
start_failure false e = from_reflector e

-- The rest of a call that waits, once the first load is over one way or the other.
abbrev pub awaited : Future → ℕ → Outcome
awaited (failed e) i = failed_with (from_reflector e)
awaited done i = returned i
awaited pending i = waiting i

module _ {Body : Type 0} where
  abbrev pub set_object : ℕ → Reflector Body → Shared Body → Shared Body
  set_object i r s = record s { object = λ j. if i == j then r else s.object j }

  -- A new reflector under the key.
  unfoldable pub open_reflector : Options → Key → Shared Body → Shared Body
  open_reflector options key s =
      set_object s.next (fresh options)
        (record s { table = assign key s.next s.table; next = suc s.next })

  -- `_start_reflector` up to its first `await`, for the reflector that is there.
  abbrev pub enter_found :
      (replace : Bool) → Options → Key → Option ℕ → Shared Body → Shared Body × Entered
  enter_found replace options key none s = (open_reflector options key s, opened s.next none)
  enter_found true options key (some i) s = (open_reflector options key s, opened s.next (some i))
  enter_found false options key (some i) s = (s, existing (s.object i).first_load_future i)

  unfoldable pub enter : (replace : Bool) → Options → Key → Shared Body → Shared Body × Entered
  enter replace options key s = enter_found replace options key (find key s.table) s

  abbrev pub stop_previous : Option ℕ → Shared Body → Shared Body
  stop_previous none s = s
  stop_previous (some i) s = set_object i (Reflector.stop (s.object i)) s

  abbrev pub loaded_outcome :
      Bool → ℕ → Option ℕ → Shared Body → Reflector.Result (Unit {0}) → Shared Body × Outcome
  loaded_outcome b current previous s (Reflector.ok u) =
      (stop_previous previous s, returned current)
  loaded_outcome b current previous s (Reflector.err e) = (s, failed_with (start_failure b e))

  -- The rest of `_start_reflector`, once the first listing of the new reflector is answered.
  unfoldable pub loaded :
      Owner
      → (current : ℕ) (previous : Option ℕ) → ListReply Body
      → Shared Body
      → Shared Body × Outcome
  loaded o current previous reply s =
      let (r, result) = Reflector.start reply (s.object current) in
      loaded_outcome o.enable_user_namespaces current previous (set_object current r s) result

  abbrev pub proceed : Owner → ListReply Body → Shared Body → Entered → Shared Body × Outcome
  proceed o reply s (returns i) = (s, returned i)
  proceed o reply s (waits i) = (s, awaited (s.object i).first_load_future i)
  proceed o reply s (opened current previous) = loaded o current previous reply s

  -- `_start_reflector` without other tasks in between.
  unfoldable pub start_reflector :
      Owner → (replace : Bool) → Options → ListReply Body → Shared Body → Shared Body × Outcome
  start_reflector o replace options reply s =
      let (t, entered) = enter replace options (reflector_key o options.kind) s in
      proceed o reply t entered

  -- `_stop_all_reflectors`
  unfoldable pub stop_all : Table → Shared Body → Shared Body
  stop_all [] s = record s { table = [] }
  stop_all ((k, i) ∷ t) s = stop_all t (set_object i (Reflector.stop (s.object i)) s)

  unfoldable pub stop_all_reflectors : Shared Body → Shared Body
  unfolding stop_all
  stop_all_reflectors s = stop_all s.table s

-- `_start_watching_pods` and `_start_watching_events` by the options that they give.
abbrev pub pod_options : Owner → Options
pod_options o = record {
  kind = codes "pods";
  labels = (codes "component", o.component_label) ∷ [];
  fields = [];
  omit_namespace = o.enable_user_namespaces;
  list_method_name = [];
  restart_seconds = 30;
  has_on_failure = o.enable_user_namespaces;
}

abbrev pub event_options : Owner → Options
event_options o = record {
  kind = codes "events";
  labels = [];
  fields = (codes "involvedObject.kind", codes "Pod") ∷ [];
  omit_namespace = o.enable_user_namespaces;
  list_method_name = [];
  restart_seconds = 30;
  has_on_failure = o.enable_user_namespaces;
}
