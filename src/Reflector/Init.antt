-- ===== src/Reflector/Init.antt =====
-- `ResourceReflector.__init__`: the selectors and the name of the list method. The API client is a
-- shared one of kubespawner/clients.py, and `watch_task` starts as `None`.
use kubespawner.Prelude.{
  ℕ, Bool, true, false, Option, none, some, List, [], ◌∷◌, ◌++◌, if◌then◌else◌, is_empty,
}
use kubespawner.Text.{Text, codes, join}
use kubespawner.Dict.{Dict, get}
use kubespawner.Reflector.{Reflector, Result, ok, err, runtime_error, pending, no_task}

-- The traits that a caller or a subclass sets.
pub record Options : Type 0 where
  pub kind : Text
  pub labels : Dict Text
  pub fields : Dict Text
  pub omit_namespace : Bool
  pub list_method_name : Text
  pub restart_seconds : ℕ
  pub has_on_failure : Bool

-- What `__init__` sets beside the state of the watch.
pub record Selectors : Type 0 where
  pub label_selector : Text
  pub field_selector : Text
  pub list_method_name : Text

abbrev pairs : Dict Text → List Text
pairs [] = []
pairs ((k, v) ∷ d) = (k ++ (codes "=" ++ v)) ∷ pairs d

abbrev pub plural_to_singular : Dict Text
plural_to_singular =
    (codes "endpoints", codes "endpoints")
    ∷ (codes "events", codes "event")
    ∷ (codes "ingresses", codes "ingress")
    ∷ (codes "pods", codes "pod")
    ∷ (codes "services", codes "service")
    ∷ []

-- The name of a kind with a known singular; otherwise it stays empty.
abbrev derived : Bool → Option Text → Text
derived omit_namespace none = []
derived true (some singular) = codes "list_" ++ (singular ++ codes "_for_all_namespaces")
derived false (some singular) = codes "list_namespaced_" ++ singular

unfoldable pub method_name : Options → Text
unfolding get
method_name o =
    if is_empty o.list_method_name
    then derived o.omit_namespace (get o.kind plural_to_singular)
    else o.list_method_name

module _ {Body : Type 0} where
  -- The reflector before its first listing.
  abbrev pub fresh : Options → Reflector Body
  fresh o = record {
    restart_seconds = o.restart_seconds;
    has_on_failure = o.has_on_failure;
    resources = [];
    first_load_future = pending;
    watch_task = no_task;
    stopping = false;
    failures = 0;
  }

  unfoldable pub init : Options → Result (Selectors × Reflector Body)
  init o =
      if is_empty o.kind
      then err runtime_error
      else if is_empty (method_name o)
      then err runtime_error
      else ok (
        record {
          label_selector = join (codes ",") (pairs o.labels);
          field_selector = join (codes ",") (pairs o.fields);
          list_method_name = method_name o;
        },
        fresh o,
      )
