-- ===== src/Clients.antt =====
-- `shared_client` of kubespawner/clients.py: one client of the API for each event loop, kind of
-- client and arguments. Clients and loops are numbered, and `close_client_task` is the event `close`.
pub mod Sharing
mod Tests
use kubespawner.Prelude.{
  ℕ, suc, Bool, true, false, ◌&&◌, Option, none, some, List, [], ◌∷◌, ◌==◌, if◌then◌else◌,
}
use kubespawner.Text.{Text, text_eq}
use kubespawner.Dict.{Dict}
use kubespawner.Spawner.Events.{text_lt}

-- `cache_key`; arguments are compared as texts.
pub record CacheKey : Type 0 where
  pub running_loop : ℕ
  pub client_type : Text
  pub args : List Text
  pub kwarg_key : Dict Text

unfoldable pub texts_same : List Text → List Text → Bool
texts_same [] [] = true
texts_same [] (t ∷ ts) = false
texts_same (s ∷ ss) [] = false
texts_same (s ∷ ss) (t ∷ ts) = text_eq s t && texts_same ss ts

unfoldable pub kwargs_same : Dict Text → Dict Text → Bool
kwargs_same [] [] = true
kwargs_same [] ((k, v) ∷ e) = false
kwargs_same ((j, u) ∷ d) [] = false
kwargs_same ((j, u) ∷ d) ((k, v) ∷ e) = text_eq j k && (text_eq u v && kwargs_same d e)

unfoldable pub cache_key_eq : CacheKey → CacheKey → Bool
cache_key_eq a b =
    a.running_loop == b.running_loop
    && (text_eq a.client_type b.client_type
        && (texts_same a.args b.args && kwargs_same a.kwarg_key b.kwarg_key))

unfoldable pub place_kwarg : Text → Text → Dict Text → Dict Text
place_kwarg k v [] = (k, v) ∷ []
place_kwarg k v ((j, u) ∷ d) =
    if text_lt j k then (j, u) ∷ place_kwarg k v d else (k, v) ∷ (j, u) ∷ d

-- `tuple((key, kwargs[key]) for key in sorted(kwargs))`
unfoldable pub sorted_kwargs : Dict Text → Dict Text
sorted_kwargs [] = []
sorted_kwargs ((k, v) ∷ d) = place_kwarg k v (sorted_kwargs d)

-- `_client_cache`, and the number of clients that were made.
pub record Clients : Type 0 where
  pub client_cache : List (CacheKey × ℕ)
  pub made : ℕ

unfoldable pub cached : CacheKey → List (CacheKey × ℕ) → Option ℕ
cached key [] = none
cached key ((k, c) ∷ cache) = if cache_key_eq k key then some c else cached key cache

-- `_client_cache.pop(cache_key, None)`
unfoldable pub uncached : CacheKey → List (CacheKey × ℕ) → List (CacheKey × ℕ)
uncached key [] = []
uncached key ((k, c) ∷ cache) =
    let rest = uncached key cache in if cache_key_eq k key then rest else (k, c) ∷ rest

-- `if client is None`
unfoldable pub client_for : CacheKey → Option ℕ → Clients → ℕ × Clients
client_for key none s =
    (s.made, record { client_cache = (key, s.made) ∷ s.client_cache; made = suc s.made })
client_for key (some c) s = (c, s)

abbrev pub client_key :
    (running_loop : ℕ) (client_type : Text) (args : List Text) (kwargs : Dict Text) → CacheKey
client_key running_loop client_type args kwargs = record {
  running_loop = running_loop;
  client_type = client_type;
  args = args;
  kwarg_key = sorted_kwargs kwargs;
}

-- `shared_client`
unfoldable pub shared_client :
    (running_loop : ℕ) (client_type : Text) (args : List Text) (kwargs : Dict Text)
    → Clients
    → ℕ × Clients
shared_client running_loop client_type args kwargs s =
    client_for (client_key running_loop client_type args kwargs)
      (cached (client_key running_loop client_type args kwargs) s.client_cache) s

-- The task of a client is cancelled.
unfoldable pub close : CacheKey → Clients → Clients
close key s = record s { client_cache = uncached key s.client_cache }
