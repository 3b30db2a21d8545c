-- ===== src/Clients/Sharing.antt =====
-- One client for each key, until it is closed.
use kubespawner.Prelude.{
  and_true, Each, ◌≡◌, ◌∙◌, sym, ap, refl, inl, inr, ℕ, Bool-cases, Option-cases, true, false, ◌&&◌,
  some, List, [], ◌∷◌, ◌==◌, ==_iff, arith,
}
use kubespawner.Text.{Text, text_eq, text_eq_iff}
use kubespawner.Dict.{Dict}
use kubespawner.Clients.{
  CacheKey, Clients, texts_same, kwargs_same, cache_key_eq, cached, uncached, client_for,
  client_key, shared_client, close,
}

-- A call, or the end of the task of a client.
pub data Occurrence : Type 0 where
  call :
      (running_loop : ℕ) (client_type : Text) (args : List Text) (kwargs : Dict Text) → Occurrence
  closed : CacheKey → Occurrence

unfoldable pub after : Occurrence → Clients → Clients
after (call running_loop client_type args kwargs) s =
    (shared_client running_loop client_type args kwargs s).1
after (closed key) s = close key s

unfoldable pub run : List Occurrence → Clients → Clients
run [] s = s
run (e ∷ es) s = run es (after e s)

-- The event does not close the key.
abbrev pub Spares : CacheKey → Occurrence → Type 0
Spares key (call running_loop client_type args kwargs) = Unit
Spares key (closed k) = cache_key_eq k key ≡ false

texts_same_refl : (ts : List Text) → texts_same ts ts ≡ true
unfolding texts_same
texts_same_refl [] = refl
texts_same_refl (t ∷ ts) = rw ((text_eq_iff t t).1 refl) (texts_same_refl ts)

kwargs_same_refl : (d : Dict Text) → kwargs_same d d ≡ true
unfolding kwargs_same
kwargs_same_refl [] = refl
kwargs_same_refl ((k, v) ∷ d) =
    rw ((text_eq_iff k k).1 refl, (text_eq_iff v v).1 refl) (kwargs_same_refl d)

cache_key_eq_refl : (k : CacheKey) → cache_key_eq k k ≡ true
unfolding cache_key_eq
cache_key_eq_refl k =
    rw
      (
        (==_iff k.running_loop k.running_loop).1 refl,
        (text_eq_iff k.client_type k.client_type).1 refl,
        texts_same_refl k.args,
        kwargs_same_refl k.kwarg_key,
      )
      refl

texts_same_sound : (s t : List Text) → texts_same s t ≡ true → s ≡ t
unfolding texts_same
texts_same_sound [] [] h = refl
texts_same_sound [] (t ∷ ts) h = absurd (ground (arith, h))
texts_same_sound (s ∷ ss) [] h = absurd (ground (arith, h))
texts_same_sound (s ∷ ss) (t ∷ ts) h =
    let (a, b) = and_true (text_eq s t) (texts_same ss ts) h in
    let first : s ≡ t = (text_eq_iff s t).0 a in let rest : ss ≡ ts = texts_same_sound ss ts b in cc

kwargs_same_sound : (d e : Dict Text) → kwargs_same d e ≡ true → d ≡ e
unfolding kwargs_same
kwargs_same_sound [] [] h = refl
kwargs_same_sound [] ((k, v) ∷ e) h = absurd (ground (arith, h))
kwargs_same_sound ((j, u) ∷ d) [] h = absurd (ground (arith, h))
kwargs_same_sound ((j, u) ∷ d) ((k, v) ∷ e) h =
    let (a, more) = and_true (text_eq j k) (text_eq u v && kwargs_same d e) h in
    let (b, c) = and_true (text_eq u v) (kwargs_same d e) more in
    let first : j ≡ k = (text_eq_iff j k).0 a in
    let second : u ≡ v = (text_eq_iff u v).0 b in let rest : d ≡ e = kwargs_same_sound d e c in cc

cache_key_eq_sound : (a b : CacheKey) → cache_key_eq a b ≡ true → a ≡ b
unfolding cache_key_eq
cache_key_eq_sound a b h =
    let (l, h1) = and_true (a.running_loop == b.running_loop) _ h in
    let (t, h2) = and_true (text_eq a.client_type b.client_type) _ h1 in
    let (r, k) = and_true (texts_same a.args b.args) (kwargs_same a.kwarg_key b.kwarg_key) h2 in
    let first : a.running_loop ≡ b.running_loop = (==_iff a.running_loop b.running_loop).0 l in
    let second : a.client_type ≡ b.client_type = (text_eq_iff a.client_type b.client_type).0 t in
    let third : a.args ≡ b.args = texts_same_sound a.args b.args r in
    let fourth : a.kwarg_key ≡ b.kwarg_key = kwargs_same_sound a.kwarg_key b.kwarg_key k in cc

cached-uncached :
    (k key : CacheKey) (cache : List (CacheKey × ℕ))
    → cache_key_eq k key ≡ false
    → cached key (uncached k cache) ≡ cached key cache
unfolding cached uncached
cached-uncached k key [] ne = refl
cached-uncached k key ((j, c) ∷ cache) ne = elim (Bool-cases (cache_key_eq j k)) [
  | inl same ↦
      rw (same, ap (λ i. cache_key_eq i key) (cache_key_eq_sound j k same) ∙ ne)
        (cached-uncached k key cache ne)
  | inr other ↦ elim (Bool-cases (cache_key_eq j key)) [
    | inl here ↦ rw (other, here) refl
    | inr there ↦ rw (other, there) (cached-uncached k key cache ne)
  ]
]

-- A call for any key keeps the client of a key that has one.
client_for_keeps :
    (k key : CacheKey) (c : ℕ) (s : Clients)
    → cached key s.client_cache ≡ some c
    → cached key (Clients.client_cache ((client_for k (cached k s.client_cache) s).1)) ≡ some c
unfolding client_for cached
client_for_keeps k key c s h = elim (Option-cases (cached k s.client_cache)) [
  | inr (d, there) ↦ rw there h
  | inl missing ↦ rw missing (elim (Bool-cases (cache_key_eq k key)) [
    | inl same ↦
        absurd (
          cc
            (sym missing ∙ (ap (λ i. cached i s.client_cache) (cache_key_eq_sound k key same) ∙ h)))
    | inr other ↦ rw other h
  ])
]

after_keeps :
    (key : CacheKey) (c : ℕ) (e : Occurrence) (s : Clients)
    → Spares key e
    → cached key s.client_cache ≡ some c
    → cached key (Clients.client_cache (after e s)) ≡ some c
unfolding after shared_client close
after_keeps key c (call running_loop client_type args kwargs) s spares h =
    client_for_keeps (client_key running_loop client_type args kwargs) key c s h
after_keeps key c (closed k) s spares h = cached-uncached k key s.client_cache spares ∙ h

run_keeps :
    (key : CacheKey) (c : ℕ) (es : List Occurrence) (s : Clients)
    → Each (Spares key) es
    → cached key s.client_cache ≡ some c
    → cached key (Clients.client_cache (run es s)) ≡ some c
unfolding run
run_keeps key c [] s spares h = h
run_keeps key c (e ∷ es) s (first, spares) h =
    run_keeps key c es (after e s) spares (after_keeps key c e s first h)

cached-client_for :
    (key : CacheKey) (s : Clients)
    → cached key (Clients.client_cache ((client_for key (cached key s.client_cache) s).1))
      ≡ some ((client_for key (cached key s.client_cache) s).0)
unfolding client_for cached
cached-client_for key s = elim (Option-cases (cached key s.client_cache)) [
  | inl missing ↦ rw (missing, cache_key_eq_refl key) refl
  | inr (c, there) ↦ rw (there, there) refl
]

client_for_found :
    (key : CacheKey) (s : Clients) (c : ℕ)
    → cached key s.client_cache ≡ some c
    → client_for key (cached key s.client_cache) s ≡ (c, s)
unfolding client_for
client_for_found key s c h = rw h refl

-- After a call of `shared_client`, and then any calls, and ends of the tasks of clients with other
-- keys, a call with the same loop, type and arguments returns the same client and makes none.
pub shared_client-run :
    (running_loop : ℕ) (client_type : Text) (args : List Text) (kwargs : Dict Text)
    (es : List Occurrence) (s : Clients)
    → Each (Spares (client_key running_loop client_type args kwargs)) es
    → shared_client running_loop client_type args kwargs
        (run es ((shared_client running_loop client_type args kwargs s).1))
      ≡ (
        (shared_client running_loop client_type args kwargs s).0,
        run es ((shared_client running_loop client_type args kwargs s).1),
      )
unfolding shared_client
shared_client-run running_loop client_type args kwargs es s spares =
    let key = client_key running_loop client_type args kwargs in
    let r = client_for key (cached key s.client_cache) s in
    client_for_found key (run es (r.1)) (r.0)
      (run_keeps key (r.0) es (r.1) spares (cached-client_for key s))
