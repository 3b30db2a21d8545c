-- ===== src/Reflector/Consistency.antt =====
-- Whatever the server does, each resource stands once, under the key that its metadata gives.
use kubespawner.Prelude.{◌≡◌, refl, ◌⊎◌, inl, inr, List, [], ◌∷◌, Bool-cases}
use kubespawner.Text.{Text, text_eq, text_eq_iff}
use kubespawner.Dict.{Dict, insert, pop, IsUnique, AllEntries, insert-IsUnique, pop-IsUnique}
use kubespawner.Reflector.{
  Result, Resource, Reflector, ListReply, WatchEvent, Delivery, Round, Loop, Exit, Status, proceed,
  returned, propagated, broke, after_round, listed, refused, raised, deleted, changed, key_of,
  from_items, list_and_update, apply_event, call_stop, watch_stream, attempt, attempt_after,
  watch_round, watch_rounds, watch_and_update, any_version, ok, err, first_delay,
}
use kubespawner.Reflector.View.{watch_stream_cases, resources-watch_round}

module _ {Body : Type 0} where
  -- Keys stand once, and each is that of its resource.
  pub record IsKeyed (d : Dict (Resource Body)) : Type 0 where
    pub unique : IsUnique d
    pub own_key : AllEntries (λ k p. k ≡ key_of p) d

  own_key-insert :
      (p : Resource Body) (d : Dict (Resource Body))
      → AllEntries (λ k q. k ≡ key_of q) d
      → AllEntries (λ k q. k ≡ key_of q) (insert (key_of p) p d)
  unfolding insert
  own_key-insert p [] h = (refl, tt)
  own_key-insert p ((j, q) ∷ d) h = elim (Bool-cases (text_eq j (key_of p))) [
    | inl same ↦ rw same ((text_eq_iff j (key_of p)).0 same, h.1)
    | inr other ↦ rw other (h.0, own_key-insert p d h.1)
  ]

  own_key-pop :
      (k : Text) (d : Dict (Resource Body))
      → AllEntries (λ k q. k ≡ key_of q) d
      → AllEntries (λ k q. k ≡ key_of q) (pop k d)
  unfolding pop
  own_key-pop k [] h = tt
  own_key-pop k ((j, q) ∷ d) h = elim (Bool-cases (text_eq j k)) [
    | inl same ↦ rw same (own_key-pop k d h.1)
    | inr other ↦ rw other (h.0, own_key-pop k d h.1)
  ]

  insert-IsKeyed :
      (p : Resource Body) (d : Dict (Resource Body)) → IsKeyed d → IsKeyed (insert (key_of p) p d)
  insert-IsKeyed p d h = record {
    unique = insert-IsUnique (key_of p) p d h.unique;
    own_key = own_key-insert p d h.own_key;
  }

  from_items-IsKeyed :
      (d : Dict (Resource Body)) (items : List (Resource Body))
      → IsKeyed d
      → IsKeyed (from_items d items)
  unfolding from_items
  from_items-IsKeyed d [] h = h
  from_items-IsKeyed d (p ∷ items) h =
      from_items-IsKeyed (insert (key_of p) p d) items (insert-IsKeyed p d h)

  list_and_update-IsKeyed :
      (reply : ListReply Body) (r : Reflector Body)
      → IsKeyed r.resources
      → IsKeyed (list_and_update reply r).0.resources
  unfolding list_and_update
  list_and_update-IsKeyed (listed items version) r h =
      from_items-IsKeyed [] items (record { unique = tt; own_key = tt })
  list_and_update-IsKeyed (refused status) r h = h
  list_and_update-IsKeyed (raised e) r h = h

  apply_event-IsKeyed :
      (e : WatchEvent Body) (s : Loop Body)
      → IsKeyed s.reflector.resources
      → IsKeyed (apply_event e s).reflector.resources
  unfolding apply_event
  apply_event-IsKeyed (deleted p) s h = record {
    unique = pop-IsUnique (key_of p) s.reflector.resources h.unique;
    own_key = own_key-pop (key_of p) s.reflector.resources h.own_key;
  }
  apply_event-IsKeyed (changed p) s h = insert-IsKeyed p s.reflector.resources h

  watch_stream-IsKeyed :
      (ds : List (Delivery Body)) (s : Loop Body)
      → IsKeyed s.reflector.resources
      → IsKeyed (watch_stream ds s).0.reflector.resources
  watch_stream-IsKeyed [] s h = unfold watch_stream in h
  watch_stream-IsKeyed (d ∷ ds) s h =
      let after = apply_event-IsKeyed d.event s h in
      let rest = watch_stream-IsKeyed ds (call_stop d.stop_called (apply_event d.event s)) after in
      elim (watch_stream_cases d ds s) [ inl e ↦ rw e after | inr e ↦ rw e rest ]

  attempt_after-IsKeyed :
      (x : Round Body) (s : Loop Body) (r : Reflector Body) (listing : Result Text)
      → IsKeyed r.resources
      → IsKeyed (attempt_after x s r listing).0.reflector.resources
  unfolding attempt_after
  attempt_after-IsKeyed x s r (err e) h = h
  attempt_after-IsKeyed x s r (ok version) h =
      watch_stream-IsKeyed x.stream
        (record { reflector = r; resource_version = version; cur_delay = first_delay }) h

  -- A round of the watch loop keeps the resources keyed.
  watch_round-IsKeyed :
      (x : Round Body) (s : Loop Body)
      → IsKeyed s.reflector.resources
      → IsKeyed (watch_round x s).0.reflector.resources
  watch_round-IsKeyed x s h =
      let (r, listing) = list_and_update x.reply s.reflector in
      rw resources-watch_round (
        unfold attempt in
        (attempt_after-IsKeyed x s r listing (list_and_update-IsKeyed x.reply s.reflector h)))

  by_exit :
      (exit : Exit) (s : Loop Body) (rest : Loop Body → Loop Body × Status)
      → ((after_round exit s rest).0 ≡ s) ⊎ ((after_round exit s rest).0 ≡ (rest s).0)
  by_exit (proceed slept) s rest = inr refl
  by_exit returned s rest = inl refl
  by_exit (propagated e) s rest = inl refl
  by_exit broke s rest = inl refl

  -- A round is the last one, or the loop goes on from the state that it leaves.
  pub watch_rounds_cases :
      (x : Round Body) (xs : List (Round Body)) (s : Loop Body)
      → ((watch_rounds (x ∷ xs) s).0 ≡ (watch_round x s).0)
        ⊎ ((watch_rounds (x ∷ xs) s).0 ≡ (watch_rounds xs (watch_round x s).0).0)
  unfolding watch_rounds
  watch_rounds_cases x xs s =
      by_exit (watch_round x s).1 (watch_round x s).0 (λ t. watch_rounds xs t)

  watch_rounds-IsKeyed :
      (xs : List (Round Body)) (s : Loop Body)
      → IsKeyed s.reflector.resources
      → IsKeyed (watch_rounds xs s).0.reflector.resources
  watch_rounds-IsKeyed [] s h = unfold watch_rounds in h
  watch_rounds-IsKeyed (x ∷ xs) s h =
      let s' = (watch_round x s).0 in
      let now = watch_round-IsKeyed x s h in
      elim (watch_rounds_cases x xs s) [
        | inl e ↦ rw e now
        | inr e ↦ rw e (watch_rounds-IsKeyed xs s' now)
      ]

  -- From a reflector with no resources, after any rounds of listings, events and errors, each key
  -- stands once among the resources and is `namespace/name` of its resource.
  pub watch_and_update-IsKeyed :
      (xs : List (Round Body)) (r : Reflector Body)
      → r.resources ≡ []
      → IsKeyed (watch_and_update xs r).0.reflector.resources
  unfolding watch_and_update
  watch_and_update-IsKeyed xs r h =
      watch_rounds-IsKeyed xs
        (record { reflector = r; resource_version = any_version; cur_delay = first_delay })
        (rw h (record { unique = tt; own_key = tt }))
