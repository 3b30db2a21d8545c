-- ===== src/Reflector/View.antt =====
-- The resources of a reflector as a client looks them up, against the listing and the events.
use kubespawner.Prelude.{
  ℕ, suc, ◌≡◌, ◌∙◌, ◌⊎◌, ap, refl, inl, inr, Bool, true, false, not, ◌&&◌, Option, none, some, List,
  [], ◌∷◌, arith, ltb, leb, if◌then◌else◌, length, take, all, and_true, all-uncons, map, Bool-cases,
}
use kubespawner.Text.{Text, text_eq}
use kubespawner.Dict.{Dict, get, insert, get-insert, get-pop}
use kubespawner.Reflector.{
  Exn, Resource, Reflector, ListReply, WatchEvent, Delivery, Round, Loop, listed, deleted, changed,
  key_of, from_items, list_and_update, apply_event, call_stop, watch_stream, attempt, back_off,
  handle, watch_round, first_delay,
}

module _ {Body : Type 0} where
  -- The last item of a listing with the key.
  abbrev pub last_item : Text → List (Resource Body) → Option (Resource Body)
  last_item k [] = none
  last_item k (p ∷ items) = elim (last_item k items) [
    | some q ↦ some q
    | none ↦ if text_eq (key_of p) k then some p else none
  ]

  abbrev event_key : WatchEvent Body → Text
  event_key (deleted p) = key_of p
  event_key (changed p) = key_of p

  abbrev event_value : WatchEvent Body → Option (Resource Body)
  event_value (deleted p) = none
  event_value (changed p) = some p

  -- What the events leave under the key, if it had the value `v` before.
  abbrev pub after_events :
      Text → List (WatchEvent Body) → Option (Resource Body) → Option (Resource Body)
  after_events k [] v = v
  after_events k (e ∷ es) v =
      after_events k es (if text_eq (event_key e) k then event_value e else v)

  or_else : Option (Resource Body) → Option (Resource Body) → Option (Resource Body)
  or_else (some q) v = some q
  or_else none v = v

  get-from_items :
      (k : Text) (d : Dict (Resource Body)) (items : List (Resource Body))
      → get k (from_items d items) ≡ or_else (last_item k items) (get k d)
  unfolding from_items or_else
  get-from_items k d [] = refl
  get-from_items k d (p ∷ items) =
      ground (arith, get-from_items k (insert (key_of p) p d) items, get-insert (key_of p) k p d)

  get-from_items_nil :
      (k : Text) (items : List (Resource Body)) → get k (from_items [] items) ≡ last_item k items
  unfolding or_else get
  get-from_items_nil k items = ground (arith, get-from_items k [] items)

  get-apply_event :
      (k : Text) (e : WatchEvent Body) (s : Loop Body)
      → get k (apply_event e s).reflector.resources
        ≡ (if text_eq (event_key e) k then event_value e else get k s.reflector.resources)
  unfolding apply_event
  get-apply_event k (deleted p) s = get-pop (key_of p) k s.reflector.resources
  get-apply_event k (changed p) s = get-insert (key_of p) k p s.reflector.resources

  abbrev pub events_of : List (Delivery Body) → List (WatchEvent Body)
  events_of = map (λ (d : Delivery Body). d.event)

  watch_stream_on :
      (d : Delivery Body) (ds : List (Delivery Body)) (s : Loop Body)
      → let s' = call_stop d.stop_called (apply_event d.event s) in
        s'.reflector.stopping ≡ false
        → leb s'.reflector.restart_seconds d.watch_duration ≡ false
        → watch_stream (d ∷ ds) s ≡ watch_stream ds s'
  unfolding watch_stream
  watch_stream_on d ds s on early = rw (on, early)

  pub watch_stream_cases :
      (d : Delivery Body) (ds : List (Delivery Body)) (s : Loop Body)
      → (watch_stream (d ∷ ds) s ≡ (call_stop d.stop_called (apply_event d.event s), true))
        ⊎ (watch_stream (d ∷ ds) s
            ≡ watch_stream ds (call_stop d.stop_called (apply_event d.event s)))
  unfolding watch_stream
  watch_stream_cases d ds s =
      let s' = call_stop d.stop_called (apply_event d.event s) in
      elim (Bool-cases s'.reflector.stopping) [
        | inl stops ↦ inl (rw stops)
        | inr on ↦ elim (Bool-cases (leb s'.reflector.restart_seconds d.watch_duration)) [
          | inl late ↦ inl (rw (on, late))
          | inr early ↦ inr (rw (on, early))
        ]
      ]

  -- After the stream, the resources are what the first `n` events make of those before.
  watch_stream_view :
      (ds : List (Delivery Body)) (s : Loop Body)
      → (n : ℕ) × ((k : Text)
          → get k (watch_stream ds s).0.reflector.resources
            ≡ after_events k (take n (events_of ds)) (get k s.reflector.resources))
        × ((watch_stream ds s).1 ≡ false → n ≡ length ds)
  unfolding watch_stream
  watch_stream_view [] s = (0, λ k. refl, λ h. refl)
  watch_stream_view (d ∷ ds) s =
      let s' = call_stop d.stop_called (apply_event d.event s) in
      let (n, view, whole) = watch_stream_view ds s' in
      elim (watch_stream_cases d ds s) [
        | inl e ↦ (1, λ k. rw e (get-apply_event k d.event s), λ h. cc (h, e))
        | inr e ↦ (
          suc n,
          λ k.
              rw e (
                view k ∙ ap (after_events k (take n (events_of ds))) (get-apply_event k d.event s)),
          λ h. ap suc (whole (rw (← e) h)),
        )
      ]

  -- The stream goes on past every event: `stop` is not called, and it is not time for a restart.
  abbrev pub is_calm : ℕ → List (Delivery Body) → Bool
  is_calm restart_seconds =
      all (λ (d : Delivery Body). not d.stop_called && ltb d.watch_duration restart_seconds)

  pub apply_event_keeps :
      (e : WatchEvent Body) (s : Loop Body)
      → ((apply_event e s).reflector.stopping ≡ s.reflector.stopping)
        × ((apply_event e s).reflector.restart_seconds ≡ s.reflector.restart_seconds)
  unfolding apply_event
  apply_event_keeps (deleted p) s = (refl, refl)
  apply_event_keeps (changed p) s = (refl, refl)

  watch_stream_calm :
      (ds : List (Delivery Body)) (s : Loop Body)
      → s.reflector.stopping ≡ false
      → is_calm s.reflector.restart_seconds ds ≡ true
      → (watch_stream ds s).1 ≡ false
  watch_stream_calm [] s h c = unfold watch_stream in refl
  watch_stream_calm (d ∷ ds) s h c =
      let s' = call_stop d.stop_called (apply_event d.event s) in
      let (calm, rest) =
        all-uncons
          (λ (x : Delivery Body).
            not x.stop_called && ltb x.watch_duration s.reflector.restart_seconds)
          d ds c in
      let (running, early) =
        and_true (not d.stop_called) (ltb d.watch_duration s.reflector.restart_seconds) calm in
      let (same, kept) = apply_event_keeps d.event s in
      let goes_on : s'.reflector.stopping ≡ false = ground (arith, same, h, running) in
      let in_time : leb s'.reflector.restart_seconds d.watch_duration ≡ false =
        rw kept (ground (arith, early)) in
      rw (watch_stream_on d ds s goes_on in_time) (watch_stream_calm ds s' goes_on (rw kept rest))

  resources-handle :
      (e : Option Exn) (c : Bool) (s : Loop Body)
      → (handle e c s).0.reflector.resources ≡ s.reflector.resources
  unfolding handle back_off
  resources-handle none c s = refl
  resources-handle (some Exn.read_timeout) c s = refl
  resources-handle (some Exn.cancelled) c s = refl
  resources-handle (some e) c s = ground arith

  listed_fields :
      (reply : ListReply Body) (r : Reflector Body) (items : List (Resource Body)) (version : Text)
      → reply ≡ listed items version
      → ((list_and_update reply r).0.resources ≡ from_items [] items)
        × ((list_and_update reply r).0.stopping ≡ r.stopping)
        × ((list_and_update reply r).0.restart_seconds ≡ r.restart_seconds)
  unfolding list_and_update
  listed_fields reply r items version h = rw h (refl, refl, refl)

  -- The resources that a round leaves are those that `attempt` leaves.
  pub resources-watch_round :
      (x : Round Body) (s : Loop Body)
      → (watch_round x s).0.reflector.resources ≡ (attempt x s).0.reflector.resources
  unfolding watch_round
  resources-watch_round x s = resources-handle (attempt x s).1 x.cancelled_in_sleep (attempt x s).0

  attempt_listed :
      (x : Round Body) (s : Loop Body) (items : List (Resource Body)) (version : Text)
      → x.reply ≡ listed items version
      → let r = (list_and_update x.reply s.reflector).0 in
        (attempt x s).0
        ≡ (watch_stream x.stream
            (record { reflector = r; resource_version = version; cur_delay = first_delay })).0
  unfolding attempt list_and_update
  attempt_listed x s items version h = rw h

  -- After a round whose listing succeeds, the resource under each key is what the first `n` events
  -- of the stream, for some `n`, make of the last item of the listing with that key. These are all
  -- events, if the watch was not being stopped and no event comes with a stop or after
  -- `restart_seconds`.
  pub watch_round_view :
      (x : Round Body) (s : Loop Body) (items : List (Resource Body)) (version : Text)
      → x.reply ≡ listed items version
      → (n : ℕ) × ((k : Text)
          → get k (watch_round x s).0.reflector.resources
            ≡ after_events k (take n (events_of x.stream)) (last_item k items))
        × (s.reflector.stopping ≡ false
            → is_calm s.reflector.restart_seconds x.stream ≡ true
            → n ≡ length x.stream)
  watch_round_view x s items version h =
      let r = (list_and_update x.reply s.reflector).0 in
      let begun : Loop Body = record {
        reflector = r;
        resource_version = version;
        cur_delay = first_delay;
      } in
      let (n, view, whole) = watch_stream_view x.stream begun in
      let (fresh, same, kept) = listed_fields x.reply s.reflector items version h in
      (
        n,
        λ k.
            rw (resources-watch_round x s, attempt_listed x s items version h)
              (view k
                ∙ ap (after_events k (take n (events_of x.stream)))
                    (ap (get k) fresh ∙ get-from_items_nil k items)),
        λ on calm. whole (watch_stream_calm x.stream begun (same ∙ on) (rw kept calm)),
      )
