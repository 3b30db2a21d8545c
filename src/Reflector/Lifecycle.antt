-- ===== src/Reflector/Lifecycle.antt =====
-- Starting and stopping a reflector.
use kubespawner.Prelude.{
  ◌≡◌, ◌≢◌, refl, ◌∙◌, Bool, true, ◌||◌, ◌⊎◌, inl, inr, Option, none, some, List, [], ◌∷◌, arith,
}
use kubespawner.Text.{Text}
use kubespawner.Reflector.{
  Exn, Result, Reflector, ListReply, Delivery, Round, Loop, listed, refused, raised,
  list_and_update, apply_event, call_stop, watch_stream, attempt, attempt_after, handle, back_off,
  watch_round, watch_rounds, from_items, start, ok, err, first_delay, stopped, running, is_done,
  list_handler, cancelled,
}
use kubespawner.Reflector.View.{watch_stream_cases, apply_event_keeps}

or_true : (b : Bool) {c : Bool} → c ≡ true → (b || c) ≡ true
or_true b h = ground arith

module _ {Body : Type 0} where
  stopping-watch_stream :
      (ds : List (Delivery Body)) (s : Loop Body)
      → s.reflector.stopping ≡ true
      → (watch_stream ds s).0.reflector.stopping ≡ true
  stopping-watch_stream [] s h = unfold watch_stream in h
  stopping-watch_stream (d ∷ ds) s h =
      let s' = call_stop d.stop_called (apply_event d.event s) in
      let now : s'.reflector.stopping ≡ true = ground (arith, (apply_event_keeps d.event s).0, h) in
      elim (watch_stream_cases d ds s) [
        | inl e ↦ rw e now
        | inr e ↦ rw e (stopping-watch_stream ds s' now)
      ]

  stopping-list_and_update :
      (reply : ListReply Body) (r : Reflector Body)
      → (list_and_update reply r).0.stopping ≡ r.stopping
  unfolding list_and_update
  stopping-list_and_update (listed items version) r = refl
  stopping-list_and_update (refused status) r = refl
  stopping-list_and_update (raised e) r = refl

  stopping-attempt_after :
      (x : Round Body) (s : Loop Body) (r : Reflector Body) (listing : Result Text)
      → r.stopping ≡ true
      → (attempt_after x s r listing).0.reflector.stopping ≡ true
  unfolding attempt_after
  stopping-attempt_after x s r (err e) h = h
  stopping-attempt_after x s r (ok version) h =
      stopping-watch_stream x.stream
        (record { reflector = r; resource_version = version; cur_delay = first_delay }) h

  stopping-handle :
      (e : Option Exn) (c : Bool) (s : Loop Body)
      → (handle e c s).0.reflector.stopping ≡ s.reflector.stopping
  unfolding handle back_off
  stopping-handle none c s = refl
  stopping-handle (some Exn.read_timeout) c s = refl
  stopping-handle (some Exn.cancelled) c s = refl
  stopping-handle (some e) c s = ground arith

  stopping-attempt :
      (x : Round Body) (s : Loop Body)
      → s.reflector.stopping ≡ true
      → (attempt x s).0.reflector.stopping ≡ true
  unfolding attempt
  stopping-attempt x s h =
      let (r, listing) = list_and_update x.reply s.reflector in
      stopping-attempt_after x s r listing (stopping-list_and_update x.reply s.reflector ∙ h)

  -- Once `stop` has been called, before a round or at any time in it, the loop ends with that round
  -- and raises nothing, whatever the round meets: an error, a cancellation or the last retry.
  pub watch_rounds_stopped :
      (x : Round Body) (xs : List (Round Body)) (s : Loop Body)
      → (s.reflector.stopping ≡ true) ⊎ (x.stop_called ≡ true)
      → (watch_rounds (x ∷ xs) s).1 ≡ stopped
  unfolding watch_rounds watch_round
  watch_rounds_stopped x xs s (inl h) =
      rw (
        stopping-handle (attempt x s).1 x.cancelled_in_sleep (attempt x s).0,
        stopping-attempt x s h,
      )
  watch_rounds_stopped x xs s (inr h) =
      rw (
        or_true (handle (attempt x s).1 x.cancelled_in_sleep (attempt x s).0).0.reflector.stopping
          h)

  -- What `start` promises, by what the first listing gives.
  abbrev pub Started : ListReply Body → Reflector Body → Reflector Body × Result (Unit {0}) → Type 0
  Started (listed items version) r (r', result) =
      (result ≡ ok tt)
      × (r'.watch_task ≡ running)
      × (is_done r'.first_load_future ≡ true)
      × (r'.resources ≡ from_items [] items)
  Started (refused status) r (r', result) =
      (result ≡ err (Exn.api_exception status))
      × (r'.watch_task ≡ r.watch_task)
      × (is_done r'.first_load_future ≡ true)
      × (r'.resources ≡ r.resources)
  Started (raised e) r (r', result) =
      (result ≡ err (list_handler e))
      × (r'.watch_task ≡ r.watch_task)
      × (e ≢ cancelled → is_done r'.first_load_future ≡ true)
      × (r'.resources ≡ r.resources)

  -- `start` of a reflector that is not watching: after a successful listing the task runs, the
  -- first load is done and the resources are the listing's. When the listing is
  -- refused, the `ApiException` is raised. When it raises, an `ApiException` becomes an
  -- `UnboundLocalError`, and every other error is raised as it is. After either no task is started,
  -- the resources stay, and whoever awaits the first load is released, unless `start` was cancelled.
  pub start-Started :
      (reply : ListReply Body) (r : Reflector Body)
      → r.watch_task ≢ running
      → Started reply r (start reply r)
  unfolding start list_and_update
  start-Started (listed items version) r h = ground arith
  start-Started (refused status) r h = ground arith
  start-Started (raised e) r h = (ground arith, ground arith, λ n. ground arith, ground arith)
