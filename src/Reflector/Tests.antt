-- ===== src/Reflector/Tests.antt =====
-- Runs of reflector.py, and instances of the theorems, with resources without a body.
use kubespawner.Prelude.{ℕ, ◌≡◌, refl, inr, true, false, none, List, [], ◌∷◌, arith, take}
use kubespawner.Text.{Text, codes, text_eq}
use kubespawner.Dict.{get, insert, pop}
use kubespawner.Reflector.{
  Resource, Reflector, Delivery, Round, Loop, listed, refused, raised, deleted, changed,
  watch_round, watch_rounds, watch_and_update, start, gave_up, stopped, no_task, pending,
  any_version, first_delay, other, attempt, attempt_after, list_and_update, from_items,
  watch_stream, apply_event, handle,
}
use kubespawner.Reflector.View.{last_item, after_events, events_of, is_calm, watch_round_view}
use kubespawner.Reflector.Consistency.{IsKeyed, watch_and_update-IsKeyed}
use kubespawner.Reflector.Backoff.{IsFailing, AllFailing, refused_call, watch_and_update_gives_up}
use kubespawner.Reflector.Lifecycle.{watch_rounds_stopped, start-Started, Started}

abbrev pod : Text → Text → Resource (Unit {0})
pod name version = record {
  namespace = codes "jhub";
  name = name;
  resource_version = version;
  body = tt;
}

abbrev fresh : Reflector (Unit {0})
fresh = record {
  restart_seconds = 30;
  has_on_failure = true;
  resources = [];
  first_load_future = pending;
  watch_task = no_task;
  stopping = false;
  failures = 0;
}

abbrev items : List (Resource (Unit {0}))
items = pod (codes "alex") (codes "1") ∷ pod (codes "sam") (codes "2") ∷ []

abbrev stream : List (Delivery (Unit {0}))
stream =
    record {
      event = changed (pod (codes "alex") (codes "3"));
      stop_called = false;
      watch_duration = 1;
    }
    ∷ record {
      event = deleted (pod (codes "sam") (codes "4"));
      stop_called = false;
      watch_duration = 2;
    }
    ∷ []

abbrev calm_round : Round (Unit {0})
calm_round = record {
  reply = listed items (codes "2");
  stream = stream;
  stream_error = none;
  cancelled_in_sleep = false;
  stop_called = false;
}

abbrev failing_round : Round (Unit {0})
failing_round = record {
  reply = refused 500;
  stream = [];
  stream_error = none;
  cancelled_in_sleep = false;
  stop_called = false;
}

abbrev stopping_round : Round (Unit {0})
stopping_round = record {
  reply = raised other;
  stream = [];
  stream_error = none;
  cancelled_in_sleep = true;
  stop_called = true;
}

abbrev loop : Loop (Unit {0})
loop = record { reflector = fresh; resource_version = any_version; cur_delay = first_delay }

abbrev two_failures : List (Round (Unit {0}))
two_failures = failing_round ∷ failing_round ∷ []

abbrev nine_failures : List (Round (Unit {0}))
nine_failures =
    failing_round ∷ failing_round ∷ failing_round ∷ failing_round ∷ failing_round ∷ failing_round
    ∷ failing_round ∷ failing_round ∷ failing_round ∷ []

fails : IsFailing failing_round
fails = refused_call 500 refl refl refl

two-AllFailing : AllFailing two_failures
two-AllFailing = (fails, (fails, tt))

nine-AllFailing : AllFailing nine_failures
nine-AllFailing =
    (fails, (fails, (fails, (fails, (fails, (fails, (fails, (fails, (fails, tt)))))))))

watch_round_view_example :
    (n : ℕ) × ((k : Text)
      → get k (watch_round calm_round loop).0.reflector.resources
        ≡ after_events k (take n (events_of stream)) (last_item k items))
    × (false ≡ false → is_calm 30 stream ≡ true → n ≡ 2)
watch_round_view_example = watch_round_view calm_round loop items (codes "2") refl

watch_and_update-IsKeyed_example :
    IsKeyed (watch_and_update (calm_round ∷ failing_round ∷ []) fresh).0.reflector.resources
watch_and_update-IsKeyed_example =
    watch_and_update-IsKeyed (calm_round ∷ failing_round ∷ []) fresh refl

watch_and_update_gives_up_example :
    ((watch_and_update nine_failures fresh).1 ≡ gave_up)
    × ((watch_and_update nine_failures fresh).0.reflector.failures ≡ 1)
watch_and_update_gives_up_example =
    watch_and_update_gives_up nine_failures fresh nine-AllFailing refl (omega arith)

watch_rounds_stopped_example : (watch_rounds (stopping_round ∷ calm_round ∷ []) loop).1 ≡ stopped
watch_rounds_stopped_example = watch_rounds_stopped stopping_round (calm_round ∷ []) loop (inr refl)

start-Started_example : Started (refused 403) fresh (start (refused 403) fresh)
start-Started_example = start-Started (refused 403) fresh (λ e. cc e)

-- Deleting and changing pods.
stream_seen : get (codes "jhub/sam") (watch_round calm_round loop).0.reflector.resources ≡ none
unfolding watch_round attempt list_and_update from_items watch_stream apply_event handle
    attempt_after text_eq get insert pop
stream_seen = refl
