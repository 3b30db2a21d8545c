-- ===== src/Reflector.antt =====
-- kubespawner/reflector.py: a local copy of a set of resources, kept by listing and watching.
-- What the API server and the clock do is given as a list of rounds of the watch loop. Delays are
-- in tenths of a second, and a resource has what the reflector reads of it, and a body.
pub mod Init
pub mod View
pub mod Consistency
pub mod Backoff
pub mod Lifecycle
mod Tests
use kubespawner.Prelude.{
  ℕ, ◌+◌, ◌*◌, ◌≡◌, Bool, true, false, not, ◌&&◌, ◌||◌, Option, none, some, List, [], ◌∷◌, ◌++◌,
  ltb, leb, if◌then◌else◌, is_empty, map,
}
use kubespawner.Text.{Text, codes, text_eq, join}
use kubespawner.Dict.{Dict, get, insert, pop}

-- The exceptions that the module tells apart. `unbound_local` is what the handler of
-- `_list_and_update` raises when it reads a variable that the failed call did not assign.
pub data Exn : Type 0 where
  api_exception : ℕ → Exn
  unbound_local : Exn
  read_timeout : Exn
  cancelled : Exn
  runtime_error : Exn
  other : Exn

pub data Result {ℓ} (A : Type ℓ) : Type ℓ where
  ok : A → Result A
  err : Exn → Result A

-- `asyncio.Future`, as far as `done`, `set_result` and `set_exception` see it.
pub data Future : Type 0 where
  pending : Future
  done : Future
  failed : Exn → Future

abbrev pub is_done : Future → Bool
is_done pending = false
is_done done = true
is_done (failed e) = true

-- `self.watch_task`
pub data WatchTask : Type 0 where
  no_task : WatchTask
  running : WatchTask
  finished : WatchTask

pub record Resource (Body : Type 0) : Type 0 where
  pub namespace : Text
  pub name : Text
  pub resource_version : Text
  pub body : Body

abbrev pub ref_key : Text → Text → Text
ref_key namespace name = namespace ++ (codes "/" ++ name)

abbrev pub key_of : {Body : Type 0} → Resource Body → Text
key_of p = ref_key p.namespace p.name

-- The configuration that the watch loop reads, and the state that it changes. `failures` counts
-- the calls of `on_failure`.
pub record Reflector (Body : Type 0) : Type 0 where
  pub restart_seconds : ℕ
  pub has_on_failure : Bool
  pub resources : Dict (Resource Body)
  pub first_load_future : Future
  pub watch_task : WatchTask
  pub stopping : Bool
  pub failures : ℕ

-- What the awaited list call gives: a response that is ok, one that is not, or an exception.
pub data ListReply (Body : Type 0) : Type 0 where
  listed : List (Resource Body) → Text → ListReply Body
  refused : ℕ → ListReply Body
  raised : Exn → ListReply Body

pub data WatchEvent (Body : Type 0) : Type 0 where
  deleted : Resource Body → WatchEvent Body
  changed : Resource Body → WatchEvent Body

-- An event of the stream, whether `stop` had been called by the time the loop asks, and the
-- seconds since the watch was opened.
pub record Delivery (Body : Type 0) : Type 0 where
  pub event : WatchEvent Body
  pub stop_called : Bool
  pub watch_duration : ℕ

-- What one round of the loop meets: the reply to the list call, the stream and the exception that
-- ends it, if any; a cancellation while the loop sleeps; and whether `stop` has been called by the
-- time of the `finally` block.
pub record Round (Body : Type 0) : Type 0 where
  pub reply : ListReply Body
  pub stream : List (Delivery Body)
  pub stream_error : Option Exn
  pub cancelled_in_sleep : Bool
  pub stop_called : Bool

-- The local variables of `_watch_and_update`, and the object.
pub record Loop (Body : Type 0) : Type 0 where
  pub reflector : Reflector Body
  pub resource_version : Text
  pub cur_delay : ℕ

-- How a round leaves the `try` statement; `slept` is the time slept before `continue`.
pub data Exit : Type 0 where
  proceed : (slept : ℕ) → Exit
  returned : Exit
  propagated : Exn → Exit
  broke : Exit

-- How the watch stands after some rounds.
pub data Status : Type 0 where
  watching : Status
  stopped : Status
  gave_up : Status
  failed_with : Exn → Status

-- `except client.ApiException` of `_list_and_update`: it reads `initial_resources_raw`.
abbrev pub list_handler : Exn → Exn
list_handler (api_exception status) = unbound_local
list_handler e = e

-- `0.1`, `30` and `"0"`
abbrev pub first_delay : ℕ
first_delay = 1

abbrev pub max_delay : ℕ
max_delay = 300

abbrev pub any_version : Text
any_version = codes "0"

module _ {Body : Type 0} where
  -- `{key: p for p in items}`: of two items with one key the later stays, in the place of the first.
  unfoldable pub from_items : Dict (Resource Body) → List (Resource Body) → Dict (Resource Body)
  from_items d [] = d
  from_items d (p ∷ items) = from_items (insert (key_of p) p d) items

  -- `_list_and_update`: the new state, and the resource version or the exception.
  unfoldable pub list_and_update : ListReply Body → Reflector Body → Reflector Body × Result Text
  list_and_update (listed items version) r = (
    record r {
      resources = from_items [] items;
      first_load_future = if is_done r.first_load_future then r.first_load_future else done;
    },
    ok version,
  )
  list_and_update (refused status) r = (r, err (api_exception status))
  list_and_update (raised e) r = (r, err (list_handler e))

  -- The body of `async for`, but for its two tests.
  unfoldable pub apply_event : WatchEvent Body → Loop Body → Loop Body
  apply_event (deleted p) s = record s {
    reflector = record s.reflector { resources = pop (key_of p) s.reflector.resources };
    cur_delay = first_delay;
  }
  apply_event (changed p) s = record s {
    reflector = record s.reflector { resources = insert (key_of p) p s.reflector.resources };
    resource_version = p.resource_version;
    cur_delay = first_delay;
  }

  abbrev pub call_stop : Bool → Loop Body → Loop Body
  call_stop b s = record s {
    reflector = record s.reflector { stopping = s.reflector.stopping || b };
  }

  -- The `async for` loop; the flag says that it ended by `break`.
  unfoldable pub watch_stream : List (Delivery Body) → Loop Body → Loop Body × Bool
  watch_stream [] s = (s, false)
  watch_stream (d ∷ ds) s =
      let s' = call_stop d.stop_called (apply_event d.event s) in
      let rest = watch_stream ds s' in
      if s'.reflector.stopping
      then (s', true)
      else if leb s'.reflector.restart_seconds d.watch_duration
      then (s', true)
      else rest

  -- The body of `try` from the listing on: the state, and the exception that leaves it.
  unfoldable pub attempt_after :
      Round Body → Loop Body → Reflector Body → Result Text → Loop Body × Option Exn
  attempt_after x s r (err e) = (record s { reflector = r }, some e)
  attempt_after x s r (ok version) =
      let (s', ended) =
        watch_stream x.stream
          (record { reflector = r; resource_version = version; cur_delay = first_delay }) in
      (s', if ended then none else x.stream_error)

  -- The body of `try`.
  unfoldable pub attempt : Round Body → Loop Body → Loop Body × Option Exn
  unfolding attempt_after
  attempt x s =
      let (r, listing) = list_and_update x.reply s.reflector in attempt_after x s r listing

  -- `except Exception`
  unfoldable pub back_off : Bool → Loop Body → Loop Body × Exit
  back_off cancelled_in_sleep s =
      let delay = s.cur_delay * 2 in
      let r = s.reflector in
      let s' = record s { resource_version = any_version; cur_delay = delay } in
      if ltb max_delay delay
      then (
        if r.has_on_failure
            then record s' { reflector = record r { failures = r.failures + 1 } }
            else s',
        returned,
      )
      else (s', if cancelled_in_sleep then propagated cancelled else proceed delay)

  -- The `except` and `else` clauses.
  unfoldable pub handle : Option Exn → Bool → Loop Body → Loop Body × Exit
  handle none c s = (s, proceed 0)
  handle (some read_timeout) c s = (s, proceed 0)
  handle (some cancelled) c s = (s, propagated cancelled)
  handle (some e) c s = back_off c s

  -- One round of `while True`; a `break` in `finally` discards a return or an exception.
  unfoldable pub watch_round : Round Body → Loop Body → Loop Body × Exit
  watch_round x s =
      let (tried, error) = attempt x s in
      let (handled, exit) = handle error x.cancelled_in_sleep tried in
      let s' = call_stop x.stop_called handled in
      (s', if s'.reflector.stopping then broke else exit)

  -- Where a round left the loop, or the rounds that follow it.
  abbrev pub after_round : Exit → Loop Body → (Loop Body → Loop Body × Status) → Loop Body × Status
  after_round (proceed slept) s rest = rest s
  after_round returned s rest = (s, gave_up)
  after_round (propagated e) s rest = (s, failed_with e)
  after_round broke s rest = (s, stopped)

  -- The loop over the rounds that are given.
  unfoldable pub watch_rounds : List (Round Body) → Loop Body → Loop Body × Status
  watch_rounds [] s = (s, watching)
  watch_rounds (x ∷ xs) s =
      let (s', exit) = watch_round x s in after_round exit s' (λ t. watch_rounds xs t)

  -- `_watch_and_update`
  unfoldable pub watch_and_update : List (Round Body) → Reflector Body → Loop Body × Status
  watch_and_update rounds r =
      watch_rounds rounds
        (record { reflector = r; resource_version = any_version; cur_delay = first_delay })

  -- `start`; `except Exception` does not catch a cancellation.
  unfoldable pub start : ListReply Body → Reflector Body → Reflector Body × Result (Unit {0})
  start reply r = elim r.watch_task [
    | running ↦ (r, err runtime_error)
    | _ ↦
        let (r', listing) = list_and_update reply r in
        elim listing [
          | ok version ↦ (record r' { watch_task = running }, ok tt)
          | err cancelled ↦ (r', err cancelled)
          | err e ↦ (
            record r' {
              first_load_future =
                  if is_done r'.first_load_future then r'.first_load_future else failed e;
            },
            err e,
          )
        ]
  ]

  -- `stop`; the wait for the cancelled task ends after five seconds at the latest.
  unfoldable pub stop : Reflector Body → Reflector Body
  stop r = record r { stopping = true; watch_task = no_task }
