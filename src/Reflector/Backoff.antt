-- ===== src/Reflector/Backoff.antt =====
-- Retrying after errors: the delay doubles from 0.1 s, and the ninth failure in a row ends the
-- watch.
use kubespawner.Prelude.{
  ℕ, zero, suc, ◌+◌, ◌*◌, ◌≤◌, ◌<◌, ◌≡◌, refl, ◌∙◌, ap, true, false, List, [], ◌∷◌, arith,
  if◌then◌else◌, length, ltb,
}
use native.Mathlib.Decide.{dec_le}
use native.Mathlib.Nat.{pow-suc}
use Prim.Native.Nat.{◌^◌}
use kubespawner.Reflector.{
  Reflector, Round, Loop, refused, raised, list_and_update, attempt, handle, back_off, watch_round,
  watch_rounds, watch_and_update, any_version, first_delay, max_delay, watching, gave_up, proceed,
  returned, api_exception, other,
}

-- The delay after `n` doublings.
abbrev doubled : ℕ → ℕ → ℕ
doubled d zero = d
doubled d (suc n) = doubled (d * 2) n

doubled-le : (d n : ℕ) → d ≤ doubled d n
doubled-le d zero = omega arith
doubled-le d (suc n) = omega (arith, doubled-le (d * 2) n)

doubled_mono : (d m n : ℕ) → m ≤ n → doubled d m ≤ doubled d n
doubled_mono d zero n h = doubled-le d n
doubled_mono d (suc m) zero h = absurd (omega arith)
doubled_mono d (suc m) (suc n) h = doubled_mono (d * 2) m n (omega arith)

doubled-eq-pow : (d n : ℕ) → doubled d n ≡ d * 2 ^ n
doubled-eq-pow d zero = omega arith
doubled-eq-pow d (suc n) =
    rw (doubled-eq-pow (d * 2) n) (omega (arith, ap (λ (t : ℕ). d * t) (pow-suc 2 n)))

module _ {Body : Type 0} where
  -- The list call fails with anything but a read timeout or a cancellation, and nobody stops or
  -- cancels the watch.
  pub data IsFailing (x : Round Body) : Type 0 where
    refused_call :
        (status : ℕ)
        → x.reply ≡ refused status
        → x.cancelled_in_sleep ≡ false
        → x.stop_called ≡ false
        → IsFailing x
    api_error :
        (status : ℕ)
        → x.reply ≡ raised (api_exception status)
        → x.cancelled_in_sleep ≡ false
        → x.stop_called ≡ false
        → IsFailing x
    any_error :
        x.reply ≡ raised other → x.cancelled_in_sleep ≡ false → x.stop_called ≡ false → IsFailing x

  abbrev pub AllFailing : List (Round Body) → Type 0
  AllFailing [] = Unit
  AllFailing (x ∷ xs) = IsFailing x × AllFailing xs

  attempt_failing :
      (x : Round Body) (s : Loop Body)
      → IsFailing x
      → handle (attempt x s).1 x.cancelled_in_sleep (attempt x s).0 ≡ back_off false s
  unfolding attempt list_and_update handle
  attempt_failing x s (refused_call status e c n) = rw (e, c)
  attempt_failing x s (api_error status e c n) = rw (e, c)
  attempt_failing x s (any_error e c n) = rw (e, c)

  not_stopped : (x : Round Body) → IsFailing x → x.stop_called ≡ false
  not_stopped x (refused_call status e c n) = n
  not_stopped x (api_error status e c n) = n
  not_stopped x (any_error e c n) = n

  -- What a failing round does while the delay is short enough.
  record GoesOn (s s' : Loop Body) : Type 0 where
    doubled : s'.cur_delay ≡ s.cur_delay * 2
    on : s'.reflector.stopping ≡ false
    failures : s'.reflector.failures ≡ s.reflector.failures
    has_on_failure : s'.reflector.has_on_failure ≡ s.reflector.has_on_failure

  failing-GoesOn :
      (x : Round Body) (s : Loop Body)
      → IsFailing x
      → s.reflector.stopping ≡ false
      → s.cur_delay * 2 ≤ max_delay
      → ((watch_round x s).1 ≡ proceed (s.cur_delay * 2)) × GoesOn s (watch_round x s).0
  unfolding watch_round
  failing-GoesOn x s h on short =
      let fits : ltb max_delay (s.cur_delay * 2) ≡ false = ground arith in
      rw (attempt_failing x s h, not_stopped x h)
        (unfold back_off in
          rw (fits, on)
            (refl, record { doubled = refl; on = refl; failures = refl; has_on_failure = refl }))

  failing_gives_up :
      (x : Round Body) (s : Loop Body)
      → IsFailing x
      → s.reflector.stopping ≡ false
      → max_delay < s.cur_delay * 2
      → ((watch_round x s).1 ≡ returned)
        × ((watch_round x s).0.reflector.failures
            ≡ s.reflector.failures + (if s.reflector.has_on_failure then 1 else 0))
  unfolding watch_round
  failing_gives_up x s h on long =
      let past : ltb max_delay (s.cur_delay * 2) ≡ true = ground arith in
      rw (attempt_failing x s h, not_stopped x h)
        (unfold back_off in rw past (ground arith, ground arith))

  rounds_go_on :
      (xs : List (Round Body)) (s : Loop Body)
      → AllFailing xs
      → s.reflector.stopping ≡ false
      → doubled s.cur_delay (length xs) ≤ max_delay
      → ((watch_rounds xs s).1 ≡ watching)
        × ((watch_rounds xs s).0.cur_delay ≡ doubled s.cur_delay (length xs))
  unfolding watch_rounds
  rounds_go_on [] s f on h = (refl, refl)
  rounds_go_on (x ∷ xs) s f on h =
      let s' = (watch_round x s).0 in
      let bound = doubled-le (s.cur_delay * 2) (length xs) in
      let (e, g) = failing-GoesOn x s f.0 on (omega (arith, bound)) in
      let (status, delay) = rounds_go_on xs s' f.1 g.on (rw g.doubled h) in
      rw e (status, delay ∙ ap (λ d. doubled d (length xs)) g.doubled)

  rounds_give_up :
      (xs : List (Round Body)) (s : Loop Body)
      → AllFailing xs
      → s.reflector.stopping ≡ false
      → s.cur_delay ≤ max_delay
      → max_delay < doubled s.cur_delay (length xs)
      → ((watch_rounds xs s).1 ≡ gave_up)
        × ((watch_rounds xs s).0.reflector.failures
            ≡ s.reflector.failures + (if s.reflector.has_on_failure then 1 else 0))
  unfolding watch_rounds
  rounds_give_up [] s f on fits h = absurd (omega arith)
  rounds_give_up (x ∷ xs) s f on fits h = elim (dec_le (s.cur_delay * 2) max_delay) [
    | yes short ↦
        let s' = (watch_round x s).0 in
        let (e, g) = failing-GoesOn x s f.0 on short in
        let (status, count) = rounds_give_up xs s' f.1 g.on (rw g.doubled short) (rw g.doubled h) in
        rw e (status, cc (count, g.failures, g.has_on_failure))
    | no long ↦ let (e, count) = failing_gives_up x s f.0 on (omega arith) in rw e (refl, count)
  ]

  -- After at most eight failing list calls in a row, while nobody stops it, the watch goes on, and
  -- the delay in tenths of a second is 2 to the power of their number.
  pub watch_and_update_retries :
      (xs : List (Round Body)) (r : Reflector Body)
      → AllFailing xs
      → r.stopping ≡ false
      → length xs ≤ 8
      → ((watch_and_update xs r).1 ≡ watching)
        × ((watch_and_update xs r).0.cur_delay ≡ 2 ^ length xs)
  unfolding watch_and_update
  watch_and_update_retries xs r f on h =
      let (status, delay) =
        rounds_go_on xs
          (record { reflector = r; resource_version = any_version; cur_delay = first_delay }) f on
          (omega (arith, doubled_mono 1 (length xs) 8 h)) in
      (status, delay ∙ doubled-eq-pow 1 (length xs) ∙ omega arith)

  -- After nine or more failing list calls in a row, while nobody stops it, the watch has given up,
  -- and `on_failure` has been called once, if it is set.
  pub watch_and_update_gives_up :
      (xs : List (Round Body)) (r : Reflector Body)
      → AllFailing xs
      → r.stopping ≡ false
      → 9 ≤ length xs
      → ((watch_and_update xs r).1 ≡ gave_up)
        × ((watch_and_update xs r).0.reflector.failures
            ≡ r.failures + (if r.has_on_failure then 1 else 0))
  unfolding watch_and_update
  watch_and_update_gives_up xs r f on h =
      rounds_give_up xs
        (record { reflector = r; resource_version = any_version; cur_delay = first_delay }) f on
        (omega arith) (omega (arith, doubled_mono 1 9 (length xs) h))
