-- ===== src/Shared/Replacing.antt =====
-- `_start_reflector` with `replace=True`, when the new reflector loads and when it does not.
use kubespawner.Prelude.{ℕ, ◌<◌, ◌≡◌, refl, ◌∙◌, ap, true, false, some, List, [], arith, ◌==◌}
use kubespawner.Reflector
use kubespawner.Reflector.{
  Reflector, ListReply, listed, refused, raised, from_items, running, no_task, is_done,
  api_exception, list_handler, cancelled,
}
use kubespawner.Reflector.Init.{Options}
use kubespawner.Shared.{
  find, assign, reflector_key, Shared, Owner, returned, failed_with, from_reflector, enter,
  open_reflector, loaded, start_failure, start_reflector,
}
use kubespawner.Shared.Steps.{key_eq_iff, find-assign}

module _ {Body : Type 0} (o : Owner) (options : Options) (s : Shared Body) (p : ℕ)
    (there : find (reflector_key o options.kind) s.table ≡ some p) (old : p < s.next) where
  -- After a first listing that succeeds, the call returns the new reflector; this is in the table,
  -- watches, has loaded and has the listed resources. The previous one is told to stop and its task
  -- is dropped.
  pub replace_loaded :
      (items : List (Reflector.Resource Body)) (version : _)
      → let r = start_reflector o true options (listed items version) s in
        let new = r.0.object s.next in
        let previous = r.0.object p in
        (r.1 ≡ returned s.next)
        × (find (reflector_key o options.kind) r.0.table ≡ some s.next)
        × (new.watch_task ≡ running)
        × (is_done new.first_load_future ≡ true)
        × (new.resources ≡ from_items [] items)
        × (previous.stopping ≡ true)
        × (previous.watch_task ≡ no_task)
  unfolding start_reflector enter open_reflector loaded Reflector.start Reflector.list_and_update
      Reflector.stop
  replace_loaded items version =
      let key = reflector_key o options.kind in
      let self : (s.next == s.next) ≡ true = ground arith in
      let own : (p == p) ≡ true = ground arith in
      let left : (s.next == p) ≡ false = ground (arith, old) in
      let right : (p == s.next) ≡ false = ground (arith, old) in
      let found : find key (assign key s.next s.table) ≡ some s.next =
        find-assign key key s.next s.table ∙ rw ((key_eq_iff key key).1 refl) refl in
      rw (there, self, right, left, own) (rw self (refl, found, refl, refl, refl, refl, refl))

  -- Without user namespaces, after a first listing that the API server refuses, the call raises the
  -- error, and leaves the reflector that failed in the table and the previous one as it was. The
  -- next call without `replace` returns the one that failed, with no listing: it does not watch and
  -- has no resources.
  pub replace_refused :
      o.enable_user_namespaces ≡ false
      → (status : ℕ) (later : ListReply Body)
      → let t = (start_reflector o true options (refused status) s).0 in
        ((start_reflector o true options (refused status) s).1
          ≡ failed_with (from_reflector (api_exception status)))
        × (t.object p ≡ s.object p)
        × (start_reflector o false options later t ≡ (t, returned s.next))
        × ((t.object s.next).watch_task ≡ no_task)
        × ((t.object s.next).resources ≡ [])
  unfolding start_reflector enter open_reflector loaded Reflector.start Reflector.list_and_update
  replace_refused own status later =
      let key = reflector_key o options.kind in
      let self : (s.next == s.next) ≡ true = ground arith in
      let left : (s.next == p) ≡ false = ground (arith, old) in
      let found : find key (assign key s.next s.table) ≡ some s.next =
        find-assign key key s.next s.table ∙ rw ((key_eq_iff key key).1 refl) refl in
      rw (there, self)
        (
          ap (λ b. failed_with (start_failure b (api_exception status))) own,
          rw left refl,
          rw (found, self) refl,
          rw self refl,
          rw self refl,
        )
