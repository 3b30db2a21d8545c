-- ===== src/Spawner/Stop/Exited.antt =====
-- The loop of `poll` over the containers.
use kubespawner.Prelude.{
  ℕ, ◌≡◌, refl, sym, ◌∙◌, ap, Bool, true, false, none, some, List, [], ◌∷◌, ◌++◌, inl, inr,
  Bool-cases, not, all, all-uncons, arith,
}
use kubespawner.Text.{codes, text_eq}
use kubespawner.Spawner.Defs.{Pod, value, ContainerStatus}
use kubespawner.Spawner.Stop.{exit_code}

abbrev pub is_notebook : ContainerStatus → Bool
is_notebook x = text_eq x.name (codes "notebook")

-- The first container called "notebook" has terminated with the exit code `n`.
pub record HasExited (xs : List ContainerStatus) (n : ℕ) : Type 0 where
  pub before : List ContainerStatus
  pub notebook : ContainerStatus
  pub after : List ContainerStatus
  pub split : xs ≡ before ++ (notebook ∷ after)
  pub others : all (λ (x : ContainerStatus). not (is_notebook x)) before ≡ true
  pub named : is_notebook notebook ≡ true
  pub code : notebook.terminated ≡ some n

pub exited : (xs : List ContainerStatus) (n : ℕ) → exit_code xs ≡ some n → HasExited xs n
unfolding exit_code all
exited [] n h = cc h
exited (x ∷ xs) n h = elim (Bool-cases (is_notebook x)) [
  | inl e ↦ record {
    before = [];
    notebook = x;
    after = xs;
    split = refl;
    others = refl;
    named = e;
    code = ground (arith, h, e);
  }
  | inr e ↦
      let r = exited xs n (ground (arith, h, e)) in
      record {
        before = x ∷ r.before;
        notebook = r.notebook;
        after = r.after;
        split = ap (λ ys. x ∷ ys) r.split;
        others = ground (arith, r.others, e);
        named = r.named;
        code = r.code;
      }
]

exit_code_found :
    (before after : List ContainerStatus) (x : ContainerStatus) (n : ℕ)
    → all (λ (y : ContainerStatus). not (is_notebook y)) before ≡ true
    → is_notebook x ≡ true
    → x.terminated ≡ some n
    → exit_code (before ++ (x ∷ after)) ≡ some n
unfolding exit_code
exit_code_found [] after x n others named code = rw named code
exit_code_found (y ∷ ys) after x n others named code =
    let (plain, rest) = all-uncons (λ (z : ContainerStatus). not (is_notebook z)) y ys others in
    let other : is_notebook y ≡ false = ground (arith, plain) in
    rw other (exit_code_found ys after x n rest named code)

-- Otherwise it has not.
pub not_exited : (xs : List ContainerStatus) (n : ℕ) → exit_code xs ≡ none → ¬ HasExited xs n
not_exited xs n h e =
    let found = exit_code_found e.before e.after e.notebook n e.others e.named e.code in
    let both : none ≡ some n = sym h ∙ (ap exit_code e.split ∙ found) in cc both

-- A pending pod, or one whose notebook container has not terminated.
pub data Alive (pod : Pod) : Type 0 where
  is_pending : pod.phase ≡ codes "Pending" → Alive pod
  has_statuses :
      (xs : List ContainerStatus)
      → pod.container_statuses ≡ value xs
      → ((n : ℕ) → ¬ HasExited xs n)
      → Alive pod
