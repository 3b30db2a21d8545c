-- ===== src/Objects/Hosts.antt =====
-- The hosts of an ingress: all that are asked for, each once.
use kubespawner.Prelude.{
  Each, drop, ◌≡◌, ◌∙◌, sym, ap, refl, inl, inr, Bool-cases, Bool, true, false, not, ◌||◌, some,
  List, [], ◌∷◌, ◌++◌, map, arith,
}
use kubespawner.Text.{starts_with, codes, Text, text_eq, text_eq_iff}
use kubespawner.Utils.Hosts.{host_matching, split_dots, texts_eq_iff}
use kubespawner.Objects.Env.{member}
use kubespawner.Objects.Ingress.{Specification, append_new, collect_hosts, with_host, rule_hosts}

-- No text stands twice.
abbrev pub AreDistinct : List Text → Type 0
AreDistinct [] = Unit
AreDistinct (t ∷ ts) = (member t ts ≡ false) × AreDistinct ts

member_snoc : (d t : Text) (ts : List Text) → member d (ts ++ t ∷ []) ≡ (member d ts || text_eq t d)
unfolding member
member_snoc d t [] = ground arith
member_snoc d t (u ∷ ts) = ground (arith, member_snoc d t ts)

snoc-AreDistinct :
    (t : Text) (ts : List Text) → member t ts ≡ false → AreDistinct ts → AreDistinct (ts ++ t ∷ [])
unfolding member
snoc-AreDistinct t [] h d = (refl, tt)
snoc-AreDistinct t (u ∷ ts) h (fresh, d) = (
  member_snoc u t ts ∙ ground (arith, h, fresh, text_eq_iff t u, text_eq_iff u t),
  snoc-AreDistinct t ts (ground (arith, h)) d,
)

append_new-AreDistinct :
    (t : Text) (ts : List Text) → AreDistinct ts → AreDistinct (append_new t ts)
unfolding append_new
append_new-AreDistinct t ts h = elim (Bool-cases (member t ts)) [
  | inl there ↦ rw there h
  | inr new ↦ rw new (snoc-AreDistinct t ts new h)
]

member-append_new :
    (d t : Text) (ts : List Text) → member d (append_new t ts) ≡ (member d ts || text_eq t d)
unfolding append_new
member-append_new d t ts = elim (Bool-cases (member t ts)) [
  | inl there ↦ rw there (elim (Bool-cases (text_eq t d)) [
    | inl same ↦ ground (arith, same, there, ap (λ u. member u ts) ((text_eq_iff t d).0 same))
    | inr other ↦ ground (arith, other)
  ])
  | inr new ↦ rw new (member_snoc d t ts)
]

host_matching_self : (h : Text) → host_matching h h ≡ true
unfolding host_matching
host_matching_self h = elim (Bool-cases (starts_with (codes "*.") h)) [
  | inl wild ↦ rw wild ((texts_eq_iff (drop 1 (split_dots h)) (drop 1 (split_dots h))).1 refl)
  | inr plain ↦ rw plain ((text_eq_iff h h).1 refl)
]

abbrev pub spec_host : Specification → Text
spec_host s = s.host

-- The specification's host is one of the hosts, or the route's host is one of those it stands for.
abbrev pub IsServed : (routespec_host : Text) → List Text → Specification → Type 0
IsServed routespec_host hosts s =
    (member s.host hosts || host_matching routespec_host s.host) ≡ true

-- What the loop makes of the specifications that are left.
record Collected (host : Text) (specs : List Specification) (hosts : List Text)
    (r : List Text × Bool) : Type 0 where
  distinct : AreDistinct (r.0)
  pending : member host (r.0) ≡ not (r.1)
  kept : (d : Text) → member d hosts ≡ true → member d (r.0) ≡ true
  served : Each (IsServed host (r.0)) specs
  asked :
      (d : Text)
      → member d (r.0) ≡ true
      → (member d hosts || (text_eq host d || member d (map spec_host specs))) ≡ true

-- One more specification in front, from what its step does to the hosts.
one_more :
    (host : Text) (s : Specification) (specs : List Specification) (hosts next : List Text)
    (r : List Text × Bool)
    → ((d : Text) → member d hosts ≡ true → member d next ≡ true)
    → ((d : Text)
        → member d next ≡ true
        → (member d hosts || (text_eq host d || text_eq s.host d)) ≡ true)
    → (member s.host next || host_matching host s.host) ≡ true
    → Collected host specs next r
    → Collected host (s ∷ specs) hosts r
unfolding member
one_more host s specs hosts next r grows asks here c = record {
  distinct = c.distinct;
  pending = c.pending;
  kept = λ d i. c.kept d (grows d i);
  served = (ground (arith, here, c.kept s.host), c.served);
  asked = λ d i. ground (arith, c.asked d i, asks d);
}

unlike_more :
    (host : Text) (s : Specification) (specs : List Specification) (hosts : List Text)
    (r : List Text × Bool)
    → Collected host specs (append_new s.host hosts) r
    → Collected host (s ∷ specs) hosts r
unlike_more host s specs hosts r c =
    one_more host s specs hosts (append_new s.host hosts) r
      (λ d i. member-append_new d s.host hosts ∙ ground (arith, i))
      (λ d i. ground (arith, sym (member-append_new d s.host hosts) ∙ i))
      (ground (arith, member-append_new s.host s.host hosts, (text_eq_iff s.host s.host).1 refl)) c

unlike_pending :
    (host : Text) (s : Specification) (hosts : List Text)
    → host_matching host s.host ≡ false
    → member host (append_new s.host hosts) ≡ member host hosts
unlike_pending host s hosts unlike =
    member-append_new host s.host hosts ∙ elim (Bool-cases (text_eq s.host host)) [
      | inl same ↦ absurd (
          let matches : host_matching host s.host ≡ true =
            ap (host_matching host) ((text_eq_iff s.host host).0 same) ∙ host_matching_self host in
          cc)
      | inr other ↦ ground (arith, other)
    ]

collect_hosts-Collected :
    (host : Text) (specs : List Specification) (hosts : List Text) (add : Bool)
    → AreDistinct hosts
    → member host hosts ≡ not add
    → Collected host specs hosts (collect_hosts host specs hosts add)
unfolding collect_hosts
collect_hosts-Collected host [] hosts add distinct pending = record {
  distinct = distinct;
  pending = pending;
  kept = λ d i. i;
  served = tt;
  asked = λ d i. ground (arith, i);
}
collect_hosts-Collected host (s ∷ specs) hosts true distinct pending =
    elim (Bool-cases (host_matching host s.host)) [
      | inl matches ↦ rw matches (
          one_more host s specs hosts (hosts ++ host ∷ [])
            (collect_hosts host specs (hosts ++ host ∷ []) false)
            (λ d i. member_snoc d host hosts ∙ ground (arith, i))
            (λ d i. ground (arith, sym (member_snoc d host hosts) ∙ i)) (ground (arith, matches))
            (collect_hosts-Collected host specs (hosts ++ host ∷ []) false
              (snoc-AreDistinct host hosts pending distinct)
              (member_snoc host host hosts
                ∙ ground (arith, pending, (text_eq_iff host host).1 refl))))
      | inr unlike ↦ rw unlike (
          unlike_more host s specs hosts (collect_hosts host specs (append_new s.host hosts) true) (
            collect_hosts-Collected host specs (append_new s.host hosts) true
              (append_new-AreDistinct s.host hosts distinct)
              (unlike_pending host s hosts unlike ∙ pending)))
    ]
collect_hosts-Collected host (s ∷ specs) hosts false distinct pending =
    elim (Bool-cases (host_matching host s.host)) [
      | inl matches ↦ rw matches (
          one_more host s specs hosts hosts (collect_hosts host specs hosts false) (λ d i. i)
            (λ d i. ground (arith, i)) (ground (arith, matches))
            (collect_hosts-Collected host specs hosts false distinct pending))
      | inr unlike ↦ rw unlike (
          unlike_more host s specs hosts (collect_hosts host specs (append_new s.host hosts) false)
            (collect_hosts-Collected host specs (append_new s.host hosts) false
              (append_new-AreDistinct s.host hosts distinct)
              (unlike_pending host s hosts unlike ∙ pending)))
    ]

-- The hosts of the rules, and what is asked for.
pub record IsComplete (host : Text) (specs : List Specification) (hosts : List Text) : Type 0 where
  pub distinct : AreDistinct hosts
  pub has_host : member host hosts ≡ true
  pub served : Each (IsServed host hosts) specs
  pub asked :
      (d : Text) → member d hosts ≡ true → (text_eq host d || member d (map spec_host specs)) ≡ true

IsServed-cons :
    (host : Text) (specs : List Specification) (hosts : List Text)
    → Each (IsServed host hosts) specs
    → Each (IsServed host (host ∷ hosts)) specs
unfolding member
IsServed-cons host [] hosts h = tt
IsServed-cons host (s ∷ specs) hosts (here, h) =
    (ground (arith, here), IsServed-cons host specs hosts h)

with_host-IsComplete :
    (host : Text) (specs : List Specification) (hosts : List Text) (add : Bool)
    → Collected host specs [] (hosts, add)
    → IsComplete host specs (with_host host (hosts, add))
unfolding with_host member
with_host-IsComplete host specs hosts true c = record {
  distinct = (c.pending, c.distinct);
  has_host = ground (arith, (text_eq_iff host host).1 refl);
  served = IsServed-cons host specs hosts c.served;
  asked = λ d i. ground (arith, i, c.asked d);
}
with_host-IsComplete host specs hosts false c = record {
  distinct = c.distinct;
  has_host = c.pending;
  served = c.served;
  asked = λ d i. c.asked d i;
}

-- For a route with a host, there is one rule for each of a list of hosts without repetition. The
-- route's host is among them; each host of the specifications is, unless the route's host matches
-- it; and there is no other.
pub rule_hosts-IsComplete :
    (host : Text) (specs : List Specification)
    → (hosts : List Text) × (rule_hosts (some host) specs ≡ map some hosts)
      × IsComplete host specs hosts
unfolding rule_hosts member
rule_hosts-IsComplete host specs =
    let r = collect_hosts host specs [] true in
    (
      with_host host r,
      refl,
      with_host-IsComplete host specs (r.0) (r.1)
          (collect_hosts-Collected host specs [] true tt refl),
    )
