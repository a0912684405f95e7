-- ===== src/Ctl/Names.antt =====
-- What `build_sans_from_config` (muxrctl/src/app/update.rs) puts into the certificate: the
-- candidates in their order, each once.
use zellimobile_server.Common.{
  String, ◌≡◌, refl, sym, ap, subst, ◌∙◌, ◌↔◌, ◌⊎◌, inl, inr, Bool, true, false, ◌||◌, List, [],
  ◌∷◌, ◌++◌, map, arith, Any, str_eq, Bool-cases, eq_iff, Option-cases,
}
use mathlib.Core.List.{append-nil, append_assoc, map-append}
use zellimobile_server.Rust.Text.{trim, is_empty}
use zellimobile_server.Rust.Text.Laws.{trim_idem}
use zellimobile_server.Rust.Ip.{Ipv4Addr, v4_text, v4_unspecified, parse_ip}
use zellimobile_server.Ctl.State.{AppState, San, ip, value, from_host}
use zellimobile_server.Ctl.Dedup.{dedup, dedup_seen, dedup_seen-eq-dedup}
use zellimobile_server.Ctl.Candidates.{
  ip_candidates, name_candidates, candidates, names_unspecified-eq, v4_unspecified-eq,
}
use zellimobile_server.Ctl.Sans.{
  Found, contains, add_new, names_unspecified, add_ip, add_ips, add_name, add_names,
  build_sans_from_config,
}

value-from_host : (s : String) → value (from_host (trim s)) ≡ trim s
unfolding value from_host
value-from_host s = elim (Option-cases (parse_ip (trim (trim s)))) [
  | inl e ↦ rw (e, from_host) (trim_idem s)
  | inr (a, e) ↦ rw (e, from_host) (trim_idem s)
]

-- What has been added is `done`, and `more` is still to come.
abbrev Adds : Found → Found → List String → Type 0
Adds f g ks =
    (more : List String)
    → map value g.sans ++ dedup_seen g.seen more
      ≡ map value f.sans ++ dedup_seen f.seen (ks ++ more)

add_new-Adds :
    (f : Found) (key : String) (san : San) → value san ≡ key → Adds f (add_new f key san) (key ∷ [])
unfolding add_new
add_new-Adds f key san e more = elim (Bool-cases (contains f.seen key)) [
  | inl seen ↦ rw (seen, add_new)
  | inr fresh ↦ rw (fresh, add_new) (rw (map-append value f.sans (san ∷ []), append_assoc, e))
]

add_ip-Adds : (f : Found) (a : Ipv4Addr) → Adds f (add_ip f a) (ip_candidates (a ∷ []))
unfolding add_ip value
add_ip-Adds f a more =
    let same = v4_unspecified-eq a in
    elim (Bool-cases (v4_unspecified a)) [
      | inl none_of_it ↦ rw (none_of_it, sym same ∙ none_of_it, add_ip) refl
      | inr real ↦
          rw (real, sym same ∙ real, add_ip) (add_new-Adds f (v4_text a) (ip (v4_text a)) refl more)
    ]

add_name-Adds : (f : Found) (n : String) → Adds f (add_name f (trim n)) (name_candidates (n ∷ []))
unfolding add_name
add_name-Adds f n more =
    let same = ap (λ b. is_empty (trim n) || b) (names_unspecified-eq (trim n)) in
    elim (Bool-cases (is_empty (trim n) || names_unspecified (trim n))) [
      | inl no_name ↦ rw (no_name, sym same ∙ no_name, add_name) refl
      | inr real ↦
          rw (real, sym same ∙ real, add_name)
            (add_new-Adds f (trim n) (from_host (trim n)) (value-from_host n) more)
    ]

-- Steps one after the other add their texts in that order.
Adds-trans : (f g h : Found) (xs ys : List String) → Adds f g xs → Adds g h ys → Adds f h (xs ++ ys)
Adds-trans f g h xs ys p q more = q more ∙ p (ys ++ more) ∙ rw (append_assoc xs ys more)

ip_candidates-cons :
    (a : Ipv4Addr) (r : List Ipv4Addr)
    → ip_candidates (a ∷ r) ≡ ip_candidates (a ∷ []) ++ ip_candidates r
ip_candidates-cons a r = ground arith

name_candidates-cons :
    (n : String) (r : List String)
    → name_candidates (n ∷ r) ≡ name_candidates (n ∷ []) ++ name_candidates r
name_candidates-cons n r = ground arith

add_ips-Adds : (f : Found) (l : List Ipv4Addr) → Adds f (add_ips f l) (ip_candidates l)
unfolding add_ips
add_ips-Adds f [] = λ more. refl
add_ips-Adds f (a ∷ r) = rw (ip_candidates-cons a r) (
    Adds-trans f (add_ip f a) (add_ips (add_ip f a) r) (ip_candidates (a ∷ [])) (ip_candidates r)
      (add_ip-Adds f a) (add_ips-Adds (add_ip f a) r))

add_names-Adds : (f : Found) (l : List String) → Adds f (add_names f l) (name_candidates l)
unfolding add_names
add_names-Adds f [] = λ more. refl
add_names-Adds f (n ∷ r) = rw (name_candidates-cons n r) (
    Adds-trans f (add_name f (trim n)) (add_names (add_name f (trim n)) r)
      (name_candidates (n ∷ [])) (name_candidates r) (add_name-Adds f n)
      (add_names-Adds (add_name f (trim n)) r))

build_sans-dedup_seen :
    (s : AppState) → map value (build_sans_from_config s) ≡ dedup_seen [] (candidates s)
unfolding build_sans_from_config
build_sans-dedup_seen s =
    let start : Found = record { seen = []; sans = [] } in
    let ips = s.config.reachable_ips in
    let names = s.config.host ∷ s.config.advertise_sans in
    let total = add_names (add_ips start ips) names in
    let added =
      Adds-trans start (add_ips start ips) total (ip_candidates ips) (name_candidates names)
        (add_ips-Adds start ips) (add_names-Adds (add_ips start ips) names) in
    sym (append-nil (map value total.sans))
    ∙ added []
    ∙ ap (dedup_seen []) (append-nil (ip_candidates ips ++ name_candidates names))

abbrev pub Listed : String → List String → Type 0
Listed v = Any (λ j. j ≡ v)

abbrev pub IsDistinct : List String → Type 0
IsDistinct [] = Unit
IsDistinct (k ∷ ks) = (¬ Listed k ks) × IsDistinct ks

contains-of_Listed : (v : String) (ks : List String) → Listed v ks → contains ks v ≡ true
contains-of_Listed v [] h = absurd h
contains-of_Listed v (k ∷ ks) (inl e) = rw ((eq_iff k v).1 e)
contains-of_Listed v (k ∷ ks) (inr r) = ground (arith, contains-of_Listed v ks r)

Listed-of_contains : (v : String) (ks : List String) → contains ks v ≡ true → Listed v ks
Listed-of_contains v [] h = cc
Listed-of_contains v (k ∷ ks) h = ground (arith, eq_iff k v, Listed-of_contains v ks)

or_false_right : (a b : Bool) → (a || b) ≡ false → b ≡ false
or_false_right a b h = ground arith

seen_itself : (k : String) (seen : List String) → contains (k ∷ seen) k ≡ false → ⊥
seen_itself k seen h = ground (arith, (eq_iff k k).1 refl)

-- What `dedup_seen` keeps was not seen before, and stands in the list.
dedup_seen-new :
    (v : String) (seen ks : List String)
    → Listed v (dedup_seen seen ks)
    → (contains seen v ≡ false) × Listed v ks
dedup_seen-new v seen [] h = absurd h
dedup_seen-new v seen (k ∷ ks) h = elim (Bool-cases (contains seen k)) [
  | inl old ↦ let (new, listed) = dedup_seen-new v seen ks (rw old at h) in (new, inr listed)
  | inr fresh ↦
      let kept : (k ≡ v) ⊎ Listed v (dedup_seen (k ∷ seen) ks) = rw fresh at h in
      elim kept [
        | inl e ↦ (subst (λ t. contains seen t ≡ false) e fresh, inl e)
        | inr r ↦
            let (new, listed) = dedup_seen-new v (k ∷ seen) ks r in
            (or_false_right (str_eq k v) (contains seen v) new, inr listed)
      ]
]

dedup_seen-all :
    (v : String) (seen ks : List String)
    → Listed v ks
    → contains seen v ≡ false
    → Listed v (dedup_seen seen ks)
dedup_seen-all v seen [] h f = absurd h
dedup_seen-all v seen (k ∷ ks) (inl e) f =
    rw (subst (λ t. contains seen t ≡ false) (sym e) f) (inl e)
dedup_seen-all v seen (k ∷ ks) (inr r) f = elim (Bool-cases (contains seen k)) [
  | inl old ↦ rw old (dedup_seen-all v seen ks r f)
  | inr fresh ↦ rw fresh (elim (Bool-cases (str_eq k v)) [
    | inl same ↦ inl ((eq_iff k v).0 same)
    | inr other ↦ inr (dedup_seen-all v (k ∷ seen) ks r (rw other f))
  ])
]

dedup_seen-IsDistinct : (seen ks : List String) → IsDistinct (dedup_seen seen ks)
dedup_seen-IsDistinct seen [] = tt
dedup_seen-IsDistinct seen (k ∷ ks) = elim (Bool-cases (contains seen k)) [
  | inl old ↦ rw old (dedup_seen-IsDistinct seen ks)
  | inr fresh ↦ rw fresh (
    λ l. seen_itself k seen (dedup_seen-new k (k ∷ seen) ks l).0,
    dedup_seen-IsDistinct (k ∷ seen) ks,
  )
]

-- No name stands twice in the certificate, and exactly the candidates stand there.
pub build_sans-exact :
    (s : AppState)
    → IsDistinct (map value (build_sans_from_config s))
      × ((v : String) → Listed v (map value (build_sans_from_config s)) ↔ Listed v (candidates s))
build_sans-exact s = rw (build_sans-dedup_seen s) (
  dedup_seen-IsDistinct [] (candidates s),
  λ v. (
    λ h. (dedup_seen-new v [] (candidates s) h).1,
    λ h. dedup_seen-all v [] (candidates s) h refl,
  ),
)

-- The certificate's names are the candidates, each at the place where it first stands: the
-- reachable addresses but 0.0.0.0, then the bind host and the advertised names, trimmed, but for
-- blank ones and unspecified addresses.
pub build_sans-eq-dedup :
    (s : AppState) → map value (build_sans_from_config s) ≡ dedup (candidates s)
build_sans-eq-dedup s = build_sans-dedup_seen s ∙ dedup_seen-eq-dedup (candidates s)
