-- ===== src/Ctl/Dedup.antt =====
-- Each text of a list once: with a set of what was seen, as `build_sans_from_config`
-- (muxrctl/src/app/update.rs) does it, and without one.
use zellimobile_server.Common.{
  String, ◌≡◌, sym, ap, ◌∙◌, subst, refl, inl, inr, true, List, [], ◌∷◌, arith, str_eq,
  if◌then◌else◌, Bool-cases, eq_iff,
}
use zellimobile_server.Ctl.Sans.{contains}

-- The list less every copy of a text.
abbrev pub without : String → List String → List String
without k [] = []
without k (j ∷ js) = if str_eq k j then without k js else j ∷ without k js

-- Each text once, at the place where it first stands: what follows a text has no copy of it.
abbrev pub dedup : List String → List String
dedup [] = []
dedup (k ∷ ks) = k ∷ without k (dedup ks)

-- The same in one pass, leaving out what was seen before.
abbrev pub dedup_seen : List String → List String → List String
dedup_seen seen [] = []
dedup_seen seen (k ∷ ks) =
    if contains seen k then dedup_seen seen ks else k ∷ dedup_seen (k ∷ seen) ks

abbrev drop_seen : List String → List String → List String
drop_seen seen [] = []
drop_seen seen (k ∷ ks) = if contains seen k then drop_seen seen ks else k ∷ drop_seen seen ks

-- What was seen is dropped with it or without.
drop_seen-without :
    (k : String) (seen ks : List String)
    → contains seen k ≡ true
    → drop_seen seen (without k ks) ≡ drop_seen seen ks
drop_seen-without k seen [] h = refl
drop_seen-without k seen (j ∷ js) h = elim (Bool-cases (str_eq k j)) [
  | inl same ↦
      let old : contains seen j ≡ true =
        subst (λ t. contains seen t ≡ true) ((eq_iff k j).0 same) h in
      rw (same, old) (drop_seen-without k seen js h)
  | inr other ↦ rw other (ground (arith, drop_seen-without k seen js h))
]

-- To have seen one more is to drop its copies.
drop_seen-cons :
    (k : String) (seen ks : List String) → drop_seen (k ∷ seen) ks ≡ drop_seen seen (without k ks)
drop_seen-cons k seen [] = refl
drop_seen-cons k seen (j ∷ js) = ground (arith, drop_seen-cons k seen js)

drop_seen-nothing : (ks : List String) → drop_seen [] ks ≡ ks
drop_seen-nothing [] = refl
drop_seen-nothing (k ∷ ks) = ap (λ l. k ∷ l) (drop_seen-nothing ks)

dedup_seen-eq-drop : (seen ks : List String) → dedup_seen seen ks ≡ drop_seen seen (dedup ks)
dedup_seen-eq-drop seen [] = refl
dedup_seen-eq-drop seen (k ∷ ks) = elim (Bool-cases (contains seen k)) [
  | inl old ↦
      rw (old, dedup_seen)
        (dedup_seen-eq-drop seen ks ∙ sym (drop_seen-without k seen (dedup ks) old))
  | inr fresh ↦
      rw (fresh, dedup_seen)
        (ap (λ l. k ∷ l) (dedup_seen-eq-drop (k ∷ seen) ks ∙ drop_seen-cons k seen (dedup ks)))
]

-- One pass with a set keeps what the definition without one keeps.
pub dedup_seen-eq-dedup : (ks : List String) → dedup_seen [] ks ≡ dedup ks
dedup_seen-eq-dedup ks = dedup_seen-eq-drop [] ks ∙ drop_seen-nothing (dedup ks)
