-- ===== src/Herdr/Registry/Table.antt =====
-- Two tables that are each other's inverse, with the ids given out in order: what both registries
-- of muxrd/src/multiplexer/herdr/registry.rs keep.
use zellimobile_server.Common.{
  ℕ, ◌+◌, ◌≤◌, ◌<◌, String, ◌≡◌, sym, ap, ◌∙◌, ◌≢◌, List, [], none, some, arith, inl, inr,
  Bool-cases, ◌==◌, ==_iff, subst,
}
use zellimobile_server.Common.Map.{
  lookup, insert, lookup-insert_self, lookup-insert_ne, lookup-insert_cases, nat_key, string_key,
}

module _ {V : Type 0} (name : V → String) where
  pub record IsLinked (next : ℕ) (fwd : List (String × ℕ)) (bwd : List (ℕ × V)) : Type 0 where
    pub to_entry :
        (p : String) (id : ℕ)
        → lookup p fwd ≡ some id
        → (v : V) × (lookup id bwd ≡ some v) × (name v ≡ p)
    pub to_name : (id : ℕ) (v : V) → lookup id bwd ≡ some v → lookup (name v) fwd ≡ some id
    pub in_order : (id : ℕ) (v : V) → lookup id bwd ≡ some v → (1 ≤ id) × (id < next)

  pub empty-IsLinked : IsLinked 1 [] []
  unfolding lookup
  empty-IsLinked = record {
    to_entry = λ p id h. absurd (cc);
    to_name = λ id v h. cc;
    in_order = λ id v h. absurd (cc);
  }

  -- Two names with one id are one name.
  pub IsLinked-injective :
      {next : ℕ} {fwd : List (String × ℕ)} {bwd : List (ℕ × V)}
      → IsLinked next fwd bwd
      → (p q : String) (id : ℕ) → lookup p fwd ≡ some id
      → lookup q fwd ≡ some id
      → p ≡ q
  IsLinked-injective l p q id hp hq =
      let (v, ev, np) = l.to_entry p id hp in
      let (w, ew, nq) = l.to_entry q id hq in let same : v ≡ w = cc in sym np ∙ ap name same ∙ nq

  module _ {next : ℕ} {fwd : List (String × ℕ)} {bwd : List (ℕ × V)}
      (l : IsLinked next fwd bwd) where
    -- The next id is free.
    next-free : (v : V) → lookup next bwd ≢ some v
    next-free v h = omega (arith, l.in_order next v h)

    -- A new name under the next id.
    pub extend-IsLinked :
        (p : String) (v : V)
        → 1 ≤ next
        → name v ≡ p
        → lookup p fwd ≡ none
        → IsLinked (next + 1) (insert p next fwd) (insert next v bwd)
    extend-IsLinked p v pos n fresh = record {
      to_entry = λ q id h. elim (lookup-insert_cases p q next id fwd h) [
        | inl (e, i) ↦ (
          v,
          subst (λ k. lookup k (insert next v bwd) ≡ some v) i (lookup-insert_self next v bwd),
          n ∙ e,
        )
        | inr (_, old) ↦
            let (w, found, same) = l.to_entry q id old in
            let differ : next ≢ id = omega (arith, l.in_order id w found) in
            (w, lookup-insert_ne next id v bwd differ ∙ found, same)
      ];
      to_name = λ id w h. elim (lookup-insert_cases next id v w bwd h) [
        | inl (i, e) ↦
            subst (λ x. lookup (name x) (insert p next fwd) ≡ some id) e
              (rw (n, ← i) (lookup-insert_self p next fwd))
        | inr (_, old) ↦
            let known = l.to_name id w old in
            let differ : p ≢ name w = λ q. cc (ap (λ x. lookup x fwd) q) in
            lookup-insert_ne p (name w) next fwd differ ∙ known
      ];
      in_order = λ id w h. elim (lookup-insert_cases next id v w bwd h) [
        | inl (i, e) ↦ omega arith
        | inr (_, old) ↦ omega (arith, l.in_order id w old)
      ];
    }

    -- Another entry for a known id, under the same name.
    pub replace-IsLinked :
        (id : ℕ) (v w : V)
        → lookup id bwd ≡ some v
        → name w ≡ name v
        → IsLinked next fwd (insert id w bwd)
    replace-IsLinked id v w h n = record {
      to_entry = λ q j hq.
          let (x, found, same) = l.to_entry q j hq in
          elim (Bool-cases (id == j)) [
            | inl e ↦
                let i = (==_iff id j).0 e in
                let one : x ≡ v = cc (ap (λ k. lookup k bwd) i) in
                (
                  w,
                  subst (λ k. lookup k (insert id w bwd) ≡ some w) i (lookup-insert_self id w bwd),
                  n ∙ sym (ap name one) ∙ same,
                )
            | inr e ↦ (x, lookup-insert_ne id j w bwd (λ i. cc ((==_iff id j).1 i)) ∙ found, same)
          ];
      to_name = λ j x hx. elim (lookup-insert_cases id j w x bwd hx) [
        | inl (i, e) ↦
            subst (λ y. lookup (name y) fwd ≡ some j) e (rw n (l.to_name id v h ∙ ap some i))
        | inr (_, old) ↦ l.to_name j x old
      ];
      in_order = λ j x hx. elim (lookup-insert_cases id j w x bwd hx) [
        | inl (i, e) ↦ subst (λ k. (1 ≤ k) × (k < next)) i (l.in_order id v h)
        | inr (_, old) ↦ l.in_order j x old
      ];
    }
