-- ===== src/Relay/Inbound/Rules.antt =====
-- Induction on the rounds of the task's loop (muxrd/src/relay/inbound.rs).
use zellimobile_server.Common.{
  true, false, List, [], ◌∷◌, if◌then◌else◌, ◌≡◌, ap, sym, subst, ◌⊎◌, inl, inr, Bool-cases,
}
use zellimobile_server.Relay.Inbound.{Outside, Event, Context, Inbound}
use zellimobile_server.Relay.Inbound.Loop.{handle_event, rounds, teardown, inbound_loop}

-- What every round keeps, the loop keeps.
pub rounds-inv {ℓ} :
    (P : Inbound → Type ℓ) (c : Context)
    → ((e : Event) (o : Outside) (s : Inbound) → P s → P (handle_event c e o s))
    → (es : List (Event × Outside)) (s : Inbound) → P s
    → P (rounds c es s)
unfolding rounds
rounds-inv P c keep [] s p = p
rounds-inv P c keep ((e, o) ∷ es) s p = elim (Bool-cases s.running) [
  | inl on ↦
      let rest : Inbound = rounds c es (handle_event c e o s) in
      subst P (sym (ap (λ b. if b then rest else s) on))
        (rounds-inv P c keep es (handle_event c e o s) (keep e o s p))
  | inr off ↦
      let rest : Inbound = rounds c es (handle_event c e o s) in
      subst P (sym (ap (λ b. if b then rest else s) off)) p
]

-- The task is still in its loop, or has been through its end.
pub inbound_loop-cases :
    (c : Context) (last : Outside) (es : List (Event × Outside)) (s : Inbound)
    → (((rounds c es s).running ≡ true) × (inbound_loop c last es s ≡ rounds c es s))
      ⊎ (((rounds c es s).running ≡ false)
          × (inbound_loop c last es s ≡ teardown c last (rounds c es s)))
unfolding inbound_loop
inbound_loop-cases c last es s =
    let s' : Inbound = rounds c es s in
    elim (Bool-cases s'.running) [
      | inl on ↦ inl (on, ap (λ b. if b then s' else teardown c last s') on)
      | inr off ↦ inr (off, ap (λ b. if b then s' else teardown c last s') off)
    ]
