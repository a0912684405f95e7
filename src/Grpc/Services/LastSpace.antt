-- ===== src/Grpc/Services/LastSpace.antt =====
-- The guard of the last space (muxrd/src/grpc/space_ops.rs).
use zellimobile_server.Common.{
  ℕ, ◌≤◌, String, Bool, List, [], Option, length, ◌≡◌, refl, All, arith, false, ◌⊎◌, inl, inr,
  Bool-cases,
}
use zellimobile_server.Mux.{SpaceSnapshot, Outcome, ok, failed}
use zellimobile_server.Mux.Ops
use zellimobile_server.Mux.Ops.{Op, ActionAck}
use zellimobile_server.Relay.Attach.{Joined, joined, panicked}
use zellimobile_server.Grpc.Control.{Checked, reject, pass, reject_if_read_only}
use zellimobile_server.Grpc.Checks.{validate_space_id}
use zellimobile_server.Grpc.Requests
use zellimobile_server.Grpc.Requests.{Outside, Done, finish, finish-then, resolve}
use zellimobile_server.Grpc.Spaces
use zellimobile_server.Grpc.Services.{handle}

abbrev pub IsListing : Op → Type 0
IsListing (Ops.list_spaces _) = Unit {0}
IsListing _ = ⊥

-- The backend is asked for its spaces at most, and no relay is told anything.
abbrev pub OnlyLists : {B : Type 0} → Done B → Type 0
OnlyLists d = All (λ x. IsListing x.1) d.ops × (d.sent ≡ [])

-- The backend's own listing, asked by the handler, gave at least two spaces, and what else it is asked
-- is to close the space that was named.
abbrev pub SawOthers :
    (String → Option String) → {B : Type 0} → Outside B → String → String → Done B → Type 0
SawOthers check {B} o session space d =
    (b : B) × (bare : String) × (l : List SpaceSnapshot) × (resolve check o session
      ≡ pass (b, bare))
    × (o.spaces b ≡ joined (ok l))
    × (2 ≤ length l)
    × All (λ x. IsListing x.1 ⊎ (x ≡ (b, Ops.close_space space))) d.ops

at_least_two : (n : ℕ) → Spaces.would_close_last_space n ≡ false → 2 ≤ n
at_least_two n h = ground arith

module _ (check : String → Option String) {B : Type 0} (o : Outside B) where
  abbrev Guarded : String → String → Done B → Type 0
  Guarded session space d = OnlyLists d ⊎ SawOthers check o session space d

  -- What is asked once the guard let the request through.
  closing-ops :
      (ext : Option Bool) (session id space bare : String) (b : B) (r : Checked ActionAck)
      → All
          (λ x. IsListing x.1 ⊎ (x ≡ (b, Ops.close_space space)))
          (Spaces.close_result check ext o session id space b bare r).ops
  closing-ops ext session id space bare b (reject e) = (inl tt, (inr refl, tt))
  closing-ops ext session id space bare b (pass ack) = ground arith

  counted-Guarded :
      (ext : Option Bool) (session id space : String) (x : B × String)
      (s : Joined (Outcome (List SpaceSnapshot)))
      → resolve check o session ≡ pass x
      → o.spaces x.0 ≡ s
      → Guarded session space
          (Spaces.close_if_more check ext o session id space x.0 x.1 (Spaces.count_spaces s))
  counted-Guarded ext session id space x (panicked e) here listed = inl ((tt, tt), refl)
  counted-Guarded ext session id space x (joined (failed e)) here listed = inl ((tt, tt), refl)
  counted-Guarded ext session id space x (joined (ok l)) here listed =
      elim (Bool-cases (Spaces.would_close_last_space (length l))) [
        | inl few ↦ rw few (inl ((tt, tt), refl))
        | inr more ↦ rw more (
            inr (
              x.0,
              x.1,
              l,
              here,
              listed,
              at_least_two (length l) more,
              closing-ops ext session id space x.1 x.0
                  (Spaces.close_answer (o.acts x.0 (Ops.close_space space))),
            ))
      ]

  -- A request to close a space closes nothing, unless the handler's own listing of that backend's
  -- spaces went through and showed at least two; then it closes the named one and no other. So where
  -- there is one space, or none, or they cannot be listed, nothing is closed, whoever asks and whatever
  -- the request names. Each of two concurrent requests is judged by its own listing.
  pub close_space-OnlyLists :
      (ext : Option Bool) (session id space : String)
      → let d = handle check ext o (Requests.close_space session id space) in
        OnlyLists d ⊎ SawOthers check o session space d
  unfolding handle Spaces.close_space
  close_space-OnlyLists ext session id space =
      finish-then (Guarded session space) (reject_if_read_only ext) _ (λ e. inl (tt, refl))
        (λ _ _.
          finish-then (Guarded session space) (resolve check o session) _ (λ e. inl (tt, refl))
            (λ x here.
              finish-then (Guarded session space) (validate_space_id space) _ (λ e. inl (tt, refl))
                (λ _ _. counted-Guarded ext session id space x (o.spaces x.0) here refl)))
