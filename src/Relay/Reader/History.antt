-- ===== src/Relay/Reader/History.antt =====
-- Histories of the reader thread (muxrd/src/relay/reader.rs): which logs came while which query was
-- held. A history lists the rounds, the latest first.
use zellimobile_server.Common.{
  ℕ, String, Bool, false, List, [], ◌∷◌, ◌++◌, Option, none, some, ◌≡◌, refl, ap, ◌∙◌, subst, ◌⊎◌,
  inl, inr, All, All-append, arith,
}
use mathlib.Core.List.{append-nil}
use zellimobile_server.Mux.{MuxServerMsg, log, LayoutSnapshot, Outcome}
use zellimobile_server.Relay.Types.{InFlightQuery}
use zellimobile_server.Relay.Reader.{Turn, Answer, Reader, drain_queries, retire, replace, fulfil}

unfoldable pub log_of : Option MuxServerMsg → Option String
log_of (some (log j)) = some j
log_of _ = none

abbrev pub last_of : List InFlightQuery → Option InFlightQuery
last_of [] = none
last_of (q ∷ []) = some q
last_of (q ∷ qs) = last_of qs

-- The newest query that was handed over in a round.
abbrev pub newest : Turn → Option InFlightQuery
newest t = last_of (t.queued_before ++ t.queued_after)

-- The query of this number and this reply is the newest of its round.
abbrev pub Handed : Turn → ℕ → ℕ → Type 0
Handed t seq reply = (q : InFlightQuery) × (newest t ≡ some q) × (q.seq ≡ seq) × (q.reply ≡ reply)

-- It was handed over, and since then no other query and no log has come.
abbrev pub Awaits : List Turn → ℕ → ℕ → Type 0
Awaits [] seq reply = ⊥
Awaits (t ∷ h) seq reply =
    (log_of t.received ≡ none) × (Handed t seq reply ⊎ ((newest t ≡ none) × Awaits h seq reply))

-- Then one log came, while its caller waited, and no other query and no other log since.
abbrev pub Half : List Turn → ℕ → ℕ → String → Type 0
Half [] seq reply tabs = ⊥
Half (t ∷ h) seq reply tabs =
    ((log_of t.received ≡ some tabs)
      × (t.closed_at_log reply ≡ false)
      × (Handed t seq reply ⊎ ((newest t ≡ none) × Awaits h seq reply)))
    ⊎ ((log_of t.received ≡ none) × (newest t ≡ none) × Half h seq reply tabs)

-- The rounds of a run as a history that goes on from another.
abbrev pub past : List Turn → List Turn → List Turn
past [] h = h
past (t ∷ ts) h = past ts (t ∷ h)

module _ (parse : String → String → Outcome LayoutSnapshot) where
  -- Then the next log came, while its caller waited, and the answer is made of the two.
  abbrev pub Told : List Turn → Answer → Type 0
  Told [] a = ⊥
  Told (t ∷ h) a =
      ((tabs panes : String) × (log_of t.received ≡ some panes)
        × (t.closed_at_log a.query.reply ≡ false)
        × (newest t ≡ none)
        × Half h a.query.seq a.query.reply tabs
        × (a.result ≡ fulfil parse a.query.seq tabs panes))
      ⊎ Told h a

last_of-cons : (q : InFlightQuery) (qs : List InFlightQuery) → last_of (q ∷ qs) ≡ none → ⊥
last_of-cons q [] h = cc
last_of-cons q (x ∷ xs) h = last_of-cons x xs h

last_of-append_some :
    (l bs : List InFlightQuery) {q : InFlightQuery}
    → last_of bs ≡ some q
    → last_of (l ++ bs) ≡ some q
last_of-append_some [] bs h = h
last_of-append_some (a ∷ []) [] h = cc
last_of-append_some (a ∷ []) (b ∷ bs) h = h
last_of-append_some (a ∷ x ∷ l) bs h = last_of-append_some (x ∷ l) bs h

last_of-append_none :
    (l bs : List InFlightQuery) → last_of bs ≡ none → last_of (l ++ bs) ≡ last_of l
last_of-append_none l [] h = ap last_of (append-nil l)
last_of-append_none l (b ∷ bs) h = absurd (last_of-cons b bs h)

-- What is held after a drain is the newest query of the channel, or was held before.
abbrev pub Origin : Option InFlightQuery → Option InFlightQuery → InFlightQuery → Type 0
Origin new held q = (new ≡ some q) ⊎ ((new ≡ none) × (held ≡ some q))

replace-Origin :
    (qs : List InFlightQuery) (held : Option InFlightQuery) {q : InFlightQuery}
    → replace qs held ≡ some q
    → Origin (last_of qs) held q
unfolding replace
replace-Origin [] held h = inr (refl, h)
replace-Origin (x ∷ []) held h = inl h
replace-Origin (x ∷ y ∷ qs) held h = elim (replace-Origin (y ∷ qs) (some x) h) [
  | inl new ↦ inl new
  | inr (nothing, _) ↦ absurd (last_of-cons y qs nothing)
]

retire-some :
    (closed : ℕ → Bool) (held : Option InFlightQuery) {q : InFlightQuery}
    → retire closed held ≡ some q
    → held ≡ some q
unfolding retire
retire-some closed none h = cc
retire-some closed (some x) h = ground arith

drain-Origin :
    (closed : ℕ → Bool) (qs : List InFlightQuery) (held : Option InFlightQuery) {q : InFlightQuery}
    → drain_queries closed qs held ≡ some q
    → Origin (last_of qs) held q
unfolding drain_queries
drain-Origin closed qs held h = elim (replace-Origin qs (retire closed held) h) [
  | inl new ↦ inl new
  | inr (nothing, old) ↦ inr (nothing, retire-some closed held old)
]

unfoldable pub drained : Turn → Reader → Option InFlightQuery
drained t r =
    drain_queries t.closed_after t.queued_after
      (drain_queries t.closed_before t.queued_before r.in_flight)

pub drained-Origin :
    (t : Turn) (r : Reader) (q : InFlightQuery)
    → drained t r ≡ some q
    → Origin (newest t) r.in_flight q
unfolding drained
drained-Origin t r q h = elim (drain-Origin t.closed_after t.queued_after _ h) [
  | inl new ↦ inl (last_of-append_some t.queued_before t.queued_after new)
  | inr (nothing, old) ↦
      let e : newest t ≡ last_of t.queued_before =
        last_of-append_none t.queued_before t.queued_after nothing in
      elim (drain-Origin t.closed_before t.queued_before r.in_flight old) [
        | inl first ↦ inl (e ∙ first)
        | inr (quiet, held) ↦ inr (e ∙ quiet, held)
      ]
]

-- What the history says of a held query.
abbrev pub Holds : List Turn → InFlightQuery → Type 0
Holds h q =
    ((q.tabs ≡ none) × Awaits h q.seq q.reply)
    ⊎ ((s : String) × (q.tabs ≡ some s) × Half h q.seq q.reply s)

-- Queries are handed over with no text.
abbrev pub IsFresh : InFlightQuery → Type 0
IsFresh q = q.tabs ≡ none

abbrev pub HandsFresh : Turn → Type 0
HandsFresh t = All IsFresh t.queued_before × All IsFresh t.queued_after

last_of-IsFresh :
    (qs : List InFlightQuery) {q : InFlightQuery} → All IsFresh qs → last_of qs ≡ some q → IsFresh q
last_of-IsFresh [] a h = cc
last_of-IsFresh (x ∷ []) a h = ground (arith, a.0)
last_of-IsFresh (x ∷ y ∷ qs) a h = last_of-IsFresh (y ∷ qs) a.1 h

pub newest-IsFresh : (t : Turn) {q : InFlightQuery} → HandsFresh t → newest t ≡ some q → IsFresh q
newest-IsFresh t a h =
    last_of-IsFresh (t.queued_before ++ t.queued_after)
      (All-append IsFresh t.queued_before t.queued_after a.0 a.1) h

-- What a round may do with the query that it holds.
pub record IsReady (t : Turn) (h : List Turn) (q : InFlightQuery) : Type 0 where
  pub carried : log_of t.received ≡ none → Holds (t ∷ h) q
  pub first :
      (j : String)
      → q.tabs ≡ none
      → log_of t.received ≡ some j
      → t.closed_at_log q.reply ≡ false
      → Half (t ∷ h) q.seq q.reply j
  pub second : (s : String) → q.tabs ≡ some s → (newest t ≡ none) × Half h q.seq q.reply s

pub new-IsReady :
    (t : Turn) (h : List Turn) (q : InFlightQuery) → IsFresh q → newest t ≡ some q → IsReady t h q
new-IsReady t h q fresh new = record {
  carried = λ quiet. inl (fresh, (quiet, inl (q, new, refl, refl)));
  first = λ j e came waits. inl (came, waits, inl (q, new, refl, refl));
  second = λ s e. absurd (cc);
}

pub old-IsReady :
    (t : Turn) (h : List Turn) (q : InFlightQuery) → newest t ≡ none → Holds h q → IsReady t h q
old-IsReady t h q nothing (inl (bare, waiting)) = record {
  carried = λ quiet. inl (bare, (quiet, inr (nothing, waiting)));
  first = λ j e came waits. inl (came, waits, inr (nothing, waiting));
  second = λ s e. absurd (cc);
}
old-IsReady t h q nothing (inr (tabs, has, half)) = record {
  carried = λ quiet. inr (tabs, has, inr (quiet, nothing, half));
  first = λ j e came waits. absurd (cc);
  second =
      λ s e. let same : tabs ≡ s = cc in (nothing, subst (λ x. Half h q.seq q.reply x) same half);
}
