-- ===== src/S5Max/Mcu/Retries.antt =====
-- mcu.rs: how often a command that awaits an acknowledgement is sent again.
use vacuum_tiger.Prelude.{
  ℕ, ◌+◌, ◌-◌, ◌≤◌, ◌≡◌, refl, true, false, Option, none, some, List, [], ◌∷◌, ◌++◌, ◌==◌,
  if◌then◌else◌, Bool-cases, inl, inr, arith,
}
use vacuum_tiger.S5Max.Mcu.Acks.{
  ack_timeout, max_sync_attempts, CommandAckState, CommandAckTracker, insert_state, get_state, mark,
  Retry, is_due_retry, retried, retry_all, take_due_retries, acknowledge, expect,
}

-- How many of the retries are of the sequence number.
abbrev pub count : ℕ → List Retry → ℕ
count q [] = 0
count q (r ∷ rs) = (if r.0 == q then 1 else 0) + count q rs

-- How many more retries the entries allow for the sequence number.
abbrev pub left_of : CommandAckState → ℕ
left_of s = if s.acknowledged then 0 else max_sync_attempts - s.attempts

abbrev pub budget : ℕ → List (ℕ × CommandAckState) → ℕ
budget q [] = 0
budget q (e ∷ es) = (if e.0 == q then left_of (e.1) else 0) + budget q es

left_of-retried :
    (now : ℕ) (s : CommandAckState)
    → is_due_retry now s ≡ true
    → left_of s ≡ 1 + left_of (retried now s)
left_of-retried now s h = ground arith

-- What is sent again is taken off the budget.
retry_all-budget :
    (q now : ℕ) (es : List (ℕ × CommandAckState))
    → count q ((retry_all now es).1) + budget q ((retry_all now es).0) ≡ budget q es
unfolding retry_all
retry_all-budget q now [] = refl
retry_all-budget q now ((k, s) ∷ es) = ground (arith, retry_all-budget q now es)

mark-budget : (q k : ℕ) (es : List (ℕ × CommandAckState)) → budget q (mark k es) ≤ budget q es
mark-budget q k [] = omega arith
mark-budget q k ((j, s) ∷ es) = ground (arith, mark-budget q k es)

count-append : (q : ℕ) (rs ss : List Retry) → count q (rs ++ ss) ≡ count q rs + count q ss
count-append q [] ss = omega arith
count-append q (r ∷ rs) ss = omega (arith, count-append q rs ss)

-- What the session does to the tracker while a command waits: it looks for due retries, and it
-- records the acknowledgements that arrive.
pub data Event : Type 0 where
  tick : ℕ → Event
  acked : ℕ → Event

-- All that is sent again.
unfoldable pub run : List Event → CommandAckTracker → List Retry
run [] t = []
run (tick now ∷ events) t = elim (take_due_retries now t) [
  | none ↦ []
  | some (t', retries) ↦ retries ++ run events t'
]
run (acked k ∷ events) t = run events (acknowledge k t)

run-budget :
    (q : ℕ) (events : List Event) (t : CommandAckTracker)
    → count q (run events t) ≤ budget q t.states
unfolding run take_due_retries acknowledge
run-budget q [] t = omega arith
run-budget q (tick now ∷ events) t = elim (Bool-cases t.poisoned) [
  | inl y ↦ simp (run, y) (omega arith)
  | inr n ↦
      let t' : CommandAckTracker = record {
        states = (retry_all now t.states).0;
        poisoned = false;
      } in
      let retries = (retry_all now t.states).1 in
      simp (run, n)
        (omega (
          arith,
          count-append q retries (run events t'),
          retry_all-budget q now t.states,
          run-budget q events t',
        ))
]
run-budget q (acked k ∷ events) t = elim (Bool-cases t.poisoned) [
  | inl y ↦ simp y (run-budget q events t)
  | inr n ↦
      let t' : CommandAckTracker = record { states = mark k t.states; poisoned = false } in
      simp n (omega (arith, mark-budget q k t.states, run-budget q events t'))
]

budget-insert :
    (q : ℕ) (s : CommandAckState) (es : List (ℕ × CommandAckState))
    → get_state q es ≡ none
    → budget q (insert_state q s es) ≡ left_of s
budget-insert q s [] h = ground arith
budget-insert q s (e ∷ es) h = elim (Bool-cases (e.0 == q)) [
  | inl y ↦ let z : ◌≡◌ {A = Option CommandAckState} (some (e.1)) none = rw y at h in cc
  | inr n ↦
      let rest : get_state q es ≡ none = rw n at h in
      rw (n, n) (omega (arith, budget-insert q s es rest))
]

-- A command that begins to await its acknowledgement, while none of its sequence number does, is
-- sent again at most twice, whatever times the session looks for retries at, and whichever
-- acknowledgements arrive in between: with the first time it is sent at most three times.
pub expect-two_retries :
    (q : ℕ) (frame : List ℕ) (now : ℕ) (t : CommandAckTracker) (events : List Event)
    → get_state q t.states ≡ none
    → t.poisoned ≡ false
    → count q (run events ((expect q frame now t).0)) ≤ 2
unfolding expect
expect-two_retries q frame now t events h sound =
    let fresh : CommandAckState = record {
      acknowledged = false;
      frame = frame;
      attempts = 1;
      next_retry = now + ack_timeout;
    } in
    let t' : CommandAckTracker = record {
      states = insert_state q fresh t.states;
      poisoned = false;
    } in
    simp sound (omega (arith, run-budget q events t', budget-insert q fresh t.states h))
