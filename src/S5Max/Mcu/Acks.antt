-- ===== src/S5Max/Mcu/Acks.antt =====
-- mcu.rs: the acknowledgements that are awaited and those that are asked for. An instant is a number
-- of nanoseconds.
use vacuum_tiger.Prelude.{
  ℕ, ◌+◌, ◌-◌, ◌*◌, Bool, true, false, not, ◌&&◌, ◌||◌, Option, none, some, List, [], ◌∷◌, ◌++◌,
  ltb, leb, ◌==◌, if◌then◌else◌,
}
use vacuum_tiger.Prelude.Text.{bytes_eq}

abbrev pub ack_timeout : ℕ
ack_timeout = 23 * 1_000_000

abbrev pub max_sync_attempts : ℕ
max_sync_attempts = 3

abbrev pub ack_dedup_window_frames : ℕ
ack_dedup_window_frames = 128

pub record CommandAckState : Type 0 where
  pub acknowledged : Bool
  pub frame : List ℕ
  pub attempts : ℕ
  pub next_retry : ℕ

-- The map of the states, as its entries in the order in which it is walked; and whether its mutex is
-- poisoned.
pub record CommandAckTracker : Type 0 where
  pub states : List (ℕ × CommandAckState)
  pub poisoned : Bool

-- `HashMap::insert`, `remove` and `get`, on the entries.
abbrev pub insert_state :
    ℕ → CommandAckState → List (ℕ × CommandAckState) → List (ℕ × CommandAckState)
insert_state sequence state [] = (sequence, state) ∷ []
insert_state sequence state (e ∷ es) =
    let later = insert_state sequence state es in
    if e.0 == sequence then (sequence, state) ∷ es else e ∷ later

abbrev pub remove_state : ℕ → List (ℕ × CommandAckState) → List (ℕ × CommandAckState)
remove_state sequence [] = []
remove_state sequence (e ∷ es) =
    let later = remove_state sequence es in if e.0 == sequence then later else e ∷ later

abbrev pub get_state : ℕ → List (ℕ × CommandAckState) → Option CommandAckState
get_state sequence [] = none
get_state sequence (e ∷ es) =
    let later = get_state sequence es in if e.0 == sequence then some (e.1) else later

-- The tracker, and whether the call went through.
unfoldable pub expect : ℕ → List ℕ → ℕ → CommandAckTracker → CommandAckTracker × Bool
expect sequence frame now t = if t.poisoned then (t, false) else (
  record t {
    states =
        insert_state sequence
          (record {
            acknowledged = false;
            frame = frame;
            attempts = 1;
            next_retry = now + ack_timeout;
          })
          t.states;
  },
  true,
)

unfoldable pub cancel : ℕ → CommandAckTracker → CommandAckTracker
cancel sequence t = if t.poisoned then t else record t { states = remove_state sequence t.states }

abbrev pub mark : ℕ → List (ℕ × CommandAckState) → List (ℕ × CommandAckState)
mark sequence [] = []
mark sequence (e ∷ es) =
    let later = mark sequence es in
    if e.0 == sequence then (sequence, record e.1 { acknowledged = true }) ∷ es else e ∷ later

unfoldable pub acknowledge : ℕ → CommandAckTracker → CommandAckTracker
acknowledge sequence t = if t.poisoned then t else record t { states = mark sequence t.states }

-- What is sent again: the sequence number, the frame and the attempt.
abbrev pub Retry : Type 0
Retry = ℕ × List ℕ × ℕ

abbrev pub is_due_retry : ℕ → CommandAckState → Bool
is_due_retry now s = not s.acknowledged && ltb s.attempts max_sync_attempts && leb s.next_retry now

abbrev pub retried : ℕ → CommandAckState → CommandAckState
retried now s = record s { attempts = s.attempts + 1; next_retry = now + ack_timeout }

-- The loop over the entries.
unfoldable pub retry_all : ℕ → List (ℕ × CommandAckState) → List (ℕ × CommandAckState) × List Retry
retry_all now [] = ([], [])
retry_all now (e ∷ es) =
    let (rest, retries) = retry_all now es in
    let s = retried now (e.1) in
    if is_due_retry now (e.1)
    then ((e.0, s) ∷ rest, (e.0, s.frame, s.attempts) ∷ retries)
    else (e ∷ rest, retries)

-- `none` is the error of a poisoned mutex.
unfoldable pub take_due_retries : ℕ → CommandAckTracker → Option (CommandAckTracker × List Retry)
unfolding retry_all
take_due_retries now t =
    let (states, retries) = retry_all now t.states in
    if t.poisoned then none else some (record t { states = states }, retries)

abbrev pub is_acknowledged : Option CommandAckState → Bool
is_acknowledged none = false
is_acknowledged (some s) = s.acknowledged

unfoldable pub missing_of : List ℕ → List (ℕ × CommandAckState) → List ℕ
missing_of [] states = []
missing_of (sequence ∷ sequences) states =
    let rest = missing_of sequences states in
    if is_acknowledged (get_state sequence states) then rest else sequence ∷ rest

abbrev pub remove_all : List ℕ → List (ℕ × CommandAckState) → List (ℕ × CommandAckState)
remove_all [] states = states
remove_all (sequence ∷ sequences) states = remove_all sequences (remove_state sequence states)

-- `wait_for_all` at the end of its wait, on a sound mutex: the sequence numbers without an
-- acknowledgement. Without sequence numbers there is nothing to wait for.
unfoldable pub wait_for_all : List ℕ → CommandAckTracker → CommandAckTracker × List ℕ
unfolding missing_of
wait_for_all [] t = (t, [])
wait_for_all (sequence ∷ sequences) t = (
  record t { states = remove_all (sequence ∷ sequences) t.states },
  missing_of (sequence ∷ sequences) t.states,
)

pub record AckRetryWindow : Type 0 where
  pub window_attempts : ℕ
  pub window_next_retry : ℕ

unfoldable pub after_initial_send : ℕ → AckRetryWindow
after_initial_send now = record { window_attempts = 1; window_next_retry = now + ack_timeout }

unfoldable pub take_retry : ℕ → AckRetryWindow → AckRetryWindow × Bool
take_retry now w =
    if ltb now w.window_next_retry || leb max_sync_attempts w.window_attempts then (w, false) else (
      record { window_attempts = w.window_attempts + 1; window_next_retry = now + ack_timeout },
      true,
    )

unfoldable pub exhausted : ℕ → AckRetryWindow → Bool
exhausted now w = w.window_attempts == max_sync_attempts && leb w.window_next_retry now

pub record RecentAckRequest : Type 0 where
  pub frame_index : ℕ
  pub sequence : ℕ
  pub payload : List ℕ

-- `retain`.
abbrev pub retain : ℕ → List RecentAckRequest → List RecentAckRequest
retain frame_index [] = []
retain frame_index (e ∷ entries) =
    let rest = retain frame_index entries in
    if ltb (frame_index - e.frame_index) ack_dedup_window_frames then e ∷ rest else rest

abbrev pub any_equal : ℕ → List ℕ → List RecentAckRequest → Bool
any_equal sequence payload [] = false
any_equal sequence payload (e ∷ entries) =
    e.sequence == sequence && bytes_eq e.payload payload || any_equal sequence payload entries

-- `RecentAckRequests::is_duplicate`, on the entries.
unfoldable pub is_duplicate : ℕ → ℕ → List ℕ → List RecentAckRequest → List RecentAckRequest × Bool
is_duplicate frame_index sequence payload entries =
    let kept = retain frame_index entries in
    if any_equal sequence payload kept then (kept, true) else (
      kept ++ (record { frame_index = frame_index; sequence = sequence; payload = payload } ∷ []),
      false,
    )
