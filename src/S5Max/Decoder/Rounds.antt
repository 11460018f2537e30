-- ===== src/S5Max/Decoder/Rounds.antt =====
-- packet.rs: the rounds of `push`: no index fails, every round that goes on takes a byte, and what
-- one round decides stands when more bytes arrive.
use mathlib.Core.Option
use vacuum_tiger.Prelude.{
  ℕ, suc, ◌+◌, ◌≤◌, ◌<◌, ◌≡◌, refl, ap, List, [], ◌∷◌, length, arith, ◌==◌, Bool, Option, none,
  some, take, drop, length-take, length-drop, get_elem?-lt, position, Bool-cases, Option-cases, leb,
  le→ltb, ◌&&◌, inl, inr,
}
use vacuum_tiger.S5Max.Frame.{sync}
use vacuum_tiger.S5Max.Decoder.Core.{
  Frame, frame_of, with_length, Unescaped, complete, incomplete, invalid, unescape, pop,
  build_frame, Round, stop, resync, push_frame, after_unescape, at_sync, round,
}
use vacuum_tiger.S5Max.Decoder.Unescape.{unescape_bounds}

pop_total :
    (xs : List ℕ)
    → 0 < length xs
    → (ys : List ℕ) × (a : ℕ) × (pop xs ≡ some (ys, a)) × (suc (length ys) ≡ length xs)
unfolding pop
pop_total [] h = absurd (omega arith)
pop_total (x ∷ []) h = ([], x, refl, refl)
pop_total (x ∷ y ∷ rest) h =
    let (ys, a, e, l) = pop_total (y ∷ rest) (omega arith) in
    (x ∷ ys, a, ap (Option.map (λ p. (x ∷ p.0, p.1))) e, omega arith)

-- The indices that a frame is built with are in range.
build_frame_total :
    (raw decoded : List ℕ)
    → 3 ≤ length raw
    → 3 ≤ length decoded
    → (f : Frame) × (build_frame raw decoded ≡ some f)
unfolding build_frame
build_frame_total raw decoded h k =
    let (payload, crc, e, l) = pop_total decoded (omega arith) in
    let (overhead, e2) = get_elem?-lt raw 2 (omega arith) in
    let (message, e0) = get_elem?-lt payload 0 (omega arith) in
    let (command, e1) = get_elem?-lt payload 1 (omega arith) in
    (frame_of raw payload crc overhead message command, rw (e, e2, e0, e1))

-- What a round does to a buffer of `n` bytes that starts with the sync byte.
unfoldable pub Advances : ℕ → Option Round → Type 0
Advances n none = ⊥
Advances n (some (stop b)) = length b ≤ n
Advances n (some (resync b)) = length b < n
Advances n (some (push_frame f b)) = length b < n

complete-Advances :
    (buffer decoded : List ℕ) (cursor : ℕ)
    → 3 ≤ cursor
    → cursor ≤ length buffer
    → 3 ≤ length decoded
    → Advances (length buffer) (after_unescape buffer (complete cursor decoded))
unfolding after_unescape Advances
complete-Advances buffer decoded cursor h k l =
    let (f, e) =
      build_frame_total (take cursor buffer) decoded (omega (arith, length-take cursor buffer)) l in
    rw e (omega (arith, length-drop cursor buffer))

after_unescape-Advances :
    (buffer : List ℕ) (missing : ℕ) (u : Unescaped)
    → 3 ≤ missing
    → 2 ≤ length buffer
    → unescape missing (drop 3 buffer) 3 [] ≡ u
    → Advances (length buffer) (after_unescape buffer u)
unfolding after_unescape Advances
after_unescape-Advances buffer missing incomplete h k e = omega arith
after_unescape-Advances buffer missing invalid h k e = omega (arith, length-drop 1 buffer)
after_unescape-Advances buffer missing (complete cursor decoded) h k e =
    let b = unescape_bounds missing (drop 3 buffer) 3 [] cursor decoded e in
    complete-Advances buffer decoded cursor (omega arith) (omega (arith, length-drop 3 buffer))
      (omega arith)

with_length-Advances :
    (n : ℕ) (buffer : List ℕ) → 2 ≤ length buffer → Advances (length buffer) (with_length n buffer)
unfolding with_length Advances
with_length-Advances n buffer h = elim (Bool-cases (leb 4 (n + 1) && leb (n + 1) 1024)) [
  | inl y ↦
      let four : 3 ≤ n + 1 = ground arith in
      rw y (after_unescape-Advances buffer (n + 1) _ four h refl)
  | inr n ↦ rw n (omega (arith, length-drop 1 buffer))
]

at_sync-Advances : (buffer : List ℕ) → Advances (length buffer) (at_sync buffer)
unfolding at_sync Advances
at_sync-Advances [] = omega arith
at_sync-Advances (x ∷ []) = omega arith
at_sync-Advances (x ∷ n ∷ rest) =
    rw (le→ltb (length (x ∷ n ∷ rest)) 2 (omega arith))
      (with_length-Advances n (x ∷ n ∷ rest) (omega arith))

Advances-le : (m n : ℕ) (o : Option Round) → m ≤ n → Advances m o → Advances n o
unfolding Advances
Advances-le m n none h a = a
Advances-le m n (some (stop b)) h a = omega arith
Advances-le m n (some (resync b)) h a = omega arith
Advances-le m n (some (push_frame f b)) h a = omega arith

abbrev pub is_sync : ℕ → Bool
is_sync byte = byte == sync

pub round-none : (buffer : List ℕ) → position is_sync buffer ≡ none → round buffer ≡ some (stop [])
unfolding round
round-none buffer m = rw (m, round)

pub round-some :
    (buffer : List ℕ) (i : ℕ)
    → position is_sync buffer ≡ some i
    → round buffer ≡ at_sync (drop i buffer)
unfolding round
round-some buffer i m = rw (m, round)

-- No round fails an index, and one that goes on takes at least a byte.
pub round-Advances : (buffer : List ℕ) → Advances (length buffer) (round buffer)
unfolding Advances
round-Advances buffer = elim (Option-cases (position is_sync buffer)) [
  | inl m ↦ rw (round-none buffer m) (omega arith)
  | inr (i, m) ↦ rw (round-some buffer i m) (
      Advances-le (length (drop i buffer)) (length buffer) _ (omega (arith, length-drop i buffer))
        (at_sync-Advances (drop i buffer)))
]
