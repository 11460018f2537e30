-- ===== src/S5Max/Decoder/Extend.antt =====
-- packet.rs: what one round of `push` decides stands when more bytes arrive behind the buffer.
use vacuum_tiger.Prelude.{
  ℕ, ◌+◌, ◌≤◌, ◌≡◌, ◌≢◌, refl, sym, ap, ◌∙◌, List, [], ◌∷◌, ◌++◌, length, arith, Option, none, some,
  take, drop, length-drop, position, Bool-cases, Option-cases, leb, le→ltb, ◌&&◌, inl, inr,
  drop-append, take-append, drop-length_add, position-append, position-append_none,
  position-FoundAt,
}
use native.Mathlib.Numerals.{add-one}
use vacuum_tiger.S5Max.Decoder.Core.{
  Frame, Unescaped, complete, incomplete, invalid, unescape, build_frame, Round, stop, resync,
  push_frame, after_unescape, with_length, at_sync, round,
}
use vacuum_tiger.S5Max.Decoder.Unescape.{unescape_bounds, unescape-append}
use vacuum_tiger.S5Max.Decoder.Rounds.{is_sync, round-none, round-some}

-- How a round on a longer buffer compares: a decision to go on is the same, with the new bytes behind.
unfoldable pub Agrees : List ℕ → Option Round → Option Round → Type 0
Agrees more none m = Unit {0}
Agrees more (some (stop b)) m = Unit {0}
Agrees more (some (resync b)) m = m ≡ some (resync (b ++ more))
Agrees more (some (push_frame f b)) m = m ≡ some (push_frame f (b ++ more))

complete-Agrees :
    (buffer more decoded : List ℕ) (cursor : ℕ)
    → cursor ≤ length buffer
    → Agrees more
        (after_unescape buffer (complete cursor decoded))
        (after_unescape (buffer ++ more) (complete cursor decoded))
unfolding after_unescape Agrees
complete-Agrees buffer more decoded cursor h =
    rw (take-append cursor buffer more h, drop-append cursor buffer more h)
      (elim (Option-cases (build_frame (take cursor buffer) decoded)) [
        | inl e ↦ rw e tt
        | inr (f, e) ↦ rw e refl
      ])

same_unescape :
    (buffer more : List ℕ) (missing : ℕ) (u : Unescaped)
    → 3 ≤ length buffer
    → unescape missing (drop 3 buffer) 3 [] ≡ u
    → u ≢ incomplete
    → unescape missing (drop 3 (buffer ++ more)) 3 [] ≡ u
same_unescape buffer more missing u h e n =
    rw (drop-append 3 buffer more h) (elim (unescape-append missing (drop 3 buffer) more 3 []) [
      | inl stuck ↦ absurd (n (sym e ∙ stuck))
      | inr same ↦ same ∙ e
    ])

after_unescape-Agrees :
    (buffer more : List ℕ) (missing : ℕ) (u : Unescaped)
    → 3 ≤ length buffer
    → unescape missing (drop 3 buffer) 3 [] ≡ u
    → Agrees more
        (after_unescape buffer u)
        (after_unescape (buffer ++ more) (unescape missing (drop 3 (buffer ++ more)) 3 []))
unfolding after_unescape Agrees
after_unescape-Agrees buffer more missing incomplete h e = tt
after_unescape-Agrees buffer more missing invalid h e = rw (
  same_unescape buffer more missing invalid h e (λ p. cc),
  drop-append 1 buffer more (omega arith),
)
after_unescape-Agrees buffer more missing (complete cursor decoded) h e =
    rw (same_unescape buffer more missing (complete cursor decoded) h e (λ p. cc)) (
      complete-Agrees buffer more decoded cursor (
        omega (
          arith,
          unescape_bounds missing (drop 3 buffer) 3 [] cursor decoded e,
          length-drop 3 buffer,
        )))

with_length-Agrees :
    (n : ℕ) (buffer more : List ℕ)
    → 3 ≤ length buffer
    → Agrees more (with_length n buffer) (with_length n (buffer ++ more))
unfolding with_length Agrees
with_length-Agrees n buffer more h = elim (Bool-cases (leb 4 (n + 1) && leb (n + 1) 1024)) [
  | inl y ↦ rw y (after_unescape-Agrees buffer more (n + 1) _ h refl)
  | inr n ↦ rw n (ap (λ b. some (resync b)) (drop-append 1 buffer more (omega arith)))
]

-- With two bytes only, the length may already be refused.
short-Agrees :
    (x n : ℕ) (more : List ℕ)
    → Agrees more (with_length n (x ∷ n ∷ [])) (with_length n (x ∷ n ∷ more))
unfolding with_length Agrees unescape after_unescape
short-Agrees x n more = elim (Bool-cases (leb 4 (n + 1) && leb (n + 1) 1024)) [
  | inl y ↦ rw (y, add-one) tt
  | inr n ↦ rw n
]

at_sync-Agrees : (buffer more : List ℕ) → Agrees more (at_sync buffer) (at_sync (buffer ++ more))
unfolding at_sync Agrees
at_sync-Agrees [] more = tt
at_sync-Agrees (x ∷ []) more = tt
at_sync-Agrees (x ∷ n ∷ []) more =
    rw (le→ltb (length (x ∷ n ∷ more)) 2 (omega arith)) (short-Agrees x n more)
at_sync-Agrees (x ∷ n ∷ z ∷ rest) more =
    rw
      (
        le→ltb (length (x ∷ n ∷ z ∷ rest)) 2 (omega arith),
        le→ltb (length (x ∷ n ∷ z ∷ (rest ++ more))) 2 (omega arith),
      )
      (with_length-Agrees n (x ∷ n ∷ z ∷ rest) more (omega arith))

-- A round that stops on a buffer with the sync byte in front leaves it as it is.
Stays : List ℕ → Option Round → Type 0
Stays b none = Unit {0}
Stays b (some (stop b')) = b' ≡ b
Stays b (some (resync b')) = Unit {0}
Stays b (some (push_frame f b')) = Unit {0}

after_unescape-Stays : (buffer : List ℕ) (u : Unescaped) → Stays buffer (after_unescape buffer u)
unfolding after_unescape Stays
after_unescape-Stays buffer incomplete = refl
after_unescape-Stays buffer invalid = tt
after_unescape-Stays buffer (complete cursor decoded) =
    elim (Option-cases (build_frame (take cursor buffer) decoded)) [
      | inl e ↦ rw e tt
      | inr (f, e) ↦ rw e tt
    ]

with_length-Stays : (n : ℕ) (buffer : List ℕ) → Stays buffer (with_length n buffer)
unfolding with_length Stays
with_length-Stays n buffer = elim (Bool-cases (leb 4 (n + 1) && leb (n + 1) 1024)) [
  | inl y ↦ rw y (after_unescape-Stays buffer _)
  | inr m ↦ rw m tt
]

at_sync-Stays : (buffer : List ℕ) → Stays buffer (at_sync buffer)
unfolding at_sync Stays
at_sync-Stays [] = refl
at_sync-Stays (x ∷ []) = refl
at_sync-Stays (x ∷ n ∷ rest) =
    rw (le→ltb (length (x ∷ n ∷ rest)) 2 (omega arith)) (with_length-Stays n (x ∷ n ∷ rest))

position_head :
    (buffer more : List ℕ) (i : ℕ)
    → position is_sync buffer ≡ some i
    → position is_sync (drop i buffer ++ more) ≡ some 0
position_head buffer more i m =
    let ((x, t, e, y), l) = position-FoundAt is_sync buffer i m in rw (e, y)

-- A round on a longer buffer: one that found the sync byte goes on as before.
round-Agrees : (buffer more : List ℕ) → Agrees more (round buffer) (round (buffer ++ more))
unfolding Agrees
round-Agrees buffer more = elim (Option-cases (position is_sync buffer)) [
  | inl m ↦ rw (round-none buffer m) tt
  | inr (i, m) ↦
      let (f, l) = position-FoundAt is_sync buffer i m in
      rw
        (
          round-some buffer i m,
          round-some (buffer ++ more) i (position-append is_sync buffer more i m),
          drop-append i buffer more (omega arith),
        )
        (at_sync-Agrees (drop i buffer) more)
]

-- A round that stops keeps all that the bytes to come can be part of.
pub round-append_stop :
    (buffer rest more : List ℕ)
    → round buffer ≡ some (stop rest)
    → round (buffer ++ more) ≡ round (rest ++ more)
unfolding Stays
round-append_stop buffer rest more e = elim (Option-cases (position is_sync buffer)) [
  | inl m ↦
      let z : some (stop []) ≡ some (stop rest) = sym (round-none buffer m) ∙ e in
      let z' : [] ≡ rest = cc in rw (← z') (skipped m)
  | inr (i, m) ↦
      let (f, l) = position-FoundAt is_sync buffer i m in
      let z : at_sync (drop i buffer) ≡ some (stop rest) = sym (round-some buffer i m) ∙ e in
      let z' : rest ≡ drop i buffer = rw z at (at_sync-Stays (drop i buffer)) in
      rw (
        z',
        round-some (buffer ++ more) i (position-append is_sync buffer more i m),
        drop-append i buffer more (omega arith),
        round-some (drop i buffer ++ more) 0 (position_head buffer more i m),
      )
]
  where
    skipped : position is_sync buffer ≡ none → round (buffer ++ more) ≡ round more
    skipped m = elim (position-append_none is_sync buffer more m) [
      | inl (p, q) ↦ round-none (buffer ++ more) q ∙ sym (round-none more p)
      | inr (i, p, q) ↦
          round-some (buffer ++ more) (length buffer + i) q
          ∙ ap at_sync (drop-length_add i buffer more)
          ∙ sym (round-some more i p)
    ]

-- The three ways on, as equations.
pub round-append_resync :
    (buffer rest more : List ℕ)
    → round buffer ≡ some (resync rest)
    → round (buffer ++ more) ≡ some (resync (rest ++ more))
unfolding Agrees
round-append_resync buffer rest more e = rw e at (round-Agrees buffer more)

pub round-append_frame :
    (buffer rest more : List ℕ) (f : Frame)
    → round buffer ≡ some (push_frame f rest)
    → round (buffer ++ more) ≡ some (push_frame f (rest ++ more))
unfolding Agrees
round-append_frame buffer rest more f e = rw e at (round-Agrees buffer more)
