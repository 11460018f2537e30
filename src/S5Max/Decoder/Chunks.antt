-- ===== src/S5Max/Decoder/Chunks.antt =====
-- packet.rs: `push` returns on every input, and does not depend on how the stream is cut.
use vacuum_tiger.Prelude.{
  ℕ, zero, suc, ◌+◌, ◌≤◌, ◌<◌, ◌≡◌, refl, sym, ap, ◌∙◌, List, [], ◌∷◌, ◌++◌, length, append_assoc,
  append-nil, arith, Option, none, some, length-append,
}
use vacuum_tiger.S5Max.Decoder.Core.{
  Frame, Round, stop, resync, push_frame, round, Pushed, pushed, panic, stuck, prepend, push_loop,
  push,
}
use vacuum_tiger.S5Max.Decoder.Rounds.{Advances, round-Advances}
use vacuum_tiger.S5Max.Decoder.Extend.{round-append_stop, round-append_resync, round-append_frame}

module _ (fuel : ℕ) (b r : List ℕ) where
  push_loop-stop : round b ≡ some (stop r) → push_loop (suc fuel) b ≡ pushed [] r
  unfolding push_loop
  push_loop-stop e = rw (e, push_loop)

  push_loop-resync : round b ≡ some (resync r) → push_loop (suc fuel) b ≡ push_loop fuel r
  unfolding push_loop
  push_loop-resync e = rw (e, push_loop)

  pub push_loop-frame :
      (f : Frame)
      → round b ≡ some (push_frame f r)
      → push_loop (suc fuel) b ≡ prepend (f ∷ []) (push_loop fuel r)
  unfolding push_loop
  push_loop-frame f e = rw (e, push_loop)

-- A round is one of three, and those that go on leave less.
data View (b : List ℕ) : Type 0 where
  stops : (r : List ℕ) → round b ≡ some (stop r) → length r ≤ length b → View b
  resyncs : (r : List ℕ) → round b ≡ some (resync r) → length r < length b → View b
  frames : (f : Frame) (r : List ℕ) → round b ≡ some (push_frame f r) → length r < length b → View b

view : (b : List ℕ) → View b
view b = of (round b) refl (round-Advances b)
  where
    of : (m : Option Round) → round b ≡ m → Advances (length b) m → View b
    of none e a = absurd (unfold Advances in a)
    of (some (stop r)) e a = stops r e (unfold Advances in a)
    of (some (resync r)) e a = resyncs r e (unfold Advances in a)
    of (some (push_frame f r)) e a = frames f r e (unfold Advances in a)

abbrev pub Returns : ℕ → Pushed → Type 0
Returns n p = (fs : List Frame) × (r : List ℕ) × (p ≡ pushed fs r) × (length r ≤ n)

push_loop-Returns :
    (fuel : ℕ) (b : List ℕ) → length b < fuel → Returns (length b) (push_loop fuel b)
push_loop-Returns zero b h = absurd (omega arith)
push_loop-Returns (suc fuel) b h = elim (view b) [
  | stops r e l ↦ ([], r, push_loop-stop fuel b r e, l)
  | resyncs r e l ↦
      let (fs, r', e', l') = push_loop-Returns fuel r (omega arith) in
      (fs, r', push_loop-resync fuel b r e ∙ e', omega arith)
  | frames f r e l ↦
      let (fs, r', e', l') = push_loop-Returns fuel r (omega arith) in
      (f ∷ fs, r', push_loop-frame fuel b r f e ∙ ap (prepend (f ∷ [])) e', omega arith)
]

-- Any call returns its frames: no index fails and the loop ends. The buffer never holds more than
-- was in it and what came.
pub push-Returns :
    (buffer bytes : List ℕ) → Returns (length buffer + length bytes) (push buffer bytes)
unfolding push
push-Returns buffer bytes =
    rw (← length-append buffer bytes)
      (push_loop-Returns (suc (length (buffer ++ bytes))) (buffer ++ bytes) (omega arith))

pub push_loop-fuel :
    (m n : ℕ) (b : List ℕ) → length b < m → length b < n → push_loop m b ≡ push_loop n b
push_loop-fuel zero n b h k = absurd (omega arith)
push_loop-fuel (suc m) zero b h k = absurd (omega arith)
push_loop-fuel (suc m) (suc n) b h k = elim (view b) [
  | stops r e l ↦ push_loop-stop m b r e ∙ sym (push_loop-stop n b r e)
  | resyncs r e l ↦
      push_loop-resync m b r e
      ∙ push_loop-fuel m n r (omega arith) (omega arith)
      ∙ sym (push_loop-resync n b r e)
  | frames f r e l ↦
      push_loop-frame m b r f e
      ∙ ap (prepend (f ∷ [])) (push_loop-fuel m n r (omega arith) (omega arith))
      ∙ sym (push_loop-frame n b r f e)
]

pub prepend-prepend :
    (fs gs : List Frame) (p : Pushed) → prepend fs (prepend gs p) ≡ prepend (fs ++ gs) p
prepend-prepend fs gs (pushed hs r) = ap (λ t. pushed t r) (sym (append_assoc fs gs hs))
prepend-prepend fs gs panic = refl
prepend-prepend fs gs stuck = refl

prepend-nil : (p : Pushed) → prepend [] p ≡ p
prepend-nil (pushed fs r) = refl
prepend-nil panic = refl
prepend-nil stuck = refl

push_loop-same :
    (fuel : ℕ) (a b : List ℕ) → round a ≡ round b → push_loop (suc fuel) a ≡ push_loop (suc fuel) b
unfolding push_loop
push_loop-same fuel a b e = rw (e, push_loop)

pushed_injective :
    (fs gs : List Frame) (r s : List ℕ) → pushed fs r ≡ pushed gs s → (fs ≡ gs) × (r ≡ s)
pushed_injective fs gs r s e = (cc, cc)

push_loop-append :
    (m n k : ℕ) (b more : List ℕ) (fs : List Frame) (r : List ℕ)
    → length b < m
    → length b + length more < n
    → length r + length more < k
    → push_loop m b ≡ pushed fs r
    → push_loop n (b ++ more) ≡ prepend fs (push_loop k (r ++ more))
push_loop-append zero n k b more fs r h i j e = absurd (omega arith)
push_loop-append (suc m) zero k b more fs r h i j e = absurd (omega arith)
push_loop-append (suc m) (suc n) k b more fs r h i j e = elim (view b) [
  | stops r' e' l ↦
      let (p, q) = pushed_injective [] fs r' r (sym (push_loop-stop m b r' e') ∙ e) in
      push_loop-same n (b ++ more) (r' ++ more) (round-append_stop b r' more e')
      ∙ rw (← p, ← q)
          (push_loop-fuel (suc n) k (r' ++ more) (omega (arith, length-append r' more))
              (omega (arith, length-append r' more, ap (λ (x : List ℕ). length x) q))
            ∙ sym (prepend-nil (push_loop k (r' ++ more))))
  | resyncs r' e' l ↦
      push_loop-resync n (b ++ more) (r' ++ more) (round-append_resync b r' more e')
      ∙ push_loop-append m n k r' more fs r (omega arith) (omega arith) j
          (sym (push_loop-resync m b r' e') ∙ e)
  | frames f r' e' l ↦
      let (gs, s, e'', l') = push_loop-Returns m r' (omega arith) in
      let (p, q) =
        pushed_injective (f ∷ gs) fs s r
          (sym (push_loop-frame m b r' f e' ∙ ap (prepend (f ∷ [])) e'') ∙ e) in
      push_loop-frame n (b ++ more) (r' ++ more) f (round-append_frame b r' more f e')
      ∙ ap (prepend (f ∷ [])) (
          push_loop-append m n k r' more gs r (omega arith) (omega arith) j
            (e'' ∙ ap (pushed gs) q))
      ∙ prepend-prepend (f ∷ []) gs (push_loop k (r ++ more))
      ∙ ap (λ t. prepend t (push_loop k (r ++ more))) p
]

-- Bytes that come in two calls give the frames, and leave the buffer, of one call with all of them.
pub push-append :
    (buffer bytes more : List ℕ) (fs : List Frame) (r : List ℕ)
    → push buffer bytes ≡ pushed fs r
    → push buffer (bytes ++ more) ≡ prepend fs (push r more)
unfolding push
push-append buffer bytes more fs r e =
    let (gs, s, e', l) =
      push_loop-Returns (suc (length (buffer ++ bytes))) (buffer ++ bytes) (omega arith) in
    rw (← append_assoc buffer bytes more) (
      push_loop-append (suc (length (buffer ++ bytes))) (suc (length ((buffer ++ bytes) ++ more)))
        (suc (length (r ++ more))) (buffer ++ bytes) more fs r (omega arith)
        (omega (arith, length-append (buffer ++ bytes) more)) (omega (arith, length-append r more))
        e)

-- The calls of a run: the chunks that the port delivers, one after the other.
unfoldable pub push_all : List ℕ → List (List ℕ) → Pushed
push_all buffer [] = pushed [] buffer
push_all buffer (c ∷ chunks) = elim (push buffer c) [
  | pushed fs r ↦ prepend fs (push_all r chunks)
  | panic ↦ panic
  | stuck ↦ stuck
]

abbrev pub concat : List (List ℕ) → List ℕ
concat [] = []
concat (c ∷ chunks) = c ++ concat chunks

push_all_nil : (buffer : List ℕ) → push_all buffer [] ≡ pushed [] buffer
unfolding push_all
push_all_nil buffer = refl

push_all_step :
    (buffer c : List ℕ) (chunks : List (List ℕ)) (fs : List Frame) (r : List ℕ)
    → push buffer c ≡ pushed fs r
    → push_all buffer (c ∷ chunks) ≡ prepend fs (push_all r chunks)
unfolding push_all
push_all_step buffer c chunks fs r e = rw (e, push_all)

-- However a stream of bytes is cut into chunks, the frames and the buffer at its end are those of a
-- single call with the whole stream.
pub push_all-concat :
    (buffer c : List ℕ) (chunks : List (List ℕ))
    → push_all buffer (c ∷ chunks) ≡ push buffer (c ++ concat chunks)
push_all-concat buffer c [] =
    let (fs, r, e, l) = push-Returns buffer c in
    push_all_step buffer c [] fs r e
    ∙ ap (prepend fs) (push_all_nil r)
    ∙ ap (λ t. pushed t r) (append-nil fs)
    ∙ sym e
    ∙ ap (push buffer) (sym (append-nil c))
push_all-concat buffer c (d ∷ chunks) =
    let (fs, r, e, l) = push-Returns buffer c in
    push_all_step buffer c (d ∷ chunks) fs r e
    ∙ ap (prepend fs) (push_all-concat r d chunks)
    ∙ sym (push-append buffer c (d ++ concat chunks) fs r e)
