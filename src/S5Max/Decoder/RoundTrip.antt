-- ===== src/S5Max/Decoder/RoundTrip.antt =====
-- packet.rs against frame.rs: the decoder gives back the payloads that were encoded.
use mathlib.Core.Option
use mathlib.Core.Path.{ap₂}
use vacuum_tiger.Prelude.{
  ℕ, zero, suc, ◌+◌, ◌≤◌, ◌<◌, ◌≡◌, refl, sym, ap, ◌∙◌, List, [], ◌∷◌, ◌++◌, append-nil, length,
  arith, map, true, some, length-append, le→leb, le→ltb, eq→==, drop-length_append,
  take-length_append, All, get_or,
}
use native.Mathlib.Decide.{dec_le}
use vacuum_tiger.S5Max.Crc.{crc8}
use vacuum_tiger.S5Max.Frame.{sync, Result, ok, ◌>>=◌, steps-ok, encode_binary_frame}
use vacuum_tiger.S5Max.Frame.Laws.{
  encode_binary_frame_too_long, encode_binary_frame_too_many, body, escape, expansions,
  encode_binary_frame-eq_ok,
}
use vacuum_tiger.S5Max.Decoder.Core.{
  Frame, frame_of, complete, pop, build_frame, push_frame, after_unescape, with_length, at_sync,
  round, pushed, prepend, push_loop, push,
}
use vacuum_tiger.S5Max.Decoder.Unescape.{unescape-escape}
use vacuum_tiger.S5Max.Decoder.Rounds.{round-some}
use vacuum_tiger.S5Max.Decoder.Chunks.{push_loop-frame, push_all, push_all-concat, concat}

-- The bytes of a payload on the wire.
abbrev pub wire : List ℕ → List ℕ
wire payload = sync ∷ length payload ∷ (expansions (body payload) + 1) ∷ escape (body payload)

-- What the decoder makes of them; `m` and `c` are the payload's first two bytes.
abbrev pub decoded_frame : ℕ → ℕ → List ℕ → Frame
decoded_frame m c rest =
    frame_of (wire (m ∷ c ∷ rest)) (m ∷ c ∷ rest) (crc8 (m ∷ c ∷ rest) 0)
      (expansions (body (m ∷ c ∷ rest)) + 1) m c

pop-append : (xs : List ℕ) (a : ℕ) → pop (xs ++ (a ∷ [])) ≡ some (xs, a)
unfolding pop
pop-append [] a = refl
pop-append (x ∷ []) a = refl
pop-append (x ∷ y ∷ xs) a = ap (Option.map (λ p. (x ∷ p.0, p.1))) (pop-append (y ∷ xs) a)

build_frame-wire :
    (m c : ℕ) (rest : List ℕ)
    → build_frame (wire (m ∷ c ∷ rest)) (body (m ∷ c ∷ rest)) ≡ some (decoded_frame m c rest)
unfolding build_frame
build_frame-wire m c rest = rw (pop-append (m ∷ c ∷ rest) (crc8 (m ∷ c ∷ rest) 0))

taken :
    (m c : ℕ) (rest more : List ℕ)
    → after_unescape
        (wire (m ∷ c ∷ rest) ++ more)
        (complete (length (wire (m ∷ c ∷ rest))) (body (m ∷ c ∷ rest)))
      ≡ some (push_frame (decoded_frame m c rest) more)
unfolding after_unescape
taken m c rest more = rw (
  take-length_append (wire (m ∷ c ∷ rest)) more,
  drop-length_append (wire (m ∷ c ∷ rest)) more,
  build_frame-wire m c rest,
)

-- One round takes the whole frame.
round-wire :
    (m c : ℕ) (rest more : List ℕ)
    → 1 ≤ length rest
    → length rest ≤ 253
    → round (wire (m ∷ c ∷ rest) ++ more) ≡ some (push_frame (decoded_frame m c rest) more)
unfolding at_sync with_length
round-wire m c rest more h k =
    let payload = m ∷ c ∷ rest in
    let n : suc (suc (length rest)) + 1 ≡ length (body payload) =
      omega (arith, length-append rest (crc8 payload 0 ∷ [])) in
    let w : 3 + length (escape (body payload)) ≡ length (wire payload) = omega arith in
    round-some (wire payload ++ more) 0 refl
    ∙ rw
        (
          le→ltb (length (wire payload ++ more)) 2 (omega arith),
          le→leb 4 (length payload + 1) (omega arith),
          le→leb (length payload + 1) 1024 (omega arith),
          n,
          unescape-escape (body payload) more 3 [],
          w,
        )
        (taken m c rest more)

-- A payload that the encoder accepts and that has room for a message, a command and a byte more.
abbrev pub IsPayload : List ℕ → Type 0
IsPayload payload =
    (3 ≤ length payload) × (length payload ≤ 255) × (expansions (body payload) ≤ 254)

-- The frames that a list of payloads stands for.
abbrev pub frame_for : List ℕ → Frame
frame_for payload =
    frame_of (wire payload) payload (crc8 payload 0) (expansions (body payload) + 1)
      (get_or payload 0 0) (get_or payload 1 0)

abbrev pub stream : List (List ℕ) → List ℕ
stream [] = []
stream (p ∷ ps) = wire p ++ stream ps

push_loop-stream :
    (fuel : ℕ) (payloads : List (List ℕ))
    → All IsPayload payloads
    → length (stream payloads) < fuel
    → push_loop fuel (stream payloads) ≡ pushed (map frame_for payloads) []
push_loop-stream zero ps h l = absurd (omega arith)
push_loop-stream (suc fuel) [] h l = unfold push_loop round in refl
push_loop-stream (suc fuel) ([] ∷ ps) h l = absurd (omega arith)
push_loop-stream (suc fuel) ((a ∷ []) ∷ ps) h l = absurd (omega arith)
push_loop-stream (suc fuel) ((m ∷ c ∷ rest) ∷ ps) (p, h) l =
    push_loop-frame fuel (stream ((m ∷ c ∷ rest) ∷ ps)) (stream ps) (decoded_frame m c rest)
      (round-wire m c rest (stream ps) (omega arith) (omega arith))
    ∙ ap (prepend (decoded_frame m c rest ∷ [])) (
        push_loop-stream fuel ps h (omega (arith, length-append (wire (m ∷ c ∷ rest)) (stream ps))))

-- A payload that is encoded is one that the encoder accepts, and its encoding is `wire`.
encoded_lem :
    (payload w : List ℕ)
    → encode_binary_frame payload ≡ ok w
    → (length payload ≤ 255) × (expansions (body payload) ≤ 254) × (wire payload ≡ w)
encoded_lem payload w e = elim (dec_le (length payload) 255) [
  | no over ↦ let r = encode_binary_frame_too_long payload (omega arith) in absurd (cc (r, e))
  | yes h ↦ elim (dec_le (expansions (body payload)) 254) [
    | no over ↦ let r = encode_binary_frame_too_many payload h (omega arith) in absurd (cc (r, e))
    | yes k ↦ let r = encode_binary_frame-eq_ok payload h k in (h, k, cc (r, e))
  ]
]

-- The sender: the encodings of the payloads, one behind the other.
unfoldable pub encode_all : List (List ℕ) → Result (List ℕ)
encode_all [] = ok []
encode_all (p ∷ ps) = encode_binary_frame p >>= λ w. encode_all ps >>= λ rest. ok (w ++ rest)

pub encode_all-one :
    (payload w : List ℕ) → encode_binary_frame payload ≡ ok w → encode_all (payload ∷ []) ≡ ok w
unfolding encode_all
encode_all-one payload w e = rw (e, append-nil w) refl

pub encode_all-wires :
    (payloads : List (List ℕ))
    → All (λ p. encode_binary_frame p ≡ ok (wire p)) payloads
    → encode_all payloads ≡ ok (concat (map wire payloads))
unfolding encode_all
encode_all-wires [] h = refl
encode_all-wires (p ∷ ps) (e, h) = rw (e, encode_all-wires ps h) refl

encode_all_lem :
    (payloads : List (List ℕ)) (s : List ℕ)
    → All (λ p. 3 ≤ length p) payloads
    → encode_all payloads ≡ ok s
    → All IsPayload payloads × (stream payloads ≡ s)
unfolding encode_all
encode_all_lem [] s h e = (tt, cc)
encode_all_lem (p ∷ ps) s (long, h) e =
    let (w, e1, f) =
      steps-ok (λ w. encode_all ps >>= λ rest. ok (w ++ rest)) (encode_binary_frame p) e in
    let (rest, e2, g) = steps-ok (λ rest. ok (w ++ rest)) (encode_all ps) e1 in
    let (short, few, ew) = encoded_lem p w f in
    let (hs, es) = encode_all_lem ps rest h g in
    let whole : w ++ rest ≡ s = cc in (((long, short, few), hs), ap₂ (λ a b. a ++ b) ew es ∙ whole)

pub push_all-frame_for :
    (payloads : List (List ℕ)) (c : List ℕ) (chunks : List (List ℕ))
    → All (λ p. 3 ≤ length p) payloads
    → encode_all payloads ≡ ok (c ++ concat chunks)
    → push_all [] (c ∷ chunks) ≡ pushed (map frame_for payloads) []
unfolding push
push_all-frame_for payloads c chunks long sent =
    let (h, e) = encode_all_lem payloads (c ++ concat chunks) long sent in
    push_all-concat [] c chunks
    ∙ ap (push []) (sym e)
    ∙ push_loop-stream (suc (length (stream payloads))) payloads h (omega arith)

-- Payloads of at least three bytes that are encoded one behind the other, and arrive in any chunks,
-- come out of an empty decoder as one frame each, in order: the frame's payload is the payload and
-- its CRC is valid. No byte stays in the buffer.
pub push_all-encode_all :
    (payloads : List (List ℕ)) (c : List ℕ) (chunks : List (List ℕ))
    → All (λ p. 3 ≤ length p) payloads
    → encode_all payloads ≡ ok (c ++ concat chunks)
    → (frames : List Frame) × (push_all [] (c ∷ chunks) ≡ pushed frames [])
      × (map (λ f. f.payload) frames ≡ payloads)
      × All (λ f. f.crc_valid ≡ true) frames
push_all-encode_all payloads c chunks long sent = (
  map frame_for payloads,
  push_all-frame_for payloads c chunks long sent,
  same payloads,
  valid payloads,
)
  where
    same : (ps : List (List ℕ)) → map (λ f. f.payload) (map frame_for ps) ≡ ps
    same [] = refl
    same (p ∷ ps) = ap (λ t. p ∷ t) (same ps)

    valid : (ps : List (List ℕ)) → All (λ f. f.crc_valid ≡ true) (map frame_for ps)
    valid [] = tt
    valid (p ∷ ps) = (eq→== (crc8 p 0) (crc8 p 0) refl, valid ps)
