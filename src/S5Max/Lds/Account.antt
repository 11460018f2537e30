-- ===== src/S5Max/Lds/Account.antt =====
-- lds.rs: `LdsDecoder::push` takes the stream apart as the protocol says, and accounts for every byte.
use vacuum_tiger.Prelude.{
  ℕ, zero, suc, ◌+◌, ◌%◌, ◌^◌, ◌≤◌, ◌<◌, ◌≡◌, refl, sym, ap, ◌∙◌, true, Option, none, some, List,
  [], ◌∷◌, ◌++◌, length, length-drop, length-take, take, drop, position, Option-cases, Bool-cases,
  inl, inr, ltb, ltb→le, ltb→lt, ==→eq, eq→==, ◌==◌, arith, All,
}
use mathlib.Core.Path.{subst}
use vacuum_tiger.S5Max.Lds.Packet.{packet_length, LdsPacket, parse, checksum_valid, packet_checksum}
use vacuum_tiger.S5Max.Lds.Stream.{
  LdsDecoder, discard, Round, leave, go_on, push_packet, checked, accept, at_sync, round, Pushed,
  pushed, stuck, prepend, push_loop, push,
}
use vacuum_tiger.S5Max.Lds.Reading.{
  InRange, Lacks, no_packet, Reading, kept, parse-InRange, is_sync, dropped_before, dropped_all,
  drop_one, take_packet,
}

-- What a round makes of the buffer: how each reading of what it leaves is one of what it found.
abbrev Extends : List ℕ → List LdsPacket → ℕ → List ℕ → Type 0
Extends bytes front n bytes' =
    (ps : List LdsPacket) (rest : List ℕ) (m : ℕ)
    → Reading bytes' ps rest m
    → Reading bytes (front ++ ps) rest (m + n)

abbrev Counts : LdsDecoder → ℕ → LdsDecoder → Type 0
Counts d n d' = d'.discarded ≡ (d.discarded + n) % 2 ^ 64

Reads : LdsDecoder → Round → Type 0
Reads d (leave d') = (n : ℕ) × Reading d.buffer [] d'.buffer n × Counts d n d'
Reads d (go_on d') =
    (n : ℕ) × Extends d.buffer [] n d'.buffer × Counts d n d' × (length d'.buffer < length d.buffer)
Reads d (push_packet p d') =
    (n : ℕ) × Extends d.buffer (p ∷ []) n d'.buffer
    × Counts d n d'
    × (length d'.buffer < length d.buffer)
    × InRange p

-- The round that drops the byte at the sync position.
go_on-Reads :
    (d : LdsDecoder) (i : ℕ)
    → position is_sync d.buffer ≡ some i
    → 22 ≤ length (drop i d.buffer)
    → Lacks (drop i d.buffer)
    → Reads d (go_on (discard 1 (discard i d)))
unfolding Reads
go_on-Reads d i m h l = (
  1 + i,
  λ ps rest n r.
      subst (λ k. Reading d.buffer ps rest k) (omega arith)
        (dropped_before d.buffer i m (drop_one (drop i d.buffer) l h r)),
  omega arith,
  omega (arith, length-drop i d.buffer, length-drop 1 (drop i d.buffer)),
)

accept-Reads :
    (d : LdsDecoder) (i : ℕ)
    → position is_sync d.buffer ≡ some i
    → 22 ≤ length (drop i d.buffer)
    → Reads d (
        accept
          (discard i d)
          (checked (take 22 (drop i d.buffer)) (parse (take 22 (drop i d.buffer)))))
unfolding Reads accept checked checksum_valid
accept-Reads d i m h =
    let bytes = drop i d.buffer in
    let raw = take 22 bytes in
    elim (Option-cases (parse raw)) [
      | inl none_there ↦ rw none_there (
          go_on-Reads d i m h (
            no_packet h (λ p e.
              let z : ◌≡◌ {A = Option LdsPacket} none (some p) = sym none_there ∙ e in absurd cc)))
      | inr (p, there) ↦ elim (Bool-cases (p.checksum == packet_checksum raw)) [
        | inl y ↦
            rw (there, y)
              (
                i,
                λ ps rest n r. dropped_before d.buffer i m (
                    take_packet bytes
                      (omega (arith, length-take 22 bytes), there, ==→eq p.checksum _ y) r),
                refl,
                omega (arith, length-drop i d.buffer, length-drop 22 bytes),
                parse-InRange raw p there,
              )
        | inr f ↦
            rw (there, f)
              (go_on-Reads d i m h (
                no_packet h (λ q e g.
                  let z : some p ≡ some q = sym there ∙ e in
                  let same : p ≡ q = cc in
                  let y : p.checksum ≡ packet_checksum raw = ap (λ q. q.checksum) same ∙ g in
                  let w : (p.checksum == packet_checksum raw) ≡ true =
                    eq→== p.checksum (packet_checksum raw) y in
                  absurd cc)))
      ]
    ]

at_sync-Reads :
    (d : LdsDecoder) (i : ℕ) → position is_sync d.buffer ≡ some i → Reads d (at_sync (discard i d))
unfolding Reads at_sync
at_sync-Reads d i m = elim (Bool-cases (ltb (length (drop i d.buffer)) packet_length)) [
  | inl few ↦ rw few (
    0 + i,
    dropped_before d.buffer i m
        (kept (omega (arith, ltb→lt (length (drop i d.buffer)) packet_length few))),
    omega arith,
  )
  | inr enough ↦
      rw enough (accept-Reads d i m (ltb→le (length (drop i d.buffer)) packet_length enough))
]

cleared : LdsDecoder → LdsDecoder
cleared d = record { buffer = []; discarded = (d.discarded + length d.buffer) % 2 ^ 64 }

round-none : (d : LdsDecoder) → position is_sync d.buffer ≡ none → round d ≡ leave (cleared d)
unfolding round cleared
round-none d m = rw (m, round)

round-some :
    (d : LdsDecoder) (i : ℕ) → position is_sync d.buffer ≡ some i → round d ≡ at_sync (discard i d)
unfolding round
round-some d i m = rw (m, round)

round-Reads : (d : LdsDecoder) → Reads d (round d)
unfolding Reads cleared
round-Reads d = elim (Option-cases (position is_sync d.buffer)) [
  | inl m ↦ rw (round-none d m) (length d.buffer, dropped_all d.buffer m, refl)
  | inr (i, m) ↦ rw (round-some d i m) (at_sync-Reads d i m)
]

-- What a call comes to: the reading of the bytes, whose dropped bytes are added to the count (a u64),
-- and packets with an index in range.
abbrev pub Accounted : LdsDecoder → Pushed → Type 0
Accounted d stuck = ⊥
Accounted d (pushed ps d') =
    (n : ℕ) × Reading d.buffer ps d'.buffer n
    × (d'.discarded ≡ (d.discarded + n) % 2 ^ 64)
    × All InRange ps

Accounted-prepend :
    (d d' : LdsDecoder) (p : LdsPacket) (o : Pushed) (n : ℕ)
    → Extends d.buffer (p ∷ []) n d'.buffer
    → Counts d n d'
    → InRange p
    → Accounted d' o
    → Accounted d (prepend p o)
Accounted-prepend d d' p stuck n x c h a = a
Accounted-prepend d d' p (pushed ps e) n x c h (m, r, k, hs) =
    (m + n, x ps e.buffer m r, omega arith, (h, hs))

Accounted-go_on :
    (d d' : LdsDecoder) (o : Pushed) (n : ℕ)
    → Extends d.buffer [] n d'.buffer
    → Counts d n d'
    → Accounted d' o
    → Accounted d o
Accounted-go_on d d' stuck n x c a = a
Accounted-go_on d d' (pushed ps e) n x c (m, r, k, hs) = (m + n, x ps e.buffer m r, omega arith, hs)

push_loop-Accounted :
    (fuel : ℕ) (d : LdsDecoder) → length d.buffer < fuel → Accounted d (push_loop fuel d)
unfolding Reads
push_loop-Accounted zero d h = absurd (omega arith)
push_loop-Accounted (suc fuel) d h =
    step (round d) refl (round-Reads d) (λ d' l. push_loop-Accounted fuel d' (omega arith))
  where
    step :
        (r : Round)
        → round d ≡ r
        → Reads d r
        → ((d' : LdsDecoder)
            → length d'.buffer < length d.buffer
            → Accounted d' (push_loop fuel d'))
        → Accounted d (push_loop (suc fuel) d)
    step (leave d') e (n, r, c) rest = unfold push_loop in rw (e, push_loop) (n, r, c, tt)
    step (go_on d') e (n, x, c, l) rest =
        unfold push_loop in
        rw (e, push_loop) (Accounted-go_on d d' (push_loop fuel d') n x c (rest d' l))
    step (push_packet p d') e (n, x, c, l, h) rest =
        unfold push_loop in
        rw (e, push_loop) (Accounted-prepend d d' p (push_loop fuel d') n x c h (rest d' l))

-- Any call returns, and reads the buffer with the bytes of the call as the protocol says: each
-- packet, with an index in range, stands in its own 22 bytes with the right checksum, the packets
-- come in the order of their bytes, a byte is dropped and counted (in a u64) only where no packet
-- starts, and what stays in the buffer is shorter than a packet.
pub push-Accounted :
    (d : LdsDecoder) (bytes : List ℕ)
    → Accounted (record d { buffer = d.buffer ++ bytes }) (push d bytes)
unfolding push
push-Accounted d bytes =
    push_loop-Accounted (suc (length (d.buffer ++ bytes))) (record d { buffer = d.buffer ++ bytes })
      (omega arith)
