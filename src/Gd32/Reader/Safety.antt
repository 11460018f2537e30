-- ===== src/Gd32/Reader/Safety.antt =====
-- protocol.rs: what `try_parse_packet` does on any buffer at all.
use vacuum_tiger.Prelude.{
  ℕ, zero, suc, ◌+◌, ◌-◌, ◌*◌, ◌≤◌, ◌<◌, ◌≡◌, ◌≢◌, refl, ne→==, ap, ◌∙◌, sym, inl, inr, List, [],
  ◌∷◌, Bool, true, false, Option, none, some, ◌&&◌, Bool-cases, Option-cases, ltb, leb, ◌==◌,
  if◌then◌else◌, tests, ltb→lt, lt→ltb, le→ltb, All-drop, length, length-drop, drop-drop, drop,
  take, get_elem?, get_elem?-lt, slice?, slice?-eq_some, arith, All,
}
use vacuum_tiger.Gd32.Constants.{sync_byte_1, sync_byte_2, cmd_initialize}
use vacuum_tiger.Gd32.Reader.Steps.{
  synced, round-extract, parse_loop-none, parse_loop-wait, parse_loop-packet, parse_loop-again,
}
use vacuum_tiger.Gd32.Checksum.{IsByte, checksum}
use native.Mathlib.Decide.{dec_lt}
use mathlib.Core.Option
use vacuum_tiger.Gd32.Reader.Core.{
  RxPacket, PacketReader, Round, wait, packet, again, Outcome, found, nothing, failed, panic, stuck,
  find_sync, no_sync, verify_checksum, extract, at_sync, round, parse_loop, try_parse_packet, ◌>>=◌,
  max_payload_size, is_sync, last,
}

abbrev pub IsSuffix : List ℕ → List ℕ → Type 0
IsSuffix s b = (k : ℕ) × (s ≡ drop k b)

-- Somewhere in `b` a sync pattern is followed by a length too small for a command and a checksum.
abbrev pub HasShort : List ℕ → Type 0
HasShort b =
    (k len : ℕ) × (t : List ℕ) × (drop k b ≡ sync_byte_1 ∷ sync_byte_2 ∷ len ∷ t) × (len < 2)

-- What a round does to the buffer `b` that it finds.
Accounts : List ℕ → Option Round → Type 0
Accounts b none = HasShort b
Accounts b (some (wait r)) = IsSuffix r.buffer b × (length r.buffer < 258)
Accounts b (some (packet r)) = IsSuffix r.buffer b × (length r.buffer < length b)
Accounts b (some (again r)) = IsSuffix r.buffer b × (length r.buffer < length b)

Accounts-bind {ℓ} :
    {A : Type ℓ} (b : List ℕ) (m : Option A) (f : A → Option Round)
    → (m ≡ none → HasShort b)
    → ((a : A) → Accounts b (f a))
    → Accounts b (m >>= f)
unfolding Accounts
Accounts-bind b none f h k = h refl
Accounts-bind b (some a) f h k = k a

abbrev SyncAt : List ℕ → ℕ → Type 0
SyncAt b i = (t : List ℕ) × (drop i b ≡ sync_byte_1 ∷ sync_byte_2 ∷ t)

here_lem :
    (a c i : ℕ) (rest : List ℕ)
    → (a == sync_byte_1 && c == sync_byte_2) ≡ true
    → some 0 ≡ some i
    → SyncAt (a ∷ c ∷ rest) i
here_lem a c i rest y e =
    let e0 : 0 ≡ i = cc in
    let ea : a ≡ sync_byte_1 = ground arith in
    let ec : c ≡ sync_byte_2 = ground arith in rw (← e0, ea, ec) (rest, refl)

find_sync_lem : (b : List ℕ) (i : ℕ) → find_sync b ≡ some i → SyncAt b i
unfolding find_sync
find_sync_lem [] i e = cc
find_sync_lem (a ∷ []) i e = cc
find_sync_lem (a ∷ c ∷ rest) i e = elim (Bool-cases (a == sync_byte_1 && c == sync_byte_2)) [
  | inl y ↦ here_lem a c i rest y (rw y at e)
  | inr n ↦ elim (Option-cases (find_sync (c ∷ rest))) [
    | inl m ↦ let e' : Option.map suc (find_sync (c ∷ rest)) ≡ some i = rw n at e in cc (e', m)
    | inr (j, m) ↦
        let e' : some (suc j) ≡ some i = rw (n, m) at e in
        let e'' : suc j ≡ i = cc in rw (← e'') (find_sync_lem (c ∷ rest) j m)
  ]
]

-- With room for a command and a checksum no index or range of step 5 is out of bounds.
verify_checksum_total :
    (len : ℕ) (b : List ℕ)
    → 2 ≤ len
    → 3 + len ≤ length b
    → (v : Bool) × (verify_checksum (3 + len) b ≡ some v)
unfolding verify_checksum
verify_checksum_total len b h k =
    let (hi, eh) = get_elem?-lt b (3 + len - 2) (omega arith) in
    let (lo, el) = get_elem?-lt b (3 + len - 1) (omega arith) in
    let es = slice?-eq_some 3 (3 + len - 2) b (omega arith) (omega arith) in
    (checksum (take (3 + len - 2 - 3) (drop 3 b)) == hi * 256 + lo, rw (eh, el, es))

crc_total :
    (init : Bool) (m : Option Bool)
    → (v : Bool) × (m ≡ some v)
    → (v : Bool) × ((if init then some true else m) ≡ some v)
crc_total true m h = (true, refl)
crc_total false m h = h

copy_total :
    (len : ℕ) (b : List ℕ)
    → 3 + len ≤ length b
    → (bytes : List ℕ) × ((if ltb 0 (len - 3) && leb (len - 3) max_payload_size
          then slice? 4 (4 + (len - 3)) b
          else some [])
        ≡ some bytes)
copy_total len b h = elim (Bool-cases (ltb 0 (len - 3) && leb (len - 3) max_payload_size)) [
  | inl y ↦
      let p : ltb 0 (len - 3) ≡ true = ground arith in
      let q = ltb→lt 0 (len - 3) p in
      (
        take (4 + (len - 3) - 4) (drop 4 b),
        rw y (slice?-eq_some 4 (4 + (len - 3)) b (omega arith) (omega arith)),
      )
  | inr n ↦ ([], rw n)
]

taken-Accounts :
    (valid : Bool) (len : ℕ) (r : PacketReader) (q : RxPacket)
    → 3 + len ≤ length r.buffer
    → Accounts r.buffer (
        some (
          if valid
          then packet (record { buffer = drop (3 + len) r.buffer; packet = q })
          else again (record r { buffer = drop 1 r.buffer })))
unfolding Accounts
taken-Accounts true len r q h = ((3 + len, refl), omega (arith, length-drop (3 + len) r.buffer))
taken-Accounts false len r q h = ((1, refl), omega (arith, length-drop 1 r.buffer))

extract-Accounts :
    (len : ℕ) (r : PacketReader) (t : List ℕ)
    → r.buffer ≡ sync_byte_1 ∷ sync_byte_2 ∷ len ∷ t
    → len ≤ length t
    → Accounts r.buffer (extract len r)
unfolding extract
extract-Accounts len r t e h =
    let room : 3 + len ≤ length r.buffer = omega (arith, ap (λ (x : List ℕ). length x) e) in
    Accounts-bind r.buffer (get_elem? r.buffer 3) _
      (λ n. short λ s. let (c, ec) = get_elem?-lt r.buffer 3 (omega arith) in cc (n, ec))
      λ cmd.
        Accounts-bind r.buffer
          (if cmd == cmd_initialize then some true else verify_checksum (3 + len) r.buffer) _
          (λ n. short λ s.
            let (v, ev) =
              crc_total (cmd == cmd_initialize) _ (verify_checksum_total len r.buffer s room) in
            cc (n, ev))
          λ valid.
            Accounts-bind r.buffer
              (if ltb 0 (len - 3) && leb (len - 3) max_payload_size
                then slice? 4 (4 + (len - 3)) r.buffer
                else some [])
              _ (λ n. let (bs, eb) = copy_total len r.buffer room in cc (n, eb))
              λ bytes. taken-Accounts valid len r _ room
  where
    short : (2 ≤ len → ⊥) → HasShort r.buffer
    short no_room = elim (dec_lt len 2) [
      | yes s ↦ (0, len, t, e, s)
      | no s ↦ absurd (no_room (omega arith))
    ]

wait_suffix :
    (b : List ℕ) (r : PacketReader) (k : ℕ)
    → r.buffer ≡ drop k b
    → length r.buffer < 258
    → Accounts b (some (wait r))
unfolding Accounts
wait_suffix b r k e h = ((k, e), h)

-- Accounts of a buffer from which bytes were dropped first.
Accounts-drop : (b : List ℕ) (k : ℕ) (m : Option Round) → Accounts (drop k b) m → Accounts b m
unfolding Accounts
Accounts-drop b k none (j, len, t, e, h) = (k + j, len, t, sym (drop-drop j k b) ∙ e, h)
Accounts-drop b k (some (wait r)) ((j, e), h) = ((k + j, e ∙ drop-drop j k b), h)
Accounts-drop b k (some (packet r)) ((j, e), h) =
    ((k + j, e ∙ drop-drop j k b), omega (arith, length-drop k b))
Accounts-drop b k (some (again r)) ((j, e), h) =
    ((k + j, e ∙ drop-drop j k b), omega (arith, length-drop k b))

at_sync-Accounts :
    (q : RxPacket) (b : List ℕ) (t : List ℕ)
    → b ≡ sync_byte_1 ∷ sync_byte_2 ∷ t
    → All IsByte t
    → Accounts b (at_sync (record { buffer = b; packet = q }))
unfolding at_sync
at_sync-Accounts q b [] e h =
    rw (lt→ltb (length b) 3 (omega (arith, ap (λ (x : List ℕ). length x) e))) (
      wait_suffix b (record { buffer = b; packet = q }) 0 refl
        (omega (arith, ap (λ (x : List ℕ). length x) e)))
at_sync-Accounts q b (len ∷ t) e h =
    let size : length b ≡ 3 + length t = omega (arith, ap (λ (x : List ℕ). length x) e) in
    let third : get_elem? b 2 ≡ some len = ap (λ (x : List ℕ). get_elem? x 2) e in
    elim (Bool-cases (ltb (length b) (3 + len))) [
      | inl few ↦
          rw (le→ltb (length b) 3 (omega arith), third, few)
            (wait_suffix b (record { buffer = b; packet = q }) 0 refl (omega (tests, few, h.0)))
      | inr enough ↦
          rw (le→ltb (length b) 3 (omega arith), third, enough)
            (extract-Accounts len (record { buffer = b; packet = q }) t e (omega (tests, enough)))
    ]

-- The bytes that are kept when no sync pattern is there.
keep : PacketReader → ℕ
keep r = if is_sync (last r.buffer) then 1 else 0

keep-le : (r : PacketReader) → keep r ≤ 1
unfolding keep
keep-le r = ground arith

round-Accounts : (r : PacketReader) → All IsByte r.buffer → Accounts r.buffer (round r)
unfolding round no_sync keep
round-Accounts r h = elim (Bool-cases (ltb (length r.buffer) 3)) [
  | inl few ↦ rw few (wait_suffix r.buffer r 0 refl (omega (tests, few)))
  | inr enough ↦ elim (Option-cases (find_sync r.buffer)) [
    | inl m ↦
        rw (enough, m)
          (wait_suffix r.buffer (no_sync r) (length r.buffer - keep r) refl
            (omega (arith, length-drop (length r.buffer - keep r) r.buffer, keep-le r)))
    | inr (i, m) ↦
        let (t, e) = find_sync_lem r.buffer i m in
        rw (enough, m)
          (Accounts-drop r.buffer i _ (
            at_sync-Accounts r.packet (drop i r.buffer) t e
              (rw e at (All-drop IsByte i r.buffer h)).1.1))
  ]
]

-- What a call does to the buffer `b` that it finds: it returns, and what it leaves in the buffer is
-- the end of what it found.
abbrev pub Returns : List ℕ → Outcome → Type 0
Returns b (nothing r) = IsSuffix r.buffer b × (length r.buffer < 258)
Returns b (found r) = IsSuffix r.buffer b × (length r.buffer < length b)
Returns b (failed r) = ⊥
Returns b panic = HasShort b
Returns b stuck = ⊥

Returns-suffix :
    (b s : List ℕ) (o : Outcome) → IsSuffix s b → length s ≤ length b → Returns s o → Returns b o
Returns-suffix b s (nothing r) (k, e) l ((j, f), h) =
    ((k + j, f ∙ ap (λ x. drop j x) e ∙ drop-drop j k b), h)
Returns-suffix b s (found r) (k, e) l ((j, f), h) =
    ((k + j, f ∙ ap (λ x. drop j x) e ∙ drop-drop j k b), omega arith)
Returns-suffix b s (failed r) i l h = h
Returns-suffix b s panic (k, e) l (j, len, t, f, h) =
    (k + j, len, t, sym (ap (λ x. drop j x) e ∙ drop-drop j k b) ∙ f, h)
Returns-suffix b s stuck i l h = h

step-Returns :
    (fuel : ℕ) (r : PacketReader) (m : Option Round)
    → All IsByte r.buffer
    → round r ≡ m
    → Accounts r.buffer m
    → ((r' : PacketReader)
        → All IsByte r'.buffer
        → length r'.buffer < length r.buffer
        → Returns r'.buffer (parse_loop fuel r'))
    → Returns r.buffer (parse_loop (suc fuel) r)
unfolding Accounts
step-Returns fuel r none b e a rest = rw (parse_loop-none fuel r e) a
step-Returns fuel r (some (wait r')) b e a rest = rw (parse_loop-wait fuel r r' e) a
step-Returns fuel r (some (packet r')) b e a rest = rw (parse_loop-packet fuel r r' e) a
step-Returns fuel r (some (again r')) b e ((k, f), l) rest = rw (parse_loop-again fuel r r' e) (
    Returns-suffix r.buffer r'.buffer (parse_loop fuel r') (k, f) (omega arith)
      (rest r' (rw f (All-drop IsByte k r.buffer b)) l))

parse_loop-Returns :
    (fuel : ℕ) (r : PacketReader)
    → All IsByte r.buffer
    → length r.buffer < fuel
    → Returns r.buffer (parse_loop fuel r)
parse_loop-Returns zero r h l = absurd (omega arith)
parse_loop-Returns (suc fuel) r h l =
    step-Returns fuel r (round r) h refl (round-Accounts r h)
      (λ r' h' l'. parse_loop-Returns fuel r' h' (omega arith))

-- Finding: a sync pattern, a length byte below 2 and a command other than the one without checksum
-- make the call panic, whatever follows.
pub try_parse_packet-short :
    (q : RxPacket) (len cmd : ℕ) (rest : List ℕ)
    → len < 2
    → cmd ≢ cmd_initialize
    → try_parse_packet (synced q len (cmd ∷ rest)) ≡ panic
unfolding try_parse_packet extract verify_checksum
try_parse_packet-short q zero cmd rest h n =
    parse_loop-none _ _
      (round-extract q 0 (cmd ∷ rest) (omega arith) ∙ rw (ne→== cmd cmd_initialize n))
try_parse_packet-short q (suc zero) cmd rest h n =
    parse_loop-none _ _
      (round-extract q 1 (cmd ∷ rest) (omega arith) ∙ rw (ne→== cmd cmd_initialize n))
try_parse_packet-short q (suc (suc len)) cmd rest h n = absurd (omega arith)

-- On any bytes at all the loop ends within the fuel: the call returns no packet, and then fewer than
-- 258 bytes stay in the buffer; or it returns a packet, and takes bytes off the buffer; or it
-- panics, and then the buffer has a sync pattern with a length byte below 2 behind it. What stays in
-- the buffer is always the end of what was there.
pub try_parse_packet-Returns :
    (r : PacketReader) → All IsByte r.buffer → Returns r.buffer (try_parse_packet r)
unfolding try_parse_packet
try_parse_packet-Returns r h = parse_loop-Returns (suc (length r.buffer)) r h (omega arith)
