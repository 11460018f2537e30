-- ===== src/Gd32/Reader/Steps.antt =====
-- protocol.rs: the rounds of the loop on a buffer that starts with a whole packet.
use vacuum_tiger.Prelude.{
  ℕ, suc, ◌+◌, ◌-◌, ◌*◌, ◌≤◌, ◌≡◌, refl, ap, ◌∙◌, List, [], ◌∷◌, ◌++◌, some, length, slice?, ◌==◌,
  arith, get_elem?-append_length, get_elem?-append_next, take-length_append, length-append,
  slice?-eq_some, take, drop, drop-length_append, ltb, le→ltb, leb, le→leb, lt→ltb, if◌then◌else◌,
  Bool, false, none, true, ◌<◌, ◌&&◌, drop-drop, ◌⊎◌,
}
use vacuum_tiger.Gd32.Constants.{sync_byte_1, sync_byte_2, cmd_initialize}
use vacuum_tiger.Gd32.Checksum.{checksum}
use vacuum_tiger.Gd32.Reader.Core.{
  RxPacket, PacketReader, wait, packet, again, find_sync, parse_loop, found, nothing, panic,
  set_packet, verify_checksum, extract, at_sync, round,
}

-- The range of the bytes `[i..]` of a packet whose header is `h` and that goes on with `xs`.
slice?-behind :
    (h xs ys : List ℕ) (b : ℕ)
    → b ≡ length h + length xs
    → slice? (length h) b (h ++ (xs ++ ys)) ≡ some xs
slice?-behind h xs ys b e =
    slice?-eq_some (length h) b (h ++ (xs ++ ys)) (omega arith)
      (omega (arith, length-append h (xs ++ ys), length-append xs ys))
    ∙ rw (drop-length_append h (xs ++ ys)) (
        ap some (
          ap (λ (k : ℕ). take k (xs ++ ys)) {y = length xs} (omega arith)
          ∙ take-length_append xs ys))

-- The checksum test reads the bytes behind the length, and the two behind those.
verify_checksum-frame :
    (a b l cmd hi lo : ℕ) (payload rest : List ℕ)
    → verify_checksum (3 + (length payload + 3)) (a ∷ b ∷ l ∷ cmd ∷ (payload ++ (hi ∷ lo ∷ rest)))
      ≡ some (checksum (cmd ∷ payload) == hi * 256 + lo)
unfolding verify_checksum
verify_checksum-frame a b l cmd hi lo payload rest =
    let n = length payload in
    let e : 3 + (n + 3) - 2 ≡ suc (suc (suc (suc n))) = omega arith in
    let e' : 3 + (n + 3) - 1 ≡ suc (suc (suc (suc (suc n)))) = omega arith in
    rw (
      e,
      e',
      get_elem?-append_length payload hi (lo ∷ rest),
      get_elem?-append_next payload hi lo rest,
      slice?-behind (a ∷ b ∷ l ∷ []) (cmd ∷ payload) (hi ∷ lo ∷ rest) (suc (suc (suc (suc n))))
          (omega arith),
    )

-- The payload that step 5 copies out, for every length that a packet may have.
copied :
    (a b l cmd : ℕ) (payload ys : List ℕ)
    → length payload ≤ 128
    → (if ltb 0 (length payload) && leb (length payload) 128
        then slice? 4 (4 + length payload) (a ∷ b ∷ l ∷ cmd ∷ (payload ++ ys))
        else some [])
      ≡ some payload
copied a b l cmd [] ys h = refl
copied a b l cmd (x ∷ payload) ys h = rw (
  lt→ltb 0 (length (x ∷ payload)) (omega arith),
  le→leb (length (x ∷ payload)) 128 h,
  slice?-behind (a ∷ b ∷ l ∷ cmd ∷ []) (x ∷ payload) ys (4 + length (x ∷ payload)) (omega arith),
)

behind :
    (a b l cmd hi lo : ℕ) (payload rest : List ℕ)
    → drop (3 + (length payload + 3)) (a ∷ b ∷ l ∷ cmd ∷ (payload ++ (hi ∷ lo ∷ rest))) ≡ rest
behind a b l cmd hi lo payload rest =
    let n = length payload in
    let e : 3 + (n + 3) ≡ suc (suc (suc (suc (n + 2)))) = omega arith in
    rw (
      e,
      ← drop-drop 2 n (payload ++ (hi ∷ lo ∷ rest)),
      drop-length_append payload (hi ∷ lo ∷ rest),
    )

passes :
    (init valid : Bool)
    → (init ≡ true) ⊎ (valid ≡ true)
    → (if init then some true else some valid) ≡ some true
passes true valid h = refl
passes false true h = refl
passes false false h = ground arith

-- A buffer with a sync pattern in front, and a length byte.
abbrev pub synced : RxPacket → ℕ → List ℕ → PacketReader
synced q len rest = record { buffer = sync_byte_1 ∷ sync_byte_2 ∷ len ∷ rest; packet = q }

-- The pattern is found at once, and the length byte says how much to wait for.
pub round-wait :
    (q : RxPacket) (len : ℕ) (rest : List ℕ)
    → length rest < len
    → round (synced q len rest) ≡ some (wait (synced q len rest))
unfolding round at_sync find_sync
round-wait q len rest h = rw (
  le→ltb (suc (suc (suc (length rest)))) 3 (omega arith),
  lt→ltb (suc (suc (suc (length rest)))) (3 + len) (omega arith),
)

pub round-extract :
    (q : RxPacket) (len : ℕ) (rest : List ℕ)
    → len ≤ length rest
    → round (synced q len rest) ≡ extract len (synced q len rest)
unfolding round at_sync find_sync
round-extract q len rest h = rw (
  le→ltb (suc (suc (suc (length rest)))) 3 (omega arith),
  le→ltb (suc (suc (suc (length rest)))) (3 + len) (omega arith),
)

module _ (q : RxPacket) (cmd hi lo : ℕ) (payload rest : List ℕ) (fits : length payload ≤ 128) where
  abbrev loaded : PacketReader
  loaded = synced q (length payload + 3) (cmd ∷ (payload ++ (hi ∷ lo ∷ rest)))

  abbrev taken : PacketReader
  taken = record { buffer = rest; packet = set_packet cmd payload q }

  pub round-valid :
      ((cmd == cmd_initialize) ≡ true) ⊎ ((checksum (cmd ∷ payload) == hi * 256 + lo) ≡ true)
      → round loaded ≡ some (packet taken)
  unfolding extract
  round-valid good =
      let e : length payload + 3 - 3 ≡ length payload = omega arith in
      round-extract q (length payload + 3) (cmd ∷ (payload ++ (hi ∷ lo ∷ rest)))
        (omega (arith, length-append payload (hi ∷ lo ∷ rest)))
      ∙ rw (
        verify_checksum-frame sync_byte_1 sync_byte_2 (length payload + 3) cmd hi lo payload rest,
        e,
        copied sync_byte_1 sync_byte_2 (length payload + 3) cmd payload (hi ∷ lo ∷ rest) fits,
        behind sync_byte_1 sync_byte_2 (length payload + 3) cmd hi lo payload rest,
        passes (cmd == cmd_initialize) (checksum (cmd ∷ payload) == hi * 256 + lo) good,
      )

-- How the loop goes on after a round.
pub parse_loop-packet :
    (fuel : ℕ) (r r' : PacketReader)
    → round r ≡ some (packet r')
    → parse_loop (suc fuel) r ≡ found r'
unfolding parse_loop
parse_loop-packet fuel r r' h = rw (h, parse_loop)

pub parse_loop-wait :
    (fuel : ℕ) (r r' : PacketReader)
    → round r ≡ some (wait r')
    → parse_loop (suc fuel) r ≡ nothing r'
unfolding parse_loop
parse_loop-wait fuel r r' h = rw (h, parse_loop)

pub parse_loop-again :
    (fuel : ℕ) (r r' : PacketReader)
    → round r ≡ some (again r')
    → parse_loop (suc fuel) r ≡ parse_loop fuel r'
unfolding parse_loop
parse_loop-again fuel r r' h = rw (h, parse_loop)

pub parse_loop-none :
    (fuel : ℕ) (r : PacketReader) → round r ≡ none → parse_loop (suc fuel) r ≡ panic
unfolding parse_loop
parse_loop-none fuel r h = rw (h, parse_loop)
