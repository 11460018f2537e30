-- ===== src/S5Max/Lds/Reading.antt =====
-- lds.rs: what a stream of bytes says, independent of the decoder that reads it.
use vacuum_tiger.Prelude.{
  ℕ, suc, ◌+◌, ◌≤◌, ◌<◌, ◌≡◌, ◌≢◌, refl, sym, Bool, false, Option, none, some, List, [], ◌∷◌, ◌++◌,
  length, take, drop, take-append-drop, position, Option-cases, Bool-cases, inl, inr, ◌==◌, arith,
}
use mathlib.Core.Path.{subst}
use vacuum_tiger.S5Max.Lds.Packet.{sync, index_min, index_max, LdsPacket, parse, packet_checksum}

-- The shape of a packet that was parsed.
abbrev pub InRange : LdsPacket → Type 0
InRange p = (index_min ≤ p.index) × (p.index ≤ index_max) × (length p.samples ≡ 4)

-- A packet that stands in 22 bytes with the right checksum.
abbrev pub Carries : List ℕ → LdsPacket → Type 0
Carries raw p = (length raw ≡ 22) × (parse raw ≡ some p) × (p.checksum ≡ packet_checksum raw)

-- No packet starts a list of bytes: it has no sync byte in front, or it has 22 bytes that carry none.
pub data Lacks : List ℕ → Type 0 where
  other_byte : {b : ℕ} {bytes : List ℕ} → (b == sync) ≡ false → Lacks (b ∷ bytes)
  no_packet :
      {bytes : List ℕ}
      → 22 ≤ length bytes
      → ((p : LdsPacket)
          → parse (take 22 bytes) ≡ some p
          → p.checksum ≢ packet_checksum (take 22 bytes))
      → Lacks bytes

-- The reading of a stream: the packets in it, the rest that is kept, and the count of bytes dropped.
-- A packet takes just its own bytes, a byte is dropped only where no packet starts, and a rest is
-- kept as long as it is shorter than a packet.
pub data Reading : List ℕ → List LdsPacket → List ℕ → ℕ → Type 0 where
  kept : {bytes : List ℕ} → length bytes < 22 → Reading bytes [] bytes 0
  dropped :
      {b : ℕ} {bytes rest : List ℕ} {ps : List LdsPacket} {n m : ℕ}
      → Lacks (b ∷ bytes)
      → Reading bytes ps rest n
      → m ≡ n + 1
      → Reading (b ∷ bytes) ps rest m
  packet :
      (raw : List ℕ) {bytes rest : List ℕ} {p : LdsPacket} {ps : List LdsPacket} {n : ℕ}
      → Carries raw p
      → Reading bytes ps rest n
      → Reading (raw ++ bytes) (p ∷ ps) rest n

pub parse-InRange : (raw : List ℕ) (p : LdsPacket) → parse raw ≡ some p → InRange p
unfolding parse
parse-InRange raw p e = ground arith

abbrev pub is_sync : ℕ → Bool
is_sync byte = byte == sync

-- The bytes in front of the first sync byte are dropped.
pub dropped_before :
    (bytes : List ℕ) (i : ℕ) {ps : List LdsPacket} {rest : List ℕ} {n : ℕ}
    → position is_sync bytes ≡ some i
    → Reading (drop i bytes) ps rest n
    → Reading bytes ps rest (n + i)
dropped_before [] i e r = cc
dropped_before (b ∷ bytes) i {ps} {rest} {n} e r = elim (Bool-cases (is_sync b)) [
  | inl y ↦
      let z : some 0 ≡ some i = rw y at e in
      let z' : 0 ≡ i = cc in
      subst (λ k. Reading (drop k (b ∷ bytes)) ps rest n → Reading (b ∷ bytes) ps rest (n + k)) z'
        (λ q. let z : n ≡ n + 0 = omega arith in subst (λ k. Reading (b ∷ bytes) ps rest k) z q) r
  | inr m ↦ elim (Option-cases (position is_sync bytes)) [
    | inl l ↦ let z : ◌≡◌ {A = Option ℕ} none (some i) = rw (m, l) at e in cc
    | inr (j, l) ↦
        let z : some (suc j) ≡ some i = rw (m, l) at e in
        let z' : suc j ≡ i = cc in
        let r' = subst (λ k. Reading (drop k (b ∷ bytes)) ps rest n) (sym z') r in
        dropped (other_byte m) (dropped_before bytes j l r') (omega arith)
  ]
]

pub dropped_all :
    (bytes : List ℕ) → position is_sync bytes ≡ none → Reading bytes [] [] (length bytes)
dropped_all [] e = kept (omega arith)
dropped_all (b ∷ bytes) e = elim (Bool-cases (is_sync b)) [
  | inl y ↦ let z : ◌≡◌ {A = Option ℕ} (some 0) none = rw y at e in cc
  | inr m ↦ elim (Option-cases (position is_sync bytes)) [
    | inl l ↦ dropped (other_byte m) (dropped_all bytes l) (omega arith)
    | inr (j, l) ↦ let z : ◌≡◌ {A = Option ℕ} (some (suc j)) none = rw (m, l) at e in cc
  ]
]

pub drop_one :
    (bytes : List ℕ) {ps : List LdsPacket} {rest : List ℕ} {n : ℕ}
    → Lacks bytes
    → 22 ≤ length bytes
    → Reading (drop 1 bytes) ps rest n
    → Reading bytes ps rest (n + 1)
drop_one [] l h r = absurd (omega arith)
drop_one (b ∷ bytes) l h r = dropped l r refl

pub take_packet :
    (bytes : List ℕ) {p : LdsPacket} {ps : List LdsPacket} {rest : List ℕ} {n : ℕ}
    → Carries (take 22 bytes) p
    → Reading (drop 22 bytes) ps rest n
    → Reading bytes (p ∷ ps) rest n
take_packet bytes {p} {ps} {rest} {n} c r =
    subst (λ b. Reading b (p ∷ ps) rest n) (take-append-drop 22 bytes) (packet (take 22 bytes) c r)
