-- ===== src/S5Max/Lds/Seen.antt =====
-- lds.rs: an assembler that is fed packets in range never panics, and counts what it has seen.
use vacuum_tiger.Prelude.{
  ℕ, zero, suc, ◌+◌, ◌-◌, ◌%◌, ◌≤◌, ◌<◌, ◌≡◌, refl, ◌∙◌, Bool, true, false, Option, none, some,
  List, [], ◌∷◌, length, length-set, get_elem?, get_elem?-lt, set, lt→ltb, ne→==, if◌then◌else◌,
  All, arith, Bool-cases, inl, inr,
}
use mathlib.Core.Option
use vacuum_tiger.S5Max.Lds.Packet.{LdsSample, LdsPacket, start_angle_degrees, index_min}
use vacuum_tiger.S5Max.Lds.Reading.{InRange}
use vacuum_tiger.S5Max.Lds.Revolution.{
  LdsRevolution, RevolutionBuilder, new, place, inserted, repeated, insert, finish, wraps,
  get_or_new, push, finish_current,
}

abbrev pub count_seen : List Bool → ℕ
count_seen [] = 0
count_seen (b ∷ bs) = if b then count_seen bs + 1 else count_seen bs

count_seen-le : (bs : List Bool) → count_seen bs ≤ length bs
count_seen-le [] = omega arith
count_seen-le (true ∷ bs) = omega (arith, count_seen-le bs)
count_seen-le (false ∷ bs) = omega (arith, count_seen-le bs)

count_seen-set :
    (bs : List Bool) (i : ℕ)
    → get_elem? bs i ≡ some false
    → count_seen (set bs i true) ≡ count_seen bs + 1
count_seen-set [] i e = cc
count_seen-set (b ∷ bs) zero e = let z : b ≡ false = cc in rw z refl
count_seen-set (true ∷ bs) (suc i) e = omega (arith, count_seen-set bs i e)
count_seen-set (false ∷ bs) (suc i) e = count_seen-set bs i e

-- The arrays have their sizes, and the packets counted are those seen.
pub record Built (b : RevolutionBuilder) : Type 0 where
  pub packets : length b.seen_packets ≡ 90
  pub slots : length b.revolution.samples ≡ 360
  pub counted : b.revolution.packet_count ≡ count_seen b.seen_packets

new-Built : Built new
new-Built = record { packets = refl; slots = refl; counted = refl }

place-fits :
    (i : ℕ) (samples : List LdsSample) (slots : List (Option LdsSample))
    → i + length samples ≤ length slots
    → (placed : List (Option LdsSample)) × (place i samples slots ≡ some placed)
      × (length placed ≡ length slots)
unfolding place
place-fits i [] slots h = (slots, refl, refl)
place-fits i (s ∷ samples) slots h =
    let same = length-set slots i (some s) in
    let (placed, e, l) = place-fits (i + 1) samples (set slots i (some s)) (omega arith) in
    (placed, rw (lt→ltb i (length slots) (omega arith)) e, l ∙ same)

seen-positive : (bs : List Bool) (i : ℕ) → get_elem? bs i ≡ some true → 0 < count_seen bs
seen-positive [] i e = cc
seen-positive (b ∷ bs) zero e = let z : b ≡ true = cc in rw z (omega arith)
seen-positive (true ∷ bs) (suc i) e = omega arith
seen-positive (false ∷ bs) (suc i) e = seen-positive bs i e

-- A builder that has counted a packet.
abbrev pub Filled : RevolutionBuilder → Type 0
Filled b = Built b × (0 < b.revolution.packet_count)

repeated-Filled :
    (p : LdsPacket) (b : RevolutionBuilder) (i : ℕ)
    → Built b
    → get_elem? b.seen_packets i ≡ some true
    → Filled (repeated p b)
repeated-Filled p b i h e = (
  record { packets = h.packets; slots = h.slots; counted = h.counted },
  omega (arith, h.counted, seen-positive b.seen_packets i e),
)

inserted-Filled :
    (p : LdsPacket) (b : RevolutionBuilder) (i : ℕ) (placed : List (Option LdsSample))
    → Built b
    → get_elem? b.seen_packets i ≡ some false
    → length placed ≡ length b.revolution.samples
    → Filled (inserted p i b placed)
inserted-Filled p b i placed h e l =
    let counts = count_seen-set b.seen_packets i e in
    let bound = count_seen-le b.seen_packets in
    (
      record {
        packets = length-set b.seen_packets i true ∙ h.packets;
        slots = l ∙ h.slots;
        counted = omega (arith, h.counted, h.packets);
      },
      omega (arith, h.counted, h.packets),
    )

insert-Filled :
    (p : LdsPacket) (b : RevolutionBuilder)
    → InRange p
    → Built b
    → (b' : RevolutionBuilder) × (insert p b ≡ some b') × Filled b'
unfolding insert start_angle_degrees
insert-Filled p b (low, high, four) h =
    let i = (p.index + 256 - index_min) % 256 in
    let (seen, e) = get_elem?-lt b.seen_packets i (omega (arith, h.packets)) in
    elim (Bool-cases seen) [
      | inl y ↦
          let e' : get_elem? b.seen_packets i ≡ some true = cc (e, y) in
          (repeated p b, rw (e', insert) refl, repeated-Filled p b i h e')
      | inr n ↦
          let e' : get_elem? b.seen_packets i ≡ some false = cc (e, n) in
          let (placed, f, l) =
            place-fits (start_angle_degrees p) p.samples b.revolution.samples
              (omega (arith, h.slots)) in
          (inserted p i b placed, rw (e', f, insert) refl, inserted-Filled p b i placed h e' l)
    ]

-- What the assembler holds between calls.
abbrev pub Holds : Option RevolutionBuilder → Type 0
Holds none = Unit {0}
Holds (some b) = Filled b

-- A revolution has all its slots, and between 1 and 90 packets.
abbrev pub IsRevolution : LdsRevolution → Type 0
IsRevolution r = (length r.samples ≡ 360) × (0 < r.packet_count) × (r.packet_count ≤ 90)

abbrev pub Completes : Option LdsRevolution → Type 0
Completes none = Unit {0}
Completes (some r) = IsRevolution r

finish-IsRevolution : (b : RevolutionBuilder) → Filled b → IsRevolution (finish b)
unfolding finish
finish-IsRevolution b (h, pos) =
    let bound = count_seen-le b.seen_packets in
    rw (ne→== b.revolution.packet_count 0 (λ e. omega arith))
      (h.slots, pos, omega (arith, h.counted, h.packets))

get_or_new-Built : (c : Option RevolutionBuilder) → Holds c → Built (get_or_new c)
get_or_new-Built none h = new-Built
get_or_new-Built (some b) h = h.0

finished-Completes : (c : Option RevolutionBuilder) → Holds c → Completes (Option.map finish c)
finished-Completes none h = tt
finished-Completes (some b) h = finish-IsRevolution b h

push-Completes :
    (p : LdsPacket) (c : Option RevolutionBuilder)
    → InRange p
    → Holds c
    → (done : Option LdsRevolution) × (c' : Option RevolutionBuilder) × (push p c ≡ some (done, c'))
      × Completes done
      × Holds c'
unfolding push
push-Completes p c range h = elim (Bool-cases (wraps p c)) [
  | inl y ↦
      let (b, e, filled) = insert-Filled p new range new-Built in
      (Option.map finish c, some b, rw (y, e) refl, finished-Completes c h, filled)
  | inr n ↦
      let (b, e, filled) = insert-Filled p (get_or_new c) range (get_or_new-Built c h) in
      (none, some b, rw (n, e) refl, tt, filled)
]

-- The calls of `push` for a list of packets: the revolutions that they return, and what is held.
abbrev keep : Option LdsRevolution → List LdsRevolution → List LdsRevolution
keep none rs = rs
keep (some r) rs = r ∷ rs

keep-All :
    (done : Option LdsRevolution) (rs : List LdsRevolution)
    → Completes done
    → All IsRevolution rs
    → All IsRevolution (keep done rs)
keep-All none rs d h = h
keep-All (some r) rs d h = (d, h)

unfoldable pub assemble :
    List LdsPacket
    → Option RevolutionBuilder
    → Option (List LdsRevolution × Option RevolutionBuilder)
assemble [] c = some ([], c)
assemble (p ∷ packets) c = elim (push p c) [
  | none ↦ none
  | some (done, c') ↦ Option.map (λ x. (keep done (x.0), x.1)) (assemble packets c')
]

assemble_held :
    (packets : List LdsPacket) (c : Option RevolutionBuilder)
    → All InRange packets
    → Holds c
    → (rs : List LdsRevolution) × (c' : Option RevolutionBuilder) × (assemble packets c
        ≡ some (rs, c'))
      × All IsRevolution rs
      × Holds c'
unfolding assemble
assemble_held [] c ranges h = ([], c, refl, tt, h)
assemble_held (p ∷ packets) c (range, ranges) h =
    let (done, c1, e, d, h1) = push-Completes p c range h in
    let (rs, c2, f, all, h2) = assemble_held packets c1 ranges h1 in
    (keep done rs, c2, rw (e, f, assemble) refl, keep-All done rs d all, h2)

-- An assembler that is fed packets with an index in range and four samples never panics. Each
-- revolution that it completes has 360 slots and between 1 and 90 packets, and so has the one that
-- is finished at the end, if any.
pub assemble-IsRevolution :
    (packets : List LdsPacket)
    → All InRange packets
    → (rs : List LdsRevolution) × (c : Option RevolutionBuilder) × (assemble packets none
        ≡ some (rs, c))
      × All IsRevolution rs
      × Completes (finish_current c)
unfolding finish_current
assemble-IsRevolution packets ranges =
    let (rs, c, e, all, h) = assemble_held packets none ranges tt in
    (rs, c, e, all, finished-Completes c h)
