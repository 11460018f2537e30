-- ===== src/Delta2D/Reads.antt =====
-- delta2d/protocol.rs: what `read_bytes` does to the buffer.
use mathlib.Core.Path.{subst}
use vacuum_tiger.Prelude.{
  zero, suc, ◌≤◌, ◌<◌, ltb→le, ==→eq, ==→ne, ℕ, ◌+◌, ◌≡◌, refl, sym, ◌∙◌, List, [], ◌++◌,
  append-nil, append_assoc, length, length-append, inl, inr, ltb, ◌==◌, Bool-cases, arith,
}
use vacuum_tiger.Delta2D.Core.{
  Delta2DPacketReader, ReadOutcome, ReadResult, total, io_error, unread, bytes_read, timed_out,
  would_block, on_outcome, failed, read_loop,
}

-- The bytes read are behind those of the buffer, and counted.
abbrev pub Reads : ℕ → Delta2DPacketReader → ReadResult → Type 0
Reads n r (total m r') =
    (bytes : List ℕ) × (r'.buffer ≡ r.buffer ++ bytes)
    × (m ≡ n + length bytes)
    × (r'.bytes_discarded ≡ r.bytes_discarded)
Reads n r unread = ⊥
Reads n r (io_error r') =
    (bytes : List ℕ) × (r'.buffer ≡ r.buffer ++ bytes) × (r'.bytes_discarded ≡ r.bytes_discarded)

Reads-append :
    (n : ℕ) (r : Delta2DPacketReader) (bytes : List ℕ) (q : ReadResult)
    → Reads (n + length bytes) (record r { buffer = r.buffer ++ bytes }) q
    → Reads n r q
Reads-append n r bytes (total m r') (later, e, c, d) = (
  bytes ++ later,
  e ∙ append_assoc r.buffer bytes later,
  omega (arith, length-append bytes later),
  d,
)
Reads-append n r bytes unread h = h
Reads-append n r bytes (io_error r') (later, e, d) =
    (bytes ++ later, e ∙ append_assoc r.buffer bytes later, d)

read_nothing : (n : ℕ) (r : Delta2DPacketReader) → Reads n r (total n r)
read_nothing n r = ([], sym (append-nil r.buffer), omega arith, refl)

-- A read behind which the loop does not go on: it does not fill the buffer.
abbrev pub Stops : ReadOutcome → Type 0
Stops (bytes_read bytes) = length bytes < 2048
Stops o = Unit {0}

on_outcome-Reads :
    (o : ReadOutcome) (n : ℕ) (r : Delta2DPacketReader)
    (more : ℕ → Delta2DPacketReader → ReadResult)
    → ((bytes : List ℕ)
        → o ≡ bytes_read bytes
        → 2048 ≤ length bytes
        → Reads
            (n + length bytes)
            (record r { buffer = r.buffer ++ bytes })
            (more (n + length bytes) (record r { buffer = r.buffer ++ bytes })))
    → Reads n r (on_outcome o n r more)
on_outcome-Reads timed_out n r more h = read_nothing n r
on_outcome-Reads would_block n r more h = read_nothing n r
on_outcome-Reads failed n r more h = ([], sym (append-nil r.buffer), refl)
on_outcome-Reads (bytes_read bytes) n r more h =
    let r' : Delta2DPacketReader = record r { buffer = r.buffer ++ bytes } in
    elim (Bool-cases (length bytes == 0)) [
      | inl y ↦ rw y (read_nothing n r)
      | inr y' ↦ elim (Bool-cases (ltb (length bytes) 2048)) [
        | inl z ↦ rw (y', z) (bytes, refl, refl, refl)
        | inr z' ↦
            rw (y', z')
              (Reads-append n r bytes (more (n + length bytes) r')
                (h bytes refl (ltb→le (length bytes) 2048 z')))
      ]
    ]

-- A read that does not fill the buffer, within the fuel, ends the loop.
pub read_loop-Reads :
    (fuel : ℕ) (port : ℕ → ReadOutcome) (k j n : ℕ) (r : Delta2DPacketReader)
    → k ≤ j
    → j < k + fuel
    → Stops (port j)
    → Reads n r (read_loop fuel port k n r)
unfolding read_loop
read_loop-Reads zero port k j n r low high s = absurd (omega arith)
read_loop-Reads (suc fuel) port k j n r low high s =
    on_outcome-Reads (port k) n r (λ n r'. read_loop fuel port (k + 1) n r')
      (λ bytes e full.
        read_loop-Reads fuel port (k + 1) j (n + length bytes)
          (record r { buffer = r.buffer ++ bytes }) (later bytes e full) (omega arith) s)
  where
    later : (bytes : List ℕ) → port k ≡ bytes_read bytes → 2048 ≤ length bytes → k + 1 ≤ j
    later bytes e full = elim (Bool-cases (k == j)) [
      | inr m ↦ let different = ==→ne k j m in omega arith
      | inl m ↦
          let z : Stops (port k) = subst (λ i. Stops (port i)) (sym (==→eq k j m)) s in
          let z' : length bytes < 2048 = subst (λ o. Stops o) e z in absurd (omega arith)
    ]
