-- ===== src/Delta2D/Drain.antt =====
-- delta2d/mod.rs: the inner loop and an iteration of the outer one, against the parser alone.
use mathlib.Core.Option
use vacuum_tiger.Prelude.{
  ℕ, zero, suc, ◌+◌, ◌%◌, ◌^◌, ◌<◌, ◌≡◌, refl, sym, ap, ◌∙◌, Bool, Option, none, some, List, [],
  ◌∷◌, map, append-nil, length, drop, length-drop, ◌⊎◌, inl, inr, arith,
}
use mathlib.Core.Path.{subst}
use vacuum_tiger.Delta2D.Core.{
  Floats, LidarPoint, Delta2DPacketReader, ReadOutcome, ReadResult, total, io_error, unread,
  read_loop, read_bytes, ParseResult, scan, health, nothing, Parsed, parsed, stuck, parse_next,
  total_len,
}
use vacuum_tiger.Delta2D.Outcome.{Outcome, Settles}
use vacuum_tiger.Delta2D.Settles.{parse_next-Settles}
use vacuum_tiger.Delta2D.Driver.{
  rotated, check_timeout, handle_scan, Drained, drained, hung, drain, on_read, iteration,
}
use vacuum_tiger.Delta2D.Account.{
  concat, map-append, St, Accounts, Accounts-refl, Accounts-trans, handle_scan-Accounts,
  handle_scan-reader, check_timeout-Accounts, check_timeout-reader,
}
use vacuum_tiger.Delta2D.Reads.{Reads, Stops, read_loop-Reads}

module _ (fl : Floats) where
  -- The calls of the parser without the driver: its scans up to the first call without a result, and
  -- the reader then.
  unfoldable pub scans_of :
      ℕ → Delta2DPacketReader → Option (List (List (LidarPoint fl)) × Delta2DPacketReader)
  scans_of zero r = none
  scans_of (suc fuel) r = elim (parse_next fl r) [
    | stuck ↦ none
    | parsed p r' ↦ elim p [
      | scan points ↦ Option.map (λ s. (points ∷ s.0, s.1)) (scans_of fuel r')
      | health ↦ scans_of fuel r'
      | nothing ↦ some ([], r')
    ]
  ]

  -- A call that returns something takes a packet off the buffer, and the counter stays a u64.
  taken :
      (r : Delta2DPacketReader) (p : ParseResult fl) (r' : Delta2DPacketReader)
      → Outcome fl r p r'
      → ((p ≡ nothing) ⊎ (length r'.buffer < length r.buffer)) × (r'.bytes_discarded < 2 ^ 64)
  taken r p r' (k, l, inl (n, (b, d, f), w)) = (inl n, omega arith)
  taken r p r' (k, l, inr (starts, fits, e, b, d, f)) =
      let n = k + total_len (drop k r.buffer) in
      let cut : length r'.buffer ≡ length (drop n r.buffer) = ap (λ xs. length xs) b in
      (inr (omega (arith, length-drop n r.buffer)), omega arith)

module _ (fl : Floats) (exceeds : ℕ → ℕ → Bool) where
  -- The loop came to an end, with the parser where it is alone after the same scans, and the points
  -- of those scans accounted for.
  abbrev Through :
      St fl exceeds
      → Option (List (List (LidarPoint fl)) × Delta2DPacketReader)
      → Drained fl exceeds
      → Type 0
  Through s none d = ⊥
  Through s (some (scans, r)) hung = ⊥
  Through s (some (scans, r)) (drained t) =
      (t.reader ≡ r) × Accounts fl exceeds s (map (rotated fl exceeds) (concat scans)) t

  Through-scan :
      (points : List (LidarPoint fl)) (s t : St fl exceeds)
      (o : Option (List (List (LidarPoint fl)) × Delta2DPacketReader)) (d : Drained fl exceeds)
      → Accounts fl exceeds s (map (rotated fl exceeds) points) t
      → Through t o d
      → Through s (Option.map (λ q. (points ∷ q.0, q.1)) o) d
  Through-scan points s t none d a h = h
  Through-scan points s t (some (scans, r)) hung a h = h
  Through-scan points s t (some (scans, r)) (drained u) a (e, b) =
      let f = rotated fl exceeds in
      (
        e,
        subst (λ qs. Accounts fl exceeds s qs u) (sym (map-append f points (concat scans)))
            (Accounts-trans fl exceeds s t u (map f points) (map f (concat scans)) a b),
      )

  Through-reader :
      (s : St fl exceeds) (r : Delta2DPacketReader)
      (o : Option (List (List (LidarPoint fl)) × Delta2DPacketReader)) (d : Drained fl exceeds)
      → Through (record s { reader = r }) o d
      → Through s o d
  Through-reader s r none d h = h
  Through-reader s r (some (scans, q)) hung h = h
  Through-reader s r (some (scans, q)) (drained u) h = h

  -- What the rounds behind the first one come to.
  abbrev Later : ℕ → (ℕ → ℕ) → ℕ → ℕ → Type 0
  Later fuel clock k n =
      (t : St fl exceeds)
      → length t.reader.buffer < n
      → t.reader.bytes_discarded < 2 ^ 64
      → Through t (scans_of fl fuel t.reader) (drain fl exceeds fuel clock (suc k) t)

  -- What a round comes to, by what the parser returns.
  drain_step-Through :
      (fuel : ℕ) (clock : ℕ → ℕ) (k : ℕ) (s : St fl exceeds) (out : Parsed fl)
      → parse_next fl s.reader ≡ out
      → Settles fl s.reader out
      → Later fuel clock k (length s.reader.buffer)
      → Through s (scans_of fl (suc fuel) s.reader) (drain fl exceeds (suc fuel) clock k s)
  unfolding scans_of drain
  drain_step-Through fuel clock k s stuck e a later = absurd a
  drain_step-Through fuel clock k s (parsed nothing r) e a later =
      rw (scans_of, drain, e) (refl, Accounts-refl fl exceeds s)
  drain_step-Through fuel clock k s (parsed health r) e a later =
      let (c, d) = taken fl s.reader health r a in
      elim c [
        | inl n ↦ absurd cc
        | inr l ↦
            rw (scans_of, drain, e)
              (Through-reader s r (scans_of fl fuel r)
                (drain fl exceeds fuel clock (suc k) (record s { reader = r }))
                (later (record s { reader = r }) l d))
      ]
  drain_step-Through fuel clock k s (parsed (scan points) r) e a later =
      let (c, d) = taken fl s.reader (scan points) r a in
      elim c [
        | inl n ↦ absurd cc
        | inr l ↦
            let t = handle_scan fl exceeds (clock k) points r s in
            let same : t.reader ≡ r = handle_scan-reader fl exceeds (clock k) points r s in
            let l' = subst (λ q. length q.buffer < length s.reader.buffer) (sym same) l in
            let d' = subst (λ q. q.bytes_discarded < 2 ^ 64) (sym same) d in
            let rest =
              subst (λ q. Through t (scans_of fl fuel q) (drain fl exceeds fuel clock (suc k) t))
                same (later t l' d') in
            rw (scans_of, drain, e)
              (Through-scan points s t (scans_of fl fuel r) (drain fl exceeds fuel clock (suc k) t)
                (handle_scan-Accounts fl exceeds (clock k) points r s) rest)
      ]

  drain-Through :
      (fuel : ℕ) (clock : ℕ → ℕ) (k : ℕ) (s : St fl exceeds)
      → length s.reader.buffer < fuel
      → s.reader.bytes_discarded < 2 ^ 64
      → Through s (scans_of fl fuel s.reader) (drain fl exceeds fuel clock k s)
  drain-Through zero clock k s h b = absurd (omega arith)
  drain-Through (suc fuel) clock k s h b =
      drain_step-Through fuel clock k s (parse_next fl s.reader) refl
        (parse_next-Settles fl s.reader b)
        (λ t l d. drain-Through fuel clock (suc k) t (omega arith) d)

  -- What an iteration comes to, by what `read_bytes` returns: with the bytes read, the loop ends,
  -- the parser is where it is alone after the scans that it returns up to its first call without a
  -- result, and the points of those scans are accounted for. With an error, only the reader's
  -- buffer and the count of errors may differ.
  abbrev pub IterationOf : St fl exceeds → ReadResult → Drained fl exceeds → Type 0
  IterationOf s q hung = ⊥
  IterationOf s unread d = ⊥
  IterationOf s (total n r) (drained t) =
      (scans : List (List (LidarPoint fl))) × (scans_of fl (suc (length r.buffer)) r
        ≡ some (scans, t.reader))
      × Accounts fl exceeds s (map (rotated fl exceeds) (concat scans)) t
  IterationOf s (io_error r) (drained t) =
      t ≡ record s { reader = r; error_count = (s.error_count + 1) % 2 ^ 64 }

  -- An iteration comes to an end, if one of the reads within the fuel does not fill the buffer of
  -- 2048 bytes: it has fewer, none, a timeout or an error. With the bytes read in the buffer, the
  -- parser goes as far as it goes alone, and the points of just the scans that it returns up to its
  -- first call without a result are added, in order: they are published or wait for it, none is
  -- lost or doubled, and with the scans published before all of more than 50 points, those
  -- published since are too. An error of the port counts as an error and leaves the points alone.
  pub iteration-IterationOf :
      (fuel : ℕ) (port : ℕ → ReadOutcome) (j : ℕ) (clock : ℕ → ℕ) (idle : ℕ) (s : St fl exceeds)
      → j < fuel
      → Stops (port j)
      → s.reader.bytes_discarded < 2 ^ 64
      → IterationOf s (read_bytes fuel port s.reader) (iteration fl exceeds fuel port clock idle s)
  unfolding iteration read_bytes
  iteration-IterationOf fuel port j clock idle s within stops b =
      on_read-IterationOf (read_loop fuel port 0 0 s.reader)
        (read_loop-Reads fuel port 0 j 0 s.reader (omega arith) (omega arith) stops)
    where
      ended :
          (s' : St fl exceeds) (o : Option (List (List (LidarPoint fl)) × Delta2DPacketReader))
          (d : Drained fl exceeds)
          → Through s' o d
          → (scans : List (List (LidarPoint fl))) × (t : St fl exceeds) × (o
              ≡ some (scans, t.reader))
            × (d ≡ drained t)
            × Accounts fl exceeds s' (map (rotated fl exceeds) (concat scans)) t
      ended s' none d h = absurd h
      ended s' (some (scans, r)) hung h = absurd h
      ended s' (some (scans, r)) (drained t) (e, h) =
          (scans, t, ap (λ q. some (scans, q)) (sym e), refl, h)

      on_read-IterationOf :
          (q : ReadResult)
          → Reads 0 s.reader q
          → IterationOf s q (on_read fl exceeds clock idle q s)
      on_read-IterationOf unread h = h
      on_read-IterationOf (io_error r) h = refl
      on_read-IterationOf (total n r) (bytes, c, d, e) =
          let s' : St fl exceeds = record s { reader = r } in
          let fuel = suc (length r.buffer) in
          let (scans, t, o, through, h) =
            ended s' (scans_of fl fuel r) (drain fl exceeds fuel clock 0 s')
              (drain-Through fuel clock 0 s' (omega arith) (omega arith)) in
          let u = check_timeout fl exceeds idle t in
          let f = rotated fl exceeds in
          rw through (
            scans,
            o ∙ ap (λ q. some (scans, q)) (sym (check_timeout-reader fl exceeds idle t)),
            subst (λ qs. Accounts fl exceeds s' qs u) (append-nil (map f (concat scans)))
                (Accounts-trans fl exceeds s' t u (map f (concat scans)) [] h
                  (check_timeout-Accounts fl exceeds idle t)),
          )
