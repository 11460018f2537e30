-- ===== src/Delta2D/Driver.antt =====
-- delta2d/mod.rs: the loop of the reader thread. The clock gives one reading for each packet, and one
-- when the packets are through. `exceeds` tests the time elapsed between two readings against
-- `SCAN_TIMEOUT_SECS`. The lock of the sensor data is taken to be held without a panic.
use vacuum_tiger.Prelude.{
  ℕ, zero, suc, ◌+◌, ◌%◌, ◌^◌, Bool, ◌&&◌, List, [], ◌∷◌, ◌++◌, length, ltb, if◌then◌else◌,
}
use vacuum_tiger.Delta2D.Core.{
  Floats, LidarPoint, Delta2DPacketReader, new, clear, ReadOutcome, ReadResult, total, io_error,
  unread, read_bytes, scan, health, nothing, parsed, stuck, parse_next,
}

abbrev pub min_scan_points : ℕ
min_scan_points = 50

module _ (fl : Floats) (exceeds : ℕ → ℕ → Bool) where
  open fl use {F32, add, sub, less, zero_angle, pi, angle_offset, mounted}

  -- A point as it is published: angle, distance, quality.
  abbrev pub ScanPoint : Type 0
  ScanPoint = F32 × F32 × ℕ

  -- The variables of the loop. `published` holds the scans given to `publish_scan`, oldest first.
  pub record Reading : Type 0 where
    pub reader : Delta2DPacketReader
    pub accumulated_points : List ScanPoint
    pub last_angle : F32
    pub last_scan_time : ℕ
    pub scan_count : ℕ
    pub error_count : ℕ
    pub published : List (List ScanPoint)

  -- The variables at the start of the loop, with the reading of the clock.
  abbrev pub started : ℕ → Reading
  started now = record {
    reader = clear new;
    accumulated_points = [];
    last_angle = zero_angle;
    last_scan_time = now;
    scan_count = 0;
    error_count = 0;
    published = [];
  }

  -- `publish_scan`, `accumulated_points.clear()` and the new `last_scan_time`.
  unfoldable pub publish : ℕ → Reading → Reading
  publish now s = record s {
    accumulated_points = [];
    last_scan_time = now;
    published = s.published ++ (s.accumulated_points ∷ []);
  }

  abbrev pub rotated : LidarPoint fl → ScanPoint
  rotated p = (mounted (add p.angle angle_offset), p.distance, p.quality)

  abbrev pub push_point : LidarPoint fl → Reading → Reading
  push_point p s = record s {
    accumulated_points = s.accumulated_points ++ (rotated p ∷ []);
    last_angle = p.angle;
  }

  -- A round of the `for` loop over the points.
  unfoldable pub add_point : ℕ → LidarPoint fl → Reading → Reading
  unfolding publish
  add_point now p s =
      if less pi (sub p.angle s.last_angle) && ltb min_scan_points (length s.accumulated_points)
      then push_point p (publish now s)
      else push_point p s

  unfoldable pub add_points : ℕ → List (LidarPoint fl) → Reading → Reading
  unfolding add_point
  add_points now [] s = s
  add_points now (p ∷ ps) s = add_points now ps (add_point now p s)

  unfoldable pub check_timeout : ℕ → Reading → Reading
  unfolding publish
  check_timeout now s =
      if exceeds s.last_scan_time now && ltb min_scan_points (length s.accumulated_points)
      then publish now s
      else s

  -- A scan from the parser, which leaves `r` behind.
  unfoldable pub handle_scan : ℕ → List (LidarPoint fl) → Delta2DPacketReader → Reading → Reading
  unfolding add_points check_timeout
  handle_scan now points r s =
      check_timeout now
        (add_points now points (record s { reader = r; scan_count = (s.scan_count + 1) % 2 ^ 64 }))

  -- The inner `loop`; `hung` means that the fuel ran out.
  pub data Drained : Type 0 where
    drained : Reading → Drained
    hung : Drained

  -- The inner loop, with the readings of the clock from the `k`-th on.
  unfoldable pub drain : ℕ → (ℕ → ℕ) → ℕ → Reading → Drained
  unfolding handle_scan
  drain zero clock k s = hung
  drain (suc fuel) clock k s = elim (parse_next fl s.reader) [
    | stuck ↦ hung
    | parsed p r ↦ elim p [
      | scan points ↦ drain fuel clock (suc k) (handle_scan (clock k) points r s)
      | health ↦ drain fuel clock (suc k) (record s { reader = r })
      | nothing ↦ drained (record s { reader = r })
    ]
  ]

  abbrev pub then_idle : ℕ → Drained → Drained
  then_idle now hung = hung
  then_idle now (drained s) = drained (check_timeout now s)

  abbrev pub on_read : (ℕ → ℕ) → ℕ → ReadResult → Reading → Drained
  on_read clock idle (total n r) s =
      then_idle idle (drain (suc (length r.buffer)) clock 0 (record s { reader = r }))
  on_read clock idle unread s = hung
  on_read clock idle (io_error r) s =
      drained (record s { reader = r; error_count = (s.error_count + 1) % 2 ^ 64 })

  -- An iteration of the `while` loop, on what the port returns, with fuel for its reads, and the
  -- readings of the clock, for the packets and at the end.
  unfoldable pub iteration : ℕ → (ℕ → ReadOutcome) → (ℕ → ℕ) → ℕ → Reading → Drained
  unfolding drain check_timeout
  iteration fuel port clock idle s = on_read clock idle (read_bytes fuel port s.reader) s
