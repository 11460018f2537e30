-- ===== src/Gd32/Sensors/Reads.antt =====
-- reader.rs: the bytes of a status packet are all in range, and every value is set.
use mathlib.Core.Option
use vacuum_tiger.Prelude.{
  ℕ, ◌+◌, ◌*◌, ◌%◌, ◌^◌, ◌≤◌, ◌<◌, ◌≡◌, refl, ap, ◌∙◌, Option, some, List, [], ◌∷◌, length,
  get_elem?, get_elem?-lt, All, arith,
}
use vacuum_tiger.Types.{Floats, i16}
use vacuum_tiger.Gd32.Sensors.Core.{
  status_payload_min_size, AxisTransform3D, apply_axis, and_then, word_at, flag_at, axis_at,
  SensorGroupData, set, touch, Reading, readings, set_all, handle_status_packet,
}

abbrev Present : {A : Type 0} → Option A → Type 0
Present {A = A} o = (a : A) × (o ≡ some a)

module _ {A B : Type 0} where
  Present-map : (f : A → B) (o : Option A) → Present o → Present (Option.map f o)
  Present-map f o (a, e) = (f a, ap (Option.map f) e)

  Present-and_then :
      (o : Option A) (k : A → Option B)
      → Present o
      → ((a : A) → Present (k a))
      → Present (and_then o k)
  Present-and_then o k (a, e) h = let (b, e') = h a in (b, ap (λ p. and_then p k) e ∙ e')

byte-Present : (payload : List ℕ) (i : ℕ) → i < length payload → Present (get_elem? payload i)
byte-Present payload i h = get_elem?-lt payload i h

word_at-Present : (payload : List ℕ) (i : ℕ) → i + 1 < length payload → Present (word_at payload i)
unfolding word_at
word_at-Present payload i h =
    Present-and_then (get_elem? payload i) _ (byte-Present payload i (omega arith)) (λ low.
      Present-map (λ high. low + high * 256) (get_elem? payload (i + 1))
        (byte-Present payload (i + 1) h))

flag_at-Present :
    (payload : List ℕ) (i mask : ℕ) → i < length payload → Present (flag_at payload i mask)
unfolding flag_at
flag_at-Present payload i mask h = Present-map _ (get_elem? payload i) (byte-Present payload i h)

axis_at-Present :
    (payload : List ℕ) (i j k : ℕ) (axis : ℕ × ℕ)
    → i + 1 < length payload
    → j + 1 < length payload
    → k + 1 < length payload
    → axis.0 < 3
    → Present (axis_at payload i j k axis)
unfolding axis_at apply_axis
axis_at-Present payload i j k axis hi hj hk h =
    Present-and_then (word_at payload i) _ (word_at-Present payload i hi) (λ a.
      Present-and_then (word_at payload j) _ (word_at-Present payload j hj) (λ b.
        Present-and_then (word_at payload k) _ (word_at-Present payload k hk) (λ c.
          Present-map _ (get_elem? (a ∷ b ∷ c ∷ []) (axis.0))
            (byte-Present (a ∷ b ∷ c ∷ []) (axis.0) (omega arith)))))

-- The sources of a transform are the three axes.
abbrev pub HasSources : AxisTransform3D → Type 0
HasSources t = (t.x.0 < 3) × (t.y.0 < 3) × (t.z.0 < 3)

module _ (fl : Floats) (volts : ℕ → fl.F32) (level : ℕ → ℕ) where
  readings-Present :
      (gyro accel : AxisTransform3D) (payload : List ℕ)
      → status_payload_min_size ≤ length payload
      → HasSources gyro
      → HasSources accel
      → All (λ r. Present (r.1)) (readings fl volts level gyro accel payload)
  unfolding readings
  readings-Present gyro accel payload h g a = (
    Present-map _ _ (flag_at-Present payload 7 _ (omega arith)),
    (
      Present-map _ _ (flag_at-Present payload 7 _ (omega arith)),
      (
        Present-map _ _ (byte-Present payload 8 (omega arith)),
        (
          Present-map _ _ (byte-Present payload 8 (omega arith)),
          (
            Present-map _ _ (word_at-Present payload 0x3a (omega arith)),
            (
              Present-map _ _ (word_at-Present payload 0x3e (omega arith)),
              (
                Present-map _ _ (flag_at-Present payload 1 _ (omega arith)),
                (
                  Present-map _ _ (flag_at-Present payload 1 _ (omega arith)),
                  (
                    Present-map _ _ (word_at-Present payload 0x10 (omega arith)),
                    (
                      Present-map _ _ (word_at-Present payload 0x18 (omega arith)),
                      (
                        Present-map _ _ (flag_at-Present payload 3 _ (omega arith)),
                        (
                          Present-map _ _ (flag_at-Present payload 3 _ (omega arith)),
                          (
                            Present-map _ _ (flag_at-Present payload 3 _ (omega arith)),
                            (
                              Present-map _ _ (flag_at-Present payload 3 _ (omega arith)),
                              (
                                Present-map _ _ (flag_at-Present payload 4 _ (omega arith)),
                                (
                                  Present-map (λ v. i16 v) _
                                      (axis_at-Present payload 0x28 0x2c 0x30 gyro.x (omega arith)
                                        (omega arith) (omega arith) (g.0)),
                                  (
                                    Present-map (λ v. i16 v) _
                                        (axis_at-Present payload 0x28 0x2c 0x30 gyro.y (omega arith)
                                          (omega arith) (omega arith) (g.1)),
                                    (
                                      Present-map (λ v. i16 v) _
                                          (axis_at-Present payload 0x28 0x2c 0x30 gyro.z
                                            (omega arith) (omega arith) (omega arith) (g.2)),
                                      (
                                        Present-map (λ v. i16 v) _
                                            (axis_at-Present payload 0x2a 0x2e 0x32 accel.x
                                              (omega arith) (omega arith) (omega arith) (a.0)),
                                        (
                                          Present-map (λ v. i16 v) _
                                              (axis_at-Present payload 0x2a 0x2e 0x32 accel.y
                                                (omega arith) (omega arith) (omega arith) (a.1)),
                                          (
                                            Present-map (λ v. i16 v) _
                                                (axis_at-Present payload 0x2a 0x2e 0x32 accel.z
                                                  (omega arith) (omega arith) (omega arith) (a.2)),
                                            (
                                              Present-map _ _
                                                  (word_at-Present payload 0x34 (omega arith)),
                                              (
                                                Present-map _ _
                                                    (word_at-Present payload 0x36 (omega arith)),
                                                (
                                                  Present-map _ _
                                                      (word_at-Present payload 0x38 (omega arith)),
                                                  tt,
                                                ),
                                              ),
                                            ),
                                          ),
                                        ),
                                      ),
                                    ),
                                  ),
                                ),
                              ),
                            ),
                          ),
                        ),
                      ),
                    ),
                  ),
                ),
              ),
            ),
          ),
        ),
      ),
    ),
  )

  set_all-Present :
      (rs : List (Reading fl volts level)) (d : SensorGroupData fl volts level)
      → All (λ r. Present (r.1)) rs
      → (d' : SensorGroupData fl volts level) × (set_all fl volts level rs d ≡ some d')
        × (d'.timestamp_us ≡ d.timestamp_us)
        × (d'.sequence_number ≡ d.sequence_number)
  unfolding set_all set
  set_all-Present [] d h = (d, refl, refl, refl)
  set_all-Present (r ∷ rs) d ((v, e), h) =
      let (d', e', t, n) = set_all-Present rs (set fl volts level (r.0) v d) h in
      (
        d',
        ap (λ o. and_then o (λ v. set_all fl volts level rs (set fl volts level (r.0) v d))) e ∙ e',
        t,
        n,
      )

  -- A status packet of at least 80 bytes never makes the handler index out of range, as long as the
  -- sources of the two axis transforms are the three axes: it returns the group, with the time of
  -- the call and the next sequence number (a u64).
  pub handle_status_packet-Present :
      (now : ℕ) (gyro accel : AxisTransform3D) (payload : List ℕ)
      (d : SensorGroupData fl volts level)
      → status_payload_min_size ≤ length payload
      → HasSources gyro
      → HasSources accel
      → (d' : SensorGroupData fl volts level) × (handle_status_packet fl volts level now gyro accel
            payload d
          ≡ some d')
        × (d'.timestamp_us ≡ now)
        × (d'.sequence_number ≡ (d.sequence_number + 1) % 2 ^ 64)
  unfolding handle_status_packet touch
  handle_status_packet-Present now gyro accel payload d h g a =
      set_all-Present (readings fl volts level gyro accel payload) (touch fl volts level now d)
        (readings-Present gyro accel payload h g a)
