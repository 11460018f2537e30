-- ===== src/Delta2D/Account.antt =====
-- delta2d/mod.rs: what becomes of the points that the reader thread gets from the parser.
use mathlib.Core.Path.{subst}
use vacuum_tiger.Prelude.{
  ℕ, ◌+◌, ◌%◌, ◌^◌, ◌<◌, ◌≡◌, refl, sym, ap, ◌∙◌, Bool, true, false, ◌&&◌, List, [], ◌∷◌, ◌++◌, map,
  append-nil, append_assoc, length, All, All-append, ltb, ltb→lt, if◌then◌else◌, Bool-cases, inl,
  inr,
}
use vacuum_tiger.Delta2D.Core.{Floats, LidarPoint, Delta2DPacketReader}
use vacuum_tiger.Delta2D.Driver.{
  min_scan_points, ScanPoint, Reading, publish, rotated, push_point, add_point, add_points,
  check_timeout, handle_scan,
}

module _ {A : Type 0} where
  abbrev pub concat : List (List A) → List A
  concat [] = []
  concat (xs ∷ xss) = xs ++ concat xss

  concat-append : (xss yss : List (List A)) → concat (xss ++ yss) ≡ concat xss ++ concat yss
  concat-append [] yss = refl
  concat-append (xs ∷ xss) yss =
      ap (λ t. xs ++ t) (concat-append xss yss) ∙ sym (append_assoc xs (concat xss) (concat yss))

module _ {A B : Type 0} (f : A → B) where
  pub map-append : (xs ys : List A) → map f (xs ++ ys) ≡ map f xs ++ map f ys
  map-append [] ys = refl
  map-append (x ∷ xs) ys = ap (λ t. f x ∷ t) (map-append xs ys)

module _ (fl : Floats) (exceeds : ℕ → ℕ → Bool) where
  open fl use {less, pi, sub}

  abbrev pub St : Type 0
  St = Reading fl exceeds

  abbrev Pt : Type 0
  Pt = ScanPoint fl exceeds

  -- The points that were published, and those that wait for it, in order.
  abbrev pub points_seen : St → List Pt
  points_seen s = concat s.published ++ s.accumulated_points

  abbrev LongScans : St → Type 0
  LongScans s = All (λ (points : List Pt). min_scan_points < length points) s.published

  -- From `s` to `s'` the points are added, none is lost, and no short scan is published.
  abbrev pub Accounts : St → List Pt → St → Type 0
  Accounts s points s' = (points_seen s' ≡ points_seen s ++ points) × (LongScans s → LongScans s')

  pub Accounts-refl : (s : St) → Accounts s [] s
  Accounts-refl s = (sym (append-nil (points_seen s)), λ h. h)

  pub Accounts-trans :
      (s t u : St) (ps qs : List Pt) → Accounts s ps t → Accounts t qs u → Accounts s (ps ++ qs) u
  Accounts-trans s t u ps qs (e, f) (e', g) =
      (e' ∙ ap (λ xs. xs ++ qs) e ∙ append_assoc (points_seen s) ps qs, λ h. g (f h))

  publish-Accounts :
      (now : ℕ) (s : St)
      → min_scan_points < length s.accumulated_points
      → Accounts s [] (publish fl exceeds now s)
  unfolding publish
  publish-Accounts now s h = (
    ap (λ xs. xs ++ []) (concat-append s.published (s.accumulated_points ∷ []))
        ∙ ap (λ xs. (concat s.published ++ xs) ++ []) (append-nil s.accumulated_points),
    λ long.
        All-append (λ (points : List Pt). min_scan_points < length points) s.published
          (s.accumulated_points ∷ []) long (h, tt),
  )

  push_point-Accounts :
      (p : LidarPoint fl) (s : St)
      → Accounts s (rotated fl exceeds p ∷ []) (push_point fl exceeds p s)
  push_point-Accounts p s = (
    sym (append_assoc (concat s.published) s.accumulated_points (rotated fl exceeds p ∷ [])),
    λ h. h,
  )

  both : (a : Bool) (m n : ℕ) → (a && ltb m n) ≡ true → m < n
  both true m n e = ltb→lt m n e
  both false m n e = cc

  add_point-Accounts :
      (now : ℕ) (p : LidarPoint fl) (s : St)
      → Accounts s (rotated fl exceeds p ∷ []) (add_point fl exceeds now p s)
  unfolding add_point
  add_point-Accounts now p s =
      let jump = less pi (sub p.angle s.last_angle) in
      elim (Bool-cases (jump && ltb min_scan_points (length s.accumulated_points))) [
        | inl y ↦
            let s' = publish fl exceeds now s in
            rw y (
              Accounts-trans s s' (push_point fl exceeds p s') [] (rotated fl exceeds p ∷ [])
                (publish-Accounts now s (both jump min_scan_points (length s.accumulated_points) y))
                (push_point-Accounts p s'))
        | inr n ↦ rw n (push_point-Accounts p s)
      ]

  pub check_timeout-Accounts : (now : ℕ) (s : St) → Accounts s [] (check_timeout fl exceeds now s)
  unfolding check_timeout
  check_timeout-Accounts now s =
      let late = exceeds s.last_scan_time now in
      elim (Bool-cases (late && ltb min_scan_points (length s.accumulated_points))) [
        | inl y ↦
            rw y
              (publish-Accounts now s (both late min_scan_points (length s.accumulated_points) y))
        | inr n ↦ rw n (Accounts-refl s)
      ]

  add_points-Accounts :
      (now : ℕ) (ps : List (LidarPoint fl)) (s : St)
      → Accounts s (map (rotated fl exceeds) ps) (add_points fl exceeds now ps s)
  unfolding add_points
  add_points-Accounts now [] s = Accounts-refl s
  add_points-Accounts now (p ∷ ps) s =
      let s' = add_point fl exceeds now p s in
      Accounts-trans s s' (add_points fl exceeds now ps s') (rotated fl exceeds p ∷ [])
        (map (rotated fl exceeds) ps) (add_point-Accounts now p s) (add_points-Accounts now ps s')

  pub handle_scan-Accounts :
      (now : ℕ) (ps : List (LidarPoint fl)) (r : Delta2DPacketReader) (s : St)
      → Accounts s (map (rotated fl exceeds) ps) (handle_scan fl exceeds now ps r s)
  unfolding handle_scan
  handle_scan-Accounts now ps r s =
      let s' : St = record s { reader = r; scan_count = (s.scan_count + 1) % 2 ^ 64 } in
      let t = add_points fl exceeds now ps s' in
      subst (λ qs. Accounts s qs (check_timeout fl exceeds now t))
        (append-nil (map (rotated fl exceeds) ps))
        (Accounts-trans s t (check_timeout fl exceeds now t) (map (rotated fl exceeds) ps) []
          (add_points-Accounts now ps s') (check_timeout-Accounts now t))

  -- The reader is the parser's alone.
  add_points-reader :
      (now : ℕ) (ps : List (LidarPoint fl)) (s : St)
      → (add_points fl exceeds now ps s).reader ≡ s.reader
  unfolding add_points add_point publish
  add_points-reader now [] s = refl
  add_points-reader now (p ∷ ps) s =
      add_points-reader now ps (add_point fl exceeds now p s)
      ∙ kept
          (less pi (sub p.angle s.last_angle) && ltb min_scan_points (length s.accumulated_points))
    where
      kept :
          (b : Bool)
          → (if b
              then push_point fl exceeds p (publish fl exceeds now s)
              else push_point fl exceeds p s).reader
            ≡ s.reader
      kept true = refl
      kept false = refl

  pub check_timeout-reader : (now : ℕ) (s : St) → (check_timeout fl exceeds now s).reader ≡ s.reader
  unfolding check_timeout publish
  check_timeout-reader now s =
      kept (exceeds s.last_scan_time now && ltb min_scan_points (length s.accumulated_points))
    where
      kept : (b : Bool) → (if b then publish fl exceeds now s else s).reader ≡ s.reader
      kept true = refl
      kept false = refl

  pub handle_scan-reader :
      (now : ℕ) (ps : List (LidarPoint fl)) (r : Delta2DPacketReader) (s : St)
      → (handle_scan fl exceeds now ps r s).reader ≡ r
  unfolding handle_scan
  handle_scan-reader now ps r s =
      let s' : St = record s { reader = r; scan_count = (s.scan_count + 1) % 2 ^ 64 } in
      check_timeout-reader now (add_points fl exceeds now ps s') ∙ add_points-reader now ps s'
