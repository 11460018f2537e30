-- ===== src/Prelude/Search.antt =====
-- The searches that the packet readers make in their buffers.
use Prim.Native.Nat.{ℕ, suc, ◌+◌, ◌<◌}
use mathlib.Core.Path.{◌≡◌, refl, ap, sym, ◌∙◌}
use mathlib.Core.Logic.{◌⊎◌, inl, inr}
use vacuum_tiger.Prelude.Lists.{length, drop}
use vacuum_tiger.Prelude.Tests.{if◌then◌else◌, Bool-cases, Option-cases}
use native.Mathlib.Nat.{zero-add, suc-add}
use native.Mathlib.Omega.{arith}
use mathlib.Core.Bool.{Bool, true}
use mathlib.Core.List.{List, [], ◌∷◌, ◌++◌}
use mathlib.Core.Option
use mathlib.Core.Option.{Option, none, some}

-- `iter().position(..)`.
module _ {ℓ} {A : Type ℓ} (test : A → Bool) where
  abbrev pub position : List A → Option ℕ
  position [] = none
  position (x ∷ xs) = if test x then some 0 else Option.map suc (position xs)

  -- A position is that of the first element that passes the test.
  abbrev pub FoundAt : List A → ℕ → Type ℓ
  FoundAt xs i = (x : A) × (t : List A) × (drop i xs ≡ x ∷ t) × (test x ≡ true)

module _ {ℓ} {A : Type ℓ} (test : A → Bool) where
  pub position-FoundAt :
      (xs : List A) (i : ℕ) → position test xs ≡ some i → FoundAt test xs i × (i < length xs)
  position-FoundAt [] i e = cc
  position-FoundAt (x ∷ xs) i e = elim (Bool-cases (test x)) [
    | inl y ↦
        let z : some 0 ≡ some i = rw y at e in
        let z' : 0 ≡ i = cc in rw (← z') ((x, xs, refl, y), omega arith)
    | inr n ↦ elim (Option-cases (position test xs)) [
      | inl m ↦ let z : ◌≡◌ {A = Option ℕ} none (some i) = rw (n, m) at e in cc
      | inr (j, m) ↦
          let z : some (suc j) ≡ some i = rw (n, m) at e in
          let z' : suc j ≡ i = cc in
          let (f, l) = position-FoundAt xs j m in rw (← z') (f, omega arith)
    ]
  ]

  -- More elements behind do not move it.
  pub position-append :
      (xs ys : List A) (i : ℕ) → position test xs ≡ some i → position test (xs ++ ys) ≡ some i
  position-append [] ys i e = cc
  position-append (x ∷ xs) ys i e = elim (Bool-cases (test x)) [
    | inl y ↦ let z : some 0 ≡ some i = rw y at e in rw y z
    | inr n ↦ elim (Option-cases (position test xs)) [
      | inl m ↦ let z : ◌≡◌ {A = Option ℕ} none (some i) = rw (n, m) at e in cc
      | inr (j, m) ↦
          let z : some (suc j) ≡ some i = rw (n, m) at e in rw (n, position-append xs ys j m) z
    ]
  ]

  pub position-append_none :
      (xs ys : List A)
      → position test xs ≡ none
      → ((position test ys ≡ none) × (position test (xs ++ ys) ≡ none))
        ⊎ ((i : ℕ) × (position test ys ≡ some i)
            × (position test (xs ++ ys) ≡ some (length xs + i)))
  position-append_none [] ys e = elim (Option-cases (position test ys)) [
    | inl m ↦ inl (m, m)
    | inr (i, m) ↦ inr (i, m, m ∙ ap (λ (k : ℕ). some k) (sym (zero-add i)))
  ]
  position-append_none (x ∷ xs) ys e = elim (Bool-cases (test x)) [
    | inl y ↦ let z : ◌≡◌ {A = Option ℕ} (some 0) none = rw y at e in cc
    | inr n ↦ elim (Option-cases (position test xs)) [
      | inl m ↦ elim (position-append_none xs ys m) [
        | inl (p, q) ↦ inl (p, rw (n, q))
        | inr (i, p, q) ↦ inr (i, p, rw (n, q, suc-add))
      ]
      | inr (j, m) ↦ let z : ◌≡◌ {A = Option ℕ} (some (suc j)) none = rw (n, m) at e in cc
    ]
  ]
