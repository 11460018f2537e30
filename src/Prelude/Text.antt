-- ===== src/Prelude/Text.antt =====
-- ASCII texts as byte strings, and the cuts that the parsers of log lines make.
use Prim.Native.Nat.{ℕ, suc, ◌+◌, ◌-◌, ◌*◌, ◌%◌, ◌^◌}
use Prim.Native.Char.{code}
use Prim.Native.String.{String}
use mathlib.Core.Bool.{Bool, true, false, ◌&&◌}
use mathlib.Core.Option.{Option, none, some}
use mathlib.Core.Option
use mathlib.Core.List.{List, [], ◌∷◌}
use vacuum_tiger.Prelude.Tests.{leb, ◌==◌, if◌then◌else◌}
use vacuum_tiger.Prelude.Lists.{length, take, drop}

-- The bytes of an ASCII text.
abbrev pub codes : String → List ℕ
codes String.[] = []
codes (String.◌∷◌ c s) = code c ∷ codes s

abbrev pub bytes_eq : List ℕ → List ℕ → Bool
bytes_eq [] [] = true
bytes_eq [] (y ∷ ys) = false
bytes_eq (x ∷ xs) [] = false
bytes_eq (x ∷ xs) (y ∷ ys) = x == y && bytes_eq xs ys

unfoldable pub strip_prefix : List ℕ → List ℕ → Option (List ℕ)
strip_prefix [] text = some text
strip_prefix (p ∷ prefix) [] = none
strip_prefix (p ∷ prefix) (b ∷ text) =
    let rest = strip_prefix prefix text in if p == b then rest else none

unfoldable pub strip_suffix : List ℕ → List ℕ → Option (List ℕ)
strip_suffix suffix text =
    let n = length text - length suffix in
    if leb (length suffix) (length text) && bytes_eq (drop n text) suffix
    then some (take n text)
    else none

abbrev pub or_kept : {A : Type 0} → Option A → A → A
or_kept (some a) b = a
or_kept none b = b

-- `windows(separator.len()).position(..)`, for a separator that is not empty.
unfoldable pub find_bytes : List ℕ → List ℕ → Option ℕ
unfolding strip_prefix
find_bytes separator [] = none
find_bytes separator (b ∷ text) =
    let later = Option.map suc (find_bytes separator text) in
    elim (strip_prefix separator (b ∷ text)) [ none ↦ later | some _ ↦ some 0 ]

abbrev pub grow : ℕ → List (List ℕ) → List (List ℕ)
grow b [] = (b ∷ []) ∷ []
grow b (part ∷ parts) = (b ∷ part) ∷ parts

-- `split(|byte| *byte == separator)`.
unfoldable pub split_on : ℕ → List ℕ → List (List ℕ)
split_on separator [] = [] ∷ []
split_on separator (b ∷ text) =
    let parts = split_on separator text in if b == separator then [] ∷ parts else grow b parts

-- The value of a text of decimal digits, behind those that were read.
unfoldable pub digits_from : ℕ → List ℕ → Option ℕ
digits_from acc [] = some acc
digits_from acc (b ∷ text) =
    let rest = digits_from (acc * 10 + (b - 48)) text in if leb 48 b && leb b 57 then rest else none

-- At least one digit, and a value of at most `most`.
unfoldable pub parse_digits : ℕ → List ℕ → Option ℕ
unfolding digits_from
parse_digits most [] = none
parse_digits most (b ∷ text) = elim (digits_from 0 (b ∷ text)) [
  | none ↦ none
  | some v ↦ if leb v most then some v else none
]

-- `parse` to an unsigned type: a plus sign may stand in front.
unfoldable pub parse_unsigned : ℕ → List ℕ → Option ℕ
unfolding parse_digits
parse_unsigned most [] = none
parse_unsigned most (b ∷ text) =
    if b == 43 then parse_digits most text else parse_digits most (b ∷ text)

-- `parse` to an i32, as a bit pattern: a sign may stand in front.
unfoldable pub parse_i32 : List ℕ → Option ℕ
unfolding parse_digits parse_unsigned
parse_i32 [] = none
parse_i32 (b ∷ text) =
    if b == 45
    then Option.map (λ v. (2 ^ 32 - v) % 2 ^ 32) (parse_digits (2 ^ 31) text)
    else parse_unsigned (2 ^ 31 - 1) (b ∷ text)
