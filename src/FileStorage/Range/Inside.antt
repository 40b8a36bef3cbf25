-- ===== src/FileStorage/Range/Inside.antt =====
-- filedata_controller.go: a range that is accepted lies inside of the file.
use evgo.Shared.{
  ℕ, ◌+◌, ◌-◌, ◌≤◌, ◌≡◌, true, false, Option, none, some, String, string_eq, ◌==◌, nat_beq,
  if◌then◌else◌, arith, ap, sym, ◌∙◌, inl, inr, ◌⊎◌, Bool-cases,
}
use mathlib.Core.List.{List}
use evgo.FileStorage.Range.{
  check_range, range_end, range_of, range_of_parts, range_of_spec, parse_range, strip_prefix,
  split_dash, trim_space,
}

-- at least one byte, and none behind the end of the file
abbrev pub IsInside : ℕ → ℕ × ℕ → Type 0
IsInside total_size (offset, length) = (1 ≤ length) × (offset + length ≤ total_size)

pair_lem : (p r : ℕ × ℕ) → some p ≡ some r → p ≡ r
pair_lem p r e = cc

check_range_lem :
    (offset length total : ℕ) (r : ℕ × ℕ)
    → (1 ≤ length → offset + length ≤ total)
    → check_range offset length ≡ some r
    → IsInside total r
unfolding check_range
check_range_lem offset length total r h e = after (Bool-cases (nat_beq length 0))
  where
    after : (nat_beq length 0 ≡ true) ⊎ (nat_beq length 0 ≡ false) → IsInside total r
    after (inl z) = let bad = ap (λ b. if b then none else some (offset, length)) (sym z) ∙ e in cc
    after (inr z) =
        let same =
          pair_lem (offset, length) r
            (ap (λ b. if b then none else some (offset, length)) (sym z) ∙ e) in
        rw (← same) (ground (arith, h))

module _ (parse_int : String → ℕ) where
  range_of_lem :
      (start end : String) (total : ℕ) (r : ℕ × ℕ)
      → range_of parse_int start end total ≡ some r
      → IsInside total r
  unfolding range_of range_end
  range_of_lem start end total r e = after (Bool-cases (start == "")) (Bool-cases (end == ""))
    where
      after :
          ((start == "") ≡ true) ⊎ ((start == "") ≡ false)
          → ((end == "") ≡ true) ⊎ ((end == "") ≡ false)
          → IsInside total r
      after (inl a) (inl b) = let bad = rw (a, b) at e in cc
      after (inl a) (inr b) =
          check_range_lem (total - parse_int end) (total - (total - parse_int end)) total r
            (λ h. omega arith) (rw (a, b) at e)
      after (inr a) (inl b) =
          check_range_lem (parse_int start) (total - parse_int start) total r (λ h. omega arith)
            (rw (a, b) at e)
      after (inr a) (inr b) =
          check_range_lem (parse_int start) (range_end (parse_int end) total - parse_int start)
            total r (λ h. ground arith) (rw (a, b) at e)

  parts_lem :
      (parts : List String) (total : ℕ) (r : ℕ × ℕ)
      → range_of_parts parse_int total parts ≡ some r
      → IsInside total r
  parts_lem List.[] total r e = cc
  parts_lem (List.◌∷◌ a List.[]) total r e = cc
  parts_lem (List.◌∷◌ a (List.◌∷◌ b List.[])) total r e =
      range_of_lem (trim_space a) (trim_space b) total r e
  parts_lem (List.◌∷◌ a (List.◌∷◌ b (List.◌∷◌ c rest))) total r e = cc

  spec_lem :
      (spec : Option String) (total : ℕ) (r : ℕ × ℕ)
      → range_of_spec parse_int total spec ≡ some r
      → IsInside total r
  spec_lem none total r e = cc
  spec_lem (some spec) total r e = parts_lem (split_dash spec) total r e

  -- Whatever numbers the bounds are read as, a range that ParseRange accepts has at least one byte
  -- and ends within the file.
  pub parse_range-IsInside :
      (header : String) (total_size : ℕ) (r : ℕ × ℕ)
      → parse_range parse_int header total_size ≡ some r
      → IsInside total_size r
  unfolding parse_range
  parse_range-IsInside header total_size r e =
      spec_lem (strip_prefix "bytes=" header) total_size r e
