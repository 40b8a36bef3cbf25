-- ===== src/FileStorage/Parts.antt =====
-- pkg/filestorage/upload_part_helper.go: the parts of a file make up the whole of it.
use evgo.Shared.{
  ℕ, zero, suc, ◌+◌, ◌-◌, ◌*◌, ◌/◌, ◌≤◌, ◌<◌, ◌≡◌, refl, leb, ltb, nat_beq, half, mul64, less64,
  sub64, less64_exact, sub64-add64, div64_exact, if◌then◌else◌, arith,
}
use mathlib.Core.Path.{ap₂, subst}
use evgo.FileStorage.{
  FileInfo, file_part_length, max_part_length, upload_part_length, count_parts, part_count,
}
use native.Mathlib.Nat.{lt-div-mul-add, div-le_self, le-div_iff_mul-le, mul-le-mul_right}
use evgo.Shared.{◌∙◌, ◌⊎◌, inl, inr}

-- the bytes of the first n parts
abbrev pub uploaded : ℕ → FileInfo → ℕ → ℕ
uploaded part_length info zero = 0
uploaded part_length info (suc n) =
    uploaded part_length info n + upload_part_length part_length info n

abbrev pub min : ℕ → ℕ → ℕ
min a b = if leb a b then a else b

-- the length of the part that begins at `start`, and the number of parts, where nothing overflows
abbrev pub length_from : ℕ → ℕ → ℕ → ℕ
length_from total max start =
    if leb total start then 0 else if ltb max (total - start) then max else total - start

abbrev pub count_of : ℕ → ℕ → ℕ
count_of total max = if nat_beq total 0 then 0 else (total + max - 1) / max

file_part_length_lem :
    (total max start i : ℕ)
    → total < half
    → max < half
    → start < half
    → start ≡ i * max
    → file_part_length total max i ≡ length_from total max start
unfolding file_part_length mul64 less64 sub64
file_part_length_lem total max start i ht hm hs e = rw (← e) (ground arith)

count_parts_lem :
    (size max : ℕ)
    → 0 < max
    → max < half
    → size + max ≤ half
    → count_parts size max ≡ count_of size max
unfolding count_parts
count_parts_lem size max h f b = ground (
  arith,
  less64_exact 0 size,
  less64_exact 0 max,
  sub64-add64 size max 1,
  div64_exact (size + max - 1) max,
)

quotient_low : (n max : ℕ) → 0 < max → n < n / max * max + max
quotient_low n max h = lt-div-mul-add h

quotient_high : (n max i : ℕ) → 0 < max → i < n / max → suc i * max ≤ n
quotient_high n max i h = (le-div_iff_mul-le h).0

up_low : (total max : ℕ) → 0 < max → total ≤ (total + max - 1) / max * max
up_low total max h = let q = quotient_low (total + max - 1) max h in omega arith

up_high : (total max i : ℕ) → 0 < max → 0 < total → i < (total + max - 1) / max → i * max < total
up_high total max i h t k = let q = quotient_high (total + max - 1) max i h k in omega arith

past_lem : (total max i : ℕ) → 0 < max → (total + max - 1) / max ≤ i → total ≤ i * max
past_lem total max i h k =
    let q = up_low total max h in let r = mul-le-mul_right max k in omega arith

part_lem :
    (total max start : ℕ)
    → 0 < max
    → start < total
    → (1 ≤ length_from total max start) × (length_from total max start ≤ max)
part_lem total max start h k = ground arith

min_step :
    (total max start next : ℕ)
    → next ≡ start + max
    → min start total + length_from total max start ≡ min next total
min_step total max start next e = ground arith

past_length : (total max start : ℕ) → total ≤ start → length_from total max start ≡ 0
past_length total max start h = ground arith

zero-or_pos : (n : ℕ) → (n ≡ 0) ⊎ (0 < n)
zero-or_pos zero = inl refl
zero-or_pos (suc n) = inr (omega arith)

uploaded_all : (total max count : ℕ) → total ≤ count * max → min (count * max) total ≡ total
uploaded_all total max count h = ground arith

-- with a positive length of a part, and no overflow of the sum of the size and that length
module _ (part_length : ℕ) (info : FileInfo) (positive : 0 < max_part_length part_length info)
    (fits : max_part_length part_length info < half)
    (bound : info.size + max_part_length part_length info ≤ half) where
  length_lem :
      (i : ℕ)
      → i * max_part_length part_length info < half
      → upload_part_length part_length info i
        ≡ length_from info.size
            (max_part_length part_length info)
            (i * max_part_length part_length info)
  unfolding upload_part_length
  length_lem i h =
      file_part_length_lem info.size (max_part_length part_length info)
        (i * max_part_length part_length info) i (omega arith) (omega arith) h refl

  uploaded_lem :
      (n : ℕ)
      → ((i : ℕ) → i < n → i * max_part_length part_length info < info.size)
      → uploaded part_length info n ≡ min (n * max_part_length part_length info) info.size
  uploaded_lem zero h = ground arith
  uploaded_lem (suc n) h =
      let below = h n (omega arith) in
      ap₂ ◌+◌ (uploaded_lem n (λ i k. h i (omega arith))) (length_lem n (omega arith))
      ∙ min_step info.size (max_part_length part_length info) (n * max_part_length part_length info)
          (suc n * max_part_length part_length info) (omega arith)

  count_lem :
      (i : ℕ)
      → (i < part_count part_length info → i * max_part_length part_length info < info.size)
        × (part_count part_length info ≤ i → info.size ≤ i * max_part_length part_length info)
  count_lem i = after (zero-or_pos info.size)
    where
      m : ℕ
      m = max_part_length part_length info

      counted : part_count part_length info ≡ count_of info.size m
      counted = unfold part_count in count_parts_lem info.size m positive fits bound

      after :
          (info.size ≡ 0) ⊎ (0 < info.size)
          → (i < part_count part_length info → i * m < info.size)
            × (part_count part_length info ≤ i → info.size ≤ i * m)
      after (inl z) = ((λ k. absurd (ground (arith, counted))), (λ k. omega arith))
      after (inr t) = (
        (λ k. up_high info.size m i positive t (ground (arith, counted))),
        (λ k. past_lem info.size m i positive (ground (arith, counted))),
      )

quotient_le : (n max : ℕ) → n / max ≤ n
quotient_le n max = div-le_self n max

count_of_le : (size max : ℕ) → count_of size max ≤ size + max - 1
count_of_le size max = ground (arith, quotient_le (size + max - 1) max)

pub part_count_bound :
    (part_length : ℕ) (info : FileInfo)
    → 0 < max_part_length part_length info
    → max_part_length part_length info < half
    → info.size + max_part_length part_length info ≤ half
    → part_count part_length info < half
unfolding part_count
part_count_bound part_length info h f b =
    let m = max_part_length part_length info in
    omega (arith, count_parts_lem info.size m h f b, count_of_le info.size m)

-- the length of a full part: that of the file, or the configured one for a file without its own
abbrev pub IsFullLength : ℕ → FileInfo → ℕ → Type 0
IsFullLength part_length info full =
    ((info.upload_part_size ≡ 0) × (full ≡ part_length))
    ⊎ ((1 ≤ info.upload_part_size) × (full ≡ info.upload_part_size))

full_lem :
    (part_length : ℕ) (info : FileInfo) (full : ℕ)
    → IsFullLength part_length info full
    → max_part_length part_length info ≡ full
unfolding max_part_length
full_lem part_length info full h = ground arith

-- The parts make up the file, each of them is a part of at least one byte and no more than a full part,
-- and those behind the counted ones are empty.
abbrev MakeUp : ℕ → FileInfo → ℕ → Type 0
MakeUp part_length info full =
    (uploaded part_length info (part_count part_length info) ≡ info.size)
    × ((i : ℕ)
        → i < part_count part_length info
        → (1 ≤ upload_part_length part_length info i)
          × (upload_part_length part_length info i ≤ full))
    × ((i : ℕ)
        → part_count part_length info ≤ i
        → i * full < half
        → upload_part_length part_length info i ≡ 0)

parts_lem :
    (part_length : ℕ) (info : FileInfo)
    → 0 < max_part_length part_length info
    → max_part_length part_length info < half
    → info.size + max_part_length part_length info ≤ half
    → MakeUp part_length info (max_part_length part_length info)
parts_lem part_length info h f b =
    let m = max_part_length part_length info in
    let below = count_lem part_length info h f b in
    let length = length_lem part_length info h f b in
    (
      uploaded_lem part_length info h f b (part_count part_length info) (λ i k. (below i).0 k)
          ∙ uploaded_all info.size m (part_count part_length info)
              ((below (part_count part_length info)).1 (omega arith)),
      (λ i k.
          let inside = (below i).0 k in
          rw (length i (omega arith)) (part_lem info.size m (i * m) h inside)),
      (λ i k l. let past = (below i).1 k in length i l ∙ past_length info.size m (i * m) past),
    )

-- With a full length of a part, that of the file or else the configured one, from 1 to below 2^63,
-- which together with the size is at most 2^63, the lengths of the counted parts of a file add up
-- to its size, each of them is at least one and at most the full length, and every further part
-- whose index times the full length is below 2^63 is empty.
pub parts-uploaded :
    (part_length : ℕ) (info : FileInfo) (full : ℕ)
    → IsFullLength part_length info full
    → 0 < full
    → full < half
    → info.size + full ≤ half
    → (uploaded part_length info (part_count part_length info) ≡ info.size)
      × ((i : ℕ)
          → i < part_count part_length info
          → (1 ≤ upload_part_length part_length info i)
            × (upload_part_length part_length info i ≤ full))
      × ((i : ℕ)
          → part_count part_length info ≤ i
          → i * full < half
          → upload_part_length part_length info i ≡ 0)
parts-uploaded part_length info full h =
    subst (λ f. 0 < f → f < half → info.size + f ≤ half → MakeUp part_length info f)
      (full_lem part_length info full h) (parts_lem part_length info)
