-- ===== src/FileStorage.antt =====
-- pkg/filestorage: the parts in which a file is uploaded (upload_part_helper.go). Sizes and
-- indexes are int64, as bit patterns (Shared/Int64).
pub mod Parts
pub mod Range
pub mod SignedUrl
pub mod UrlManager
use evgo.Shared.{
  ℕ, Bool, true, false, Option, none, some, List, [], ◌∷◌, String, string_eq, ◌==◌, nat_beq, ◌||◌,
  add64, sub64, mul64, less64, div64, not, if◌then◌else◌,
}

-- `FileInfo`: what the helper and the manager of URLs read of a file
pub record FileInfo : Type 0 where
  pub id : String
  pub topic : String
  pub size : ℕ
  pub upload_part_size : ℕ

unfoldable pub file_part_length : ℕ → ℕ → ℕ → ℕ
file_part_length total_size max_part_size index =
    let start = mul64 index max_part_size in
    if not (less64 start total_size)
    then 0
    else if less64 max_part_size (sub64 total_size start)
    then max_part_size
    else sub64 total_size start

-- UPLOAD_PART_LENGTH is the first argument
unfoldable pub max_part_length : ℕ → FileInfo → ℕ
max_part_length part_length info =
    if nat_beq info.upload_part_size 0 then part_length else info.upload_part_size

-- `UploadPartLength` with an index
unfoldable pub upload_part_length : ℕ → FileInfo → ℕ → ℕ
upload_part_length part_length info index =
    file_part_length info.size (max_part_length part_length info) index

-- the parts of a length in a size
unfoldable pub count_parts : ℕ → ℕ → ℕ
count_parts size max_part_size =
    if not (less64 0 size) || not (less64 0 max_part_size)
    then 0
    else div64 (sub64 (add64 size max_part_size) 1) max_part_size

unfoldable pub part_count : ℕ → FileInfo → ℕ
part_count part_length info = count_parts info.size (max_part_length part_length info)
