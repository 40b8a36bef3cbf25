-- ===== src/Tests/Storage.antt =====
-- Runs of the model of the file storage at concrete inputs.
use evgo.Auth.Context.{ok}
use evgo.Shared.{
  half, add64, sub64, mul64, less64, div64, ◌*◌, split, ℕ, zero, suc, ◌-◌, ◌≤◌, ◌<◌, map, ◌≡◌, refl,
  ap, true, false, Option, none, some, List, [], ◌∷◌, String, string_eq, ◌==◌, get, inl, inr, ◌⊎◌,
  Bool-cases, arith, beq_refl, if◌then◌else◌,
}
use Prim.Native.String
use Prim.Native.String.{◌++◌}
use evgo.FileStorage.{
  FileInfo, upload_part_length, part_count, count_parts, file_part_length, max_part_length,
}
use evgo.FileStorage.Range.{
  parse_range, range_of, check_range, range_end, strip_prefix, split_dash, trim_space, trim_left,
  trim_right,
}
use evgo.FileStorage.Range.Inside.{IsInside, parse_range-IsInside}
use evgo.FileStorage.Parts.{uploaded, parts-uploaded}
use evgo.FileStorage.SignedUrl.{
  Url, SignedUrlConfig, Coding, SignUrlValues, sign_url, check_url, expired, with_signature,
  with_expiry,
}
use evgo.FileStorage.SignedUrl.Expiry.{IsCoding, lapsed, check_url-sign_url}
use evgo.FileStorage.UrlManager.{
  UrlManager, TenancyPaths, UploadUrlInfo, GetUploadUrlsOptions, get_upload_urls, url_expires_at,
  rounds, sign_parts, sign_part, upload_url, file_segments, include_topic, tenancy_path,
  to_part_index,
}
use evgo.FileStorage.UrlManager.Uploads.{IsManager, IsRequest, IsGiven, get_upload_urls-accepted}

abbrev song : FileInfo
song = record { id = "f1"; topic = ""; size = 10; upload_part_size = 0 }

parts-uploaded_example :
    (uploaded 4 song (part_count 4 song) ≡ 10)
    × ((i : ℕ)
        → i < part_count 4 song
        → (1 ≤ upload_part_length 4 song i) × (upload_part_length 4 song i ≤ 4))
    × ((i : ℕ) → part_count 4 song ≤ i → i * 4 < half → upload_part_length 4 song i ≡ 0)
parts-uploaded_example =
    parts-uploaded 4 song 4 (inl (refl, refl)) (omega arith) (omega arith) (omega arith)

-- The product of an index and a length wraps, and so does the sum for the number of parts.
part_overflow : file_part_length 10 4 0x4000_0000_0000_0000 ≡ 4
unfolding file_part_length mul64 less64 sub64
part_overflow = refl

count_overflow : less64 (count_parts 0x7fff_ffff_ffff_ffff 4) 0 ≡ true
unfolding count_parts add64 sub64 less64 div64
count_overflow = refl

part_lengths : map (upload_part_length 4 song) (0 ∷ 1 ∷ 2 ∷ 3 ∷ []) ≡ 4 ∷ 4 ∷ 2 ∷ 0 ∷ []
unfolding upload_part_length file_part_length max_part_length mul64 less64 sub64
part_lengths = refl

-- one stroke more than the number
abbrev strokes : ℕ → String
strokes zero = "1"
strokes (suc n) = Prim.Native.String.◌∷◌ "1" (strokes n)

abbrev count_strokes : String → ℕ
count_strokes Prim.Native.String.[] = 0
count_strokes (Prim.Native.String.◌∷◌ c s) = suc (count_strokes s)

abbrev coding : Coding
coding = record {
  format_int = strokes;
  parse_int = λ s. count_strokes s - 1;
  calc_hmac = λ secret text. secret ++ text;
  check_hmac = λ secret text sum. (secret ++ text) == sum;
}

count-strokes : (n : ℕ) → count_strokes (strokes n) ≡ suc n
count-strokes zero = refl
count-strokes (suc n) = ap suc (count-strokes n)

strokes_nonempty : (n : ℕ) → (strokes n == "") ≡ false
strokes_nonempty n = after (Bool-cases (strokes n == ""))
  where
    after : ((strokes n == "") ≡ true) ⊎ ((strokes n == "") ≡ false) → (strokes n == "") ≡ false
    after (inl e) =
        absurd (
          omega (arith, count-strokes n, ap count_strokes ((string_eq.eqb_iff (strokes n) "").0 e)))
    after (inr e) = e

coding-IsCoding : IsCoding coding
coding-IsCoding = record {
  parse-format = λ n. omega (arith, count-strokes n);
  format_nonempty = strokes_nonempty;
  check-calc = λ secret text. beq_refl (secret ++ text);
}

abbrev signing : SignedUrlConfig
signing = record { secret = "key"; expiration = 3; expiry_param = "e"; signature_param = "s" }

abbrev page : Url
page = record { host = "h"; path = "/p"; query = ("q", "1") ∷ [] }

abbrev get_page : SignUrlValues
get_page = record { method = "GET"; content_length = "" }

abbrev signed_page : Url
signed_page = with_signature coding signing get_page (with_expiry coding signing 2 page)

check_url-sign_url_example :
    check_url coding signing 5 signed_page get_page
    ≡ (if lapsed signing 2 5 then some expired else none)
check_url-sign_url_example =
    check_url-sign_url coding signing coding-IsCoding 2 5 page signed_page get_page refl
      (unfold get in refl) (unfold sign_url in refl)

abbrev join_path : String → List String → Option Url
join_path base segments = some (record { host = base; path = join segments; query = [] })
  where
    join : List String → String
    join [] = ""
    join (s ∷ rest) = "/" ++ (s ++ join rest)

abbrev manager : UrlManager
manager = record {
  config = record {
    base_upload_url = "up";
    base_download_url = "down";
    upload_path_prefix = "upload";
    download_path_prefix = "fetch";
    upload_method = "POST";
    download_method = "GET";
    id_parameter = "id";
    part_parameter = "part";
    tenancy_parameter = "tenancy";
    topic_parameter = "topic";
    shadow_tenancy_path = true;
    enable_topic = false;
  };
  part_length = 4;
  coding = coding;
  read_int = λ s. ok (count_strokes s - 1);
  signing = signing;
  join_path = join_path;
}

query_lem : (v u : Url) → some v ≡ some u → v.query ≡ u.query
query_lem v u e = cc

no_query :
    (base : String) (segments : List String) (u : Url)
    → join_path base segments ≡ some u
    → get "e" u.query ≡ none
no_query base segments u e = rw (← query_lem _ u e) (unfold get in refl)

manager-IsManager : IsManager manager
manager-IsManager = record {
  coding = coding-IsCoding;
  two_params = refl;
  no_expiry = λ base segments u e. no_query base segments u e;
  read-format = λ n h. ap ok (omega (arith, count-strokes n));
  topic_or_id = refl;
  topic_or_part = refl;
  id_or_part = refl;
}

abbrev tenancy : Option TenancyPaths
tenancy = some (record { path = "open"; shadow_path = "hidden" })

abbrev from_second : GetUploadUrlsOptions
from_second = record { from_part = 1; max_count = 1 }

upload_paths :
    upload_url manager tenancy song 1
    ≡ some (record { host = "up"; path = "/tenancy/hidden/upload/id/f1/part/11"; query = [] })
unfolding upload_url file_segments include_topic tenancy_path
upload_paths = refl

abbrev part_url : Url
part_url =
    with_signature coding signing (record { method = "POST"; content_length = strokes 4 })
      (with_expiry coding signing 2
        (record { host = "up"; path = "/tenancy/hidden/upload/id/f1/part/11"; query = [] }))

abbrev given : UploadUrlInfo
given = record {
  urls = part_url ∷ [];
  total_url_count = 3;
  method = "POST";
  from_part_index = 1;
  max_part_length = 4;
  url_expires_at = 5;
}

song-IsRequest : IsRequest manager song from_second
unfolding max_part_length
song-IsRequest = record {
  positive = omega arith;
  fits = omega arith;
  bound = omega arith;
  sum = omega arith;
  id = refl;
  topic = refl;
}

-- With a greatest number of parts for which the sum wraps there are no rounds.
rounds_overflow :
    rounds 1 (to_part_index 3 (record { from_part = 1; max_count = 0x7fff_ffff_ffff_ffff })) ≡ 0
unfolding rounds to_part_index less64 add64 sub64
rounds_overflow = refl

get_upload_urls-accepted_example : IsGiven manager 5 tenancy song from_second given
get_upload_urls-accepted_example =
    get_upload_urls-accepted manager 2 5 tenancy song from_second given manager-IsManager
      song-IsRequest
      (unfold get_upload_urls sign_parts sign_part sign_url upload_url file_segments include_topic
          tenancy_path to_part_index rounds part_count count_parts less64 add64 sub64 div64 mul64
          upload_part_length file_part_length max_part_length url_expires_at in
        refl)
      (inr (omega arith))

-- the numbers of the tests of the range
abbrev parse_int : String → ℕ
parse_int s =
    if s == "499" then 499 else if s == "500" then 500 else if s == "1500" then 1500 else 0

ranges :
    map
      (λ (header : String). parse_range parse_int header 1000)
      ("bytes=0-499" ∷ "bytes=500-" ∷ "bytes= -500" ∷ "bytes=500-1500" ∷ "bytes=1500-" ∷ [])
    ≡ some (0, 500) ∷ some (500, 500) ∷ some (500, 500) ∷ some (500, 500) ∷ none ∷ []
unfolding parse_range range_of check_range range_end strip_prefix split_dash split trim_space
    trim_left trim_right
ranges = refl

malformed_ranges :
    map
      (λ (header : String). parse_range parse_int header 1000)
      ("0-499" ∷ "bytes=" ∷ "bytes=-" ∷ "bytes=0-1,5-6" ∷ "bytes=abc-def" ∷ [])
    ≡ none ∷ none ∷ none ∷ none ∷ some (0, 1) ∷ []
unfolding parse_range range_of check_range range_end strip_prefix split_dash split trim_space
    trim_left trim_right
malformed_ranges = refl

parse_range-IsInside_example : IsInside 1000 (500, 500)
parse_range-IsInside_example =
    parse_range-IsInside parse_int "bytes=500-1500" 1000 (500, 500)
      (unfold parse_range range_of check_range range_end strip_prefix split_dash split trim_space
          trim_left trim_right in
        refl)
