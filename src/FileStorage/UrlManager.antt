-- ===== src/FileStorage/UrlManager.antt =====
-- pkg/filestorage/url_manager.go: the URLs at which a file is uploaded and downloaded, and the check of
-- a request to such a URL (filedata_service/filedata_controller.go, `checkUrl`). Indexes of parts are
-- int64, as bit patterns. The TLS policy, which is only copied, is left out.
pub mod Uploads
use evgo.Shared.{
  get, add64, sub64, less64, ℕ, zero, suc, ◌+◌, ◌-◌, Bool, true, false, not, ◌&&◌, Option, none,
  some, List, [], ◌∷◌, ◌++◌, String, string_eq, ◌==◌, ltb, nat_beq, if◌then◌else◌,
}
use evgo.Auth.Context.{Result, ok, err}
use evgo.FileStorage.{FileInfo, upload_part_length, part_count}
use evgo.FileStorage.SignedUrl.{
  Url, SignedUrlConfig, Coding, SignUrlValues, sign_url, UrlError, not_a_url, expired, invalid_hmac,
  check_url,
}

pub record UrlManagerConfig : Type 0 where
  pub base_upload_url : String
  pub base_download_url : String
  pub upload_path_prefix : String
  pub download_path_prefix : String
  pub upload_method : String
  pub download_method : String
  pub id_parameter : String
  pub part_parameter : String
  pub tenancy_parameter : String
  pub topic_parameter : String
  pub shadow_tenancy_path : Bool
  pub enable_topic : Bool

pub record TenancyPaths : Type 0 where
  pub path : String
  pub shadow_path : String

pub record UploadUrlInfo : Type 0 where
  pub urls : List Url
  pub total_url_count : ℕ
  pub method : String
  pub from_part_index : ℕ
  pub max_part_length : ℕ
  pub url_expires_at : ℕ

pub record DownloadUrlInfo : Type 0 where
  pub url : Url
  pub url_expires_at : ℕ

pub record GetUploadUrlsOptions : Type 0 where
  pub from_part : ℕ
  pub max_count : ℕ

-- A manager with its helper and its handler of signed URLs. `join_path` is `url.JoinPath`, and
-- `url.Parse` of the result; `read_int` is strconv.ParseInt with its error.
pub record UrlManager : Type 0 where
  pub config : UrlManagerConfig
  pub part_length : ℕ
  pub coding : Coding
  pub read_int : String → Result ℕ
  pub signing : SignedUrlConfig
  pub join_path : String → List String → Option Url

unfoldable pub url_expires_at : UrlManager → ℕ → ℕ
url_expires_at m now = if nat_beq m.signing.expiration 0 then 0 else now + m.signing.expiration

unfoldable pub tenancy_path : UrlManagerConfig → Option TenancyPaths → String
tenancy_path config none = ""
tenancy_path config (some t) = if config.shadow_tenancy_path then t.shadow_path else t.path

unfoldable pub include_topic : UrlManagerConfig → FileInfo → Bool
include_topic config info = config.enable_topic && not (info.topic == "")

-- the segments of the path of a file, behind those of the tenancy
unfoldable pub file_segments :
    UrlManagerConfig → Option TenancyPaths → String → FileInfo → List String
file_segments config tenancy prefix info =
    let topic =
      if include_topic config info then config.topic_parameter ∷ info.topic ∷ [] else [] in
    let rest = prefix ∷ topic ++ config.id_parameter ∷ info.id ∷ [] in
    if tenancy_path config tenancy == ""
    then rest
    else config.tenancy_parameter ∷ tenancy_path config tenancy ∷ rest

unfoldable pub upload_url : UrlManager → Option TenancyPaths → FileInfo → ℕ → Option Url
upload_url m tenancy info i = m.join_path m.config.base_upload_url (
    file_segments m.config tenancy m.config.upload_path_prefix info
    ++ m.config.part_parameter ∷ m.coding.format_int i ∷ [])

unfoldable pub sign_part : UrlManager → ℕ → Option TenancyPaths → FileInfo → ℕ → Option Url
sign_part m now tenancy info i =
    sign_url m.coding m.signing now (upload_url m tenancy info i) (record {
      method = m.config.upload_method;
      content_length = m.coding.format_int (upload_part_length m.part_length info i);
    })

abbrev pub cons : Option Url → Option (List Url) → Option (List Url)
cons none us = none
cons (some u) none = none
cons (some u) (some us) = some (u ∷ us)

-- the loop, for a number of parts from an index on
unfoldable pub sign_parts :
    UrlManager → ℕ → Option TenancyPaths → FileInfo → ℕ → ℕ → Option (List Url)
sign_parts m now tenancy info zero i = some []
sign_parts m now tenancy info (suc n) i =
    cons (sign_part m now tenancy info i) (sign_parts m now tenancy info n (add64 i 1))

unfoldable pub to_part_index : ℕ → GetUploadUrlsOptions → ℕ
to_part_index total opt =
    if nat_beq opt.max_count 0
    then total
    else if less64 total (add64 opt.from_part opt.max_count)
    then total
    else add64 opt.from_part opt.max_count

-- the rounds of the loop from an index up to the end
unfoldable pub rounds : ℕ → ℕ → ℕ
rounds from to = if less64 from to then sub64 to from else 0

abbrev pub upload_urls : UrlManager → ℕ → FileInfo → ℕ → Option (List Url) → Option UploadUrlInfo
upload_urls m now info from none = none
upload_urls m now info from (some urls) = some (record {
  urls = urls;
  total_url_count = part_count m.part_length info;
  method = m.config.upload_method;
  from_part_index = from;
  max_part_length = upload_part_length m.part_length info 0;
  url_expires_at = url_expires_at m now;
})

-- `GetUploadUrls`; options of zeros stand for none
unfoldable pub get_upload_urls :
    UrlManager → ℕ → Option TenancyPaths → FileInfo → GetUploadUrlsOptions → Option UploadUrlInfo
get_upload_urls m now tenancy info opt = upload_urls m now info opt.from_part (
    sign_parts m now tenancy info
      (rounds opt.from_part (to_part_index (part_count m.part_length info) opt)) opt.from_part)

unfoldable pub download_url : UrlManager → Option TenancyPaths → FileInfo → Option Url
download_url m tenancy info =
    m.join_path m.config.base_download_url
      (file_segments m.config tenancy m.config.download_path_prefix info)

abbrev pub download_info : UrlManager → ℕ → Option Url → Option DownloadUrlInfo
download_info m now none = none
download_info m now (some u) = some (record { url = u; url_expires_at = url_expires_at m now })

unfoldable pub get_download_url :
    UrlManager → ℕ → Option TenancyPaths → FileInfo → Option DownloadUrlInfo
get_download_url m now tenancy info = download_info m now (
    sign_url m.coding m.signing now (download_url m tenancy info)
      (record { method = m.config.download_method; content_length = "" }))

-- a request to the service of the data of files
pub record FileRequest : Type 0 where
  pub method : String
  pub url : Url
  pub content_length : ℕ

-- the code of the generic error
pub data FileError : Type 0 where
  error_expired : FileError
  error_bad_request : FileError

unfoldable pub error_code : Option UrlError → Option FileError
error_code none = none
error_code (some not_a_url) = some error_bad_request
error_code (some expired) = some error_expired
error_code (some invalid_hmac) = some error_bad_request

-- `checkUrl`, for a request that is one of the server
unfoldable pub check_request : UrlManager → ℕ → Bool → FileRequest → Option FileError
check_request m now download request = error_code (
    check_url m.coding m.signing now request.url (record {
      method = request.method;
      content_length = if download then "" else m.coding.format_int request.content_length;
    }))

-- `FindForUpload` up to the registry: the id, the part and the topic that it is asked for, a bad
-- request, or the panic of a method of a resource id that is not there
pub data UploadTarget : Type 0 where
  asks : String → ℕ → String → UploadTarget
  bad_request : UploadTarget
  panics : UploadTarget

abbrev pub with_topic : Bool → String → ℕ → Option String → UploadTarget
with_topic false id part topic = asks id part ""
with_topic true id part none = panics
with_topic true id part (some topic) = asks id part topic

abbrev pub with_part : Bool → String → Result ℕ → Option String → UploadTarget
with_part enabled id err topic = bad_request
with_part enabled id (ok part) topic = with_topic enabled id part topic

abbrev pub part_of : (String → Result ℕ) → String → Result ℕ
part_of read s = if s == "" then ok 0 else read s

abbrev pub find_ids : UrlManager → Option String → Option String → Option String → UploadTarget
find_ids m none part topic = panics
find_ids m (some id) none topic = if id == "" then bad_request else panics
find_ids m (some id) (some part) topic =
    if id == ""
    then bad_request
    else with_part m.config.enable_topic id (part_of m.read_int part) topic

unfoldable pub find_for_upload : UrlManager → List (String × String) → UploadTarget
find_for_upload m ids =
    find_ids m (get m.config.id_parameter ids) (get m.config.part_parameter ids)
      (get m.config.topic_parameter ids)
