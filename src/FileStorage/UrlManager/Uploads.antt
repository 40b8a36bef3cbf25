-- ===== src/FileStorage/UrlManager/Uploads.antt =====
-- url_manager.go with filedata_controller.go: the URLs that are given for the parts of a file, or for its
-- whole, are those at which the service takes the part or gives the file.
use evgo.Shared.{
  ◌+◌, ◌-◌, nat_beq, add64, sub64, less64, inl, inr, half, beq_refl, ◌<◌, ◌++◌, ◌&&◌, Bool-cases, ℕ,
  zero, suc, ◌-◌, ◌≤◌, ◌≡◌, refl, ap, ◌∙◌, ◌⊎◌, true, false, Option, none, some, List, [], ◌∷◌,
  length, String, string_eq, ◌==◌, if◌then◌else◌, get, arith,
}
use evgo.Auth.Context.{ok}
use evgo.FileStorage.Parts.{min, part_count_bound}
use evgo.FileStorage.{max_part_length, FileInfo, upload_part_length, part_count}
use evgo.FileStorage.SignedUrl.{
  Url, SignUrlValues, sign_url, with_signature, with_expiry, check_url, expired,
}
use evgo.FileStorage.SignedUrl.Expiry.{IsCoding, lapsed, check_url-sign_url}
use evgo.FileStorage.UrlManager.{
  rounds, UrlManagerConfig, file_segments, tenancy_path, include_topic, find_for_upload, asks,
  UrlManager, TenancyPaths, UploadUrlInfo, DownloadUrlInfo, GetUploadUrlsOptions, upload_url,
  sign_part, sign_parts, to_part_index, cons, upload_urls, get_upload_urls, download_url,
  download_info, get_download_url, FileRequest, error_code, check_request, url_expires_at,
}

-- what the manager relies on: its coding, two different names of parameters, and bases of URLs that
-- carry no time of expiry
pub record IsManager (m : UrlManager) : Type 0 where
  pub coding : IsCoding m.coding
  pub two_params : (m.signing.signature_param == m.signing.expiry_param) ≡ false
  pub no_expiry :
      (base : String) (segments : List String) (u : Url)
      → m.join_path base segments ≡ some u
      → get m.signing.expiry_param u.query ≡ none
  pub read-format : (n : ℕ) → n < half → m.read_int (m.coding.format_int n) ≡ ok n
  pub topic_or_id : (m.config.topic_parameter == m.config.id_parameter) ≡ false
  pub topic_or_part : (m.config.topic_parameter == m.config.part_parameter) ≡ false
  pub id_or_part : (m.config.id_parameter == m.config.part_parameter) ≡ false

-- A time at which the URLs that were given with this expiry are accepted.
abbrev pub IsInTime : ℕ → ℕ → Type 0
IsInTime expires_at later = (expires_at ≡ 0) ⊎ (later ≤ expires_at)

-- the request to upload part i of a file at a URL
abbrev pub upload_request : UrlManager → FileInfo → ℕ → String → Url → FileRequest
upload_request m info i method url = record {
  method = method;
  url = url;
  content_length = upload_part_length m.part_length info i;
}

-- the segments of a path as names with the values behind them
abbrev pub pairs : List String → List (String × String)
pairs [] = []
pairs (name ∷ []) = []
pairs (name ∷ value ∷ rest) = (name, value) ∷ pairs rest

-- what stands before the prefix of the service
abbrev pub front : UrlManagerConfig → Option TenancyPaths → List String
front config none = []
front config (some t) =
    let path = if config.shadow_tenancy_path then t.shadow_path else t.path in
    if path == "" then [] else config.tenancy_parameter ∷ path ∷ []

-- The URL has the host and the path that are joined from the base for uploads, the tenancy, the prefix
-- and a chain of resources. From that chain the service asks the registry for part i of the file, under
-- its topic if topics are enabled.
pub record IsPartUrl (m : UrlManager) (tenancy : Option TenancyPaths) (info : FileInfo) (i : ℕ)
    (u : Url) : Type 0 where
  chain : List String
  original : Url
  joined :
      m.join_path m.config.base_upload_url
        (front m.config tenancy ++ m.config.upload_path_prefix ∷ chain)
      ≡ some original
  path : u.path ≡ original.path
  host : u.host ≡ original.host
  target :
      find_for_upload m (pairs chain)
      ≡ asks info.id i (if m.config.enable_topic then info.topic else "")

-- The URLs are those of the parts from i on, and accepted for them.
abbrev pub AreAccepted :
    UrlManager → ℕ → Option TenancyPaths → FileInfo → String → ℕ → List Url → Type 0
AreAccepted m later tenancy info method i [] = Unit
AreAccepted m later tenancy info method i (u ∷ us) =
    IsPartUrl m tenancy info i u
    × (check_request m later false (upload_request m info i method u) ≡ none)
    × AreAccepted m later tenancy info method (suc i) us

in_time :
    (m : UrlManager) (now later : ℕ)
    → IsInTime (url_expires_at m now) later
    → lapsed m.signing now later ≡ false
unfolding url_expires_at
in_time m now later h = ground arith

signed_in_time :
    (m : UrlManager) (now later : ℕ) (original : Option Url) (signed : Url) (v : SignUrlValues)
    → IsManager m
    → IsInTime (url_expires_at m now) later
    → ((u : Url) → original ≡ some u → get m.signing.expiry_param u.query ≡ none)
    → sign_url m.coding m.signing now original v ≡ some signed
    → check_url m.coding m.signing later signed v ≡ none
unfolding sign_url
signed_in_time m now later none signed v is t h e = cc
signed_in_time m now later (some u) signed v is t h e =
    check_url-sign_url m.coding m.signing is.coding now later u signed v is.two_params (h u refl) e
    ∙ ap (λ b. if b then some expired else none) (in_time m now later t)

sign_part_lem :
    (m : UrlManager) (now later : ℕ) (tenancy : Option TenancyPaths) (info : FileInfo) (i : ℕ)
    (u : Url)
    → IsManager m
    → IsInTime (url_expires_at m now) later
    → sign_part m now tenancy info i ≡ some u
    → check_request m later false (upload_request m info i m.config.upload_method u) ≡ none
unfolding sign_part check_request upload_url error_code
sign_part_lem m now later tenancy info i u is t e =
    ap error_code
      (signed_in_time m now later (upload_url m tenancy info i) u _ is t (is.no_expiry _ _) e)

-- the chain of resources of a part
abbrev chain_of : UrlManager → FileInfo → ℕ → List String
chain_of m info i =
    (if include_topic m.config info then m.config.topic_parameter ∷ info.topic ∷ [] else [])
    ++ m.config.id_parameter ∷ info.id ∷ m.config.part_parameter ∷ m.coding.format_int i ∷ []

segments_lem :
    (m : UrlManager) (tenancy : Option TenancyPaths) (info : FileInfo) (i : ℕ)
    → (file_segments m.config tenancy m.config.upload_path_prefix info
        ++ m.config.part_parameter ∷ m.coding.format_int i ∷ [])
      ≡ front m.config tenancy ++ m.config.upload_path_prefix ∷ chain_of m info i
unfolding file_segments tenancy_path
segments_lem m none info i = elim (Bool-cases (include_topic m.config info)) [
  | inl a ↦ rw a refl
  | inr a ↦ rw a refl
]
segments_lem m (some t) info i =
    after (Bool-cases (include_topic m.config info)) (Bool-cases (path == ""))
  where
    path : String
    path = if m.config.shadow_tenancy_path then t.shadow_path else t.path

    after :
        (include_topic m.config info ≡ true) ⊎ (include_topic m.config info ≡ false)
        → ((path == "") ≡ true) ⊎ ((path == "") ≡ false)
        → (file_segments m.config (some t) m.config.upload_path_prefix info
            ++ m.config.part_parameter ∷ m.coding.format_int i ∷ [])
          ≡ front m.config (some t) ++ m.config.upload_path_prefix ∷ chain_of m info i
    after (inl a) (inl b) = rw (a, b) refl
    after (inl a) (inr b) = rw (a, b) refl
    after (inr a) (inl b) = rw (a, b) refl
    after (inr a) (inr b) = rw (a, b) refl

target_lem :
    (m : UrlManager) (info : FileInfo) (i : ℕ)
    → IsManager m
    → i < half
    → (info.id == "") ≡ false
    → (m.config.enable_topic && info.topic == "") ≡ false
    → find_for_upload m (pairs (chain_of m info i))
      ≡ asks info.id i (if m.config.enable_topic then info.topic else "")
unfolding find_for_upload include_topic get
target_lem m info i is bound given topic = elim (Bool-cases m.config.enable_topic) [
  | inl enabled ↦
      let named = rw enabled at topic in
      rw
        (
          enabled,
          named,
          is.topic_or_id,
          is.topic_or_part,
          beq_refl m.config.topic_parameter,
          beq_refl m.config.id_parameter,
          is.id_or_part,
          beq_refl m.config.part_parameter,
          given,
          is.coding.format_nonempty i,
          is.read-format i bound,
        )
        refl
  | inr disabled ↦
      rw
        (
          disabled,
          beq_refl m.config.id_parameter,
          is.id_or_part,
          beq_refl m.config.part_parameter,
          given,
          is.coding.format_nonempty i,
          is.read-format i bound,
        )
        refl
]

signed_path :
    (m : UrlManager) (now : ℕ) (original signed : Url) (v : SignUrlValues)
    → sign_url m.coding m.signing now (some original) v ≡ some signed
    → (signed.path ≡ original.path) × (signed.host ≡ original.host)
unfolding sign_url with_signature with_expiry
signed_path m now original signed v e = ground arith

part_url_lem :
    (m : UrlManager) (now : ℕ) (tenancy : Option TenancyPaths) (info : FileInfo) (i : ℕ) (u : Url)
    → IsManager m
    → i < half
    → (info.id == "") ≡ false
    → (m.config.enable_topic && info.topic == "") ≡ false
    → sign_part m now tenancy info i ≡ some u
    → IsPartUrl m tenancy info i u
unfolding sign_part upload_url
part_url_lem m now tenancy info i u is bound given topic e =
    after (m.join_path m.config.base_upload_url segments) refl e
  where
    segments : List String
    segments =
        file_segments m.config tenancy m.config.upload_path_prefix info
        ++ m.config.part_parameter ∷ m.coding.format_int i ∷ []

    v : SignUrlValues
    v = record {
      method = m.config.upload_method;
      content_length = m.coding.format_int (upload_part_length m.part_length info i);
    }

    after :
        (o : Option Url)
        → m.join_path m.config.base_upload_url segments ≡ o
        → sign_url m.coding m.signing now o v ≡ some u
        → IsPartUrl m tenancy info i u
    after none j q = unfold sign_url in cc
    after (some original) j q = record {
      chain = chain_of m info i;
      original = original;
      joined = rw (← segments_lem m tenancy info i) j;
      path = (signed_path m now original u v q).0;
      host = (signed_path m now original u v q).1;
      target = target_lem m info i is bound given topic;
    }

cons_lem :
    (a : Option Url) (b : Option (List Url)) (us : List Url)
    → cons a b ≡ some us
    → (u : Url) × (rest : List Url) × (a ≡ some u) × (b ≡ some rest) × (us ≡ u ∷ rest)
cons_lem none b us e = cc
cons_lem (some u) none us e = cc
cons_lem (some u) (some rest) us e = (u, rest, refl, refl, cc)

next_lem : (i : ℕ) → i < half → add64 i 1 ≡ suc i
unfolding add64
next_lem i h = omega arith

sign_parts_lem :
    (m : UrlManager) (now later : ℕ) (tenancy : Option TenancyPaths) (info : FileInfo) (n i : ℕ)
    (us : List Url)
    → IsManager m
    → IsInTime (url_expires_at m now) later
    → (info.id == "") ≡ false
    → (m.config.enable_topic && info.topic == "") ≡ false
    → i + n ≤ half
    → sign_parts m now tenancy info n i ≡ some us
    → (length us ≡ n) × AreAccepted m later tenancy info m.config.upload_method i us
unfolding sign_parts
sign_parts_lem m now later tenancy info zero i [] is t given topic bound e = (refl, tt)
sign_parts_lem m now later tenancy info zero i (u ∷ us) is t given topic bound e = cc
sign_parts_lem m now later tenancy info (suc n) i us is t given topic bound e =
    let (u, rest, one, more, parts) = cons_lem _ _ us e in
    rw parts (
      let (count, accepted) =
        sign_parts_lem m now later tenancy info n (suc i) rest is t given topic (omega arith)
          (rw (next_lem i (omega arith)) at more) in
      (
        ap suc count,
        (
          part_url_lem m now tenancy info i u is (omega arith) given topic one,
          sign_part_lem m now later tenancy info i u is t one,
          accepted,
        ),
      ))

-- A request for the URLs of a file: its numbers are not negative and their sums are below 2 ^ 63, the
-- file has an id, and a topic if topics are enabled.
pub record IsRequest (m : UrlManager) (info : FileInfo) (opt : GetUploadUrlsOptions) : Type 0 where
  pub positive : 0 < max_part_length m.part_length info
  pub fits : max_part_length m.part_length info < half
  pub bound : info.size + max_part_length m.part_length info ≤ half
  pub sum : opt.from_part + opt.max_count < half
  pub id : (info.id == "") ≡ false
  pub topic : (m.config.enable_topic && info.topic == "") ≡ false

-- the end of the parts that are asked for
abbrev pub end_of : ℕ → GetUploadUrlsOptions → ℕ
end_of total opt =
    if nat_beq opt.max_count 0 then total else min total (opt.from_part + opt.max_count)

rounds_lem :
    (total : ℕ) (opt : GetUploadUrlsOptions)
    → total < half
    → opt.from_part + opt.max_count < half
    → rounds opt.from_part (to_part_index total opt) ≡ end_of total opt - opt.from_part
unfolding rounds to_part_index less64 add64 sub64
rounds_lem total opt h k = ground arith

-- All the parts from the first one that was asked for on, up to the greatest number of them, are given,
-- and accepted.
abbrev pub IsGiven :
    UrlManager → ℕ → Option TenancyPaths → FileInfo → GetUploadUrlsOptions → UploadUrlInfo → Type 0
IsGiven m later tenancy info opt given =
    (length given.urls ≡ end_of (part_count m.part_length info) opt - opt.from_part)
    × AreAccepted m later tenancy info given.method opt.from_part given.urls

some_lem : (a b : UploadUrlInfo) → some a ≡ some b → a ≡ b
some_lem a b e = cc

-- With a coding, parameters and base URLs that obey their laws, and for a file with an id, with a
-- topic if topics are enabled, whose numbers are not negative and whose sums fit into 63 bits: if
-- GetUploadUrls gives URLs, it gives one for each part from the first that was asked for up to the
-- greatest number that was asked for or exists; each has the host and the path joined from the base
-- for uploads, the tenancy, the prefix and resources by which the service asks its registry for
-- that part of that file under its topic, and until the published expiry the service accepts, at
-- that URL, the upload of the part with its length.
pub get_upload_urls-accepted :
    (m : UrlManager) (now later : ℕ) (tenancy : Option TenancyPaths) (info : FileInfo)
    (opt : GetUploadUrlsOptions) (given : UploadUrlInfo)
    → IsManager m
    → IsRequest m info opt
    → get_upload_urls m now tenancy info opt ≡ some given
    → IsInTime given.url_expires_at later
    → IsGiven m later tenancy info opt given
unfolding get_upload_urls
get_upload_urls-accepted m now later tenancy info opt given is request e t = after _ refl e
  where
    count : ℕ
    count = rounds opt.from_part (to_part_index (part_count m.part_length info) opt)

    total_bound : part_count m.part_length info < half
    total_bound = part_count_bound m.part_length info request.positive request.fits request.bound

    counted : count ≡ end_of (part_count m.part_length info) opt - opt.from_part
    counted = rounds_lem (part_count m.part_length info) opt total_bound request.sum

    within : opt.from_part + count ≤ half
    within = ground (arith, counted, total_bound, request.sum)

    after :
        (o : Option (List Url))
        → sign_parts m now tenancy info count opt.from_part ≡ o
        → upload_urls m now info opt.from_part o ≡ some given
        → IsGiven m later tenancy info opt given
    after none p q = cc
    after (some us) p q =
        let same = some_lem _ given q in
        let parts =
          sign_parts_lem m now later tenancy info count opt.from_part us is
            (rw (ap (λ (g : UploadUrlInfo). g.url_expires_at) same) t) request.id request.topic
            within p in
        rw (← same) (parts.0 ∙ counted, parts.1)

download_lem : (a b : DownloadUrlInfo) → some a ≡ some b → a ≡ b
download_lem a b e = cc

pub get_download_url-accepted :
    (m : UrlManager) (now later : ℕ) (tenancy : Option TenancyPaths) (info : FileInfo)
    (given : DownloadUrlInfo) (content_length : ℕ)
    → IsManager m
    → get_download_url m now tenancy info ≡ some given
    → IsInTime given.url_expires_at later
    → check_request m later true (record {
      method = m.config.download_method;
      url = given.url;
      content_length = content_length;
    })
      ≡ none
unfolding get_download_url check_request error_code download_url
get_download_url-accepted m now later tenancy info given content_length is e t = after _ refl e
  where
    after :
        (o : Option Url)
        → sign_url m.coding m.signing now
            (download_url m tenancy info)
            (record { method = m.config.download_method; content_length = "" })
          ≡ o
        → download_info m now o ≡ some given
        → check_request m later true (record {
          method = m.config.download_method;
          url = given.url;
          content_length = content_length;
        })
          ≡ none
    after none p q = cc
    after (some u) p q =
        let same = download_lem _ given q in
        rw (← same) (
          ap error_code (
            signed_in_time m now later (download_url m tenancy info) u _ is
              (rw (ap (λ (g : DownloadUrlInfo). g.url_expires_at) same) t) (is.no_expiry _ _) p))
