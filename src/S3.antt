-- ===== src/S3.antt =====
-- src/XrdClS3/XrdClS3Factory.cc: the functions of Factory on the URLs of S3. The fuel of a loop over
-- a text is its length: each pass takes at least one byte or ends.
pub mod Cleaned
mod Tests
use xrdcl_pelican.Prelude.{
  ℕ, zero, suc, ◌+◌, ◌-◌, ◌/◌, ◌%◌, Bool, true, false, not, ◌&&◌, ◌||◌, Option, none, some, List,
  [], ◌∷◌, ◌++◌,
}
use mathlib.Core.Option
use xrdcl_pelican.Prelude.Tests.{ltb, leb, ◌==◌, if◌then◌else◌}
use xrdcl_pelican.Prelude.Bytes.{
  Bytes, codes, beq, find, find_from, find_text, is_empty, is_prefix, slice, take_until,
}
use xrdcl_pelican.Prelude.Lists.{length, take, drop}
use xrdcl_pelican.Headers.Text.{between}

-- An upper-case hexadecimal digit.
abbrev pub hex_digit : ℕ → ℕ
hex_digit n = if ltb n 10 then b'0' + n else b'A' + (n - 10)

abbrev pub is_unreserved : ℕ → Bool
is_unreserved c =
    between b'A' b'Z' c
    || between b'a' b'z' c
    || between b'0' b'9' c
    || c == b'-'
    || c == b'_'
    || c == b'.'
    || c == b'~'

unfoldable pub amazon_url_encode : Bytes → Bytes
amazon_url_encode [] = []
amazon_url_encode (c ∷ cs) =
    let rest = amazon_url_encode cs in
    if is_unreserved c then c ∷ rest else b'%' ∷ hex_digit (c / 16 % 16) ∷ hex_digit (c % 16) ∷ rest

-- The name of a parameter is not "authz".
abbrev pub is_kept : Bytes → Bool
is_kept current = not (beq (take_until (find b'=' current) current) (codes "authz"))

abbrev pub separator : Bool → Bytes
separator added = if added then codes "&" else codes "?"

abbrev pub behind_and : Option ℕ → Bytes → Bytes
behind_and none query = []
behind_and (some i) query = drop (suc i) query

-- The loop of CleanObjectName over the parameters.
unfoldable pub query_loop : ℕ → Bytes → Bytes → Bool → Bytes
query_loop zero query obj added = obj
query_loop (suc fuel) [] obj added = obj
query_loop (suc fuel) (c ∷ cs) obj added =
    let current = take_until (find b'&' (c ∷ cs)) (c ∷ cs) in
    let query = behind_and (find b'&' (c ∷ cs)) (c ∷ cs) in
    let dropped = query_loop fuel query obj added in
    let kept = query_loop fuel query (obj ++ (separator added ++ current)) true in
    if is_empty current || not (is_kept current) then dropped else kept

unfoldable pub clean_object_name : Bytes → Bytes
clean_object_name input_obj = elim (find b'?' input_obj) [
  | none ↦ input_obj
  | some loc ↦
      let query = drop (suc loc) input_obj in
      query_loop (length query) query (take loc input_obj) false
]

-- The end of the authority: the first "/" or "?".
abbrev pub before_query : Option ℕ → Option ℕ → Option ℕ
before_query slash none = slash
before_query none (some query) = some query
before_query (some slash) (some query) = if ltb query slash then some query else some slash

abbrev pub until : ℕ → Option ℕ → Bytes → Bytes
until start none url = drop start url
until start (some stop) url = slice start stop url

abbrev pub without_user : Option ℕ → Bytes → Bytes
without_user none authority = authority
without_user (some at) authority = drop (suc at) authority

unfoldable pub extract_hostname : Bytes → Bytes
extract_hostname url = elim (find_text (codes "://") url) [
  | none ↦ []
  | some loc ↦
      let stop = before_query (find_from b'/' (loc + 3) url) (find_from b'?' (loc + 3) url) in
      let authority = until (loc + 3) stop url in
      let host = without_user (find b'@' authority) authority in take_until (find b':' host) host
]

-- `rfind(needle)`.
unfoldable pub rfind_text : Bytes → Bytes → Option ℕ
rfind_text n [] = if is_empty n then some 0 else none
rfind_text n (x ∷ xs) = elim (rfind_text n xs) [
  | some i ↦ some (suc i)
  | none ↦ if is_prefix n (x ∷ xs) then some 0 else none
]

-- The settings of the factory.
pub record Settings : Type 0 where
  pub endpoint : Bytes
  pub region : Bytes
  pub url_style : Bytes

-- The errors of GenerateHttpUrl.
pub data UrlError : Type 0 where
  no_s3_scheme no_bucket invalid_url_style : UrlError

pub data UrlResult : Type 0 where
  http_url : Bytes → Bytes → UrlResult
  url_error : UrlError → UrlResult

-- The bucket in front of ".region.endpoint" or ".endpoint" in a host name.
abbrev pub front : Bytes → Option ℕ → Bytes → Bytes
front authority none otherwise = otherwise
front authority (some i) otherwise = take i authority

abbrev pub bucket_of : Settings → Bytes → Bytes → Bytes
bucket_of s authority bucket =
    let test_endpoint = codes "." ++ s.endpoint in
    let plain = front authority (rfind_text test_endpoint authority) bucket in
    if is_empty s.region
    then plain
    else front authority (rfind_text (codes "." ++ (s.region ++ test_endpoint)) authority) plain

-- The URL of an endpoint, a bucket and an object; the flag is whether the object is asked for apart.
abbrev pub styled : Settings → Bool → Bytes → Bytes → Bytes → UrlResult
styled s apart endpoint bucket obj =
    let tail = if apart then [] else codes "/" ++ obj in
    if beq s.url_style (codes "virtual") || is_empty s.url_style
    then http_url
        (codes "https://"
          ++ (bucket ++ (codes "." ++ (s.region ++ (codes "." ++ (endpoint ++ tail))))))
        obj
    else if beq s.url_style (codes "path")
    then http_url
        (codes "https://"
          ++ ((if is_empty s.region then [] else s.region ++ codes ".")
              ++ (endpoint ++ (codes "/" ++ (bucket ++ tail)))))
        obj
    else url_error invalid_url_style

-- `loc + 1` of a position that may be npos.
abbrev pub next_of : Option ℕ → ℕ
next_of none = 0
next_of (some i) = suc i

-- The object behind a position.
abbrev pub object_at : Option ℕ → Bytes → Bytes
object_at none url = clean_object_name []
object_at (some i) url = clean_object_name (drop (suc i) url)

-- The endpoint stands in front of the bucket.
abbrev pub with_endpoint : Settings → Bool → Bytes → Bytes → ℕ → Option ℕ → UrlResult
with_endpoint s apart url endpoint start none = url_error no_bucket
with_endpoint s apart url endpoint start (some loc) =
    styled s apart endpoint (slice start loc url) (object_at (some loc) url)

unfoldable pub generate_http_url : Settings → Bool → Bytes → UrlResult
generate_http_url s apart s3_url =
    let loc = find_from b'/' 5 s3_url in
    let login = until 5 loc s3_url in
    let bucket = without_user (find b'@' login) login in
    if not (beq (take 5 s3_url) (codes "s3://"))
    then url_error no_s3_scheme
    else if beq bucket s.endpoint || is_empty s.endpoint
    then with_endpoint s apart s3_url bucket (next_of loc) (find_from b'/' (next_of loc) s3_url)
    else styled s apart s.endpoint (bucket_of s (extract_hostname s3_url) bucket)
        (object_at loc s3_url)
