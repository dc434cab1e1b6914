-- ===== src/Verbs/Key.antt =====
-- The key of an URL.
use mathlib.Core.List.{append_assoc}
use xrdcl_pelican.Prelude.{◌+◌, ◌≡◌, refl, ◌∙◌, sym, some, [], ◌∷◌, ◌++◌, arith}
use xrdcl_pelican.Prelude.Lists.{length, take, length-append}
use xrdcl_pelican.Prelude.Bytes.{Bytes, find_from, slice}
use xrdcl_pelican.Prelude.Search.{
  Lacks, Lacks-append, Lacks-cons_ne, find-append, take-append, colon_slashes, find_text-scheme,
  find_from-append, slice-append,
}
use xrdcl_pelican.Verbs.{key_of, get_url_key}

-- `scheme://authority/path`.
abbrev pub url_of : Bytes → Bytes → Bytes → Bytes
url_of scheme authority path = scheme ++ (colon_slashes ++ (authority ++ (b'/' ∷ path)))

pub length-scheme : (scheme : Bytes) → length (scheme ++ colon_slashes) ≡ length scheme + 3
length-scheme scheme = length-append scheme colon_slashes

pub split-url :
    (scheme authority path : Bytes)
    → url_of scheme authority path ≡ (scheme ++ colon_slashes) ++ (authority ++ (b'/' ∷ path))
split-url scheme authority path =
    sym (append_assoc scheme colon_slashes (authority ++ (b'/' ∷ path)))

pub path-found :
    (scheme authority path : Bytes)
    → Lacks b'/' authority
    → find_from b'/' (length scheme + 3) (url_of scheme authority path)
      ≡ some (length scheme + 3 + length authority)
path-found scheme authority path k =
    rw (split-url scheme authority path, ← length-scheme scheme)
      (find_from-append b'/' (scheme ++ colon_slashes) authority path k)

pub slice-authority :
    (scheme authority path : Bytes)
    → slice
        (length scheme + 3)
        (length scheme + 3 + length authority)
        (url_of scheme authority path)
      ≡ authority
slice-authority scheme authority path =
    rw (split-url scheme authority path, ← length-scheme scheme)
      (slice-append (scheme ++ colon_slashes) authority (b'/' ∷ path))

-- The key is computed from the scheme and the authority.
get_url_key-authority :
    (scheme authority path : Bytes)
    → Lacks b':' scheme
    → Lacks b'/' authority
    → get_url_key (url_of scheme authority path)
      ≡ key_of (url_of scheme authority path) (length scheme) (length scheme + 3 + length authority)
unfolding get_url_key
get_url_key-authority scheme authority path h k = ground (
  arith,
  find_text-scheme scheme (authority ++ (b'/' ∷ path)) h,
  path-found scheme authority path k,
)

pub take-authority :
    (scheme authority path : Bytes)
    → take (length scheme + 3 + length authority) (url_of scheme authority path)
      ≡ scheme ++ (colon_slashes ++ authority)
take-authority scheme authority path =
    let whole : url_of scheme authority path
        ≡ (scheme ++ (colon_slashes ++ authority)) ++ (b'/' ∷ path) =
      simp append_assoc in
    let n : length scheme + 3 + length authority ≡ length (scheme ++ (colon_slashes ++ authority)) =
      omega (
        arith,
        length-append scheme (colon_slashes ++ authority),
        length-append colon_slashes authority,
      ) in
    rw (whole, n) (take-append (scheme ++ (colon_slashes ++ authority)) (b'/' ∷ path))

-- Without credentials the key is the scheme, "://" and the authority, whatever the path is.
key_plain :
    (scheme host path : Bytes)
    → Lacks b':' scheme
    → Lacks b'/' host
    → Lacks b'@' host
    → get_url_key (url_of scheme host path) ≡ scheme ++ (colon_slashes ++ host)
unfolding key_of
key_plain scheme host path h k a =
    get_url_key-authority scheme host path h k
    ∙ rw (slice-authority scheme host path, a, key_of) (take-authority scheme host path)

take-scheme :
    (scheme authority path : Bytes)
    → take (length scheme + 3) (url_of scheme authority path) ≡ scheme ++ colon_slashes
take-scheme scheme authority path =
    rw (split-url scheme authority path, ← length-scheme scheme)
      (take-append (scheme ++ colon_slashes) (authority ++ (b'/' ∷ path)))

-- What stands before the host.
abbrev before_host : Bytes → Bytes → Bytes
before_host scheme user = scheme ++ (colon_slashes ++ (user ++ (b'@' ∷ [])))

length-before_host :
    (scheme user : Bytes) → length (before_host scheme user) ≡ length scheme + 3 + length user + 1
length-before_host scheme user = omega (
  arith,
  length-append scheme (colon_slashes ++ (user ++ (b'@' ∷ []))),
  length-append user (b'@' ∷ []),
)

slice-host :
    (scheme user host path : Bytes)
    → slice
        (length scheme + 3 + length user + 1)
        (length scheme + 3 + length (user ++ (b'@' ∷ host)))
        (url_of scheme (user ++ (b'@' ∷ host)) path)
      ≡ host
slice-host scheme user host path =
    let whole : url_of scheme (user ++ (b'@' ∷ host)) path
        ≡ before_host scheme user ++ (host ++ (b'/' ∷ path)) =
      simp append_assoc in
    let stop : length scheme + 3 + length (user ++ (b'@' ∷ host))
        ≡ length (before_host scheme user) + length host =
      omega (arith, length-before_host scheme user, length-append user (b'@' ∷ host)) in
    rw (whole, stop, ← length-before_host scheme user)
      (slice-append (before_host scheme user) host (b'/' ∷ path))

key_user :
    (scheme user host path : Bytes)
    → Lacks b':' scheme
    → Lacks b'/' (user ++ (b'@' ∷ host))
    → Lacks b'@' user
    → get_url_key (url_of scheme (user ++ (b'@' ∷ host)) path) ≡ scheme ++ (colon_slashes ++ host)
unfolding key_of
key_user scheme user host path h k a =
    get_url_key-authority scheme (user ++ (b'@' ∷ host)) path h k
    ∙ rw (slice-authority scheme (user ++ (b'@' ∷ host)) path, find-append b'@' user host a, key_of)
        (rw (take-scheme scheme (user ++ (b'@' ∷ host)) path, slice-host scheme user host path)
          (append_assoc scheme colon_slashes host))

-- Credentials and path do not matter: `scheme://user@host/path` and `scheme://host/other` share the
-- key `scheme://host`, where the scheme has no colon, user and host no slash, and neither an "@".
get_url_key_lem :
    (scheme user host path other : Bytes)
    → Lacks b':' scheme
    → Lacks b'/' user
    → Lacks b'/' host
    → Lacks b'@' user
    → Lacks b'@' host
    → (get_url_key (url_of scheme (user ++ (b'@' ∷ host)) path) ≡ scheme ++ (colon_slashes ++ host))
      × (get_url_key (url_of scheme host other) ≡ scheme ++ (colon_slashes ++ host))
get_url_key_lem scheme user host path other h u k a b = (
  key_user scheme user host path h
      (Lacks-append b'/' user (b'@' ∷ host) u (Lacks-cons_ne b'/' b'@' host refl k)) a,
  key_plain scheme host other h k b,
)
