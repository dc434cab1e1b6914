-- ===== src/Handlers/Tag.antt =====
-- src/XrdClCurl/XrdClCurlUtil.cc: SchedulerTagFor, on the URL of an operation.
use xrdcl_pelican.Prelude.{ℕ, suc, ◌+◌, Bool, ◌&&◌, ◌||◌, Option, none, some, [], ◌∷◌, ◌≡◌, refl}
use xrdcl_pelican.Prelude.Tests.{ltb, leb, ◌==◌, if◌then◌else◌}
use xrdcl_pelican.Prelude.Lists.{length, take, drop, get_or}
use xrdcl_pelican.Prelude.Bytes.{Bytes, codes, find, find_if, find_text, find_from, slice}

-- `rfind(c)`: the last position of the byte.
unfoldable pub rfind : ℕ → Bytes → Option ℕ
rfind c [] = none
rfind c (x ∷ xs) = elim (rfind c xs) [
  | some i ↦ some (suc i)
  | none ↦ if x == c then some 0 else none
]

-- One of "/?#".
abbrev pub ends_authority : ℕ → Bool
ends_authority c = c == b'/' || c == b'?' || c == b'#'

-- Behind the scheme.
unfoldable pub authority_start : Bytes → ℕ
authority_start url = elim (find_text (codes "://") url) [
  | none ↦ 0
  | some scheme_end ↦ scheme_end + 3
]

unfoldable pub authority_end : Bytes → ℕ → ℕ
authority_end url start = elim (find_if ends_authority (drop start url)) [
  | none ↦ length url
  | some i ↦ start + i
]

-- Behind the last "@" at or before `end - 1`, where it stands in the authority.
unfoldable pub host_start : Bytes → ℕ → ℕ → ℕ
host_start url start end = elim (rfind b'@' (take (if end == 0 then 1 else end) url)) [
  | none ↦ start
  | some at ↦ if leb start at && ltb at end then at + 1 else start
]

-- Behind the "]" of an IPv6 literal.
unfoldable pub port_search_start : Bytes → ℕ → ℕ → ℕ
port_search_start url start end =
    if ltb start end && get_or url start 0 == b'['
    then elim (find_from b']' start url) [
      | none ↦ start
      | some rbracket ↦ if ltb rbracket end then rbracket + 1 else start
    ]
    else start

unfoldable pub host_end : Bytes → ℕ → ℕ → ℕ
host_end url from end = elim (find_from b':' from url) [
  | none ↦ end
  | some colon ↦ if ltb colon end then colon else end
]

unfoldable pub scheduler_tag_for : Bytes → Bytes
scheduler_tag_for url =
    let start = authority_start url in
    let end = authority_end url start in
    let start' = host_start url start end in
    slice start' (host_end url (port_search_start url start' end) end) url

-- The examples of the comments: user information, a port, an IPv6 literal; and an URL without host.
tag_tests :
    (scheduler_tag_for (codes "https://user:pw@origin.org:8443/a@b") ≡ codes "origin.org")
    × (scheduler_tag_for (codes "https://[::1]:1094/x?y") ≡ codes "[::1]")
    × (scheduler_tag_for (codes "origin.org:80/x") ≡ codes "origin.org")
    × (scheduler_tag_for (codes "pelican:///x") ≡ [])
unfolding scheduler_tag_for authority_start authority_end host_start port_search_start host_end
    rfind find_if find_text find_from find
tag_tests = (refl, refl, refl, refl)
