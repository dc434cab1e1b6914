-- ===== src/Redact.antt =====
-- src/XrdClCurl/XrdClCurlUtil.cc: ObfuscateAuth and StartsWithCI, which keep tokens out of logs.
-- The scan is on what is left of the input; `out` is what a pass appends.
pub mod Secret
mod Tests
use xrdcl_pelican.Prelude.{
  ℕ, zero, suc, ◌+◌, Bool, true, false, not, ◌&&◌, ◌||◌, Option, none, some, List, [], ◌∷◌, ◌++◌,
}
use xrdcl_pelican.Prelude.Tests.{leb, ◌==◌, if◌then◌else◌}
use xrdcl_pelican.Prelude.Lists.{length, take, drop}
use xrdcl_pelican.Prelude.Bytes.{Bytes, codes}
use xrdcl_pelican.Digest.{to_lower}

-- The needle is in lower case.
unfoldable pub starts_with_ci : Bytes → Bytes → Bool
starts_with_ci input [] = true
starts_with_ci [] (n ∷ ns) = false
starts_with_ci (c ∷ cs) (n ∷ ns) =
    let rest = starts_with_ci cs ns in if to_lower c == n then rest else false

abbrev pub is_blank : ℕ → Bool
is_blank c = c == b' ' || c == b'\t'

-- The text in front of the first byte that is not a blank, and the text from it on.
unfoldable pub split_blanks : Bytes → Bytes × Bytes
split_blanks [] = ([], [])
split_blanks (c ∷ cs) =
    let (blanks, rest) = split_blanks cs in if is_blank c then (c ∷ blanks, rest) else ([], c ∷ cs)

-- The ends of a CGI value, and of a header.
abbrev pub ends_value : ℕ → Bool
ends_value c = c == b'&' || c == b'?' || c == b' ' || c == b'\t' || c == b'\r' || c == b'\n'

abbrev pub ends_header : ℕ → Bool
ends_header c = c == b'\r' || c == b'\n'

-- The text from the first byte on that passes the test.
unfoldable pub skip_until : (ℕ → Bool) → Bytes → Bytes
skip_until p [] = []
skip_until p (c ∷ cs) = if p c then c ∷ cs else skip_until p cs

abbrev pub redacted : Bytes
redacted = codes "REDACTED"

-- Where the byte behind the blanks is the one that is asked for: the blanks, and what follows it.
unfoldable pub behind_mark : ℕ → Bytes → Option (Bytes × Bytes)
behind_mark mark input = elim (split_blanks input).1 [
  | [] ↦ none
  | c ∷ rest ↦ if c == mark then some ((split_blanks input).0 ++ (c ∷ []), rest) else none
]

-- A match of the CGI form at the begin: what is appended, and what is left.
unfoldable pub cgi_form : Bytes → Option (Bytes × Bytes)
cgi_form input =
    if starts_with_ci input (codes "authz")
    then elim (behind_mark b'=' (drop 5 input)) [
      | none ↦ none
      | some (mark, rest) ↦ some (take 5 input ++ (mark ++ redacted), skip_until ends_value rest)
    ]
    else none

-- The same for the header form.
unfoldable pub header_form : Bytes → Option (Bytes × Bytes)
header_form input =
    if starts_with_ci input (codes "authorization")
    then elim (behind_mark b':' (drop 13 input)) [
      | none ↦ none
      | some (mark, rest) ↦ some (
        take 13 input ++ (mark ++ ((split_blanks rest).0 ++ redacted)),
        skip_until ends_header (split_blanks rest).1,
      )
    ]
    else none

-- The two forms in their order.
unfoldable pub form : Bytes → Option (Bytes × Bytes)
form input = elim (cgi_form input) [ none ↦ header_form input | some r ↦ some r ]

-- The loop; each pass takes at least one byte.
unfoldable pub scan_loop : ℕ → Bytes → Bytes
scan_loop zero input = []
scan_loop (suc fuel) [] = []
scan_loop (suc fuel) (c ∷ cs) = elim (form (c ∷ cs)) [
  | some (out, rest) ↦ out ++ scan_loop fuel rest
  | none ↦ c ∷ scan_loop fuel cs
]

unfoldable pub obfuscate_auth : Bytes → Bytes
obfuscate_auth input = scan_loop (length input) input
