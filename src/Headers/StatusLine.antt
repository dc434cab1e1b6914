-- ===== src/Headers/StatusLine.antt =====
-- src/XrdClCurl/XrdClCurlUtil.cc: what HeaderParser::Parse keeps of a status line.
use xrdcl_pelican.Prelude.{
  ℕ, ◌≤◌, ◌<◌, true, false, Option, some, [], ◌∷◌, ◌++◌, ◌≡◌, refl, ◌∙◌, arith,
}
use xrdcl_pelican.Prelude.Bytes.{Bytes, take_until}
use xrdcl_pelican.Prelude.Int.{pos}
use xrdcl_pelican.Prelude.Search.{drop_behind, Lacks, find-append, take-append}
use xrdcl_pelican.Headers.Text.{stoll, getline}
use xrdcl_pelican.Headers
use xrdcl_pelican.Headers.{HeaderParser}

getline-append : (d : ℕ) (xs ys : Bytes) → Lacks d xs → getline d (xs ++ (d ∷ ys)) ≡ some (xs, ys)
unfolding getline
getline-append d [] ys l = rw (find-append d [] ys l, getline) refl
getline-append d (x ∷ xs) ys l =
    rw (find-append d (x ∷ xs) ys l, getline)
      (rw (take-append xs (d ∷ ys)) (rw (drop_behind xs d ys)))

-- The line "protocol number message" with its line end.
abbrev pub status_line : Bytes → Bytes → Bytes → Bytes
status_line protocol number message =
    protocol ++ (b' ' ∷ (number ++ (b' ' ∷ ((message ++ (b'\r' ∷ [])) ++ (b'\n' ∷ [])))))

-- What the parser holds of a status line.
unfoldable pub HasStatus : HeaderParser → Bytes → ℕ → Bytes → Type 0
HasStatus p protocol n message =
    (p.resp_protocol ≡ protocol) × (p.status_code ≡ pos n) × (p.resp_message ≡ message)

status_message_eq :
    (p : HeaderParser) (message : Bytes)
    → Lacks b'\n' (message ++ (b'\r' ∷ []))
    → Lacks b'\r' message
    → Headers.status_message p ((message ++ (b'\r' ∷ [])) ++ (b'\n' ∷ []))
      ≡ (record p { resp_message = message }, true)
unfolding Headers.status_message
status_message_eq p message ln lr =
    rw (getline-append b'\n' (message ++ (b'\r' ∷ [])) [] ln, Headers.status_message)
      (rw (find-append b'\r' message [] lr, take_until) (rw (take-append message (b'\r' ∷ []))))

status_number_eq :
    (p : HeaderParser) (number rest : Bytes) (n : ℕ)
    → Lacks b' ' number
    → stoll number ≡ some (pos n)
    → 100 ≤ n
    → n < 600
    → Headers.status_number p (number ++ (b' ' ∷ rest))
      ≡ Headers.status_message (record p { status_code = pos n }) rest
unfolding Headers.status_number
status_number_eq p number rest n l v low high =
    let same : Headers.to_int (pos n) ≡ pos n = ground arith in
    let ok : Headers.is_bad_status (pos n) ≡ false = ground arith in
    rw (getline-append b' ' number rest l, Headers.status_number)
      (rw (v, Headers.status_number) (rw (same, ok)))

parse_status_line_eq :
    (p : HeaderParser) (protocol rest : Bytes)
    → Lacks b' ' protocol
    → Headers.parse_status_line p (protocol ++ (b' ' ∷ rest))
      ≡ Headers.status_number (record p { resp_protocol = protocol }) rest
unfolding Headers.parse_status_line
parse_status_line_eq p protocol rest l =
    rw (getline-append b' ' protocol rest l, Headers.parse_status_line) refl

module _ (bio_read : Bytes → Option Bytes) where
  -- At the begin of a block, a line "protocol number message" whose number is from 100 to 599 is
  -- accepted, and the parser holds its three parts, the message without the line end.
  pub parse_status :
      (p : HeaderParser) (protocol number message : Bytes) (n : ℕ)
      → (Headers.restarted p).recv_status_line ≡ false
      → Lacks b' ' protocol
      → Lacks b' ' number
      → Lacks b'\n' (message ++ (b'\r' ∷ []))
      → Lacks b'\r' message
      → stoll number ≡ some (pos n)
      → 100 ≤ n
      → n < 600
      → ((Headers.parse bio_read p (status_line protocol number message)).1 ≡ true)
        × HasStatus
            (Headers.parse bio_read p (status_line protocol number message)).0
            protocol
            n
            message
  unfolding Headers.parse HasStatus
  parse_status p protocol number message n s lp ln lm lr v low high =
      let q = record (Headers.restarted p) { recv_status_line = true } in
      let tail = (message ++ (b'\r' ∷ [])) ++ (b'\n' ∷ []) in
      let e =
        parse_status_line_eq q protocol (number ++ (b' ' ∷ tail)) lp
        ∙ status_number_eq (record q { resp_protocol = protocol }) number tail n ln v low high
        ∙ status_message_eq (record q { resp_protocol = protocol; status_code = pos n }) message lm
            lr in
      rw (s, e) (refl, (refl, refl, refl))
