-- ===== src/Digest.antt =====
-- src/common/XrdClCurlDigest.cc: the Digest header of RFC 3230. The base64 filter of OpenSSL's BIO
-- is a parameter: `bio_read input` is what BIO_read writes, at most 32 bytes, or `none` where it
-- returns a negative number.
pub mod Hex
pub mod Fields
mod Tests
use xrdcl_pelican.Prelude.{
  ℕ, zero, suc, ◌+◌, ◌-◌, ◌*◌, ◌/◌, ◌%◌, ◌^◌, Bool, true, false, not, ◌&&◌, ◌||◌, Option, none,
  some, List, [], ◌∷◌, ◌++◌,
}
use xrdcl_pelican.Prelude.Tests.{ltb, leb, ◌==◌, if◌then◌else◌}
use xrdcl_pelican.Prelude.Lists.{length, take, drop, get_or, replicate}
use xrdcl_pelican.Prelude.Bytes.{Bytes, codes, beq, find, take_until, is_empty}
use xrdcl_pelican.Checksum.{
  ChecksumType, crc32c, md5, sha1, sha256, adler32, crc32, ChecksumInfo, put, get_checksum_length,
  max_checksum_length,
}

abbrev pub is_blank : ℕ → Bool
is_blank c = c == b' ' || c == b'\t'

unfoldable pub trim_front : Bytes → Bytes
trim_front [] = []
trim_front (c ∷ cs) = if is_blank c then trim_front cs else c ∷ cs

-- `remove_suffix(1)` while the last character is blank.
unfoldable pub trim_back : Bytes → Bytes
trim_back [] = []
trim_back (c ∷ cs) = let rest = trim_back cs in if is_blank c && is_empty rest then [] else c ∷ rest

unfoldable pub trim_whitespace : Bytes → Bytes
trim_whitespace input = trim_back (trim_front input)

-- `none` is -1.
unfoldable pub hex_value : ℕ → Option ℕ
hex_value c =
    if leb b'0' c && leb c b'9'
    then some (c - b'0')
    else if leb b'a' c && leb c b'f'
    then some (c - b'a' + 10)
    else if leb b'A' c && leb c b'F'
    then some (c - b'A' + 10)
    else none

-- `(result << 4) | digit` in 32 bits; a digit is below 16, so the bits are disjoint.
unfoldable pub hex_loop : ℕ → Bytes → Option ℕ
hex_loop result [] = some result
hex_loop result (c ∷ cs) = elim (hex_value c) [
  | none ↦ none
  | some digit ↦ hex_loop ((result * 16) % 2 ^ 32 + digit) cs
]

-- The result written over the first four bytes of the output.
abbrev pub write32 : ℕ → Bytes → Bytes
write32 n output = n / 2 ^ 24 % 256 ∷ n / 2 ^ 16 % 256 ∷ n / 2 ^ 8 % 256 ∷ n % 256 ∷ drop 4 output

-- `none` is false; the output is left alone then.
unfoldable pub parse_hex32 : Bytes → Bytes → Option Bytes
parse_hex32 value output =
    if is_empty value || ltb 8 (length value)
    then none
    else elim (hex_loop 0 value) [ none ↦ none | some result ↦ some (write32 result output) ]

unfoldable pub looks_like_base64_of_4_bytes : Bytes → Bool
looks_like_base64_of_4_bytes value =
    length value == 8 && get_or value 6 0 == b'=' && get_or value 7 0 == b'='

-- `expectedLen`.
abbrev pub expected_length : Bytes → ℕ
expected_length input =
    let padded = length input / 4 * 3 in
    if get_or input (length input - 1) 0 == b'='
    then if get_or input (length input - 2) 0 == b'=' then padded - 2 else padded - 1
    else padded

-- `std::tolower` in the C locale.
abbrev pub to_lower : ℕ → ℕ
to_lower c = if leb b'A' c && leb c b'Z' then c + 32 else c

unfoldable pub lower : Bytes → Bytes
lower [] = []
lower (c ∷ cs) = to_lower c ∷ lower cs

abbrev pub zeroes : Bytes
zeroes = replicate max_checksum_length 0

set_hex32 : Bytes → ChecksumType → ChecksumInfo → ChecksumInfo
set_hex32 value ctype info = elim (parse_hex32 value zeroes) [
  | none ↦ info
  | some checksum ↦ (put info ctype checksum).0
]

-- The position behind the first comma, if there is one.
abbrev pub after_comma : Option ℕ → Bytes → Bytes
after_comma none digest = []
after_comma (some i) digest = drop (suc i) digest

module _ (bio_read : Bytes → Option Bytes) where
  -- The new output, and the verdict: the bytes written stay where the verdict is false.
  unfoldable pub decode_base64 : Bytes → Bytes → Bytes × Bool
  decode_base64 input output =
      if ltb (4 * ((length output + 2) / 3)) (length input) || not (length input % 4 == 0)
      then (output, false)
      else if length input == 0
      then (output, true)
      else if ltb (length output) (expected_length input)
      then (output, false)
      else elim (bio_read input) [
        | none ↦ (output, false)
        | some bytes ↦ (bytes ++ drop (length bytes) output, length bytes == expected_length input)
      ]

  set_base64 : Bytes → ChecksumType → ChecksumInfo → ChecksumInfo
  set_base64 value ctype info =
      let (checksum, ok) = decode_base64 value zeroes in
      if length value == 4 * ((get_checksum_length ctype + 2) / 3) && ok
      then (put info ctype checksum).0
      else info

  set_hex_or_base64 : Bytes → ChecksumType → ChecksumInfo → ChecksumInfo
  set_hex_or_base64 value ctype info =
      if looks_like_base64_of_4_bytes value
      then set_base64 value ctype info
      else set_hex32 value ctype info

  -- The chain of comparisons with the lower-cased name.
  unfoldable pub set_named : Bytes → Bytes → ChecksumInfo → ChecksumInfo
  unfolding set_hex32 set_base64 set_hex_or_base64
  set_named name value info =
      if beq name (codes "adler") || beq name (codes "adler32")
      then set_hex32 value adler32 info
      else if beq name (codes "crc32")
      then set_hex_or_base64 value crc32 info
      else if beq name (codes "crc32c")
      then set_hex_or_base64 value crc32c info
      else if beq name (codes "md5")
      then set_base64 value md5 info
      else if beq name (codes "sha") || beq name (codes "sha1")
      then set_base64 value sha1 info
      else if beq name (codes "sha-256") || beq name (codes "sha256")
      then set_base64 value sha256 info
      else info

  -- One pass of the loop, on the text before the comma.
  unfoldable pub parse_entry : Bytes → ChecksumInfo → ChecksumInfo
  parse_entry entry info = elim (find b'=' entry) [
    | none ↦ info
    | some eq ↦
        set_named (lower (trim_whitespace (take eq entry))) (trim_whitespace (drop (suc eq) entry))
          info
  ]

  -- The loop; each pass takes at least one character.
  unfoldable pub digest_loop : ℕ → Bytes → ChecksumInfo → ChecksumInfo
  digest_loop zero digest info = info
  digest_loop (suc fuel) [] info = info
  digest_loop (suc fuel) (c ∷ cs) info =
      digest_loop fuel (after_comma (find b',' (c ∷ cs)) (c ∷ cs))
        (parse_entry (take_until (find b',' (c ∷ cs)) (c ∷ cs)) info)

  unfoldable pub parse_digest_header : Bytes → ChecksumInfo → ChecksumInfo
  parse_digest_header digest info = digest_loop (length digest) digest info
