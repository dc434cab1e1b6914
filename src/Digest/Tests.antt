-- ===== src/Digest/Tests.antt =====
-- The theorems on src/common/XrdClCurlDigest.cc at concrete headers.
use xrdcl_pelican.Prelude.{◌≤◌, ◌≡◌, refl, Option, none, some, [], ◌∷◌, arith}
use xrdcl_pelican.Prelude.Lists.{length, drop, replicate}
use xrdcl_pelican.Prelude.Bytes.{Bytes, codes, find}
use xrdcl_pelican.Checksum.{no_checksums}
use xrdcl_pelican.Digest.{hex_value, hex_loop, parse_hex32, parse_digest_header}
use xrdcl_pelican.Digest.Hex.{
  digit, numeral, numeral_from, big_endian32, parse_hex32_sound, parse_hex32_complete,
}
use xrdcl_pelican.Digest.Fields.{entries, parse_all, parse_digest_header-parse_all}

abbrev four_zeroes : Bytes
four_zeroes = replicate 4 0

parse_hex32_sound_example :
    (1 ≤ length (codes "1aF"))
    × (length (codes "1aF") ≤ 8)
    × (numeral (codes "1aF") ≡ some (big_endian32 (0 ∷ 0 ∷ 1 ∷ 175 ∷ [])))
    × (drop 4 (0 ∷ 0 ∷ 1 ∷ 175 ∷ []) ≡ drop 4 four_zeroes)
unfolding parse_hex32 hex_loop hex_value
parse_hex32_sound_example = parse_hex32_sound (codes "1aF") four_zeroes (0 ∷ 0 ∷ 1 ∷ 175 ∷ []) refl

parse_hex32_complete_example :
    parse_hex32 (codes "1aF") four_zeroes ≡ some (0 ∷ 0 ∷ 1 ∷ 175 ∷ drop 4 four_zeroes)
unfolding digit find numeral_from
parse_hex32_complete_example =
    parse_hex32_complete (codes "1aF") four_zeroes 0 0 1 175 (omega arith) (omega arith)
      (omega arith) (omega arith) (omega arith) (omega arith) refl

-- A filter that decodes nothing.
abbrev refuse : Bytes → Option Bytes
refuse input = none

parse_digest_header-parse_all_example :
    parse_digest_header refuse (codes "adler32=1aF, md5=x") no_checksums
    ≡ parse_all refuse (entries (codes "adler32=1aF, md5=x")) no_checksums
parse_digest_header-parse_all_example =
    parse_digest_header-parse_all refuse (codes "adler32=1aF, md5=x") no_checksums
