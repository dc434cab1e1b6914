-- ===== src/Checksum.antt =====
-- src/common/XrdClCurlChecksum.hh: the checksum kinds and the set of known checksums of an object.
pub mod Laws
mod Tests
use xrdcl_pelican.Prelude.{
  ℕ, zero, suc, ◌+◌, Bool, true, false, not, ◌||◌, Option, none, some, List, [], ◌∷◌,
}
use xrdcl_pelican.Prelude.Tests.{if◌then◌else◌}
use xrdcl_pelican.Prelude.Lists.{get_or, set}
use xrdcl_pelican.Prelude.Bytes.{Bytes, codes, beq}

pub data ChecksumType : Type 0 where
  crc32c md5 sha1 sha256 adler32 crc32 all unknown : ChecksumType

-- `g_max_checksum_length`.
abbrev pub max_checksum_length : ℕ
max_checksum_length = 32

-- `static_cast<size_t>(ctype)`.
abbrev pub to_index : ChecksumType → ℕ
to_index crc32c = 0
to_index md5 = 1
to_index sha1 = 2
to_index sha256 = 3
to_index adler32 = 4
to_index crc32 = 5
to_index all = 6
to_index unknown = 7

-- `static_cast<ChecksumType>(idx)`, for the indexes of the loops over the kinds.
abbrev pub of_index : ℕ → ChecksumType
of_index zero = crc32c
of_index (suc zero) = md5
of_index (suc (suc zero)) = sha1
of_index (suc (suc (suc zero))) = sha256
of_index (suc (suc (suc (suc zero)))) = adler32
of_index (suc (suc (suc (suc (suc zero))))) = crc32
of_index (suc (suc (suc (suc (suc (suc zero)))))) = all
of_index (suc (suc (suc (suc (suc (suc (suc n))))))) = unknown

abbrev pub is_unknown : ChecksumType → Bool
is_unknown unknown = true
is_unknown _ = false

-- `(ctype == kUnknown) || (ctype == kAll)`.
abbrev pub is_special : ChecksumType → Bool
is_special unknown = true
is_special all = true
is_special _ = false

unfoldable pub get_type_string : ChecksumType → Bytes
get_type_string crc32c = codes "crc32c"
get_type_string md5 = codes "md5"
get_type_string sha1 = codes "sha1"
get_type_string sha256 = codes "sha256"
get_type_string adler32 = codes "adler32"
get_type_string crc32 = codes "crc32"
get_type_string all = codes "unknown"
get_type_string unknown = codes "unknown"

unfoldable pub get_checksum_length : ChecksumType → ℕ
get_checksum_length crc32c = 4
get_checksum_length adler32 = 4
get_checksum_length crc32 = 4
get_checksum_length md5 = 16
get_checksum_length sha1 = 20
get_checksum_length sha256 = 32
get_checksum_length all = 0
get_checksum_length unknown = 0

unfoldable pub get_type_from_string : Bytes → ChecksumType
get_type_from_string str =
    if beq str (codes "crc32c")
    then crc32c
    else if beq str (codes "md5")
    then md5
    else if beq str (codes "sha1")
    then sha1
    else if beq str (codes "sha256")
    then sha256
    else if beq str (codes "adler") || beq str (codes "adler32")
    then adler32
    else if beq str (codes "crc32")
    then crc32
    else unknown

-- The value of an entry that was never set is indeterminate in C++; here it is [].
pub record ChecksumEntry : Type 0 where
  pub kind : ChecksumType
  pub value : Bytes

abbrev pub unset : ChecksumEntry
unset = record { kind = unknown; value = [] }

-- The array `checksums`, which has an entry for each kind before `kAll`.
abbrev pub ChecksumInfo : Type 0
ChecksumInfo = List ChecksumEntry

abbrev pub no_checksums : ChecksumInfo
no_checksums = unset ∷ unset ∷ unset ∷ unset ∷ unset ∷ unset ∷ []

unfoldable pub is_set : ChecksumInfo → ChecksumType → Bool
is_set info ctype =
    if is_special ctype then false else not (is_unknown (get_or info (to_index ctype) unset).kind)

-- `kUnknown` and `kAll` read the first entry.
unfoldable pub get : ChecksumInfo → ChecksumType → Bytes
get info ctype = (get_or info (to_index (if is_special ctype then crc32c else ctype)) unset).value

-- `Set`: the new contents, and whether the kind was valid.
unfoldable pub put : ChecksumInfo → ChecksumType → Bytes → ChecksumInfo × Bool
put info ctype value =
    if is_special ctype
    then (info, false)
    else (set info (to_index ctype) (record { kind = ctype; value = value }), true)

get_first_from : ℕ → List ChecksumEntry → ChecksumType × Bytes × Bool
get_first_from idx [] = (unknown, [], false)
get_first_from idx (e ∷ es) =
    if not (is_unknown e.kind) then (of_index idx, e.value, true) else get_first_from (idx + 1) es

unfoldable pub get_first : ChecksumInfo → ChecksumType × Bytes × Bool
unfolding get_first_from
get_first info = get_first_from 0 info
