-- ===== src/ChecksumCache/Mask.antt =====
-- src/XrdClPelican/ChecksumCache.hh: ChecksumTypeBitmask. The bits are read by division, and written
-- by an addition or a subtraction where they change.
use xrdcl_pelican.Prelude.{
  ℕ, ◌+◌, ◌-◌, ◌/◌, ◌%◌, ◌^◌, ◌≡◌, Bool, true, false, not, List, [], ◌∷◌, arith,
}
use xrdcl_pelican.Prelude.Tests.{◌==◌, if◌then◌else◌}
use xrdcl_pelican.Checksum.{
  ChecksumType, crc32c, md5, sha1, sha256, adler32, crc32, all, unknown, to_index, is_special,
}

-- `mask & (1 << i)`.
abbrev pub has_bit : ℕ → ℕ → Bool
has_bit mask i = mask / 2 ^ i % 2 == 1

-- The kinds of `(1 << kAll) - 1`, in the order of their bits.
abbrev pub kinds : List ChecksumType
kinds = crc32c ∷ md5 ∷ sha1 ∷ sha256 ∷ adler32 ∷ crc32 ∷ []

unfoldable pub set_bit : ℕ → ChecksumType → ℕ
set_bit mask all = 63
set_bit mask unknown = mask
set_bit mask c = if has_bit mask (to_index c) then mask else mask + 2 ^ to_index c

unfoldable pub clear_bit : ℕ → ChecksumType → ℕ
clear_bit mask all = 0
clear_bit mask unknown = mask
clear_bit mask c = if has_bit mask (to_index c) then mask - 2 ^ to_index c else mask

unfoldable pub test_bit : ℕ → ChecksumType → Bool
test_bit mask all = mask % 64 == 63
test_bit mask unknown = false
test_bit mask c = has_bit mask (to_index c)

abbrev pub test_any : ℕ → Bool
test_any mask = not (mask == 0)

unfoldable pub count_kinds : ℕ → List ChecksumType → ℕ
count_kinds mask [] = 0
count_kinds mask (k ∷ ks) = (if has_bit mask (to_index k) then 1 else 0) + count_kinds mask ks

unfoldable pub count_bits : ℕ → ℕ
unfolding count_kinds
count_bits mask = count_kinds mask kinds

unfoldable pub first_kind : ℕ → List ChecksumType → ChecksumType
first_kind mask [] = unknown
first_kind mask (k ∷ ks) = if has_bit mask (to_index k) then k else first_kind mask ks

unfoldable pub get_first : ℕ → ChecksumType
unfolding first_kind
get_first mask = first_kind mask kinds

-- Setting a kind makes it, and no other, test true.
pub test_bit-set_bit :
    (c k : ChecksumType) (mask : ℕ)
    → is_special c ≡ false
    → is_special k ≡ false
    → test_bit (set_bit mask c) k ≡ (if to_index c == to_index k then true else test_bit mask k)
unfolding test_bit set_bit
test_bit-set_bit crc32c crc32c mask hc hk = ground arith
test_bit-set_bit _ _ mask hc hk = ground arith
