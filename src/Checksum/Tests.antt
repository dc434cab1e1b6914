-- ===== src/Checksum/Tests.antt =====
-- Tests of src/common/XrdClCurlChecksum.hh at a concrete set of checksums.
use xrdcl_pelican.Prelude.{◌≡◌, refl, false}
use xrdcl_pelican.Prelude.Bytes.{codes}
use xrdcl_pelican.Checksum.{md5, crc32, ChecksumInfo, no_checksums, get, is_set, put}

abbrev with_md5 : ChecksumInfo
with_md5 = (put no_checksums md5 (codes "value")).0

stored : get with_md5 md5 ≡ codes "value"
unfolding put get is_set
stored = refl

others_absent : is_set with_md5 crc32 ≡ false
unfolding put get is_set
others_absent = refl
