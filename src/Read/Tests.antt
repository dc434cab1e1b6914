-- ===== src/Read/Tests.antt =====
-- The theorems on reads at a concrete read.
use xrdcl_pelican.Prelude.{[], ◌∷◌, ◌++◌, ◌≡◌, refl}
use xrdcl_pelican.Prelude.Bytes.{codes}
use xrdcl_pelican.Prelude.Decimal.{decimal, decimal_loop}
use xrdcl_pelican.Prelude.Int.{pos}
use xrdcl_pelican.Headers.{HeaderParser, new_parser}
use xrdcl_pelican.Read.State.{ReadOp, new_read, range_header}
use xrdcl_pelican.Read.Flow.{write, continue, deliver_response, pause}
use xrdcl_pelican.Read.Stream.{joined, Contiguous, held, overflow}
use xrdcl_pelican.Read.Whole.{begins, takes, waits, continues, Reads-delivered}

-- A part of an object, from byte 7 on.
abbrev partial : HeaderParser
partial = record new_parser { status_code = pos 206; response_offset = 7 }

abbrev fresh : ReadOp
fresh = new_read partial 7 10 4

-- Six bytes for a buffer of four, a pause, and a continuation with three more.
abbrev overflowing : ReadOp
overflowing = (write fresh (codes "abcdef")).0

abbrev waiting : ReadOp
waiting = (write overflowing (codes "gh")).0

abbrev continued : ReadOp
continued = continue waiting 3

continued_chunks : (continued.delivered ≡ (7, codes "abcd") ∷ []) × (continued.content ≡ codes "ef")
unfolding write continue deliver_response pause
continued_chunks = (refl, refl)

Reads-delivered_example :
    (joined continued.delivered ++ (held continued ++ overflow continued) ≡ [] ++ codes "abcdef")
    × Contiguous continued.offset continued.delivered
unfolding write continue deliver_response pause
Reads-delivered_example = Reads-delivered continued ([] ++ codes "abcdef") (
    continues waiting (codes "abcdef") 3
      (waits overflowing waiting (codes "abcdef") (codes "gh")
        (takes fresh overflowing [] (codes "abcdef") (begins partial 7 10 4 refl) refl refl) refl
        refl)
      refl)

one_range : range_header fresh ≡ (codes "Range", codes "bytes=7-16") ∷ []
unfolding range_header decimal decimal_loop
one_range = refl
