-- ===== src/Link/Entries.antt =====
-- src/XrdClPelican/PelicanHeaders.{hh,cc}: LinkEntry, IterFromHeaderValue and FromHeaderValue. Each
-- pass of the loops takes at least one byte or ends.
use xrdcl_pelican.Prelude.{
  ℕ, zero, suc, ◌%◌, ◌^◌, Bool, true, false, not, ◌&&◌, Option, none, some, List, [], ◌∷◌, ◌++◌,
}
use xrdcl_pelican.Prelude.Tests.{leb, ◌==◌, if◌then◌else◌}
use xrdcl_pelican.Prelude.Bytes.{Bytes, codes, beq, find, find_from, slice, is_empty}
use xrdcl_pelican.Prelude.Lists.{length, take, drop}
use xrdcl_pelican.Prelude.Int.{ℤ}
use xrdcl_pelican.Headers.Text.{to_uint64}
use xrdcl_pelican.Link.{ltrim_view, trim_view, parse_int, parse_string}

-- `prio` and `depth` are of 32 bits.
pub record LinkEntry : Type 0 where
  pub prio : ℕ
  pub depth : ℕ
  pub link : Bytes

abbrev pub new_link : LinkEntry
new_link = record { prio = 999999; depth = 0; link = [] }

-- A remainder, an entry and whether it is valid.
abbrev pub Iterated : Type 0
Iterated = Bytes × LinkEntry × Bool

abbrev pub refused : LinkEntry → Iterated
refused e = ([], e, false)

-- What a parameter with a number, and one with a text, does.
abbrev pub with_int : Bytes → ℤ → LinkEntry → LinkEntry
with_int key value e =
    if beq key (codes "pri")
    then record e { prio = to_uint64 value % 2 ^ 32 }
    else if beq key (codes "depth")
    then record e { depth = to_uint64 value % 2 ^ 32 }
    else e

abbrev pub with_string : Bytes → Bytes → Bool → Bool
with_string key value valid =
    if beq key (codes "rel") && not (beq value (codes "duplicate")) then false else valid

-- One pass: an error, or the entry, its validity, and what is left.
abbrev pub Piece : Type 0
Piece = Option (LinkEntry × Bool × Bytes)

unfoldable pub link_piece : LinkEntry → Bool → Bytes → Piece
link_piece e valid entry = elim (find_from b'>' 1 entry) [
  | none ↦ none
  | some end_loc ↦
      some (record e { link = slice 1 end_loc entry }, valid, ltrim_view (drop (suc end_loc) entry))
]

abbrev pub string_piece : LinkEntry → Bool → Bytes → Option (Bytes × Bytes) → Piece
string_piece e valid key none = none
string_piece e valid key (some (rest, value)) = some (e, with_string key value valid, rest)

abbrev pub int_piece : LinkEntry → Bool → Bytes → Option (Bytes × ℤ) → Piece
int_piece e valid key none = none
int_piece e valid key (some (rest, value)) = some (with_int key value e, valid, rest)

abbrev pub value_piece : LinkEntry → Bool → Bytes → Bytes → Piece
value_piece e valid key [] = none
value_piece e valid key (c ∷ cs) =
    if c == b'"'
    then string_piece e valid key (parse_string (c ∷ cs))
    else int_piece e valid key (parse_int (c ∷ cs))

unfoldable pub parameter_piece : LinkEntry → Bool → Bytes → Piece
parameter_piece e valid entry = elim (find b'=' entry) [
  | none ↦ none
  | some key_end_loc ↦
      value_piece e valid (trim_view (take key_end_loc entry))
        (ltrim_view (drop (suc key_end_loc) entry))
]

abbrev pub piece : LinkEntry → Bool → Bytes → Piece
piece e valid [] = none
piece e valid (c ∷ cs) =
    if c == b'<' then link_piece e valid (c ∷ cs) else parameter_piece e valid (c ∷ cs)

-- The loop of IterFromHeaderValue.
unfoldable pub iter_loop : ℕ → LinkEntry → Bool → Bytes → Iterated
iter_loop zero e valid entry = refused e
iter_loop (suc fuel) e valid entry = elim (piece e valid (ltrim_view entry)) [
  | none ↦ refused e
  | some (e', valid', rest) ↦ elim rest [
    | [] ↦ ([], e', valid')
    | c ∷ cs ↦
        let more = iter_loop fuel e' valid' cs in
        if c == b',' then (cs, e', valid') else if c == b';' then more else refused e'
  ]
]

unfoldable pub iter_from_header_value : Bytes → Iterated
iter_from_header_value value = iter_loop (suc (length value)) new_link true (ltrim_view value)

-- The loop of FromHeaderValue: the entries behind `result`, and false where the last entry is not
-- valid.
unfoldable pub entries_loop : ℕ → List LinkEntry → Bytes → List LinkEntry × Bool
entries_loop zero result remainder = (result, false)
entries_loop (suc fuel) result remainder =
    let (rest, e, ok) = iter_from_header_value remainder in
    let result' = if ok then result ++ (e ∷ []) else result in
    let more = entries_loop fuel result' rest in if is_empty rest then (result', ok) else more

-- `std::sort` by priority; it leaves the order of equal priorities open, which here is the one of the
-- header.
unfoldable pub insert_link : LinkEntry → List LinkEntry → List LinkEntry
insert_link e [] = e ∷ []
insert_link e (x ∷ xs) =
    let rest = insert_link e xs in if leb e.prio x.prio then e ∷ x ∷ xs else x ∷ rest

unfoldable pub sort_links : List LinkEntry → List LinkEntry
sort_links [] = []
sort_links (x ∷ xs) = insert_link x (sort_links xs)

unfoldable pub from_header_value : Bytes → List LinkEntry × Bool
from_header_value value =
    let (result, ok) = entries_loop (suc (length value)) [] value in
    if ok then (sort_links result, true) else (result, false)
