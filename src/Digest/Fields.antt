-- ===== src/Digest/Fields.antt =====
-- The loop over the header against a split at the commas.
use mathlib.Core.List.{append-nil, append_assoc}
use xrdcl_pelican.Prelude.{
  ℕ, zero, suc, ◌≤◌, ◌≡◌, refl, ◌∙◌, sym, inl, inr, Option, none, some, List, [], ◌∷◌, ◌++◌, arith,
}
use xrdcl_pelican.Prelude.Tests.{◌==◌, if◌then◌else◌, Option-cases, Bool-cases}
use xrdcl_pelican.Prelude.Lists.{length, drop, length-drop}
use xrdcl_pelican.Prelude.Bytes.{Bytes, find, take_until}
use xrdcl_pelican.Checksum.{ChecksumInfo}
use xrdcl_pelican.Digest.{after_comma, parse_entry, digest_loop, parse_digest_header}

-- The pieces of a text between its commas; `cur` is the piece read so far.
pub split : Bytes → Bytes → List Bytes
split cur [] = cur ∷ []
split cur (c ∷ cs) =
    let rest = split [] cs in if c == b',' then cur ∷ rest else split (cur ++ (c ∷ [])) cs

abbrev pub entries : Bytes → List Bytes
entries = split []

-- The pieces behind the first comma.
abbrev pieces_after : Option ℕ → Bytes → List Bytes
pieces_after none cs = []
pieces_after (some i) cs = split [] (drop (suc i) cs)

split-find :
    (cs cur : Bytes)
    → split cur cs ≡ (cur ++ take_until (find b',' cs) cs) ∷ pieces_after (find b',' cs) cs
unfolding split find
split-find [] cur = ground (arith, append-nil cur)
split-find (c ∷ cs) cur = elim (Bool-cases (c == b',')) [
  | inl e ↦ rw (e, split, find) (rw (append-nil cur))
  | inr e ↦ elim (Option-cases (find b',' cs)) [
    | inl none_left ↦
        let ih = rw none_left at (split-find cs (cur ++ (c ∷ []))) in
        rw (e, split, find, none_left) (ih ∙ rw append_assoc)
    | inr (i, found) ↦
        let ih = rw found at (split-find cs (cur ++ (c ∷ []))) in
        rw (e, split, find, found) (ih ∙ rw append_assoc)
  ]
]

after_comma-length :
    (c : ℕ) (cs : Bytes) → length (after_comma (find b',' (c ∷ cs)) (c ∷ cs)) ≤ length cs
after_comma-length c cs = bound (find b',' (c ∷ cs))
  where
    bound : (o : Option ℕ) → length (after_comma o (c ∷ cs)) ≤ length cs
    bound none = omega arith
    bound (some i) = omega (arith, length-drop i cs)

module _ (bio_read : Bytes → Option Bytes) where
  -- The entries handled one after the other.
  abbrev pub parse_all : List Bytes → ChecksumInfo → ChecksumInfo
  parse_all [] info = info
  parse_all (e ∷ es) info = parse_all es (parse_entry bio_read e info)

  parse_entry-nil : (info : ChecksumInfo) → parse_entry bio_read [] info ≡ info
  unfolding parse_entry find
  parse_entry-nil info = refl

  -- What the loop does with the text behind the first comma, if there is one.
  loop-pieces_after :
      (fuel : ℕ) (o : Option ℕ) (digest : Bytes) (info : ChecksumInfo)
      → ((i : ℕ)
          → digest_loop bio_read fuel (drop (suc i) digest) info
            ≡ parse_all (entries (drop (suc i) digest)) info)
      → digest_loop bio_read fuel (after_comma o digest) info
        ≡ parse_all (pieces_after o digest) info
  unfolding digest_loop
  loop-pieces_after zero none digest info ih = refl
  loop-pieces_after (suc fuel) none digest info ih = refl
  loop-pieces_after fuel (some i) digest info ih = ih i

  -- With as much fuel as characters the loop handles every entry.
  digest_loop-parse_all :
      (fuel : ℕ) (digest : Bytes) (info : ChecksumInfo)
      → length digest ≤ fuel
      → digest_loop bio_read fuel digest info ≡ parse_all (entries digest) info
  unfolding digest_loop split
  digest_loop-parse_all zero [] info h = sym (parse_entry-nil info)
  digest_loop-parse_all zero (c ∷ cs) info h = elim h [ ]
  digest_loop-parse_all (suc fuel) [] info h = sym (parse_entry-nil info)
  digest_loop-parse_all (suc fuel) (c ∷ cs) info h = rw (split-find (c ∷ cs) []) (
      loop-pieces_after fuel (find b',' (c ∷ cs)) (c ∷ cs) _
        (λ i. digest_loop-parse_all fuel (drop i cs) _ (omega (arith, length-drop i cs))))

  -- The header is handled as its comma-separated entries from left to right, whatever it holds: the
  -- loop always ends, and skips no entry.
  pub parse_digest_header-parse_all :
      (digest : Bytes) (info : ChecksumInfo)
      → parse_digest_header bio_read digest info ≡ parse_all (entries digest) info
  unfolding parse_digest_header
  parse_digest_header-parse_all digest info =
      digest_loop-parse_all (length digest) digest info (omega arith)
