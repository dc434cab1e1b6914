-- ===== src/Verbs/Laws.antt =====
-- What the cache of verbs remembers.
use xrdcl_pelican.Prelude.{
  ℕ, ◌+◌, ◌*◌, ◌%◌, ◌^◌, ◌≤◌, Bool, ◌≡◌, ◌∙◌, false, not, Option, none, some, arith,
}
use xrdcl_pelican.Prelude.Tests.{ltb, leb, ◌==◌, if◌then◌else◌}
use xrdcl_pelican.Prelude.Bytes.{Bytes, beq, beq_iff}
use xrdcl_pelican.Prelude.Assoc.{
  lookup, IsDistinct, lookup-insert, insert-IsDistinct, lookup-retain, retain-IsDistinct,
}
use xrdcl_pelican.Verbs.{
  unknown, is_set, VerbEntry, VerbsCache, get_url_key, expiry_duration, merged, put, get, expire,
}

abbrev pub IsValid : VerbsCache → Type 0
IsValid c = IsDistinct c.verbs_map

-- What a look-up answers at a time, as a function of the entry alone.
abbrev pub answer : Option VerbEntry → ℕ → ℕ
answer none now = 0
answer (some entry) now = if ltb entry.expiry now then 0 else entry.verbs

get-answer :
    (c : VerbsCache) (url : Bytes) (now : ℕ)
    → (get c url now).1 ≡ answer (lookup (get_url_key url) c.verbs_map) now
unfolding get
get-answer c url now = ground arith

-- Put and Expire keep the keys distinct.
pub put-IsValid :
    (c : VerbsCache) (url : Bytes) (verbs now : ℕ) → IsValid c → IsValid (put c url verbs now)
unfolding put
put-IsValid c url verbs now v = insert-IsDistinct (get_url_key url) _ c.verbs_map v

pub expire-IsValid : (c : VerbsCache) (now : ℕ) → IsValid c → IsValid (expire c now)
unfolding expire
expire-IsValid c now v = retain-IsDistinct _ c.verbs_map v

-- After Put, a look-up of an URL with the same key answers from the merged entry, at any time; a
-- look-up of any other URL answers as before.
get-put :
    (c : VerbsCache) (url other : Bytes) (verbs now later : ℕ)
    → (get (put c url verbs now) other later).1 ≡ (
        if beq (get_url_key url) (get_url_key other)
        then answer (some (merged (lookup (get_url_key url) c.verbs_map) verbs now)) later
        else (get c other later).1)
unfolding put
get-put c url other verbs now later =
    get-answer _ other later
    ∙ ground (
      arith,
      get-answer c other later,
      lookup-insert (get_url_key url) (get_url_key other)
          (merged (lookup (get_url_key url) c.verbs_map) verbs now) c.verbs_map,
    )

-- The bit of an indeterminate answer is not set.
abbrev pub known : ℕ → Bool
known verbs = verbs % 2 == 0

-- There is an entry with known verbs, whatever its expiry is.
abbrev pub holds_known : Option VerbEntry → Bool
holds_known none = false
holds_known (some entry) = known entry.verbs

-- The verbs until so many seconds after `now`, and then none.
abbrev pub until : ℕ → ℕ → ℕ → ℕ → ℕ
until verbs seconds now later = if leb later (now + seconds * 10 ^ 9) then verbs else 0

answer-merged :
    (old : Option VerbEntry) (verbs now later : ℕ)
    → answer (some (merged old verbs now)) later ≡ (
        if known verbs
        then until verbs 21600 now later
        else if holds_known old
        then answer old later
        else until verbs 900 now later)
unfolding merged is_set
answer-merged none verbs now later = ground arith
answer-merged (some entry) verbs now later = ground arith

-- After Put, an URL with the same key is answered as follows: known verbs for six hours, and then
-- nothing; an indeterminate answer, if the cache held known verbs for the key, as before, and
-- otherwise for fifteen minutes and then nothing. An URL with another key is answered as before.
pub get-put_timed :
    (c : VerbsCache) (url other : Bytes) (verbs now later : ℕ)
    → (get (put c url verbs now) other later).1 ≡ (
        if not (beq (get_url_key url) (get_url_key other))
        then (get c other later).1
        else if known verbs
        then until verbs 21600 now later
        else if holds_known (lookup (get_url_key url) c.verbs_map)
        then (get c other later).1
        else until verbs 900 now later)
get-put_timed c url other verbs now later =
    get-put c url other verbs now later
    ∙ ground (
      arith,
      beq_iff (get_url_key url) (get_url_key other),
      get-answer c other later,
      answer-merged (lookup (get_url_key url) c.verbs_map) verbs now later,
    )

-- Known verbs are found for six hours under their key, whatever stood there before.
pub get-put_known :
    (c : VerbsCache) (url other : Bytes) (verbs now later : ℕ)
    → get_url_key other ≡ get_url_key url
    → is_set verbs unknown ≡ false
    → later ≤ now + expiry_duration
    → (get (put c url verbs now) other later).1 ≡ verbs
unfolding merged
get-put_known c url other verbs now later same known fresh =
    get-put c url other verbs now later
    ∙ ground (arith, beq_iff (get_url_key url) (get_url_key other))

-- Expire is not seen by a look-up: at its time or later every URL gets the answer that it would
-- have got without it.
pub get-expire :
    (c : VerbsCache) (url : Bytes) (now later : ℕ)
    → IsValid c
    → now ≤ later
    → (get (expire c now) url later).1 ≡ (get c url later).1
unfolding expire
get-expire c url now later v h =
    get-answer _ url later
    ∙ ground (
      arith,
      get-answer c url later,
      lookup-retain (λ entry. not (ltb entry.expiry now)) (get_url_key url) c.verbs_map v,
    )
