-- ===== src/Link/Sorting.antt =====
-- src/XrdClPelican/PelicanHeaders.cc: the order of the entries that FromHeaderValue returns.
use xrdcl_pelican.Prelude.{suc, ◌≤◌, Bool, true, List, [], ◌∷◌, ◌≡◌, refl, arith, inl, inr}
use xrdcl_pelican.Prelude.Tests.{leb, Bool-cases, if_cases, if_all}
use xrdcl_pelican.Prelude.Bytes.{Bytes}
use xrdcl_pelican.Prelude.Lists.{All, length, count, All-map}
use xrdcl_pelican.Link.Entries.{LinkEntry, insert_link, sort_links, entries_loop, from_header_value}

-- No entry stands behind one with a larger number.
abbrev pub IsSorted : List LinkEntry → Type 0
IsSorted [] = Unit
IsSorted (x ∷ xs) = All (λ y. x.prio ≤ y.prio) xs × IsSorted xs

insert_link-All :
    (P : LinkEntry → Type 0) (e : LinkEntry) (xs : List LinkEntry)
    → P e
    → All P xs
    → All P (insert_link e xs)
unfolding insert_link
insert_link-All P e [] p a = (p, tt)
insert_link-All P e (x ∷ xs) p a =
    if_all (All P) (leb e.prio x.prio) (p, a) (a.0, insert_link-All P e xs p a.1)

insert_link-IsSorted :
    (e : LinkEntry) (xs : List LinkEntry) → IsSorted xs → IsSorted (insert_link e xs)
unfolding insert_link
insert_link-IsSorted e [] s = (tt, tt)
insert_link-IsSorted e (x ∷ xs) s =
    if_cases IsSorted (leb e.prio x.prio)
      (λ t.
        (let l : e.prio ≤ x.prio = ground arith in
          ((l, All-map _ _ xs (λ y m. omega (arith, l, m)) s.0), s)))
      (λ t.
        (let l : x.prio ≤ e.prio = ground arith in
          (insert_link-All (λ y. x.prio ≤ y.prio) e xs l s.0, insert_link-IsSorted e xs s.1)))

sort_links-IsSorted : (xs : List LinkEntry) → IsSorted (sort_links xs)
unfolding sort_links
sort_links-IsSorted [] = tt
sort_links-IsSorted (x ∷ xs) = insert_link-IsSorted x (sort_links xs) (sort_links-IsSorted xs)

-- Every test has the same number of members.
insert_link-count :
    (p : LinkEntry → Bool) (e : LinkEntry) (xs : List LinkEntry)
    → count p (insert_link e xs) ≡ count p (e ∷ xs)
unfolding insert_link
insert_link-count p e [] = refl
insert_link-count p e (x ∷ xs) = ground (arith, insert_link-count p e xs)

sort_links-count :
    (p : LinkEntry → Bool) (xs : List LinkEntry) → count p (sort_links xs) ≡ count p xs
unfolding sort_links
sort_links-count p [] = refl
sort_links-count p (x ∷ xs) =
    ground (arith, sort_links-count p xs, insert_link-count p x (sort_links xs))

-- Where a Link header is accepted, the entries come by rising priority number, and they are those
-- that the loop over the header collected: every test of an entry holds as often among them.
pub from_header_value-IsSorted :
    (value : Bytes) (p : LinkEntry → Bool)
    → (from_header_value value).1 ≡ true
    → IsSorted (from_header_value value).0
      × (count p (from_header_value value).0
          ≡ count p (entries_loop (suc (length value)) [] value).0)
unfolding from_header_value
from_header_value-IsSorted value p h =
    let (result, ok) = entries_loop (suc (length value)) [] value in
    let t : ok ≡ true = elim (Bool-cases ok) [
      | inl e ↦ e
      | inr e ↦ (let k = rw (e, from_header_value) at h in absurd (cc k))
    ] in
    rw t (sort_links-IsSorted result, sort_links-count p result)
