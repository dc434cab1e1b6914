-- ===== src/Director/RoundTrip.antt =====
-- src/XrdClPelican/DirectorCache.hh: what Get finds behind a Put.
use xrdcl_pelican.Prelude.{
  ℕ, zero, suc, ◌+◌, ◌≤◌, ◌<◌, ◌≡◌, refl, ap, sym, ◌∙◌, Bool, true, ◌&&◌, false, some, [], ◌∷◌,
  ◌++◌, ◌⊎◌, inl, inr, arith,
}
use xrdcl_pelican.Prelude.Tests.{◌==◌, if◌then◌else◌, Bool-cases, Option-cases}
use xrdcl_pelican.Prelude.Lists.{length, drop}
use xrdcl_pelican.Prelude.Bytes.{Bytes, beq_refl, find, is_empty}
use xrdcl_pelican.Director
use xrdcl_pelican.Director.{
  CacheEntry, SubDirs, entry, no_dirs, dir, find_dir, set_dir, skip_slashes, first_entry, next_path,
  lifetime,
}

find_dir-set_dir :
    (k : Bytes) (e : CacheEntry) (ds : SubDirs) → find_dir k (set_dir k e ds) ≡ some e
unfolding find_dir set_dir
find_dir-set_dir k e no_dirs = rw (beq_refl k) refl
find_dir-set_dir k e (dir j e' ds) = ground (arith, find_dir-set_dir k e ds)

length-drop : (i : ℕ) (xs : Bytes) → length (drop i xs) ≤ length xs
length-drop zero xs = omega arith
length-drop (suc i) [] = omega arith
length-drop (suc i) (x ∷ xs) = omega (arith, length-drop i xs)

-- The text behind the slashes is empty, or starts with another character; it is not longer.
length-skip_slashes : (path : Bytes) → length (skip_slashes path) ≤ length path
unfolding skip_slashes
length-skip_slashes [] = omega arith
length-skip_slashes (c ∷ cs) = ground (arith, length-skip_slashes cs)

length-next_path :
    (c : ℕ) (cs : Bytes) → (c == b'/') ≡ false → length (next_path (c ∷ cs)) ≤ length cs
unfolding next_path find
length-next_path c cs h = elim (Option-cases (find b'/' cs)) [
  | inl n ↦ rw (h, n) (omega arith)
  | inr (i, n) ↦ rw (h, n) (length-drop i cs)
]

skip_slashes_head :
    (path : Bytes) (c : ℕ) (cs : Bytes) → skip_slashes path ≡ c ∷ cs → (c == b'/') ≡ false
unfolding skip_slashes
skip_slashes_head [] c cs h = absurd (cc h)
skip_slashes_head (x ∷ xs) c cs h = ground (arith, skip_slashes_head xs c cs)

put_expiry :
    (fuel : ℕ) (path url : Bytes) (now t : ℕ) (e : CacheEntry)
    → 0 < fuel
    → t ≤ now + lifetime
    → Director.is_expired (Director.put fuel path url now e) t ≡ false
unfolding Director.put Director.is_expired
put_expiry zero path url now t e f h = absurd (omega arith)
put_expiry (suc fuel) path url now t (entry ds value expiry) f h = ground arith

List-cases : (xs : Bytes) → (xs ≡ []) ⊎ ((c : ℕ) × (cs : Bytes) × (xs ≡ c ∷ cs))
List-cases [] = inl refl
List-cases (c ∷ cs) = inr (c, cs, refl)

prefer-nonempty :
    (url rest otherwise : Bytes)
    → is_empty url ≡ false
    → Director.prefer (url ++ rest) otherwise ≡ url ++ rest
prefer-nonempty [] rest o h = absurd (cc h)
prefer-nonempty (c ∷ cs) rest o h = refl

put_end :
    (fuel : ℕ) (path url : Bytes) (now : ℕ) (ds : SubDirs) (value : Bytes) (expiry : ℕ)
    → skip_slashes path ≡ []
    → Director.put (suc fuel) path url now (entry ds value expiry) ≡ entry ds url (now + lifetime)
unfolding Director.put
put_end fuel path url now ds value expiry h = rw h refl

get_end :
    (fuel : ℕ) (path value : Bytes) (t : ℕ) (ds : SubDirs) (expiry : ℕ)
    → skip_slashes path ≡ []
    → is_empty value ≡ false
    → Director.get (suc fuel) path t (entry ds value expiry) ≡ value ++ path
unfolding Director.get
get_end fuel path value t ds expiry h v = rw h (rw v refl)

put_deeper :
    (fuel : ℕ) (path url : Bytes) (now : ℕ) (ds : SubDirs) (value : Bytes) (expiry : ℕ) (c : ℕ)
    (cs : Bytes)
    → skip_slashes path ≡ c ∷ cs
    → Director.put (suc fuel) path url now (entry ds value expiry)
      ≡ entry
          (set_dir
            (first_entry (c ∷ cs))
            (Director.put fuel
              (next_path (c ∷ cs))
              url
              now
              (Director.entry_or_new (find_dir (first_entry (c ∷ cs)) ds) now))
            ds)
          value
          (now + lifetime)
unfolding Director.put
put_deeper fuel path url now ds value expiry c cs h = rw h refl

get_deeper :
    (fuel : ℕ) (path value : Bytes) (t : ℕ) (ds : SubDirs) (expiry : ℕ) (c : ℕ) (cs : Bytes)
    (sub : CacheEntry)
    → skip_slashes path ≡ c ∷ cs
    → find_dir (first_entry (c ∷ cs)) ds ≡ some sub
    → Director.is_expired sub t ≡ false
    → Director.get (suc fuel) path t (entry ds value expiry)
      ≡ Director.prefer
          (Director.get fuel (next_path (c ∷ cs)) t sub)
          (Director.own_answer value path)
unfolding Director.get
get_deeper fuel path value t ds expiry c cs sub h f x = rw h (rw (f, x) (rw h refl))

abbrev all_slashes : Bytes → Bool
all_slashes [] = true
all_slashes (c ∷ cs) = c == b'/' && all_slashes cs

-- The slashes at the end of a path.
abbrev pub slashes_at_end : Bytes → Bytes
slashes_at_end [] = []
slashes_at_end (c ∷ cs) = if c == b'/' && all_slashes cs then c ∷ cs else slashes_at_end cs

slashes_at_end-all : (cs : Bytes) → all_slashes cs ≡ true → slashes_at_end cs ≡ cs
slashes_at_end-all [] h = refl
slashes_at_end-all (c ∷ cs) h = rw h

skip_slashes-all : (path : Bytes) → skip_slashes path ≡ [] → all_slashes path ≡ true
unfolding skip_slashes
skip_slashes-all [] h = refl
skip_slashes-all (c ∷ cs) h = elim (Bool-cases (c == b'/')) [
  | inl e ↦ rw e (skip_slashes-all cs (rw (e, skip_slashes) at h))
  | inr e ↦ absurd (cc (rw (e, skip_slashes) at h))
]

skip_slashes-none :
    (path : Bytes) (c : ℕ) (cs : Bytes) → skip_slashes path ≡ c ∷ cs → all_slashes path ≡ false
unfolding skip_slashes
skip_slashes-none [] c cs h = absurd (cc h)
skip_slashes-none (x ∷ xs) c cs h = elim (Bool-cases (x == b'/')) [
  | inl e ↦ rw e (skip_slashes-none xs c cs (rw (e, skip_slashes) at h))
  | inr e ↦ rw e
]

-- What stands in front of the last slashes does not matter.
end-skip_slashes :
    (path : Bytes) (c : ℕ) (cs : Bytes)
    → skip_slashes path ≡ c ∷ cs
    → slashes_at_end path ≡ slashes_at_end (c ∷ cs)
unfolding skip_slashes
end-skip_slashes [] c cs h = absurd (cc h)
end-skip_slashes (x ∷ xs) c cs h = elim (Bool-cases (x == b'/')) [
  | inl e ↦
      let h' : skip_slashes xs ≡ c ∷ cs = rw (e, skip_slashes) at h in
      rw (e, skip_slashes-none xs c cs h') (end-skip_slashes xs c cs h')
  | inr e ↦ ap slashes_at_end (rw (e, skip_slashes) at h)
]

position_here :
    (x : ℕ) (xs : Bytes)
    → (x == b'/') ≡ true
    → Director.from_position (find b'/' (x ∷ xs)) (x ∷ xs) ≡ x ∷ xs
unfolding find
position_here x xs e = rw e refl

end_position :
    (p : Bytes) → slashes_at_end p ≡ slashes_at_end (Director.from_position (find b'/' p) p)
unfolding find
end_position [] = refl
end_position (x ∷ xs) = elim (Bool-cases (x == b'/')) [
  | inl e ↦ ap slashes_at_end (sym (position_here x xs e))
  | inr e ↦ elim (Option-cases (find b'/' xs)) [
    | inl n ↦ rw (e, n) (let k = end_position xs in rw n at k)
    | inr (i, n) ↦ rw (e, n) (let k = end_position xs in rw n at k)
  ]
]

end-next_path : (p : Bytes) → slashes_at_end p ≡ slashes_at_end (next_path p)
unfolding next_path
end-next_path p = end_position p

-- A Get of the path of a Put, up to a minute after it, gives the endpoint that was put and behind it
-- just the slashes at the end of the path, whatever the tree held. The endpoint is not empty; the
-- fuel is more than the length of the path.
pub get-put_path :
    (fuel : ℕ) (path url : Bytes) (now t : ℕ) (e : CacheEntry)
    → length path < fuel
    → is_empty url ≡ false
    → t ≤ now + lifetime
    → Director.get fuel path t (Director.put fuel path url now e) ≡ url ++ slashes_at_end path
get-put_path zero path url now t e f u h = absurd (omega arith)
get-put_path (suc fuel) path url now t (entry ds value expiry) f u h =
    elim (List-cases (skip_slashes path)) [
      | inl s ↦
          ap (Director.get (suc fuel) path t) (put_end fuel path url now ds value expiry s)
          ∙ get_end fuel path url t ds (now + lifetime) s u
          ∙ ap (◌++◌ url) (sym (slashes_at_end-all path (skip_slashes-all path s)))
      | inr (c, cs, s) ↦
          let key = first_entry (c ∷ cs) in
          let sub =
            Director.put fuel (next_path (c ∷ cs)) url now
              (Director.entry_or_new (find_dir key ds) now) in
          let short : length (next_path (c ∷ cs)) < fuel = omega (
            arith,
            f,
            length-next_path c cs (skip_slashes_head path c cs s),
            length-skip_slashes path,
            ap length s,
          ) in
          let rest = slashes_at_end (next_path (c ∷ cs)) in
          let is =
            get-put_path fuel (next_path (c ∷ cs)) url now t
              (Director.entry_or_new (find_dir key ds) now) short u h in
          ap (Director.get (suc fuel) path t) (put_deeper fuel path url now ds value expiry c cs s)
          ∙ get_deeper fuel path value t (set_dir key sub ds) (now + lifetime) c cs sub s
              (find_dir-set_dir key sub ds)
              (put_expiry fuel (next_path (c ∷ cs)) url now t
                (Director.entry_or_new (find_dir key ds) now) (omega arith) h)
          ∙ ap (λ r. Director.prefer r (Director.own_answer value path)) is
          ∙ prefer-nonempty url rest (Director.own_answer value path) u
          ∙ ap (◌++◌ url) (sym (end-skip_slashes path c cs s ∙ end-next_path (c ∷ cs)))
    ]
