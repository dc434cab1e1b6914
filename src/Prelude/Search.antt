-- ===== src/Prelude/Search.antt =====
-- Where the searches of Bytes find what they look for, and the cuts at such places.

use xrdcl_pelican.Prelude.Lists.{length, take, drop}
use xrdcl_pelican.Prelude.Tests.{◌==◌, ==_refl}
use xrdcl_pelican.Prelude.Bytes.{Bytes, find, find_text, find_from, slice}
use Prim.Native.Nat.{ℕ, suc, ◌+◌, ◌-◌}
use mathlib.Core.Path.{◌≡◌, refl, ap}
use mathlib.Core.Bool.{false}
use mathlib.Core.List.{List, [], ◌∷◌, ◌++◌}
use mathlib.Core.Option.{none, some}
use native.Mathlib.Omega.{arith}
use native.Mathlib.Nat.{zero-add}

-- The byte does not stand in the text.
abbrev pub Lacks : ℕ → Bytes → Type 0
Lacks c xs = find c xs ≡ none

pub Lacks-cons : (c x : ℕ) (xs : Bytes) → Lacks c (x ∷ xs) → ((x == c) ≡ false) × Lacks c xs
unfolding find
Lacks-cons c x xs h = ground arith

pub Lacks-cons_ne : (c x : ℕ) (xs : Bytes) → (x == c) ≡ false → Lacks c xs → Lacks c (x ∷ xs)
unfolding find
Lacks-cons_ne c x xs h k = rw (h, find) (rw k)

pub find-append : (c : ℕ) (xs ys : Bytes) → Lacks c xs → find c (xs ++ (c ∷ ys)) ≡ some (length xs)
unfolding find
find-append c [] ys h = rw (==_refl c)
find-append c (x ∷ xs) ys h =
    let (e, l) = Lacks-cons c x xs h in rw (e, find) (rw (find-append c xs ys l))

pub Lacks-append : (c : ℕ) (xs ys : Bytes) → Lacks c xs → Lacks c ys → Lacks c (xs ++ ys)
unfolding find
Lacks-append c [] ys h k = k
Lacks-append c (x ∷ xs) ys h k =
    let (e, l) = Lacks-cons c x xs h in rw (e, find) (rw (Lacks-append c xs ys l k))

module _ {ℓ} {A : Type ℓ} where
  pub take-append : (xs ys : List A) → take (length xs) (xs ++ ys) ≡ xs
  take-append [] ys = refl
  take-append (x ∷ xs) ys = ap (◌∷◌ x) (take-append xs ys)

  pub drop-append : (xs ys : List A) → drop (length xs) (xs ++ ys) ≡ ys
  drop-append [] ys = refl
  drop-append (x ∷ xs) ys = drop-append xs ys

  pub drop-append_add : (xs ys : List A) (n : ℕ) → drop (length xs + n) (xs ++ ys) ≡ drop n ys
  drop-append_add [] ys n = rw zero-add
  drop-append_add (x ∷ xs) ys n =
      let e : suc (length xs) + n ≡ suc (length xs + n) = omega arith in
      rw e (drop-append_add xs ys n)

pub drop_behind : (xs : Bytes) (c : ℕ) (ys : Bytes) → drop (suc (length xs)) (xs ++ (c ∷ ys)) ≡ ys
drop_behind [] c ys = refl
drop_behind (x ∷ xs) c ys = drop_behind xs c ys

abbrev pub colon_slashes : Bytes
colon_slashes = b':' ∷ b'/' ∷ b'/' ∷ []

-- "://" is found behind a scheme that has no colon.
pub find_text-scheme :
    (scheme rest : Bytes)
    → Lacks b':' scheme
    → find_text colon_slashes (scheme ++ (colon_slashes ++ rest)) ≡ some (length scheme)
unfolding find_text
find_text-scheme [] rest h = refl
find_text-scheme (x ∷ xs) rest h =
    let (e, l) = Lacks-cons b':' x xs h in ground (arith, find_text-scheme xs rest l)

-- A search that starts behind `pre` finds the first such byte behind `mid`.
pub find_from-append :
    (c : ℕ) (pre mid rest : Bytes)
    → Lacks c mid
    → find_from c (length pre) (pre ++ (mid ++ (c ∷ rest))) ≡ some (length pre + length mid)
unfolding find_from
find_from-append c pre mid rest h = rw (drop-append pre _) (rw (find-append c mid rest h))

-- The text between two places.
pub slice-append :
    (pre mid rest : Bytes)
    → slice (length pre) (length pre + length mid) (pre ++ (mid ++ rest)) ≡ mid
slice-append pre mid rest =
    let e : length pre + length mid - length pre ≡ length mid = omega arith in
    rw (e, drop-append pre (mid ++ rest)) (take-append mid rest)
