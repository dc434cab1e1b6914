-- ===== src/S3/Cleaned.antt =====
-- src/XrdClS3/XrdClS3Factory.cc: what CleanObjectName leaves of the parameters of an object.
use xrdcl_pelican.Prelude.{
  ℕ, zero, suc, ◌≤◌, Bool, true, false, not, ◌||◌, List, [], ◌∷◌, ◌++◌, ◌≡◌, refl, sym, ◌∙◌, Option,
  none, some, inl, inr, arith,
}
use mathlib.Core.Option
use mathlib.Core.List.{append-nil, append_assoc}
use xrdcl_pelican.Prelude.Tests.{◌==◌, Bool-cases, if◌then◌else◌}
use xrdcl_pelican.Prelude.Bytes.{Bytes, beq, codes, is_prefix, find, is_empty, take_until}
use xrdcl_pelican.Prelude.Lists.{length, All, length-append}
use xrdcl_pelican.Prelude.Search.{Lacks, Lacks-cons, find-append, take-append, drop_behind}
use xrdcl_pelican.S3.{is_kept, separator, behind_and, query_loop, clean_object_name}

-- The parameters behind the first, each behind an "&".
abbrev pub more : List Bytes → Bytes
more [] = []
more (p ∷ ps) = b'&' ∷ (p ++ more ps)

-- The parameter is "authz" or starts with "authz=".
abbrev pub is_authz : Bytes → Bool
is_authz p = beq p (codes "authz") || is_prefix (codes "authz=") p

-- The parameters that stay: those that are not empty and whose name is not "authz".
abbrev pub without_authz : List Bytes → List Bytes
without_authz [] = []
without_authz (p ∷ ps) = if is_empty p || is_authz p then without_authz ps else p ∷ without_authz ps

-- They behind a "?".
abbrev pub query_of : List Bytes → Bytes
query_of [] = []
query_of (p ∷ ps) = b'?' ∷ (p ++ more ps)

-- Parameters behind an object, the flag being whether some are there already.
abbrev pub listed : Bytes → Bool → List Bytes → Bytes
listed obj added [] = obj
listed obj added (p ∷ ps) = listed (obj ++ (separator added ++ p)) true ps

take_until-suc :
    (o : Option ℕ) (a : ℕ) (p : Bytes) → take_until (Option.map suc o) (a ∷ p) ≡ a ∷ take_until o p
take_until-suc none a p = refl
take_until-suc (some i) a p = refl

-- The text in front of the first "=" is the name just where the parameter is the name, or the name
-- with an "=" behind it and more.
named :
    (p n : Bytes)
    → Lacks b'=' n
    → beq (take_until (find b'=' p) p) n ≡ (beq p n || is_prefix (n ++ (b'=' ∷ [])) p)
unfolding find
named [] [] l = refl
named [] (y ∷ n) l = refl
named (a ∷ p) [] l = elim (Bool-cases (a == b'=')) [
  | inl e ↦ rw e (ground arith)
  | inr e ↦ rw (e, take_until-suc (find b'=' p) a p) (ground arith)
]
named (a ∷ p) (y ∷ n) l =
    let (k, l') = Lacks-cons b'=' y n l in
    elim (Bool-cases (a == b'=')) [
      | inl e ↦ rw e (ground arith)
      | inr e ↦ rw (e, take_until-suc (find b'=' p) a p) (ground (arith, named p n l'))
    ]

is_kept-is_authz : (p : Bytes) → not (is_kept p) ≡ is_authz p
unfolding find
is_kept-is_authz p = let e = named p (codes "authz") refl in ground (arith, e)

listed-more : (obj : Bytes) (ps : List Bytes) → listed obj true ps ≡ obj ++ more ps
listed-more obj [] = sym (append-nil obj)
listed-more obj (p ∷ ps) =
    listed-more (obj ++ (b'&' ∷ p)) ps ∙ append_assoc obj (b'&' ∷ p) (more ps)

listed-query_of : (obj : Bytes) (ps : List Bytes) → listed obj false ps ≡ obj ++ query_of ps
listed-query_of obj [] = sym (append-nil obj)
listed-query_of obj (p ∷ ps) =
    listed-more (obj ++ (b'?' ∷ p)) ps ∙ append_assoc obj (b'?' ∷ p) (more ps)

-- One pass, where the first parameter and the rest are known.
loop_step :
    (fuel : ℕ) (c : ℕ) (cs obj p rest : Bytes) (added : Bool)
    → take_until (find b'&' (c ∷ cs)) (c ∷ cs) ≡ p
    → behind_and (find b'&' (c ∷ cs)) (c ∷ cs) ≡ rest
    → query_loop (suc fuel) (c ∷ cs) obj added ≡ (
        if is_empty p || not (is_kept p)
        then query_loop fuel rest obj added
        else query_loop fuel rest (obj ++ (separator added ++ p)) true)
unfolding query_loop
loop_step fuel c cs obj p rest added e k = rw (e, query_loop) (rw k)

nil_loop : (fuel : ℕ) (obj : Bytes) (added : Bool) → query_loop fuel [] obj added ≡ obj
unfolding query_loop
nil_loop zero obj added = refl
nil_loop (suc fuel) obj added = refl

-- The same on a query that is not empty.
query_step :
    (fuel : ℕ) (query obj p rest : Bytes) (added : Bool)
    → 1 ≤ length query
    → take_until (find b'&' query) query ≡ p
    → behind_and (find b'&' query) query ≡ rest
    → query_loop (suc fuel) query obj added ≡ (
        if is_empty p || is_authz p
        then query_loop fuel rest obj added
        else query_loop fuel rest (obj ++ (separator added ++ p)) true)
query_step fuel [] obj p rest added h e k = let bad : ⊥ = omega arith in elim bad [ ]
query_step fuel (c ∷ cs) obj p rest added h e k =
    rw (← is_kept-is_authz p) (loop_step fuel c cs obj p rest added e k)

if_path : (b : Bool) (x y u v : Bytes) → x ≡ u → y ≡ v → (if b then x else y) ≡ (if b then u else v)
if_path true x y u v e k = e
if_path false x y u v e k = k

pick :
    (b : Bool) (obj p : Bytes) (added : Bool) (ps : List Bytes)
    → (if b then listed obj added ps else listed (obj ++ (separator added ++ p)) true ps)
      ≡ listed obj added (if b then ps else p ∷ ps)
pick true obj p added ps = refl
pick false obj p added ps = refl

query_loop-listed :
    (fuel : ℕ) (p : Bytes) (ps : List Bytes) (obj : Bytes) (added : Bool)
    → Lacks b'&' p
    → All (Lacks b'&') ps
    → length (p ++ more ps) ≤ fuel
    → query_loop fuel (p ++ more ps) obj added ≡ listed obj added (without_authz (p ∷ ps))
query_loop-listed zero [] [] obj added l a h = nil_loop zero obj added
query_loop-listed (suc fuel) [] [] obj added l a h = nil_loop (suc fuel) obj added
query_loop-listed zero (c ∷ cs) ps obj added l a h = let bad : ⊥ = omega arith in elim bad [ ]
query_loop-listed zero [] (q ∷ qs) obj added l a h = let bad : ⊥ = omega arith in elim bad [ ]
query_loop-listed (suc fuel) (c ∷ cs) [] obj added l a h =
    let p = c ∷ cs in
    rw (append-nil cs) (
      query_step fuel p obj p [] added (omega arith) (rw l) (rw l)
      ∙ if_path (is_empty p || is_authz p) _ _ _ _ (nil_loop fuel obj added)
          (nil_loop fuel (obj ++ (separator added ++ p)) true)
      ∙ pick (is_empty p || is_authz p) obj p added [])
query_loop-listed (suc fuel) p (q ∷ qs) obj added l a h =
    let f = find-append b'&' p (q ++ more qs) l in
    let n = length-append p (b'&' ∷ (q ++ more qs)) in
    query_step fuel (p ++ (b'&' ∷ (q ++ more qs))) obj p (q ++ more qs) added (omega (arith, n))
      (rw f (take-append p (b'&' ∷ (q ++ more qs)))) (rw f (drop_behind p b'&' (q ++ more qs)))
    ∙ if_path (is_empty p || is_authz p) _ _ _ _
        (query_loop-listed fuel q qs obj added a.0 a.1 (omega (arith, n, h)))
        (query_loop-listed fuel q qs (obj ++ (separator added ++ p)) true a.0 a.1
          (omega (arith, n, h)))
    ∙ pick (is_empty p || is_authz p) obj p added (without_authz (q ∷ qs))

-- The name obj?p&q&... of an object, where obj has no "?" and no parameter an "&", is cleaned to obj
-- with just the parameters that are not empty, not "authz" and do not start with "authz=", in their
-- order, the first
-- behind a "?" and each other behind an "&".
pub clean_object_name-query_of :
    (obj p : Bytes) (ps : List Bytes)
    → Lacks b'?' obj
    → Lacks b'&' p
    → All (Lacks b'&') ps
    → clean_object_name (obj ++ (b'?' ∷ (p ++ more ps))) ≡ obj ++ query_of (without_authz (p ∷ ps))
unfolding clean_object_name
clean_object_name-query_of obj p ps q l a =
    rw (find-append b'?' obj (p ++ more ps) q, clean_object_name)
      (rw (drop_behind obj b'?' (p ++ more ps), take-append obj (b'?' ∷ (p ++ more ps)))
        (query_loop-listed (length (p ++ more ps)) p ps obj false l a (omega arith)))
    ∙ listed-query_of obj (without_authz (p ∷ ps))
