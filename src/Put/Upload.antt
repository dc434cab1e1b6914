-- ===== src/Put/Upload.antt =====
-- src/XrdClCurl/XrdClCurlOpPut.cc: what goes to the server of the pieces that a client gives.
use xrdcl_pelican.Prelude.{
  List, false, ◌||◌, ℕ, Bool, true, [], ◌∷◌, ◌++◌, ◌≡◌, refl, sym, ap, ◌∙◌, arith,
}
use mathlib.Core.Path.{subst}
use mathlib.Core.List.{append_assoc, append-nil}
use xrdcl_pelican.Prelude.Tests.{if◌then◌else◌, if_cases, if_all}
use xrdcl_pelican.Prelude.Bytes.{Bytes, is_empty}
use xrdcl_pelican.Prelude.Lists.{take-append-drop}
use xrdcl_pelican.Put.{
  PutOp, Reply, pauses, ends, sends, new_put, read_callback, continue, continue_handle, pause,
}

-- A piece of no bytes is among them.
abbrev pub has_empty : List Bytes → Bool
has_empty [] = false
has_empty ([] ∷ pieces) = true
has_empty ((c ∷ cs) ∷ pieces) = has_empty pieces

-- The life of an upload: the pieces that the client gave to Continue, the latest first, all bytes
-- that the client gave, and those that went to libcurl. The client gives a piece when the one before
-- is sent.
pub data Uploads : PutOp → List Bytes → Bytes → Bytes → Type 0 where
  begins :
      (handler default_handler : Bool) (buffer : Bytes)
      → Uploads (new_put handler default_handler buffer) [] buffer []
  moves :
      (op op' : PutOp) (given sent part : Bytes) (pieces : List Bytes) (request : ℕ)
      → Uploads op pieces given sent
      → read_callback op request ≡ (op', sends part)
      → Uploads op' pieces given (sent ++ part)
  waits :
      (op op' : PutOp) (given sent : Bytes) (pieces : List Bytes) (request : ℕ)
      → Uploads op pieces given sent
      → read_callback op request ≡ (op', pauses)
      → Uploads op' pieces given sent
  continues :
      (op op' : PutOp) (given sent buffer : Bytes) (pieces : List Bytes) (handler : Bool)
      → Uploads op pieces given sent
      → op.payload ≡ []
      → continue true op handler buffer ≡ (op', true)
      → Uploads op' (buffer ∷ pieces) (given ++ buffer) sent
  resumes :
      (op : PutOp) (given sent : Bytes) (pieces : List Bytes) (curl_ok : Bool)
      → Uploads op pieces given sent
      → Uploads (continue_handle curl_ok op).0 pieces given sent

-- What a read makes of an upload.
abbrev After : PutOp → PutOp × Reply → Type 0
After op (op', pauses) = (op'.payload ≡ op.payload) × (op'.final ≡ op.final) × (op.final ≡ false)
After op (op', ends) = (op.payload ≡ []) × (op.final ≡ true)
After op (op', sends part) = (part ++ op'.payload ≡ op.payload) × (op'.final ≡ op.final)

empty : (xs : Bytes) → is_empty xs ≡ true → xs ≡ []
empty [] h = refl
empty (x ∷ xs) h = let bad : ⊥ = ground arith in elim bad [ ]

pause-payload : (op : PutOp) → ((pause op).payload ≡ op.payload) × ((pause op).final ≡ op.final)
unfolding pause
pause-payload op =
    if_all {A = PutOp} (λ r. (r.payload ≡ op.payload) × (r.final ≡ op.final))
      (op.handler || op.default_handler) (refl, refl) (refl, refl)

read_callback-After : (op : PutOp) (request : ℕ) → After op (read_callback op request)
unfolding read_callback
read_callback-After op request =
    if_cases (After op) (is_empty op.payload)
      (λ e.
        if_cases (After op) op.final (λ f. (empty op.payload e, f))
          (λ f. let p = pause-payload op in (p.0, p.1, f)))
      (λ e. (take-append-drop request op.payload, refl))

-- The bytes are in their place, and the end is known just where an empty piece was given.
abbrev Kept : PutOp → List Bytes → Bytes → Bytes → Type 0
Kept op pieces given sent = (sent ++ op.payload ≡ given) × (op.final ≡ has_empty pieces)

final_piece :
    (buffer : Bytes) (pieces : List Bytes) (final : Bool)
    → final ≡ has_empty pieces
    → (if is_empty buffer then true else final) ≡ has_empty (buffer ∷ pieces)
final_piece [] pieces final h = refl
final_piece (c ∷ cs) pieces final h = h

Uploads-Kept :
    (op : PutOp) (pieces : List Bytes) (given sent : Bytes)
    → Uploads op pieces given sent
    → Kept op pieces given sent
unfolding continue continue_handle
Uploads-Kept _ _ _ _ (begins handler default_handler buffer) = (refl, refl)
Uploads-Kept _ _ _ _ (moves op op' given sent part pieces request u e) =
    let k : After op (op', sends part) = subst (After op) e (read_callback-After op request) in
    let w = Uploads-Kept op pieces given sent u in
    (append_assoc sent part op'.payload ∙ ap (◌++◌ sent) k.0 ∙ w.0, k.1 ∙ w.1)
Uploads-Kept _ _ _ _ (waits op op' given sent pieces request u e) =
    let k : After op (op', pauses) = subst (After op) e (read_callback-After op request) in
    let w = Uploads-Kept op pieces given sent u in (ap (◌++◌ sent) k.0 ∙ w.0, k.1 ∙ w.1)
Uploads-Kept _ _ _ _ (continues op op' given sent buffer pieces handler u n e) =
    let k : op'.payload ≡ buffer = ap (λ r. r.0.payload) (sym e) in
    let f : op'.final ≡ (if is_empty buffer then true else op.final) =
      ap (λ r. r.0.final) (sym e) in
    let w = Uploads-Kept op pieces given sent u in
    let all : sent ≡ given = sym (append-nil sent) ∙ ap (◌++◌ sent) (sym n) ∙ w.0 in
    (ap (◌++◌ sent) k ∙ ap (λ x. x ++ buffer) all, f ∙ final_piece buffer pieces op.final w.1)
Uploads-Kept _ _ _ _ (resumes op given sent pieces ok u) =
    let w = Uploads-Kept op pieces given sent u in
    if_all {A = PutOp × Bool} (λ r. Kept r.0 pieces given sent) ok w w

-- At the end of the body, and where libcurl is to pause.
abbrev pub Ended : List Bytes → Bytes → Bytes → Reply → Type 0
Ended pieces given sent ends = (sent ≡ given) × (has_empty pieces ≡ true)
Ended pieces given sent pauses = has_empty pieces ≡ false
Ended pieces given sent (sends part) = Unit

ended :
    (op op' : PutOp) (pieces : List Bytes) (given sent : Bytes) (reply : Reply)
    → Kept op pieces given sent
    → After op (op', reply)
    → Ended pieces given sent reply
ended op op' pieces given sent ends w a =
    (sym (append-nil sent) ∙ ap (◌++◌ sent) (sym a.0) ∙ w.0, sym w.1 ∙ a.1)
ended op op' pieces given sent pauses w a = sym w.1 ∙ a.2
ended op op' pieces given sent (sends part) w a = tt

-- Where the client gives each piece to Continue only when the one before is sent, and the queue of
-- continuations takes it, libcurl gets what
-- the client gave, byte for byte and in order: the bytes sent, with those of the piece at hand that
-- still wait, are the bytes given. Where the callback tells libcurl that the body ends, all that was
-- given has been sent, and one of the pieces given to Continue was empty; where it asks libcurl to
-- pause, none was.
pub Uploads-read_callback :
    (op op' : PutOp) (pieces : List Bytes) (given sent : Bytes) (request : ℕ) (reply : Reply)
    → Uploads op pieces given sent
    → read_callback op request ≡ (op', reply)
    → (sent ++ op.payload ≡ given) × Ended pieces given sent reply
Uploads-read_callback op op' pieces given sent request reply u e =
    let w = Uploads-Kept op pieces given sent u in
    (
      w.0,
      ended op op' pieces given sent reply w (subst (After op) e (read_callback-After op request)),
    )
