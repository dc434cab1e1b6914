-- ===== src/Status/Laws.antt =====
-- src/XrdClCurl/XrdClCurlUtil.cc: what the conversions guarantee to XrdPosixMap::Result.
use xrdcl_pelican.Prelude.{
  ℕ, Bool, true, false, ◌&&◌, ◌||◌, List, [], ◌∷◌, ◌≡◌, ◌<◌, refl, inl, inr, arith,
}
use xrdcl_pelican.Prelude.Tests.{leb, ◌==◌, if◌then◌else◌, Bool-cases}
use xrdcl_pelican.Status

unfoldable pub is_error_response : Status.Code → Bool
is_error_response Status.err_error_response = true
is_error_response _ = false

-- An error of the XRootD protocol, as opposed to an errno or 0.
unfoldable pub is_protocol : Status.ErrNo → Bool
is_protocol (Status.number n) = false
is_protocol Status.eacces = false
is_protocol Status.eio = false
is_protocol Status.econnrefused = false
is_protocol Status.estale = false
is_protocol Status.enosys = false
is_protocol Status.einval = false
is_protocol Status.enotsup = false
is_protocol Status.eloop = false
is_protocol _ = true

-- An errno by its name.
unfoldable pub is_errno : Status.ErrNo → Bool
is_errno Status.eacces = true
is_errno Status.eio = true
is_errno Status.econnrefused = true
is_errno Status.estale = true
is_errno Status.enosys = true
is_errno Status.einval = true
is_errno Status.enotsup = true
is_errno Status.eloop = true
is_errno _ = false

abbrev is_zero : Status.ErrNo → Bool
is_zero (Status.number n) = n == 0
is_zero _ = false

-- The slot holds an error of the protocol where the code is errErrorResponse, and else an errno.
abbrev is_consistent : Status.Code × Status.ErrNo → Bool
is_consistent (c, e) = if is_error_response c then is_protocol e else is_errno e

unfoldable pub IsConsistent : Status.Code × Status.ErrNo → Type 0
IsConsistent r = is_consistent r ≡ true

-- The same, where 0 may stand for an errno.
abbrev is_consistent_or_zero : Status.Code × Status.ErrNo → Bool
is_consistent_or_zero (c, e) =
    if is_error_response c then is_protocol e else is_errno e || is_zero e

unfoldable pub IsConsistentOrZero : Status.Code × Status.ErrNo → Type 0
IsConsistentOrZero r = is_consistent_or_zero r ≡ true

-- A test of every group of labels of a switch.
abbrev every {ℓ} : {A : Type ℓ} → (List ℕ × A → Bool) → List (List ℕ × A) → Bool
every p [] = true
every p (c ∷ cs) = p c && every p cs

switch_all {ℓ} :
    {A : Type ℓ} (p : A → Bool) (cases : List (List ℕ × A)) (otherwise : A) (n : ℕ)
    → every (λ c. p c.1) cases ≡ true
    → p otherwise ≡ true
    → p (Status.switch cases otherwise n) ≡ true
switch_all p [] o n a h = h
switch_all p ((ls, x) ∷ cs) o n a h = elim (Bool-cases (Status.mem n ls)) [
  | inl e ↦ rw e (ground arith)
  | inr e ↦ rw e (switch_all p cs o n (ground arith) h)
]

-- For every HTTP status, the second member of HTTPStatusConvert is an error of the XRootD protocol
-- where the code is errErrorResponse, and otherwise an errno, never 0 or another number.
pub http_status_convert-IsConsistent :
    (status : ℕ) → IsConsistent (Status.http_status_convert status)
unfolding Status.http_status_convert Status.http_cases IsConsistent is_error_response is_protocol
    is_errno
http_status_convert-IsConsistent status =
    switch_all is_consistent Status.http_cases (Status.err_unknown, Status.eio) status refl refl

abbrev above : ℕ → List ℕ → Bool
above low [] = true
above low (x ∷ xs) = leb low x && above low xs

mem_below : (low n : ℕ) (xs : List ℕ) → above low xs ≡ true → n < low → Status.mem n xs ≡ false
mem_below low n [] a h = refl
mem_below low n (x ∷ xs) a h = ground (arith, mem_below low n xs)

switch_below {ℓ} :
    {A : Type ℓ} (low n : ℕ) (cases : List (List ℕ × A)) (otherwise : A)
    → every (λ c. above low c.0) cases ≡ true
    → n < low
    → Status.switch cases otherwise n ≡ otherwise
switch_below low n [] o a h = refl
switch_below low n ((ls, x) ∷ cs) o a h = elim (Bool-cases (above low ls)) [
  | inl e ↦ rw (mem_below low n ls e h) (switch_below low n cs o (ground arith) h)
  | inr e ↦ absurd (ground arith)
]

-- A status that HTTPStatusIsError does not take for an error has no error of the protocol of its
-- own: HTTPStatusConvert gives it the generic answer, a POSIX I/O error.
pub http_status_convert_otherwise :
    (status : ℕ)
    → Status.http_status_is_error status ≡ false
    → Status.http_status_convert status ≡ (Status.err_unknown, Status.eio)
unfolding Status.http_status_convert Status.http_cases Status.http_status_is_error
http_status_convert_otherwise status h =
    switch_below 400 status Status.http_cases (Status.err_unknown, Status.eio) refl (ground arith)

-- For every result of libcurl, and whether or not the protocol has a timer error, the second
-- member of CurlCodeConvert is an error of the XRootD protocol where the code is errErrorResponse,
-- and otherwise an errno that may be read verbatim, or 0.
pub curl_code_convert-IsConsistentOrZero :
    (timer_expired : Bool) (res : Status.CurlCode)
    → IsConsistentOrZero (Status.curl_code_convert timer_expired res)
unfolding Status.curl_code_convert IsConsistentOrZero is_error_response is_protocol is_errno
curl_code_convert-IsConsistentOrZero true Status.operation_timedout = refl
curl_code_convert-IsConsistentOrZero false Status.operation_timedout = refl
curl_code_convert-IsConsistentOrZero _ _ = refl
