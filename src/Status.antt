-- ===== src/Status.antt =====
-- src/XrdClCurl/XrdClCurlUtil.cc: how a HTTP status and a result of libcurl become a status of
-- XrdCl. The values behind the constants of XRootD, libcurl and POSIX are not in the repository, so
-- their names stand for them. A result has a code, and a slot for a
-- number: an error of the XRootD protocol, an errno or another number.
pub mod Laws
mod Tests
use xrdcl_pelican.Prelude.{ℕ, Bool, true, false, ◌||◌, List, [], ◌∷◌}
use xrdcl_pelican.Prelude.Tests.{ltb, leb, ◌==◌, if◌then◌else◌}

-- The codes of XrdCl in use.
pub data Code : Type 0 where
  err_none err_invalid_addr err_login_failed err_tls_error err_socket_error : Code
  err_connection_error err_operation_expired err_not_supported err_internal : Code
  err_invalid_args err_data_error err_redirect_limit err_unknown err_error_response : Code

-- The second member of the pair, a number: an errno or an error of the XRootD protocol by its name,
-- or any other number, such as 0.
pub data ErrNo : Type 0 where
  number : ℕ → ErrNo
  eacces eio econnrefused estale enosys einval enotsup eloop : ErrNo
  kxr_invalid_request kxr_not_authorized kxr_not_found kxr_unsupported kxr_req_timed_out : ErrNo
  kxr_conflict kxr_file_locked kxr_overloaded kxr_impossible kxr_server_error : ErrNo
  kxr_over_quota kxr_timer_expired : ErrNo

unfoldable pub http_status_is_error : ℕ → Bool
http_status_is_error status = ltb status 100 || leb 400 status

abbrev pub mem : ℕ → List ℕ → Bool
mem n [] = false
mem n (x ∷ xs) = n == x || mem n xs

-- A switch: the groups of labels with what they return, and the code behind the switch.
abbrev pub switch {ℓ} : {A : Type ℓ} → List (List ℕ × A) → A → ℕ → A
switch [] otherwise n = otherwise
switch ((labels, a) ∷ cases) otherwise n = if mem n labels then a else switch cases otherwise n

unfoldable pub http_cases : List (List ℕ × (Code × ErrNo))
http_cases =
    (400 ∷ [], (err_error_response, kxr_invalid_request))
    ∷ (401 ∷ [], (err_error_response, kxr_not_authorized))
    ∷ (402 ∷ 403 ∷ [], (err_error_response, kxr_not_authorized))
    ∷ (404 ∷ [], (err_error_response, kxr_not_found))
    ∷ (405 ∷ [], (err_error_response, kxr_unsupported))
    ∷ (406 ∷ [], (err_error_response, kxr_invalid_request))
    ∷ (407 ∷ [], (err_error_response, kxr_not_authorized))
    ∷ (408 ∷ [], (err_error_response, kxr_req_timed_out))
    ∷ (409 ∷ [], (err_error_response, kxr_conflict))
    ∷ (410 ∷ [], (err_error_response, kxr_not_found))
    ∷ (
      411 ∷ 412 ∷ 413 ∷ 414 ∷ 415 ∷ 416 ∷ 417 ∷ 418 ∷ [],
      (err_error_response, kxr_invalid_request),
    )
    ∷ (421 ∷ 422 ∷ [], (err_error_response, kxr_invalid_request))
    ∷ (423 ∷ [], (err_error_response, kxr_file_locked))
    ∷ (424 ∷ 425 ∷ 426 ∷ 428 ∷ [], (err_error_response, kxr_invalid_request))
    ∷ (429 ∷ [], (err_error_response, kxr_overloaded))
    ∷ (431 ∷ [], (err_error_response, kxr_invalid_request))
    ∷ (451 ∷ [], (err_error_response, kxr_impossible))
    ∷ (500 ∷ [], (err_error_response, kxr_server_error))
    ∷ (501 ∷ [], (err_error_response, kxr_unsupported))
    ∷ (502 ∷ [], (err_error_response, kxr_server_error))
    ∷ (503 ∷ [], (err_error_response, kxr_overloaded))
    ∷ (504 ∷ [], (err_error_response, kxr_req_timed_out))
    ∷ (507 ∷ [], (err_error_response, kxr_over_quota))
    ∷ (508 ∷ 510 ∷ 511 ∷ [], (err_error_response, kxr_server_error))
    ∷ []

unfoldable pub http_status_convert : ℕ → Code × ErrNo
http_status_convert status = switch http_cases (err_unknown, eio) status

-- The results of libcurl that the source names. `peer_failed_verification` is the label 51, and
-- `other` any result without a label.
pub data CurlCode : Type 0 where
  ok couldnt_resolve_proxy couldnt_resolve_host login_denied remote_access_denied : CurlCode
  ssl_connect_error ssl_engine_notfound ssl_engine_setfailed ssl_certproblem ssl_cipher : CurlCode
  peer_failed_verification ssl_shutdown_failed ssl_crl_badfile ssl_issuer_error ssl_cacert :
      CurlCode
  send_error recv_error couldnt_connect got_nothing operation_timedout : CurlCode
  unsupported_protocol not_built_in failed_init url_malformat partial_file : CurlCode
  read_error write_error range_error bad_content_encoding too_many_redirects : CurlCode
  other : CurlCode

-- The first argument is whether HAVE_XPROTOCOL_TIMEREXPIRED is defined.
unfoldable pub curl_code_convert : Bool → CurlCode → Code × ErrNo
curl_code_convert timer_expired ok = (err_none, number 0)
curl_code_convert timer_expired couldnt_resolve_proxy = (err_invalid_addr, number 0)
curl_code_convert timer_expired couldnt_resolve_host = (err_invalid_addr, number 0)
curl_code_convert timer_expired login_denied = (err_login_failed, eacces)
curl_code_convert timer_expired remote_access_denied = (err_login_failed, eacces)
curl_code_convert timer_expired ssl_connect_error = (err_tls_error, number 0)
curl_code_convert timer_expired ssl_engine_notfound = (err_tls_error, number 0)
curl_code_convert timer_expired ssl_engine_setfailed = (err_tls_error, number 0)
curl_code_convert timer_expired ssl_certproblem = (err_tls_error, number 0)
curl_code_convert timer_expired ssl_cipher = (err_tls_error, number 0)
curl_code_convert timer_expired peer_failed_verification = (err_tls_error, number 0)
curl_code_convert timer_expired ssl_shutdown_failed = (err_tls_error, number 0)
curl_code_convert timer_expired ssl_crl_badfile = (err_tls_error, number 0)
curl_code_convert timer_expired ssl_issuer_error = (err_tls_error, number 0)
curl_code_convert timer_expired ssl_cacert = (err_tls_error, number 0)
curl_code_convert timer_expired send_error = (err_socket_error, eio)
curl_code_convert timer_expired recv_error = (err_socket_error, eio)
curl_code_convert timer_expired couldnt_connect = (err_connection_error, econnrefused)
curl_code_convert timer_expired got_nothing = (err_connection_error, econnrefused)
curl_code_convert timer_expired operation_timedout =
    if timer_expired
    then (err_error_response, kxr_timer_expired)
    else (err_operation_expired, estale)
curl_code_convert timer_expired unsupported_protocol = (err_not_supported, enosys)
curl_code_convert timer_expired not_built_in = (err_not_supported, enosys)
curl_code_convert timer_expired failed_init = (err_internal, number 0)
curl_code_convert timer_expired url_malformat = (err_invalid_args, einval)
curl_code_convert timer_expired partial_file = (err_data_error, eio)
curl_code_convert timer_expired read_error = (err_internal, eio)
curl_code_convert timer_expired write_error = (err_internal, eio)
curl_code_convert timer_expired range_error = (err_not_supported, enotsup)
curl_code_convert timer_expired bad_content_encoding = (err_not_supported, enotsup)
curl_code_convert timer_expired too_many_redirects = (err_redirect_limit, eloop)
curl_code_convert timer_expired other = (err_unknown, eio)
