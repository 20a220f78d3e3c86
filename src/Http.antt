-- ===== src/Http.antt =====
-- src/healthassure_messaging/http.py: the bounded HTTP transport. The `requests` library is a
-- parameter: what `Session.post` and the reading of its chunks give is an argument. A byte is a
-- number.
pub mod Bounded
use healthassure_messaging.Base.{
  ℕ, ◌+◌, String, Bool, true, false, not, ◌&&◌, ◌||◌, Option, none, some, List, [], ◌∷◌, ◌++◌, leb,
  ltb, nat_eq, if◌then◌else◌, length,
}
use healthassure_messaging.Base.Text.{size}
use healthassure_messaging.Errors.{Error, Result, ok, err, ◌>>=◌, ◌>>◌, raise_if}
use text.Mathlib.Text.{starts_with}

abbrev pub default_max_response_bytes : ℕ
default_max_response_bytes = 65536

pub data TransportFailureKind : Type 0 where
  timeout network : TransportFailureKind

pub record HttpResponse : Type 0 where
  pub status_code : ℕ
  pub body : List ℕ
  pub retry_after : Option String
  pub body_too_large : Bool

unfoldable pub check_response : HttpResponse → Result HttpResponse
check_response r = do
  raise_if (not (leb 100 r.status_code && leb r.status_code 599)) Error.value_error
  ok r

pub data HttpOutcome : Type 0 where
  response : HttpResponse → HttpOutcome
  failure : TransportFailureKind → HttpOutcome

-- What a call of `requests` raises: its timeout, another of its own exceptions, or an exception that
-- is none of its own, which `post_json` does not catch.
pub data RequestException : Type 0 where
  timeout other : RequestException
  foreign : Error → RequestException

-- A streamed response: the chunks in order, and the exception that ends the stream early, if any.
pub record StreamedResponse : Type 0 where
  pub status_code : ℕ
  pub retry_after : Option String
  pub chunks : List (List ℕ)
  pub broken : Option RequestException

-- What `Session.post` gives.
pub data PostReply : Type 0 where
  streamed : StreamedResponse → PostReply
  failed : RequestException → PostReply

-- The loop over the chunks: the body so far, then the body and `body_too_large`, or `none` where
-- the stream breaks before the loop is left.
unfoldable pub read_chunks :
    ℕ → Option RequestException → List ℕ → List (List ℕ) → Option (List ℕ × Bool)
read_chunks limit none body [] = some (body, false)
read_chunks limit (some x) body [] = none
read_chunks limit broken body (chunk ∷ chunks) =
    let skipped = read_chunks limit broken body chunks in
    let longer = read_chunks limit broken (body ++ chunk) chunks in
    if nat_eq (length chunk) 0
    then skipped
    else if ltb limit (length body + length chunk)
    then some ([], true)
    else longer

-- `_bounded_retry_after`.
unfoldable pub bounded_retry_after : Option String → Option String
bounded_retry_after none = none
bounded_retry_after (some value) = if ltb 128 (size value) then none else some value

abbrev pub failure_of : RequestException → Result HttpOutcome
failure_of RequestException.timeout = ok (HttpOutcome.failure TransportFailureKind.timeout)
failure_of RequestException.other = ok (HttpOutcome.failure TransportFailureKind.network)
failure_of (RequestException.foreign e) = err e

-- The exception that ended the stream; without one the loop has an end.
abbrev pub broken_outcome : Option RequestException → Result HttpOutcome
broken_outcome none = ok (HttpOutcome.failure TransportFailureKind.network)
broken_outcome (some x) = failure_of x

-- What follows the loop: the response, or what the exception leads to.
unfoldable pub finish_response : StreamedResponse → Option (List ℕ × Bool) → Result HttpOutcome
finish_response r none = broken_outcome r.broken
finish_response r (some (body, too_large)) =
    check_response (record {
      status_code = r.status_code;
      body = body;
      retry_after = bounded_retry_after r.retry_after;
      body_too_large = too_large;
    })
    >>= λ x. ok (HttpOutcome.response x)

unfoldable pub read_response : ℕ → StreamedResponse → Result HttpOutcome
read_response limit r = finish_response r (read_chunks limit r.broken [] r.chunks)

-- `RequestsHttpTransport.__init__` on `max_response_bytes`.
unfoldable pub new_transport : ℕ → Result ℕ
new_transport max_response_bytes = do
  raise_if (nat_eq max_response_bytes 0) Error.value_error
  ok max_response_bytes

unfoldable pub post_reply : ℕ → PostReply → Result HttpOutcome
post_reply limit (PostReply.failed x) = failure_of x
post_reply limit (PostReply.streamed r) = read_response limit r

-- `post_json`: the URL is tested before the session is used.
unfoldable pub post_json : ℕ → String → PostReply → Result HttpOutcome
post_json limit url reply = do
  raise_if (not (starts_with url "https://")) Error.value_error
  post_reply limit reply
