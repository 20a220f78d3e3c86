-- ===== src/Http/Bounded.antt =====
-- The body of a response is bounded.
use healthassure_messaging.Base.{
  ℕ, ◌≤◌, String, ◌≡◌, refl, ◌∙◌, ap, Bool, true, false, Option, none, some, List, [], ◌∷◌, ◌++◌,
  nat_eq, if◌then◌else◌, length, length-append, leb, not, ◌&&◌, arith, Bool-cases, inl, inr,
}
use mathlib.Core.List.{append-nil, append_assoc}
use text.Mathlib.Text.{starts_with}
use healthassure_messaging.Errors.{Error, ok, err}
use healthassure_messaging.Http.{
  HttpResponse, HttpOutcome, PostReply, StreamedResponse, RequestException, read_chunks,
  read_response, finish_response, check_response, post_reply, bounded_retry_after, post_json,
  broken_outcome,
}

-- The non-empty chunks, joined.
abbrev joined : List (List ℕ) → List ℕ
joined [] = []
joined (c ∷ cs) = c ++ joined cs

read_chunks_bound :
    (limit : ℕ) (x : Option RequestException) (body : List ℕ) (chunks : List (List ℕ))
    (out : List ℕ) (large : Bool)
    → length body ≤ limit
    → read_chunks limit x body chunks ≡ some (out, large)
    → length out ≤ limit
unfolding read_chunks
read_chunks_bound limit none body [] out large b h = ground arith
read_chunks_bound limit (some x) body [] out large b h = cc
read_chunks_bound limit x body (c ∷ cs) out large b h = ground (
  arith,
  read_chunks_bound limit x body cs out large,
  read_chunks_bound limit x (body ++ c) cs out large,
  length-append body c,
)

-- An empty chunk adds nothing to the joined body.
append_empty : (body c : List ℕ) → length c ≡ 0 → body ++ (c ++ []) ≡ body
append_empty body [] h = append-nil body
append_empty body (x ∷ c) h = absurd (omega arith)

empty_chunk : (c : List ℕ) → length c ≡ 0 → c ≡ []
empty_chunk [] h = refl
empty_chunk (x ∷ c) h = absurd (omega arith)

-- The end of a whole stream by the length of its joined chunks.
abbrev whole : ℕ → List ℕ → Option (List ℕ × Bool)
whole limit all = if leb (length all) limit then some (all, false) else some ([], true)

long_chunk :
    (limit : ℕ) (body c : List ℕ) (cs : List (List ℕ))
    → length body ≤ limit
    → nat_eq (length c) 0 ≡ false
    → (length (body ++ c) ≤ limit
        → read_chunks limit none (body ++ c) cs ≡ whole limit ((body ++ c) ++ joined cs))
    → read_chunks limit none body (c ∷ cs) ≡ whole limit (body ++ (c ++ joined cs))
unfolding read_chunks
long_chunk limit body c cs h e rest = ground (
  arith,
  append_assoc body c (joined cs),
  length-append body c,
  length-append (body ++ c) (joined cs),
)

finish_response_bound :
    (limit : ℕ) (x : StreamedResponse) (o : Option (List ℕ × Bool)) (r : HttpResponse)
    → ((out : List ℕ) (large : Bool) → o ≡ some (out, large) → length out ≤ limit)
    → finish_response x o ≡ ok (HttpOutcome.response r)
    → length r.body ≤ limit
unfolding finish_response check_response
finish_response_bound limit x none r b h = broken_no_body x.broken h
  where
    broken_no_body :
        (e : Option RequestException)
        → broken_outcome e ≡ ok (HttpOutcome.response r)
        → length r.body ≤ limit
    broken_no_body none h = absurd (cc h)
    broken_no_body (some RequestException.timeout) h = absurd (cc h)
    broken_no_body (some RequestException.other) h = absurd (cc h)
    broken_no_body (some (RequestException.foreign e)) h = absurd (cc h)
finish_response_bound limit x (some (out, large)) r b h = ground (arith, b out large refl)

read_response_bound :
    (limit : ℕ) (x : StreamedResponse) (r : HttpResponse)
    → read_response limit x ≡ ok (HttpOutcome.response r)
    → length r.body ≤ limit
unfolding read_response
read_response_bound limit x r h =
    finish_response_bound limit x (read_chunks limit x.broken [] x.chunks) r
      (λ out large e. read_chunks_bound limit x.broken [] x.chunks out large (omega arith) e) h

read_chunks-whole :
    (limit : ℕ) (body : List ℕ) (chunks : List (List ℕ))
    → length body ≤ limit
    → read_chunks limit none body chunks ≡ whole limit (body ++ joined chunks)
unfolding read_chunks
read_chunks-whole limit body [] h = rw (append-nil body) (ground arith)
read_chunks-whole limit body (c ∷ cs) h = elim (Bool-cases (nat_eq (length c) 0)) [
  | inl e ↦ rw e (rw (empty_chunk c (ground arith)) (read_chunks-whole limit body cs h))
  | inr e ↦ long_chunk limit body c cs h e (read_chunks-whole limit (body ++ c) cs)
]

-- What the transport makes of a stream that breaks nowhere.
abbrev received : StreamedResponse → ℕ → HttpResponse
received r limit = record {
  status_code = r.status_code;
  body = if leb (length (joined r.chunks)) limit then joined r.chunks else [];
  retry_after = bounded_retry_after r.retry_after;
  body_too_large = not (leb (length (joined r.chunks)) limit);
}

stream_end :
    (limit : ℕ) (r : StreamedResponse)
    → r.broken ≡ none
    → read_chunks limit r.broken [] r.chunks ≡ whole limit (joined r.chunks)
stream_end limit r e =
    ap (λ x. read_chunks limit x [] r.chunks) e ∙ read_chunks-whole limit [] r.chunks (omega arith)

-- Over HTTPS, a response whose stream breaks nowhere comes back, where its status is from 100 to 599,
-- with the joined chunks as its body where they fit the limit, and otherwise with an empty body and the
-- flag `body_too_large`. For any other status ValueError is raised.
pub post_json-received :
    (limit : ℕ) (url : String) (r : StreamedResponse)
    → starts_with url "https://" ≡ true
    → r.broken ≡ none
    → post_json limit url (PostReply.streamed r) ≡ (
        if leb 100 r.status_code && leb r.status_code 599
        then ok (HttpOutcome.response (received r limit))
        else err Error.value_error)
unfolding post_json post_reply read_response finish_response check_response
post_json-received limit url r https whole_stream =
    rw (https, stream_end limit r whole_stream, read_response) (ground arith)

-- Whatever the server sends, a returned body is no longer than the limit.
pub post_json_bound :
    (limit : ℕ) (url : String) (reply : PostReply) (r : HttpResponse)
    → post_json limit url reply ≡ ok (HttpOutcome.response r)
    → length r.body ≤ limit
unfolding post_json post_reply
post_json_bound limit url (PostReply.failed RequestException.timeout) r h = ground arith
post_json_bound limit url (PostReply.failed RequestException.other) r h = ground arith
post_json_bound limit url (PostReply.failed (RequestException.foreign e)) r h = ground arith
post_json_bound limit url (PostReply.streamed x) r h = ground (arith, read_response_bound limit x r)
