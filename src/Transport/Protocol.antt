-- ===== src/Transport/Protocol.antt =====
-- What a round trip through the shared memory promises its caller.
use cverl.Base.{
  ℕ, suc, ◌+◌, ◌≤◌, ◌≡◌, refl, ap, ◌∙◌, true, false, some, ◌==◌, ltb, if◌then◌else◌, length, drop,
  take_left, Bytes, Result, ok, err, ◌>>=◌, ◌>>◌, throw_if, runtime_error, arith, le→ltb_false,
  Bool-cases, inl, inr,
}
use cverl.Transport.Messages.{
  RolloutRequest, RolloutResponse, serialize_request, deserialize_response,
}
use cverl.Transport.Encoding.{
  request_bytes, response_bytes, serialize_request-request_bytes, serialize_response-response_bytes,
}
use cverl.Transport.RoundTrip.{
  RequestFits, ResponseFits, deserialize_request-request_bytes, deserialize_response-response_bytes,
}
use cverl.Transport.Exchange.{
  Shared, Transport, Handler, copy_in, sem_wait_with_timeout, post_request, receive_response,
  generate, handle, written_or_2, write_answer, await_response, after_response, after_request,
  serve_one,
}

-- The identifier of a call: the caller's, or the client's next.
abbrev pub call_id : RolloutRequest → Transport → ℕ
call_id request self = if request.request_id == 0 then self.next_request_id else request.request_id

-- What the handler makes of a request under an identifier.
abbrev pub reply : Handler → ℕ → RolloutRequest → Result RolloutResponse
reply handler rid request = do
  let req = if request.request_id == 0 then record request { request_id = rid } else request
  response ← handler req
  ok (
      if response.request_id == 0
      then record response { request_id = req.request_id }
      else response)

-- What the caller gets: the reply, or an exception where there is none or it is too long.
abbrev pub promised : ℕ → Result RolloutResponse → Result RolloutResponse
promised cap (err e) = err runtime_error
promised cap (ok response) =
    if ltb cap (length (response_bytes response)) then err runtime_error else ok response

-- A process that runs `serve_one` once.
abbrev pub served : Handler → Transport → Shared → Shared
served handler self s = elim (serve_one handler self s) [ err e ↦ s | ok x ↦ x.0 ]

-- The shared state behind the post of a request that fits.
unfoldable pub posted : RolloutRequest → ℕ → Shared → Shared
posted request rid s = record s {
  hdr = record s.hdr { request_id = rid; request_size = length (request_bytes request) };
  request_buffer = copy_in (request_bytes request) s.request_buffer;
  req_sem = s.req_sem + 1;
}

serialized :
    (request : RolloutRequest) (cap : ℕ)
    → length (request_bytes request) ≤ cap
    → serialize_request request cap ≡ ok (request_bytes request)
serialized request cap h = rw (serialize_request-request_bytes request cap, le→ltb_false cap _ h)

pub post_request_fits :
    (request : RolloutRequest) (self : Transport) (s : Shared)
    → self.is_client ≡ true
    → length (request_bytes request) ≤ self.payload_capacity
    → (next : ℕ) × (post_request request (self, s)
        ≡ ok (record self { next_request_id = next }, posted request (call_id request self) s))
unfolding post_request posted
post_request_fits request self s client fits = elim (Bool-cases (request.request_id == 0)) [
  | inl h ↦
      (self.next_request_id + 1, rw (client, h, serialized request self.payload_capacity fits))
  | inr h ↦ (self.next_request_id, rw (client, h, serialized request self.payload_capacity fits))
]

pub handle-posted :
    (handler : Handler) (request : RolloutRequest) (rid : ℕ) (s : Shared)
    → RequestFits request
    → handle handler (posted request rid s) ≡ reply handler rid request
unfolding handle posted copy_in
handle-posted handler request rid s fits = rw (
  take_left (request_bytes request) (drop (length (request_bytes request)) s.request_buffer),
  deserialize_request-request_bytes request fits,
)

wait_posted : (n : ℕ) → sem_wait_with_timeout (n + 1) ≡ some n
unfolding sem_wait_with_timeout
wait_posted n = let e : n + 1 ≡ suc n = omega arith in rw e

-- The shared state behind an answer.
unfoldable pub answered : Bytes × ℕ → ℕ → Shared → Shared
answered answer left s = record s {
  hdr = record s.hdr { response_size = length answer.0; response_status = answer.1 };
  response_buffer = copy_in answer.0 s.response_buffer;
  req_sem = left;
  resp_sem = s.resp_sem + 1;
}

after_request-answered :
    (handler : Handler) (server : Transport) (s : Shared) (left : ℕ) (r : Result RolloutResponse)
    → handle handler s ≡ r
    → (after_request handler server s (some left)).0
      ≡ answered (write_answer server.payload_capacity r) left s
unfolding after_request answered
after_request-answered handler server s left r h =
    ap (λ r. answered (write_answer server.payload_capacity r) left s) h

pub served-answered :
    (handler : Handler) (server : Transport) (s : Shared) (left : ℕ) (r : Result RolloutResponse)
    → server.is_client ≡ false
    → s.req_sem ≡ left + 1
    → handle handler s ≡ r
    → served handler server s ≡ answered (write_answer server.payload_capacity r) left s
unfolding serve_one
served-answered handler server s left r host waiting h =
    ap (λ b. server_state (throw_if b runtime_error)) host
    ∙ ap (λ o. (after_request handler server s o).0)
        (ap sem_wait_with_timeout waiting ∙ wait_posted left)
    ∙ after_request-answered handler server s left r h
  where
    server_state : Result (Unit {0}) → Shared
    server_state check =
        elim (check >> ok (after_request handler server s (sem_wait_with_timeout s.req_sem))) [
          | err e ↦ s
          | ok x ↦ x.0
        ]

-- The status and the bytes of an answer, as the client reads them.
pub read_answer : Bytes × ℕ → Result RolloutResponse
read_answer (bytes, status) = if status == 0 then deserialize_response bytes else err runtime_error

-- A state with this many responses waiting whose header and buffer hold the answer.
abbrev holding : Bytes × ℕ → Bytes → ℕ → Shared → Shared
holding answer buffer count t = record t {
  hdr = record t.hdr { response_size = length answer.0; response_status = answer.1 };
  response_buffer = copy_in answer.0 buffer;
  resp_sem = count;
}

pub receive_response-holding :
    (answer : Bytes × ℕ) (buffer : Bytes) (count : ℕ) (t : Shared)
    → receive_response (holding answer buffer (count + 1) t)
      ≡ (holding answer buffer count t, read_answer answer)
unfolding after_response copy_in read_answer
receive_response-holding (bytes, status) buffer count t =
    ap (after_response (holding (bytes, status) buffer (count + 1) t)) (wait_posted count)
    ∙ ap
        (λ out. (
          holding (bytes, status) buffer count t,
          if status == 0 then deserialize_response out else err runtime_error,
        ))
        (take_left bytes (drop (length bytes) buffer))

pub write_answer-promised :
    (cap : ℕ) (r : Result RolloutResponse)
    → ((response : RolloutResponse) → r ≡ ok response → ResponseFits response)
    → read_answer (write_answer cap r) ≡ promised cap r
unfolding write_answer read_answer
write_answer-promised cap (err e) fits = refl
write_answer-promised cap (ok response) fits =
    ap (λ out. read_answer (written_or_2 out)) (serialize_response-response_bytes response cap)
    ∙ elim (Bool-cases (ltb cap (length (response_bytes response)))) [
      | inl over ↦ rw over
      | inr room ↦ rw (room, deserialize_response-response_bytes response (fits response refl))
    ]

-- A call of generate is its post and what the client then finds.
pub generate_found :
    (other_process : Shared → Shared) (request : RolloutRequest) (self self' : Transport)
    (s s' s'' : Shared) (r : Result RolloutResponse)
    → post_request request (self, s) ≡ ok (self', s')
    → receive_response (other_process s') ≡ (s'', r)
    → generate other_process request (self, s) ≡ ok ((self', s''), r)
unfolding generate
generate_found other_process request self self' s s' s'' r post found =
    ap (λ posted. posted >>= await_response other_process) post
    ∙ ap (λ seen. ok ((self', seen.0), seen.1)) found

-- Where the request fits the format and the capacity, the handler's replies fit the format, and the
-- server runs serve_one while the client waits: generate returns what the handler replies to the
-- request under the call's identifier, or throws runtime_error exactly if the handler throws or its
-- reply is longer than the server's capacity; both semaphores have the counts they had before.
pub generate-serve_one :
    (handler : Handler) (server self : Transport) (request : RolloutRequest) (s : Shared)
    → self.is_client ≡ true
    → server.is_client ≡ false
    → RequestFits request
    → length (request_bytes request) ≤ self.payload_capacity
    → ((response : RolloutResponse)
        → reply handler (call_id request self) request ≡ ok response
        → ResponseFits response)
    → (state : Transport × Shared) × (generate (served handler server) request (self, s)
        ≡ ok (
          state,
          promised server.payload_capacity (reply handler (call_id request self) request),
        ))
      × (state.1.req_sem ≡ s.req_sem)
      × (state.1.resp_sem ≡ s.resp_sem)
unfolding posted answered
generate-serve_one handler server self request s client host fits room reply_fits =
    let rid = call_id request self in
    let sent = posted request rid s in
    let r = reply handler rid request in
    let answer = write_answer server.payload_capacity r in
    let post = post_request_fits request self s client room in
    let found =
      ap receive_response (
        served-answered handler server sent s.req_sem r host refl
          (handle-posted handler request rid s fits))
      ∙ receive_response-holding answer s.response_buffer s.resp_sem
          (answered answer s.req_sem sent)
      ∙ ap (λ x. (record (answered answer s.req_sem sent) { resp_sem = s.resp_sem }, x))
          (write_answer-promised server.payload_capacity r reply_fits) in
    (_, generate_found (served handler server) request self _ s sent _ _ post.1 found, refl, refl)
