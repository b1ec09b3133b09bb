-- ===== src/Transport/Exchange.antt =====
-- The round trip between a client and a server: `generate` and `serve_one`, over the header and the
-- payloads that the two processes share and the two semaphores. What the other process does while
-- `generate` waits is a function on the shared state. A wait takes one count of the semaphore or, if
-- there is none, times out. `sem_post` is taken to succeed. The bytes that a serialisation leaves in a
-- payload before it throws are not modelled: the state of the model ends with such an exception in
-- `generate`, and no call reads such bytes of a response.
use cverl.Base.{
  ℕ, zero, suc, ◌+◌, Bool, false, not, [], ◌++◌, Option, none, some, ◌==◌, if◌then◌else◌, length,
  take, drop, Bytes, Result, ok, err, ◌>>=◌, ◌>>◌, throw_if, runtime_error,
}
use cverl.Transport.Messages.{
  RolloutRequest, RolloutResponse, serialize_request, deserialize_request, serialize_response,
  deserialize_response,
}

pub record SharedTransportHeader : Type 0 where
  pub request_size : ℕ
  pub response_size : ℕ
  pub request_id : ℕ
  pub response_status : ℕ

-- The region behind the header, and the counts of the semaphores.
pub record Shared : Type 0 where
  pub hdr : SharedTransportHeader
  pub request_buffer : Bytes
  pub response_buffer : Bytes
  pub req_sem : ℕ
  pub resp_sem : ℕ

-- One process's end of the transport.
pub record Transport : Type 0 where
  pub is_client : Bool
  pub payload_capacity : ℕ
  pub next_request_id : ℕ

abbrev pub Handler : Type 0
Handler = RolloutRequest → Result RolloutResponse

-- The bytes that a writer copies to the front of a buffer.
unfoldable pub copy_in : Bytes → Bytes → Bytes
copy_in bytes buffer = bytes ++ drop (length bytes) buffer

-- `sem_wait_with_timeout`: the count left, or a timeout.
unfoldable pub sem_wait_with_timeout : ℕ → Option ℕ
sem_wait_with_timeout zero = none
sem_wait_with_timeout (suc n) = some n

-- `generate` up to its `sem_post`.
unfoldable pub post_request : RolloutRequest → Transport × Shared → Result (Transport × Shared)
post_request request (self, s) = do
  throw_if (not self.is_client) runtime_error
  let given = not (request.request_id == 0)
  let rid = if given then request.request_id else self.next_request_id
  let next = if given then self.next_request_id else self.next_request_id + 1
  bytes ← serialize_request request self.payload_capacity
  ok (
    record self { next_request_id = next },
    record s {
      hdr = record s.hdr { request_id = rid; request_size = length bytes };
      request_buffer = copy_in bytes s.request_buffer;
      req_sem = s.req_sem + 1;
    },
  )

-- `generate` behind its wait.
unfoldable pub after_response : Shared → Option ℕ → Shared × Result RolloutResponse
after_response s none = (s, err runtime_error)
after_response s (some left) = (
  record s { resp_sem = left },
  if s.hdr.response_status == 0
      then deserialize_response (take s.hdr.response_size s.response_buffer)
      else err runtime_error,
)

abbrev pub receive_response : Shared → Shared × Result RolloutResponse
receive_response s = after_response s (sem_wait_with_timeout s.resp_sem)

-- `generate` behind its `sem_post`.
abbrev pub await_response :
    (Shared → Shared) → Transport × Shared → Result ((Transport × Shared) × Result RolloutResponse)
await_response other_process (self, s) =
    let received = receive_response (other_process s) in ok ((self, received.0), received.1)

unfoldable pub generate :
    (Shared → Shared)
    → RolloutRequest
    → Transport × Shared
    → Result ((Transport × Shared) × Result RolloutResponse)
generate other_process request state = post_request request state >>= await_response other_process

-- The first try block: the response, or status 1.
unfoldable pub handle : Handler → Shared → Result RolloutResponse
handle handler s = do
  req ← deserialize_request (take s.hdr.request_size s.request_buffer)
  let req = if req.request_id == 0 then record req { request_id = s.hdr.request_id } else req
  response ← handler req
  ok (
      if response.request_id == 0
      then record response { request_id = req.request_id }
      else response)

abbrev pub written_or_2 : Result Bytes → Bytes × ℕ
written_or_2 (err e) = ([], 2)
written_or_2 (ok bytes) = (bytes, 0)

-- The second try block: the bytes, and the status.
unfoldable pub write_answer : ℕ → Result RolloutResponse → Bytes × ℕ
write_answer cap (err e) = ([], 1)
write_answer cap (ok response) = written_or_2 (serialize_response response cap)

-- `serve_one` behind its wait.
unfoldable pub after_request : Handler → Transport → Shared → Option ℕ → Shared × Bool
after_request handler self s none = (s, false)
after_request handler self s (some left) =
    let answer = write_answer self.payload_capacity (handle handler s) in
    (
      record s {
        hdr = record s.hdr { response_size = length answer.0; response_status = answer.1 };
        response_buffer = copy_in answer.0 s.response_buffer;
        req_sem = left;
        resp_sem = s.resp_sem + 1;
      },
      answer.1 == 0,
    )

unfoldable pub serve_one : Handler → Transport → Shared → Result (Shared × Bool)
serve_one handler self s = do
  throw_if self.is_client runtime_error
  ok (after_request handler self s (sem_wait_with_timeout s.req_sem))
