-- ===== src/Transport/Stale.antt =====
-- A reply that comes after the client's timeout.
use cverl.Base.{◌≤◌, ◌≡◌, refl, ap, ◌∙◌, true, false, length, ok, err, runtime_error}
use cverl.Transport.Messages.{RolloutRequest, RolloutResponse}
use cverl.Transport.Encoding.{request_bytes}
use cverl.Transport.RoundTrip.{RequestFits, ResponseFits}
use cverl.Transport.Exchange.{
  Shared, Transport, Handler, copy_in, sem_wait_with_timeout, receive_response, generate,
  write_answer, after_response,
}
use cverl.Transport.Protocol.{
  call_id, reply, promised, served, posted, answered, post_request_fits, handle-posted,
  served-answered, read_answer, receive_response-holding, write_answer-promised, generate_found,
}

-- Where no response is waiting and both requests fit the capacity, the first and the handler's
-- replies to it the format: if the server is late, so that the first call times out, then answers,
-- and the second call's wait ends before the server runs again, the second call returns what the
-- handler replied to the first request, or the exception that this reply left.
pub generate_late :
    (handler : Handler) (server self : Transport) (first second : RolloutRequest) (s : Shared)
    → self.is_client ≡ true
    → server.is_client ≡ false
    → s.resp_sem ≡ 0
    → RequestFits first
    → length (request_bytes first) ≤ self.payload_capacity
    → length (request_bytes second) ≤ self.payload_capacity
    → ((response : RolloutResponse)
        → reply handler (call_id first self) first ≡ ok response
        → ResponseFits response)
    → (state later : Transport × Shared) × (generate (λ s. s) first (self, s)
        ≡ ok (state, err runtime_error))
      × (generate (λ s. s) second (state.0, served handler server state.1)
          ≡ ok (later, promised server.payload_capacity (reply handler (call_id first self) first)))
unfolding posted answered copy_in after_response sem_wait_with_timeout
generate_late handler server self first second s client host idle fits room room' reply_fits =
    let rid = call_id first self in
    let sent = posted first rid s in
    let r = reply handler rid first in
    let answer = write_answer server.payload_capacity r in
    let post = post_request_fits first self s client room in
    let self' = record self { next_request_id = post.0 } in
    let late =
      served-answered handler server sent s.req_sem r host refl
        (handle-posted handler first rid s fits) in
    let post' = post_request_fits second self' (answered answer s.req_sem sent) client room' in
    let sent' = posted second (call_id second self') (answered answer s.req_sem sent) in
    let timed_out : receive_response sent ≡ (sent, err runtime_error) =
      ap (λ n. after_response sent (sem_wait_with_timeout n)) idle in
    let stale : receive_response sent'
        ≡ (record sent' { resp_sem = s.resp_sem }, read_answer answer) =
      receive_response-holding answer s.response_buffer s.resp_sem sent' in
    (
      (self', sent),
      (record self' { next_request_id = post'.0 }, record sent' { resp_sem = s.resp_sem }),
      generate_found (λ s. s) first self self' s sent sent _ post.1 timed_out,
      ap (λ t. generate (λ s. s) second (self', t)) late
          ∙ generate_found (λ s. s) second self' _ (answered answer s.req_sem sent) sent' _ _
              post'.1
              (stale
                ∙ ap (λ x. (record sent' { resp_sem = s.resp_sem }, x))
                    (write_answer-promised server.payload_capacity r reply_fits)),
    )
