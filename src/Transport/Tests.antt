-- ===== src/Transport/Tests.antt =====
-- Runs of the serialisers and of the round trip on small messages, and the theorems applied to them.
use cverl.Base.{
  ℕ, ◌≤◌, ◌≡◌, refl, subst, true, false, [], ◌∷◌, ltb, if◌then◌else◌, length, codes, ok, err,
  runtime_error, arith, ok-injective, get_elem?, some,
}
use cverl.Transport.Codec.{le_bytes, pack}
use cverl.Transport.Messages.{
  bytes_lt, RolloutRequest, RolloutSequence, RolloutResponse, serialize_request,
  deserialize_request, serialize_response, deserialize_response,
}
use cverl.Transport.Encoding.{request_bytes, sequence_bytes, response_bytes}
use cverl.Transport.RoundTrip.{
  RequestFits, ResponseFits, deserialize_request-serialize_request,
  deserialize_response-serialize_response,
}
use cverl.Transport.Exchange.{Shared, Transport, Handler, generate}
use cverl.Transport.Loopback.{LoopbackOptions, fnv_loop, fnv1a64, loopback_generate}
use cverl.Transport.Order.{loopback_generate_order}
use cverl.Transport.Protocol.{reply, promised, served, generate-serve_one}
use cverl.Transport.Stale.{generate_late}

abbrev request : RolloutRequest
request = record {
  prompts = codes "2+3" ∷ codes "" ∷ [];
  prompt_token_ids = (50 ∷ 43 ∷ 4294967295 ∷ []) ∷ [] ∷ [];
  n = 2;
  max_tokens = 512;
  temperature = 4607182418800017408;
  top_p = 4607182418800017408;
  top_k = 4294967295;
  stop = codes "\n" ∷ [];
  return_token_ids = false;
  return_logprobs = true;
  seed = 7;
  model = codes "m";
  extra_params = (codes "a", codes "1") ∷ (codes "ab", codes "") ∷ [];
  request_id = 0;
}

request-RequestFits : RequestFits request
unfolding bytes_lt
request-RequestFits = record {
  request_id = omega arith;
  n = omega arith;
  max_tokens = omega arith;
  temperature = omega arith;
  top_p = omega arith;
  top_k = omega arith;
  seed = omega arith;
  model = omega arith;
  prompts = (omega arith, (omega arith, (omega arith, tt)));
  prompt_token_ids = (
    omega arith,
    ((omega arith, (omega arith, (omega arith, (omega arith, tt)))), ((omega arith, tt), tt)),
  );
  stop = (omega arith, (omega arith, tt));
  extra_params = (
    omega arith,
    ((refl, tt), (tt, tt)),
    ((omega arith, omega arith), ((omega arith, omega arith), tt)),
  );
}

abbrev response : RolloutResponse
response = record {
  request_id = 0;
  sequences =
      (record {
        prompt_index = 0;
        sample_index = 1;
        text = codes "5";
        token_ids = 53 ∷ [];
        logprobs = 3204448256 ∷ [];
        finish_reason = codes "stop";
      })
      ∷ [];
  metrics = (codes "lag", codes "0") ∷ [];
}

abbrev stamped : ℕ → RolloutResponse
stamped rid = record response { request_id = rid }

stamped-ResponseFits : ResponseFits (stamped 1)
stamped-ResponseFits = record {
  request_id = omega arith;
  sequences = (
    omega arith,
    (
      record {
        prompt_index = omega arith;
        sample_index = omega arith;
        text = omega arith;
        token_ids = (omega arith, (omega arith, tt));
        logprobs = (omega arith, (omega arith, tt));
        finish_reason = omega arith;
      },
      tt,
    ),
  );
  metrics = (omega arith, (tt, tt), ((omega arith, omega arith), tt));
}

-- A client and a server over an idle region, and a handler that always gives the response.
abbrev client : Transport
client = record { is_client = true; payload_capacity = 200; next_request_id = 1 }

abbrev server : Transport
server = record { is_client = false; payload_capacity = 200; next_request_id = 1 }

abbrev idle : Shared
idle = record {
  hdr = record { request_size = 0; response_size = 0; request_id = 0; response_status = 0 };
  request_buffer = [];
  response_buffer = [];
  req_sem = 0;
  resp_sem = 0;
}

abbrev handler : Handler
handler req = ok response

size_of_request : length (request_bytes request) ≡ 125
unfolding request_bytes le_bytes pack
size_of_request = refl

request_fits : length (request_bytes request) ≤ 200
request_fits = omega (arith, size_of_request)

reply_fits : (r : RolloutResponse) → reply handler 1 request ≡ ok r → ResponseFits r
reply_fits r h = subst ResponseFits (ok-injective h) stamped-ResponseFits

deserialize_request-serialize_request_example :
    (serialize_request request 200 ≡ (
      if ltb 200 (length (request_bytes request))
      then err runtime_error
      else ok (request_bytes request)))
    × (deserialize_request (request_bytes request) ≡ ok request)
deserialize_request-serialize_request_example =
    deserialize_request-serialize_request request 200 request-RequestFits

deserialize_response-serialize_response_example :
    (serialize_response (stamped 1) 200 ≡ (
      if ltb 200 (length (response_bytes (stamped 1)))
      then err runtime_error
      else ok (response_bytes (stamped 1))))
    × (deserialize_response (response_bytes (stamped 1)) ≡ ok (stamped 1))
deserialize_response-serialize_response_example =
    deserialize_response-serialize_response (stamped 1) 200 stamped-ResponseFits

generate-serve_one_example :
    (state : Transport × Shared) × (generate (served handler server) request (client, idle)
      ≡ ok (state, promised 200 (reply handler 1 request)))
    × (state.1.req_sem ≡ 0)
    × (state.1.resp_sem ≡ 0)
generate-serve_one_example =
    generate-serve_one handler server client request idle refl refl request-RequestFits request_fits
      reply_fits

generate_late_example :
    (state later : Transport × Shared) × (generate (λ s. s) request (client, idle)
      ≡ ok (state, err runtime_error))
    × (generate (λ s. s) request (state.0, served handler server state.1)
        ≡ ok (later, promised 200 (reply handler 1 request)))
generate_late_example =
    generate_late handler server client request request idle refl refl refl request-RequestFits
      request_fits request_fits reply_fits

-- The promise is the stamped response.
promised_response : promised 200 (reply handler 1 request) ≡ ok (stamped 1)
unfolding response_bytes sequence_bytes le_bytes pack
promised_response = refl

abbrev loopback : LoopbackOptions
loopback = record { completion_suffix = codes "=5"; synthesize_token_ids = true }

-- The hashes of the empty text and of "a".
fnv1a64_runs :
    (fnv1a64 (codes "") 0 ≡ 1469598103934665603) × (fnv1a64 (codes "a") 0 ≡ 4953267810257967366)
unfolding fnv1a64 fnv_loop
fnv1a64_runs = (refl, refl)

loopback_generate_order_example :
    (seq : RolloutSequence) × (get_elem? (loopback_generate loopback request).sequences 1
      ≡ some seq)
    × (seq.prompt_index ≡ 0)
    × (seq.sample_index ≡ 1)
    × (seq.text ≡ codes "2+3=5")
    × (length (loopback_generate loopback request).sequences ≡ 4)
    × ((loopback_generate loopback request).request_id ≡ 0)
loopback_generate_order_example =
    loopback_generate_order loopback request 0 1 (codes "2+3") refl (omega arith) (omega arith)
