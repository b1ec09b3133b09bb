-- ===== src/Transport/RoundTrip.antt =====
-- The round trip of a request and of a response through the wire format.
use Prim.Native.Nat.{bit_and, bit_or}
use mathlib.Core.List.{append-nil}
use cverl.Base.{
  ℕ, ◌<◌, ◌^◌, ◌≡◌, refl, ap, sym, ◌∙◌, [], ◌++◌, runtime_error, Bool, true, false, not, List, ltb,
  ◌==◌, length, All, ok, err, ◌>>=◌, Bool-cases, inl, inr, arith, if◌then◌else◌,
}
use cverl.Transport.Codec.{read_u32, read_u64, read_f64, read_string, read_vec}
use cverl.Transport.Messages.{
  RolloutRequest, RolloutSequence, RolloutResponse, request_flags, serialize_request, read_list,
  read_map, read_request, deserialize_request, serialize_response, read_sequence, read_response,
  deserialize_response,
}
use cverl.Transport.Encoding.{
  string_bytes, vec_bytes, list_bytes, entry_bytes, request_bytes, sequence_bytes, response_bytes,
  serialize_request-request_bytes, serialize_response-response_bytes,
}
use cverl.Transport.Maps.{read_map-Reads, IsMap, EntriesFit}
use cverl.Transport.Decoding.{
  Reads, seq_read, last_read, read_u32-Reads, read_u64-Reads, read_f64-Reads, read_string-Reads,
  read_vec-Reads, read_list-Reads, AllU32, All-Reads,
}

-- A size that fits the 32-bit word in front of a sequence.
abbrev pub IsShort {ℓ} : {A : Type ℓ} → List A → Type 0
IsShort xs = length xs < 2 ^ 32

-- What the types of the fields and the 32-bit sizes of the format allow.
pub record RequestFits (req : RolloutRequest) : Type 0 where
  pub request_id : req.request_id < 2 ^ 64
  pub n : req.n < 2 ^ 32
  pub max_tokens : req.max_tokens < 2 ^ 32
  pub temperature : req.temperature < 2 ^ 64
  pub top_p : req.top_p < 2 ^ 64
  pub top_k : req.top_k < 2 ^ 32
  pub seed : req.seed < 2 ^ 64
  pub model : IsShort req.model
  pub prompts : IsShort req.prompts × All IsShort req.prompts
  pub prompt_token_ids :
      IsShort req.prompt_token_ids × All (λ v. IsShort v × AllU32 v) req.prompt_token_ids
  pub stop : IsShort req.stop × All IsShort req.stop
  pub extra_params : IsShort req.extra_params × IsMap req.extra_params × EntriesFit req.extra_params

pub record SequenceFits (seq : RolloutSequence) : Type 0 where
  pub prompt_index : seq.prompt_index < 2 ^ 32
  pub sample_index : seq.sample_index < 2 ^ 32
  pub text : IsShort seq.text
  pub token_ids : IsShort seq.token_ids × AllU32 seq.token_ids
  pub logprobs : IsShort seq.logprobs × AllU32 seq.logprobs
  pub finish_reason : IsShort seq.finish_reason

pub record ResponseFits (resp : RolloutResponse) : Type 0 where
  pub request_id : resp.request_id < 2 ^ 64
  pub sequences : IsShort resp.sequences × All SequenceFits resp.sequences
  pub metrics : IsShort resp.metrics × IsMap resp.metrics × EntriesFit resp.metrics

-- The flags that the word carries.
with_flags : ℕ → RolloutRequest → RolloutRequest
with_flags flags req = record req {
  return_token_ids = not (bit_and flags 1 == 0);
  return_logprobs = not (bit_and flags 2 == 0);
}

token_flag :
    (req : RolloutRequest) → not (bit_and (request_flags req) 1 == 0) ≡ req.return_token_ids
token_flag req = elim (Bool-cases req.return_token_ids) [
  | inl h ↦ elim (Bool-cases req.return_logprobs) [
    | inl k ↦ rw (h, k) refl
    | inr k ↦ rw (h, k) refl
  ]
  | inr h ↦ elim (Bool-cases req.return_logprobs) [
    | inl k ↦ rw (h, k) refl
    | inr k ↦ rw (h, k) refl
  ]
]

logprob_flag :
    (req : RolloutRequest) → not (bit_and (request_flags req) 2 == 0) ≡ req.return_logprobs
logprob_flag req = elim (Bool-cases req.return_token_ids) [
  | inl h ↦ elim (Bool-cases req.return_logprobs) [
    | inl k ↦ rw (h, k) refl
    | inr k ↦ rw (h, k) refl
  ]
  | inr h ↦ elim (Bool-cases req.return_logprobs) [
    | inl k ↦ rw (h, k) refl
    | inr k ↦ rw (h, k) refl
  ]
]

flags_kept : (req : RolloutRequest) → with_flags (request_flags req) req ≡ req
unfolding with_flags
flags_kept req =
    λ i. record req { return_token_ids = token_flag req i; return_logprobs = logprob_flag req i }

flags_small : (req : RolloutRequest) → request_flags req < 2 ^ 32
flags_small req = small req.return_token_ids req.return_logprobs
  where
    small :
        (a b : Bool)
        → (let flags : ℕ = if a then bit_or 0 1 else 0 in if b then bit_or flags 2 else flags)
          < 2 ^ 32
    small true true = omega arith
    small true false = omega arith
    small false true = omega arith
    small false false = omega arith

-- The part of a request behind its first string.
lists_read :
    (req : RolloutRequest)
    → RequestFits req
    → Reads
        (λ r. read_list read_string r >>= λ prompts.
          read_list read_vec prompts.1 >>= λ prompt_token_ids.
          read_list read_string prompt_token_ids.1 >>= λ stop. read_map stop.1 >>= λ extra_params.
          ok (
            record req {
              prompts = prompts.0;
              prompt_token_ids = prompt_token_ids.0;
              stop = stop.0;
              return_token_ids = not (bit_and (request_flags req) 1 == 0);
              return_logprobs = not (bit_and (request_flags req) 2 == 0);
              extra_params = extra_params.0;
            },
            extra_params.1,
          ))
        (list_bytes string_bytes req.prompts
          ++ (list_bytes vec_bytes req.prompt_token_ids
              ++ (list_bytes string_bytes req.stop ++ list_bytes entry_bytes req.extra_params)))
        (with_flags (request_flags req) req)
unfolding with_flags
lists_read req fits =
    seq_read (read_list read_string) _ _ _ _ _
      (read_list-Reads read_string string_bytes req.prompts fits.prompts.0
        (All-Reads IsShort read_string string_bytes read_string-Reads req.prompts fits.prompts.1))
      (seq_read (read_list read_vec) _ _ _ _ _
        (read_list-Reads read_vec vec_bytes req.prompt_token_ids fits.prompt_token_ids.0 (
          All-Reads (λ v. IsShort v × AllU32 v) read_vec vec_bytes (λ v h. read_vec-Reads v h.0 h.1)
            req.prompt_token_ids fits.prompt_token_ids.1))
        (seq_read (read_list read_string) _ _ _ _ _
          (read_list-Reads read_string string_bytes req.stop fits.stop.0
            (All-Reads IsShort read_string string_bytes read_string-Reads req.stop fits.stop.1))
          (last_read read_map _ _ _ (
            read_map-Reads req.extra_params fits.extra_params.0 fits.extra_params.1
              fits.extra_params.2))))

read_request-Reads :
    (req : RolloutRequest)
    → RequestFits req
    → Reads read_request (request_bytes req) (with_flags (request_flags req) req)
unfolding read_request request_bytes
read_request-Reads req fits = seq_read read_u64 _ _ _ _ _ (read_u64-Reads _ fits.request_id) (
    seq_read read_u32 _ _ _ _ _ (read_u32-Reads _ fits.n) (
      seq_read read_u32 _ _ _ _ _ (read_u32-Reads _ fits.max_tokens) (
        seq_read read_f64 _ _ _ _ _ (read_f64-Reads _ fits.temperature) (
          seq_read read_f64 _ _ _ _ _ (read_f64-Reads _ fits.top_p) (
            seq_read read_u32 _ _ _ _ _ (read_u32-Reads _ fits.top_k) (
              seq_read read_u64 _ _ _ _ _ (read_u64-Reads _ fits.seed) (
                seq_read read_u32 _ _ _ _ _ (read_u32-Reads _ (flags_small req)) (
                  seq_read read_string _ _ _ _ _ (read_string-Reads req.model fits.model)
                    (lists_read req fits)))))))))

-- The wire format of a request whose fields fit is read back as that request.
pub deserialize_request-request_bytes :
    (req : RolloutRequest) → RequestFits req → deserialize_request (request_bytes req) ≡ ok req
unfolding deserialize_request
deserialize_request-request_bytes req fits =
    let whole : read_request (request_bytes req) ≡ ok (with_flags (request_flags req) req, []) =
      ap read_request (sym (append-nil (request_bytes req))) ∙ read_request-Reads req fits [] in
    rw (whole, flags_kept req)

read_sequence-Reads :
    (seq : RolloutSequence) → SequenceFits seq → Reads read_sequence (sequence_bytes seq) seq
unfolding read_sequence sequence_bytes
read_sequence-Reads seq fits = seq_read read_u32 _ _ _ _ _ (read_u32-Reads _ fits.prompt_index) (
    seq_read read_u32 _ _ _ _ _ (read_u32-Reads _ fits.sample_index) (
      seq_read read_string _ _ _ _ _ (read_string-Reads seq.text fits.text) (
        seq_read read_vec _ _ _ _ _ (read_vec-Reads seq.token_ids fits.token_ids.0 fits.token_ids.1)
          (seq_read read_vec _ _ _ _ _ (read_vec-Reads seq.logprobs fits.logprobs.0 fits.logprobs.1)
            (last_read read_string _ _ _
              (read_string-Reads seq.finish_reason fits.finish_reason))))))

read_response-Reads :
    (resp : RolloutResponse) → ResponseFits resp → Reads read_response (response_bytes resp) resp
unfolding read_response response_bytes
read_response-Reads resp fits = seq_read read_u64 _ _ _ _ _ (read_u64-Reads _ fits.request_id) (
    seq_read (read_list read_sequence) _ _ _ _ _
      (read_list-Reads read_sequence sequence_bytes resp.sequences fits.sequences.0 (
        All-Reads SequenceFits read_sequence sequence_bytes read_sequence-Reads resp.sequences
          fits.sequences.1))
      (last_read read_map _ _ _
        (read_map-Reads resp.metrics fits.metrics.0 fits.metrics.1 fits.metrics.2)))

pub deserialize_response-response_bytes :
    (resp : RolloutResponse)
    → ResponseFits resp
    → deserialize_response (response_bytes resp) ≡ ok resp
unfolding deserialize_response
deserialize_response-response_bytes resp fits =
    let whole : read_response (response_bytes resp) ≡ ok (resp, []) =
      ap read_response (sym (append-nil (response_bytes resp)))
      ∙ read_response-Reads resp fits [] in
    rw whole

-- For a request whose numbers fit the words of the format and whose strings, lists and map fit its
-- 32-bit sizes, with the map's keys ascending: serialising throws runtime_error if the wire format
-- is longer than the capacity and gives the wire format otherwise, and the wire format deserialises
-- to the same request.
pub deserialize_request-serialize_request :
    (req : RolloutRequest) (cap : ℕ)
    → RequestFits req
    → (serialize_request req cap ≡ (
        if ltb cap (length (request_bytes req)) then err runtime_error else ok (request_bytes req)))
      × (deserialize_request (request_bytes req) ≡ ok req)
deserialize_request-serialize_request req cap fits =
    (serialize_request-request_bytes req cap, deserialize_request-request_bytes req fits)

-- For a response whose numbers fit the words of the format and whose strings, lists and map fit its
-- 32-bit sizes, with the map's keys ascending: serialising throws runtime_error if the wire format
-- is longer than the capacity and gives the wire format otherwise, and the wire format deserialises
-- to the same response.
pub deserialize_response-serialize_response :
    (resp : RolloutResponse) (cap : ℕ)
    → ResponseFits resp
    → (serialize_response resp cap ≡ (
        if ltb cap (length (response_bytes resp))
        then err runtime_error
        else ok (response_bytes resp)))
      × (deserialize_response (response_bytes resp) ≡ ok resp)
deserialize_response-serialize_response resp cap fits =
    (serialize_response-response_bytes resp cap, deserialize_response-response_bytes resp fits)
