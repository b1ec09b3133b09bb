-- ===== src/Transport/Encoding.antt =====
-- The wire format written out, and what the writer does: all of a message, or an exception where the
-- message does not fit.
use mathlib.Core.List.{append_assoc, append-nil}
use cverl.Base.{
  ℕ, ◌+◌, ◌≤◌, ◌≡◌, ◌⊎◌, refl, ap, ◌∙◌, List, [], ◌∷◌, ◌++◌, ltb, if◌then◌else◌, length,
  length-append, Bytes, Result, ok, err, ◌>>=◌, runtime_error, Bool-cases, inl, inr, arith,
}
use cverl.Transport.Codec.{le_bytes, Writer, write_bytes, to_u32, write_string, write_vec, pack}
use cverl.Transport.Messages.{
  RolloutRequest, RolloutSequence, RolloutResponse, write_each, write_list, write_entry,
  request_flags, write_request, serialize_request, write_sequence, write_response,
  serialize_response,
}

abbrev pub string_bytes : Bytes → Bytes
string_bytes s = le_bytes 4 (to_u32 (length s)) ++ s

abbrev pub vec_bytes : List ℕ → Bytes
vec_bytes v = le_bytes 4 (to_u32 (length v)) ++ pack v

abbrev pub each_bytes {ℓ} : {A : Type ℓ} → (A → Bytes) → List A → Bytes
each_bytes bytes [] = []
each_bytes bytes (x ∷ xs) = bytes x ++ each_bytes bytes xs

abbrev pub list_bytes {ℓ} : {A : Type ℓ} → (A → Bytes) → List A → Bytes
list_bytes bytes xs = le_bytes 4 (to_u32 (length xs)) ++ each_bytes bytes xs

abbrev pub entry_bytes : Bytes × Bytes → Bytes
entry_bytes (k, v) = string_bytes k ++ string_bytes v

unfoldable pub request_bytes : RolloutRequest → Bytes
request_bytes req =
    le_bytes 8 req.request_id
    ++ (le_bytes 4 req.n
        ++ (le_bytes 4 req.max_tokens
            ++ (le_bytes 8 req.temperature
                ++ (le_bytes 8 req.top_p
                    ++ (le_bytes 4 req.top_k
                        ++ (le_bytes 8 req.seed
                            ++ (le_bytes 4 (request_flags req)
                                ++ (string_bytes req.model
                                    ++ (list_bytes string_bytes req.prompts
                                        ++ (list_bytes vec_bytes req.prompt_token_ids
                                            ++ (list_bytes string_bytes req.stop
                                                ++ list_bytes entry_bytes
                                                    req.extra_params)))))))))))

unfoldable pub sequence_bytes : RolloutSequence → Bytes
sequence_bytes seq =
    le_bytes 4 seq.prompt_index
    ++ (le_bytes 4 seq.sample_index
        ++ (string_bytes seq.text
            ++ (vec_bytes seq.token_ids
                ++ (vec_bytes seq.logprobs ++ string_bytes seq.finish_reason))))

unfoldable pub response_bytes : RolloutResponse → Bytes
response_bytes resp =
    le_bytes 8 resp.request_id
    ++ (list_bytes sequence_bytes resp.sequences ++ list_bytes entry_bytes resp.metrics)

-- On a writer within its capacity the call writes these bytes, all of them or none.
abbrev pub Writes : (Writer → Result Writer) → Bytes → Type 0
Writes write bytes = (w : Writer) → length w.written ≤ w.cap → write w ≡ write_bytes bytes w

write_bytes-append :
    (a b : Bytes) (w : Writer) → (write_bytes a w >>= write_bytes b) ≡ write_bytes (a ++ b) w
unfolding write_bytes
write_bytes-append a b w =
    ground (arith, length-append a b, length-append w.written a, append_assoc w.written a b)

write_bytes-cases :
    (a : Bytes) (w : Writer)
    → (write_bytes a w ≡ err runtime_error)
      ⊎ ((w' : Writer) × (write_bytes a w ≡ ok w') × (length w'.written ≤ w'.cap))
unfolding write_bytes
write_bytes-cases a w = elim (Bool-cases (ltb w.cap (length w.written + length a))) [
  | inl over ↦ inl (rw over)
  | inr fits ↦
      inr
        (record w { written = w.written ++ a }, rw fits, ground (arith, length-append w.written a))
]

seq_written :
    (f g : Writer → Result Writer) (a b : Bytes)
    → Writes f a
    → Writes g b
    → Writes (λ w. f w >>= g) (a ++ b)
seq_written f g a b hf hg w fits =
    ap (λ (m : Result Writer). m >>= g) (hf w fits) ∙ rest ∙ write_bytes-append a b w
  where
    rest : (write_bytes a w >>= g) ≡ (write_bytes a w >>= write_bytes b)
    rest = elim (write_bytes-cases a w) [
      | inl over ↦ rw over
      | inr (w', done, fits') ↦ rw done (hg w' fits')
    ]

bytes_written : (a : Bytes) → Writes (write_bytes a) a
bytes_written a w fits = refl

nothing_written : Writes (λ w. ok w) []
unfolding write_bytes
nothing_written w fits = ground (arith, append-nil w.written)

write_string-Writes : (s : Bytes) → Writes (write_string s) (string_bytes s)
unfolding write_string
write_string-Writes s = seq_written _ _ _ _ (bytes_written _) (bytes_written s)

write_vec-Writes : (v : List ℕ) → Writes (write_vec v) (vec_bytes v)
unfolding write_vec
write_vec-Writes v = seq_written _ _ _ _ (bytes_written _) (bytes_written (pack v))

write_entry-Writes : (e : Bytes × Bytes) → Writes (write_entry e) (entry_bytes e)
unfolding write_entry
write_entry-Writes (k, v) = seq_written _ _ _ _ (write_string-Writes k) (write_string-Writes v)

module _ {ℓ} {A : Type ℓ} (write : A → Writer → Result Writer) (bytes : A → Bytes)
    (written : (x : A) → Writes (write x) (bytes x)) where
  write_each-Writes : (xs : List A) → Writes (write_each write xs) (each_bytes bytes xs)
  unfolding write_each
  write_each-Writes [] = nothing_written
  write_each-Writes (x ∷ xs) = seq_written _ _ _ _ (written x) (write_each-Writes xs)

  write_list-Writes : (xs : List A) → Writes (write_list write xs) (list_bytes bytes xs)
  unfolding write_list
  write_list-Writes xs = seq_written _ _ _ _ (bytes_written _) (write_each-Writes xs)

-- The part of a request behind its eight words.
request_lists-Writes :
    (req : RolloutRequest)
    → Writes
        (λ w. write_string req.model w >>= λ w. write_list write_string req.prompts w >>= λ w.
          write_list write_vec req.prompt_token_ids w >>= λ w.
          write_list write_string req.stop w >>= λ w. write_list write_entry req.extra_params w)
        (string_bytes req.model
          ++ (list_bytes string_bytes req.prompts
              ++ (list_bytes vec_bytes req.prompt_token_ids
                  ++ (list_bytes string_bytes req.stop
                      ++ list_bytes entry_bytes req.extra_params))))
request_lists-Writes req = seq_written _ _ _ _ (write_string-Writes req.model) (
    seq_written _ _ _ _ (write_list-Writes _ _ write_string-Writes req.prompts) (
      seq_written _ _ _ _ (write_list-Writes _ _ write_vec-Writes req.prompt_token_ids) (
        seq_written _ _ _ _ (write_list-Writes _ _ write_string-Writes req.stop)
          (write_list-Writes _ _ write_entry-Writes req.extra_params))))

write_request-Writes : (req : RolloutRequest) → Writes (write_request req) (request_bytes req)
unfolding write_request request_bytes
write_request-Writes req = seq_written _ _ _ _ (bytes_written _) (
    seq_written _ _ _ _ (bytes_written _) (
      seq_written _ _ _ _ (bytes_written _) (
        seq_written _ _ _ _ (bytes_written _) (
          seq_written _ _ _ _ (bytes_written _) (
            seq_written _ _ _ _ (bytes_written _) (
              seq_written _ _ _ _ (bytes_written _)
                (seq_written _ _ _ _ (bytes_written _) (request_lists-Writes req))))))))

write_sequence-Writes : (seq : RolloutSequence) → Writes (write_sequence seq) (sequence_bytes seq)
unfolding write_sequence sequence_bytes
write_sequence-Writes seq = seq_written _ _ _ _ (bytes_written _) (
    seq_written _ _ _ _ (bytes_written _) (
      seq_written _ _ _ _ (write_string-Writes seq.text) (
        seq_written _ _ _ _ (write_vec-Writes seq.token_ids) (
          seq_written _ _ _ _ (write_vec-Writes seq.logprobs)
            (write_string-Writes seq.finish_reason)))))

write_response-Writes :
    (resp : RolloutResponse) → Writes (write_response resp) (response_bytes resp)
unfolding write_response response_bytes
write_response-Writes resp = seq_written _ _ _ _ (bytes_written _) (
    seq_written _ _ _ _ (write_list-Writes _ _ write_sequence-Writes resp.sequences)
      (write_list-Writes _ _ write_entry-Writes resp.metrics))

from_empty :
    (write : Writer → Result Writer) (bytes : Bytes) (cap : ℕ)
    → Writes write bytes
    → (write (record { cap = cap; written = [] }) >>= λ w. ok w.written)
      ≡ (if ltb cap (length bytes) then err runtime_error else ok bytes)
unfolding write_bytes
from_empty write bytes cap h =
    let z : 0 + length bytes ≡ length bytes = omega arith in
    rw (h (record { cap = cap; written = [] }) (omega arith), z) (ground arith)

-- A request is serialised to its wire format if that fits the capacity, and throws otherwise.
pub serialize_request-request_bytes :
    (req : RolloutRequest) (cap : ℕ)
    → serialize_request req cap
      ≡ (if ltb cap (length (request_bytes req)) then err runtime_error else ok (request_bytes req))
unfolding serialize_request
serialize_request-request_bytes req cap = from_empty _ _ cap (write_request-Writes req)

pub serialize_response-response_bytes :
    (resp : RolloutResponse) (cap : ℕ)
    → serialize_response resp cap ≡ (
        if ltb cap (length (response_bytes resp))
        then err runtime_error
        else ok (response_bytes resp))
unfolding serialize_response
serialize_response-response_bytes resp cap = from_empty _ _ cap (write_response-Writes resp)
