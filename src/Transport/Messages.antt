-- ===== src/Transport/Messages.antt =====
-- RolloutRequest and RolloutResponse, and their four (de)serialisers. A `std::map` is the list of its
-- entries in the order of the keys.
use Prim.Native.Nat.{bit_and, bit_or}
use cverl.Base.{
  ℕ, zero, suc, Bool, true, false, not, List, [], ◌∷◌, ltb, ◌==◌, if◌then◌else◌, length, Bytes,
  Result, ok, ◌>>=◌,
}
use cverl.Transport.Codec.{
  Writer, write_u32, write_u64, write_f64, to_u32, write_string, write_vec, Reader, read_u32,
  read_u64, read_f64, read_string, read_vec,
}

abbrev pub Map : Type 0
Map = List (Bytes × Bytes)

pub record RolloutRequest : Type 0 where
  pub prompts : List Bytes
  pub prompt_token_ids : List (List ℕ)
  pub n : ℕ
  pub max_tokens : ℕ
  pub temperature : ℕ
  pub top_p : ℕ
  pub top_k : ℕ
  pub stop : List Bytes
  pub return_token_ids : Bool
  pub return_logprobs : Bool
  pub seed : ℕ
  pub model : Bytes
  pub extra_params : Map
  pub request_id : ℕ

pub record RolloutSequence : Type 0 where
  pub prompt_index : ℕ
  pub sample_index : ℕ
  pub text : Bytes
  pub token_ids : List ℕ
  pub logprobs : List ℕ
  pub finish_reason : Bytes

pub record RolloutResponse : Type 0 where
  pub request_id : ℕ
  pub sequences : List RolloutSequence
  pub metrics : Map

-- `operator<` of std::string: lexicographic on unsigned bytes.
unfoldable pub bytes_lt : Bytes → Bytes → Bool
bytes_lt _ [] = false
bytes_lt [] (y ∷ ys) = true
bytes_lt (x ∷ xs) (y ∷ ys) =
    let rest = bytes_lt xs ys in if ltb x y then true else if x == y then rest else false

-- `std::map::emplace`: a key that is there keeps its value.
unfoldable pub emplace : Bytes → Bytes → Map → Map
emplace k v [] = (k, v) ∷ []
emplace k v ((j, w) ∷ m) =
    let rest = emplace k v m in
    if bytes_lt j k then (j, w) ∷ rest else if bytes_lt k j then (k, v) ∷ (j, w) ∷ m else (j, w) ∷ m

-- for (const auto& x : xs) write(x);
unfoldable pub write_each {ℓ} :
    {A : Type ℓ} → (A → Writer → Result Writer) → List A → Writer → Result Writer
write_each write [] w = ok w
write_each write (x ∷ xs) w = do w ← write x w; write_each write xs w

-- A size, and the elements.
unfoldable pub write_list {ℓ} :
    {A : Type ℓ} → (A → Writer → Result Writer) → List A → Writer → Result Writer
write_list write xs w = do w ← write_u32 (to_u32 (length xs)) w; write_each write xs w

unfoldable pub write_entry : Bytes × Bytes → Writer → Result Writer
write_entry (k, v) w = do w ← write_string k w; write_string v w

abbrev pub request_flags : RolloutRequest → ℕ
request_flags req =
    let flags : ℕ = if req.return_token_ids then bit_or 0 1 else 0 in
    if req.return_logprobs then bit_or flags 2 else flags

unfoldable pub write_request : RolloutRequest → Writer → Result Writer
write_request req w = do
  w ← write_u64 req.request_id w
  w ← write_u32 req.n w
  w ← write_u32 req.max_tokens w
  w ← write_f64 req.temperature w
  w ← write_f64 req.top_p w
  w ← write_u32 req.top_k w
  w ← write_u64 req.seed w
  w ← write_u32 (request_flags req) w
  w ← write_string req.model w
  w ← write_list write_string req.prompts w
  w ← write_list write_vec req.prompt_token_ids w
  w ← write_list write_string req.stop w
  write_list write_entry req.extra_params w

-- The bytes that the buffer holds behind the call; their number is the value it returns.
unfoldable pub serialize_request : RolloutRequest → ℕ → Result Bytes
serialize_request req cap = do
  w ← write_request req (record { cap = cap; written = [] })
  ok w.written

-- for (i = 0; i < n; ++i) out[i] = read();
unfoldable pub read_each {ℓ} :
    {A : Type ℓ} → (Reader → Result (A × Reader)) → ℕ → Reader → Result (List A × Reader)
read_each read zero r = ok ([], r)
read_each read (suc n) r = do x ← read r; xs ← read_each read n x.1; ok (x.0 ∷ xs.0, xs.1)

unfoldable pub read_list {ℓ} :
    {A : Type ℓ} → (Reader → Result (A × Reader)) → Reader → Result (List A × Reader)
read_list read r = do n ← read_u32 r; read_each read n.0 n.1

-- The loops that read entries and emplace them.
unfoldable pub read_entries : ℕ → Map → Reader → Result (Map × Reader)
read_entries zero m r = ok (m, r)
read_entries (suc n) m r = do
  k ← read_string r
  v ← read_string k.1
  read_entries n (emplace k.0 v.0 m) v.1

unfoldable pub read_map : Reader → Result (Map × Reader)
read_map r = do n ← read_u32 r; read_entries n.0 [] n.1

unfoldable pub read_request : Reader → Result (RolloutRequest × Reader)
read_request r = do
  request_id ← read_u64 r
  n ← read_u32 request_id.1
  max_tokens ← read_u32 n.1
  temperature ← read_f64 max_tokens.1
  top_p ← read_f64 temperature.1
  top_k ← read_u32 top_p.1
  seed ← read_u64 top_k.1
  flags ← read_u32 seed.1
  model ← read_string flags.1
  prompts ← read_list read_string model.1
  prompt_token_ids ← read_list read_vec prompts.1
  stop ← read_list read_string prompt_token_ids.1
  extra_params ← read_map stop.1
  ok (
    record {
      prompts = prompts.0;
      prompt_token_ids = prompt_token_ids.0;
      n = n.0;
      max_tokens = max_tokens.0;
      temperature = temperature.0;
      top_p = top_p.0;
      top_k = top_k.0;
      stop = stop.0;
      return_token_ids = not (bit_and flags.0 1 == 0);
      return_logprobs = not (bit_and flags.0 2 == 0);
      seed = seed.0;
      model = model.0;
      extra_params = extra_params.0;
      request_id = request_id.0;
    },
    extra_params.1,
  )

unfoldable pub deserialize_request : Bytes → Result RolloutRequest
deserialize_request buffer = do x ← read_request buffer; ok x.0

unfoldable pub write_sequence : RolloutSequence → Writer → Result Writer
write_sequence seq w = do
  w ← write_u32 seq.prompt_index w
  w ← write_u32 seq.sample_index w
  w ← write_string seq.text w
  w ← write_vec seq.token_ids w
  w ← write_vec seq.logprobs w
  write_string seq.finish_reason w

unfoldable pub write_response : RolloutResponse → Writer → Result Writer
write_response resp w = do
  w ← write_u64 resp.request_id w
  w ← write_list write_sequence resp.sequences w
  write_list write_entry resp.metrics w

unfoldable pub serialize_response : RolloutResponse → ℕ → Result Bytes
serialize_response resp cap = do
  w ← write_response resp (record { cap = cap; written = [] })
  ok w.written

unfoldable pub read_sequence : Reader → Result (RolloutSequence × Reader)
read_sequence r = do
  prompt_index ← read_u32 r
  sample_index ← read_u32 prompt_index.1
  text ← read_string sample_index.1
  token_ids ← read_vec text.1
  logprobs ← read_vec token_ids.1
  finish_reason ← read_string logprobs.1
  ok (
    record {
      prompt_index = prompt_index.0;
      sample_index = sample_index.0;
      text = text.0;
      token_ids = token_ids.0;
      logprobs = logprobs.0;
      finish_reason = finish_reason.0;
    },
    finish_reason.1,
  )

unfoldable pub read_response : Reader → Result (RolloutResponse × Reader)
read_response r = do
  request_id ← read_u64 r
  sequences ← read_list read_sequence request_id.1
  metrics ← read_map sequences.1
  ok (record { request_id = request_id.0; sequences = sequences.0; metrics = metrics.0 }, metrics.1)

unfoldable pub deserialize_response : Bytes → Result RolloutResponse
deserialize_response buffer = do x ← read_response buffer; ok x.0
