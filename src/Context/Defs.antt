-- ===== src/Context/Defs.antt =====
-- The split of a sequence over a context group, and the ring in which its ranks pass their blocks on.
-- A tensor is what these functions see of it: whether it is defined, its dimensions, and its rows, the
-- parts along the sequence dimension in order. Sizes and ranks are natural where the code has tested
-- or made them; none exceeds an int64_t.
use mathlib.Core.List.{flat_map}
use cverl.Base.{
  ℕ, suc, ◌+◌, ◌-◌, ◌*◌, ◌/◌, ◌%◌, min, Bool, not, ◌||◌, none, some, List, [], ◌∷◌, ◌++◌, map, ℤ,
  pos, negsuc, minus_one, pos_part, ltb_ℤ, leb_ℤ, ltb, leb, ◌==◌, if◌then◌else◌, length, get_elem?,
  take, drop, replicate, range, Result, ok, err, ◌>>=◌, ◌>>◌, throw_if, invalid_argument,
}

pub record Input (Row : Type 0) : Type 0 where
  pub defined : Bool
  pub dim : ℕ
  pub rows : List Row

unfoldable pub validate_context_rank : ℤ → ℤ → Result (Unit {0})
validate_context_rank context_rank context_parallel =
    throw_if
      (leb_ℤ context_parallel (pos 0)
        || (ltb_ℤ context_rank (pos 0) || leb_ℤ context_parallel context_rank))
      invalid_argument

-- `dim += input.dim()` for a negative dim; a sum that is negative still stands for any.
abbrev pub counted_dim : ℕ → ℤ → ℤ
counted_dim dims (pos d) = pos d
counted_dim dims (negsuc d) = if ltb d dims then pos (dims - suc d) else minus_one

unfoldable pub normalize_sequence_dim : {Row : Type 0} → Input Row → ℤ → Result ℕ
normalize_sequence_dim input sequence_dim = do
  throw_if (not input.defined) invalid_argument
  let dim = counted_dim input.dim sequence_dim
  throw_if (ltb_ℤ dim (pos 0) || leb_ℤ (pos input.dim) dim) invalid_argument
  ok (pos_part dim)

pub record ContextShardRange : Type 0 where
  pub begin : ℕ
  pub end : ℕ
  pub padded_end : ℕ

-- What the two functions below return behind their tests.
abbrev pub padded_length : ℕ → ℕ → ℕ
padded_length sequence_length context_parallel =
    let remainder = sequence_length % context_parallel in
    if remainder == 0 then sequence_length else sequence_length + context_parallel - remainder

abbrev pub shard_range : ℕ → ℕ → ℕ → ContextShardRange
shard_range sequence_length context_rank context_parallel =
    let shard = padded_length sequence_length context_parallel / context_parallel in
    let padded_begin = context_rank * shard in
    record {
      begin = min padded_begin sequence_length;
      end = min (padded_begin + shard) sequence_length;
      padded_end = padded_begin + shard;
    }

unfoldable pub context_parallel_padded_length : ℤ → ℤ → Result ℕ
context_parallel_padded_length sequence_length context_parallel = do
  throw_if (ltb_ℤ sequence_length (pos 0)) invalid_argument
  throw_if (leb_ℤ context_parallel (pos 0)) invalid_argument
  ok (padded_length (pos_part sequence_length) (pos_part context_parallel))

unfoldable pub context_parallel_sequence_range : ℤ → ℤ → ℤ → Result ContextShardRange
context_parallel_sequence_range sequence_length context_rank context_parallel = do
  validate_context_rank context_rank context_parallel
  padded ← context_parallel_padded_length sequence_length context_parallel
  ok (shard_range (pos_part sequence_length) (pos_part context_rank) (pos_part context_parallel))

module _ {Row : Type 0} where
  unfoldable pub context_parallel_slice : Input Row → ℤ → ℤ → ℤ → Result (Input Row)
  context_parallel_slice input context_rank context_parallel sequence_dim = do
    validate_context_rank context_rank context_parallel
    dim ← normalize_sequence_dim input sequence_dim
    let seq = length input.rows
    throw_if (not (seq % pos_part context_parallel == 0)) invalid_argument
    let shard = seq / pos_part context_parallel
    ok (record input { rows = take shard (drop (pos_part context_rank * shard) input.rows) })

  -- The copy of the valid rows over the first ones of `out`.
  abbrev pub copy_valid : ContextShardRange → List Row → List Row → List Row
  copy_valid shard rows out =
      let valid = shard.end - shard.begin in
      if ltb 0 valid then take valid (drop shard.begin rows) ++ drop valid out else out

  unfoldable pub context_parallel_slice_padded : Input Row → ℤ → ℤ → ℤ → Row → Result (Input Row)
  context_parallel_slice_padded input context_rank context_parallel sequence_dim pad = do
    validate_context_rank context_rank context_parallel
    dim ← normalize_sequence_dim input sequence_dim
    let seq = length input.rows
    shard ← context_parallel_sequence_range (pos seq) context_rank context_parallel
    padded ← context_parallel_padded_length (pos seq) context_parallel
    ok (record input {
      rows = copy_valid shard input.rows (replicate (padded / pos_part context_parallel) pad);
    })

  -- The gathering of a group is a parameter: the all_gather of its collectives along the rows.
  unfoldable pub context_parallel_gather :
      (Input Row → List ℕ → Result (Input Row)) → Input Row → List ℕ → ℤ → Result (Input Row)
  context_parallel_gather all_gather local context_group sequence_dim =
      if leb (length context_group) 1
      then ok local
      else (normalize_sequence_dim local sequence_dim >>= λ dim. all_gather local context_group)

  unfoldable pub context_parallel_gather_padded :
      (Input Row → List ℕ → Result (Input Row)) → Input Row → List ℕ → ℤ → ℤ → Result (Input Row)
  context_parallel_gather_padded all_gather local context_group sequence_dim
        original_sequence_length =
      do
        throw_if (ltb_ℤ original_sequence_length (pos 0)) invalid_argument
        gathered ← context_parallel_gather all_gather local context_group sequence_dim
        dim ← normalize_sequence_dim gathered sequence_dim
        throw_if (ltb (length gathered.rows) (pos_part original_sequence_length)) invalid_argument
        ok (record gathered { rows = take (pos_part original_sequence_length) gathered.rows })

unfoldable pub group_index_from : ℕ → List ℕ → ℕ → Result ℕ
group_index_from i [] rank = err invalid_argument
group_index_from i (g ∷ context_group) rank =
    let rest = group_index_from (i + 1) context_group rank in if g == rank then ok i else rest

unfoldable pub context_parallel_group_index : List ℕ → ℕ → Result ℕ
context_parallel_group_index context_group rank = group_index_from 0 context_group rank

pub record ContextParallelRingStep : Type 0 where
  pub step : ℕ
  pub kv_rank : ℕ
  pub send_rank : ℤ
  pub recv_rank : ℤ

-- `context_group[i]` in range.
abbrev pub member_at : List ℕ → ℕ → ℕ
member_at context_group i = elim (get_elem? context_group i) [ none ↦ 0 | some g ↦ g ]

-- The ranks beside the rank at a place, `-1` in a group of one.
abbrev pub send_rank_of : List ℕ → ℕ → ℤ
send_rank_of context_group local =
    let cp = length context_group in
    if cp == 1 then minus_one else pos (member_at context_group ((local + 1) % cp))

abbrev pub recv_rank_of : List ℕ → ℕ → ℤ
recv_rank_of context_group local =
    let cp = length context_group in
    if cp == 1 then minus_one else pos (member_at context_group ((local + cp - 1) % cp))

-- One element of the schedule.
abbrev pub ring_step : List ℕ → ℕ → ℕ → ContextParallelRingStep
ring_step context_group local step =
    let cp = length context_group in
    record {
      step = step;
      kv_rank = member_at context_group ((local + cp - step) % cp);
      send_rank = send_rank_of context_group local;
      recv_rank = recv_rank_of context_group local;
    }

unfoldable pub context_parallel_ring_schedule : List ℕ → ℕ → Result (List ContextParallelRingStep)
context_parallel_ring_schedule context_group rank = do
  throw_if (length context_group == 0) invalid_argument
  local ← context_parallel_group_index context_group rank
  ok (map (ring_step context_group local) (range 0 (length context_group)))

-- The blocks that the forward pass of the ring exchange collects. What the hop of that number brings
-- for a block, a peer to send to and one to receive from is the parameter `send_recv`.
unfoldable pub ring_blocks :
    {A : Type 0} → (ℕ → A → ℤ → ℤ → A) → ℕ → A → List ContextParallelRingStep → List A
ring_blocks send_recv hop current [] = []
ring_blocks send_recv hop current (s ∷ []) = current ∷ []
ring_blocks send_recv hop current (s ∷ t ∷ schedule) =
    current
    ∷ ring_blocks send_recv (hop + 1) (send_recv hop current s.send_rank s.recv_rank) (t ∷ schedule)

module _ {Row : Type 0} where
  unfoldable pub ring_exchange_forward :
      (ℕ → Input Row → ℤ → ℤ → Input Row) → Input Row → List ℕ → ℤ → ℤ → Result (Input Row)
  ring_exchange_forward send_recv local group context_rank sequence_dim = do
    validate_context_rank context_rank (pos (length group))
    dim ← normalize_sequence_dim local sequence_dim
    schedule ← context_parallel_ring_schedule group (member_at group (pos_part context_rank))
    ok (record local { rows = flat_map (λ b. b.rows) (ring_blocks send_recv 0 local schedule) })

  unfoldable pub context_parallel_ring_exchange_autograd :
      (ℕ → Input Row → ℤ → ℤ → Input Row) → Input Row → List ℕ → ℤ → ℤ → Result (Input Row)
  context_parallel_ring_exchange_autograd send_recv local context_group context_rank sequence_dim =
      do
        validate_context_rank context_rank (pos (length context_group))
        (if leb (length context_group) 1
            then ok local
            else (normalize_sequence_dim local sequence_dim >>= λ dim.
                ring_exchange_forward send_recv local context_group context_rank (pos dim)))
