-- ===== src/Transport/Loopback.antt =====
-- LoopbackRolloutTransport: src/rollout/transport.cc. Words of 64 bits keep their wrap-around.
use Prim.Native.Nat.{bit_and, bit_xor}
use cverl.Base.{
  ℕ, zero, suc, ◌+◌, ◌*◌, ◌/◌, ◌%◌, ◌^◌, min, Bool, ◌||◌, List, [], ◌∷◌, ◌++◌, map, if◌then◌else◌,
  length, range, Bytes, codes,
}
use cverl.Transport.Messages.{RolloutRequest, RolloutSequence, RolloutResponse}

-- LoopbackRolloutTransport::Options.
pub record LoopbackOptions : Type 0 where
  pub completion_suffix : Bytes
  pub synthesize_token_ids : Bool

abbrev pub fnv_prime : ℕ
fnv_prime = 1099511628211

-- The loop over the bytes.
unfoldable pub fnv_loop : ℕ → Bytes → ℕ
fnv_loop hash [] = hash
fnv_loop hash (ch ∷ text) = fnv_loop (bit_xor hash ch * fnv_prime % 2 ^ 64) text

unfoldable pub fnv1a64 : Bytes → ℕ → ℕ
fnv1a64 text seed = fnv_loop (bit_xor 1469598103934665603 seed) text

-- The three shifts of a round.
unfoldable pub next_state : ℕ → ℕ
next_state state =
    let a = bit_xor state (state / 2 ^ 12) in
    let b = bit_xor a (a * 2 ^ 25 % 2 ^ 64) in bit_xor b (b / 2 ^ 27)

-- for (size_t i = 0; i < length; ++i)
unfoldable pub synthesize : ℕ → ℕ → List ℕ
synthesize zero state = []
synthesize (suc length) state =
    let state = next_state state in bit_and state 2147483647 ∷ synthesize length state

unfoldable pub loopback_sequence :
    LoopbackOptions → RolloutRequest → ℕ → Bytes → ℕ → RolloutSequence
loopback_sequence options request p prompt s =
    let text = prompt ++ options.completion_suffix in
    record {
      prompt_index = p % 2 ^ 32;
      sample_index = s;
      text = text;
      token_ids =
          if options.synthesize_token_ids || request.return_token_ids
          then synthesize (min request.max_tokens (length text + 1))
              (fnv1a64 text ((request.seed + s) % 2 ^ 64))
          else [];
      logprobs = [];
      finish_reason = codes "stop";
    }

-- The inner loop for prompt p, and the outer loop from it on.
unfoldable pub loopback_prompts :
    LoopbackOptions → RolloutRequest → ℕ → List Bytes → List RolloutSequence
loopback_prompts options request p [] = []
loopback_prompts options request p (prompt ∷ prompts) =
    map (loopback_sequence options request p prompt) (range 0 request.n)
    ++ loopback_prompts options request (p + 1) prompts

unfoldable pub loopback_generate : LoopbackOptions → RolloutRequest → RolloutResponse
loopback_generate options request = record {
  request_id = request.request_id;
  sequences = loopback_prompts options request 0 request.prompts;
  metrics = [];
}
