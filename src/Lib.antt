-- ===== src/Lib.antt =====
-- A verification library for cverl, the C++ reinforcement-learning training and rollout stack.
--
-- The program. A launcher builds a Topology from a ClusterSpec (src/distributed/topology.cc); it
-- numbers the ranks, forms the process groups that the collectives use, and splits the layers of
-- the model over pipeline stages. Each stage runs the 1F1B schedule (src/distributed/pipeline.cc).
-- A trainer sends a RolloutRequest over a transport, gets a RolloutResponse, scores its texts with
-- the GSM8K rule reward (src/reward/gsm8k.cc) and builds padded batches from it.
--
-- The files.
--   Base and its children: lists, tests and integers over the native numbers, exceptions as values.
--   Topology: include/cverl/distributed/topology.h and src/distributed/topology.cc. Topology/Types
--     has the structs and functions under the source's names in snake case; an exception is `err`
--     with its class. Radix, Valid, Ranks, Info, Groups and Layers prove.
--   Pipeline: src/distributed/pipeline.cc. Pipeline/Defs has the functions; Schedule, Channels,
--     Stages and Neighbours prove. A transfer of a tensor is the call of Collectives that it makes.
--   Safetensors: src/model/safetensors_writer.cc and the loader of src/model/hf_model_loader.cc.
--     Safetensors/Scanner has the class JsonScanner, Tensors what LibTorch does as a parameter,
--     Config the summary of config.json, Writer and Loader the other functions; Decimal, Strings,
--     Arrays, Header, Padding, Lookup, Entries, Place, Load and RoundTrip prove. The words of a file
--     are those of Transport/Codec.
--   Reward: src/reward/gsm8k.cc. Reward/Defs has the functions over lists of bytes; Strict, Tokens,
--     Gold and Correct prove.
--   Transport: src/rollout/shared_memory_transport.cc and include/cverl/rollout/transport.h.
--     Transport/Codec has Writer and Reader, Messages the structs and the four (de)serialisers,
--     Exchange generate and serve_one over the shared state; Encoding, Decoding, Maps, RoundTrip,
--     Protocol and Stale prove. Transport/Loopback is LoopbackRolloutTransport of
--     src/rollout/transport.cc; Order proves.
--   Tokenizer: src/text/byte_tokenizer.cc and the headers beside it. Tokenizer/Defs has encode and
--     decode; Truncation and RoundTrip prove.
--   Batch: src/rollout/rollout_batch.cc. Batch/Defs has the builder, over the sequences of Transport,
--     the reward of Reward and an interface for the tokenizers, which the byte tokenizer fills;
--     Cache, Rows and Texts prove.
--   Dataset: src/data/hf_dataset.cc. Dataset/Defs has the command of the download and the loop over
--     the rows, the JSON library a parameter; Dataset/Shell splits a simple command line into words
--     as a POSIX shell does, and refuses lines of other kinds; Command, Nul, Words and Rows prove.
--     Numbers are printed by Safetensors/Writer.
--   Sharding: src/distributed/optimizer_sharding.cc. Sharding/Defs flattens tensors into the shard of
--     a rank, Sharding/Apply validates and applies shards and gathers those of a group through
--     Collectives, Sharding/Ranges cuts ranges out of the tensors, Sharding/Metadata rebuilds the
--     metadata of a shard; both prove too, and so do Tiles, Flatten and Gather. Sharding/Owners gives
--     the parameters to the ranks; Loads, Fair and Balance prove. Topology forms the groups.
--   Bpe: src/text/hf_bpe_tokenizer.cc. Bpe/Utf8 has utf8_append and utf8_decode, Bpe/Table the table
--     of byte_to_unicode and its inverse, Bpe/Merge the merge loop, Bpe/Defs Impl, the loops over
--     matches and added tokens, encode and decode. Coding, Inverse, Greedy, Spell, Segments,
--     RoundTrip, Limit and Latin prove. Its options are those of Tokenizer.
--   Context: src/distributed/context_parallel.cc. Context/Defs has the slices of a sequence, their
--     gathering, the ring schedule and the forward ring exchange, the transfers a parameter; Slices,
--     Schedule and Ring prove.
--
-- Bounds and fuel. `int64_t` values are unbounded integers where the code tests their sign, and
-- natural numbers behind that test. The product of the dimensions of a topology wraps as an
-- int64_t, and a limit or a size that the code casts to int32_t is cast.
-- `token_loop` has the length of the text as fuel and takes at least one byte a round;
-- `strict_loop` has one more than the length and takes a marker a round; the theorems about the
-- two extractors hold for every text, so the fuel is enough.
-- `utf8_loop` and `encode_loop` have the number of bytes as fuel and take one at least a round;
-- `find_loop` has one more than that number and goes on by a byte at least; `merge_loop` has the
-- number of parts, which each round lowers. The theorems about them hold for every length.
-- The loops of JsonScanner and of the header have the length of the text, or one more, as fuel, and
-- take a character a round or more; the padding loop ends within 7 rounds; a decimal has one digit
-- at least for each round of its loop.
-- Words of the wire format are numbers with their range as a hypothesis where it matters, and a
-- size is cut to 32 bits as the code cuts it; a float is its bit pattern. The loops of the tokenizer,
-- the batch and the serialisers recur on their lists or counts and need no fuel.
--
-- Not modelled: the opening and unlinking of shared memory and semaphores, and serve_loop; the
-- bytes that a serialisation leaves behind when it throws; the gradients, buckets and AdamW step
-- of optimizer_sharding.cc; the JSON file and the matching of the pattern (PCRE2) of the BPE
-- tokenizer, which are parameters; the backward passes and attention of context_parallel.cc;
-- expert parallelism, the running of the dataset command and what it prints; the failures of streams
-- and directories in the model files; pipeline stages that run at once, for whose progress it counts
-- whether a send waits, which NcclCollectives makes an option; memory that runs short; floating-point
-- tensor code (LibTorch, CUDA kernels), NCCL and other calls of the system, message texts of
-- exceptions, reading of environment variables, command-line tools.
pub mod Base
pub mod Topology
pub mod Pipeline
pub mod Safetensors
pub mod Reward
pub mod Transport
pub mod Tokenizer
pub mod Batch
pub mod Dataset
pub mod Sharding
pub mod Bpe
pub mod Context
