-- ===== src/Safetensors/Tests.antt =====
-- A file of two tensors, written and read.
use cverl.Base.{
  ℕ, ◌*◌, ◌<◌, ◌^◌, ◌≡◌, ◌≢◌, refl, ap, sym, ◌∙◌, true, false, List, [], ◌∷◌, ◌++◌, map, pos,
  pos_part, length, replicate, Bytes, codes, ok, err, ok-injective, ◌>>=◌, out_of_range,
  runtime_error, sub_ℕ, invalid_argument, All, bytes_equal, bytes_equal_iff, arith,
}
use cverl.Safetensors.Scanner.{
  integer, string, string_loop, skip_ws, expect, consume, digit_run, stoll, digits_value,
}
use cverl.Safetensors.Tensors.{ScalarType, k_float32, CpuTensor, Torch}
use cverl.Safetensors.Writer.{
  write_safetensors, target_scalar_type, entries_from, build_header, pad_loop, json_escape,
  sizes_text, decimal_loop,
}
use cverl.Transport.Codec.{le_bytes}
use mathlib.Core.List.{flat_map}
use cverl.Safetensors.Arrays.{IsInt64}
use cverl.Safetensors.Config.{
  HfConfigSummary, open_file, parse_config, regex_string, regex_i64, regex_search, past_name,
  past_marks, until_quote,
}
use cverl.Safetensors.Loader.{load_metadata, load_all_tensors, HfModelLoader}
use cverl.Safetensors.Entries.{IsTorch, Distinct}
use cverl.Safetensors.RoundTrip.{load_all_tensors-write_safetensors}

data SampleTensor : Type 0 where
  weight bias : SampleTensor

abbrev cpu_tensor : SampleTensor → ScalarType → CpuTensor
cpu_tensor weight dtype = record {
  scalar_type = dtype;
  sizes = 1 ∷ 2 ∷ [];
  memory = 1 ∷ 2 ∷ 3 ∷ 4 ∷ 5 ∷ 6 ∷ 7 ∷ 8 ∷ [];
}
cpu_tensor bias dtype = record { scalar_type = dtype; sizes = []; memory = 9 ∷ 10 ∷ 11 ∷ 12 ∷ [] }

abbrev product : List ℕ → ℕ
product [] = 1
product (n ∷ ns) = n * product ns

-- Elements of four bytes, whatever the type.
abbrev sample_torch : Torch SampleTensor
sample_torch = record {
  defined = λ t. true;
  converted = λ dtype t. cpu_tensor t dtype;
  empty = λ shape dtype. ok (record {
    scalar_type = dtype;
    sizes = map pos_part shape;
    memory = replicate (4 * product (map pos_part shape)) 0;
  });
}

sample_type : (dtype : ScalarType) (t : SampleTensor) → (cpu_tensor t dtype).scalar_type ≡ dtype
sample_type dtype weight = refl
sample_type dtype bias = refl

sample_sizes : (dtype : ScalarType) (t : SampleTensor) → All IsInt64 (cpu_tensor t dtype).sizes
sample_sizes dtype weight = (omega arith, (omega arith, tt))
sample_sizes dtype bias = tt

sample_alike :
    (dtype : ScalarType) (t : SampleTensor)
    → (e : CpuTensor) × (sample_torch.empty (map pos (cpu_tensor t dtype).sizes) dtype ≡ ok e)
      × (e.scalar_type ≡ dtype)
      × (e.sizes ≡ (cpu_tensor t dtype).sizes)
      × (length e.memory ≡ length (cpu_tensor t dtype).memory)
sample_alike dtype weight = (_, refl, refl, refl, refl)
sample_alike dtype bias = (_, refl, refl, refl, refl)

sample-IsTorch : IsTorch sample_torch
sample-IsTorch = record {
  converted_type = sample_type;
  converted_sizes = sample_sizes;
  empty_alike = sample_alike;
}

abbrev two_tensors : List (Bytes × SampleTensor)
two_tensors = (codes "a\"b", weight) ∷ (codes "bias", bias) ∷ []

abbrev model_file : Bytes
model_file = codes "model.safetensors"

abbrev config_file : Bytes × Bytes
config_file = (
  codes "config.json",
  codes
      "{\"model_type\": \"qwen2\", \"architectures\": [\"Qwen\"], \"torch_dtype\" :\"f\", \"vocab_size\": 12}",
)

written_length :
    (do file ← write_safetensors sample_torch two_tensors (codes "f32"); ok (length file)) ≡ ok 172
unfolding write_safetensors target_scalar_type bytes_equal entries_from le_bytes build_header
    pad_loop flat_map json_escape sizes_text decimal_loop
written_length = refl

written_small :
    (file : Bytes)
    → write_safetensors sample_torch two_tensors (codes "f32") ≡ ok file
    → length file < 2 ^ 63
written_small file e =
    let size : 172 ≡ length file =
      ok-injective (sym written_length ∙ ap (λ r. do file ← r; ok (length file)) e) in
    omega arith

differ : {a b : Bytes} → bytes_equal a b ≡ false → a ≢ b
differ {a = a} {b = b} unequal e = let yes_equal = (bytes_equal_iff a b).1 e in cc

abbrev sample_config : HfConfigSummary
sample_config = record {
  model_type = codes "qwen2";
  architecture = codes "Qwen";
  dtype = codes "f";
  vocab_size = pos 12;
  hidden_size = pos 0;
  num_hidden_layers = pos 0;
  num_attention_heads = pos 0;
  num_key_value_heads = pos 0;
}

-- A key that is missing is 0, and the type is that of the older key.
configured : parse_config (config_file ∷ []) ≡ ok sample_config
unfolding parse_config open_file bytes_equal regex_string regex_i64 regex_search past_name
    past_marks until_quote consume skip_ws digit_run stoll digits_value
configured = refl

no_config : load_metadata [] ≡ err runtime_error
unfolding load_metadata parse_config open_file
no_config = refl

load_all_tensors-write_safetensors_example :
    (file : Bytes) × (write_safetensors sample_torch two_tensors (codes "f32") ≡ ok file)
    × (loader : HfModelLoader) × (load_metadata (config_file ∷ (model_file, file) ∷ []) ≡ ok loader)
    × (loader.config ≡ sample_config)
    × (load_all_tensors sample_torch (config_file ∷ (model_file, file) ∷ []) loader.tensors
        ≡ ok (
            (codes "a\"b", cpu_tensor weight k_float32)
            ∷ (codes "bias", cpu_tensor bias k_float32)
            ∷ []))
unfolding target_scalar_type bytes_equal Distinct
load_all_tensors-write_safetensors_example =
    load_all_tensors-write_safetensors sample_torch sample-IsTorch (codes "f32") model_file
      (config_file ∷ []) [] two_tensors {export_dtype = k_float32} refl (omega arith)
      (refl, (refl, tt))
      (
        ((refl, (refl, (refl, tt))), differ refl),
        (((refl, (refl, (refl, (refl, tt)))), differ refl), tt),
      )
      (((differ refl), tt), (tt, tt)) written_small refl (refl, tt) tt configured

-- A carriage return is written as an escape that is read as a letter.
carriage_return :
    string (b'"' ∷ (json_escape (b'a' ∷ 13 ∷ []) ++ (b'"' ∷ []))) ≡ ok (b'a' ∷ b'r' ∷ [], [])
unfolding string string_loop skip_ws expect consume json_escape
carriage_return = refl

negative_number : integer (codes " -12]") ≡ ok (sub_ℕ 0 12, codes "]")
unfolding integer skip_ws digit_run stoll digits_value
negative_number = refl

too_large : integer (codes "9223372036854775808") ≡ err out_of_range
unfolding integer skip_ws digit_run stoll digits_value
too_large = refl

no_digits : integer (codes "-") ≡ err invalid_argument
unfolding integer skip_ws digit_run stoll digits_value
no_digits = refl
