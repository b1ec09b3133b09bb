-- ===== src/Safetensors/Config.antt =====
-- The summary of config.json that hf_model_loader.cc takes by regular expressions. A search gives the
-- first place at which the expression matches; each of these matches a place in one way at most, so
-- that it is tried by hand. A directory is its regular files with their contents.
use cverl.Base.{
  ℕ, false, List, [], ◌∷◌, ◌++◌, Option, none, some, ℤ, pos, ◌==◌, if◌then◌else◌, Bytes, codes,
  bytes_equal, Result, ok, err, ◌>>=◌, runtime_error,
}
use cverl.Safetensors.Scanner.{eof, skip_ws, consume, digit_run, stoll}

abbrev pub Directory : Type 0
Directory = List (Bytes × Bytes)

unfoldable pub open_file : Directory → Bytes → Result Bytes
open_file [] filename = err runtime_error
open_file (entry ∷ files) filename =
    if bytes_equal entry.0 filename then ok entry.1 else open_file files filename

pub record HfConfigSummary : Type 0 where
  pub model_type : Bytes
  pub architecture : Bytes
  pub dtype : Bytes
  pub vocab_size : ℤ
  pub hidden_size : ℤ
  pub num_hidden_layers : ℤ
  pub num_attention_heads : ℤ
  pub num_key_value_heads : ℤ

-- The text behind a name, and behind marks of which each may have spaces before it.
unfoldable pub past_name : Bytes → Bytes → Option Bytes
past_name [] text = some text
past_name (p ∷ name) [] = none
past_name (p ∷ name) (c ∷ text) = let rest = past_name name text in if c == p then rest else none

unfoldable pub past_marks : List ℕ → Option Bytes → Option Bytes
past_marks marks none = none
past_marks [] (some text) = some text
past_marks (mark ∷ marks) (some text) =
    let found = consume mark text in
    let rest = past_marks marks (some found.1) in if found.0 then rest else none

-- What stands before the next quote.
abbrev add_char : ℕ → Option Bytes → Option Bytes
add_char c none = none
add_char c (some value) = some (c ∷ value)

unfoldable pub until_quote : Bytes → Option Bytes
until_quote [] = none
until_quote (c ∷ text) =
    let rest = until_quote text in if c == b'"' then some [] else add_char c rest

-- The captures `"([^"]+)"`, behind the first quote, and `([0-9]+)`.
abbrev some_text : Bytes → Option Bytes
some_text [] = none
some_text (c ∷ value) = some (c ∷ value)

abbrev pub string_capture : Option Bytes → Option Bytes
string_capture none = none
string_capture (some text) = elim (until_quote text) [ none ↦ none | some value ↦ some_text value ]

abbrev pub number_capture : Option Bytes → Option Bytes
number_capture none = none
number_capture (some text) = some_text (digit_run (skip_ws text)).0

-- The first match of a text.
abbrev first_of : Option Bytes → Option Bytes → Option Bytes
first_of none later = later
first_of (some value) later = some value

unfoldable pub regex_search : (Bytes → Option Bytes) → Bytes → Option Bytes
regex_search match [] = match []
regex_search match (c ∷ text) =
    let later = regex_search match text in first_of (match (c ∷ text)) later

abbrev quoted : Bytes → Bytes
quoted key = b'"' ∷ (key ++ (b'"' ∷ []))

abbrev pub text_or_empty : Option Bytes → Bytes
text_or_empty none = []
text_or_empty (some value) = value

-- The marks are those of the expression behind the key.
unfoldable pub regex_string : Bytes → Bytes → List ℕ → Bytes
regex_string text key marks =
    text_or_empty
      (regex_search (λ s. string_capture (past_marks marks (past_name (quoted key) s))) text)

abbrev pub number_or_zero : Option Bytes → Result ℤ
number_or_zero none = ok (pos 0)
number_or_zero (some digits) = stoll false digits

unfoldable pub regex_i64 : Bytes → Bytes → Result ℤ
regex_i64 text key =
    number_or_zero
      (regex_search (λ s. number_capture (past_marks (b':' ∷ []) (past_name (quoted key) s))) text)

abbrev pub string_marks : List ℕ
string_marks = b':' ∷ b'"' ∷ []

abbrev pub array_marks : List ℕ
array_marks = b':' ∷ b'[' ∷ b'"' ∷ []

unfoldable pub parse_config : Directory → Result HfConfigSummary
parse_config files = do
  text ← open_file files (codes "config.json")
  let dtype = regex_string text (codes "dtype") string_marks
  let torch_dtype = regex_string text (codes "torch_dtype") string_marks
  vocab_size ← regex_i64 text (codes "vocab_size")
  hidden_size ← regex_i64 text (codes "hidden_size")
  num_hidden_layers ← regex_i64 text (codes "num_hidden_layers")
  num_attention_heads ← regex_i64 text (codes "num_attention_heads")
  num_key_value_heads ← regex_i64 text (codes "num_key_value_heads")
  ok (record {
    model_type = regex_string text (codes "model_type") string_marks;
    architecture = regex_string text (codes "architectures") array_marks;
    dtype = if eof dtype then torch_dtype else dtype;
    vocab_size = vocab_size;
    hidden_size = hidden_size;
    num_hidden_layers = num_hidden_layers;
    num_attention_heads = num_attention_heads;
    num_key_value_heads = num_key_value_heads;
  })
