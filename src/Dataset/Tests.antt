-- ===== src/Dataset/Tests.antt =====
-- A command with a quote in an option, and three lines of which one is empty.
use mathlib.Core.List.{flat_map}
use cverl.Base.{
  ◌++◌, ◌==◌, ℕ, Bool, Result, err, throw_if, ltb, length_error, if◌then◌else◌, List, map_result,
  ◌≡◌, refl, true, false, some, none, [], ◌∷◌, pos, Bytes, codes, ok,
}
use cverl.Dataset.Defs.{
  JsonlDatasetOptions, HfDatasetOptions, dataset_command, c_str, PromptAnswerExample, Json, row_of,
  rows_loop, load_prompt_answer_jsonl,
}
use cverl.Dataset.Shell.{shell_words, command_words}
use cverl.Dataset.Nul.{HoldsNoNul}
use cverl.Safetensors.Writer.{decimal_loop}
use cverl.Dataset.Rows.{with_text, load_prompt_answer_jsonl-limited}
use cverl.Dataset.Words.{command_words-dataset_command}

abbrev sample_options : HfDatasetOptions
sample_options = record {
  dataset_id = codes "it's; rm -rf";
  name = [];
  split = codes "train";
  prompt_field = codes "question";
  answer_field = codes "answer";
  output_file = codes "out.jsonl";
  cache_dir = [];
  token = [];
  python_executable = codes "python3";
  max_examples = pos 12;
  local_files_only = true;
  trust_remote_code = false;
}

-- A text without a NUL, in one test.
abbrev is_whole : Bytes → Bool
is_whole [] = true
is_whole (c ∷ text) = let rest = is_whole text in if c == 0 then false else rest

whole : (text : Bytes) → is_whole text ≡ true → HoldsNoNul text
whole [] h = tt
whole (c ∷ text) h = by_head (c == 0) refl h (whole text)
  where
    by_head :
        (t : Bool)
        → (c == 0) ≡ t
        → (if t then false else is_whole text) ≡ true
        → (is_whole text ≡ true → HoldsNoNul text)
        → HoldsNoNul (c ∷ text)
    by_head true nul h rest = cc
    by_head false other h rest = (other, rest h)

command_words-dataset_command_example :
    (line : Bytes) × (c_str (dataset_command (codes "get.py") sample_options)
      ≡ line ++ codes " 2>&1")
    × (command_words line
        ≡ some (
            codes "python3"
            ∷ codes "get.py"
            ∷ codes "--dataset"
            ∷ codes "it's; rm -rf"
            ∷ codes "--split"
            ∷ codes "train"
            ∷ codes "--prompt-field"
            ∷ codes "question"
            ∷ codes "--answer-field"
            ∷ codes "answer"
            ∷ codes "--output-file"
            ∷ codes "out.jsonl"
            ∷ codes "--max-examples"
            ∷ codes "12"
            ∷ codes "--local-files-only"
            ∷ []))
unfolding flat_map decimal_loop
command_words-dataset_command_example =
    command_words-dataset_command (codes "get.py") sample_options (whole (codes "get.py") refl)
      (whole (codes "python3") refl)
      (
        whole (codes "it's; rm -rf") refl,
        (
          tt,
          (
            whole (codes "train") refl,
            (
              whole (codes "question") refl,
              (whole (codes "answer") refl, (whole (codes "out.jsonl") refl, (tt, (tt, tt)))),
            ),
          ),
        ),
      )

-- Outside quotes these would be a second command.
injected : command_words (codes "'a' b;c") ≡ none
unfolding shell_words
injected = refl

-- A JSON library whose values are their texts: every text is an object that has itself for members.
abbrev echo : Json Bytes
echo = record {
  parse = λ line. ok line;
  is_object = λ value. true;
  member = λ key value. some value;
  value_to_string = λ value. ok value;
}

abbrev row : Bytes → PromptAnswerExample
row line = record { prompt = line; answer = line }

abbrev two_at_most : JsonlDatasetOptions
two_at_most = record {
  path = codes "rows.jsonl";
  prompt_field = codes "question";
  answer_field = codes "answer";
  max_examples = pos 2;
}

abbrev four_lines : List Bytes
four_lines = codes "a" ∷ [] ∷ codes "b" ∷ codes "c" ∷ []

-- Room for a thousand examples.
abbrev room : ℕ → Result (Unit {0})
room n = throw_if (ltb 1000 n) length_error

no_room :
    load_prompt_answer_jsonl echo
      (λ path. some four_lines)
      room
      (record two_at_most { max_examples = pos 2000 })
    ≡ err length_error
unfolding load_prompt_answer_jsonl
no_room = refl

-- The empty line counts for none.
two_rows :
    load_prompt_answer_jsonl echo (λ path. some four_lines) room two_at_most
    ≡ ok (row (codes "a") ∷ row (codes "b") ∷ [])
unfolding load_prompt_answer_jsonl rows_loop row_of
two_rows = refl

load_prompt_answer_jsonl-limited_example :
    load_prompt_answer_jsonl echo (λ path. some four_lines) room two_at_most
    ≡ map_result (row_of echo two_at_most) (codes "a" ∷ codes "b" ∷ [])
unfolding with_text
load_prompt_answer_jsonl-limited_example =
    load_prompt_answer_jsonl-limited echo two_at_most (λ path. some four_lines) room four_lines refl
      refl refl refl
