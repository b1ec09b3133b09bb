-- ===== src/Dataset/Defs.antt =====
-- The functions of hf_dataset.cc that build the command and read the rows. The JSON library and the
-- file system are parameters: a JSON value is one of a type, and a file is its lines.
use cverl.Base.{
  ltb_ℤ, ℕ, ◌+◌, Bool, true, false, not, ◌&&◌, ◌||◌, Option, none, some, List, [], ◌∷◌, ◌++◌, ℤ,
  pos, pos_part, leb_ℤ, eqb_ℤ, ◌==◌, if◌then◌else◌, Bytes, codes, Result, ok, err, ◌>>=◌, ◌>>◌,
  throw_if, invalid_argument, runtime_error,
}
use cverl.Safetensors.Writer.{decimal}

-- The loop of shell_quote.
unfoldable pub quote_loop : Bytes → Bytes
quote_loop [] = []
quote_loop (ch ∷ value) =
    let rest = quote_loop value in
    if ch == b'\'' then b'\'' ∷ b'\\' ∷ b'\'' ∷ b'\'' ∷ rest else ch ∷ rest

abbrev pub shell_quote : Bytes → Bytes
shell_quote value = b'\'' ∷ (quote_loop value ++ (b'\'' ∷ []))

abbrev pub empty_text : Bytes → Bool
empty_text [] = true
empty_text (c ∷ cs) = false

-- What append_arg appends.
abbrev pub append_arg : Bytes → Bytes → Bytes
append_arg name value = if empty_text value then [] else b' ' ∷ (name ++ (b' ' ∷ shell_quote value))

pub record HfDatasetOptions : Type 0 where
  pub dataset_id : Bytes
  pub name : Bytes
  pub split : Bytes
  pub prompt_field : Bytes
  pub answer_field : Bytes
  pub output_file : Bytes
  pub cache_dir : Bytes
  pub token : Bytes
  pub python_executable : Bytes
  pub max_examples : ℤ
  pub local_files_only : Bool
  pub trust_remote_code : Bool

-- The arguments that the command takes of the options, by their names.
abbrev pub named_args : HfDatasetOptions → List (Bytes × Bytes)
named_args options =
    (codes "--dataset", options.dataset_id)
    ∷ (codes "--name", options.name)
    ∷ (codes "--split", options.split)
    ∷ (codes "--prompt-field", options.prompt_field)
    ∷ (codes "--answer-field", options.answer_field)
    ∷ (codes "--output-file", options.output_file)
    ∷ (codes "--cache-dir", options.cache_dir)
    ∷ (codes "--token", options.token)
    ∷ []

unfoldable pub append_args : List (Bytes × Bytes) → Bytes → Bytes
append_args [] rest = rest
append_args (arg ∷ args) rest = append_arg arg.0 arg.1 ++ append_args args rest

abbrev pub flag_text : Bool → Bytes → Bytes
flag_text flag text = if flag then text else []

-- The command line up to the redirection, for the path of the script that the build gives.
unfoldable pub dataset_line : Bytes → HfDatasetOptions → Bytes
dataset_line script options =
    shell_quote options.python_executable
    ++ (b' '
        ∷ (shell_quote script
            ++ append_args (named_args options) (
                (if leb_ℤ (pos 0) options.max_examples
                  then codes " --max-examples " ++ decimal (pos_part options.max_examples)
                  else [])
                ++ (flag_text options.local_files_only (codes " --local-files-only")
                    ++ flag_text options.trust_remote_code (codes " --trust-remote-code")))))

unfoldable pub dataset_command : Bytes → HfDatasetOptions → Bytes
dataset_command script options = dataset_line script options ++ codes " 2>&1"

-- The text that popen gets of a string: what stands before its first NUL.
unfoldable pub c_str : Bytes → Bytes
c_str [] = []
c_str (c ∷ text) = let rest = c_str text in if c == 0 then [] else c ∷ rest

pub record JsonlDatasetOptions : Type 0 where
  pub path : Bytes
  pub prompt_field : Bytes
  pub answer_field : Bytes
  pub max_examples : ℤ

pub record PromptAnswerExample : Type 0 where
  pub prompt : Bytes
  pub answer : Bytes

-- The JSON library.
pub record Json (J : Type 0) : Type 0 where
  pub parse : Bytes → Result J
  pub is_object : J → Bool
  pub member : Bytes → J → Option J
  pub value_to_string : J → Result Bytes

-- The room that is reserved for a positive number of examples.
abbrev pub reserve_for : (ℕ → Result (Unit {0})) → ℤ → Result (Unit {0})
reserve_for reserve max_examples =
    if ltb_ℤ (pos 0) max_examples then reserve (pos_part max_examples) else ok tt

module _ {J : Type 0} (json : Json J) where
  abbrev required : Option J → Result J
  required none = err runtime_error
  required (some value) = ok value

  -- What a line gives.
  unfoldable pub row_of : JsonlDatasetOptions → Bytes → Result PromptAnswerExample
  row_of options line = do
    object ← json.parse line
    throw_if (not (json.is_object object)) runtime_error
    prompt ← required (json.member options.prompt_field object)
    answer ← required (json.member options.answer_field object)
    prompt_text ← json.value_to_string prompt
    answer_text ← json.value_to_string answer
    ok (record { prompt = prompt_text; answer = answer_text })

  -- The loop over the lines, with the number of examples so far.
  unfoldable pub rows_loop :
      JsonlDatasetOptions → ℕ → List Bytes → Result (List PromptAnswerExample)
  rows_loop options count [] = ok []
  rows_loop options count (line ∷ lines) = elim (empty_text line) [
    | true ↦ rows_loop options count lines
    | false ↦ do
      row ← row_of options line
      elim (leb_ℤ (pos 0) options.max_examples && leb_ℤ options.max_examples (pos (count + 1))) [
        | true ↦ ok (row ∷ [])
        | false ↦ do rest ← rows_loop options (count + 1) lines; ok (row ∷ rest)
      ]
  ]

  -- The lines of the file, where it can be opened, and what `examples.reserve` throws for a number.
  unfoldable pub load_prompt_answer_jsonl :
      (Bytes → Option (List Bytes))
      → (ℕ → Result (Unit {0}))
      → JsonlDatasetOptions
      → Result (List PromptAnswerExample)
  load_prompt_answer_jsonl lines_of reserve options = do
    throw_if (empty_text options.path) invalid_argument
    throw_if (empty_text options.prompt_field || empty_text options.answer_field) invalid_argument
    elim (eqb_ℤ options.max_examples (pos 0)) [
      | true ↦ ok []
      | false ↦ elim (lines_of options.path) [
        | none ↦ err runtime_error
        | some lines ↦ reserve_for reserve options.max_examples >> rows_loop options 0 lines
      ]
    ]
