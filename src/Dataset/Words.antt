-- ===== src/Dataset/Words.antt =====
-- The command of download_hf_dataset is split into its arguments.
use mathlib.Core.List.{append_assoc, flat_map}
use cverl.Base.{
  ◌≡◌, refl, ap, ◌∙◌, true, false, some, List, [], ◌∷◌, ◌++◌, if◌then◌else◌, Bytes, codes, All,
}
use cverl.Safetensors.Scanner.{eof}
use cverl.Dataset.Defs.{
  quote_loop, shell_quote, HfDatasetOptions, named_args, dataset_line, dataset_command, c_str,
}
use cverl.Dataset.Nul.{HoldsNoNul, c_str-dataset_command}
use cverl.Dataset.Shell.{in_quotes, shell_words, command_words, IsPlain, quoted_words}
use cverl.Dataset.Command.{
  Ends, Ends-shell_quote, all_plain, all_plain-IsPlain, arg_words, Ends-append_args, Ends-flag,
  Ends-last_flag, max_words, Ends-max_words,
}

usable :
    (text : Bytes)
    → eof text ≡ false
    → all_plain text ≡ true
    → (eof text ≡ false) × All IsPlain text
usable text some_text plain = (some_text, all_plain-IsPlain text plain)

names-IsPlain :
    (options : HfDatasetOptions)
    → All (λ arg. (eof arg.0 ≡ false) × All IsPlain arg.0) (named_args options)
unfolding all_plain
names-IsPlain options = (
  usable (codes "--dataset") refl refl,
  (
    usable (codes "--name") refl refl,
    (
      usable (codes "--split") refl refl,
      (
        usable (codes "--prompt-field") refl refl,
        (
          usable (codes "--answer-field") refl refl,
          (
            usable (codes "--output-file") refl refl,
            (usable (codes "--cache-dir") refl refl, (usable (codes "--token") refl refl, tt)),
          ),
        ),
      ),
    ),
  ),
)

second_parts :
    (args : List (Bytes × Bytes))
    → All (λ arg. (eof arg.0 ≡ false) × All IsPlain arg.0) args
    → All (λ arg. All IsPlain arg.0) args
second_parts [] h = tt
second_parts (arg ∷ args) h = (h.0.1, second_parts args h.1)

first_word :
    (value rest : Bytes) (words : List Bytes)
    → Ends rest words
    → command_words (shell_quote value ++ rest) ≡ some (value ∷ words)
unfolding shell_words
first_word value rest words ends =
    ap (shell_words in_quotes (some [])) (append_assoc (quote_loop value) (b'\'' ∷ []) rest)
    ∙ quoted_words [] value rest
    ∙ ends value

command_words-dataset_line :
    (script : Bytes) (options : HfDatasetOptions)
    → command_words (dataset_line script options)
      ≡ some (
          options.python_executable
          ∷ script
          ∷ (flat_map arg_words (named_args options)
              ++ (max_words options.max_examples
                  ++ ((if options.local_files_only then codes "--local-files-only" ∷ [] else [])
                      ++ (if options.trust_remote_code
                          then codes "--trust-remote-code" ∷ []
                          else [])))))
unfolding dataset_line all_plain
command_words-dataset_line script options =
    let trusting =
      Ends-last_flag options.trust_remote_code (codes "--trust-remote-code") refl
        (all_plain-IsPlain (codes "--trust-remote-code") refl) in
    let local =
      Ends-flag options.local_files_only (codes "--local-files-only") _ _ refl
        (all_plain-IsPlain (codes "--local-files-only") refl) trusting in
    let counted = Ends-max_words options.max_examples _ _ local in
    let named = Ends-append_args (named_args options) _ _ (names-IsPlain options) counted in
    first_word options.python_executable _ _ (Ends-shell_quote script _ _ named)

-- If the path of the script, the interpreter and the option texts hold no NUL byte: popen gets a line
-- with the redirection " 2>&1" behind it, and a POSIX shell splits the line, a simple command with
-- no character that has a meaning outside quotes, into the interpreter, the script, the name and the
-- value of each option that is not empty, the number of examples where it is not negative, and the
-- flags that are set.
pub command_words-dataset_command :
    (script : Bytes) (options : HfDatasetOptions)
    → HoldsNoNul script
    → HoldsNoNul options.python_executable
    → All (λ arg. HoldsNoNul arg.1) (named_args options)
    → (line : Bytes) × (c_str (dataset_command script options) ≡ line ++ codes " 2>&1")
      × (command_words line
          ≡ some (
              options.python_executable
              ∷ script
              ∷ (flat_map arg_words (named_args options)
                  ++ (max_words options.max_examples
                      ++ ((if options.local_files_only then codes "--local-files-only" ∷ [] else [])
                          ++ (if options.trust_remote_code
                              then codes "--trust-remote-code" ∷ []
                              else []))))))
unfolding all_plain
command_words-dataset_command script options script_whole python_whole values = (
  dataset_line script options,
  c_str-dataset_command script options script_whole python_whole values
      (second_parts (named_args options) (names-IsPlain options))
      (all_plain-IsPlain (codes "--max-examples") refl)
      (all_plain-IsPlain (codes "--local-files-only") refl)
      (all_plain-IsPlain (codes "--trust-remote-code") refl),
  command_words-dataset_line script options,
)
