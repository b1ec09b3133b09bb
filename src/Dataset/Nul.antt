-- ===== src/Dataset/Nul.antt =====
-- NUL bytes in the command of download_hf_dataset, and what popen gets of it.
use cverl.Base.{
  ℕ, ◌≡◌, refl, true, false, List, [], ◌∷◌, ◌++◌, pos, pos_part, leb_ℤ, ◌==◌, if◌then◌else◌, Bool,
  Bool-cases, inl, inr, Bytes, codes, All, All-append, arith, suc,
}
use cverl.Safetensors.Writer.{decimal}
use cverl.Safetensors.Decimal.{IsDigit, decimal_loop-IsDigit}
use cverl.Dataset.Defs.{
  quote_loop, shell_quote, empty_text, append_args, flag_text, HfDatasetOptions, named_args,
  dataset_line, dataset_command, c_str,
}
use cverl.Dataset.Shell.{IsPlain}

-- A text without the character 0.
abbrev pub HoldsNoNul : Bytes → Type 0
HoldsNoNul = All (λ c. (c == 0) ≡ false)

c_str-HoldsNoNul : (text : Bytes) → HoldsNoNul text → c_str text ≡ text
unfolding c_str
c_str-HoldsNoNul [] h = refl
c_str-HoldsNoNul (c ∷ text) h = rw (h.0, c_str-HoldsNoNul text h.1)

plain-HoldsNoNul : (text : Bytes) → All IsPlain text → HoldsNoNul text
plain-HoldsNoNul [] h = tt
plain-HoldsNoNul (c ∷ text) h = (not_nul c h.0, plain-HoldsNoNul text h.1)
  where
    not_nul : (c : ℕ) → IsPlain c → (c == 0) ≡ false
    not_nul c h = ground arith

digits-HoldsNoNul : (text : Bytes) → All IsDigit text → HoldsNoNul text
digits-HoldsNoNul [] h = tt
digits-HoldsNoNul (c ∷ text) h = (not_nul c h.0, digits-HoldsNoNul text h.1)
  where
    not_nul : (c : ℕ) → IsDigit c → (c == 0) ≡ false
    not_nul c h = ground arith

quote_loop-HoldsNoNul : (value : Bytes) → HoldsNoNul value → HoldsNoNul (quote_loop value)
unfolding quote_loop
quote_loop-HoldsNoNul [] h = tt
quote_loop-HoldsNoNul (ch ∷ value) h = elim (Bool-cases (ch == b'\'')) [
  | inl quote ↦ rw quote (refl, (refl, (refl, (refl, quote_loop-HoldsNoNul value h.1))))
  | inr other ↦ rw other (h.0, quote_loop-HoldsNoNul value h.1)
]

shell_quote-HoldsNoNul : (value : Bytes) → HoldsNoNul value → HoldsNoNul (shell_quote value)
shell_quote-HoldsNoNul value h =
    (refl, All-append _ (quote_loop value) (b'\'' ∷ []) (quote_loop-HoldsNoNul value h) (refl, tt))

append_args-HoldsNoNul :
    (args : List (Bytes × Bytes)) (rest : Bytes)
    → All (λ arg. All IsPlain arg.0) args
    → All (λ arg. HoldsNoNul arg.1) args
    → HoldsNoNul rest
    → HoldsNoNul (append_args args rest)
unfolding append_args
append_args-HoldsNoNul [] rest names values h = h
append_args-HoldsNoNul (arg ∷ args) rest names values h =
    All-append _ _ (append_args args rest) (by_test (empty_text arg.1))
      (append_args-HoldsNoNul args rest names.1 values.1 h)
  where
    by_test :
        (t : Bool) → HoldsNoNul (if t then [] else b' ' ∷ (arg.0 ++ (b' ' ∷ shell_quote arg.1)))
    by_test true = tt
    by_test false = (
      refl,
      All-append _ arg.0 (b' ' ∷ shell_quote arg.1) (plain-HoldsNoNul arg.0 names.0)
          (refl, shell_quote-HoldsNoNul arg.1 values.0),
    )

flag-HoldsNoNul :
    (flag : Bool) (text : Bytes) → All IsPlain text → HoldsNoNul (flag_text flag (b' ' ∷ text))
flag-HoldsNoNul true text h = (refl, plain-HoldsNoNul text h)
flag-HoldsNoNul false text h = tt

max-HoldsNoNul :
    (t : Bool) (n : ℕ)
    → All IsPlain (codes "--max-examples")
    → HoldsNoNul (if t then codes " --max-examples " ++ decimal n else [])
max-HoldsNoNul true n h = (
  refl,
  All-append _ (codes "--max-examples") (b' ' ∷ decimal n)
      (plain-HoldsNoNul (codes "--max-examples") h)
      (refl, digits-HoldsNoNul (decimal n) (decimal_loop-IsDigit (suc n) n)),
)
max-HoldsNoNul false n h = tt

-- What popen gets, given that the names and the flags are plain.
pub c_str-dataset_command :
    (script : Bytes) (options : HfDatasetOptions)
    → HoldsNoNul script
    → HoldsNoNul options.python_executable
    → All (λ arg. HoldsNoNul arg.1) (named_args options)
    → All (λ arg. All IsPlain arg.0) (named_args options)
    → All IsPlain (codes "--max-examples")
    → All IsPlain (codes "--local-files-only")
    → All IsPlain (codes "--trust-remote-code")
    → c_str (dataset_command script options) ≡ dataset_line script options ++ codes " 2>&1"
unfolding dataset_command dataset_line
c_str-dataset_command script options script_whole python_whole values names max local trust =
    c_str-HoldsNoNul (dataset_line script options ++ codes " 2>&1") (
      All-append _ (dataset_line script options) (codes " 2>&1") line_whole
        (refl, (refl, (refl, (refl, (refl, tt))))))
  where
    line_whole : HoldsNoNul (dataset_line script options)
    line_whole =
        unfold dataset_line in
        (All-append _ (shell_quote options.python_executable) _
          (shell_quote-HoldsNoNul options.python_executable python_whole)
          (
            refl,
            All-append _ (shell_quote script) _ (shell_quote-HoldsNoNul script script_whole) (
                append_args-HoldsNoNul (named_args options) _ names values (
                  All-append _ _ _
                    (max-HoldsNoNul (leb_ℤ (pos 0) options.max_examples)
                      (pos_part options.max_examples) max)
                    (All-append _ _ _
                      (flag-HoldsNoNul options.local_files_only (codes "--local-files-only") local)
                      (flag-HoldsNoNul options.trust_remote_code (codes "--trust-remote-code")
                        trust)))),
          ))
