-- ===== src/Dataset/Command.antt =====
-- What the parts of the command of download_hf_dataset add to its words.
use mathlib.Core.List.{append_assoc, append-nil, flat_map}
use cverl.Base.{
  sym, ◌&&◌, ℕ, suc, ◌≡◌, refl, ap, ◌∙◌, Bool, true, false, some, List, [], ◌∷◌, ◌++◌, ℤ, pos,
  pos_part, leb_ℤ, if◌then◌else◌, Bytes, codes, All, arith,
}
use cverl.Safetensors.Writer.{decimal}
use cverl.Safetensors.Scanner.{eof}
use cverl.Safetensors.Decimal.{IsDigit, decimal_loop-IsDigit, eof-decimal}
use cverl.Dataset.Defs.{quote_loop, shell_quote, empty_text, append_args, flag_text}
use cverl.Dataset.Shell.{
  unquoted, in_quotes, prepend, shell_words, is_plain, IsPlain, plain_tests, quoted_words,
  plain_words,
}

-- A rest of a line that ends the word before it and holds the words that follow.
abbrev pub Ends : Bytes → List Bytes → Type 0
Ends rest words = (word : Bytes) → shell_words unquoted (some word) rest ≡ some (word ∷ words)

Ends-word :
    (c : ℕ) (text rest : Bytes) (words : List Bytes)
    → All IsPlain (c ∷ text)
    → Ends rest words
    → Ends (b' ' ∷ ((c ∷ text) ++ rest)) ((c ∷ text) ∷ words)
unfolding shell_words
Ends-word c text rest words h ends word =
    let (space, quote, backslash) = plain_tests c h.0 in
    rw (space, quote, backslash, h.0)
      (ap (prepend (some word)) (plain_words (c ∷ []) text rest h.1 ∙ ends (c ∷ text)))

pub Ends-shell_quote :
    (value rest : Bytes) (words : List Bytes)
    → Ends rest words
    → Ends (b' ' ∷ (shell_quote value ++ rest)) (value ∷ words)
unfolding shell_words
Ends-shell_quote value rest words ends word =
    ap (λ t. prepend (some word) (shell_words in_quotes (some []) t))
      (append_assoc (quote_loop value) (b'\'' ∷ []) rest)
    ∙ ap (prepend (some word)) (quoted_words [] value rest ∙ ends value)

-- The text of a name, or of a flag, in one test.
unfoldable pub all_plain : Bytes → Bool
all_plain [] = true
all_plain (c ∷ text) = let rest = all_plain text in is_plain c && rest

pub all_plain-IsPlain : (text : Bytes) → all_plain text ≡ true → All IsPlain text
unfolding all_plain
all_plain-IsPlain [] h = tt
all_plain-IsPlain (c ∷ text) h = by_head (is_plain c) refl h (all_plain-IsPlain text)
  where
    by_head :
        (t : Bool)
        → is_plain c ≡ t
        → (t && all_plain text) ≡ true
        → (all_plain text ≡ true → All IsPlain text)
        → All IsPlain (c ∷ text)
    by_head true plain h rest = (plain, rest h)
    by_head false other h rest = cc

digit-IsPlain : (c : ℕ) → IsDigit c → IsPlain c
digit-IsPlain c h = ground arith

digits-IsPlain : (text : Bytes) → All IsDigit text → All IsPlain text
digits-IsPlain [] h = tt
digits-IsPlain (c ∷ text) h = (digit-IsPlain c h.0, digits-IsPlain text h.1)

-- A word that is not empty, of characters that stand for themselves.
pub Ends-text :
    (text rest : Bytes) (words : List Bytes)
    → eof text ≡ false
    → All IsPlain text
    → Ends rest words
    → Ends (b' ' ∷ (text ++ rest)) (text ∷ words)
Ends-text [] rest words some_text h ends = cc
Ends-text (c ∷ text) rest words some_text h ends = Ends-word c text rest words h ends

-- The end of a line ends the word before it.
pub Ends-nil : Ends [] []
unfolding shell_words
Ends-nil word = refl

-- What a name and its value add to the words.
abbrev pub arg_words : Bytes × Bytes → List Bytes
arg_words arg = if empty_text arg.1 then [] else arg.0 ∷ arg.1 ∷ []

pub Ends-append_args :
    (args : List (Bytes × Bytes)) (rest : Bytes) (words : List Bytes)
    → All (λ arg. (eof arg.0 ≡ false) × All IsPlain arg.0) args
    → Ends rest words
    → Ends (append_args args rest) (flat_map arg_words args ++ words)
unfolding append_args flat_map
Ends-append_args [] rest words h ends word = ends word
Ends-append_args (arg ∷ args) rest words h ends word =
    by_test (empty_text arg.1) (Ends-append_args args rest words h.1 ends) word
  where
    by_test :
        (t : Bool)
        → Ends (append_args args rest) (flat_map arg_words args ++ words)
        → Ends
            ((if t then [] else b' ' ∷ (arg.0 ++ (b' ' ∷ shell_quote arg.1)))
              ++ append_args args rest)
            (((if t then [] else arg.0 ∷ arg.1 ∷ []) ++ flat_map arg_words args) ++ words)
    by_test true others word = others word
    by_test false others word =
        ap (λ t. shell_words unquoted (some word) (b' ' ∷ t))
          (append_assoc arg.0 (b' ' ∷ shell_quote arg.1) (append_args args rest))
        ∙ Ends-text arg.0 (b' ' ∷ (shell_quote arg.1 ++ append_args args rest))
            (arg.1 ∷ (flat_map arg_words args ++ words)) h.0.0 h.0.1
            (Ends-shell_quote arg.1 (append_args args rest) (flat_map arg_words args ++ words)
              others)
            word

pub Ends-flag :
    (flag : Bool) (text rest : Bytes) (words : List Bytes)
    → eof text ≡ false
    → All IsPlain text
    → Ends rest words
    → Ends (flag_text flag (b' ' ∷ text) ++ rest) ((if flag then text ∷ [] else []) ++ words)
Ends-flag true text rest words some_text h ends = Ends-text text rest words some_text h ends
Ends-flag false text rest words some_text h ends = ends

-- A flag at the end of the line.
pub Ends-last_flag :
    (flag : Bool) (text : Bytes)
    → eof text ≡ false
    → All IsPlain text
    → Ends (flag_text flag (b' ' ∷ text)) (if flag then text ∷ [] else [])
Ends-last_flag true text some_text h word =
    ap (λ t. shell_words unquoted (some word) (b' ' ∷ t)) (sym (append-nil text))
    ∙ Ends-text text [] [] some_text h Ends-nil word
Ends-last_flag false text some_text h word = Ends-nil word

-- The words of the number of examples, where one is set.
abbrev pub max_words : ℤ → List Bytes
max_words max_examples =
    if leb_ℤ (pos 0) max_examples
    then codes "--max-examples" ∷ decimal (pos_part max_examples) ∷ []
    else []

pub Ends-max_words :
    (max_examples : ℤ) (rest : Bytes) (words : List Bytes)
    → Ends rest words
    → Ends
        ((if leb_ℤ (pos 0) max_examples
            then codes " --max-examples " ++ decimal (pos_part max_examples)
            else [])
          ++ rest)
        (max_words max_examples ++ words)
unfolding all_plain
Ends-max_words max_examples rest words ends = by_test (leb_ℤ (pos 0) max_examples)
  where
    n : ℕ
    n = pos_part max_examples

    by_test :
        (t : Bool)
        → Ends
            ((if t then codes " --max-examples " ++ decimal n else []) ++ rest)
            ((if t then codes "--max-examples" ∷ decimal n ∷ [] else []) ++ words)
    by_test true =
        Ends-text (codes "--max-examples") (b' ' ∷ (decimal n ++ rest)) (decimal n ∷ words) refl
          (all_plain-IsPlain (codes "--max-examples") refl)
          (Ends-text (decimal n) rest words (eof-decimal n n)
            (digits-IsPlain (decimal n) (decimal_loop-IsDigit (suc n) n)) ends)
    by_test false = ends
