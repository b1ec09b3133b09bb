-- ===== src/Dataset/Shell.antt =====
-- The words of a simple command line, for the part of the POSIX shell's language that they need.
use mathlib.Core.List.{append_assoc, append-nil}
use cverl.Base.{
  Bool, true, ◌&&◌, ◌||◌, leb, is_digit, ℕ, ◌≡◌, ap, sym, ◌∙◌, inl, inr, false, Option, none, some,
  List, [], ◌∷◌, ◌++◌, ◌==◌, if◌then◌else◌, Bool-cases, Bytes, All, arith,
}
use cverl.Dataset.Defs.{quote_loop}

-- Where a shell stands in a line: outside quotes, between single quotes, or behind a backslash.
pub data ShellMode : Type 0 where
  unquoted in_quotes behind_backslash : ShellMode

abbrev pub word_of : Option Bytes → Bytes
word_of none = []
word_of (some word) = word

abbrev pub prepend : Option Bytes → Option (List Bytes) → Option (List Bytes)
prepend current none = none
prepend none (some words) = some words
prepend (some word) (some words) = some (word ∷ words)

-- A character that stands for itself outside quotes, wherever in a word.
abbrev pub is_plain : ℕ → Bool
is_plain c =
    (leb b'a' c && leb c b'z')
    || (leb b'A' c && leb c b'Z')
    || is_digit c
    || c == b'-'
    || c == b'_'
    || c == b'.'
    || c == b'/'

-- The words of a line of quoted text, escaped characters, spaces and characters that stand for
-- themselves. There are none where a quote or a backslash is left open, and none where another
-- character is met outside quotes, to which a shell may give a meaning (`;`, `$`, a newline ...).
unfoldable pub shell_words : ShellMode → Option Bytes → Bytes → Option (List Bytes)
shell_words unquoted current [] = prepend current (some [])
shell_words in_quotes current [] = none
shell_words behind_backslash current [] = none
shell_words behind_backslash current (c ∷ line) =
    let on = shell_words unquoted (some (word_of current ++ (c ∷ []))) line in
    if c == 10 then none else on
shell_words in_quotes current (c ∷ line) =
    let on = shell_words in_quotes (some (word_of current ++ (c ∷ []))) line in
    let out = shell_words unquoted current line in if c == b'\'' then out else on
shell_words unquoted current (c ∷ line) =
    let next = shell_words unquoted none line in
    let quote = shell_words in_quotes (some (word_of current)) line in
    let escape = shell_words behind_backslash current line in
    let on = shell_words unquoted (some (word_of current ++ (c ∷ []))) line in
    if c == b' '
    then prepend current next
    else if c == b'\''
    then quote
    else if c == b'\\'
    then escape
    else if is_plain c
    then on
    else none

-- The words of a line that begins with a quote, so that its first word is no reserved word, alias or
-- assignment: a simple command.
abbrev pub command_words : Bytes → Option (List Bytes)
command_words [] = none
command_words (c ∷ line) =
    let words = shell_words in_quotes (some []) line in if c == b'\'' then words else none

abbrev pub IsPlain : ℕ → Type 0
IsPlain c = is_plain c ≡ true

pub plain_tests :
    (c : ℕ) → IsPlain c → ((c == b' ') ≡ false) × ((c == b'\'') ≡ false) × ((c == b'\\') ≡ false)
plain_tests c h = (ground arith, ground arith, ground arith)

pub quoted_words :
    (word value rest : Bytes)
    → shell_words in_quotes (some word) (quote_loop value ++ (b'\'' ∷ rest))
      ≡ shell_words unquoted (some (word ++ value)) rest
unfolding shell_words quote_loop
quoted_words word [] rest = ap (λ w. shell_words unquoted (some w) rest) (sym (append-nil word))
quoted_words word (c ∷ value) rest = elim (Bool-cases (c == b'\'')) [
  | inl quote ↦
      let here : c ≡ b'\'' = ground arith in
      rw here (
        quoted_words (word ++ (b'\'' ∷ [])) value rest
        ∙ ap (λ w. shell_words unquoted (some w) rest) (append_assoc word (b'\'' ∷ []) value))
  | inr other ↦
      rw (other, other)
        (quoted_words (word ++ (c ∷ [])) value rest
          ∙ ap (λ w. shell_words unquoted (some w) rest) (append_assoc word (c ∷ []) value))
]

pub plain_words :
    (word text rest : Bytes)
    → All IsPlain text
    → shell_words unquoted (some word) (text ++ rest)
      ≡ shell_words unquoted (some (word ++ text)) rest
unfolding shell_words
plain_words word [] rest h = ap (λ w. shell_words unquoted (some w) rest) (sym (append-nil word))
plain_words word (c ∷ text) rest h =
    let (space, quote, backslash) = plain_tests c h.0 in
    rw (space, quote, backslash, h.0)
      (plain_words (word ++ (c ∷ [])) text rest h.1
        ∙ ap (λ w. shell_words unquoted (some w) rest) (append_assoc word (c ∷ []) text))
