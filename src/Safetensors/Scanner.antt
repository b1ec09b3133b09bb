-- ===== src/Safetensors/Scanner.antt =====
-- The class JsonScanner. A scanner is the text from its position on. `std::stoll` throws
-- `out_of_range` for a number that does not fit and `invalid_argument` where there is no digit.
use cverl.Base.{
  ℕ, zero, suc, ◌+◌, ◌-◌, ◌*◌, ◌^◌, Bool, true, false, not, ◌&&◌, ◌||◌, List, [], ◌∷◌, ℤ, pos,
  sub_ℕ, ltb, leb, ◌==◌, if◌then◌else◌, length, drop, Bytes, is_digit, is_space, Result, ok, err,
  ◌>>=◌, ◌>>◌, throw_if, invalid_argument, out_of_range, runtime_error,
}

abbrev pub JsonScanner : Type 0
JsonScanner = Bytes

abbrev pub eof : JsonScanner → Bool
eof [] = true
eof (c ∷ cs) = false

unfoldable pub skip_ws : JsonScanner → JsonScanner
skip_ws [] = []
skip_ws (c ∷ cs) = let rest = skip_ws cs in if is_space c then rest else c ∷ cs

-- `!eof() && text_[pos_] == c`
abbrev pub stands_at : ℕ → JsonScanner → Bool
stands_at expected [] = false
stands_at expected (c ∷ cs) = c == expected

unfoldable pub consume : ℕ → JsonScanner → Bool × JsonScanner
consume expected text =
    let s = skip_ws text in if stands_at expected s then (true, drop 1 s) else (false, s)

unfoldable pub expect : ℕ → JsonScanner → Result JsonScanner
expect expected text = do let c = consume expected text; throw_if (not c.0) runtime_error; ok c.1

-- The inner switch: what a character stands for behind a backslash.
abbrev pub unescape : ℕ → ℕ
unescape c = if c == b'n' then 10 else if c == b't' then 9 else c

abbrev push : ℕ → Result (Bytes × JsonScanner) → Result (Bytes × JsonScanner)
push c rest = do r ← rest; ok (c ∷ r.0, r.1)

-- The loop of `string`; the flag is set behind a backslash.
unfoldable pub string_loop : Bool → JsonScanner → Result (Bytes × JsonScanner)
string_loop escaped [] = err runtime_error
string_loop true (c ∷ cs) = push (unescape c) (string_loop false cs)
string_loop false (c ∷ cs) =
    let escape = c == b'\\' in
    let rest = string_loop escape cs in
    if c == b'"' then ok ([], cs) else if escape then rest else push c rest

unfoldable pub string : JsonScanner → Result (Bytes × JsonScanner)
string text = do text ← expect b'"' (skip_ws text); string_loop false text

-- The digits at the front, and what follows them.
unfoldable pub digit_run : JsonScanner → Bytes × JsonScanner
digit_run [] = ([], [])
digit_run (c ∷ cs) = let r = digit_run cs in if is_digit c then (c ∷ r.0, r.1) else ([], c ∷ cs)

unfoldable pub digits_value : ℕ → Bytes → ℕ
digits_value v [] = v
digits_value v (d ∷ ds) = digits_value (v * 10 + (d - b'0')) ds

unfoldable pub stoll : Bool → Bytes → Result ℤ
stoll negative digits = do
  throw_if (eof digits) invalid_argument
  let v = digits_value 0 digits
  throw_if (if negative then ltb (2 ^ 63) v else leb (2 ^ 63) v) out_of_range
  ok (if negative then sub_ℕ 0 v else pos v)

unfoldable pub integer : JsonScanner → Result (ℤ × JsonScanner)
integer text = do
  let s = skip_ws text
  let negative = stands_at b'-' s
  let run = digit_run (if negative then drop 1 s else s)
  throw_if (not negative && eof run.0) runtime_error
  n ← stoll negative run.0
  ok (n, run.1)

-- The loop of `int_array`; each round takes a character or more, which bounds the rounds.
unfoldable pub int_array_loop : ℕ → JsonScanner → Result (List ℤ × JsonScanner)
int_array_loop zero text = err runtime_error
int_array_loop (suc fuel) text = do
  n ← integer text
  let c = consume b']' n.1
  if c.0
      then ok (n.0 ∷ [], c.1)
      else (do text ← expect b',' c.1; rest ← int_array_loop fuel text; ok (n.0 ∷ rest.0, rest.1))

unfoldable pub int_array : JsonScanner → Result (List ℤ × JsonScanner)
int_array text = do
  text ← expect b'[' text
  let c = consume b']' (skip_ws text)
  if c.0 then ok ([], c.1) else int_array_loop (suc (length c.1)) c.1

-- The run of characters that ends a number or a word.
unfoldable pub skip_word : JsonScanner → JsonScanner
skip_word [] = []
skip_word (c ∷ cs) =
    let rest = skip_word cs in if c == b',' || c == b'}' || c == b']' then c ∷ cs else rest

-- What the first character of a value says about it.
pub data ValueKind : Type 0 where
  end_of_text string_value object_value array_value word_value : ValueKind

abbrev pub value_kind : JsonScanner → ValueKind
value_kind [] = end_of_text
value_kind (c ∷ cs) =
    if c == b'"'
    then string_value
    else if c == b'{'
    then object_value
    else if c == b'['
    then array_value
    else word_value

-- `skip_value` and its two loops; a call takes a character or more before the next one.
unfoldable mutual
  pub skip_value : ℕ → JsonScanner → Result JsonScanner
  skip_value zero text = err runtime_error
  skip_value (suc fuel) text =
      let s = skip_ws text in
      elim (value_kind s) [
        | end_of_text ↦ err runtime_error
        | string_value ↦ do r ← string s; ok r.1
        | object_value ↦ do
          s ← expect b'{' s
          let c = consume b'}' (skip_ws s)
          elim c.0 [ true ↦ ok c.1 | false ↦ skip_members fuel c.1 ]
        | array_value ↦ do
          s ← expect b'[' s
          let c = consume b']' (skip_ws s)
          elim c.0 [ true ↦ ok c.1 | false ↦ skip_elements fuel c.1 ]
        | word_value ↦ ok (skip_word s)
      ]

  pub skip_members : ℕ → JsonScanner → Result JsonScanner
  skip_members zero text = err runtime_error
  skip_members (suc fuel) text = do
    key ← string text
    s ← expect b':' key.1
    s ← skip_value fuel s
    let c = consume b'}' s
    elim c.0 [ true ↦ ok c.1 | false ↦ do s ← expect b',' c.1; skip_members fuel s ]

  pub skip_elements : ℕ → JsonScanner → Result JsonScanner
  skip_elements zero text = err runtime_error
  skip_elements (suc fuel) text = do
    s ← skip_value fuel text
    let c = consume b']' s
    elim c.0 [ true ↦ ok c.1 | false ↦ do s ← expect b',' c.1; skip_elements fuel s ]
