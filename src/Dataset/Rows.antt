-- ===== src/Dataset/Rows.antt =====
-- The examples of a file are those of its lines that are not empty, up to the limit.
use cverl.Base.{
  ◌>>◌, ℕ, zero, suc, ◌+◌, ◌-◌, ◌<◌, ◌≡◌, refl, ap, ◌∙◌, Bool, true, false, ◌&&◌, Option, some,
  List, [], ◌∷◌, ℤ, pos, negsuc, leb, leb_ℤ, eqb_ℤ, take, Bytes, Result, ok, ◌>>=◌, map_result,
  if◌then◌else◌, arith,
}
use cverl.Dataset.Defs.{
  empty_text, JsonlDatasetOptions, PromptAnswerExample, Json, row_of, rows_loop, reserve_for,
  load_prompt_answer_jsonl,
}

unfoldable pub with_text : List Bytes → List Bytes
with_text [] = []
with_text (line ∷ lines) =
    let rest = with_text lines in if empty_text line then rest else line ∷ rest

-- At most the number of examples asked for; a negative number asks for all.
abbrev pub limited : ℤ → List Bytes → List Bytes
limited (pos n) lines = take n lines
limited (negsuc n) lines = lines

module _ {J : Type 0} (json : Json J) (options : JsonlDatasetOptions) where
  -- What the loop does behind a row, by the test of the limit.
  abbrev behind_row :
      Bool
      → Result (List PromptAnswerExample)
      → PromptAnswerExample
      → Result (List PromptAnswerExample)
  behind_row true rest row = ok (row ∷ [])
  behind_row false rest row = do rows ← rest; ok (row ∷ rows)

  abbrev at_limit : ℕ → Bool
  at_limit count =
      leb_ℤ (pos 0) options.max_examples && leb_ℤ options.max_examples (pos (count + 1))

  rows_loop-row :
      (count c : ℕ) (line : Bytes) (lines : List Bytes)
      → rows_loop json options count ((c ∷ line) ∷ lines) ≡ (
          row_of json options (c ∷ line)
          >>= behind_row (at_limit count) (rows_loop json options (count + 1) lines))
  unfolding rows_loop
  rows_loop-row count c line lines = by_test (at_limit count)
    where
      by_test :
          (t : Bool)
          → (row_of json options (c ∷ line) >>= λ row. elim t [
            | true ↦ ok (row ∷ [])
            | false ↦ do rest ← rows_loop json options (count + 1) lines; ok (row ∷ rest)
          ])
            ≡ (row_of json options (c ∷ line)
                >>= behind_row t (rows_loop json options (count + 1) lines))
      by_test true = refl
      by_test false = refl

  rows_loop-unlimited :
      (count : ℕ) (lines : List Bytes)
      → leb_ℤ (pos 0) options.max_examples ≡ false
      → rows_loop json options count lines ≡ map_result (row_of json options) (with_text lines)
  unfolding rows_loop map_result with_text
  rows_loop-unlimited count [] h = refl
  rows_loop-unlimited count ([] ∷ lines) h = rows_loop-unlimited count lines h
  rows_loop-unlimited count ((c ∷ line) ∷ lines) h =
      let rest = rows_loop json options (count + 1) lines in
      rows_loop-row count c line lines
      ∙ ap
          (λ t.
            row_of json options (c ∷ line)
            >>= behind_row (t && leb_ℤ options.max_examples (pos (count + 1))) rest)
          h
      ∙ ap (λ r. row_of json options (c ∷ line) >>= behind_row false r)
          (rows_loop-unlimited (count + 1) lines h)

  rows_loop-limited :
      (max count : ℕ) (lines : List Bytes)
      → options.max_examples ≡ pos max
      → count < max
      → rows_loop json options count lines
        ≡ map_result (row_of json options) (take (max - count) (with_text lines))
  unfolding rows_loop map_result with_text
  rows_loop-limited max count [] limit below =
      let more : max - count ≡ suc (max - count - 1) = omega arith in rw more refl
  rows_loop-limited max count ([] ∷ lines) limit below =
      rows_loop-limited max count lines limit below
  rows_loop-limited max count ((c ∷ line) ∷ lines) limit below =
      let more : max - count ≡ suc (max - (count + 1)) = omega arith in
      let test : at_limit count ≡ leb max (count + 1) =
        ap (λ m. leb_ℤ (pos 0) m && leb_ℤ m (pos (count + 1))) limit ∙ ground arith in
      rows_loop-row count c line lines
      ∙ ap
          (λ t.
            row_of json options (c ∷ line)
            >>= behind_row t (rows_loop json options (count + 1) lines))
          test
      ∙ by_test (leb max (count + 1)) refl (rows_loop-limited max (count + 1) lines limit)
      ∙ ap (λ k. map_result (row_of json options) (take k ((c ∷ line) ∷ with_text lines)))
          (more_back more)
    where
      more_back : max - count ≡ suc (max - (count + 1)) → suc (max - (count + 1)) ≡ max - count
      more_back e = omega arith

      by_test :
          (t : Bool)
          → leb max (count + 1) ≡ t
          → (count + 1 < max
              → rows_loop json options (count + 1) lines
                ≡ map_result (row_of json options) (take (max - (count + 1)) (with_text lines)))
          → (row_of json options (c ∷ line)
              >>= behind_row t (rows_loop json options (count + 1) lines))
            ≡ (row_of json options (c ∷ line) >>= λ y.
                (map_result (row_of json options) (take (max - (count + 1)) (with_text lines))
                  >>= λ ys. ok (y ∷ ys)))
      by_test true e others =
          let none_left : max - (count + 1) ≡ 0 = ground arith in
          ap
            (λ k. row_of json options (c ∷ line) >>= λ y.
              (map_result (row_of json options) (take k (with_text lines)) >>= λ ys. ok (y ∷ ys)))
            (zero_back none_left)
        where
          zero_back : max - (count + 1) ≡ 0 → 0 ≡ max - (count + 1)
          zero_back z = omega arith
      by_test false e others =
          ap (λ r. row_of json options (c ∷ line) >>= behind_row false r) (others (ground arith))

  -- From a file that can be opened, with a path and field names that are not empty: the call throws
  -- what reserving room for max_examples examples throws, if that is positive; else the examples are
  -- those of the file's first lines that are not empty, as many as max_examples says, or all where
  -- it is negative, and it throws what the first of these lines that is no row throws.
  pub load_prompt_answer_jsonl-limited :
      (lines_of : Bytes → Option (List Bytes)) (reserve : ℕ → Result (Unit {0}))
      (lines : List Bytes)
      → lines_of options.path ≡ some lines
      → empty_text options.path ≡ false
      → empty_text options.prompt_field ≡ false
      → empty_text options.answer_field ≡ false
      → load_prompt_answer_jsonl json lines_of reserve options ≡ (
          reserve_for reserve options.max_examples
          >> map_result (row_of json options) (limited options.max_examples (with_text lines)))
  unfolding load_prompt_answer_jsonl map_result
  load_prompt_answer_jsonl-limited lines_of reserve lines opened path prompt answer =
      by_max options.max_examples refl
    where
      by_max :
          (max : ℤ)
          → options.max_examples ≡ max
          → load_prompt_answer_jsonl json lines_of reserve options ≡ (
              reserve_for reserve options.max_examples
              >> map_result (row_of json options) (limited max (with_text lines)))
      by_max (pos zero) e =
          let stop : eqb_ℤ options.max_examples (pos 0) ≡ true = ap (λ m. eqb_ℤ m (pos 0)) e in
          let no_room : reserve_for reserve options.max_examples ≡ ok tt =
            ap (reserve_for reserve) e ∙ refl in
          rw (path, prompt, answer, stop, no_room) refl
      by_max (pos (suc n)) e =
          let some_rows : eqb_ℤ options.max_examples (pos 0) ≡ false =
            ap (λ m. eqb_ℤ m (pos 0)) e ∙ ground arith in
          let all : suc n - 0 ≡ suc n = omega arith in
          rw (path, prompt, answer, some_rows, opened)
            (ap (◌>>◌ (reserve_for reserve options.max_examples)) (
              rows_loop-limited (suc n) 0 lines e (omega arith)
              ∙ ap (λ k. map_result (row_of json options) (take k (with_text lines))) all))
      by_max (negsuc n) e =
          let some_rows : eqb_ℤ options.max_examples (pos 0) ≡ false =
            ap (λ m. eqb_ℤ m (pos 0)) e ∙ ground arith in
          let no_limit : leb_ℤ (pos 0) (negsuc n) ≡ false = ground arith in
          rw (path, prompt, answer, some_rows, opened)
            (ap (◌>>◌ (reserve_for reserve options.max_examples))
              (rows_loop-unlimited 0 lines (ap (leb_ℤ (pos 0)) e ∙ no_limit)))
