-- ===== src/Console/Pcrs.antt =====
-- What `_PCR_RE` finds in the listing that `tpm2_pcrread` prints: a bank's name and a colon, then a line for
-- each PCR.
use drtm_tests.Prelude.{
  ℕ, zero, suc, ◌+◌, ◌-◌, ◌≡◌, refl, ap, ◌∙◌, Bool, true, false, not, ◌||◌, none, some, List, [],
  ◌∷◌, ◌++◌, map, Text, txt, if◌then◌else◌, every, length, length-append, drop, replicate,
  starts_with, is_space, arith, append_assoc,
}
use drtm_tests.Console.Shell.{
  is_letter, is_digit, is_hex, span, pcr_value, value_at, with_value, behind_index, with_index,
  pcr_match, search_on, pcrs_from,
}

-- A text that does not go on with a character of this kind
abbrev pub stops : (ℕ → Bool) → Text → Bool
stops test [] = true
stops test (c ∷ s) = not (test c)

span-append :
    (test : ℕ → Bool) (xs ys : Text)
    → every test xs ≡ true
    → stops test ys ≡ true
    → span test (xs ++ ys) ≡ (xs, ys)
unfolding span
span-append test [] [] h k = refl
span-append test [] (y ∷ ys) h k = ground arith
span-append test (x ∷ xs) ys h k = ground (arith, span-append test xs ys)

pass_over : (xs ys : Text) → pcrs_from (length xs) (xs ++ ys) ≡ pcrs_from 0 ys
unfolding pcrs_from
pass_over [] ys = refl
pass_over (x ∷ xs) ys = pass_over xs ys

-- A character that is no digit begins no match.
pass_other : (c : ℕ) (s : Text) → is_digit c ≡ false → pcrs_from 0 (c ∷ s) ≡ pcrs_from 0 s
unfolding pcrs_from pcr_match
pass_other c s h =
    ap (λ r. search_on (λ skip. pcrs_from skip s) (with_index r))
      (span-append is_digit [] (c ∷ s) refl (ap not h))

-- A line of the listing: the index's digits, the spaces behind them, and the value's digits.
pub record Line : Type 0 where
  pub first : ℕ
  pub index : Text
  pub gap : ℕ
  pub leading : ℕ
  pub value : Text

abbrev pub line_index : Line → Text
line_index l = l.first ∷ l.index

abbrev pub line_value : Line → Text
line_value l = l.leading ∷ l.value

abbrev pub IsLine : Line → Type 0
IsLine l = (every is_digit (line_index l) ≡ true) × (every is_hex (line_value l) ≡ true)

abbrev pub gap_of : Line → Text
gap_of l = replicate l.gap b' '

-- What a line's match is
abbrev matched : Line → Text
matched l = line_index l ++ (gap_of l ++ (txt ": 0x" ++ line_value l))

abbrev pub print_line : Line → Text
print_line l = txt "    " ++ (matched l ++ (10 ∷ []))

gap-is_space : (n : ℕ) → every is_space (replicate n b' ') ≡ true
gap-is_space zero = refl
gap-is_space (suc n) = gap-is_space n

gap-stops : (n : ℕ) (s : Text) → stops is_digit (replicate n b' ' ++ (txt ": 0x" ++ s)) ≡ true
unfolding txt
gap-stops zero s = refl
gap-stops (suc n) s = refl

colon_value :
    (l : Line) (rest : Text)
    → IsLine l
    → value_at (txt ": 0x" ++ (line_value l ++ (10 ∷ rest))) ≡ some (line_value l)
unfolding txt starts_with
colon_value l rest (digits, hex) =
    ap pcr_value (span-append is_hex (line_value l) (10 ∷ rest) hex refl)

colon-stops : (s : Text) → stops is_space (txt ": 0x" ++ s) ≡ true
unfolding txt
colon-stops s = refl

match_of :
    (l : Line) (rest : Text)
    → IsLine l
    → pcr_match (line_index l ++ (gap_of l ++ (txt ": 0x" ++ (line_value l ++ (10 ∷ rest)))))
      ≡ some (
        line_index l,
        line_value l,
        length (line_index l) + (length (gap_of l) + (4 + length (line_value l))),
      )
unfolding pcr_match
match_of l rest (digits, hex) =
    let colon = txt ": 0x" ++ (line_value l ++ (10 ∷ rest)) in
    ap with_index (
      span-append is_digit (line_index l) (gap_of l ++ colon) digits
        (gap-stops l.gap (line_value l ++ (10 ∷ rest))))
    ∙ ap (behind_index (line_index l)) (
        span-append is_space (gap_of l) colon (gap-is_space l.gap)
          (colon-stops (line_value l ++ (10 ∷ rest))))
    ∙ ap (with_value (line_index l) (gap_of l)) (colon_value l rest (digits, hex))

-- A line's text behind its first digit, as the match takes it
behind_first : Line → Text
behind_first l = l.index ++ (gap_of l ++ (txt ": 0x" ++ line_value l))

length-behind_first :
    (l : Line)
    → length (line_index l) + (length (gap_of l) + (4 + length (line_value l))) - 1
      ≡ length (behind_first l)
unfolding behind_first txt
length-behind_first l = omega (
  arith,
  length-append l.index (gap_of l ++ (txt ": 0x" ++ line_value l)),
  length-append (gap_of l) (txt ": 0x" ++ line_value l),
)

regroup : (a b c d e : Text) → (a ++ (b ++ (c ++ d))) ++ e ≡ a ++ (b ++ (c ++ (d ++ e)))
regroup a b c d e =
    append_assoc a (b ++ (c ++ d)) e
    ∙ ap (λ xs. a ++ xs) (append_assoc b (c ++ d) e ∙ ap (λ xs. b ++ xs) (append_assoc c d e))

found_line :
    (l : Line) (rest : Text)
    → IsLine l
    → pcrs_from 0 (matched l ++ (10 ∷ rest)) ≡ (line_index l, line_value l) ∷ pcrs_from 0 rest
unfolding pcrs_from behind_first
found_line l rest h =
    let same = regroup l.index (gap_of l) (txt ": 0x") (line_value l) (10 ∷ rest) in
    ap (λ m. search_on (λ skip. pcrs_from skip (behind_first l ++ (10 ∷ rest))) m)
      (ap (λ xs. pcr_match (l.first ∷ xs)) same ∙ match_of l rest h)
    ∙ ap (λ n. (line_index l, line_value l) ∷ pcrs_from n (behind_first l ++ (10 ∷ rest)))
        (length-behind_first l)
    ∙ ap (◌∷◌ (line_index l, line_value l))
        (pass_over (behind_first l) (10 ∷ rest) ∙ pass_other 10 rest refl)

indented : (s : Text) → pcrs_from 0 (txt "    " ++ s) ≡ pcrs_from 0 s
unfolding txt
indented s =
    pass_other b' ' (b' ' ∷ b' ' ∷ b' ' ∷ s) refl
    ∙ pass_other b' ' (b' ' ∷ b' ' ∷ s) refl
    ∙ pass_other b' ' (b' ' ∷ s) refl
    ∙ pass_other b' ' s refl

print_line_found :
    (l : Line) (rest : Text)
    → IsLine l
    → pcrs_from 0 (print_line l ++ rest) ≡ (line_index l, line_value l) ∷ pcrs_from 0 rest
print_line_found l rest h =
    ap (pcrs_from 0) (
      append_assoc (txt "    ") (matched l ++ (10 ∷ [])) rest
      ∙ ap (λ xs. txt "    " ++ xs) (append_assoc (matched l) (10 ∷ []) rest))
    ∙ indented (matched l ++ (10 ∷ rest))
    ∙ found_line l rest h

abbrev pub print_lines : List Line → Text
print_lines [] = []
print_lines (l ∷ lines) = print_line l ++ print_lines lines

abbrev pub AreLines : List Line → Type 0
AreLines [] = Unit {0}
AreLines (l ∷ lines) = IsLine l × AreLines lines

-- A bank's name
abbrev pub is_word : ℕ → Bool
is_word c = is_letter c || is_digit c

letter_no_space : (c : ℕ) → is_letter c ≡ true → not (is_space c) ≡ true
letter_no_space c h = ground arith

letter_no_colon : (c : ℕ) (s : Text) → is_letter c ≡ true → value_at (c ∷ s) ≡ none
unfolding txt starts_with
letter_no_colon c s h =
    ap (λ b. if b then pcr_value (span is_hex (drop 4 (c ∷ s))) else none) (not_colon s)
  where
    not_colon : (s : Text) → starts_with (c ∷ s) (txt ": 0x") ≡ false
    not_colon s = ground arith

behind_bank :
    (index bank rest : Text)
    → every is_word bank ≡ true
    → behind_index index (span is_space (span is_digit (bank ++ (b':' ∷ 10 ∷ rest))).1) ≡ none
unfolding span txt starts_with
behind_bank index [] rest h = refl
behind_bank index (c ∷ bank) rest h = cases (is_digit c) refl (behind_bank index bank rest)
  where
    tail : Text
    tail = bank ++ (b':' ∷ 10 ∷ rest)

    cases :
        (digit : Bool)
        → is_digit c ≡ digit
        → (every is_word bank ≡ true
            → behind_index index (span is_space (span is_digit tail).1) ≡ none)
        → let r : Text × Text =
            if digit
            then (c ∷ (span is_digit tail).0, (span is_digit tail).1)
            else ([], c ∷ tail) in
          behind_index index (span is_space r.1) ≡ none
    cases true e ih = ih (ground arith)
    cases false e ih =
        let letter : is_letter c ≡ true = ground arith in
        ap (behind_index index) (span-append is_space [] (c ∷ tail) refl (letter_no_space c letter))
        ∙ ap (with_value index []) (letter_no_colon c tail letter)

no_index :
    (p : Text × Text)
    → ((index : Text) → behind_index index (span is_space p.1) ≡ none)
    → with_index p ≡ none
no_index ([], rest) h = refl
no_index (i ∷ index, rest) h = h (i ∷ index)

pass_bank :
    (bank rest : Text)
    → every is_word bank ≡ true
    → pcrs_from 0 (bank ++ (b':' ∷ 10 ∷ rest)) ≡ pcrs_from 0 rest
unfolding pcrs_from pcr_match
pass_bank [] rest h = pass_other b':' (10 ∷ rest) refl ∙ pass_other 10 rest refl
pass_bank (c ∷ bank) rest h =
    ap (search_on (λ skip. pcrs_from skip (bank ++ (b':' ∷ 10 ∷ rest)))) (
      no_index (span is_digit (c ∷ (bank ++ (b':' ∷ 10 ∷ rest))))
        (λ index. behind_bank index (c ∷ bank) rest h))
    ∙ pass_bank bank rest (ground arith)

-- The listing of a bank's PCRs
abbrev pub print_pcrs : Text → List Line → Text
print_pcrs bank lines = bank ++ (b':' ∷ 10 ∷ print_lines lines)

found_lines :
    (lines : List Line)
    → AreLines lines
    → pcrs_from 0 (print_lines lines) ≡ map (λ l. (line_index l, line_value l)) lines
found_lines [] h = unfold pcrs_from in refl
found_lines (l ∷ lines) (this, h) =
    print_line_found l (print_lines lines) this
    ∙ ap (◌∷◌ (line_index l, line_value l)) (found_lines lines h)

-- What `pcrs` finds in the listing that `tpm2_pcrread` prints, under a bank's name of letters and digits, with
-- a line for each PCR: the digits of its index, any number of spaces, and its value in hexadecimal. It
-- finds each line's index and value, in their order, and nothing else, the digits in the bank's name
-- included.
pub pcrs_from-print_pcrs :
    (bank : Text) (lines : List Line)
    → every is_word bank ≡ true
    → AreLines lines
    → pcrs_from 0 (print_pcrs bank lines) ≡ map (λ l. (line_index l, line_value l)) lines
pcrs_from-print_pcrs bank lines word h =
    pass_bank bank (print_lines lines) word ∙ found_lines lines h
