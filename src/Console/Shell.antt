-- ===== src/Console/Shell.antt =====
-- Commands at the shell and what is read out of what they print. What `_BANK_RE` finds is an argument.
use drtm_tests.Prelude.Dict.{Dict, lookup, has, insert}
use drtm_tests.Prelude.{
  ℕ, zero, suc, ◌+◌, ◌-◌, ◌*◌, ◌==◌, leb, Bool, ◌&&◌, ◌||◌, Option, none, some, List, [], ◌∷◌, ◌++◌,
  map, Text, txt, text_eq, nat_eq, if◌then◌else◌, starts_with, is_space, strip, lower, split_on,
  join, show, length, drop, every, Result, ok, err, lookup_error, or_raise, key_error,
}
use drtm_tests.Console.{Terminal, enter, then_do}

abbrev pub is_letter : ℕ → Bool
is_letter c = (leb b'a' c && leb c b'z') || (leb b'A' c && leb c b'Z')

abbrev pub is_digit : ℕ → Bool
is_digit c = leb b'0' c && leb c b'9'

-- How much of `[0-9;?]*[a-zA-Z]` stands at the start, none if it does not stand there
unfoldable pub csi_length : Text → Option ℕ
csi_length [] = none
csi_length (c ∷ s) =
    let more = csi_length s in
    if is_letter c
    then some 1
    else if is_digit c || ((c == b';') || (c == b'?'))
    then (elim more [ none ↦ none | some n ↦ some (suc n) ])
    else none

-- Behind an escape character: how much more the sequence takes
abbrev pub after_escape : Text → Option ℕ
after_escape [] = none
after_escape (c ∷ []) = if (c == b'=') || (c == b'>') then some 1 else none
after_escape (c ∷ d ∷ s) =
    let csi = csi_length (d ∷ s) in
    if c == b'['
    then (elim csi [ none ↦ none | some n ↦ some (suc n) ])
    else if (c == b'(') || (c == b')')
    then (if (leb b'A' d && leb d b'Z') || is_digit d then some 2 else none)
    else if (c == b'=') || (c == b'>')
    then some 1
    else none

-- `_ANSI_RE.sub("", text)`, with how much of a sequence is still to be dropped
unfoldable pub strip_from : ℕ → Text → Text
unfolding csi_length
strip_from skip [] = []
strip_from (suc skip) (c ∷ s) = strip_from skip s
strip_from zero (c ∷ s) =
    let kept = c ∷ strip_from 0 s in
    let dropped : Text = elim (after_escape s) [ none ↦ kept | some n ↦ strip_from n s ] in
    if c == 27 then dropped else kept

abbrev pub strip_ansi : Text → Text
strip_ansi text = strip_from 0 text

-- `lines[1:-1]`
abbrev pub but_last : List Text → List Text
but_last [] = []
but_last (l ∷ []) = []
but_last (l ∷ m ∷ ls) = l ∷ but_last (m ∷ ls)

abbrev pub inner : List Text → List Text
inner lines = but_last (drop 1 lines)

abbrev pub without_returns : Text → Text
without_returns [] = []
without_returns (c ∷ s) = if c == 13 then without_returns s else c ∷ without_returns s

-- What a command printed, of the text up to the next prompt
unfoldable pub output_of : Text → Text
unfolding strip_from
output_of out = strip (join (10 ∷ []) (inner (split_on 10 (without_returns (strip_ansi out)))))

abbrev pub is_hex : ℕ → Bool
is_hex c = is_digit c || ((leb b'a' c && leb c b'f') || (leb b'A' c && leb c b'F'))

-- The longest start of a text whose characters pass a test, and how long the rest is shorter
unfoldable pub span : (ℕ → Bool) → Text → Text × Text
span test [] = ([], [])
span test (c ∷ s) =
    let (taken, rest) = span test s in if test c then (c ∷ taken, rest) else ([], c ∷ s)

-- The value of a text that goes on behind ": 0x"
abbrev pub pcr_value : Text × Text → Option Text
pcr_value ([], left) = none
pcr_value (d ∷ digits, left) = some (d ∷ digits)

abbrev pub value_at : Text → Option Text
value_at colon =
    let value = pcr_value (span is_hex (drop 4 colon)) in
    if starts_with colon (txt ": 0x") then value else none

-- The match behind the index's digits, with how much it takes
abbrev pub with_value : Text → Text → Option Text → Option (Text × Text × ℕ)
with_value index spaces none = none
with_value index spaces (some value) =
    some (index, value, length index + (length spaces + (4 + length value)))

abbrev pub behind_index : Text → Text × Text → Option (Text × Text × ℕ)
behind_index index (spaces, colon) = with_value index spaces (value_at colon)

abbrev pub with_index : Text × Text → Option (Text × Text × ℕ)
with_index ([], rest) = none
with_index (i ∷ index, rest) = behind_index (i ∷ index) (span is_space rest)

-- `_PCR_RE` at the start: the index's digits, the value's, and how much the match takes
unfoldable pub pcr_match : Text → Option (Text × Text × ℕ)
unfolding span
pcr_match s = with_index (span is_digit s)

-- The search goes on behind a match, or at the next character.
abbrev pub search_on : (ℕ → List (Text × Text)) → Option (Text × Text × ℕ) → List (Text × Text)
search_on next none = next 0
search_on next (some (index, value, taken)) = (index, value) ∷ next (taken - 1)

-- `_PCR_RE.findall(out)`, with how much of the last match is still to be passed
unfoldable pub pcrs_from : ℕ → Text → List (Text × Text)
unfolding pcr_match
pcrs_from skip [] = []
pcrs_from (suc skip) (c ∷ s) = pcrs_from skip s
pcrs_from zero (c ∷ s) = search_on (λ skip. pcrs_from skip s) (pcr_match (c ∷ s))

-- `int(i)` of digits
unfoldable pub int_from : ℕ → Text → ℕ
int_from value [] = value
int_from value (c ∷ s) = int_from (value * 10 + (c - b'0')) s

unfoldable pub found_from : List (Text × Text) → Dict ℕ Text → Dict ℕ Text
unfolding int_from
found_from [] found = found
found_from ((index, value) ∷ matches) found =
    found_from matches (insert (int_from 0 index) (lower value) found)

-- `{i: found[i] for i in indices}`, of indices that are there
unfoldable pub chosen_from : List ℕ → Dict ℕ Text → Dict ℕ Text → Result (Dict ℕ Text)
chosen_from [] found chosen = ok chosen
chosen_from (i ∷ indices) found chosen = elim (lookup i found) [
  | none ↦ err key_error
  | some value ↦ chosen_from indices found (insert i value chosen)
]

-- `pcrs` on what its command printed
unfoldable pub pcrs_of : List ℕ → Text → Result (Dict ℕ Text)
unfolding pcrs_from found_from chosen_from
pcrs_of indices out =
    let found = found_from (pcrs_from 0 out) [] in
    if every (λ i. has i found) indices then chosen_from indices found [] else err lookup_error

unfoldable pub banks_with_pcrs : List (Text × Text) → List Text
banks_with_pcrs [] = []
banks_with_pcrs ((bank, pcrs) ∷ banks) =
    let rest = banks_with_pcrs banks in elim (strip pcrs) [ [] ↦ rest | c ∷ s ↦ bank ∷ rest ]

-- `pcr_banks` on what `_BANK_RE` finds
unfoldable pub banks_of : List (Text × Text) → Result (List Text)
unfolding banks_with_pcrs
banks_of found = elim (banks_with_pcrs found) [ [] ↦ err lookup_error | b ∷ banks ↦ ok (b ∷ banks) ]

module _ {σ : Type 0} (vm : Terminal σ) (command_timeout : ℕ) where
  unfoldable pub run : Text → σ → σ × Result Text
  unfolding output_of
  run command s =
      then_do (vm.expect (txt "root@tb:~#") command_timeout [] [] (vm.send (command ++ enter) s))
        (λ out t. (t, ok (output_of out)))

  unfoldable pub pcrs : List ℕ → Text → σ → σ × Result (Dict ℕ Text)
  unfolding run pcrs_of
  pcrs indices bank s =
      then_do (run (txt "tpm2_pcrread " ++ (bank ++ (b':' ∷ join (txt ",") (map show indices)))) s)
        (λ out t. (t, pcrs_of indices out))

  -- `pcr`
  unfoldable pub pcr : ℕ → σ → σ × Result Text
  unfolding pcrs
  pcr index s =
      then_do (pcrs (index ∷ []) (txt "sha256") s)
        (λ found t. (t, or_raise key_error (lookup index found)))

  unfoldable pub pcr_banks : (Text → List (Text × Text)) → σ → σ × Result (List Text)
  unfolding run banks_of
  pcr_banks find_banks s =
      then_do (run (txt "tpm2_getcap pcrs") s) (λ out t. (t, banks_of (find_banks out)))
