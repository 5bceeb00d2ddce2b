-- ===== src/GrubCfg.antt =====
-- drtmtest/grubcfg.py: the boot partition, the menu's entries and a kernel parameter. What `mtype`
-- prints of the configuration is an argument.
pub mod Entries
pub mod Partition
mod Tests
use drtm_tests.Prelude.Dict.{Dict, lookup, has, keys, insert}
use drtm_tests.Prelude.{
  ℕ, zero, suc, ◌+◌, ◌*◌, ◌<◌, Bool, true, false, not, ◌&&◌, ◌||◌, Option, none, some, List, [],
  ◌∷◌, ◌++◌, Text, Bytes, txt, text_eq, nat_eq, option_eq, ◌is◌, ◌==◌, ltb, if◌then◌else◌, get_or,
  get_elem?, length, take, drop, starts_with, split_lines, strip, some_of, Error, Result, ok, err,
  ◌>>=◌, or_raise, value_error, lookup_error, runtime_error, index_error, is_space,
}
use drtm_tests.EventLog.{u32_at}

-- The type of an EFI system partition
abbrev pub esp : ℕ
esp = 0xef

-- The loop over the partition table, `n` entries left from number `i` on.
unfoldable pub partition_loop : ℕ → ℕ → Bytes → Result ℕ
partition_loop zero i mbr = err lookup_error
partition_loop (suc n) i mbr =
    let entry = take 16 (drop (446 + 16 * i) mbr) in
    let rest = partition_loop n (i + 1) mbr in
    elim (get_elem? entry 4) [
      | none ↦ err index_error
      | some kind ↦ if kind == esp then (u32_at entry 8 >>= λ start. ok (start * 512)) else rest
    ]

-- `boot_partition_offset`, of the image's bytes
unfoldable pub boot_partition_offset : Bytes → Result ℕ
unfolding partition_loop
boot_partition_offset image =
    let mbr = take 512 image in
    if ltb (length mbr) 512
      || not (get_elem? mbr 510 is some 0x55 && get_elem? mbr 511 is some 0xaa)
    then err value_error
    else partition_loop 4 0 mbr

-- The rest of a line behind `{`: the title ends at the first closing quote that only white space
-- and a brace follow.
abbrev pub after_spaces : Text → Text
after_spaces [] = []
after_spaces (c ∷ s) = if is_space c then after_spaces s else c ∷ s

unfoldable pub title_to : ℕ → Text → Option Text
title_to quote [] = none
title_to quote (c ∷ s) =
    let rest = title_to quote s in
    if (c == quote) && (after_spaces s is txt "{")
    then some []
    else elim rest [ none ↦ none | some title ↦ some (c ∷ title) ]

abbrev pub quoted : Text → Option Text
quoted [] = none
quoted (q ∷ s) = if (q == b'\'') || (q == b'"') then title_to q s else none

abbrev pub spaced : Text → Option Text
spaced [] = none
spaced (c ∷ s) = if is_space c then quoted (after_spaces s) else none

-- `_MENUENTRY_RE` on a stripped line: the entry's title
unfoldable pub menuentry : Text → Option Text
unfolding title_to
menuentry line = if starts_with line (txt "menuentry") then spaced (drop 9 line) else none

-- The loop of `entries`: the entry that it is in, and what it found.
unfoldable pub entries_loop :
    List Text → Option Text → Dict Text (List Text) → Dict Text (List Text)
entries_loop [] title found = found
entries_loop (line ∷ lines) none found = elim (menuentry (strip line)) [
  | none ↦ entries_loop lines none found
  | some title ↦ entries_loop lines (some title) (insert title [] found)
]
entries_loop (line ∷ lines) (some title) found =
    let text = strip line in
    let closed = entries_loop lines none found in
    let skipped = entries_loop lines (some title) found in
    let added =
      entries_loop lines (some title)
        (insert title (get_or [] (lookup title found) ++ (text ∷ [])) found) in
    if text is txt "}"
    then closed
    else if (text is []) || starts_with text (txt "#")
    then skipped
    else added

unfoldable pub entries : Text → Dict Text (List Text)
unfolding menuentry entries_loop
entries config = entries_loop (split_lines config) none []

-- `command.split(maxsplit=1)[0]`
abbrev pub word_of : Text → Text
word_of [] = []
word_of (c ∷ s) = if is_space c then [] else c ∷ word_of s

unfoldable pub first_word : Text → Result Text
first_word command = elim (after_spaces command) [
  | [] ↦ err index_error
  | c ∷ s ↦ ok (word_of (c ∷ s))
]

-- The loop of `with_parameter`: the commands, and whether one was the kernel's.
unfoldable pub parameter_loop : List Text → Text → Result (List Text × Bool)
unfolding first_word
parameter_loop [] parameter = ok ([], false)
parameter_loop (command ∷ commands) parameter = do
  word ← first_word command
  (out, found) ← parameter_loop commands parameter
  ok (
      if word is txt "linux"
      then ((command ++ (b' ' ∷ parameter)) ∷ out, true)
      else (command ∷ out, found))

unfoldable pub with_parameter : List Text → Text → Result (List Text)
unfolding parameter_loop
with_parameter commands parameter = do
  (out, found) ← parameter_loop commands parameter
  if found then ok out else err lookup_error

-- `read`: what `mtype` prints of the file at the partition's offset, or `none` when it fails.
unfoldable pub read : (ℕ → Option Text) → Bytes → Result Text
read mtype image = do offset ← boot_partition_offset image; or_raise runtime_error (mtype offset)

unfoldable pub commands : (ℕ → Option Text) → Bytes → Text → Option Text → Result (List Text)
unfolding read
commands mtype image title parameter = do
  config ← read mtype image
  entry ← or_raise lookup_error (lookup title (entries config))
  elim parameter [ none ↦ ok entry | some p ↦ with_parameter entry p ]
