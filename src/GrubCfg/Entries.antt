-- ===== src/GrubCfg/Entries.antt =====
-- What the entries and their commands come to, by a description of the configuration's lines.
use drtm_tests.Prelude.Dict.{Dict, lookup, insert, lookup-insert}
use drtm_tests.Prelude.{
  ◌≡◌, refl, ◌∙◌, ap, Bool, false, ◌||◌, none, some, List, [], ◌∷◌, ◌++◌, map, Text, txt, text_eq,
  ◌is◌, if◌then◌else◌, get_or, strip, starts_with, split_lines, some_of, arith, ok, err,
  lookup_error, append_assoc, append-nil,
}
use drtm_tests.GrubCfg.{
  menuentry, entries_loop, entries, first_word, parameter_loop, with_parameter,
}

-- A configuration's lines: one outside the entries, or an entry with its title, the line that opens
-- it, the lines in it and the one that closes it.
pub data Block : Type 0 where
  outside : Text → Block
  entry : Text → Text → List Text → Text → Block

abbrev pub lines_of : List Block → List Text
lines_of [] = []
lines_of (outside line ∷ blocks) = line ∷ lines_of blocks
lines_of (entry title opening lines closing ∷ blocks) =
    opening ∷ (lines ++ (closing ∷ lines_of blocks))

-- No line outside opens an entry, an entry's first line does, and only its last one is a brace.
abbrev pub AreOpen : List Text → Type 0
AreOpen [] = Unit {0}
AreOpen (line ∷ lines) = ((strip line is txt "}") ≡ false) × AreOpen lines

abbrev pub AreBlocks : List Block → Type 0
AreBlocks [] = Unit {0}
AreBlocks (outside line ∷ blocks) = (menuentry (strip line) ≡ none) × AreBlocks blocks
AreBlocks (entry title opening lines closing ∷ blocks) =
    (menuentry (strip opening) ≡ some title)
    × (strip closing ≡ txt "}")
    × AreOpen lines
    × AreBlocks blocks

-- A blank line, or a comment
abbrev pub is_dropped : Text → Bool
is_dropped text = (text is []) || starts_with text (txt "#")

abbrev pub kept : List Text → List Text
kept [] = []
kept (line ∷ lines) =
    let rest = kept lines in if is_dropped (strip line) then rest else strip line ∷ rest

abbrev pub described : List Block → Dict Text (List Text) → Dict Text (List Text)
described [] found = found
described (outside line ∷ blocks) found = described blocks found
described (entry title opening lines closing ∷ blocks) found =
    described blocks (insert title (kept lines) found)

insert_again :
    (title : Text) (a b : List Text) (found : Dict Text (List Text))
    → insert title b (insert title a found) ≡ insert title b found
unfolding insert
insert_again title a b [] = ground arith
insert_again title a b (_ ∷ found) = ground (arith, insert_again title a b found)

lookup_own :
    (title : Text) (a : List Text) (found : Dict Text (List Text))
    → lookup title (insert title a found) ≡ some a
lookup_own title a found = ground (arith, lookup-insert title title a found)

appended :
    (title text : Text) (commands : List Text) (found : Dict Text (List Text))
    → insert title
        (get_or [] (lookup title (insert title commands found)) ++ (text ∷ []))
        (insert title commands found)
      ≡ insert title (commands ++ (text ∷ [])) found
appended title text commands found =
    ap (λ o. insert title (get_or [] o ++ (text ∷ [])) (insert title commands found))
      (lookup_own title commands found)
    ∙ insert_again title commands (commands ++ (text ∷ [])) found

-- The lines of an entry, some of its commands found already
entries_loop_inside :
    (title : Text) (lines rest commands : List Text) (closing : Text)
    (found : Dict Text (List Text))
    → strip closing ≡ txt "}"
    → AreOpen lines
    → entries_loop (lines ++ (closing ∷ rest)) (some title) (insert title commands found)
      ≡ entries_loop rest none (insert title (commands ++ kept lines) found)
unfolding entries_loop
entries_loop_inside title [] rest commands closing found c _ =
    rw (append-nil commands) (ground (arith, c))
entries_loop_inside title (line ∷ lines) rest commands closing found c (h, hs) = ground (
  arith,
  h,
  entries_loop_inside title lines rest commands closing found c hs,
  appended title (strip line) commands found,
  entries_loop_inside title lines rest (commands ++ (strip line ∷ [])) closing found c hs,
  append_assoc commands (strip line ∷ []) (kept lines),
)

entries_loop-described :
    (blocks : List Block) (found : Dict Text (List Text))
    → AreBlocks blocks
    → entries_loop (lines_of blocks) none found ≡ described blocks found
unfolding entries_loop
entries_loop-described [] found h = refl
entries_loop-described (outside line ∷ blocks) found (h, hs) =
    ground (arith, h, entries_loop-described blocks found hs)
entries_loop-described (entry title opening lines closing ∷ blocks) found (o, c, ls, hs) = ground (
  arith,
  o,
  entries_loop_inside title lines (lines_of blocks) [] closing found c ls
      ∙ entries_loop-described blocks (insert title (kept lines) found) hs,
)

-- A configuration whose lines are entries and lines outside of them comes to the entries by title, in
-- the order of their first places, each with its commands as a later entry of the same title leaves
-- them: its lines, stripped, without blank ones and comments. No line outside opens an entry, and
-- only an entry's last line is a closing brace.
pub entries-described :
    (config : Text) (blocks : List Block)
    → split_lines config ≡ lines_of blocks
    → AreBlocks blocks
    → entries config ≡ described blocks []
unfolding entries
entries-described config blocks e h = rw (e) (entries_loop-described blocks [] h)

-- Whether a command is the kernel's, and what it becomes
abbrev pub is_linux : Text → Bool
is_linux command = elim (first_word command) [ err e ↦ false | ok word ↦ word is txt "linux" ]

abbrev pub extended : Text → Text → Text
extended parameter command = if is_linux command then command ++ (b' ' ∷ parameter) else command

-- Commands that have a first word
abbrev pub AreCommands : List Text → Type 0
AreCommands [] = Unit {0}
AreCommands (command ∷ commands) =
    ((word : Text) × (first_word command ≡ ok word)) × AreCommands commands

parameter_loop-extended :
    (commands : List Text) (parameter : Text)
    → AreCommands commands
    → parameter_loop commands parameter
      ≡ ok (map (extended parameter) commands, some_of is_linux commands)
unfolding parameter_loop
parameter_loop-extended [] parameter h = refl
parameter_loop-extended (command ∷ commands) parameter ((word, e), h) =
    ground (arith, e, parameter_loop-extended commands parameter h)

-- The parameter goes to the end of every kernel command and of no other, and without a kernel command
-- that is a `LookupError`. No command is blank.
pub with_parameter_lem :
    (commands : List Text) (parameter : Text)
    → AreCommands commands
    → with_parameter commands parameter ≡ (
        if some_of is_linux commands
        then ok (map (extended parameter) commands)
        else err lookup_error)
unfolding with_parameter
with_parameter_lem commands parameter h = rw (parameter_loop-extended commands parameter h) refl
