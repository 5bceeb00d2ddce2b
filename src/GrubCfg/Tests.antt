-- ===== src/GrubCfg/Tests.antt =====
-- A small configuration and a boot record, and the theorems at them.
use drtm_tests.Prelude.Dict.{insert}
use drtm_tests.Prelude.{
  ℕ, zero, suc, arith, ◌≡◌, refl, ◌++◌, List, [], ◌∷◌, Text, Bytes, txt, text_eq, option_eq, nat_eq,
  ok, split_lines, strip, starts_with, replicate,
}
use drtm_tests.Prelude.Hex.{AreBytes}
use drtm_tests.GrubCfg.Partition.{Describes, boot_partition_offset-Describes}
use drtm_tests.EventLog.{u32_at}
use drtm_tests.GrubCfg.{boot_partition_offset, menuentry, entries}
use drtm_tests.GrubCfg.Entries.{outside, entry, Block, entries-described}

abbrev newline : Text
newline = 10 ∷ []

abbrev config : Text
config =
    txt "set timeout=5"
    ++ (newline
        ++ (txt "menuentry 'Boot Xen' {"
            ++ (newline
                ++ (txt "  # a comment"
                    ++ (newline ++ (txt "  linux /bzImage" ++ (newline ++ txt "}")))))))

abbrev blocks : List Block
blocks =
    outside (txt "set timeout=5")
    ∷ entry (txt "Boot Xen") (txt "menuentry 'Boot Xen' {")
        (txt "  # a comment" ∷ txt "  linux /bzImage" ∷ []) (txt "}")
    ∷ []

entries-described_example : entries config ≡ (txt "Boot Xen", txt "linux /bzImage" ∷ []) ∷ []
unfolding menuentry split_lines strip starts_with insert text_eq txt
entries-described_example =
    entries-described config blocks refl (refl, ((refl, refl, (refl, (refl, tt)), tt)))

-- The second partition is the EFI one, and starts at sector 2048.
abbrev boot_record : Bytes
boot_record =
    replicate 446 0
    ++ (replicate 16 0
        ++ ((0 ∷ 0 ∷ 0 ∷ 0 ∷ 0xef ∷ 0 ∷ 0 ∷ 0 ∷ 0 ∷ 8 ∷ 0 ∷ 0 ∷ 0 ∷ 0 ∷ 0 ∷ 0 ∷ [])
            ++ (replicate 32 0 ++ (0x55 ∷ 0xaa ∷ []))))

second : boot_partition_offset boot_record ≡ ok 1048576
unfolding boot_partition_offset u32_at option_eq nat_eq
second = refl

append-AreBytes : (xs ys : Bytes) → AreBytes xs → AreBytes ys → AreBytes (xs ++ ys)
append-AreBytes [] ys h k = k
append-AreBytes (x ∷ xs) ys (lt, h) k = (lt, append-AreBytes xs ys h k)

replicate-AreBytes : (n : ℕ) → AreBytes (replicate n 0)
replicate-AreBytes zero = tt
replicate-AreBytes (suc n) = (omega arith, replicate-AreBytes n)

abbrev second_entry : Bytes
second_entry = 0 ∷ 0 ∷ 0 ∷ 0 ∷ 0xef ∷ 0 ∷ 0 ∷ 0 ∷ 0 ∷ 8 ∷ 0 ∷ 0 ∷ 0 ∷ 0 ∷ 0 ∷ 0 ∷ []

abbrev signature : Bytes
signature = 0x55 ∷ 0xaa ∷ []

abbrev table_end : Bytes
table_end = second_entry ++ (replicate 32 0 ++ signature)

second_entry-AreBytes : AreBytes second_entry
second_entry-AreBytes = ground arith

boot_record-AreBytes : AreBytes boot_record
boot_record-AreBytes =
    append-AreBytes (replicate 446 0) (replicate 16 0 ++ table_end) (replicate-AreBytes 446) (
      append-AreBytes (replicate 16 0) table_end (replicate-AreBytes 16) (
        append-AreBytes second_entry (replicate 32 0 ++ signature) second_entry-AreBytes (
          append-AreBytes (replicate 32 0) signature (replicate-AreBytes 32)
            (omega arith, (omega arith, tt)))))

boot_partition_offset-Describes_example : Describes boot_record (boot_partition_offset boot_record)
boot_partition_offset-Describes_example =
    boot_partition_offset-Describes boot_record boot_record-AreBytes
