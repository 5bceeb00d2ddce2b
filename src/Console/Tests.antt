-- ===== src/Console/Tests.antt =====
-- A menu that loses its first press, and a dump with a hypervisor's line in it.
use drtm_tests.Prelude.Dict.{lookup, has, insert}
use drtm_tests.Prelude.Hex.{hex_bytes}
use drtm_tests.Prelude.{
  strip, lower, split_on, join, starts_with, nat_eq, zero, suc, ℕ, ◌+◌, ◌≡◌, refl, sym, ap, ◌++◌,
  false, List, [], ◌∷◌, Text, txt, text_eq, arith, contains, Result, ok, err, timeout_error,
  lookup_error,
}
use drtm_tests.Console.{Terminal, hex_dump, pick, walk, index_of}
use drtm_tests.Console.HexDump.{hex_dump-hex_bytes}
use drtm_tests.Console.Shell.{output_of, pcrs_of, run}
use drtm_tests.Console.Pcrs.{Line, print_pcrs}
use drtm_tests.Console.Answers.{listed, Answers, pcrs_of-Answers}
use drtm_tests.Console.Serial.{Machine, Matched, over_serial, serial_capture, run-Matched}
use drtm_tests.QemuVm.Expect.{Tick, expect}
use drtm_tests.Prelude.Find.{find}
use drtm_tests.Console.Menu.{IsMenu, IsChosen, pick-IsChosen}

hex_dump-hex_bytes_example :
    hex_dump (txt "0" ++ (txt "(XEN)" ++ (txt " uart" ++ (10 ∷ txt "1ff")))) ≡ ok (1 ∷ 255 ∷ [])
unfolding hex_bytes txt
hex_dump-hex_bytes_example =
    hex_dump-hex_bytes (1 ∷ 255 ∷ []) (txt "0") (txt "1ff") (txt " uart")
      (omega arith, (omega arith, tt)) refl refl

-- The highlight's place, and the presses so far.
abbrev Grub : Type 0
Grub = ℕ × ℕ

abbrev shown : ℕ → ℕ → Text → Grub × Result Text
shown place (suc (suc n)) title = ((place + 1, suc (suc n)), ok title)
shown place presses title = ((place, presses), err timeout_error)

-- The first press is lost.
abbrev vm : Terminal Grub
vm = record {
  send = λ keys (place, presses). (place, suc presses);
  expect = λ title timeout failures answers (place, presses). shown place presses title;
}

abbrev titles : List Text
titles = txt "Boot Linux" ∷ txt "Boot Xen" ∷ txt "Boot B" ∷ []

is_menu : IsMenu vm (λ s. s.0)
is_menu = record { moved = moves; lost = loses }
  where
    moves :
        (title : Text) (s s' : Grub) (text : Text)
        → shown s.0 (suc s.1) (b'*' ∷ title) ≡ (s', ok text)
        → s'.0 ≡ s.0 + 1
    moves title (place, zero) s' text e = ground arith
    moves title (place, suc n) s' text e = ap (λ p. p.0) (sym (ap (λ p. p.0) e))

    loses :
        (title : Text) (s s' : Grub)
        → shown s.0 (suc s.1) (b'*' ∷ title) ≡ (s', err timeout_error)
        → s'.0 ≡ s.0
    loses title (place, zero) s' e = ap (λ p. p.0) (sym (ap (λ p. p.0) e))
    loses title (place, suc n) s' e = ground arith

picked : pick vm 0 0 (txt "Boot B") titles (0, 0) ≡ ((2, 4), ok titles)
unfolding pick walk index_of text_eq txt
picked = refl

pick-IsChosen_example :
    IsChosen vm (λ s. s.0) (txt "Boot B") titles (pick vm 0 0 (txt "Boot B") titles (0, 0))
    × (contains titles (txt "Boot B") ≡ false
        → pick vm 0 0 (txt "Boot B") titles (0, 0) ≡ ((0, 0), err lookup_error))
pick-IsChosen_example = pick-IsChosen vm (λ s. s.0) is_menu 0 0 (txt "Boot B") titles (0, 0) refl

coloured :
    output_of (
      txt "ls"
      ++ (10 ∷ 27 ∷ (txt "[01;34mboot" ++ (27 ∷ (txt "[0m" ++ (13 ∷ 10 ∷ txt "root@tb:~#"))))))
    ≡ txt "boot"
unfolding output_of strip join split_on txt
coloured = refl

abbrev printed : Text
printed = txt "sha256:" ++ (10 ∷ (txt "  17: 0xAB0" ++ (10 ∷ txt "  18 : 0x1F")))

two_pcrs : pcrs_of (18 ∷ 17 ∷ []) printed ≡ ok ((18, txt "1f") ∷ (17, txt "ab0") ∷ [])
unfolding pcrs_of lower lookup has insert starts_with nat_eq txt
two_pcrs = refl

no_pcr : pcrs_of (2 ∷ []) printed ≡ err lookup_error
unfolding pcrs_of lower lookup has insert starts_with nat_eq txt
no_pcr = refl

abbrev lines : List Line
lines =
    record { first = b'1'; index = b'7' ∷ []; gap = 0; leading = b'A'; value = b'B' ∷ [] }
    ∷ record { first = b'1'; index = b'8' ∷ []; gap = 1; leading = b'1'; value = b'F' ∷ [] }
    ∷ []

pcrs_of-Answers_example :
    Answers
      (λ i. listed i lines)
      (18 ∷ 2 ∷ [])
      (pcrs_of (18 ∷ 2 ∷ []) (print_pcrs (b's' ∷ b'1' ∷ []) lines))
pcrs_of-Answers_example =
    pcrs_of-Answers (b's' ∷ b'1' ∷ []) lines (18 ∷ 2 ∷ []) refl ((refl, refl), ((refl, refl), tt))

abbrev shell_text : Text
shell_text = b'l' ∷ b's' ∷ 13 ∷ 10 ∷ b'b' ∷ 13 ∷ 10 ∷ txt "root@tb:~#"

abbrev shell_tick : Tick
shell_tick = record {
  received = shell_text;
  now = 5;
  addresses = [];
  exited = false;
  checked_at = 5;
  status = err timeout_error;
  late = 5;
}

abbrev at_prompt : Machine
at_prompt = record {
  vm = record { serial_buf = b'#' ∷ []; cursor = 1; last_status_check = 0; sent = [] };
  waits = (0, shell_tick ∷ []) ∷ [];
}

abbrev ran : Machine
ran = record {
  vm = record {
    serial_buf = b'#' ∷ shell_text;
    cursor = 18;
    last_status_check = 0;
    sent = (b'l' ∷ b's' ∷ 13 ∷ []) ∷ [];
  };
  waits = [];
}

listing : run over_serial 1000 (b'l' ∷ b's' ∷ []) at_prompt ≡ (ran, ok (b'b' ∷ []))
unfolding run over_serial expect find starts_with strip join split_on txt
listing = refl

run-Matched_example :
    (text : Text) × ((b'b' ∷ []) ≡ output_of text)
    × Matched
        (λ (m : Machine). m.vm.serial_buf)
        (λ (m : Machine). m.vm.cursor)
        (txt "root@tb:~#")
        at_prompt
        ran
        text
unfolding serial_capture
run-Matched_example =
    run-Matched over_serial serial_capture 1000 (b'l' ∷ b's' ∷ []) at_prompt ran (b'b' ∷ []) listing
