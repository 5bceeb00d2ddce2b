-- ===== src/QemuVm/Expect/Tests.antt =====
-- Waits on a small schedule, and the theorems at them.
use drtm_tests.Prelude.Dict.{Dict, lookup}
use drtm_tests.Prelude.Find.{find}
use drtm_tests.Prelude.{
  some, ℕ, ◌+◌, ◌≡◌, refl, List, [], ◌∷◌, ◌++◌, Bytes, txt, text_eq, nat_eq, option_eq, arith, none,
  false, drop, starts_with, ok, guest_hung,
}
use drtm_tests.QemuVm.Expect.{
  unread, Vm, Tick, Wait, found, raised, expect, round, run, start, wait_of, watch, look_on,
  answer_prompt,
}
use drtm_tests.QemuVm.Expect.Match.{IsMatch, Grows, expect-IsMatch}
use drtm_tests.QemuVm.Expect.Silence.{
  Waits, begins, IsSilent, Ended, round_delivers, round-IsSilent, run-Ended,
}
use drtm_tests.QemuVm.Expect.Scans.{Call, expect_all, scan, expect_all-scan}

-- The console printed "> " before the wait, and the cursor stands behind it.
abbrev vm : Vm
vm = record { serial_buf = b'>' ∷ b' ' ∷ []; cursor = 2; last_status_check = 0; sent = [] }

abbrev tick : ℕ → Bytes → Tick
tick at received = record {
  received = received;
  now = at;
  addresses = (0, 49 ∷ []) ∷ [];
  exited = false;
  checked_at = at;
  status = ok none;
  late = at + 50;
}

abbrev prompt_text : Bytes
prompt_text = b'l' ∷ b'o' ∷ b'g' ∷ []

abbrev oops : Bytes
oops = b'o' ∷ b'o' ∷ b'p' ∷ []

abbrev key : Bytes
key = b'k' ∷ b'?' ∷ []

abbrev answers : Dict Bytes Bytes
answers = (key, 13 ∷ []) ∷ []

abbrev wait : Wait
wait = wait_of prompt_text 5000 (oops ∷ []) answers 90000 100

-- A pause is answered, then the prompt comes in two pieces.
abbrev ticks : List Tick
ticks =
    tick 100 (b'a' ∷ key)
    ∷ tick 150 []
    ∷ tick 200 (b'l' ∷ b'o' ∷ [])
    ∷ tick 250 (b'g' ∷ b':' ∷ [])
    ∷ []

abbrev after : Vm
after = record {
  serial_buf = b'>' ∷ b' ' ∷ b'a' ∷ (key ++ (prompt_text ++ (b':' ∷ [])));
  cursor = 8;
  last_status_check = 0;
  sent = (13 ∷ []) ∷ [];
}

waited :
    expect prompt_text 5000 (oops ∷ []) answers 90000 100 ticks vm
    ≡ found after (b'a' ∷ (key ++ prompt_text))
unfolding expect find starts_with answer_prompt lookup text_eq option_eq txt
waited = refl

expect-IsMatch_example :
    IsMatch prompt_text 2 after (b'a' ∷ (key ++ prompt_text))
    × Grows (b'>' ∷ b' ' ∷ []) after.serial_buf
expect-IsMatch_example =
    expect-IsMatch prompt_text 5000 (oops ∷ []) answers 90000 100 ticks vm waited

again_waited :
    expect (b':' ∷ []) 5000 [] [] 90000 300 (tick 300 (b'x' ∷ []) ∷ []) after
    ≡ found (record after { serial_buf = after.serial_buf ++ (b'x' ∷ []); cursor = 9 }) (b':' ∷ [])
unfolding expect find starts_with lookup text_eq option_eq txt
again_waited = refl

first_run : run wait ticks vm (start answers 100 vm) ≡ found after (b'a' ∷ (key ++ prompt_text))
unfolding expect
first_run = waited

second_run :
    run
      (wait_of (b':' ∷ []) 5000 [] [] 90000 300)
      (tick 300 (b'x' ∷ []) ∷ [])
      after
      (start [] 300 after)
    ≡ found (record after { serial_buf = after.serial_buf ++ (b'x' ∷ []); cursor = 9 }) (b':' ∷ [])
unfolding expect
second_run = again_waited

waits : Waits wait vm (start answers 100 vm)
waits = begins 100 (omega arith)

round_delivers_example :
    round wait (tick 100 (oops ++ prompt_text)) vm (start answers 100 vm)
    ≡ found
        (record vm { serial_buf = vm.serial_buf ++ (oops ++ prompt_text); cursor = 8 })
        (oops ++ prompt_text)
round_delivers_example =
    round_delivers wait (tick 100 (oops ++ prompt_text)) waits 3 (λ e. cc) (unfold find in refl)

hung : round wait (tick 90100 []) vm (start answers 100 vm) ≡ raised vm guest_hung
unfolding round look_on watch start
hung = refl

round-IsSilent_example :
    (◌≡◌ {A = Bytes} [] []) × IsSilent wait [] (tick 90100 []) (start answers 100 vm)
round-IsSilent_example = round-IsSilent wait (tick 90100 []) waits (λ e. cc) hung

run-Ended_example : Ended (run wait (tick 100 [] ∷ tick 5060 [] ∷ []) vm (start answers 100 vm))
run-Ended_example = run-Ended wait (tick 100 [] ∷ tick 5060 [] ∷ []) vm (start answers 100 vm) refl

abbrev calls : List Call
calls =
    record {
      needle = prompt_text;
      timeout = 5000;
      failures = oops ∷ [];
      answers = answers;
      idle = 90000;
      now = 100;
      ticks = ticks;
    }
    ∷ record {
      needle = b':' ∷ [];
      timeout = 5000;
      failures = [];
      answers = [];
      idle = 90000;
      now = 300;
      ticks = tick 300 (b'x' ∷ []) ∷ [];
    }
    ∷ []

abbrev after_both : Vm
after_both = record after { serial_buf = after.serial_buf ++ (b'x' ∷ []); cursor = 9 }

all_waited :
    expect_all calls vm ≡ some (after_both, (b'a' ∷ (key ++ prompt_text)) ∷ (b':' ∷ []) ∷ [])
unfolding expect_all expect find starts_with answer_prompt lookup text_eq option_eq txt
all_waited = refl

expect_all-scan_example :
    (scan (prompt_text ∷ (b':' ∷ []) ∷ []) (drop 2 after_both.serial_buf)
      ≡ some ((b'a' ∷ (key ++ prompt_text)) ∷ (b':' ∷ []) ∷ [], unread after_both))
    × Grows vm.serial_buf after_both.serial_buf
expect_all-scan_example = expect_all-scan calls vm (omega arith) all_waited
