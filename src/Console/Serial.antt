-- ===== src/Console/Serial.antt =====
-- The console over a `QemuVm`: what its steps rely on is the record `ReadsCapture`, which `QemuVm.expect` and
-- `QemuVm.send` fill.
use drtm_tests.Prelude.Dict.{Dict}
use drtm_tests.Prelude.{
  ℕ, ◌+◌, ◌<◌, ◌≡◌, refl, sym, ap, ◌∙◌, arith, false, List, [], ◌∷◌, ◌++◌, Text, Bytes, txt, drop,
  length, starts_with, Result, ok, err, exhausted,
}
use drtm_tests.QemuVm.Expect.{Vm, Tick, Round, found, raised, again, idle_timeout, expect}
use drtm_tests.QemuVm.Expect.Match.{IsMatch, Grows, expect-IsMatch}
use drtm_tests.QemuVm.Serial.{send}
use drtm_tests.Console.{Terminal, enter, then_do}
use drtm_tests.Console.Shell.{output_of, run}

-- A text is what was printed from one place of the capture to another, up to the needle's first place.
pub record Matched {σ : Type 0} (capture : σ → Bytes) (cursor : σ → ℕ) (needle : Text) (s s' : σ)
    (text : Text) : Type 0 where
  pub before : Text
  pub text_is : text ≡ before ++ needle
  pub splits : drop (cursor s) (capture s') ≡ text ++ drop (cursor s') (capture s')
  pub moved : cursor s' ≡ cursor s + length text
  pub first :
      (k : ℕ)
      → k < length before
      → starts_with (drop k (drop (cursor s) (capture s'))) needle ≡ false
  pub grows : (more : Bytes) × (capture s' ≡ capture s ++ more)

-- A terminal that prints to a capture: keys leave it and the cursor alone, and a text that `expect` returns
-- was printed behind the cursor.
pub record ReadsCapture {σ : Type 0} (vm : Terminal σ) : Type 0 where
  pub capture : σ → Bytes
  pub cursor : σ → ℕ
  pub sends :
      (keys : Bytes) (s : σ)
      → (capture (vm.send keys s) ≡ capture s) × (cursor (vm.send keys s) ≡ cursor s)
  pub expects :
      (needle : Text) (timeout : ℕ) (failures : List Text) (answers : Dict Text Bytes) (s s' : σ)
      (text : Text)
      → vm.expect needle timeout failures answers s ≡ (s', ok text)
      → Matched capture cursor needle s s' text

-- A machine whose console is read: its state, and for each wait that is to come when it begins and what its
-- rounds meet.
pub record Machine : Type 0 where
  pub vm : Vm
  pub waits : List (ℕ × List Tick)

abbrev pub ended : List (ℕ × List Tick) → Round → Machine × Result Text
ended waits (found vm text) = (record { vm = vm; waits = waits }, ok text)
ended waits (raised vm e) = (record { vm = vm; waits = waits }, err e)
ended waits (again vm l) = (record { vm = vm; waits = waits }, err exhausted)

abbrev pub wait :
    Text → ℕ → List Text → Dict Text Bytes → Vm → List (ℕ × List Tick) → Machine × Result Text
wait needle timeout failures answers vm [] = (record { vm = vm; waits = [] }, err exhausted)
wait needle timeout failures answers vm ((now, ticks) ∷ waits) =
    ended waits (expect needle timeout failures answers idle_timeout now ticks vm)

-- `Console.vm`
unfoldable pub over_serial : Terminal Machine
unfolding expect
over_serial = record {
  send = λ keys m. record m { vm = send keys m.vm };
  expect = λ needle timeout failures answers m. wait needle timeout failures answers m.vm m.waits;
}

ended_ok :
    (waits : List (ℕ × List Tick)) (r : Round) (m : Machine) (text : Text)
    → ended waits r ≡ (m, ok text)
    → r ≡ found m.vm text
ended_ok waits (found vm' text') m text e = ground arith
ended_ok waits (raised vm' error) m text e = absurd (cc)
ended_ok waits (again vm' l) m text e = absurd (cc)

IsMatch-Matched :
    (needle : Bytes) (m m' : Machine) (text : Bytes)
    → IsMatch needle m.vm.cursor m'.vm text × Grows m.vm.serial_buf m'.vm.serial_buf
    → Matched (λ (n : Machine). n.vm.serial_buf) (λ (n : Machine). n.vm.cursor) needle m m' text
IsMatch-Matched needle m m' text (is_match, grows) = record {
  before = is_match.before;
  text_is = is_match.text_is;
  splits = is_match.splits;
  moved = is_match.moved;
  first = is_match.first;
  grows = grows;
}

pub wait-Matched :
    (needle : Text) (timeout : ℕ) (failures : List Text) (answers : Dict Text Bytes)
    (waits : List (ℕ × List Tick)) (m m' : Machine) (text : Text)
    → wait needle timeout failures answers m.vm waits ≡ (m', ok text)
    → Matched (λ (n : Machine). n.vm.serial_buf) (λ (n : Machine). n.vm.cursor) needle m m' text
wait-Matched needle timeout failures answers [] m m' text e = absurd (cc)
wait-Matched needle timeout failures answers ((now, ticks) ∷ waits) m m' text e =
    IsMatch-Matched needle m m' text (
      expect-IsMatch needle timeout failures answers idle_timeout now ticks m.vm (
        ended_ok waits (expect needle timeout failures answers idle_timeout now ticks m.vm) m' text
          e))

unfoldable pub serial_capture : ReadsCapture over_serial
unfolding over_serial
serial_capture = record {
  capture = λ m. m.vm.serial_buf;
  cursor = λ m. m.vm.cursor;
  sends = λ keys m. (refl, refl);
  expects = λ needle timeout failures answers m m' text e.
      wait-Matched needle timeout failures answers m.waits m m' text e;
}

module _ {σ : Type 0} (vm : Terminal σ) (reads : ReadsCapture vm) where
  open reads use {capture, cursor, sends, expects}

  run_from :
      (r : σ × Result Text) (s' : σ) (out : Text)
      → then_do r (λ text t. (t, ok (output_of text))) ≡ (s', ok out)
      → (text : Text) × (out ≡ output_of text) × (r ≡ (s', ok text))
  run_from (t, err e) s' out h = absurd (cc)
  run_from (t, ok text) s' out h = (text, ground arith, ground arith)

  -- Keys first, then a match
  sent-Matched :
      (keys : Bytes) (needle : Text) (s s' : σ) (text : Text)
      → Matched capture cursor needle (vm.send keys s) s' text
      → Matched capture cursor needle s s' text
  sent-Matched keys needle s s' text m =
      let (same_capture, same_cursor) = sends keys s in
      record {
        before = m.before;
        text_is = m.text_is;
        splits = ap (λ c. drop c (capture s')) (sym same_cursor) ∙ m.splits;
        moved = m.moved ∙ ap (λ c. c + length text) same_cursor;
        first = λ k h.
            ap (λ c. starts_with (drop k (drop c (capture s'))) needle) (sym same_cursor)
            ∙ m.first k h;
        grows = (m.grows.0, m.grows.1 ∙ ap (λ b. b ++ m.grows.0) same_capture);
      }

  pub run-Matched :
      (timeout : ℕ) (command : Text) (s s' : σ) (out : Text)
      → run vm timeout command s ≡ (s', ok out)
      → (text : Text) × (out ≡ output_of text) × Matched capture cursor (txt "root@tb:~#") s s' text
  unfolding run
  run-Matched timeout command s s' out h =
      let keys = command ++ enter in
      let (text, shown, returned) =
        run_from (vm.expect (txt "root@tb:~#") timeout [] [] (vm.send keys s)) s' out h in
      (
        text,
        shown,
        sent-Matched keys (txt "root@tb:~#") s s' text
            (expects (txt "root@tb:~#") timeout [] [] (vm.send keys s) s' text returned),
      )
