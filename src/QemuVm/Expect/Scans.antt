-- ===== src/QemuVm/Expect/Scans.antt =====
-- Calls of `expect` one behind another, against a scan of the finished capture.
use mathlib.Core.Path.{subst, ap₂}
use drtm_tests.Prelude.Dict.{Dict}
use drtm_tests.Prelude.Find.{find, IsFirst, find_of_IsFirst, find-append}
use drtm_tests.Prelude.{
  ℕ, ◌+◌, ◌≤◌, ◌≡◌, refl, sym, ap, ◌∙◌, Option, none, some, List, [], ◌∷◌, ◌++◌, Bytes, arith,
  length, length-drop, length-append, take, drop, drop-append_le, drop-append, take-append,
  starts_with, true, append_assoc, append-nil,
}
use drtm_tests.QemuVm.Expect.{Vm, Tick, Round, found, raised, again, unread, expect}
use drtm_tests.QemuVm.Expect.Match.{IsMatch, Grows, expect-IsMatch}

-- The arguments of one call, when it begins, and what its rounds meet.
pub record Call : Type 0 where
  pub needle : Bytes
  pub timeout : ℕ
  pub failures : List Bytes
  pub answers : Dict Bytes Bytes
  pub idle : ℕ
  pub now : ℕ
  pub ticks : List Tick

abbrev pub expect_call : Call → Vm → Round
expect_call c vm = expect c.needle c.timeout c.failures c.answers c.idle c.now c.ticks vm

abbrev pub with_text : Bytes → Option (Vm × List Bytes) → Option (Vm × List Bytes)
with_text text none = none
with_text text (some (vm, texts)) = some (vm, text ∷ texts)

abbrev pub then_expect : (Vm → Option (Vm × List Bytes)) → Round → Option (Vm × List Bytes)
then_expect next (found vm text) = with_text text (next vm)
then_expect next (raised vm e) = none
then_expect next (again vm l) = none

-- The calls in turn, up to the first that does not return; the bytes that come between two calls are
-- in the first round of the second.
unfoldable pub expect_all : List Call → Vm → Option (Vm × List Bytes)
unfolding expect
expect_all [] vm = some (vm, [])
expect_all (c ∷ calls) vm = then_expect (expect_all calls) (expect_call c vm)

abbrev pub in_front : Bytes → Option (List Bytes × Bytes) → Option (List Bytes × Bytes)
in_front text none = none
in_front text (some (texts, rest)) = some (text ∷ texts, rest)

abbrev pub cut_at :
    Bytes → Bytes → (Bytes → Option (List Bytes × Bytes)) → Option ℕ → Option (List Bytes × Bytes)
cut_at needle buf next none = none
cut_at needle buf next (some at) =
    let end = at + length needle in in_front (take end buf) (next (drop end buf))

-- The abstract console: a text that is there from the beginning, cut behind the first place of each
-- needle in turn.
unfoldable pub scan : List Bytes → Bytes → Option (List Bytes × Bytes)
scan [] buf = some ([], buf)
scan (needle ∷ needles) buf = cut_at needle buf (scan needles) (find needle buf)

abbrev pub needles_of : List Call → List Bytes
needles_of [] = []
needles_of (c ∷ calls) = c.needle ∷ needles_of calls

starts_with_self : (needle more : Bytes) → starts_with (needle ++ more) needle ≡ true
unfolding starts_with
starts_with_self [] more = refl
starts_with_self (n ∷ needle) more = ground (arith, starts_with_self needle more)

module _ (needle : Bytes) (vm vm' : Vm) (text : Bytes) (fits : vm.cursor ≤ length vm'.serial_buf)
    (m : IsMatch needle vm.cursor vm' text) where
  end_is : length m.before + length needle ≡ length text
  end_is = sym (ap length m.text_is ∙ length-append m.before needle)

  behind : vm'.cursor ≤ length vm'.serial_buf
  behind = omega (
    arith,
    m.moved,
    ap length m.splits,
    length-drop vm.cursor vm'.serial_buf,
    length-append text (unread vm'),
  )

  IsMatch-IsFirst : IsFirst needle (drop vm.cursor vm'.serial_buf) (length m.before)
  IsMatch-IsFirst = record {
    within = omega (arith, end_is, ap length m.splits, length-append text (unread vm'));
    occurs =
        ap (λ xs. starts_with (drop (length m.before) xs) needle)
          (m.splits
            ∙ ap (λ xs. xs ++ unread vm') m.text_is
            ∙ append_assoc m.before needle (unread vm'))
        ∙ ap (λ xs. starts_with xs needle) (drop-append m.before (needle ++ unread vm'))
        ∙ starts_with_self needle (unread vm');
    first = m.first;
  }

  -- The capture behind the old cursor once more has arrived
  capture_is :
      (more : Bytes)
      → drop vm.cursor (vm'.serial_buf ++ more) ≡ text ++ drop vm'.cursor (vm'.serial_buf ++ more)
  capture_is more =
      drop-append_le vm.cursor vm'.serial_buf more fits
      ∙ ap (λ xs. xs ++ more) m.splits
      ∙ append_assoc text (unread vm') more
      ∙ ap (λ xs. text ++ xs) (sym (drop-append_le vm'.cursor vm'.serial_buf more behind))

  find_of_IsMatch :
      (more : Bytes)
      → find needle (drop vm.cursor (vm'.serial_buf ++ more)) ≡ some (length m.before)
  find_of_IsMatch more =
      ap (find needle) (drop-append_le vm.cursor vm'.serial_buf more fits)
      ∙ find-append needle (drop vm.cursor vm'.serial_buf) more (length m.before)
          (find_of_IsFirst needle (drop vm.cursor vm'.serial_buf) (length m.before) IsMatch-IsFirst)

  -- The scan's first step over the capture, once more has arrived
  scan_of_IsMatch :
      (needles : List Bytes) (more : Bytes) {texts : List Bytes} {rest : Bytes}
      → scan needles (drop vm'.cursor (vm'.serial_buf ++ more)) ≡ some (texts, rest)
      → scan (needle ∷ needles) (drop vm.cursor (vm'.serial_buf ++ more))
        ≡ some (text ∷ texts, rest)
  unfolding scan
  scan_of_IsMatch needles more {texts} {rest} later =
      ap (cut_at needle (drop vm.cursor (vm'.serial_buf ++ more)) (scan needles))
        (find_of_IsMatch more)
      ∙ ap (λ buf. cut_at needle buf (scan needles) (some (length m.before))) (capture_is more)
      ∙ ap (λ n. in_front (take n (text ++ tail)) (scan needles (drop n (text ++ tail)))) end_is
      ∙ ap₂ in_front (take-append text tail) (ap (scan needles) (drop-append text tail) ∙ later)
    where
      tail : Bytes
      tail = drop vm'.cursor (vm'.serial_buf ++ more)

abbrev Scanned : List Bytes → Vm → Option (Vm × List Bytes) → Type 0
Scanned needles vm none = Unit {0}
Scanned needles vm (some (vm', texts)) =
    (scan needles (drop vm.cursor vm'.serial_buf) ≡ some (texts, unread vm'))
    × Grows vm.serial_buf vm'.serial_buf

-- The first call found its needle: the capture only grows after that.
module _ (needle : Bytes) (needles : List Bytes) (vm vm' : Vm) (text : Bytes)
    (fits : vm.cursor ≤ length vm.serial_buf) (m : IsMatch needle vm.cursor vm' text)
    (grows : Grows vm.serial_buf vm'.serial_buf) where
  longer : vm.cursor ≤ length vm'.serial_buf
  longer = omega (arith, ap length grows.1, length-append vm.serial_buf grows.0)

  with_text-Scanned :
      (r : Option (Vm × List Bytes))
      → Scanned needles vm' r
      → Scanned (needle ∷ needles) vm (with_text text r)
  with_text-Scanned none s = tt
  with_text-Scanned (some (vm'', texts)) (s, (more, later)) = (
    ap (λ buf. scan (needle ∷ needles) (drop vm.cursor buf)) later
        ∙ scan_of_IsMatch needle vm vm' text longer m needles more
            (ap (λ buf. scan needles (drop vm'.cursor buf)) (sym later) ∙ s),
    (
      grows.0 ++ more,
      later ∙ ap (λ buf. buf ++ more) grows.1 ∙ append_assoc vm.serial_buf grows.0 more,
    ),
  )

expect_all-Scanned :
    (calls : List Call) (vm : Vm)
    → vm.cursor ≤ length vm.serial_buf
    → Scanned (needles_of calls) vm (expect_all calls vm)
unfolding expect_all scan
expect_all-Scanned [] vm fits = (refl, ([], sym (append-nil vm.serial_buf)))
expect_all-Scanned (c ∷ calls) vm fits =
    step (expect_call c vm) (expect_all-Scanned calls)
      (λ vm' text. expect-IsMatch c.needle c.timeout c.failures c.answers c.idle c.now c.ticks vm)
  where
    step :
        (r : Round)
        → ((vm' : Vm)
            → vm'.cursor ≤ length vm'.serial_buf
            → Scanned (needles_of calls) vm' (expect_all calls vm'))
        → ((vm' : Vm) (text : Bytes)
            → r ≡ found vm' text
            → IsMatch c.needle vm.cursor vm' text × Grows vm.serial_buf vm'.serial_buf)
        → Scanned (c.needle ∷ needles_of calls) vm (then_expect (expect_all calls) r)
    step (found vm' text) ih h =
        let (m, grows) = h vm' text refl in
        with_text-Scanned c.needle (needles_of calls) vm vm' text fits m grows
          (expect_all calls vm')
          (ih vm' (
            behind c.needle vm vm' text
              (longer c.needle (needles_of calls) vm vm' text fits m grows) m))
    step (raised vm' e) ih h = tt
    step (again vm' l) ih h = tt

-- Calls of `expect` one behind another, over any schedule of what arrives while they run, with any
-- failures, answers and times, refine the scan of a capture that was there from the beginning: if
-- they all return, their texts and what is left unread are what the scan cuts out of the final
-- capture behind the first cursor. The capture has only grown. The first cursor is not behind the end
-- of the capture.
pub expect_all-scan :
    (calls : List Call) (vm : Vm) {vm' : Vm} {texts : List Bytes}
    → vm.cursor ≤ length vm.serial_buf
    → expect_all calls vm ≡ some (vm', texts)
    → (scan (needles_of calls) (drop vm.cursor vm'.serial_buf) ≡ some (texts, unread vm'))
      × Grows vm.serial_buf vm'.serial_buf
expect_all-scan calls vm fits e =
    subst (Scanned (needles_of calls) vm) e (expect_all-Scanned calls vm fits)
