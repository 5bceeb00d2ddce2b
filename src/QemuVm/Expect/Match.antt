-- ===== src/QemuVm/Expect/Match.antt =====
-- What a successful wait returns, and what a wait leaves alone.
use mathlib.Core.Path.{subst, subst₂}
use drtm_tests.Prelude.Dict.{Dict}
use drtm_tests.Prelude.Find.{find, IsFirst, find-IsFirst, take-OccursAt}
use drtm_tests.Prelude.{
  ℕ, zero, suc, ◌+◌, ◌<◌, ◌≤◌, ◌≡◌, refl, sym, ap, ◌∙◌, Bool, true, false, Option, none, some, List,
  [], ◌∷◌, ◌++◌, Bytes, arith, length, length-drop, take, drop, drop-add, length-append,
  append_assoc, drop-append_le, append-nil, starts_with, Error, Result, ok, err, if◌then◌else◌,
}
use drtm_tests.QemuVm.Expect.{
  Vm, Tick, Wait, Locals, Round, found, raised, again, watch, look_at, look_on, wait_of,
  keep_waiting, check_alive, answer_all, receive, unread, round, run, panics, start, expect,
}

-- `text` is what stood behind the cursor up to the first place of the needle, and the new cursor
-- stands behind it.
pub record IsMatch (needle : Bytes) (cursor : ℕ) (vm : Vm) (text : Bytes) : Type 0 where
  pub before : Bytes
  pub text_is : text ≡ before ++ needle
  pub splits : drop cursor vm.serial_buf ≡ text ++ unread vm
  pub moved : vm.cursor ≡ cursor + length text
  pub first :
      (k : ℕ) → k < length before → starts_with (drop k (drop cursor vm.serial_buf)) needle ≡ false

pub check_alive_keeps :
    (t : Tick) (vm : Vm)
    → ((check_alive t vm).0.cursor ≡ vm.cursor)
      × ((check_alive t vm).0.serial_buf ≡ vm.serial_buf)
      × ((check_alive t vm).0.sent ≡ vm.sent)
unfolding check_alive
check_alive_keeps t vm = ground arith

-- A round that goes on has moved neither the cursor nor the capture.
abbrev Stays : Vm → Locals → Round → Type 0
Stays vm l (again vm' l') =
    (vm'.cursor ≡ vm.cursor) × (vm'.serial_buf ≡ vm.serial_buf) × (l'.seen ≡ l.seen)
Stays vm l (raised vm' e) = (vm'.cursor ≡ vm.cursor) × (vm'.serial_buf ≡ vm.serial_buf)
Stays vm l (found vm' text) = ⊥

keep_waiting-Stays :
    (w : Wait) (buf : Bytes) (t : Tick) (vm : Vm) (l : Locals)
    → Stays vm l (keep_waiting w buf t vm l)
unfolding keep_waiting
keep_waiting-Stays w buf t vm l = ground (
  arith,
  check_alive_keeps t
      (record vm { sent = (answer_all buf vm.cursor w.answers l.answered vm.sent).1 }),
)

-- A round that finds the needle returns a match.
abbrev Finds : Bytes → Vm → Locals → Round → Type 0
Finds needle vm l (found vm' text) =
    IsMatch needle vm.cursor vm' text × (vm'.serial_buf ≡ vm.serial_buf)
Finds needle vm l r = Stays vm l r

Stays-Finds :
    (needle : Bytes) (vm : Vm) (l : Locals) (r : Round) → Stays vm l r → Finds needle vm l r
Stays-Finds needle vm l (found vm' text) h = absurd h
Stays-Finds needle vm l (raised vm' e) h = h
Stays-Finds needle vm l (again vm' l') h = h

take-drop_split : (n : ℕ) (xs : Bytes) → xs ≡ take n xs ++ drop n xs
take-drop_split zero xs = refl
take-drop_split (suc n) [] = refl
take-drop_split (suc n) (x ∷ xs) = ap (◌∷◌ x) (take-drop_split n xs)

length-take_le : (n : ℕ) (xs : Bytes) → n ≤ length xs → length (take n xs) ≡ n
length-take_le zero xs h = refl
length-take_le (suc n) [] h = elim h [ ]
length-take_le (suc n) (x ∷ xs) h = ap suc (length-take_le n xs (omega arith))

found-IsMatch :
    (needle : Bytes) (vm : Vm) (at : ℕ)
    → IsFirst needle (unread vm) at
    → IsMatch needle vm.cursor
        (record vm { cursor = vm.cursor + (at + length needle) })
        (take (at + length needle) (unread vm))
found-IsMatch needle vm at f =
    let (text, fits) = take-OccursAt needle (unread vm) at f.within f.occurs in
    record {
      before = take at (unread vm);
      text_is = text;
      splits =
          take-drop_split (at + length needle) (unread vm)
          ∙ ap (λ rest. take (at + length needle) (unread vm) ++ rest)
              (sym (drop-add vm.cursor (at + length needle) vm.serial_buf));
      moved = ap (λ n. vm.cursor + n) (sym (length-take_le _ _ fits));
      first = λ k h. f.first k (omega (arith, length-take_le at (unread vm) f.within));
    }

if_Stays :
    (b : Bool) (vm : Vm) (l : Locals) (r : Round) (e : Error)
    → Stays vm l r
    → Stays vm l (if b then raised vm e else r)
if_Stays true vm l r e h = (refl, refl)
if_Stays false vm l r e h = h

look_at-Finds :
    (w : Wait) (t : Tick) (vm : Vm) (l : Locals) (o : Option ℕ)
    → find w.needle (unread vm) ≡ o
    → Finds w.needle vm l (look_at w (unread vm) t vm l o)
unfolding look_at
look_at-Finds w t vm l none e =
    Stays-Finds w.needle vm l _
      (if_Stays (panics w.failures (unread vm)) vm l _ _ (keep_waiting-Stays w (unread vm) t vm l))
look_at-Finds w t vm l (some at) e =
    (found-IsMatch w.needle vm at (find-IsFirst w.needle _ at e), refl)

-- Where a round leaves the cursor and the capture, against the state before it.
abbrev Moves : Bytes → Bytes → ℕ → Bytes → Round → Type 0
Moves needle received cursor buf (found vm' text) =
    IsMatch needle cursor vm' text × (vm'.serial_buf ≡ buf ++ received)
Moves needle received cursor buf (raised vm' e) =
    (vm'.cursor ≡ cursor) × (vm'.serial_buf ≡ buf ++ received)
Moves needle received cursor buf (again vm' l') =
    (vm'.cursor ≡ cursor) × (vm'.serial_buf ≡ buf ++ received)

Finds-Moves :
    (needle received : Bytes) (vm : Vm) (l : Locals) (r : Round)
    → Finds needle (record vm { serial_buf = vm.serial_buf ++ received }) l r
    → Moves needle received vm.cursor vm.serial_buf r
Finds-Moves needle received vm l (found vm' text) h = h
Finds-Moves needle received vm l (raised vm' e) h = h
Finds-Moves needle received vm l (again vm' l') (c, b, _) = (c, b)

look_on-Moves :
    (w : Wait) (t : Tick) (vm : Vm) (l : Locals) (r : Result Locals)
    → Moves w.needle t.received vm.cursor vm.serial_buf (look_on w t (receive t vm) r)
unfolding look_on
look_on-Moves w t vm l (ok l') =
    Finds-Moves w.needle t.received vm l' _ (look_at-Finds w t (receive t vm) l' _ refl)
look_on-Moves w t vm l (err e) = (refl, refl)

round-Moves :
    (w : Wait) (t : Tick) (vm : Vm) (l : Locals)
    → Moves w.needle t.received vm.cursor vm.serial_buf (round w t vm l)
unfolding round
round-Moves w t vm l = look_on-Moves w t vm l (watch w (unread (receive t vm)) t l)

abbrev pub vm_of : Round → Vm
vm_of (found vm text) = vm
vm_of (raised vm e) = vm
vm_of (again vm l) = vm

-- The bytes that the schedule's rounds added to the capture, up to the round that ended the wait.
abbrev pub Grows : Bytes → Bytes → Type 0
Grows buf buf' = (more : Bytes) × (buf' ≡ buf ++ more)

abbrev Progress : Bytes → ℕ → Bytes → Round → Type 0
Progress needle cursor buf (found vm' text) =
    IsMatch needle cursor vm' text × Grows buf vm'.serial_buf
Progress needle cursor buf (raised vm' e) = (vm'.cursor ≡ cursor) × Grows buf vm'.serial_buf
Progress needle cursor buf (again vm' l') = (vm'.cursor ≡ cursor) × Grows buf vm'.serial_buf

Moves-Progress :
    (needle received : Bytes) (cursor : ℕ) (buf : Bytes) (r : Round)
    → Moves needle received cursor buf r
    → Progress needle cursor buf r
Moves-Progress needle received cursor buf (found vm' text) (m, b) = (m, (received, b))
Moves-Progress needle received cursor buf (raised vm' e) (c, b) = (c, (received, b))
Moves-Progress needle received cursor buf (again vm' l') (c, b) = (c, (received, b))

Progress-later :
    (needle received : Bytes) (cursor : ℕ) (buf : Bytes) (r : Round)
    → Progress needle cursor (buf ++ received) r
    → Progress needle cursor buf r
Progress-later needle received cursor buf (found vm' text) (m, (more, b)) =
    (m, (received ++ more, b ∙ append_assoc buf received more))
Progress-later needle received cursor buf (raised vm' e) (c, (more, b)) =
    (c, (received ++ more, b ∙ append_assoc buf received more))
Progress-later needle received cursor buf (again vm' l') (c, (more, b)) =
    (c, (received ++ more, b ∙ append_assoc buf received more))

-- What the loop does after a round.
abbrev pub continue : Wait → List Tick → Round → Round
continue w ts (found vm' text) = found vm' text
continue w ts (raised vm' e) = raised vm' e
continue w ts (again vm' l') = run w ts vm' l'

continue-Progress :
    (w : Wait) (t : Tick) (ts : List Tick) (vm : Vm) (r : Round)
    → ((vm' : Vm) (l' : Locals) → Progress w.needle vm'.cursor vm'.serial_buf (run w ts vm' l'))
    → Moves w.needle t.received vm.cursor vm.serial_buf r
    → Progress w.needle vm.cursor vm.serial_buf (continue w ts r)
continue-Progress w t ts vm (found vm' text) ih h =
    Moves-Progress w.needle t.received _ _ (found vm' text) h
continue-Progress w t ts vm (raised vm' e) ih h =
    Moves-Progress w.needle t.received _ _ (raised vm' e) h
continue-Progress w t ts vm (again vm' l') ih (c, b) =
    Progress-later w.needle t.received vm.cursor vm.serial_buf _
      (subst₂ (λ cursor buf. Progress w.needle cursor buf (run w ts vm' l')) c b (ih vm' l'))

run-Progress :
    (w : Wait) (ts : List Tick) (vm : Vm) (l : Locals)
    → Progress w.needle vm.cursor vm.serial_buf (run w ts vm l)
unfolding run
run-Progress w [] vm l = (refl, ([], sym (append-nil vm.serial_buf)))
run-Progress w (t ∷ ts) vm l =
    continue-Progress w t ts vm (round w t vm l) (run-Progress w ts) (round-Moves w t vm l)

-- A wait that returns has returned the text behind the cursor up to the needle's first place, the
-- needle included, and has put the cursor behind it, whatever the failures, the answers, the times
-- and the schedule. The capture has only grown.
pub expect-IsMatch :
    (needle : Bytes) (timeout : ℕ) (failures : List Bytes) (answers : Dict Bytes Bytes)
    (idle now : ℕ) (ticks : List Tick) (vm : Vm) {vm' : Vm} {text : Bytes}
    → expect needle timeout failures answers idle now ticks vm ≡ found vm' text
    → IsMatch needle vm.cursor vm' text × Grows vm.serial_buf vm'.serial_buf
unfolding expect
expect-IsMatch needle timeout failures answers idle now ticks vm e =
    subst (Progress needle vm.cursor vm.serial_buf) e (
      run-Progress (wait_of needle timeout failures answers idle now) ticks vm
        (start answers now vm))

-- Two waits in a row: their texts stand one behind the other in the capture, so a prompt that is
-- waited for twice is matched at two places.
pub expect_twice :
    (w₁ w₂ : Wait) (ts₁ ts₂ : List Tick) (l₁ l₂ : Locals) (vm : Vm) {vm₁ vm₂ : Vm}
    {text₁ text₂ : Bytes}
    → vm.cursor ≤ length vm.serial_buf
    → run w₁ ts₁ vm l₁ ≡ found vm₁ text₁
    → run w₂ ts₂ vm₁ l₂ ≡ found vm₂ text₂
    → drop vm.cursor vm₂.serial_buf ≡ text₁ ++ (text₂ ++ unread vm₂)
expect_twice w₁ w₂ ts₁ ts₂ l₁ l₂ vm {vm₁} {vm₂} {text₁} {text₂} fits e₁ e₂ =
    let (m₁, (more₁, grown₁)) =
      subst (Progress w₁.needle vm.cursor vm.serial_buf) e₁ (run-Progress w₁ ts₁ vm l₁) in
    let (m₂, (more₂, grown₂)) =
      subst (Progress w₂.needle vm₁.cursor vm₁.serial_buf) e₂ (run-Progress w₂ ts₂ vm₁ l₂) in
    let longer : vm.cursor ≤ length vm₁.serial_buf =
      omega (arith, ap length grown₁, length-append vm.serial_buf more₁) in
    let fits₁ : vm₁.cursor ≤ length vm₁.serial_buf = omega (
      arith,
      m₁.moved,
      ap length m₁.splits,
      length-drop vm.cursor vm₁.serial_buf,
      length-append text₁ (unread vm₁),
    ) in
    ap (drop vm.cursor) grown₂
    ∙ drop-append_le vm.cursor vm₁.serial_buf more₂ longer
    ∙ ap (λ xs. xs ++ more₂) m₁.splits
    ∙ append_assoc text₁ (unread vm₁) more₂
    ∙ ap (λ xs. text₁ ++ xs)
        (sym (drop-append_le vm₁.cursor vm₁.serial_buf more₂ fits₁)
          ∙ ap (drop vm₁.cursor) (sym grown₂)
          ∙ m₂.splits)
