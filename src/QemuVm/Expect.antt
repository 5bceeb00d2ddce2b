-- ===== src/QemuVm/Expect.antt =====
-- `QemuVm.expect` and `_check_alive`. Texts stand as the bytes that encode them, and the times of
-- `time.monotonic` are in milliseconds. What the reader's thread, the clock, the process and QMP
-- give one round of the loop is a `Tick`, so a run is a list of ticks.
pub mod Match
pub mod Silence
pub mod Answers
pub mod Scans
mod Tests
use drtm_tests.Prelude.Dict.{Dict, lookup, has, keys}
use drtm_tests.Prelude.Find.{find, find_from}
use drtm_tests.Prelude.{
  ℕ, ◌+◌, ◌-◌, Bool, true, false, not, ◌&&◌, ◌||◌, Option, none, some, List, [], ◌∷◌, ◌++◌, map,
  Text, Bytes, txt, text_eq, nat_eq, option_eq, ◌is◌, ◌==◌, leb, ltb, if◌then◌else◌, length, take,
  drop, some_of, Error, Result, ok, err, ◌>>=◌, timeout_error, os_error, qemu_exited,
  guest_panicked, guest_hung, every,
}

-- 90 s, 30 s, 20 s and 2 s
abbrev pub idle_timeout : ℕ
idle_timeout = 90000

abbrev pub stuck_after : ℕ
stuck_after = 30000

abbrev pub stuck_for : ℕ
stuck_for = 20000

abbrev pub stuck_sample : ℕ
stuck_sample = 2000

-- The addresses of the CPUs that run, by index.
abbrev pub Addresses : Type 0
Addresses = Dict ℕ Text

-- The parts of a `QemuVm` that the console's methods use; `sent` is what went out on the socket.
pub record Vm : Type 0 where
  pub serial_buf : Bytes
  pub cursor : ℕ
  pub last_status_check : ℕ
  pub sent : List Bytes

-- What one round of `expect` meets: the bytes that the reader added since the last round, the time
-- after the snapshot, what `_running_addresses` answers, whether the process is gone, the time that
-- `_check_alive` reads, what `query-status` answers (`err os_error` for an `OSError`), and the time
-- at the deadline's test.
pub record Tick : Type 0 where
  pub received : Bytes
  pub now : ℕ
  pub addresses : Addresses
  pub exited : Bool
  pub checked_at : ℕ
  pub status : Result (Option Text)
  pub late : ℕ

-- The arguments of a call, and the deadline that it computed.
pub record Wait : Type 0 where
  pub needle : Bytes
  pub failures : List Bytes
  pub answers : Dict Bytes Bytes
  pub idle : ℕ
  pub deadline : ℕ

-- The loop's local variables. `answered` holds, by prompt, the place behind its last answer.
pub record Locals : Type 0 where
  pub last_seen : ℕ
  pub seen : ℕ
  pub stuck : Addresses
  pub stuck_since : ℕ
  pub sampled : ℕ
  pub answered : Dict Bytes ℕ

-- `==` of two dicts, which does not look at their order
unfoldable pub same_addresses : Addresses → Addresses → Bool
same_addresses a b =
    every (λ k. lookup k a is lookup k b) (keys a) && every (λ k. lookup k a is lookup k b) (keys b)

abbrev pub is_empty : Addresses → Bool
is_empty [] = true
is_empty (_ ∷ _) = false

-- The sample that the loop takes of the CPUs in a long silence.
unfoldable pub sample : Tick → Locals → Result Locals
unfolding same_addresses
sample t l =
    if is_empty t.addresses || not (same_addresses t.addresses l.stuck)
    then ok (record l { sampled = t.now; stuck = t.addresses; stuck_since = t.now })
    else if leb stuck_for (t.now - l.stuck_since)
    then err guest_hung
    else ok (record l { sampled = t.now })

-- The first part of a round: whether the console has been silent for too long.
unfoldable pub watch : Wait → Bytes → Tick → Locals → Result Locals
watch w buf t l =
    if not (length buf == l.seen)
    then ok (record l { seen = length buf; last_seen = t.now; stuck = [] })
    else if leb w.idle (t.now - l.last_seen)
    then err guest_hung
    else if leb stuck_after (t.now - l.last_seen) && leb stuck_sample (t.now - l.sampled)
    then sample t l
    else ok l

-- `f in buf` for one of the failures
unfoldable pub panics : List Bytes → Bytes → Bool
unfolding find
panics failures buf = some_of (λ f. elim (find f buf) [ none ↦ false | some at ↦ true ]) failures

-- One prompt: `after` is where its last answer ended, in the whole capture.
unfoldable pub answer_prompt : Bytes → ℕ → Bytes → Bytes → ℕ → List Bytes → ℕ × List Bytes
unfolding find_from
answer_prompt buf cursor prompt answer after sent = elim (find_from prompt (after - cursor) buf) [
  | none ↦ (after, sent)
  | some at ↦ (cursor + at + length prompt, sent ++ (answer ∷ []))
]

-- The loop over `answered`. A prompt with no answer cannot be there: both have the same keys.
unfoldable pub answer_all :
    Bytes → ℕ → Dict Bytes Bytes → Dict Bytes ℕ → List Bytes → Dict Bytes ℕ × List Bytes
unfolding answer_prompt
answer_all buf cursor answers [] sent = ([], sent)
answer_all buf cursor answers ((prompt, after) ∷ answered) sent = elim (lookup prompt answers) [
  | none ↦
      let (rest, sent') = answer_all buf cursor answers answered sent in
      ((prompt, after) ∷ rest, sent')
  | some answer ↦
      let (after', sent') = answer_prompt buf cursor prompt answer after sent in
      let (rest, sent'') = answer_all buf cursor answers answered sent' in
      ((prompt, after') ∷ rest, sent'')
]

-- `_check_alive`, with what it raises: a run state other than `guest-panicked` is fine, and QMP is
-- asked at most once a second.
unfoldable pub check_alive : Tick → Vm → Vm × Option Error
check_alive t vm =
    if t.exited
    then (vm, some qemu_exited)
    else if ltb (t.checked_at - vm.last_status_check) 1000
    then (vm, none)
    else let asked : Vm = record vm { last_status_check = t.checked_at } in
      elim t.status [
        | err os_error ↦ (asked, none)
        | err e ↦ (asked, some e)
        | ok status ↦
            if status is some (txt "guest-panicked")
            then (asked, some guest_panicked)
            else (asked, none)
      ]

-- How a round ends: with the text up to the needle, an exception, or another round.
pub data Round : Type 0 where
  found : Vm → Bytes → Round
  raised : Vm → Error → Round
  again : Vm → Locals → Round

-- The last part of a round, once neither the needle nor a failure is in the buffer.
unfoldable pub keep_waiting : Wait → Bytes → Tick → Vm → Locals → Round
keep_waiting w buf t vm l =
    let (answered, sent) = answer_all buf vm.cursor w.answers l.answered vm.sent in
    let (vm', failure) = check_alive t (record vm { sent = sent }) in
    elim failure [
      | some e ↦ raised vm' e
      | none ↦
          if leb w.deadline t.late
          then raised vm' timeout_error
          else again vm' (record l { answered = answered })
    ]

-- The middle part, on what `find` answers: the needle first, then the failures.
unfoldable pub look_at : Wait → Bytes → Tick → Vm → Locals → Option ℕ → Round
look_at w buf t vm l (some at) =
    let end = at + length w.needle in found (record vm { cursor = vm.cursor + end }) (take end buf)
look_at w buf t vm l none =
    if panics w.failures buf then raised vm guest_panicked else keep_waiting w buf t vm l

abbrev pub look : Wait → Bytes → Tick → Vm → Locals → Round
look w buf t vm l = look_at w buf t vm l (find w.needle buf)

-- What the reader's thread adds to the capture before the round's snapshot.
abbrev pub receive : Tick → Vm → Vm
receive t vm = record vm { serial_buf = vm.serial_buf ++ t.received }

abbrev pub unread : Vm → Bytes
unread vm = drop vm.cursor vm.serial_buf

unfoldable pub look_on : Wait → Tick → Vm → Result Locals → Round
look_on w t vm (err e) = raised vm e
look_on w t vm (ok l) = look w (unread vm) t vm l

unfoldable pub round : Wait → Tick → Vm → Locals → Round
round w t vm l = let vm' = receive t vm in look_on w t vm' (watch w (unread vm') t l)

-- The loop over a schedule. A schedule that ends first leaves it waiting.
unfoldable pub run : Wait → List Tick → Vm → Locals → Round
run w [] vm l = again vm l
run w (t ∷ ts) vm l = elim (round w t vm l) [
  | found vm' text ↦ found vm' text
  | raised vm' e ↦ raised vm' e
  | again vm' l' ↦ run w ts vm' l'
]

abbrev answered_from : ℕ → Dict Bytes Bytes → Dict Bytes ℕ
answered_from cursor [] = []
answered_from cursor ((prompt, _) ∷ answers) = (prompt, cursor) ∷ answered_from cursor answers

-- A call that begins at a time.
unfoldable pub start : Dict Bytes Bytes → ℕ → Vm → Locals
start answers now vm = record {
  last_seen = now;
  seen = 0;
  stuck = [];
  stuck_since = now;
  sampled = now;
  answered = answered_from vm.cursor answers;
}

abbrev pub wait_of : Bytes → ℕ → List Bytes → Dict Bytes Bytes → ℕ → ℕ → Wait
wait_of needle timeout failures answers idle now = record {
  needle = needle;
  failures = failures;
  answers = answers;
  idle = idle;
  deadline = now + timeout;
}

unfoldable pub expect : Bytes → ℕ → List Bytes → Dict Bytes Bytes → ℕ → ℕ → List Tick → Vm → Round
unfolding run start round look_on watch sample look_at find panics keep_waiting answer_all
    check_alive
expect needle timeout failures answers idle now ticks vm =
    run (wait_of needle timeout failures answers idle now) ticks vm (start answers now vm)
