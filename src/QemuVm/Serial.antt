-- ===== src/QemuVm/Serial.antt =====
-- The serial console's connection and its reader's thread, `wait_for_qmp`, `running_addresses` and
-- `_exit_reason`. What the sockets, the clock and the process give is what the functions are given.
pub mod Reader
mod Tests
use drtm_tests.Prelude.Dict.{Dict, insert}
use drtm_tests.Prelude.{
  ℕ, zero, suc, ◌+◌, ◌-◌, ◌*◌, ◌==◌, leb, ltb, Bool, true, false, not, ◌&&◌, ◌||◌, Option, none,
  some, List, [], ◌∷◌, ◌++◌, Text, Bytes, txt, text_eq, nat_eq, ◌is◌, if◌then◌else◌, starts_with,
  strip, split_on, join, split_lines, show, length, drop, Error, Result, ok, err, ◌>>=◌,
  value_error, timeout_error, exhausted, qemu_exited, os_error, runtime_error, get_or,
}
use drtm_tests.QmpClient.{Response, single, ack_and_event}
use drtm_tests.QemuVm.Expect.{Vm}

-- `registers.replace("\r", "")`
unfoldable pub without_cr : Text → Text
without_cr [] = []
without_cr (c ∷ s) = let rest = without_cr s in if c == 13 then rest else c ∷ rest

-- The lines up to the next `CPU#` line
unfoldable pub up_to_cpu : List Text → List Text
up_to_cpu [] = []
up_to_cpu (line ∷ lines) =
    let rest = up_to_cpu lines in if starts_with line (txt "CPU#") then [] else line ∷ rest

-- The blocks of `_CPU_RE.split`, less the first, by their lines: what stands behind `CPU#`, and the lines
-- behind it.
unfoldable pub blocks_of : List Text → List (Text × List Text)
unfolding up_to_cpu
blocks_of [] = []
blocks_of (line ∷ lines) =
    let rest = blocks_of lines in
    if starts_with line (txt "CPU#") then (drop 4 line, up_to_cpu lines) ∷ rest else rest

abbrev pub is_hex_digit : ℕ → Bool
is_hex_digit c = (leb b'0' c && leb c b'9') || (leb b'a' c && leb c b'f')

-- `[0-9a-f]+` at the start, and what stands behind it
unfoldable pub hex_digits : Text → Text × Text
hex_digits [] = ([], [])
hex_digits (c ∷ s) =
    let (digits, rest) = hex_digits s in if is_hex_digit c then (c ∷ digits, rest) else ([], c ∷ s)

abbrev pub is_digit : ℕ → Bool
is_digit c = leb b'0' c && leb c b'9'

-- The digit behind a text's ` HLT=`
abbrev pub hlt_digit : Text → Option ℕ
hlt_digit [] = none
hlt_digit (c ∷ s) = if is_digit c then some c else none

-- ` .* HLT=(\d)`, where `.*` takes as much as it can: the last such place counts.
unfoldable pub last_hlt : Text → Option ℕ
last_hlt [] = none
last_hlt (c ∷ s) = elim (last_hlt s) [
  | some digit ↦ some digit
  | none ↦ if starts_with (c ∷ s) (txt " HLT=") then hlt_digit (drop 5 (c ∷ s)) else none
]

-- `_IP_RE` at the start of a line: the address, and the digit of `HLT`
abbrev pub behind_address : Text → Text → Option (Text × ℕ)
behind_address [] rest = none
behind_address (d ∷ digits) [] = none
behind_address (d ∷ digits) (c ∷ s) =
    if c == b' '
    then (elim (last_hlt s) [ none ↦ none | some digit ↦ some (d ∷ digits, digit) ])
    else none

unfoldable pub ip_of : Text → Option (Text × ℕ)
unfolding hex_digits last_hlt
ip_of line =
    let (digits, rest) = hex_digits (drop 4 line) in
    if starts_with line (txt "RIP=") || starts_with line (txt "EIP=")
    then behind_address digits rest
    else none

-- `_IP_RE.search(block)`
unfoldable pub ip_in : List Text → Option (Text × ℕ)
unfolding ip_of
ip_in [] = none
ip_in (line ∷ lines) = elim (ip_of line) [ none ↦ ip_in lines | some ip ↦ some ip ]

-- `int(text)`, of ASCII digits
unfoldable pub number_from : ℕ → Text → Result ℕ
number_from value [] = ok value
number_from value (c ∷ s) =
    let rest = number_from (value * 10 + (c - b'0')) s in
    if is_digit c then rest else err value_error

abbrev pub int_of : Text → Result ℕ
int_of [] = err value_error
int_of (c ∷ s) = number_from 0 (c ∷ s)

-- The loop of `running_addresses`
unfoldable pub addresses_loop : List (Text × List Text) → Dict ℕ Text → Result (Dict ℕ Text)
unfolding ip_in number_from
addresses_loop [] addresses = ok addresses
addresses_loop ((index, lines) ∷ blocks) addresses = elim (ip_in (index ∷ lines)) [
  | none ↦ addresses_loop blocks addresses
  | some (address, digit) ↦
      let skipped = addresses_loop blocks addresses in
      let added =
        int_of (strip index) >>= λ i. addresses_loop blocks (insert i address addresses) in
      if digit == b'0' then added else skipped
]

unfoldable pub running_addresses : Text → Result (Dict ℕ Text)
unfolding without_cr blocks_of addresses_loop
running_addresses registers = addresses_loop (blocks_of (split_on 10 (without_cr registers))) []

-- `_running_addresses`, on how `human_monitor_command` ends
unfoldable pub addresses_of : Result Response → Result (Dict ℕ Text)
unfolding running_addresses
addresses_of (err os_error) = ok []
addresses_of (err runtime_error) = ok []
addresses_of (err value_error) = ok []
addresses_of (err e) = err e
addresses_of (ok (single m)) = running_addresses (get_or [] m.returned)
addresses_of (ok (ack_and_event m n)) = running_addresses []

-- How a try to connect to the port ends.
pub data Connection : Type 0 where
  connected refused : Connection
  failed : Error → Connection

-- The loop of `_connect_serial` over its rounds: the time at its test, whether the process is gone, and the
-- connection
unfoldable pub connect_loop : ℕ → List (ℕ × Bool × Connection) → Result (Unit {0})
connect_loop deadline [] = err exhausted
connect_loop deadline ((now, exited, connection) ∷ attempts) =
    let rest = connect_loop deadline attempts in
    if not (ltb now deadline)
    then err timeout_error
    else if exited
    then err qemu_exited
    else elim connection [ connected ↦ ok tt | refused ↦ rest | failed e ↦ err e ]

-- `_connect_serial`, which begins at a time
unfoldable pub connect_serial : ℕ → List (ℕ × Bool × Connection) → Result (Unit {0})
unfolding connect_loop
connect_serial now attempts = connect_loop (now + 10000) attempts

-- `wait_for_qmp`, over its rounds: whether the socket is there, and the time
unfoldable pub qmp_loop : ℕ → List (Bool × ℕ) → Result (Unit {0})
qmp_loop deadline [] = err exhausted
qmp_loop deadline ((there, now) ∷ rounds) =
    let rest = qmp_loop deadline rounds in
    if there then ok tt else if leb deadline now then err timeout_error else rest

unfoldable pub wait_for_qmp : ℕ → ℕ → List (Bool × ℕ) → Result (Unit {0})
unfolding qmp_loop
wait_for_qmp timeout now rounds = qmp_loop (now + timeout) rounds

-- `lines[-3:]`
abbrev pub last_three : List Text → List Text
last_three lines = drop (length lines - 3) lines

-- `_exit_reason`, of the exit code as a text and of the log of QEMU's errors, if it is there
unfoldable pub exit_reason : Text → Option Text → Text
exit_reason code stderr =
    let tail : Text = elim stderr [
      | none ↦ []
      | some text ↦ join (10 ∷ []) (last_three (split_lines (strip text)))
    ] in
    txt "QEMU exited with " ++ (code ++ (10 ∷ tail))

-- `send` on the socket
abbrev pub send : Bytes → Vm → Vm
send content vm = record vm { sent = vm.sent ++ (content ∷ []) }

-- `capture`, with the decoding
abbrev pub capture : (Bytes → Text) → Vm → Text
capture decode vm = decode vm.serial_buf

-- `running`, of what `poll` answers of the process, if there is one: nothing while it runs
abbrev pub running : Option (Option ℕ) → Bool
running none = false
running (some none) = true
running (some (some code)) = false
