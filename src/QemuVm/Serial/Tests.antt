-- ===== src/QemuVm/Serial/Tests.antt =====
-- The registers of two CPUs, and a reader that is stopped.
use drtm_tests.Prelude.Dict.{insert}
use drtm_tests.Prelude.{
  ◌≡◌, refl, true, false, List, [], ◌∷◌, ◌++◌, Text, txt, text_eq, nat_eq, starts_with, strip,
  split_on, ok, err, timeout_error, qemu_exited,
}
use drtm_tests.QemuVm.Serial.{running_addresses, connected, refused, connect_serial, wait_for_qmp}
use drtm_tests.QemuVm.Serial.Reader.{
  Round, chunk, timed_out, Capture, read_serial, GrewBy, read_serial-GrewBy,
}

abbrev newline : Text
newline = 10 ∷ []

abbrev registers : Text
registers =
    newline
    ++ (txt "CPU#0"
        ++ (newline
            ++ (txt "RIP=00ff RFL=2 HLT=1 II=0"
                ++ (newline ++ (txt "CPU#1" ++ (newline ++ txt "EIP=fe01 EFL=2 SMM=0 HLT=0"))))))

one_runs : running_addresses registers ≡ ok ((1, txt "fe01") ∷ [])
unfolding running_addresses starts_with strip split_on insert nat_eq txt
one_runs = refl

connects : connect_serial 0 ((0, false, refused) ∷ (100, false, connected) ∷ []) ≡ ok tt
unfolding connect_serial
connects = refl

exits : connect_serial 0 ((0, false, refused) ∷ (100, true, connected) ∷ []) ≡ err qemu_exited
unfolding connect_serial
exits = refl

late : wait_for_qmp 5000 0 ((false, 50) ∷ (false, 5000) ∷ []) ≡ err timeout_error
unfolding wait_for_qmp
late = refl

abbrev rounds : List Round
rounds =
    record { stopped = false; recv = chunk (1 ∷ 2 ∷ []); stopped_inside = false }
    ∷ record { stopped = false; recv = timed_out; stopped_inside = false }
    ∷ record { stopped = false; recv = chunk (3 ∷ []); stopped_inside = true }
    ∷ []

abbrev nothing : Capture
nothing = record { log = []; buf = [] }

dropped : read_serial rounds nothing ≡ record { log = 1 ∷ 2 ∷ []; buf = 1 ∷ 2 ∷ [] }
unfolding read_serial
dropped = refl

read_serial-GrewBy_example : GrewBy (1 ∷ 2 ∷ 3 ∷ []) nothing (read_serial rounds nothing)
read_serial-GrewBy_example = read_serial-GrewBy rounds nothing
