-- ===== src/Lib.antt =====
-- drtm-tests: the boot tests of TrenchBoot's dynamic launch, in Python.
--
-- A session (drtmtest/session.py) boots an image in QEMU for each release and configuration, reads
-- its console, and reports. These files model the parts of the package that decide something.
--
-- The parts, and the files that model them:
--
-- * EventLog (drtmtest/eventlog.py): `parse`, `banks` and `replay`. Bytes are a list of numbers, a
--   `struct.error`, `KeyError` or `ValueError` is an `err`. EventLog/Encode writes the log's layout
--   down, independently of the parser. The outer loop runs on fuel, one more than the buffer's length:
--   each event takes at least sixteen bytes of it. `hashlib` is the record `Hashlib`.
-- * QemuVm/Expect (drtmtest/qemu_vm.py, `QemuVm.expect` and `_check_alive`): the loop that waits for a
--   text on the serial console. `round` is one round of it. What the reader's thread, the clock, the
--   process and QMP give the round is a `Tick`, and `run` goes over a list of ticks, so a schedule of
--   the reader against the loop is a list. Times are in milliseconds. QemuVm/Expect/Scans has calls one
--   behind another, and the scan of a finished capture that is their abstract view.
-- * QemuVm/Settings (drtmtest/qemu_vm.py, the module's functions and `Settings`): what the
--   environment says. An environment is a dict. `shutil.which`, the access to `/dev/kvm` and the end of
--   the probe's run are arguments.
-- * QemuVm/Lifecycle (drtmtest/qemu_vm.py, `QemuVm.__enter__` and `__exit__`): what a `with` block starts
--   on the host and takes down. How the processes and the connection end is a `World`.
-- * QemuVm/Tpm (drtmtest/qemu_vm.py, `start_swtpm` and what it calls): the commands, and the loop that
--   waits for the socket, over a list of its rounds. An empty list is a wait that is not over.
-- * QemuVm/Serial (drtmtest/qemu_vm.py, `running_addresses`, `_connect_serial`, `wait_for_qmp` and what is read
--   of the console): the loops go over lists of their rounds, and an empty list is a wait that is not over.
--   QemuVm/Serial/Reader has the thread that reads the console.
-- * Machine (drtmtest/machine.py): the options of a boot's machine. `shlex.split` is an argument.
-- * Assets (drtmtest/assets.py): a cache directory is a dict of its files. `urlretrieve` and SHA-256 are
--   the record `Web`, where a download can end with the whole file, with a part of it, or with none.
-- * Trenchboot (drtmtest/trenchboot.py): the pinned releases and the image under test. It fetches
--   through Assets. `resolve`, `is_file` and gzip are arguments.
-- * Matrix (drtmtest/matrix.py): the configurations, the matrix of CI and a cell's environment, which
--   Machine, QemuVm/Settings and Trenchboot read.
-- * Session (drtmtest/session.py): the run's directory, the boots that a collection starts, and in
--   Session/Records what the two results files say of a test. Session/Finish has the files. Durations are in
--   milliseconds, and their formats are arguments. Session/Threads has the calls of `run_log_dir` that
--   overlap and Session/Pool the pool of the boots, as step relations.
-- * Suite (tests/conftest.py): the entries that the sessions boot and, in Suite/Expects, the marks of the tests
--   that are to fail; Suite/Machines has a boot's CPUs, the workers and the range of Xen's event log, and
--   Suite/Plan the check and the tests that Intel drops in front of Session's collection.
-- * Report (drtmtest/report.py): marks, titles, order and badges; Report/Tables has the tables,
--   Report/Pages the page behind its header, and Report/Header the rest and the files.
-- * GrubCfg (drtmtest/grubcfg.py): the image's boot partition, the entries of its menu and their
--   commands. What `mtype` prints is an argument.
-- * QmpClient (drtmtest/qmp_client.py): one command, and in QmpClient/Connection its socket. The socket's
--   reads are a list of chunks, and the decoding of JSON is an argument.
-- * Console (drtmtest/console.py): the steps at the serial console. `QemuVm` is the record `Terminal`,
--   with `send` and `expect` over any state. Console/Menu has what is assumed of GRUB, that a press it
--   answers moved the highlight by one and a press it does not answer was lost. Console/Shell has the
--   commands and what is read of the PCRs, Console/Pcrs the listing that `tpm2_pcrread` prints, and
--   Console/Serial the terminal that QemuVm/Expect makes, with what a terminal's user relies on as the
--   record `ReadsCapture`.
-- * Bundle (drtmtest/bundle.py): QEMU's tarball. The cache directory has directory trees beside its files,
--   and a tree is a dict from paths. `tarfile`, `strip` and the run of `qemu --version` are arguments.
-- * Dasharo (drtmtest/dasharo.py): the firmware and `warmed_firmware`, with the boot as an argument.
--   Dasharo/Threads has the same function as steps of threads under `_warm_lock`, where a run can also be
--   killed and started anew.
-- * TbBoot (drtmtest/boot.py): `tb-boot`. It reads the same environment and options as the tests' boots,
--   over Machine, Trenchboot, Dasharo and Assets. What the command line gives is the record `Flags`.
--
-- Prelude has Python's dicts in insertion order, texts as lists of character codes (`strip`, `lower`,
-- `split_on`, `join`, ...), `bytes.find`, hexadecimal, results with the exceptions as values, and the runs
-- of a step relation.
--
-- Not modelled: the processes and sockets themselves, argparse and pytest's own
-- machinery, JSON, the messages of exceptions, and what a boot of the suite collects over the console.
pub mod Prelude
pub mod EventLog
pub mod QemuVm
pub mod Machine
pub mod Assets
pub mod Trenchboot
pub mod Matrix
pub mod Session
pub mod Report
pub mod GrubCfg
pub mod QmpClient
pub mod Console
pub mod Bundle
pub mod Dasharo
pub mod TbBoot
pub mod Suite
