-- ===== src/QemuVm/Lifecycle/Cleanup.antt =====
-- What a block leaves on the host.
use drtm_tests.Prelude.{
  ℕ, ◌+◌, ◌≡◌, refl, sym, ap, ◌∙◌, Bool, true, false, not, ◌&&◌, Option, none, some, List, [], ◌∷◌,
  ◌++◌, Text, Bytes, text_eq, arith, ◌is◌, if◌then◌else◌, Error, Result, ok, err, timeout_error,
}
use drtm_tests.QemuVm.Lifecycle.{
  Process, swtpm, qemu, Host, Handles, Boot, World, fresh_block, prepare, attach, attach_tpm,
  left_running, launch_args, launch, enter_block, unlink, stop_qemu, stop_swtpm, exit,
}

-- A host on which nothing of a boot is there, with log files of others.
abbrev pub idle : ℕ → Host
idle files = record {
  runs_swtpm = false;
  runs_qemu = false;
  sockets = [];
  workdir = false;
  open_files = files;
  stopped = [];
  saved = none;
}

-- Nothing of a boot is left: no process, no socket, no scratch directory and no open log file.
pub record IsClean (files : ℕ) (h : Host) : Type 0 where
  pub no_swtpm : h.runs_swtpm ≡ false
  pub no_qemu : h.runs_qemu ≡ false
  pub no_sockets : h.sockets ≡ []
  pub no_workdir : h.workdir ≡ false
  pub no_files : h.open_files ≡ files

-- What a block knows of what `__enter__` started.
pub record IsTracked (files : ℕ) (h : Host) (v : Handles) : Type 0 where
  pub tracks_swtpm : h.runs_swtpm ≡ v.swtpm
  pub tracks_qemu : (h.runs_qemu && not v.process) ≡ false
  pub tracks_sockets : unlink v.qmp_sock (unlink v.swtpm_sock h.sockets) ≡ []
  pub tracks_workdir : h.workdir ≡ v.workdir
  pub tracks_files : h.open_files ≡ files + v.files

exit-IsClean :
    (files : ℕ) (b : Boot) (clean : Bool) (flash : Bytes) (v : Handles) (h : Host)
    → IsTracked files h v
    → IsClean files (exit b clean flash v h)
unfolding exit stop_qemu stop_swtpm
exit-IsClean files b clean flash v h t = ground (arith, t)

abbrev Tracks : ℕ → Host × Handles → Type 0
Tracks files (h, v) = IsTracked files h v

abbrev TracksAll : ℕ → Host × Handles × Result (List Text) → Type 0
TracksAll files (h, v, r) = IsTracked files h v

-- What is tracked before QEMU is started: there is no QEMU yet, and at most the TPM's socket.
record IsPrepared (files : ℕ) (h : Host) (v : Handles) : Type 0 where
  pub tracked : IsTracked files h v
  pub no_process : v.process ≡ false
  pub no_qmp : v.qmp_sock ≡ none

prepare-IsPrepared :
    (files : ℕ) (b : Boot)
    → IsPrepared files (prepare b (idle files) fresh_block).0 (prepare b (idle files) fresh_block).1
unfolding prepare fresh_block unlink
prepare-IsPrepared files b = ground arith

abbrev PreparedAll : ℕ → Host × Handles × Result (List Text) → Type 0
PreparedAll files (h, v, r) = IsPrepared files h v

attach-IsPrepared :
    (files : ℕ) (b : Boot) (w : World)
    → PreparedAll files (attach_tpm b w (prepare b (idle files) fresh_block))
unfolding prepare fresh_block unlink attach attach_tpm
attach-IsPrepared files b w = ground arith

unlink_all :
    (name : Text) (sockets : List Text) → sockets ≡ [] → unlink (some name) (name ∷ sockets) ≡ []
unfolding unlink
unlink_all name [] h = ground arith
unlink_all name (s ∷ sockets) h = ground arith

unlink_both :
    (name : Text) (other : Option Text) (sockets : List Text)
    → unlink other sockets ≡ []
    → unlink (some name) (unlink other (name ∷ sockets)) ≡ []
unfolding unlink
unlink_both name none sockets h = unlink_all name sockets h
unlink_both name (some n) sockets h = one_left (n is name)
  where
    rest : List Text
    rest = unlink (some n) sockets

    one_left : (same : Bool) → unlink (some name) (if same then rest else name ∷ rest) ≡ []
    one_left true = ap (unlink (some name)) h
    one_left false = unlink_all name rest h

unlink-none : (sockets : List Text) → unlink none sockets ≡ sockets
unfolding unlink
unlink-none sockets = refl

launch-IsTracked :
    (files : ℕ) (b : Boot) (w : World) (r : Host × Handles × Result (List Text))
    → PreparedAll files r
    → TracksAll files (launch b w r)
unfolding launch
launch-IsTracked files b w (h, v, err e) p = p.tracked
launch-IsTracked files b w (h, v, ok tpm) p = connected w.connect_ends
  where
    bare : unlink v.swtpm_sock h.sockets ≡ []
    bare =
        sym (unlink-none (unlink v.swtpm_sock h.sockets))
        ∙ ap (λ o. unlink o (unlink v.swtpm_sock h.sockets)) (sym p.no_qmp)
        ∙ p.tracked.tracks_sockets

    started : Host
    started = record h { runs_qemu = true; sockets = w.qmp_sock ∷ h.sockets }

    running : Handles
    running = record v { qmp_sock = some w.qmp_sock; process = true }

    tracked :
        (runs connects : Bool)
        → (runs && not true) ≡ false
        → IsTracked files
            (record started { runs_qemu = runs })
            (record running { connected = connects })
    tracked runs connects known = record {
      tracks_swtpm = p.tracked.tracks_swtpm;
      tracks_qemu = known;
      tracks_sockets = unlink_both w.qmp_sock v.swtpm_sock h.sockets bare;
      tracks_workdir = p.tracked.tracks_workdir;
      tracks_files = p.tracked.tracks_files;
    }

    connected :
        (ends : Option Error)
        → TracksAll files (elim ends [
          | some e ↦ (record started { runs_qemu = left_running e }, running, err e)
          | none ↦ (started, record running { connected = true }, ok (launch_args b w tpm))
        ])
    connected (some e) = tracked (left_running e) v.connected (ground arith)
    connected none = tracked true true refl

enter_block-IsTracked :
    (files : ℕ) (b : Boot) (w : World) → TracksAll files (enter_block b w (idle files))
unfolding enter_block
enter_block-IsTracked files b w =
    launch-IsTracked files b w (attach_tpm b w (prepare b (idle files) fresh_block))
      (attach-IsPrepared files b w)

pub exit-enter_block-IsClean :
    (files : ℕ) (b : Boot) (w : World) (clean : Bool) (flash : Bytes)
    → IsClean files
        (exit b clean flash (enter_block b w (idle files)).1 (enter_block b w (idle files)).0)
exit-enter_block-IsClean files b w clean flash =
    exit-IsClean files b clean flash (enter_block b w (idle files)).1
      (enter_block b w (idle files)).0 (enter_block-IsTracked files b w)

pub enter_block_leaks :
    (files : ℕ) (b : Boot) (w : World)
    → b.tpm ≡ none
    → w.connect_ends ≡ some timeout_error
    → ((enter_block b w (idle files)).2 ≡ err timeout_error)
      × ((enter_block b w (idle files)).0.runs_qemu ≡ true)
      × ((enter_block b w (idle files)).0.workdir ≡ true)
      × ((enter_block b w (idle files)).0.sockets ≡ w.qmp_sock ∷ [])
unfolding enter_block launch attach_tpm prepare
enter_block_leaks files b w t c = ground (arith, t, c)

abbrev pub has_firmware : Boot → Bool
has_firmware b = elim b.firmware [ none ↦ false | some _ ↦ true ]

abbrev pub stopped_by : Option Text → List Process
stopped_by none = qemu ∷ []
stopped_by (some kind) = qemu ∷ swtpm ∷ []

exit-saved :
    (b : Boot) (clean : Bool) (flash : Bytes) (v : Handles) (h : Host)
    → (exit b clean flash v h).saved
      ≡ (if b.save_firmware && (clean && v.firmware_copy) then some flash else h.saved)
unfolding exit stop_qemu stop_swtpm
exit-saved b clean flash v h = ground arith

exit-stopped :
    (b : Boot) (clean : Bool) (flash : Bytes) (v : Handles) (h : Host)
    → v.process ≡ true
    → (exit b clean flash v h).stopped
      ≡ (if v.swtpm then (h.stopped ++ (qemu ∷ [])) ++ (swtpm ∷ []) else h.stopped ++ (qemu ∷ []))
unfolding exit stop_qemu stop_swtpm
exit-stopped b clean flash v h p = ground (arith, p)

-- What a block that runs knows.
entered :
    (files : ℕ) (b : Boot) (w : World) {args : List Text}
    → (enter_block b w (idle files)).2 ≡ ok args
    → ((enter_block b w (idle files)).1.process ≡ true)
      × ((enter_block b w (idle files)).1.swtpm ≡ (elim b.tpm [ none ↦ false | some _ ↦ true ]))
      × ((enter_block b w (idle files)).1.firmware_copy ≡ has_firmware b)
      × ((enter_block b w (idle files)).0.saved ≡ none)
      × ((enter_block b w (idle files)).0.stopped ≡ [])
unfolding enter_block launch attach_tpm attach prepare
entered files b w e = ground arith

pub exit-enter_block_lem :
    (files : ℕ) (b : Boot) (w : World) (clean : Bool) (flash : Bytes) {args : List Text}
    → (enter_block b w (idle files)).2 ≡ ok args
    → ((exit b clean flash
          (enter_block b w (idle files)).1
          (enter_block b w (idle files)).0).stopped
        ≡ stopped_by b.tpm)
      × ((exit b clean flash
            (enter_block b w (idle files)).1
            (enter_block b w (idle files)).0).saved
          ≡ (if b.save_firmware && (clean && has_firmware b) then some flash else none))
exit-enter_block_lem files b w clean flash {args} e =
    let h = (enter_block b w (idle files)).0 in
    let v = (enter_block b w (idle files)).1 in
    let (process, tpm, copied, unsaved, none_stopped) = entered files b w {args = args} e in
    ground (
      arith,
      exit-stopped b clean flash v h process,
      exit-saved b clean flash v h,
      process,
      tpm,
      copied,
      unsaved,
      none_stopped,
    )
