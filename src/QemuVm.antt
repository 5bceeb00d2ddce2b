-- ===== src/QemuVm.antt =====
-- drtmtest/qemu_vm.py: one QEMU process, its console, its TPM and what the environment says of it.
pub mod Expect
pub mod Settings
pub mod Serial
pub mod Lifecycle
pub mod Tpm
