-- ===== src/Suite/Expects.antt =====
-- The marks of the tests that are to fail where the releases, the PSP or the banks are known to break them: the
-- conditions of `expects_boot`, `expects_xens_efi_banks` and the others.
use drtm_tests.Prelude.{Bool, not, ◌&&◌, txt, text_eq, ◌is◌}
use drtm_tests.Suite.{
  Surroundings, Entry, is_absent, psp_is, broken_reason, other_banks, more_banks,
}

unfoldable pub boot : Surroundings → Entry → Bool
unfolding broken_reason
boot host entry = not (is_absent (broken_reason host entry))

unfoldable pub xens_efi_banks : Surroundings → Entry → Bool
unfolding more_banks
xens_efi_banks host entry =
    more_banks host && (entry.launch && (entry.os is txt "xen" && entry.firmware is txt "dasharo"))

unfoldable pub every_cpu : Surroundings → Entry → Bool
every_cpu host entry =
    host.vendor is txt "intel" && (host.upstream && (entry.os is txt "xen" && entry.launch))

unfoldable pub open_localities : Surroundings → Bool
open_localities host = psp_is (txt "classic") host.psp

unfoldable pub skls_banks : Surroundings → Bool
unfolding other_banks
skls_banks host = other_banks host

unfoldable pub xens_mbi_digest : Surroundings → Bool
unfolding more_banks
xens_mbi_digest host = more_banks host
