-- ===== src/Console.antt =====
-- drtmtest/console.py: the boot over the serial console. `QemuVm` is the record `Terminal`, whose state
-- stands for the machine's. What `_TITLE_RE` finds in a menu is an argument.
pub mod HexDump
pub mod Menu
pub mod Shell
pub mod Pcrs
pub mod Answers
pub mod Serial
mod Tests
use drtm_tests.Prelude.Dict.{Dict}
use drtm_tests.Prelude.Hex.{from_hex}
use drtm_tests.Prelude.Sort.{unique}
use drtm_tests.Prelude.{
  ℕ, zero, suc, ◌+◌, Bool, true, false, not, ◌&&◌, ◌||◌, Option, none, some, List, [], ◌∷◌, ◌++◌,
  Text, Bytes, txt, text_eq, ◌is◌, ◌==◌, leb, if◌then◌else◌, contains, take, drop, length,
  starts_with, strip, split_on, join, is_space, Error, Result, ok, err, or_raise, value_error,
  lookup_error, runtime_error, timeout_error,
}

unfoldable pub failures : List Text
failures =
    txt "Panic on CPU" ∷ txt "Kernel panic" ∷ txt "doesn't exist or does not contain a /dev" ∷ []

abbrev pub key_down : Bytes
key_down = 27 ∷ b'[' ∷ b'B' ∷ []

abbrev pub enter : Bytes
enter = 13 ∷ []

abbrev pub key_timeout : ℕ
key_timeout = 10000

-- `_XEN_LINE_RE.sub("", out)`; the flag says that a hypervisor's line has begun.
unfoldable pub without_xen : Bool → Text → Text
without_xen inside [] = []
without_xen true (c ∷ s) =
    let dropped = without_xen true s in
    let kept = c ∷ without_xen false s in if c == 10 then kept else dropped
without_xen false (c ∷ s) =
    let dropped = without_xen true s in
    let kept = c ∷ without_xen false s in
    if starts_with (c ∷ s) (txt "(XEN)") then dropped else kept

-- `_SPACE_RE.sub("", out)`
unfoldable pub without_spaces : Text → Text
without_spaces [] = []
without_spaces (c ∷ s) = let rest = without_spaces s in if is_space c then rest else c ∷ rest

unfoldable pub hex_dump : Text → Result Bytes
unfolding without_xen without_spaces
hex_dump out = or_raise value_error (from_hex (without_spaces (without_xen false out)))

-- `menu_titles`, on what `_TITLE_RE` finds: each title once
abbrev pub menu_titles : (Text → List Text) → Text → List Text
menu_titles find_titles menu = unique (find_titles menu)

-- A serial console: `send`, and `expect` with its time, its failures and its answers.
pub record Terminal (σ : Type 0) : Type 0 where
  pub send : Bytes → σ → σ
  pub expect : Text → ℕ → List Text → Dict Text Bytes → σ → σ × Result Text

unfoldable pub index_of : Text → List Text → ℕ
index_of title [] = 0
index_of title (t ∷ ts) = let rest = index_of title ts in if title is t then 0 else suc rest

abbrev pub then_do {ℓ κ} :
    {σ : Type 0} {A : Type ℓ} {B : Type κ} → σ × Result A → (A → σ → σ × Result B) → σ × Result B
then_do (s, err e) next = (s, err e)
then_do (s, ok a) next = next a s

module _ {σ : Type 0} (vm : Terminal σ) (boot_timeout command_timeout : ℕ) where
  -- One answer to a press: another try at a timeout, and every other exception is passed on.
  abbrev pub retry : σ × Result Text → (σ → σ × Result (Unit {0})) → σ × Result (Unit {0})
  retry (s, ok _) again = (s, ok tt)
  retry (s, err timeout_error) again = again s
  retry (s, err e) again = (s, err e)

  -- `_move_down`, with the presses that are left
  unfoldable pub press : ℕ → Text → σ → σ × Result (Unit {0})
  press zero expected s = (s, err runtime_error)
  press (suc n) expected s =
      retry (vm.expect (b'*' ∷ expected) key_timeout [] [] (vm.send key_down s)) (press n expected)

  abbrev pub move_down : Text → σ → σ × Result (Unit {0})
  move_down expected s = press 2 expected s

  unfoldable pub walk : List Text → σ → σ × Result (Unit {0})
  unfolding press
  walk [] s = (s, ok tt)
  walk (title ∷ titles) s = then_do (move_down title s) (λ _. walk titles)

  unfoldable pub menu : (Text → List Text) → Bool → σ → σ × Result (List Text)
  menu find_titles boot_prompt s =
      let ready : σ → σ × Result (List Text) = λ t.
        then_do
          (vm.expect (txt "The highlighted entry will be executed automatically") boot_timeout [] []
            t)
          (λ text u. (u, ok (menu_titles find_titles text))) in
      if boot_prompt
      then then_do (vm.expect (txt "ENTER to boot directly") boot_timeout [] [] s)
          (λ _ t. ready (vm.send enter t))
      else ready s

  -- `select_entry` behind the menu
  unfoldable pub pick : Text → List Text → σ → σ × Result (List Text)
  unfolding walk
  pick title titles s =
      if not (contains titles title)
      then (s, err lookup_error)
      else then_do (walk (take (index_of title titles) (drop 1 titles)) s)
          (λ _ t. (vm.send enter t, ok titles))

  unfoldable pub select_entry : (Text → List Text) → Text → Bool → σ → σ × Result (List Text)
  unfolding menu pick
  select_entry find_titles title boot_prompt s =
      then_do (menu find_titles boot_prompt s) (pick title)

  -- `_type`: a key at a time
  unfoldable pub type_keys : Bytes → σ → σ
  type_keys [] s = s
  type_keys (key ∷ keys) s = type_keys keys (vm.send (key ∷ []) s)

  unfoldable pub type_commands : List Text → σ → σ × Result (Unit {0})
  unfolding type_keys
  type_commands [] s = (s, ok tt)
  type_commands (command ∷ commands) s =
      then_do (vm.expect (txt "grub> ") command_timeout [] [] (type_keys (command ++ enter) s))
        (λ _. type_commands commands)

  unfoldable pub type_entry : (Text → List Text) → List Text → Bool → σ → σ × Result (List Text)
  unfolding menu type_commands
  type_entry find_titles commands boot_prompt s =
      then_do (menu find_titles boot_prompt s) (λ titles t.
        then_do (vm.expect (txt "grub> ") command_timeout [] [] (vm.send (b'c' ∷ []) t)) (λ _ u.
          then_do (type_commands commands u)
            (λ _ v. (type_keys (txt "boot" ++ enter) v, ok titles))))

  unfoldable pub wait_for_login : Text → σ → σ × Result (Unit {0})
  unfolding failures
  wait_for_login banner s =
      then_do
        (vm.expect banner boot_timeout failures ((txt "Press any key to continue", enter) ∷ []) s)
        (λ _ t. then_do (vm.expect (txt "login:") boot_timeout failures [] t) (λ _ u. (u, ok tt)))

  unfoldable pub login : σ → σ × Result (Unit {0})
  login s =
      then_do (vm.expect (txt "root@tb:~#") command_timeout [] [] (vm.send (txt "root" ++ enter) s))
        (λ _ t. (t, ok tt))
