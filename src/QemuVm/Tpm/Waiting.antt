-- ===== src/QemuVm/Tpm/Waiting.antt =====
-- How `start_swtpm` ends.
use drtm_tests.Prelude.{
  ℕ, ◌+◌, ◌≡◌, refl, ◌⊎◌, inl, inr, Bool, true, false, not, ◌||◌, List, [], ◌∷◌, if◌then◌else◌, leb,
  arith, some_of, Result, ok, err, runtime_error, timeout_error, called_process_error,
}
use drtm_tests.QemuVm.Tpm.{
  Setup, failed, ended, Poll, Start, wait_loop, wait_for_socket, start_swtpm,
}

-- The rounds come to the deadline, as time does.
abbrev pub reaches : ℕ → List Poll → Bool
reaches deadline polls = some_of (λ p. leb deadline p.now) polls

-- Whether the socket was ever seen
abbrev pub was_there : List Poll → Bool
was_there polls = some_of (λ p. p.exists) polls

-- An end: a start that returned, with a socket that was there, or an exception, one of three, behind
-- which swtpm does not run.
abbrev pub IsSettled : Bool → Bool × Result (Unit {0}) → Type 0
IsSettled there (runs, ok _) = there ≡ true
IsSettled there (runs, err e) =
    (runs ≡ false) × ((e ≡ timeout_error) ⊎ ((e ≡ runtime_error) ⊎ (e ≡ called_process_error)))

IsSettled-later :
    (there : Bool) (r : Bool × Result (Unit {0})) → IsSettled there r → IsSettled (false || there) r
IsSettled-later there (runs, ok _) h = h
IsSettled-later there (runs, err e) h = h

wait_loop-IsSettled :
    (deadline : ℕ) (polls : List Poll)
    → reaches deadline polls ≡ true
    → IsSettled (was_there polls) (wait_loop deadline polls)
unfolding wait_loop
wait_loop-IsSettled deadline [] h = ground arith
wait_loop-IsSettled deadline (p ∷ polls) h =
    polled (leb deadline p.now) p.exists p.exited h (wait_loop-IsSettled deadline polls)
  where
    polled :
        (late exists exited : Bool)
        → (late || reaches deadline polls) ≡ true
        → (reaches deadline polls ≡ true → IsSettled (was_there polls) (wait_loop deadline polls))
        → IsSettled (exists || was_there polls) (
            if late
            then (false, err timeout_error)
            else if exists
            then (not exited, ok tt)
            else if exited
            then (false, err runtime_error)
            else wait_loop deadline polls)
    polled true exists exited k later = (refl, inl refl)
    polled false true exited k later = refl
    polled false false true k later = (refl, inr (inl refl))
    polled false false false k later =
        IsSettled-later (was_there polls) (wait_loop deadline polls) (later k)

pub start_swtpm-IsSettled :
    (s : Start) (prepared : Setup) (now : ℕ) (polls : List Poll)
    → reaches (now + 5000) polls ≡ true
    → IsSettled
        (was_there polls)
        ((start_swtpm s prepared now polls).1, (start_swtpm s prepared now polls).2)
unfolding start_swtpm
start_swtpm-IsSettled s failed now polls h = (refl, inr (inr refl))
start_swtpm-IsSettled s (ended false) now polls h = (refl, inr (inl refl))
start_swtpm-IsSettled s (ended true) now polls h =
    unfold wait_for_socket in wait_loop-IsSettled (now + 5000) polls h
