-- ===== src/QemuVm/Expect/Silence.antt =====
-- How a wait ends when the needle does not come.
use drtm_tests.Prelude.Find.{find}
use drtm_tests.Prelude.{
  ℕ, ◌+◌, ◌-◌, ◌<◌, ◌≤◌, ◌≡◌, ◌≢◌, refl, ap, Bool, true, false, none, some, List, [], ◌∷◌, ◌++◌,
  Bytes, arith, length, take, length-append, drop-append_le, Error, ok, err, inl, inr, Result-cases,
  ◌⊎◌, leb, some_of, guest_panicked, guest_hung,
}
use drtm_tests.QemuVm.Expect.{
  Vm, Tick, Wait, Locals, Round, found, raised, again, watch, sample, look_at, look_on,
  keep_waiting, check_alive, answer_all, same_addresses, is_empty, receive, unread, round, run,
  panics, start, stuck_after, stuck_for,
}
use drtm_tests.QemuVm.Expect.Match.{continue, check_alive_keeps}

-- The loop's states: a call begins, and a round goes on.
pub data Waits (w : Wait) : Vm → Locals → Type 0 where
  begins :
      {vm : Vm} (now : ℕ) → vm.cursor ≤ length vm.serial_buf → Waits w vm (start w.answers now vm)
  goes_on :
      {vm vm' : Vm} {l l' : Locals} (t : Tick)
      → Waits w vm l
      → round w t vm l ≡ again vm' l'
      → Waits w vm' l'

pub record IsTracked (vm : Vm) (l : Locals) : Type 0 where
  pub within : vm.cursor ≤ length vm.serial_buf
  pub seen_le : l.seen ≤ length (unread vm)

unread-receive :
    (t : Tick) (vm : Vm)
    → vm.cursor ≤ length vm.serial_buf
    → unread (receive t vm) ≡ unread vm ++ t.received
unread-receive t vm h = drop-append_le vm.cursor vm.serial_buf t.received h

-- Why a round can end in `GuestHung`: nothing new, and a silence as long as `idle`, or one of
-- `stuck_after` with CPUs that stood at the same addresses for `stuck_for`.
pub record IsSilent (w : Wait) (buf : Bytes) (t : Tick) (l : Locals) : Type 0 where
  pub nothing_new : length buf ≡ l.seen
  pub long :
      (w.idle ≤ t.now - l.last_seen)
      ⊎ ((stuck_after ≤ t.now - l.last_seen)
          × (stuck_for ≤ t.now - l.stuck_since)
          × (is_empty t.addresses ≡ false)
          × (same_addresses t.addresses l.stuck ≡ true))

watch-IsSilent :
    (w : Wait) (buf : Bytes) (t : Tick) (l : Locals) {e : Error}
    → watch w buf t l ≡ err e
    → IsSilent w buf t l
unfolding watch sample
watch-IsSilent w buf t l h = ground arith

watch_seen :
    (w : Wait) (buf : Bytes) (t : Tick) (l : Locals) {l' : Locals}
    → watch w buf t l ≡ ok l'
    → l'.seen ≡ length buf
unfolding watch sample
watch_seen w buf t l h = ground arith

-- Bytes that arrived since the last round are not silence.
watch_new :
    (w : Wait) (buf : Bytes) (t : Tick) (l : Locals)
    → l.seen < length buf
    → (l' : Locals) × (watch w buf t l ≡ ok l')
unfolding watch
watch_new w buf t l h =
    (record l { seen = length buf; last_seen = t.now; stuck = [] }, ground arith)

-- What a round that goes on has changed.
round_again :
    (w : Wait) (t : Tick) (vm : Vm) (l : Locals) {vm' : Vm} {l' : Locals}
    → round w t vm l ≡ again vm' l'
    → (vm'.cursor ≡ vm.cursor)
      × (vm'.serial_buf ≡ vm.serial_buf ++ t.received)
      × (l'.seen ≡ length (unread (receive t vm)))
      × (leb w.deadline t.late ≡ false)
unfolding round look_on look_at keep_waiting
round_again w t vm l e = elim (Result-cases (watch w (unread (receive t vm)) t l)) [
  | inl (l₁, calm) ↦ ground (
    arith,
    calm,
    watch_seen w (unread (receive t vm)) t l calm,
    check_alive_keeps t (record (receive t vm) {
      sent = (answer_all (unread (receive t vm)) vm.cursor w.answers l₁.answered vm.sent).1;
    }),
  )
  | inr (e', hung) ↦ ground (arith, hung)
]

Waits-IsTracked : {w : Wait} {vm : Vm} {l : Locals} → Waits w vm l → IsTracked vm l
Waits-IsTracked {w} (begins {vm} now h) = record {
  within = h;
  seen_le = unfold start in omega arith;
}
Waits-IsTracked {w} (goes_on {vm} {vm'} {l} {l'} t r e) =
    let (same, grown, seen, _) = round_again w t vm l e in
    let before = Waits-IsTracked r in
    record {
      within =
          omega
            (arith, same, ap length grown, length-append vm.serial_buf t.received, before.within);
      seen_le = omega (arith, seen, unread_same vm' (receive t vm) same grown);
    }
  where
    unread_same :
        (a b : Vm)
        → a.cursor ≡ b.cursor
        → a.serial_buf ≡ b.serial_buf
        → length (unread b) ≡ length (unread a)
    unread_same a b c d = rw (c, d)

module _ (w : Wait) (t : Tick) {vm : Vm} {l : Locals} (r : Waits w vm l) where
  fresh : t.received ≢ [] → l.seen < length (unread (receive t vm))
  fresh new =
      let tracked = Waits-IsTracked r in
      omega (
        arith,
        ap length (unread-receive t vm tracked.within),
        length-append (unread vm) t.received,
        tracked.seen_le,
        length_pos t.received new,
      )
    where
      length_pos : (xs : Bytes) → xs ≢ [] → 0 < length xs
      length_pos [] h = absurd (h refl)
      length_pos (x ∷ xs) h = omega arith

  -- In a round in which bytes arrived and the needle now stands in what is not yet consumed, the
  -- wait returns: the needle goes before the failures, the deadline and every sign of a hang.
  pub round_delivers :
      (at : ℕ)
      → t.received ≢ []
      → find w.needle (unread (receive t vm)) ≡ some at
      → round w t vm l
        ≡ found
            (record (receive t vm) { cursor = vm.cursor + (at + length w.needle) })
            (take (at + length w.needle) (unread (receive t vm)))
  unfolding round look_on look_at
  round_delivers at new hit =
      let (l', calm) = watch_new w (unread (receive t vm)) t l (fresh new) in rw (calm, hit)

  -- Without the needle, a failure's text that has arrived ends the wait in the same round, whatever
  -- the time and the state of QEMU.
  pub round-panics :
      t.received ≢ []
      → find w.needle (unread (receive t vm)) ≡ none
      → panics w.failures (unread (receive t vm)) ≡ true
      → round w t vm l ≡ raised (receive t vm) guest_panicked
  unfolding round look_on look_at
  round-panics new miss panic =
      let (l', calm) = watch_new w (unread (receive t vm)) t l (fresh new) in rw (calm, miss, panic)

  pub round-IsSilent :
      {vm' : Vm}
      → t.status ≢ err guest_hung
      → round w t vm l ≡ raised vm' guest_hung
      → (t.received ≡ []) × IsSilent w (unread (receive t vm)) t l
  unfolding round look_on look_at keep_waiting check_alive
  round-IsSilent honest e = elim (Result-cases (watch w (unread (receive t vm)) t l)) [
    | inl (l₁, calm) ↦ absurd (ground (arith, calm))
    | inr (e', hung) ↦
        let silent = watch-IsSilent w (unread (receive t vm)) t l hung in
        (nothing t.received (λ new. omega (arith, fresh new, silent.nothing_new)), silent)
  ]
    where
      nothing : (xs : Bytes) → (xs ≢ [] → ⊥) → xs ≡ []
      nothing [] h = refl
      nothing (x ∷ xs) h = absurd (h (λ p. cc))

  -- A round that reaches its deadline's test behind the deadline does not wait on.
  round_ends :
      leb w.deadline t.late ≡ true → {vm' : Vm} {l' : Locals} → round w t vm l ≢ again vm' l'
  round_ends over e = ground (arith, (round_again w t vm l e).3)

abbrev pub is_over : Wait → Tick → Bool
is_over w t = leb w.deadline t.late

abbrev pub Ended : Round → Type 0
Ended (again vm l) = ⊥
Ended _ = Unit {0}

ends_behind :
    (w : Wait) (t : Tick) (ts : List Tick) (vm : Vm) (l : Locals) (r : Round)
    → ((vm' : Vm) (l' : Locals) → some_of (is_over w) ts ≡ true → Ended (run w ts vm' l'))
    → some_of (is_over w) (t ∷ ts) ≡ true
    → round w t vm l ≡ r
    → Ended (continue w ts r)
ends_behind w t ts vm l (found vm' text) ih over e = tt
ends_behind w t ts vm l (raised vm' x) ih over e = tt
ends_behind w t ts vm l (again vm' l') ih over e =
    let (_, _, _, early) = round_again w t vm l e in ih vm' l' (rw early at over)

-- A wait always ends, by its needle or an exception: on any schedule that has a round which comes
-- to the deadline's test behind the deadline, whatever the console prints.
pub run-Ended :
    (w : Wait) (ts : List Tick) (vm : Vm) (l : Locals)
    → some_of (is_over w) ts ≡ true
    → Ended (run w ts vm l)
unfolding run
run-Ended w [] vm l over = absurd (ground arith)
run-Ended w (t ∷ ts) vm l over = ends_behind w t ts vm l (round w t vm l) (run-Ended w ts) over refl
