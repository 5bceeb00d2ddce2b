-- ===== src/QemuVm/Serial/Reader.antt =====
-- `_read_serial`, the reader's thread: the capture in memory and the log file.
use mathlib.Core.Path.{ap₂}
use drtm_tests.Prelude.{
  ◌≡◌, refl, sym, ap, ◌∙◌, append-nil, append_assoc, Bool, true, false, List, [], ◌∷◌, ◌++◌, Bytes,
  if◌then◌else◌,
}

-- What `recv` does: it returns bytes, none at the end of the stream, or raises a `TimeoutError` or
-- another `OSError`.
pub data Recv : Type 0 where
  chunk : Bytes → Recv
  timed_out broken : Recv

-- A round of the loop: whether `_stop` is set at its test, what `recv` does, and whether `_stop` is set
-- once the lock is held.
pub record Round : Type 0 where
  pub stopped : Bool
  pub recv : Recv
  pub stopped_inside : Bool

pub record Capture : Type 0 where
  pub log : Bytes
  pub buf : Bytes

abbrev pub add_chunk : Bytes → Capture → Capture
add_chunk bytes c = record { log = c.log ++ bytes; buf = c.buf ++ bytes }

-- A round behind its test; the last argument is the rest of the loop.
abbrev pub take_in : Recv → Bool → Capture → (Capture → Capture) → Capture
take_in timed_out stopped c next = next c
take_in broken stopped c next = c
take_in (chunk []) stopped c next = c
take_in (chunk (b ∷ bytes)) stopped c next = if stopped then c else next (add_chunk (b ∷ bytes) c)

-- `_read_serial` over its rounds
unfoldable pub read_serial : List Round → Capture → Capture
read_serial [] c = c
read_serial (r ∷ rounds) c =
    let rest = take_in r.recv r.stopped_inside c (read_serial rounds) in
    if r.stopped then c else rest

-- What the socket delivered, whether it was read or not
abbrev pub delivered_by : Recv → Bytes
delivered_by (chunk bytes) = bytes
delivered_by timed_out = []
delivered_by broken = []

abbrev pub delivered : List Round → Bytes
delivered [] = []
delivered (r ∷ rounds) = delivered_by r.recv ++ delivered rounds

-- The log and the capture have grown by the same bytes, which the socket delivered first.
pub record GrewBy (bytes : Bytes) (c c' : Capture) : Type 0 where
  pub added : Bytes
  pub left : Bytes
  pub log_is : c'.log ≡ c.log ++ added
  pub buf_is : c'.buf ≡ c.buf ++ added
  pub split_is : bytes ≡ added ++ left

GrewBy-none : (bytes : Bytes) (c : Capture) → GrewBy bytes c c
GrewBy-none bytes c = record {
  added = [];
  left = bytes;
  log_is = sym (append-nil c.log);
  buf_is = sym (append-nil c.buf);
  split_is = refl;
}

GrewBy-add :
    (bytes more : Bytes) (c c' : Capture)
    → GrewBy more (add_chunk bytes c) c'
    → GrewBy (bytes ++ more) c c'
GrewBy-add bytes more c c' g = record {
  added = bytes ++ g.added;
  left = g.left;
  log_is = g.log_is ∙ append_assoc c.log bytes g.added;
  buf_is = g.buf_is ∙ append_assoc c.buf bytes g.added;
  split_is = ap (λ xs. bytes ++ xs) g.split_is ∙ sym (append_assoc bytes g.added g.left);
}

take_in-GrewBy :
    (recv : Recv) (stopped : Bool) (more : Bytes) (c : Capture) (next : Capture → Capture)
    → ((d : Capture) → GrewBy more d (next d))
    → GrewBy (delivered_by recv ++ more) c (take_in recv stopped c next)
take_in-GrewBy timed_out stopped more c next ih = ih c
take_in-GrewBy broken stopped more c next ih = GrewBy-none more c
take_in-GrewBy (chunk []) stopped more c next ih = GrewBy-none more c
take_in-GrewBy (chunk (b ∷ bytes)) true more c next ih = GrewBy-none ((b ∷ bytes) ++ more) c
take_in-GrewBy (chunk (b ∷ bytes)) false more c next ih =
    GrewBy-add (b ∷ bytes) more c (next (add_chunk (b ∷ bytes) c)) (ih (add_chunk (b ∷ bytes) c))

-- The reader's thread, over any rounds: the log file and the capture grow by the same bytes, in the order
-- in which the socket delivered them and with none left out up to the place where the reader stopped.
pub read_serial-GrewBy :
    (rounds : List Round) (c : Capture) → GrewBy (delivered rounds) c (read_serial rounds c)
unfolding read_serial
read_serial-GrewBy [] c = GrewBy-none [] c
read_serial-GrewBy (r ∷ rounds) c = tested (read_serial-GrewBy rounds) r.stopped
  where
    tested :
        ((d : Capture) → GrewBy (delivered rounds) d (read_serial rounds d))
        → (stopped : Bool)
        → GrewBy
            (delivered (r ∷ rounds))
            c
            (if stopped then c else take_in r.recv r.stopped_inside c (read_serial rounds))
    tested ih true = GrewBy-none (delivered (r ∷ rounds)) c
    tested ih false =
        take_in-GrewBy r.recv r.stopped_inside (delivered rounds) c (read_serial rounds) ih

-- A round that neither ends the stream nor breaks it
abbrev pub HasBytes : Recv → Type 0
HasBytes timed_out = Unit {0}
HasBytes broken = ⊥
HasBytes (chunk []) = ⊥
HasBytes (chunk (b ∷ bytes)) = Unit {0}

add_nothing : (c : Capture) → add_chunk [] c ≡ c
add_nothing c = ap₂ (λ l b. record { log = l; buf = b }) (append-nil c.log) (append-nil c.buf)

add_add : (xs ys : Bytes) (c : Capture) → add_chunk ys (add_chunk xs c) ≡ add_chunk (xs ++ ys) c
add_add xs ys c =
    ap₂ (λ l b. record { log = l; buf = b }) (append_assoc c.log xs ys) (append_assoc c.buf xs ys)

-- Rounds in which the thread is not stopped and the connection neither breaks nor ends
abbrev pub IsOpen : List Round → Type 0
IsOpen [] = Unit {0}
IsOpen (r ∷ rounds) =
    (r.stopped ≡ false) × (r.stopped_inside ≡ false) × HasBytes r.recv × IsOpen rounds

open_round :
    (r : Round) (rounds : List Round) (c : Capture)
    → r.stopped ≡ false
    → r.stopped_inside ≡ false
    → HasBytes r.recv
    → ((d : Capture) → read_serial rounds d ≡ add_chunk (delivered rounds) d)
    → take_in r.recv r.stopped_inside c (read_serial rounds)
      ≡ add_chunk (delivered_by r.recv ++ delivered rounds) c
open_round r rounds c running inside bytes ih = by_recv r.recv bytes
  where
    by_recv :
        (recv : Recv)
        → HasBytes recv
        → take_in recv r.stopped_inside c (read_serial rounds)
          ≡ add_chunk (delivered_by recv ++ delivered rounds) c
    by_recv timed_out h = ih c
    by_recv broken h = absurd h
    by_recv (chunk []) h = absurd h
    by_recv (chunk (b ∷ bytes)) h =
        ap (λ stopped. if stopped then c else read_serial rounds (add_chunk (b ∷ bytes) c)) inside
        ∙ ih (add_chunk (b ∷ bytes) c)
        ∙ add_add (b ∷ bytes) (delivered rounds) c

-- An open connection's bytes are all taken in.
pub read_serial-IsOpen :
    (rounds : List Round) (c : Capture)
    → IsOpen rounds
    → read_serial rounds c ≡ add_chunk (delivered rounds) c
unfolding read_serial
read_serial-IsOpen [] c h = sym (add_nothing c)
read_serial-IsOpen (r ∷ rounds) c (running, inside, bytes, h) =
    ap (λ stopped. if stopped then c else take_in r.recv r.stopped_inside c (read_serial rounds))
      running
    ∙ open_round r rounds c running inside bytes (λ d. read_serial-IsOpen rounds d h)
