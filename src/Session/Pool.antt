-- ===== src/Session/Pool.antt =====
-- The pool of a session's boots: a step relation on the boots that wait, run and have ended. Its threads are
-- `workers` many at most and take the boots in the order of their submission; `shutdown` drops those that
-- still wait.
use mathlib.Core.Path.{subst}
use drtm_tests.Prelude.Steps.{Reach, Reach_keeps_all}
use drtm_tests.Prelude.{
  ℕ, ◌+◌, ◌≤◌, ◌<◌, ◌≡◌, refl, sym, ap, ◌∙◌, Bool, true, false, ◌||◌, List, [], ◌∷◌, ◌++◌, Text,
  text_eq, ◌is◌, contains, arith, length, append-nil, append_assoc, Bool-cases, inl, inr,
}
use drtm_tests.Prelude.Sort.{unique}
use drtm_tests.Session.{Session, Item, collection_modifyitems}
use drtm_tests.Session.Boots.{asked_for, collection_modifyitems_lem}

-- `dropped` is what a shutdown found in the queue.
pub record Pool : Type 0 where
  pub queued : List Text
  pub running : List Text
  pub ended : List Text
  pub started : List Text
  pub dropped : List Text
  pub is_open : Bool

-- The pool behind the submission of its boots
abbrev pub new_pool : List Text → Pool
new_pool submitted = record {
  queued = submitted;
  running = [];
  ended = [];
  started = [];
  dropped = [];
  is_open = true;
}

-- `shutdown(cancel_futures=True)`; its wait is the steps behind it.
abbrev pub drop_queued : Pool → Pool
drop_queued s = record s { queued = []; dropped = s.queued; is_open = false }

pub data PoolStep (workers : ℕ) (s t : Pool) : Type 0 where
  start :
      (name : Text) (behind : List Text)
      → s.queued ≡ name ∷ behind
      → length s.running < workers
      → t ≡ record s {
        queued = behind;
        running = name ∷ s.running;
        started = s.started ++ (name ∷ []);
      }
      → PoolStep workers s t
  finish :
      (before : List Text) (name : Text) (behind : List Text)
      → s.running ≡ before ++ (name ∷ behind)
      → t ≡ record s { running = before ++ behind; ended = name ∷ s.ended }
      → PoolStep workers s t
  shutdown : s.is_open ≡ true → t ≡ drop_queued s → PoolStep workers s t

-- What a pool keeps: no more boots run than it has threads, those that it started are the first ones that
-- were submitted, in that order, and each of them runs or has ended; before a shutdown none is dropped.
pub record InOrder (workers : ℕ) (submitted : List Text) (s : Pool) : Type 0 where
  pub bounded : length s.running ≤ workers
  pub in_order : s.started ++ (s.dropped ++ s.queued) ≡ submitted
  pub accounted :
      (name : Text)
      → contains s.started name ≡ true
      → (contains s.running name || contains s.ended name) ≡ true
  pub undropped : s.is_open ≡ true → s.dropped ≡ []
  pub emptied : s.is_open ≡ false → s.queued ≡ []

length_without :
    (before : List Text) (name : Text) (behind : List Text)
    → length (before ++ (name ∷ behind)) ≡ length (before ++ behind) + 1
length_without [] name behind = ground arith
length_without (x ∷ before) name behind = ground (arith, length_without before name behind)

contains_without :
    (before : List Text) (name : Text) (behind : List Text) (n : Text)
    → contains (before ++ (name ∷ behind)) n ≡ (n is name || contains (before ++ behind) n)
contains_without [] name behind n = refl
contains_without (x ∷ before) name behind n = ground (arith, contains_without before name behind n)

contains-snoc :
    (xs : List Text) (name n : Text) → contains (xs ++ (name ∷ [])) n ≡ (contains xs n || n is name)
contains-snoc [] name n = ground arith
contains-snoc (x ∷ xs) name n = ground (arith, contains-snoc xs name n)

-- A boot still waits, so the pool is open and nothing was dropped.
nothing_dropped :
    {workers : ℕ} {submitted : List Text} {s : Pool} (name : Text) (behind : List Text)
    → InOrder workers submitted s
    → s.queued ≡ name ∷ behind
    → s.dropped ≡ []
nothing_dropped {s = s} name behind inv waits = elim (Bool-cases s.is_open) [
  | inl e ↦ inv.undropped e
  | inr e ↦ let empty : name ∷ behind ≡ [] = sym waits ∙ inv.emptied e in cc
]

in_order-start :
    (started dropped behind submitted : List Text) (name : Text)
    → dropped ≡ []
    → started ++ (dropped ++ (name ∷ behind)) ≡ submitted
    → (started ++ (name ∷ [])) ++ (dropped ++ behind) ≡ submitted
in_order-start started dropped behind submitted name empty h =
    append_assoc started (name ∷ []) (dropped ++ behind)
    ∙ ap (λ d. started ++ (name ∷ (d ++ behind))) empty
    ∙ sym (ap (λ d. started ++ (d ++ (name ∷ behind))) empty)
    ∙ h

PoolStep-InOrder :
    (workers : ℕ) (submitted : List Text) (s t : Pool)
    → PoolStep workers s t
    → InOrder workers submitted s
    → InOrder workers submitted t
PoolStep-InOrder workers submitted s t (start name behind waits free e) inv =
    let kept = nothing_dropped name behind inv waits in
    subst (InOrder workers submitted) (sym e) (record {
      bounded = omega arith;
      in_order =
          in_order-start s.started s.dropped behind submitted name kept
            (ap (λ q. s.started ++ (s.dropped ++ q)) (sym waits) ∙ inv.in_order);
      accounted = λ n h. ground (arith, contains-snoc s.started name n, inv.accounted n);
      undropped = inv.undropped;
      emptied = λ h. ground (arith, inv.emptied h);
    })
PoolStep-InOrder workers submitted s t (finish before name behind runs e) inv =
    subst (InOrder workers submitted) (sym e) (record {
      bounded = omega (arith, length_without before name behind, ap length runs, inv.bounded);
      in_order = inv.in_order;
      accounted = λ n h. ground (
        arith,
        contains_without before name behind n,
        ap (λ r. contains r n) runs,
        inv.accounted n,
      );
      undropped = inv.undropped;
      emptied = inv.emptied;
    })
PoolStep-InOrder workers submitted s t (shutdown is_open e) inv =
    subst (InOrder workers submitted) (sym e) (record {
      bounded = inv.bounded;
      in_order =
          ap (λ q. s.started ++ q) (append-nil s.queued)
          ∙ ap (λ d. s.started ++ (d ++ s.queued)) (sym (inv.undropped is_open))
          ∙ inv.in_order;
      accounted = inv.accounted;
      undropped = λ h. ground arith;
      emptied = λ h. refl;
    })

new-InOrder : (workers : ℕ) (submitted : List Text) → InOrder workers submitted (new_pool submitted)
new-InOrder workers submitted = record {
  bounded = omega arith;
  in_order = refl;
  accounted = λ n h. ground arith;
  undropped = λ h. refl;
  emptied = λ h. ground arith;
}

-- The pool of a session's first collection, in whatever order its boots end and whenever it is shut down:
-- it never runs more boots than it has threads, the boots that it started are the first ones of those that
-- the tests take, each once and in the order of the first test that takes it, the rest still waits or was
-- dropped, and each boot that was started runs or has ended.
pub collection-InOrder :
    (names : List Text) (items : List Item) (session : Session) (workers : ℕ) {s : Pool}
    → session.submitted ≡ []
    → Reach
        (PoolStep workers)
        (new_pool (collection_modifyitems names false items session).submitted)
        s
    → InOrder workers (unique (asked_for names items)) s
collection-InOrder names items session workers {s} first run =
    let submitted = (collection_modifyitems names false items session).submitted in
    subst (λ boots. InOrder workers boots s)
      ((collection_modifyitems_lem names items session).0
        ∙ ap (λ before. before ++ unique (asked_for names items)) first)
      (Reach_keeps_all (InOrder workers submitted) (PoolStep-InOrder workers submitted) run
        (new-InOrder workers submitted))
