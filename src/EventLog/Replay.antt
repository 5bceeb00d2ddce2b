-- ===== src/EventLog/Replay.antt =====
-- `replay` in drtmtest/eventlog.py. `hashlib` is the record `Hashlib`: its digests by algorithm.
use drtm_tests.Prelude.Dict.{Dict, lookup, has, insert, lookup-insert, lookup-has, has_of_lookup}
use drtm_tests.Prelude.Hex.{hex_bytes, from_hex, AreBytes, from_hex-hex_bytes}
use drtm_tests.Prelude.{
  ℕ, ◌≡◌, refl, ◌∙◌, sym, ap, none, some, Option, List, [], ◌∷◌, ◌++◌, map, Text, Bytes, text_eq,
  arith, replicate, Result, value_error, key_error, ok, ◌>>=◌, or_raise, true, false, Bool, not,
  ◌&&◌, ◌==◌, ◌is◌, if◌then◌else◌,
}
use drtm_tests.EventLog.{Event, ev_no_action, alg_name, padded, parse}
use drtm_tests.EventLog.Log.{parse-encode}
use drtm_tests.EventLog.Encode.{
  Header, HeaderFits, EventsFit, declare, encode_header, encode_events, Extend, name_digests,
  to_event,
}

pub record Hashlib : Type 0 where
  pub digest_size : Text → ℕ
  pub digest : Text → Bytes → Bytes

module _ (hashlib : Hashlib) where
  -- Whether the event extended the PCR in the bank.
  unfoldable pub extends : Event → ℕ → Text → Bool
  extends event pcr alg =
      event.pcr == pcr && (not (event.type == ev_no_action) && has alg event.digests)

  unfoldable pub extend_by : Event → Text → Bytes → Result Bytes
  extend_by event alg value = do
    text ← or_raise key_error (lookup alg event.digests)
    digest ← or_raise value_error (from_hex text)
    ok (hashlib.digest alg (value ++ digest))

  unfoldable pub replay_loop : List Event → ℕ → Text → Bytes → Result Bytes
  unfolding extends extend_by
  replay_loop [] pcr alg value = ok value
  replay_loop (event ∷ events) pcr alg value = do
    value' ← if extends event pcr alg then extend_by event alg value else ok value
    replay_loop events pcr alg value'

  unfoldable pub replay : List Event → ℕ → Text → Result Text
  unfolding replay_loop
  replay events pcr alg = do
    value ← replay_loop events pcr alg (replicate (hashlib.digest_size alg) 0)
    ok (hex_bytes value)

-- The digest that an event extended a bank by: the last one that the log names for it.
abbrev pub bank_digest : Text → List (ℕ × Bytes) → Option Bytes → Option Bytes
bank_digest alg [] old = old
bank_digest alg ((a, d) ∷ ds) old = bank_digest alg ds (if alg is alg_name a then some d else old)

-- The digests that a log's events extended a PCR of a bank by, in the order of the log.
abbrev pub measured_by : Bool → Option Bytes → List Bytes → List Bytes
measured_by true (some digest) rest = digest ∷ rest
measured_by true none rest = rest
measured_by false _ rest = rest

abbrev pub measured : ℕ → Text → List Extend → List Bytes
measured pcr alg [] = []
measured pcr alg (e ∷ es) =
    measured_by (e.pcr == pcr && not (e.type == ev_no_action)) (bank_digest alg e.digests none)
      (measured pcr alg es)

-- A PCR's value after extends by these digests.
abbrev pub extended : Hashlib → Text → Bytes → List Bytes → Bytes
extended hashlib alg value [] = value
extended hashlib alg value (d ∷ ds) = extended hashlib alg (hashlib.digest alg (value ++ d)) ds

abbrev pub DigestBytes : List (ℕ × Bytes) → Type 0
DigestBytes [] = Unit {0}
DigestBytes ((a, d) ∷ ds) = AreBytes d × DigestBytes ds

abbrev pub EventBytes : List Extend → Type 0
EventBytes [] = Unit {0}
EventBytes (e ∷ es) = DigestBytes e.digests × EventBytes es

abbrev hexed : Option Bytes → Option Text
hexed none = none
hexed (some d) = some (hex_bytes d)

lookup-name_digests :
    (alg : Text) (ds : List (ℕ × Bytes)) (named : Dict Text Text) (old : Option Bytes)
    → lookup alg named ≡ hexed old
    → lookup alg (name_digests ds named) ≡ hexed (bank_digest alg ds old)
lookup-name_digests alg [] named old h = h
lookup-name_digests alg ((a, d) ∷ ds) named old h =
    lookup-name_digests alg ds (insert (alg_name a) (hex_bytes d) named) _
      (ground (arith, lookup-insert alg (alg_name a) (hex_bytes d) named))

abbrev FitsOption : Option Bytes → Type 0
FitsOption none = Unit {0}
FitsOption (some d) = AreBytes d

bank_digest-AreBytes :
    (alg : Text) (ds : List (ℕ × Bytes)) (old : Option Bytes)
    → DigestBytes ds
    → FitsOption old
    → FitsOption (bank_digest alg ds old)
bank_digest-AreBytes alg [] old h o = o
bank_digest-AreBytes alg ((a, d) ∷ ds) old (b, h) o =
    bank_digest-AreBytes alg ds _ h (choose (alg is alg_name a))
  where
    choose : (t : Bool) → FitsOption (if t then some d else old)
    choose true = b
    choose false = o

module _ (hashlib : Hashlib) (pcr : ℕ) (alg : Text) where
  step-measured :
      (e : Extend) (value : Bytes) (found : Option Bytes)
      → lookup alg (to_event e).digests ≡ hexed found
      → FitsOption found
      → (if extends hashlib (to_event e) pcr alg
          then extend_by hashlib (to_event e) alg value
          else ok value)
        ≡ ok (
            extended hashlib alg value
              (measured_by (e.pcr == pcr && not (e.type == ev_no_action)) found []))
  unfolding extends extend_by to_event
  step-measured e value none h f = ground (arith, has_of_lookup alg (name_digests e.digests []) h)
  step-measured e value (some d) h f =
      ground (arith, lookup-has alg (name_digests e.digests []) h, from_hex-hex_bytes d f)

  extended-measured_by :
      (b : Bool) (found : Option Bytes) (value : Bytes) (rest : List Bytes)
      → extended hashlib alg value (measured_by b found rest)
        ≡ extended hashlib alg (extended hashlib alg value (measured_by b found [])) rest
  extended-measured_by true none value rest = refl
  extended-measured_by true (some d) value rest = refl
  extended-measured_by false found value rest = refl

  replay_loop-measured :
      (es : List Extend) (value : Bytes)
      → EventBytes es
      → replay_loop hashlib (map to_event es) pcr alg value
        ≡ ok (extended hashlib alg value (measured pcr alg es))
  unfolding replay_loop
  replay_loop-measured [] value h = refl
  replay_loop-measured (e ∷ es) value (b, h) =
      let found = bank_digest alg e.digests none in
      let known : lookup alg (to_event e).digests ≡ hexed found =
        unfold to_event in lookup-name_digests alg e.digests [] none (unfold lookup in refl) in
      rw (step-measured e value found known (bank_digest-AreBytes alg e.digests none b tt)) (
        replay_loop-measured es _ h
        ∙ ap ok (
            sym (
              extended-measured_by (e.pcr == pcr && not (e.type == ev_no_action)) found value
                (measured pcr alg es))))

  -- Parsing a dump of a well-formed log and replaying what was parsed gives, in hex, the value that
  -- the PCR has after exactly the extends that the log records for it in that bank, from all zeros
  -- and in the log's order: those whose type is not EV_NO_ACTION and that name a digest of the bank.
  -- The digests are bytes, and the hash is any function.
  pub replay-parse :
      (h : Header) (es : List Extend) (raw : Bytes) (zeros : ℕ)
      → HeaderFits h
      → EventsFit (declare h.banks []) es
      → EventBytes es
      → padded raw ≡ encode_header h (encode_events es (replicate zeros 0))
      → (parse raw >>= λ events. replay hashlib events pcr alg)
        ≡ ok (
            hex_bytes
              (extended hashlib alg (replicate (hashlib.digest_size alg) 0) (measured pcr alg es)))
  unfolding replay
  replay-parse h es raw zeros fit fits bytes e = rw (
    parse-encode h es raw zeros fit fits e,
    replay_loop-measured es (replicate (hashlib.digest_size alg) 0) bytes,
  )
