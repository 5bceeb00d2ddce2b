-- ===== src/EventLog.antt =====
-- drtmtest/eventlog.py: the DRTM event log. `struct.unpack_from` reads little-endian numbers at an
-- offset, and raises `struct.error` where the buffer ends too early.
pub mod Encode
pub mod RoundTrip
pub mod Log
pub mod Errors
pub mod Replay
mod Tests
use drtm_tests.Prelude.Dict.{Dict, lookup, insert, keys}
use drtm_tests.Prelude.Hex.{hex_bytes}
use drtm_tests.Prelude.{
  ℕ, zero, suc, ◌+◌, ◌*◌, Bool, true, false, not, Option, none, some, List, [], ◌∷◌, ◌++◌, map,
  Text, Bytes, txt, text_eq, nat_eq, starts_with, hex, digit, ltb, leb, ◌==◌, if◌then◌else◌, length,
  take, drop, replicate, Error, value_error, key_error, struct_error, exhausted, Result, ok, err,
  ◌>>=◌, or_raise, ◌/◌, ◌%◌,
}

abbrev pub ev_no_action : ℕ
ev_no_action = 0x3

-- b"Spec ID Event03\0"
unfoldable pub spec_id_signature : Bytes
unfolding txt
spec_id_signature = txt "Spec ID Event03" ++ (0 ∷ [])

unfoldable pub alg_names : Dict ℕ Text
alg_names =
    (0x0004, txt "sha1")
    ∷ (0x000b, txt "sha256")
    ∷ (0x000c, txt "sha384")
    ∷ (0x000d, txt "sha512")
    ∷ []

pub record Event : Type 0 where
  pub pcr : ℕ
  pub type : ℕ
  pub digests : Dict Text Text
  pub content : Bytes

-- "<H" and "<I"
abbrev pub u16_of : Bytes → Option ℕ
u16_of (a ∷ b ∷ _) = some (a + 256 * b)
u16_of _ = none

abbrev pub u32_of : Bytes → Option ℕ
u32_of (a ∷ b ∷ c ∷ d ∷ _) = some (a + 256 * b + 65536 * c + 16777216 * d)
u32_of _ = none

unfoldable pub u16_at : Bytes → ℕ → Result ℕ
u16_at raw offset = or_raise struct_error (u16_of (drop offset raw))

unfoldable pub u32_at : Bytes → ℕ → Result ℕ
u32_at raw offset = or_raise struct_error (u32_of (drop offset raw))

-- `raw[offset : offset + size]`
abbrev pub slice : Bytes → ℕ → ℕ → Bytes
slice raw offset size = take size (drop offset raw)

-- `_ALG_NAMES.get(alg, hex(alg))`
unfoldable pub alg_name : ℕ → Text
unfolding alg_names
alg_name alg = elim (lookup alg alg_names) [ none ↦ hex alg | some name ↦ name ]

-- The loop over the header's algorithms, `n` of them left from index `i` on.
unfoldable pub algorithms_loop : ℕ → ℕ → Bytes → Dict ℕ ℕ → Result (Dict ℕ ℕ)
algorithms_loop zero i spec algorithms = ok algorithms
algorithms_loop (suc n) i spec algorithms = do
  alg ← u16_at spec (28 + 4 * i)
  digest_size ← u16_at spec (28 + 4 * i + 2)
  algorithms_loop n (i + 1) spec (insert alg digest_size algorithms)

unfoldable pub declared : Bytes → Result (Dict ℕ ℕ)
unfolding algorithms_loop
declared spec =
    if not (starts_with spec spec_id_signature)
    then err value_error
    else do count ← u32_at spec 24; algorithms_loop count 0 spec []

unfoldable pub algorithms : Bytes → Result (Dict ℕ ℕ)
algorithms raw = if ltb (length raw) 32 then err value_error else do
  type ← u32_at raw 4
  if not (type == ev_no_action)
      then err value_error
      else do size ← u32_at raw 28; declared (slice raw 32 size)

-- `raw + bytes(16)`
abbrev pub padded : Bytes → Bytes
padded raw = raw ++ replicate 16 0

unfoldable pub banks : Bytes → Result (List Text)
unfolding algorithms declared alg_name
banks raw = do algs ← algorithms (padded raw); ok (map alg_name (keys algs))

-- The inner loop of `parse`, `n` digests left. It returns the offset behind them.
unfoldable pub digests_loop :
    ℕ → Bytes → Dict ℕ ℕ → ℕ → Dict Text Text → Result (Dict Text Text × ℕ)
digests_loop zero raw algs offset digests = ok (digests, offset)
digests_loop (suc n) raw algs offset digests = do
  alg ← u16_at raw offset
  size ← or_raise key_error (lookup alg algs)
  digests_loop n raw algs (offset + 2 + size)
      (insert (alg_name alg) (hex_bytes (slice raw (offset + 2) size)) digests)

-- The round's rest behind a count of digests that is not zero: the event, and the offset behind it.
unfoldable pub read_body : Bytes → Dict ℕ ℕ → ℕ → ℕ → ℕ → ℕ → Result (Option (Event × ℕ))
unfolding digests_loop
read_body raw algs offset pcr type count = do
  (digests, behind) ← digests_loop count raw algs (offset + 12) []
  size ← u32_at raw behind
  let event : Event = record {
    pcr = pcr;
    type = type;
    digests = digests;
    content = slice raw (behind + 4) size;
  }
  ok (some (event, behind + 4 + size))

-- One round of the outer loop: `none` at the zero count that ends the log.
unfoldable pub read_event : Bytes → Dict ℕ ℕ → ℕ → Result (Option (Event × ℕ))
read_event raw algs offset = do
  pcr ← u32_at raw offset
  type ← u32_at raw (offset + 4)
  count ← u32_at raw (offset + 8)
  if count == 0 then ok none else read_body raw algs offset pcr type count

-- The outer loop, which appends to `events`.
unfoldable pub events_loop : ℕ → Bytes → Dict ℕ ℕ → ℕ → List Event → Result (List Event)
events_loop zero raw algs offset events = err exhausted
events_loop (suc fuel) raw algs offset events = elim (leb (offset + 12) (length raw)) [
  | false ↦ ok events
  | true ↦ read_event raw algs offset >>= (elim [
    | none ↦ ok events
    | some (event, behind) ↦ events_loop fuel raw algs behind (events ++ (event ∷ []))
  ])
]

unfoldable pub parse : Bytes → Result (List Event)
unfolding algorithms declared read_event read_body events_loop
parse raw = do
  algs ← algorithms (padded raw)
  size ← u32_at (padded raw) 28
  events_loop (suc (length (padded raw))) (padded raw) algs (32 + size) []
