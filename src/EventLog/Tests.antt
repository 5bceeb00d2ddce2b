-- ===== src/EventLog/Tests.antt =====
-- A small log with a SHA-1 and a SHA-256 bank, and the theorems at it.
use drtm_tests.Prelude.Dict.{lookup, insert}
use drtm_tests.Prelude.Hex.{hex_bytes}
use drtm_tests.Prelude.{
  ℕ, ◌+◌, ◌%◌, ◌≡◌, refl, List, [], ◌∷◌, map, Bytes, txt, text_eq, nat_eq, arith, take, replicate,
  length, value_error, ok, err, ◌>>=◌, hex, starts_with,
}
use drtm_tests.EventLog.{spec_id_signature, alg_name, u16_at, u32_at, padded, banks, parse}
use drtm_tests.EventLog.Encode.{
  Extend, Header, encode_event, encode_events, encode_spec, encode_header, declare, to_event,
  HeaderFits, EventsFit,
}
use drtm_tests.EventLog.Log.{parse-encode}
use drtm_tests.EventLog.Errors.{IsParseError, parse_errors}
use drtm_tests.EventLog.Replay.{Hashlib, replay, replay-parse}

abbrev header : Header
header = record {
  pcr = 0;
  digest = replicate 20 0;
  platform = replicate 8 1;
  banks = (4, 2) ∷ (11, 3) ∷ [];
  vendor = 0 ∷ [];
}

abbrev skl : Extend
skl = record {
  pcr = 17;
  type = 0x502;
  digests = (4, 1 ∷ 2 ∷ []) ∷ (11, 3 ∷ 4 ∷ 0 ∷ []) ∷ [];
  content = 9 ∷ 0 ∷ [];
}

abbrev kernel : Extend
kernel = record {
  pcr = 17;
  type = 0x502;
  digests = (11, 171 ∷ 0 ∷ 205 ∷ []) ∷ [];
  content = 0 ∷ [];
}

abbrev events : List Extend
events = skl ∷ kernel ∷ []

-- The dump lost seven of its zero bytes, the last event's data and the high bytes of its size among
-- them.
dump : Bytes
unfolding encode_header encode_event encode_spec spec_id_signature
dump = take 114 (encode_header header (encode_events events (replicate 3 0)))

length-dump : length dump ≡ 114
unfolding dump
length-dump = refl

parsed : parse dump ≡ ok (map to_event events)
unfolding parse dump lookup insert nat_eq text_eq starts_with alg_name hex_bytes to_event u16_at
    u32_at
parsed = refl

named : banks dump ≡ ok (txt "sha1" ∷ txt "sha256" ∷ [])
unfolding banks dump lookup insert nat_eq starts_with alg_name u16_at u32_at
named = refl

unknown_bank : alg_name 0x12 ≡ txt "0x12"
unfolding alg_name lookup nat_eq hex txt
unknown_bank = refl

no_header : parse (replicate 40 0) ≡ err value_error
unfolding parse u32_at
no_header = refl

header-HeaderFits : HeaderFits header
unfolding encode_spec spec_id_signature
header-HeaderFits = record {
  digest_length = refl;
  platform_length = refl;
  count_lt = omega arith;
  spec_lt = omega arith;
  banks_fit = omega arith;
}

events-EventsFit : EventsFit (declare header.banks []) events
unfolding lookup insert nat_eq
events-EventsFit = (
  record {
    pcr_lt = omega arith;
    type_lt = omega arith;
    some_digest = omega arith;
    count_lt = omega arith;
    content_lt = omega arith;
    digests_fit = (omega arith, refl, (omega arith, refl, tt));
  },
  (
    record {
      pcr_lt = omega arith;
      type_lt = omega arith;
      some_digest = omega arith;
      count_lt = omega arith;
      content_lt = omega arith;
      digests_fit = (omega arith, refl, tt);
    },
    tt,
  ),
)

dump-padded : padded dump ≡ encode_header header (encode_events events (replicate 12 0))
unfolding dump
dump-padded = refl

parse-encode_example : parse dump ≡ ok (map to_event events)
parse-encode_example =
    parse-encode header events dump 12 header-HeaderFits events-EventsFit dump-padded

parse_errors_example : IsParseError value_error
parse_errors_example = parse_errors (replicate 40 0) no_header

-- A toy hash: the sum of its input, and how long it is.
sums : Bytes → ℕ
sums [] = 0
sums (b ∷ bs) = b + sums bs

abbrev toy : Hashlib
toy = record { digest_size = λ alg. 2; digest = λ alg bs. (sums bs % 256) ∷ length bs ∷ [] }

replay-parse_example : (parse dump >>= λ es. replay toy es 17 (txt "sha256")) ≡ ok (txt "8405")
unfolding alg_name lookup nat_eq text_eq sums hex_bytes txt
replay-parse_example =
    replay-parse toy 17 (txt "sha256") header events dump 12 header-HeaderFits events-EventsFit
      (omega arith) dump-padded
