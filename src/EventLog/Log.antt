-- ===== src/EventLog/Log.antt =====
-- The whole log: the header's banks, and `parse` of an encoded log.
use drtm_tests.Prelude.Dict.{Dict, keys}
use drtm_tests.Prelude.Texts.{starts_with-append}
use drtm_tests.Prelude.{
  ℕ, suc, ◌+◌, ◌*◌, ◌≤◌, ◌≡◌, refl, ap, List, [], ◌∷◌, ◌++◌, map, Bytes, nat_eq, text_eq, arith,
  length, length-append, length-drop, drop, drop-skip, replicate, ok, false, ltb,
}
use drtm_tests.EventLog.{
  u32_at, spec_id_signature, ev_no_action, algorithms_loop, declared, algorithms, padded, banks,
  parse, alg_name,
}
use drtm_tests.EventLog.RoundTrip.{u16_at-le16, u32_at-le32, slice-append, events_loop-encode}
use drtm_tests.EventLog.Encode.{
  le16, le32, Extend, Header, encode_event, encode_digests, encode_events, encode_banks,
  encode_spec, encode_header, declare, to_event, EventsFit, BanksFit, HeaderFits,
}

signature_length : length spec_id_signature ≡ 16
unfolding spec_id_signature
signature_length = refl

algorithms_loop-encode :
    (spec : Bytes) (bs : List (ℕ × ℕ)) (i : ℕ) (rest : Bytes) (algs : Dict ℕ ℕ)
    → BanksFit bs
    → drop (28 + 4 * i) spec ≡ encode_banks bs rest
    → algorithms_loop (length bs) i spec algs ≡ ok (declare bs algs)
unfolding algorithms_loop
algorithms_loop-encode spec [] i rest algs fit h = refl
algorithms_loop-encode spec ((alg, size) ∷ bs) i rest algs (a, s, fit) h =
    let at_size = drop-skip (28 + 4 * i) (28 + 4 * i + 2) spec (le16 alg) _ (omega arith) h in
    let at_next =
      drop-skip (28 + 4 * i + 2) (28 + 4 * (i + 1)) spec (le16 size) _ (omega arith) at_size in
    rw (u16_at-le16 spec _ alg _ a h, u16_at-le16 spec _ size _ s at_size)
      (algorithms_loop-encode spec bs (i + 1) rest _ fit at_next)

declared-encode_spec :
    (h : Header) → HeaderFits h → declared (encode_spec h) ≡ ok (declare h.banks [])
unfolding declared encode_spec
declared-encode_spec h fit =
    let spec = encode_spec h in
    let at_platform =
      drop-skip 0 16 spec spec_id_signature _ (omega (arith, signature_length)) refl in
    let at_count =
      drop-skip 16 24 spec h.platform _ (omega (arith, fit.platform_length)) at_platform in
    let at_banks = drop-skip 24 28 spec (le32 _) _ (omega arith) at_count in
    rw (starts_with-append spec_id_signature, u32_at-le32 spec 24 _ _ fit.count_lt at_count)
      (algorithms_loop-encode spec h.banks 0 h.vendor [] fit.banks_fit at_banks)

length-encode_digests :
    (ds : List (ℕ × Bytes)) (rest : Bytes) → length rest ≤ length (encode_digests ds rest)
length-encode_digests [] rest = omega arith
length-encode_digests ((alg, digest) ∷ ds) rest =
    omega (arith, length-encode_digests ds rest, length-append digest (encode_digests ds rest))

module _ (raw : Bytes) (h : Header) (rest : Bytes) (fit : HeaderFits h)
    (e : raw ≡ encode_header h rest) where
  at_size : drop 28 raw ≡ le32 (length (encode_spec h)) ++ (encode_spec h ++ rest)
  unfolding encode_header
  at_size =
      let at_type = drop-skip 0 4 raw (le32 h.pcr) _ (omega arith) e in
      let at_digest = drop-skip 4 8 raw (le32 ev_no_action) _ (omega arith) at_type in
      drop-skip 8 28 raw h.digest _ (omega (arith, fit.digest_length)) at_digest

  header_size : u32_at raw 28 ≡ ok (length (encode_spec h))
  header_size = u32_at-le32 raw 28 _ _ fit.spec_lt at_size

  at_spec : drop 32 raw ≡ encode_spec h ++ rest
  at_spec = drop-skip 28 32 raw (le32 _) _ (omega arith) at_size

  at_events : drop (32 + length (encode_spec h)) raw ≡ rest
  at_events = drop-skip 32 _ raw (encode_spec h) rest refl at_spec

  header_room : ltb (length raw) 32 ≡ false
  header_room = ground (arith, length-drop 28 raw, ap length at_size)

  algorithms-encode_header : algorithms raw ≡ ok (declare h.banks [])
  unfolding algorithms encode_header
  algorithms-encode_header =
      let at_type = drop-skip 0 4 raw (le32 h.pcr) _ (omega arith) e in
      rw
        (
          header_room,
          u32_at-le32 raw 4 ev_no_action _ (omega arith) at_type,
          header_size,
          slice-append raw 32 _ _ at_spec,
        )
        (declared-encode_spec h fit)

length-encode_events :
    (es : List Extend) (rest : Bytes) → length es ≤ length (encode_events es rest)
unfolding encode_event
length-encode_events [] rest = omega arith
length-encode_events (e ∷ es) rest = omega (
  arith,
  length-encode_events es rest,
  length-encode_digests e.digests (le32 (length e.content) ++ (e.content ++ encode_events es rest)),
  length-append e.content (encode_events es rest),
)

-- A dump that, with the sixteen zero bytes that `parse` puts behind it, is a log as the SKL lays it
-- out with any number of zero bytes behind its events, parses to exactly those events, in order:
-- also a dump that lost up to sixteen of its trailing zero bytes.
pub parse-encode :
    (h : Header) (es : List Extend) (raw : Bytes) (zeros : ℕ)
    → HeaderFits h
    → EventsFit (declare h.banks []) es
    → padded raw ≡ encode_header h (encode_events es (replicate zeros 0))
    → parse raw ≡ ok (map to_event es)
unfolding parse
parse-encode h es raw zeros fit fits e =
    let rest = encode_events es (replicate zeros 0) in
    let after = at_events (padded raw) h rest fit e in
    rw (algorithms-encode_header (padded raw) h rest fit e, header_size (padded raw) h rest fit e)
      (events_loop-encode (padded raw) (declare h.banks []) es (suc (length (padded raw))) _ zeros
        [] fits after
        (omega (
          arith,
          length-encode_events es (replicate zeros 0),
          length-drop _ (padded raw),
          ap length after,
        )))

-- `banks` names the algorithms of the header of such a log, each once, in the order in which the
-- header first declares them.
pub banks-encode_header :
    (h : Header) (raw rest : Bytes)
    → HeaderFits h
    → padded raw ≡ encode_header h rest
    → banks raw ≡ ok (map alg_name (keys (declare h.banks [])))
unfolding banks
banks-encode_header h raw rest fit e = rw (algorithms-encode_header (padded raw) h rest fit e)
