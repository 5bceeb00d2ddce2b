-- ===== src/EventLog/RoundTrip.antt =====
-- Reading a log back piece by piece: each lemma reads one piece at an offset, with what follows it
-- as `rest`.
use drtm_tests.Prelude.Dict.{Dict}
use drtm_tests.Prelude.{
  ℕ, zero, suc, ◌+◌, ◌-◌, ◌^◌, ◌<◌, ◌≤◌, ◌≡◌, refl, ◌∙◌, ap, none, some, List, [], ◌∷◌, ◌++◌, map,
  Text, Bytes, nat_eq, text_eq, arith, length, length-drop, drop, ◌==◌, drop-skip, take-append,
  replicate, length-replicate, leb, leb→le, le→leb, or_raise, struct_error, ok, append_assoc,
  append-nil, true, false,
}
use drtm_tests.EventLog.{
  Event, u16_of, u32_of, u16_at, u32_at, slice, digests_loop, read_event, read_body, events_loop,
  read_body,
}
use drtm_tests.EventLog.Encode.{
  le16, le32, Extend, encode_digests, encode_event, encode_events, name_digests, to_event,
  DigestsFit, EventFits, EventsFit,
}

u16_of-le16 : (n : ℕ) (rest : Bytes) → n < 65536 → u16_of (le16 n ++ rest) ≡ some n
u16_of-le16 n rest h = ap some (omega arith)

u32_of-le32 : (n : ℕ) (rest : Bytes) → n < 2 ^ 32 → u32_of (le32 n ++ rest) ≡ some n
u32_of-le32 n rest h = ap some (omega arith)

count_nonzero : (n : ℕ) → 0 < n → (n == 0) ≡ false
count_nonzero n h = ground arith

zeros_twelve :
    (m : ℕ) → 12 ≤ m → replicate m 0 ≡ le32 0 ++ (le32 0 ++ (le32 0 ++ replicate (m - 12) 0))
zeros_twelve m h =
    let e : m ≡ suc (suc (suc (suc (suc (suc (suc (suc (suc (suc (suc (suc (m - 12)))))))))))) =
      omega arith in
    ap (λ k. replicate k 0) e

module _ (raw : Bytes) where
  pub u16_at-le16 :
      (off n : ℕ) (rest : Bytes) → n < 65536 → drop off raw ≡ le16 n ++ rest → u16_at raw off ≡ ok n
  unfolding u16_at
  u16_at-le16 off n rest h e = rw e (ap (or_raise struct_error) (u16_of-le16 n rest h))

  pub u32_at-le32 :
      (off n : ℕ) (rest : Bytes)
      → n < 2 ^ 32
      → drop off raw ≡ le32 n ++ rest
      → u32_at raw off ≡ ok n
  unfolding u32_at
  u32_at-le32 off n rest h e = rw e (ap (or_raise struct_error) (u32_of-le32 n rest h))

  pub slice-append :
      (off : ℕ) (xs rest : Bytes) → drop off raw ≡ xs ++ rest → slice raw off (length xs) ≡ xs
  slice-append off xs rest e = rw e (take-append xs rest)

  after_digests : List (ℕ × Bytes) → ℕ → ℕ
  after_digests [] off = off
  after_digests ((alg, digest) ∷ ds) off = after_digests ds (off + 2 + length digest)

  -- Twelve bytes are left where an event begins.
  fits_in :
      (off : ℕ) (e : Extend) (rest : Bytes)
      → drop off raw ≡ encode_event e rest
      → leb (off + 12) (length raw) ≡ true
  unfolding encode_event
  fits_in off e rest h =
      le→leb (off + 12) (length raw) (omega (arith, length-drop off raw, ap length h))

  module _ (algs : Dict ℕ ℕ) where
    digests_loop-encode :
        (ds : List (ℕ × Bytes)) (off : ℕ) (rest : Bytes) (named : Dict Text Text)
        → DigestsFit algs ds
        → drop off raw ≡ encode_digests ds rest
        → (digests_loop (length ds) raw algs off named
            ≡ ok (name_digests ds named, after_digests ds off))
          × (drop (after_digests ds off) raw ≡ rest)
    unfolding digests_loop after_digests
    digests_loop-encode [] off rest named fit e = (refl, e)
    digests_loop-encode ((alg, digest) ∷ ds) off rest named (lt, known, fit) e =
        let there : drop (off + 2) raw ≡ digest ++ encode_digests ds rest =
          drop-skip off (off + 2) raw (le16 alg) _ (omega arith) e in
        let behind =
          drop-skip (off + 2) (off + 2 + length digest) raw digest (encode_digests ds rest) refl
            there in
        rw (u16_at-le16 off alg _ lt e, known, slice-append (off + 2) digest _ there)
          (digests_loop-encode ds (off + 2 + length digest) rest _ fit behind)

    read_event-encode :
        (e : Extend) (off : ℕ) (rest : Bytes)
        → EventFits algs e
        → drop off raw ≡ encode_event e rest
        → (behind : ℕ) × (read_event raw algs off ≡ ok (some (to_event e, behind)))
          × (drop behind raw ≡ rest)
    unfolding encode_event read_event read_body to_event
    read_event-encode e off rest fit h =
        let at_type = drop-skip off (off + 4) raw (le32 e.pcr) _ (omega arith) h in
        let at_count = drop-skip (off + 4) (off + 8) raw (le32 e.type) _ (omega arith) at_type in
        let at_digests = drop-skip (off + 8) (off + 12) raw (le32 _) _ (omega arith) at_count in
        let behind : ℕ = after_digests e.digests (off + 12) in
        let (digests, at_size) =
          digests_loop-encode e.digests (off + 12) _ [] fit.digests_fit at_digests in
        let at_content = drop-skip behind (behind + 4) raw (le32 _) _ (omega arith) at_size in
        let at_end = drop-skip (behind + 4) _ raw e.content rest refl at_content in
        (
          behind + 4 + length e.content,
          rw (
            u32_at-le32 off _ _ fit.pcr_lt h,
            u32_at-le32 (off + 4) _ _ fit.type_lt at_type,
            u32_at-le32 (off + 8) _ _ fit.count_lt at_count,
            count_nonzero _ fit.some_digest,
            digests,
            u32_at-le32 behind _ _ fit.content_lt at_size,
            slice-append (behind + 4) _ _ at_content,
          ),
          at_end,
        )

    read_event-zeros :
        (off m : ℕ)
        → drop off raw ≡ replicate m 0
        → leb (off + 12) (length raw) ≡ true
        → read_event raw algs off ≡ ok none
    unfolding read_event
    read_event-zeros off m h room =
        let room' : 12 ≤ m = omega (
          arith,
          leb→le _ _ room,
          length-drop off raw,
          ap length h,
          length-replicate {A = ℕ} m 0,
        ) in
        let at_pcr : drop off raw ≡ le32 0 ++ _ = h ∙ zeros_twelve m room' in
        let at_type = drop-skip off (off + 4) raw (le32 0) _ (omega arith) at_pcr in
        let at_count = drop-skip (off + 4) (off + 8) raw (le32 0) _ (omega arith) at_type in
        rw (
          u32_at-le32 off 0 _ (omega arith) at_pcr,
          u32_at-le32 (off + 4) 0 _ (omega arith) at_type,
          u32_at-le32 (off + 8) 0 _ (omega arith) at_count,
        )

    -- The loop reads the events one by one, and stops at the zeros or at the end of the buffer.
    pub events_loop-encode :
        (es : List Extend) (fuel off m : ℕ) (done : List Event)
        → EventsFit algs es
        → drop off raw ≡ encode_events es (replicate m 0)
        → length es < fuel
        → events_loop fuel raw algs off done ≡ ok (done ++ map to_event es)
    unfolding events_loop
    events_loop-encode es zero off m done fit h more = absurd (omega arith)
    events_loop-encode [] (suc fuel) off m done fit h more =
        ground (arith, append-nil done, read_event-zeros off m h, length-drop off raw, ap length h)
    events_loop-encode (e ∷ es) (suc fuel) off m done (f, fit) h more =
        let (behind, read, rest) = read_event-encode e off _ f h in
        ground (
          arith,
          read,
          fits_in off e _ h,
          events_loop-encode es fuel behind m (done ++ (to_event e ∷ [])) fit rest (omega arith),
          append_assoc done (to_event e ∷ []) (map to_event es),
        )
