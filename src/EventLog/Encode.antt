-- ===== src/EventLog/Encode.antt =====
-- The event log's layout, written out as the SKL writes it: the inverse that `parse` is measured by.
use drtm_tests.Prelude.Dict.{Dict, lookup, insert}
use drtm_tests.Prelude.{
  ℕ, ◌/◌, ◌%◌, ◌^◌, ◌<◌, ◌≡◌, some, List, [], ◌∷◌, ◌++◌, Text, Bytes, nat_eq, text_eq, length,
}
use drtm_tests.Prelude.Hex.{hex_bytes}
use drtm_tests.EventLog.{Event, spec_id_signature, alg_name, ev_no_action}

abbrev pub le16 : ℕ → Bytes
le16 n = n % 256 ∷ (n / 256) % 256 ∷ []

abbrev pub le32 : ℕ → Bytes
le32 n = n % 256 ∷ (n / 256) % 256 ∷ (n / 65536) % 256 ∷ (n / 16777216) % 256 ∷ []

-- A `TCG_PCR_EVENT2`: its digests by algorithm id, and its data.
pub record Extend : Type 0 where
  pub pcr : ℕ
  pub type : ℕ
  pub digests : List (ℕ × Bytes)
  pub content : Bytes

-- The header: its PCR and digest are not read, `platform` are the eight bytes behind the signature,
-- and `vendor` is what follows the algorithms.
pub record Header : Type 0 where
  pub pcr : ℕ
  pub digest : Bytes
  pub platform : Bytes
  pub banks : List (ℕ × ℕ)
  pub vendor : Bytes

abbrev pub encode_digests : List (ℕ × Bytes) → Bytes → Bytes
encode_digests [] rest = rest
encode_digests ((alg, digest) ∷ ds) rest = le16 alg ++ (digest ++ encode_digests ds rest)

-- One event in front of what follows it.
unfoldable pub encode_event : Extend → Bytes → Bytes
encode_event e rest =
    le32 e.pcr
    ++ (le32 e.type
        ++ (le32 (length e.digests)
            ++ encode_digests e.digests (le32 (length e.content) ++ (e.content ++ rest))))

abbrev pub encode_events : List Extend → Bytes → Bytes
encode_events [] rest = rest
encode_events (e ∷ es) rest = encode_event e (encode_events es rest)

abbrev pub encode_banks : List (ℕ × ℕ) → Bytes → Bytes
encode_banks [] rest = rest
encode_banks ((alg, size) ∷ bs) rest = le16 alg ++ (le16 size ++ encode_banks bs rest)

unfoldable pub encode_spec : Header → Bytes
encode_spec h =
    spec_id_signature ++ (h.platform ++ (le32 (length h.banks) ++ encode_banks h.banks h.vendor))

unfoldable pub encode_header : Header → Bytes → Bytes
encode_header h rest =
    le32 h.pcr
    ++ (le32 ev_no_action
        ++ (h.digest ++ (le32 (length (encode_spec h)) ++ (encode_spec h ++ rest))))

-- The declared banks as the dict that the header's loop builds.
abbrev pub declare : List (ℕ × ℕ) → Dict ℕ ℕ → Dict ℕ ℕ
declare [] algs = algs
declare ((alg, size) ∷ bs) algs = declare bs (insert alg size algs)

abbrev pub name_digests : List (ℕ × Bytes) → Dict Text Text → Dict Text Text
name_digests [] named = named
name_digests ((alg, digest) ∷ ds) named =
    name_digests ds (insert (alg_name alg) (hex_bytes digest) named)

-- What `parse` is to make of an event.
unfoldable pub to_event : Extend → Event
to_event e = record {
  pcr = e.pcr;
  type = e.type;
  digests = name_digests e.digests [];
  content = e.content;
}

-- Every digest is of a declared algorithm, and has its size.
abbrev pub DigestsFit : Dict ℕ ℕ → List (ℕ × Bytes) → Type 0
DigestsFit algs [] = Unit {0}
DigestsFit algs ((alg, digest) ∷ ds) =
    (alg < 65536) × (lookup alg algs ≡ some (length digest)) × DigestsFit algs ds

pub record EventFits (algs : Dict ℕ ℕ) (e : Extend) : Type 0 where
  pub pcr_lt : e.pcr < 2 ^ 32
  pub type_lt : e.type < 2 ^ 32
  pub some_digest : 0 < length e.digests
  pub count_lt : length e.digests < 2 ^ 32
  pub content_lt : length e.content < 2 ^ 32
  pub digests_fit : DigestsFit algs e.digests

abbrev pub EventsFit : Dict ℕ ℕ → List Extend → Type 0
EventsFit algs [] = Unit {0}
EventsFit algs (e ∷ es) = EventFits algs e × EventsFit algs es

abbrev pub BanksFit : List (ℕ × ℕ) → Type 0
BanksFit [] = Unit {0}
BanksFit ((alg, size) ∷ bs) = (alg < 65536) × (size < 65536) × BanksFit bs

pub record HeaderFits (h : Header) : Type 0 where
  pub digest_length : length h.digest ≡ 20
  pub platform_length : length h.platform ≡ 8
  pub count_lt : length h.banks < 2 ^ 32
  pub spec_lt : length (encode_spec h) < 2 ^ 32
  pub banks_fit : BanksFit h.banks
