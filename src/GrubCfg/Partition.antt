-- ===== src/GrubCfg/Partition.antt =====
-- The boot partition, against the places of a boot record's fields in the image.
use mathlib.Core.Path.{subst}
use drtm_tests.Prelude.Hex.{AreBytes}
use drtm_tests.Prelude.{
  ℕ, zero, suc, ◌+◌, ◌-◌, ◌*◌, ◌<◌, ◌≤◌, ◌^◌, ◌≡◌, ◌≢◌, refl, sym, ap, ◌∙◌, ◌==◌, ltb, Bool, true,
  false, not, ◌&&◌, ◌||◌, Option, none, some, [], ◌∷◌, Bytes, nat_eq, option_eq, ◌is◌,
  if◌then◌else◌, get_elem?, length, take, drop, drop-add, length-drop, Result, ok, err, ◌>>=◌,
  or_raise, value_error, lookup_error, index_error, struct_error, arith,
}
use native.Mathlib.Decide.{dec_lt, dec_le}
use native.Mathlib.Nat.{zero-add, suc-add}
use drtm_tests.EventLog.{u32_of, u32_at}
use drtm_tests.GrubCfg.{esp, partition_loop, boot_partition_offset}

get_elem-take : (n k : ℕ) (xs : Bytes) → k < n → get_elem? (take n xs) k ≡ get_elem? xs k
get_elem-take zero k xs h = elim h [ ]
get_elem-take (suc n) k [] h = refl
get_elem-take (suc n) zero (x ∷ xs) h = refl
get_elem-take (suc n) (suc k) (x ∷ xs) h = get_elem-take n k xs (omega arith)

get_elem-drop : (n k : ℕ) (xs : Bytes) → get_elem? (drop n xs) k ≡ get_elem? xs (n + k)
get_elem-drop zero k xs = rw zero-add
get_elem-drop (suc n) k [] = refl
get_elem-drop (suc n) k (x ∷ xs) = rw suc-add (get_elem-drop n k xs)

get_elem-some : (k : ℕ) (xs : Bytes) → k < length xs → (x : ℕ) × (get_elem? xs k ≡ some x)
get_elem-some k [] h = elim h [ ]
get_elem-some zero (x ∷ xs) h = (x, refl)
get_elem-some (suc k) (x ∷ xs) h = get_elem-some k xs (omega arith)

drop-take : (k n : ℕ) (xs : Bytes) → drop k (take (k + n) xs) ≡ take n (drop k xs)
drop-take zero n xs = rw zero-add
drop-take (suc k) zero [] = rw suc-add
drop-take (suc k) (suc n) [] = rw suc-add
drop-take (suc k) n (x ∷ xs) = rw suc-add (drop-take k n xs)

u32_of-take : (m : ℕ) (xs : Bytes) → u32_of (take (suc (suc (suc (suc m)))) xs) ≡ u32_of xs
u32_of-take m [] = refl
u32_of-take m (a ∷ []) = refl
u32_of-take m (a ∷ b ∷ []) = refl
u32_of-take m (a ∷ b ∷ c ∷ []) = refl
u32_of-take m (a ∷ b ∷ c ∷ d ∷ xs) = refl

u32_of-some : (xs : Bytes) → 4 ≤ length xs → (v : ℕ) × (u32_of xs ≡ some v)
u32_of-some [] h = absurd (omega arith)
u32_of-some (a ∷ []) h = absurd (omega arith)
u32_of-some (a ∷ b ∷ []) h = absurd (omega arith)
u32_of-some (a ∷ b ∷ c ∷ []) h = absurd (omega arith)
u32_of-some (a ∷ b ∷ c ∷ d ∷ xs) h = (_, refl)

u32_of-lt : (xs : Bytes) {v : ℕ} → AreBytes xs → u32_of xs ≡ some v → v < 4294967296
u32_of-lt [] h e = cc
u32_of-lt (a ∷ []) h e = cc
u32_of-lt (a ∷ b ∷ []) h e = cc
u32_of-lt (a ∷ b ∷ c ∷ []) h e = cc
u32_of-lt (a ∷ b ∷ c ∷ d ∷ xs) h e = ground arith

drop-AreBytes : (n : ℕ) (xs : Bytes) → AreBytes xs → AreBytes (drop n xs)
drop-AreBytes zero xs h = h
drop-AreBytes (suc n) [] h = h
drop-AreBytes (suc n) (x ∷ xs) h = drop-AreBytes n xs h.1

-- The type of the partition with this number, and its first sector, in an image
abbrev pub kind_at : Bytes → ℕ → Option ℕ
kind_at image number = get_elem? image (450 + 16 * number)

abbrev pub sector_at : Bytes → ℕ → Option ℕ
sector_at image number = u32_of (drop (454 + 16 * number) image)

-- One entry of the table, as the code cuts it out
abbrev entry : Bytes → ℕ → Bytes
entry mbr i = take 16 (drop (446 + 16 * i) mbr)

entry-kind :
    (image : Bytes) (i : ℕ) → i < 4 → get_elem? (entry (take 512 image) i) 4 ≡ kind_at image i
entry-kind image i small =
    get_elem-take 16 4 (drop (446 + 16 * i) (take 512 image)) (omega arith)
    ∙ get_elem-drop (446 + 16 * i) 4 (take 512 image)
    ∙ get_elem-take 512 (446 + 16 * i + 4) image (omega arith)
    ∙ ap (get_elem? image) (omega arith)

drop-take-sub : (k n : ℕ) (xs : Bytes) → k ≤ n → drop k (take n xs) ≡ take (n - k) (drop k xs)
drop-take-sub k n xs h =
    ap (λ m. drop k (take m xs)) {x = n} {y = k + (n - k)} (omega arith) ∙ drop-take k (n - k) xs

u32_of-take-le : (m : ℕ) (xs : Bytes) → 4 ≤ m → u32_of (take m xs) ≡ u32_of xs
u32_of-take-le m xs h =
    ap (λ k. u32_of (take k xs)) {x = m} {y = suc (suc (suc (suc (m - 4))))} (omega arith)
    ∙ u32_of-take (m - 4) xs

entry-sector :
    (image : Bytes) (i : ℕ)
    → i < 4
    → u32_at (entry (take 512 image) i) 8 ≡ or_raise struct_error (sector_at image i)
unfolding u32_at
entry-sector image i small = ap (or_raise struct_error) (
    ap u32_of (drop-take-sub 8 16 (drop (446 + 16 * i) (take 512 image)) (omega arith))
    ∙ u32_of-take-le 8 (drop 8 (drop (446 + 16 * i) (take 512 image))) (omega arith)
    ∙ ap u32_of (sym (drop-add (446 + 16 * i) 8 (take 512 image)))
    ∙ ap u32_of (drop-take-sub (446 + 16 * i + 8) 512 image (omega arith))
    ∙ u32_of-take-le (512 - (446 + 16 * i + 8)) (drop (446 + 16 * i + 8) image) (omega arith)
    ∙ ap (λ k. u32_of (drop k image)) (omega arith))

-- The first partition of the boot partition's type, at the offset
pub record IsFirstEsp (image : Bytes) (offset : ℕ) : Type 0 where
  pub number : ℕ
  pub sector : ℕ
  pub below : number < 4
  pub kind : kind_at image number ≡ some esp
  pub earlier : (k : ℕ) → k < number → kind_at image k ≢ some esp
  pub sector_is : sector_at image number ≡ some sector
  pub offset_is : offset ≡ sector * 512
  pub bounded : offset < 2 ^ 41

abbrev pub HasNoEsp : Bytes → Type 0
HasNoEsp image =
    (kind_at image 0 ≢ some esp)
    × (kind_at image 1 ≢ some esp)
    × (kind_at image 2 ≢ some esp)
    × (kind_at image 3 ≢ some esp)

abbrev Loops : Bytes → Result ℕ → Type 0
Loops image (ok offset) = IsFirstEsp image offset
Loops image (err e) = (e ≡ lookup_error) × ((k : ℕ) → k < 4 → kind_at image k ≢ some esp)

module _ (image : Bytes) (bytes : AreBytes image) (long : 512 ≤ length image) where
  -- A round at an entry of the type: it reads the first sector.
  at_esp :
      (i : ℕ)
      → i < 4
      → kind_at image i ≡ some esp
      → ((k : ℕ) → k < i → kind_at image k ≢ some esp)
      → Loops image (u32_at (entry (take 512 image) i) 8 >>= λ start. ok (start * 512))
  at_esp i small kind earlier =
      let (sector, is_sector) =
        u32_of-some (drop (454 + 16 * i) image) (omega (arith, length-drop (454 + 16 * i) image)) in
      subst (λ r. Loops image (r >>= λ start. ok (start * 512)))
        (sym (entry-sector image i small ∙ ap (or_raise struct_error) is_sector))
        (record {
          number = i;
          sector = sector;
          below = small;
          kind = kind;
          earlier = earlier;
          sector_is = is_sector;
          offset_is = refl;
          bounded = omega (
            arith,
            u32_of-lt (drop (454 + 16 * i) image) (drop-AreBytes (454 + 16 * i) image bytes)
                is_sector,
          );
        })

  -- One round, with what the later ones come to
  round-Loops :
      (i kind : ℕ) (rest : Result ℕ)
      → i < 4
      → kind_at image i ≡ some kind
      → ((k : ℕ) → k < i → kind_at image k ≢ some esp)
      → (((k : ℕ) → k < suc i → kind_at image k ≢ some esp) → Loops image rest)
      → Loops image (
          if kind == esp
          then (u32_at (entry (take 512 image) i) 8 >>= λ start. ok (start * 512))
          else rest)
  round-Loops i kind rest small is_kind earlier later = cases (kind == esp) refl
    where
      none_yet : (kind == esp) ≡ false → (k : ℕ) → k < suc i → kind_at image k ≢ some esp
      none_yet e k h = elim (dec_lt k i) [
        | yes before ↦ earlier k before
        | no here ↦ λ is_esp.
            let same : kind_at image i ≡ some esp =
              ap (kind_at image) {x = i} {y = k} (omega arith) ∙ is_esp in
            ground arith
      ]

      cases :
          (b : Bool)
          → (kind == esp) ≡ b
          → Loops image (
              if b
              then (u32_at (entry (take 512 image) i) 8 >>= λ start. ok (start * 512))
              else rest)
      cases true e = at_esp i small (is_kind ∙ ground arith) earlier
      cases false e = later (none_yet e)

  loop-Loops :
      (n i : ℕ)
      → n + i ≡ 4
      → ((k : ℕ) → k < i → kind_at image k ≢ some esp)
      → Loops image (partition_loop n i (take 512 image))
  unfolding partition_loop
  loop-Loops zero i e earlier = (refl, λ k h. earlier k (omega arith))
  loop-Loops (suc n) i e earlier =
      let (kind, is_kind) = get_elem-some (450 + 16 * i) image (omega arith) in
      subst
        (λ o. Loops image (elim o [
          | none ↦ err index_error
          | some kind ↦
              if kind == esp
              then (u32_at (entry (take 512 image) i) 8 >>= λ start. ok (start * 512))
              else partition_loop n (i + 1) (take 512 image)
        ]))
        (sym (entry-kind image i (omega arith) ∙ is_kind))
        (round-Loops i kind (partition_loop n (i + 1) (take 512 image)) (omega arith) is_kind
          earlier
          (λ none_yet. loop-Loops n (i + 1) (omega arith) (λ k h. none_yet k (omega arith))))

-- A boot record with its signature
abbrev pub IsBootRecord : Bytes → Type 0
IsBootRecord image =
    (512 ≤ length image) × (get_elem? image 510 ≡ some 0x55) × (get_elem? image 511 ≡ some 0xaa)

-- What the answer says of the image.
abbrev pub Describes : Bytes → Result ℕ → Type 0
Describes image (ok offset) = IsBootRecord image × IsFirstEsp image offset
Describes image (err value_error) = ¬ IsBootRecord image
Describes image (err lookup_error) =
    IsBootRecord image × ((k : ℕ) → k < 4 → kind_at image k ≢ some esp)
Describes image (err e) = ⊥

Loops-Describes :
    (image : Bytes) (r : Result ℕ) → IsBootRecord image → Loops image r → Describes image r
Loops-Describes image (ok offset) signed h = (signed, h)
Loops-Describes image (err e) signed (same, h) =
    subst (λ e. Describes image (err e)) (sym same) (signed, h)

length-take : (n : ℕ) (xs : Bytes) → n ≤ length xs → length (take n xs) ≡ n
length-take zero xs h = refl
length-take (suc n) [] h = elim h [ ]
length-take (suc n) (x ∷ xs) h = ap suc (length-take n xs (omega arith))

length-take-lt : (n : ℕ) (xs : Bytes) → length xs < n → length (take n xs) < n
length-take-lt zero xs h = elim h [ ]
length-take-lt (suc n) [] h = omega arith
length-take-lt (suc n) (x ∷ xs) h = omega (arith, length-take-lt n xs (omega arith))

long_of : (image : Bytes) → ltb (length (take 512 image)) 512 ≡ false → 512 ≤ length image
long_of image h = elim (dec_le 512 (length image)) [
  | yes long ↦ long
  | no short ↦ absurd (ground (arith, length-take-lt 512 image (omega (arith, short))))
]

is_not : (o : Option ℕ) (v : ℕ) → (o is some v) ≡ false → ¬ (o ≡ some v)
is_not o v h e = ground arith

is_eq : (o : Option ℕ) (v : ℕ) → (o is some v) ≡ true → o ≡ some v
is_eq o v h = ground arith

-- The tests in front of the loop
gate :
    (image : Bytes) (short a b : Bool) (rest : Result ℕ)
    → ltb (length (take 512 image)) 512 ≡ short
    → (get_elem? image 510 is some 0x55) ≡ a
    → (get_elem? image 511 is some 0xaa) ≡ b
    → (512 ≤ length image → Loops image rest)
    → Describes image (if short || not (a && b) then err value_error else rest)
gate image true a b rest h p q loops =
    λ (long, s, t). let full = ap (λ n. ltb n 512) (length-take 512 image long) in absurd (cc)
gate image false false b rest h p q loops = λ (long, s, t). is_not (get_elem? image 510) 0x55 p s
gate image false true false rest h p q loops = λ (long, s, t). is_not (get_elem? image 511) 0xaa q t
gate image false true true rest h p q loops =
    Loops-Describes image rest
      (long_of image h, is_eq (get_elem? image 510) 0x55 p, is_eq (get_elem? image 511) 0xaa q)
      (loops (long_of image h))

-- The answer of `boot_partition_offset` on any image of bytes. An offset is 512 times the first sector of the
-- first of the four partitions whose type is an EFI system partition's, in a boot record of 512 bytes with
-- its signature, and is below 2 to the 41st. A `ValueError` says that the image has no such boot record, and
-- a `LookupError` that it has one and that none of its four partitions is of this type. No other
-- exception is raised.
pub boot_partition_offset-Describes :
    (image : Bytes) → AreBytes image → Describes image (boot_partition_offset image)
unfolding boot_partition_offset
boot_partition_offset-Describes image bytes =
    gate image (ltb (length (take 512 image)) 512) (get_elem? (take 512 image) 510 is some 0x55)
      (get_elem? (take 512 image) 511 is some 0xaa) (partition_loop 4 0 (take 512 image)) refl
      (ap (λ o. o is some 0x55) (sym (get_elem-take 512 510 image (omega arith))))
      (ap (λ o. o is some 0xaa) (sym (get_elem-take 512 511 image (omega arith))))
      (λ long. loop-Loops image bytes long 4 0 refl (λ k h. absurd (omega (arith, h))))
