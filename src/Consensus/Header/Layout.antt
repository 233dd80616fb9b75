-- ===== src/Consensus/Header/Layout.antt =====
-- Where the fields of a header stand in its 80 bytes.
use bc3_online_miner.Common.{
  ℕ, zero, suc, ◌+◌, ◌<◌, List, [], ◌∷◌, ◌++◌, ◌≡◌, refl, ap, ap₂, ◌∙◌, sym, arith, length, take,
  drop, replicate, take-append, drop-append, length-append, to_le_bytes, le_value,
  length-to_le_bytes, le_value-to_le_bytes, u32_mod,
}
use mathlib.Core.List.{append_assoc, append-nil}
use bc3_online_miner.Consensus.Header.{BlockHeader, copy_from_slice, serialize, set_nonce}

-- A header whose fields have the widths of the source's types.
pub record IsHeader (h : BlockHeader) : Type 0 where
  pub version_fits : h.version < u32_mod
  pub prev_hash_fits : length h.prev_hash ≡ 32
  pub merkle_root_fits : length h.merkle_root ≡ 32
  pub time_fits : h.time < u32_mod
  pub bits_fits : h.bits < u32_mod
  pub nonce_fits : h.nonce < u32_mod

drop-nil : (k : ℕ) → drop {A = ℕ} k [] ≡ []
drop-nil zero = refl
drop-nil (suc k) = refl

drop-add : (m n : ℕ) (xs : List ℕ) → drop (m + n) xs ≡ drop n (drop m xs)
drop-add zero n xs = ap (λ k. drop k xs) (omega arith)
drop-add (suc m) n [] = drop-nil (suc m + n) ∙ sym (drop-nil n)
drop-add (suc m) n (x ∷ xs) =
    let e : suc m + n ≡ suc (m + n) = omega arith in ap (λ k. drop k (x ∷ xs)) e ∙ drop-add m n xs

-- Writing right behind what is written already.
copy_behind :
    (written bytes rest : List ℕ) (from k to : ℕ)
    → from ≡ length written
    → length bytes ≡ k
    → to ≡ from + k
    → copy_from_slice from to bytes (written ++ rest) ≡ (written ++ bytes) ++ drop k rest
unfolding copy_from_slice
copy_behind written bytes rest from k to e l t =
    ap₂ (λ a b. a ++ (bytes ++ b)) (take-append written rest from e)
      (ap (λ n. drop n (written ++ rest)) t
        ∙ drop-add from k (written ++ rest)
        ∙ ap (drop k) (drop-append written rest from e))
    ∙ sym (append_assoc written bytes (drop k rest))

-- The bytes before the nonce.
pub head : BlockHeader → List ℕ
head h =
    (((to_le_bytes 4 h.version ++ h.prev_hash) ++ h.merkle_root) ++ to_le_bytes 4 h.time)
    ++ to_le_bytes 4 h.bits

module _ (h : BlockHeader) (fits : IsHeader h) where
  length_2 : length (to_le_bytes 4 h.version ++ h.prev_hash) ≡ 36
  length_2 = omega (
    arith,
    length-append (to_le_bytes 4 h.version) h.prev_hash,
    length-to_le_bytes 4 h.version,
    fits.prev_hash_fits,
  )

  length_3 : length ((to_le_bytes 4 h.version ++ h.prev_hash) ++ h.merkle_root) ≡ 68
  length_3 = omega (
    arith,
    length_2,
    length-append (to_le_bytes 4 h.version ++ h.prev_hash) h.merkle_root,
    fits.merkle_root_fits,
  )

  length_4 :
      length (((to_le_bytes 4 h.version ++ h.prev_hash) ++ h.merkle_root) ++ to_le_bytes 4 h.time)
      ≡ 72
  length_4 = omega (
    arith,
    length_3,
    length-append ((to_le_bytes 4 h.version ++ h.prev_hash) ++ h.merkle_root)
        (to_le_bytes 4 h.time),
    length-to_le_bytes 4 h.time,
  )

  pub length-head : length (head h) ≡ 76
  unfolding head
  length-head = omega (
    arith,
    length_4,
    length-append
        (((to_le_bytes 4 h.version ++ h.prev_hash) ++ h.merkle_root) ++ to_le_bytes 4 h.time)
        (to_le_bytes 4 h.bits),
    length-to_le_bytes 4 h.bits,
  )

  -- The writes of `serialize` lay the fields out one behind the other.
  pub serialize_lem : serialize h ≡ head h ++ to_le_bytes 4 h.nonce
  unfolding serialize head
  serialize_lem =
      let le : ℕ → List ℕ = to_le_bytes 4 in
      let le_length = length-to_le_bytes 4 in
      rw
        (
          copy_behind [] (le h.version) (replicate 80 0) 0 4 4 refl (le_length _) refl,
          copy_behind (le h.version) h.prev_hash (replicate 76 0) 4 32 36 (sym (le_length _))
              fits.prev_hash_fits refl,
          copy_behind (le h.version ++ h.prev_hash) h.merkle_root (replicate 44 0) 36 32 68
              (sym length_2) fits.merkle_root_fits refl,
          copy_behind ((le h.version ++ h.prev_hash) ++ h.merkle_root) (le h.time) (replicate 12 0)
              68 4 72 (sym length_3) (le_length _) refl,
          copy_behind (((le h.version ++ h.prev_hash) ++ h.merkle_root) ++ le h.time) (le h.bits)
              (replicate 8 0) 72 4 76 (sym length_4) (le_length _) refl,
        )
        (copy_behind (head h) (le h.nonce) (replicate 4 0) 76 4 80 (sym length-head) (le_length _)
            refl
          ∙ append-nil (head h ++ le h.nonce))

  pub set_nonce-serialize : (n : ℕ) → set_nonce n (serialize h) ≡ head h ++ to_le_bytes 4 n
  unfolding set_nonce
  set_nonce-serialize n =
      let none_left : drop 4 (to_le_bytes 4 h.nonce) ≡ [] =
        ap (drop 4) (sym (append-nil (to_le_bytes 4 h.nonce)))
        ∙ drop-append (to_le_bytes 4 h.nonce) [] 4 (sym (length-to_le_bytes 4 h.nonce)) in
      ap (copy_from_slice 76 80 (to_le_bytes 4 n)) serialize_lem
      ∙ copy_behind (head h) (to_le_bytes 4 n) (to_le_bytes 4 h.nonce) 76 4 80 (sym length-head)
          (length-to_le_bytes 4 n) refl
      ∙ ap (λ r. (head h ++ to_le_bytes 4 n) ++ r) none_left
      ∙ append-nil (head h ++ to_le_bytes 4 n)

with_nonce-IsHeader :
    (h : BlockHeader) → IsHeader h → (n : ℕ) → n < u32_mod → IsHeader (record h { nonce = n })
with_nonce-IsHeader h fits n small = record {
  version_fits = fits.version_fits;
  prev_hash_fits = fits.prev_hash_fits;
  merkle_root_fits = fits.merkle_root_fits;
  time_fits = fits.time_fits;
  bits_fits = fits.bits_fits;
  nonce_fits = small;
}

-- For a header of the right widths, the nonce bytes written over its serialization give the
-- serialization of the header with that nonce.
pub nonce_overwrite :
    (h : BlockHeader)
    → IsHeader h
    → (n : ℕ) → n < u32_mod
    → set_nonce n (serialize h) ≡ serialize (record h { nonce = n })
unfolding head
nonce_overwrite h fits n small =
    set_nonce-serialize h fits n
    ∙ sym (serialize_lem (record h { nonce = n }) (with_nonce-IsHeader h fits n small))

-- The field of `len` bytes at `from`.
abbrev slice : ℕ → ℕ → List ℕ → List ℕ
slice from len bytes = take len (drop from bytes)

-- A header read back from its 80 bytes, by the layout of a Bitcoin header.
pub parse : List ℕ → BlockHeader
parse bytes = record {
  version = le_value (slice 0 4 bytes);
  prev_hash = slice 4 32 bytes;
  merkle_root = slice 36 32 bytes;
  time = le_value (slice 68 4 bytes);
  bits = le_value (slice 72 4 bytes);
  nonce = le_value (slice 76 4 bytes);
}

module _ (h : BlockHeader) (fits : IsHeader h) where
  -- What is left of the serialization from the nonce up, field by field.
  from_nonce : List ℕ
  from_nonce = to_le_bytes 4 h.nonce ++ []

  from_bits : List ℕ
  from_bits = to_le_bytes 4 h.bits ++ from_nonce

  from_time : List ℕ
  from_time = to_le_bytes 4 h.time ++ from_bits

  from_root : List ℕ
  from_root = h.merkle_root ++ from_time

  from_prev : List ℕ
  from_prev = h.prev_hash ++ from_root

  flat : serialize h ≡ to_le_bytes 4 h.version ++ from_prev
  unfolding head from_nonce from_bits from_time from_root from_prev
  flat = serialize_lem h fits ∙ simp (append_assoc, append-nil)

  word : (x : ℕ) (rest : List ℕ) → x < u32_mod → le_value (take 4 (to_le_bytes 4 x ++ rest)) ≡ x
  word x rest small =
      ap le_value (take-append (to_le_bytes 4 x) rest 4 (sym (length-to_le_bytes 4 x)))
      ∙ le_value-to_le_bytes 4 x small

  drop_field :
      (at len : ℕ) (field rest bytes : List ℕ)
      → length field ≡ len
      → drop at bytes ≡ field ++ rest
      → drop (at + len) bytes ≡ rest
  drop_field at len field rest bytes l e =
      drop-add at len bytes ∙ ap (drop len) e ∙ drop-append field rest len (sym l)

  at_prev : drop 4 (serialize h) ≡ from_prev
  at_prev =
      drop_field 0 4 (to_le_bytes 4 h.version) from_prev (serialize h) (length-to_le_bytes 4 _) flat

  at_root : drop 36 (serialize h) ≡ from_root
  unfolding from_prev
  at_root = drop_field 4 32 h.prev_hash from_root (serialize h) fits.prev_hash_fits at_prev

  at_time : drop 68 (serialize h) ≡ from_time
  unfolding from_root
  at_time = drop_field 36 32 h.merkle_root from_time (serialize h) fits.merkle_root_fits at_root

  at_bits : drop 72 (serialize h) ≡ from_bits
  unfolding from_time
  at_bits =
      drop_field 68 4 (to_le_bytes 4 h.time) from_bits (serialize h) (length-to_le_bytes 4 _)
        at_time

  at_nonce : drop 76 (serialize h) ≡ from_nonce
  unfolding from_bits
  at_nonce =
      drop_field 72 4 (to_le_bytes 4 h.bits) from_nonce (serialize h) (length-to_le_bytes 4 _)
        at_bits

  -- For a header of the right widths, every field is read back from the bytes of `serialize`.
  pub parse-serialize : parse (serialize h) ≡ h
  unfolding parse from_nonce from_bits from_time from_root from_prev
  parse-serialize = λ i. record {
    version = (ap (λ s. le_value (take 4 s)) flat ∙ word h.version from_prev fits.version_fits) i;
    prev_hash =
        (ap (take 32) at_prev ∙ take-append h.prev_hash from_root 32 (sym fits.prev_hash_fits)) i;
    merkle_root =
        (ap (take 32) at_root ∙ take-append h.merkle_root from_time 32 (sym fits.merkle_root_fits))
          i;
    time = (ap (λ s. le_value (take 4 s)) at_time ∙ word h.time from_bits fits.time_fits) i;
    bits = (ap (λ s. le_value (take 4 s)) at_bits ∙ word h.bits from_nonce fits.bits_fits) i;
    nonce = (ap (λ s. le_value (take 4 s)) at_nonce ∙ word h.nonce [] fits.nonce_fits) i;
  }

-- For a header of the right widths, its serialization has 80 bytes.
pub length-serialize : (h : BlockHeader) → IsHeader h → length (serialize h) ≡ 80
length-serialize h fits = omega (
  arith,
  ap length (serialize_lem h fits),
  length-append (head h) (to_le_bytes 4 h.nonce),
  length-head h fits,
  length-to_le_bytes 4 h.nonce,
)
