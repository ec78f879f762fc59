-- ===== src/Sfs/Image/Lsb0.antt =====
-- Bit vectors as the crate `bitvec` documents them for the order `Lsb0` that rcore-fs-sfs/src/lib.rs
-- uses: the lowest bit of a byte comes first.
use rcore_fs.Base.{
  ℕ, zero, suc, ◌+◌, ◌*◌, ◌/◌, ◌%◌, ◌^◌, ◌<◌, ◌≡◌, refl, ap, ap₂, ◌∙◌, Bool, true, false, List, [],
  ◌∷◌, ◌++◌, arith, ◌==◌, if◌then◌else◌, length,
}
use rcore_fs.Sfs.Image.{BitImage, IsBitImage}

-- The bits of a byte, the lowest first (`Lsb0`).
abbrev pub bit : ℕ → ℕ → Bool
bit b i = b / 2 ^ i % 2 == 1

abbrev pub byte_bits : ℕ → List Bool
byte_bits b = bit b 0 ∷ bit b 1 ∷ bit b 2 ∷ bit b 3 ∷ bit b 4 ∷ bit b 5 ∷ bit b 6 ∷ bit b 7 ∷ []

abbrev pub bit_value : Bool → ℕ
bit_value b = if b then 1 else 0

-- `BitVec::from` of a byte slice.
pub bits_of : List ℕ → List Bool
bits_of [] = []
bits_of (b ∷ bs) = byte_bits b ++ bits_of bs

-- `as_ref` of the bit vector, whose length is a multiple of 8.
pub bit_bytes : List Bool → List ℕ
bit_bytes (a ∷ b ∷ c ∷ d ∷ e ∷ f ∷ g ∷ h ∷ bs) =
    (bit_value a
      + 2 * bit_value b
      + 4 * bit_value c
      + 8 * bit_value d
      + 16 * bit_value e
      + 32 * bit_value f
      + 64 * bit_value g
      + 128 * bit_value h)
    ∷ bit_bytes bs
bit_bytes _ = []

bit_value-bound : (b : Bool) → bit_value b < 2
bit_value-bound true = omega arith
bit_value-bound false = omega arith

bit_value_lem : (b : Bool) → (bit_value b == 1) ≡ b
bit_value_lem true = refl
bit_value_lem false = refl

bit-of : (n i : ℕ) (b : Bool) → n / 2 ^ i % 2 ≡ bit_value b → bit n i ≡ b
bit-of n i b e = ap (λ k. k == 1) e ∙ bit_value_lem b

byte_bits_lem :
    (a b c d e f g h : Bool)
    → byte_bits (
        bit_value a
        + 2 * bit_value b
        + 4 * bit_value c
        + 8 * bit_value d
        + 16 * bit_value e
        + 32 * bit_value f
        + 64 * bit_value g
        + 128 * bit_value h)
      ≡ a ∷ b ∷ c ∷ d ∷ e ∷ f ∷ g ∷ h ∷ []
byte_bits_lem a b c d e f g h =
    let a2 = bit_value-bound a in
    let b2 = bit_value-bound b in
    let c2 = bit_value-bound c in
    let d2 = bit_value-bound d in
    let e2 = bit_value-bound e in
    let f2 = bit_value-bound f in
    let g2 = bit_value-bound g in
    let h2 = bit_value-bound h in
    let n =
      bit_value a
      + 2 * bit_value b
      + 4 * bit_value c
      + 8 * bit_value d
      + 16 * bit_value e
      + 32 * bit_value f
      + 64 * bit_value g
      + 128 * bit_value h in
    ap₂ ◌∷◌ (bit-of n 0 a (omega (arith, a2))) (
      ap₂ ◌∷◌ (bit-of n 1 b (omega (arith, a2, b2))) (
        ap₂ ◌∷◌ (bit-of n 2 c (omega (arith, a2, b2, c2))) (
          ap₂ ◌∷◌ (bit-of n 3 d (omega (arith, a2, b2, c2, d2))) (
            ap₂ ◌∷◌ (bit-of n 4 e (omega (arith, a2, b2, c2, d2, e2))) (
              ap₂ ◌∷◌ (bit-of n 5 f (omega (arith, a2, b2, c2, d2, e2, f2))) (
                ap₂ ◌∷◌ (bit-of n 6 g (omega (arith, a2, b2, c2, d2, e2, f2, g2))) (
                  ap (λ t. t ∷ [])
                    (bit-of n 7 h (omega (arith, a2, b2, c2, d2, e2, f2, g2, h2))))))))))

-- The bits of the bytes of a free map are that map, if its length is a multiple of 8.
pub bits_of-bit_bytes : (k : ℕ) (bs : List Bool) → length bs ≡ 8 * k → bits_of (bit_bytes bs) ≡ bs
unfolding bits_of bit_bytes
bits_of-bit_bytes zero [] h = refl
bits_of-bit_bytes zero (b ∷ bs) h = absurd (omega arith)
bits_of-bit_bytes (suc k) (a ∷ b ∷ c ∷ d ∷ e ∷ f ∷ g ∷ h ∷ bs) p =
    ap₂ ◌++◌ (byte_bits_lem a b c d e f g h) (bits_of-bit_bytes k bs (omega arith))
bits_of-bit_bytes (suc k) (a ∷ b ∷ c ∷ d ∷ e ∷ f ∷ g ∷ []) p = absurd (omega arith)
bits_of-bit_bytes (suc k) (a ∷ b ∷ c ∷ d ∷ e ∷ f ∷ []) p = absurd (omega arith)
bits_of-bit_bytes (suc k) (a ∷ b ∷ c ∷ d ∷ e ∷ []) p = absurd (omega arith)
bits_of-bit_bytes (suc k) (a ∷ b ∷ c ∷ d ∷ []) p = absurd (omega arith)
bits_of-bit_bytes (suc k) (a ∷ b ∷ c ∷ []) p = absurd (omega arith)
bits_of-bit_bytes (suc k) (a ∷ b ∷ []) p = absurd (omega arith)
bits_of-bit_bytes (suc k) (a ∷ []) p = absurd (omega arith)
bits_of-bit_bytes (suc k) [] p = absurd (omega arith)

length-bit_bytes : (k : ℕ) (bs : List Bool) → length bs ≡ 8 * k → length (bit_bytes bs) ≡ k
unfolding bit_bytes
length-bit_bytes zero [] h = refl
length-bit_bytes zero (b ∷ bs) h = absurd (omega arith)
length-bit_bytes (suc k) (a ∷ b ∷ c ∷ d ∷ e ∷ f ∷ g ∷ h ∷ bs) p =
    ap suc (length-bit_bytes k bs (omega arith))
length-bit_bytes (suc k) (a ∷ b ∷ c ∷ d ∷ e ∷ f ∷ g ∷ []) p = absurd (omega arith)
length-bit_bytes (suc k) (a ∷ b ∷ c ∷ d ∷ e ∷ f ∷ []) p = absurd (omega arith)
length-bit_bytes (suc k) (a ∷ b ∷ c ∷ d ∷ e ∷ []) p = absurd (omega arith)
length-bit_bytes (suc k) (a ∷ b ∷ c ∷ d ∷ []) p = absurd (omega arith)
length-bit_bytes (suc k) (a ∷ b ∷ c ∷ []) p = absurd (omega arith)
length-bit_bytes (suc k) (a ∷ b ∷ []) p = absurd (omega arith)
length-bit_bytes (suc k) (a ∷ []) p = absurd (omega arith)
length-bit_bytes (suc k) [] p = absurd (omega arith)

abbrev pub lsb0 : BitImage
lsb0 = record { of_bytes = bits_of; as_bytes = bit_bytes }

pub lsb0-IsBitImage : IsBitImage lsb0
lsb0-IsBitImage = record { length_as_bytes = length-bit_bytes; of_as_bytes = bits_of-bit_bytes }
