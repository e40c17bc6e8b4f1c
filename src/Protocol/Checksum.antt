-- ===== src/Protocol/Checksum.antt =====
-- `calculate_crc32` of src/network/protocol.cpp.
use Prim.Native.Nat.{bit_and, bit_xor}
use hyper_share.Prelude.{
  ℕ, zero, suc, ◌/◌, ◌%◌, ◌^◌, ◌<◌, ◌≡◌, refl, Bool, true, List, [], ◌∷◌, get_or, arith, ◌==◌,
  if◌then◌else◌, Bool-cases, inl, inr, ap, false,
}
use hyper_share.Wire.{Bytes}

-- The twelve entries that the source writes; C++ fills the other 244 with zero.
abbrev written_entries : List ℕ
written_entries =
    0x00000000 ∷ 0x77073096 ∷ 0xEE0E612C ∷ 0x990951BA ∷ 0x076DC419 ∷ 0x706AF48F ∷ 0xE963A535
    ∷ 0x9E6495A3 ∷ 0x0EDB8832 ∷ 0x79DCB8A4 ∷ 0xE0D5E91E ∷ 0x97D2D988 ∷ []

crc_table : ℕ → ℕ
crc_table i = get_or written_entries i 0

-- `crc = crc_table[(crc ^ byte) & 0xFF] ^ (crc >> 8)`
crc_step : ℕ → ℕ → ℕ
crc_step crc byte = bit_xor (crc_table (bit_and (bit_xor crc byte) 0xFF)) (crc / 2 ^ 8)

crc_loop : ℕ → Bytes → ℕ
crc_loop crc [] = crc
crc_loop crc (byte ∷ data_rest) = crc_loop (crc_step crc byte) data_rest

unfoldable pub calculate_crc32 : Bytes → ℕ
unfolding crc_loop crc_step crc_table
calculate_crc32 data_span = bit_xor (crc_loop 0xFFFFFFFF data_span) 0xFFFFFFFF % 2 ^ 32

pub calculate_crc32-lt : (data_span : Bytes) → calculate_crc32 data_span < 2 ^ 32
unfolding calculate_crc32
calculate_crc32-lt data_span = omega arith

-- Whether no byte below `limit` changes what a first step gives.
are_blind : ℕ → Bool
unfolding crc_step crc_table
are_blind zero = true
are_blind (suc byte) = if crc_step 0xFFFFFFFF byte == 0xFFFFFF then are_blind byte else false

blind_244 : are_blind 244 ≡ true
unfolding are_blind
blind_244 = refl

-- A byte that a blind range contains gives the step that all of the range gives.
crc_step_in_range :
    (byte limit : ℕ) → are_blind limit ≡ true → byte < limit → crc_step 0xFFFFFFFF byte ≡ 0xFFFFFF
unfolding are_blind
crc_step_in_range byte zero e h = absurd (omega arith)
crc_step_in_range byte (suc last) e h = elim (Bool-cases (crc_step 0xFFFFFFFF last == 0xFFFFFF)) [
  | inr no_match ↦ ground (arith, no_match, e)
  | inl match_last ↦ ground (
    arith,
    match_last,
    e,
    ap (crc_step 0xFFFFFFFF) {x = byte} {y = last},
    crc_step_in_range byte last,
  )
]

-- The first 244 values of a first byte meet only the part of the table that is zero.
crc_step_blind : (byte : ℕ) → byte < 244 → crc_step 0xFFFFFFFF byte ≡ 0xFFFFFF
crc_step_blind byte h = crc_step_in_range byte 244 blind_244 h

pub calculate_crc32_blind :
    (a b : ℕ) (rest : Bytes)
    → a < 244
    → b < 244
    → calculate_crc32 (a ∷ rest) ≡ calculate_crc32 (b ∷ rest)
calculate_crc32_blind a b rest ha hb =
    unfold calculate_crc32 in rw (crc_step_blind a ha, crc_step_blind b hb)
