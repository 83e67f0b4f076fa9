-- ===== src/Comms/MessageHandler/Header.antt =====
-- The length in front of a message: what `processHeader` puts together byte by byte is what
-- `formatMessage` took apart.
use native.Mathlib.Nat.{add-zero}
use rstudio_launcher_plugin.Base.{
  ℕ, zero, suc, ◌+◌, ◌*◌, ◌/◌, ◌%◌, ◌^◌, ◌≤◌, ◌<◌, ◌≡◌, ◌∙◌, bit_or, List, [], ◌∷◌, ◌++◌, arith,
  length, take, zero-bit_or, bit_or_disjoint, Bool-cases, ltb, ltb→lt, inl, inr,
}
use rstudio_launcher_plugin.Comms.MessageHandler.{
  of_bytes, ByteOrder, u32, MessageHandler, bytes_in_memory, shift_byte, read_header,
}

-- The size that the bytes of a header add up to, from a size so far and the place of the next byte.
unfoldable pub header_size : ℕ → ℕ → List ℕ → ℕ
header_size size i [] = size
header_size size i (b ∷ bs) = header_size (bit_or size (shift_byte b i)) (i + 1) bs

pub header_size-append :
    (size i : ℕ) (xs ys : List ℕ)
    → header_size size i (xs ++ ys) ≡ header_size (header_size size i xs) (i + length xs) ys
unfolding header_size
header_size-append size i [] ys = rw add-zero
header_size-append size i (x ∷ xs) ys =
    header_size-append (bit_or size (shift_byte x i)) (i + 1) xs ys
    ∙ (let places : i + 1 + length xs ≡ i + suc (length xs) = omega arith in rw places)

-- The loop of `processHeader` on at least `n` bytes.
pub read_header_lem :
    (n : ℕ) (bytes : List ℕ) (h : MessageHandler)
    → n ≤ length bytes
    → read_header n bytes h ≡ record h {
      current_payload_size = header_size h.current_payload_size h.bytes_read (take n bytes);
      bytes_read = h.bytes_read + n;
    }
unfolding read_header header_size
read_header_lem zero bytes h le = rw add-zero
read_header_lem (suc n) [] h le = absurd (omega arith)
read_header_lem (suc n) (b ∷ bytes) h le =
    read_header_lem n bytes _ (omega arith)
    ∙ (let places : h.bytes_read + 1 + n ≡ h.bytes_read + suc n = omega arith in rw places)

-- A byte shifted into one of the three low places.
shift_byte_low : (b i : ℕ) → b < 256 → i < 3 → shift_byte b i ≡ b * 2 ^ (i * 8)
unfolding shift_byte
shift_byte_low b zero p q = ground arith
shift_byte_low b (suc zero) p q = ground arith
shift_byte_low b (suc (suc zero)) p q = ground arith
shift_byte_low b (suc (suc (suc i))) p q = absurd (omega arith)

-- In the top place the sign may fill the bits above the 32 that count.
shift_byte_top : (b : ℕ) → b < 256 → (sign : ℕ) × (shift_byte b 3 ≡ (b + sign * 256) * 2 ^ 24)
unfolding shift_byte
shift_byte_top b p = elim (Bool-cases (ltb (u32 (b * 16777216)) 2147483648)) [
  | inl e ↦ (0, rw e (omega (arith, ltb→lt _ _ e)))
  | inr e ↦ (4294967295, rw e (omega arith))
]

-- Four bytes, put together, are the number that has them in memory, up to what `uint32_t` drops.
pub header_size_bytes :
    (b0 b1 b2 b3 : ℕ)
    → b0 < 256
    → b1 < 256
    → b2 < 256
    → b3 < 256
    → u32 (header_size 0 0 (b0 ∷ b1 ∷ b2 ∷ b3 ∷ [])) ≡ of_bytes b0 b1 b2 b3
unfolding header_size
header_size_bytes b0 b1 b2 b3 p0 p1 p2 p3 = go (shift_byte_top b3 p3)
  where
    low :
        bit_or (bit_or (bit_or 0 (shift_byte b0 0)) (shift_byte b1 1)) (shift_byte b2 2)
        ≡ b0 + b1 * 2 ^ 8 + b2 * 2 ^ 16
    low =
        rw
          (
            shift_byte_low b0 0 p0 (omega arith),
            shift_byte_low b1 1 p1 (omega arith),
            shift_byte_low b2 2 p2 (omega arith),
            zero-bit_or (b0 * 1),
            bit_or_disjoint 8 (b0 * 1) b1 (omega arith),
            bit_or_disjoint 16 (b0 * 1 + b1 * 2 ^ 8) b2 (omega arith),
          )
          (omega arith)

    go :
        (sign : ℕ) × (shift_byte b3 3 ≡ (b3 + sign * 256) * 2 ^ 24)
        → u32 (header_size 0 0 (b0 ∷ b1 ∷ b2 ∷ b3 ∷ [])) ≡ of_bytes b0 b1 b2 b3
    go (sign, top) =
        rw
          (
            low,
            top,
            bit_or_disjoint 24 (b0 + b1 * 2 ^ 8 + b2 * 2 ^ 16) (b3 + sign * 256) (omega arith),
          )
          (omega arith)

bytes_in_memory_lem :
    (a b c d : ℕ)
    → a < 256
    → b < 256
    → c < 256
    → d < 256
    → bytes_in_memory 4 (of_bytes a b c d) ≡ a ∷ b ∷ c ∷ d ∷ []
unfolding bytes_in_memory
bytes_in_memory_lem a b c d p q r s =
    let third : of_bytes a b c d / 256 / 256 % 256 ≡ c = omega arith in
    let top : of_bytes a b c d / 256 / 256 / 256 % 256 ≡ d = omega arith in
    let low : of_bytes a b c d % 256 ≡ a = omega arith in
    let second : of_bytes a b c d / 256 % 256 ≡ b = omega arith in cc

-- The header that `formatMessage` writes for a payload of `n` bytes.
unfoldable pub header_of : ByteOrder → ℕ → List ℕ
header_of o n = bytes_in_memory 4 (o.host_to_network_long (u32 n))

-- It is `n` in network order: four bytes, the highest first.
pub header_of_lem :
    (o : ByteOrder) (n : ℕ)
    → n < 4294967296
    → header_of o n ≡ (n / 16777216) ∷ (n / 65536 % 256) ∷ (n / 256 % 256) ∷ (n % 256) ∷ []
unfolding header_of
header_of_lem o n p =
    let digits : u32 n ≡ of_bytes (n % 256) (n / 256 % 256) (n / 65536 % 256) (n / 16777216) =
      omega arith in
    rw
      (
        digits,
        o.host_to_network_bytes (n % 256) (n / 256 % 256) (n / 65536 % 256) (n / 16777216)
            (omega arith) (omega arith) (omega arith) (omega arith),
      )
      (bytes_in_memory_lem (n / 16777216) (n / 65536 % 256) (n / 256 % 256) (n % 256) (omega arith)
        (omega arith) (omega arith) (omega arith))

-- What the receiver makes of it is `n`.
pub header_of_read :
    (o : ByteOrder) (n : ℕ)
    → n < 4294967296
    → o.network_to_host_long (u32 (header_size 0 0 (header_of o n))) ≡ n
header_of_read o n p = rw (header_of_lem o n p) (
    rw
      (header_size_bytes (n / 16777216) (n / 65536 % 256) (n / 256 % 256) (n % 256) (omega arith)
        (omega arith) (omega arith) (omega arith))
      (o.network_to_host_bytes _ _ _ _ (omega arith) (omega arith) (omega arith) (omega arith)
        ∙ omega arith))
