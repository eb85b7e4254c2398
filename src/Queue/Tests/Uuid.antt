-- ===== src/Queue/Tests/Uuid.antt =====
-- A concrete sequence of ids: the number of the draw, in hexadecimal, the last digit first.
use relaytv.Prelude.{
  ℕ, zero, suc, ◌+◌, ◌*◌, ◌/◌, ◌%◌, ◌<◌, ◌≡◌, refl, true, [], ◌∷◌, arith, ltb, if◌then◌else◌, Text,
  length,
}
use relaytv.Queue.Item.{is_hex, all_hex, is_id}
use relaytv.Queue.Ids.Unique.{IsUuid, max_draws}

unfoldable pub hex_digit : ℕ → ℕ
hex_digit d = if ltb d 10 then d + b'0' else d + 87

unfoldable pub hex : ℕ → ℕ → Text
hex zero n = []
hex (suc k) n = hex_digit (n % 16) ∷ hex k (n / 16)

unfoldable pub uuid : ℕ → Text
uuid n = hex 32 n

digit-is_hex : (d : ℕ) → d < 16 → is_hex (hex_digit d) ≡ true
unfolding is_hex hex_digit
digit-is_hex d h = ground arith

digit-injective : (d e : ℕ) → d < 16 → e < 16 → hex_digit d ≡ hex_digit e → d ≡ e
unfolding hex_digit
digit-injective d e h g same = ground arith

hex-all_hex : (k n : ℕ) → all_hex (hex k n) ≡ true
unfolding hex all_hex
hex-all_hex zero n = refl
hex-all_hex (suc k) n = ground (arith, digit-is_hex (n % 16) (omega arith), hex-all_hex k (n / 16))

hex-length : (k n : ℕ) → length (hex k n) ≡ k
unfolding hex
hex-length zero n = refl
hex-length (suc k) n = omega (arith, hex-length k (n / 16))

-- 16 ^ k
abbrev room : ℕ → ℕ
room zero = 1
room (suc k) = 16 * room k

hex-injective : (k m n : ℕ) → m < room k → n < room k → hex k m ≡ hex k n → m ≡ n
unfolding hex
hex-injective zero m n h g same = omega arith
hex-injective (suc k) m n h g same =
    let heads : hex_digit (m % 16) ≡ hex_digit (n % 16) = ground (arith, same) in
    let tails : hex k (m / 16) ≡ hex k (n / 16) = ground (arith, same) in
    omega (
      arith,
      digit-injective (m % 16) (n % 16) (omega arith) (omega arith) heads,
      hex-injective k (m / 16) (n / 16) (omega (arith, h)) (omega (arith, g)) tails,
    )

pub uuid-IsUuid : IsUuid uuid
unfolding uuid is_id max_draws
uuid-IsUuid = record {
  shape = λ n. ground (arith, hex-all_hex 32 n, hex-length 32 n);
  distinct = λ m n h g same. hex-injective 32 m n (omega arith) (omega arith) same;
}
