-- ===== src/Bits.antt =====
-- The bit operations of C on natural numbers: what they do to the blocks of a number cut at any bit,
-- and masks.
pub mod Xor
use Prim.Native.Nat.{min, max, differ, digits, bitwise}
use Prim.Native.Nat.{bit_and-bitwise, bit_or-bitwise, bit_xor-bitwise}
use native.Mathlib.Nat.{le_refl, one-le-pow, pow-suc}
use lora_mqtt.Prelude.{
  ℕ, zero, suc, ◌+◌, ◌-◌, ◌*◌, ◌/◌, ◌%◌, ◌^◌, ◌≤◌, ◌<◌, ◌≡◌, refl, ap, ap₂, sym, ◌∙◌, bit_and,
  bit_or, bit_xor, arith,
}

-- An operation that reads both numbers digit by digit, the lowest digit first.
record IsBitwise (op : ℕ → ℕ → ℕ) (f : ℕ → ℕ → ℕ) : Type 0 where
  pub empty : op 0 0 ≡ 0
  pub step : (a b : ℕ) → op a b ≡ op (a / 2) (b / 2) * 2 + f (a % 2) (b % 2)

module _ (z : ℕ → ℕ) (f : ℕ → ℕ → ℕ) where
  enough : (n m a b : ℕ) → a ≤ n → a ≤ m → digits z f n a b ≡ digits z f m a b
  enough zero zero a b p q = refl
  enough (suc n) zero zero b p q = refl
  enough zero (suc m) zero b p q = refl
  enough (suc n) (suc m) zero b p q = refl
  enough zero m (suc a) b p q = absurd (omega arith)
  enough (suc n) zero (suc a) b p q = absurd (omega arith)
  enough (suc n) (suc m) (suc a) b p q =
      let ih = enough n m (suc a / 2) (b / 2) (omega arith) (omega arith) in omega (arith, ih)

  bitwise_step :
      ((b : ℕ) → z b ≡ z (b / 2) * 2 + f 0 (b % 2))
      → (a b : ℕ) → bitwise z f a b ≡ bitwise z f (a / 2) (b / 2) * 2 + f (a % 2) (b % 2)
  bitwise_step h zero b = h b
  bitwise_step h (suc a) b =
      let ih = enough a (suc a / 2) (suc a / 2) (b / 2) (omega arith) (le_refl _) in
      omega (arith, ih)

and-IsBitwise : IsBitwise bit_and min
and-IsBitwise = record {
  empty = refl;
  step = λ a b. simp bit_and-bitwise (bitwise_step (λ b. 0) min (λ b. omega arith) a b);
}

or-IsBitwise : IsBitwise bit_or max
or-IsBitwise = record {
  empty = refl;
  step = λ a b. simp bit_or-bitwise (bitwise_step (λ b. b) max (λ b. omega arith) a b);
}

xor-IsBitwise : IsBitwise bit_xor differ
xor-IsBitwise = record {
  empty = refl;
  step = λ a b. simp bit_xor-bitwise (bitwise_step (λ b. b) differ (λ b. omega arith) a b);
}

module _ {op f : ℕ → ℕ → ℕ} (h : IsBitwise op f) where
  double : (q k : ℕ) → q * 2 ^ suc k ≡ 2 * (q * 2 ^ k)
  double q k = omega (arith, ap (λ (t : ℕ). q * t) (pow-suc 2 k))

  -- Cut both numbers at bit `k`: the operation acts on the parts.
  blocks :
      (k p r q s : ℕ)
      → r < 2 ^ k
      → s < 2 ^ k
      → op (p * 2 ^ k + r) (q * 2 ^ k + s) ≡ op p q * 2 ^ k + op r s
  blocks zero p zero q zero m n = ground (arith, h.empty)
  blocks zero p (suc r) q s m n = absurd (omega arith)
  blocks zero p r q (suc s) m n = absurd (omega arith)
  blocks (suc k) p r q s m n =
      let ih =
        blocks k p (r / 2) q (s / 2) (omega (arith, pow-suc 2 k)) (omega (arith, pow-suc 2 k)) in
      ground (
        arith,
        h.step (p * 2 ^ suc k + r) (q * 2 ^ suc k + s),
        h.step r s,
        double p k,
        double q k,
        double (op p q) k,
        ih,
      )

and_blocks :
    (k p r q s : ℕ)
    → r < 2 ^ k
    → s < 2 ^ k
    → bit_and (p * 2 ^ k + r) (q * 2 ^ k + s) ≡ bit_and p q * 2 ^ k + bit_and r s
and_blocks = blocks and-IsBitwise

digits-and_zero : (n a : ℕ) → digits (λ b. 0) min n a 0 ≡ 0
digits-and_zero zero a = refl
digits-and_zero (suc n) zero = refl
digits-and_zero (suc n) (suc a) = let ih = digits-and_zero n (suc a / 2) in omega (arith, ih)

pub and_zero : (a : ℕ) → bit_and a 0 ≡ 0
and_zero a = simp bit_and-bitwise (digits-and_zero a a)

pub zero_and : (a : ℕ) → bit_and 0 a ≡ 0
zero_and a = simp bit_and-bitwise refl

digits-or_zero : (n a : ℕ) → a ≤ n → digits (λ b. b) max n a 0 ≡ a
digits-or_zero zero a h = omega arith
digits-or_zero (suc n) zero h = refl
digits-or_zero (suc n) (suc a) h =
    let ih = digits-or_zero n (suc a / 2) (omega arith) in omega (arith, ih)

pub or_zero : (a : ℕ) → bit_or a 0 ≡ a
or_zero a = simp bit_or-bitwise (digits-or_zero a a (le_refl a))

pub zero_or : (a : ℕ) → bit_or 0 a ≡ a
zero_or a = simp bit_or-bitwise refl

digits-xor_zero : (n a : ℕ) → a ≤ n → digits (λ b. b) differ n a 0 ≡ a
digits-xor_zero zero a h = omega arith
digits-xor_zero (suc n) zero h = refl
digits-xor_zero (suc n) (suc a) h =
    let ih = digits-xor_zero n (suc a / 2) (omega arith) in
    omega (arith, ih, differ_zero (suc a % 2))
  where
    differ_zero : (x : ℕ) → differ x 0 ≡ x
    differ_zero zero = refl
    differ_zero (suc x) = refl

pub xor_zero : (a : ℕ) → bit_xor a 0 ≡ a
xor_zero a = simp bit_xor-bitwise (digits-xor_zero a a (le_refl a))

pub zero_xor : (a : ℕ) → bit_xor 0 a ≡ a
zero_xor a = simp bit_xor-bitwise refl

differ_self : (x : ℕ) → differ x x ≡ 0
differ_self zero = refl
differ_self (suc x) = differ_self x

digits-xor_self : (n a : ℕ) → a ≤ n → digits (λ b. b) differ n a a ≡ 0
digits-xor_self zero a h = omega arith
digits-xor_self (suc n) zero h = refl
digits-xor_self (suc n) (suc a) h =
    let ih = digits-xor_self n (suc a / 2) (omega arith) in
    omega (arith, ih, differ_self (suc a % 2))

pub xor_self : (a : ℕ) → bit_xor a a ≡ 0
xor_self a = simp bit_xor-bitwise (digits-xor_self a a (le_refl a))

pub and_mask : (k a : ℕ) → a < 2 ^ k → bit_and a (2 ^ k - 1) ≡ a
and_mask zero a h = let z : a ≡ 0 = omega arith in rw z refl
and_mask (suc k) a h =
    let ih = and_mask k (a / 2) (omega (arith, pow-suc 2 k)) in
    ground (arith, and-IsBitwise.step a (2 ^ suc k - 1), pow-suc 2 k, one-le-pow k 2, ih)

pub mask_and : (k a : ℕ) → a < 2 ^ k → bit_and (2 ^ k - 1) a ≡ a
mask_and zero a h = let z : a ≡ 0 = omega arith in rw z refl
mask_and (suc k) a h =
    let ih = mask_and k (a / 2) (omega (arith, pow-suc 2 k)) in
    ground (arith, and-IsBitwise.step (2 ^ suc k - 1) a, pow-suc 2 k, one-le-pow k 2, ih)

pub and_one : (a : ℕ) → bit_and a 1 ≡ a % 2
and_one a = ground (arith, and-IsBitwise.step a 1, and_zero (a / 2))

-- A test of one bit that is set.
pub and_bit : (k q m : ℕ) → m < 2 ^ k → bit_and ((2 * q + 1) * 2 ^ k + m) (2 ^ k) ≡ 2 ^ k
and_bit k q m h =
    let odd : bit_and (2 * q + 1) 1 ≡ 1 = omega (arith, and_one (2 * q + 1)) in
    ap (λ (t : ℕ). bit_and ((2 * q + 1) * 2 ^ k + m) t)
      (let f : 2 ^ k ≡ 1 * 2 ^ k + 0 = omega arith in f)
    ∙ blocks and-IsBitwise k (2 * q + 1) m 1 0 h (one-le-pow k 2 (omega arith))
    ∙ rw (odd, and_zero m) (omega arith)

-- `x << k | y` for a `y` below the shift.
pub or_sum : (k p r : ℕ) → r < 2 ^ k → bit_or (p * 2 ^ k) r ≡ p * 2 ^ k + r
or_sum k p r h =
    ap₂ bit_or (let f : p * 2 ^ k ≡ p * 2 ^ k + 0 = omega arith in f)
      (let f : r ≡ 0 * 2 ^ k + r = omega arith in f)
    ∙ blocks or-IsBitwise k p 0 0 r (omega (arith, one-le-pow k 2)) h
    ∙ rw (or_zero p, zero_or r) refl

-- A number cut at bit `k`.
pub cut : (k n : ℕ) → n ≡ n / 2 ^ k * 2 ^ k + n % 2 ^ k
cut k n = ground (arith, one-le-pow k 2)

pub cut-lt : (k n : ℕ) → n % 2 ^ k < 2 ^ k
cut-lt k n = ground (arith, one-le-pow k 2)

pub low_byte : (q : ℕ) → bit_and q 255 ≡ q % 256
low_byte q =
    ap (λ (t : ℕ). bit_and t 255) (cut 8 q)
    ∙ blocks and-IsBitwise 8 (q / 256) (q % 256) 0 255 (omega arith) (omega arith)
    ∙ rw (and_zero (q / 256), and_mask 8 (q % 256) (omega arith)) (omega arith)

-- A mask of one byte.
pub and_byte : (k n : ℕ) → bit_and n (255 * 2 ^ k) ≡ n / 2 ^ k % 256 * 2 ^ k
and_byte k n =
    ap₂ bit_and (cut k n) (let f : 255 * 2 ^ k ≡ 255 * 2 ^ k + 0 = omega arith in f)
    ∙ blocks and-IsBitwise k (n / 2 ^ k) (n % 2 ^ k) 255 0 (cut-lt k n)
        (one-le-pow k 2 (omega arith))
    ∙ rw (low_byte (n / 2 ^ k), and_zero (n % 2 ^ k)) (omega arith)

-- `|` of a number that ends in `k` zeros and one below the bit `k`.
pub or_disjoint : (k p x y : ℕ) → x ≡ p * 2 ^ k → y < 2 ^ k → bit_or x y ≡ x + y
or_disjoint k p x y h l =
    ap (λ (t : ℕ). bit_or t y) h ∙ or_sum k p y l ∙ ap (λ (t : ℕ). t + y) (sym h)

pub xor_blocks :
    (k p r q s : ℕ)
    → r < 2 ^ k
    → s < 2 ^ k
    → bit_xor (p * 2 ^ k + r) (q * 2 ^ k + s) ≡ bit_xor p q * 2 ^ k + bit_xor r s
xor_blocks = blocks xor-IsBitwise

pub xor_step : (a b : ℕ) → bit_xor a b ≡ bit_xor (a / 2) (b / 2) * 2 + differ (a % 2) (b % 2)
xor_step = xor-IsBitwise.step

pub differ-lt : (x y : ℕ) → x < 2 → y < 2 → differ x y < 2
differ-lt zero y h l = l
differ-lt (suc x) zero h l = h
differ-lt (suc x) (suc y) h l =
    let a : x ≡ 0 = omega arith in let b : y ≡ 0 = omega arith in rw (a, b) (omega arith)

pub xor-lt : (k a b : ℕ) → a < 2 ^ k → b < 2 ^ k → bit_xor a b < 2 ^ k
xor-lt zero a b h l =
    let x : a ≡ 0 = omega arith in let y : b ≡ 0 = omega arith in rw (x, y) (omega arith)
xor-lt (suc k) a b h l =
    let ih = xor-lt k (a / 2) (b / 2) (omega (arith, pow-suc 2 k)) (omega (arith, pow-suc 2 k)) in
    omega (
      arith,
      ih,
      xor-IsBitwise.step a b,
      differ-lt (a % 2) (b % 2) (omega arith) (omega arith),
      pow-suc 2 k,
    )

-- A mask of the low `k` bits.
pub low_bits : (k n : ℕ) → bit_and n (2 ^ k - 1) ≡ n % 2 ^ k
low_bits k n =
    ap₂ bit_and (cut k n) (let f : 2 ^ k - 1 ≡ 0 * 2 ^ k + (2 ^ k - 1) = omega arith in f)
    ∙ blocks and-IsBitwise k (n / 2 ^ k) (n % 2 ^ k) 0 (2 ^ k - 1) (cut-lt k n)
        (omega (arith, one-le-pow k 2))
    ∙ rw (and_zero (n / 2 ^ k), and_mask k (n % 2 ^ k) (cut-lt k n)) (omega arith)

-- `|` of a number below the bit `j` and one that ends in `j` zeros.
pub or_below : (j q r : ℕ) → r < 2 ^ j → bit_or r (q * 2 ^ j) ≡ q * 2 ^ j + r
or_below j q r h =
    ap₂ bit_or (let f : r ≡ 0 * 2 ^ j + r = omega arith in f)
      (let f : q * 2 ^ j ≡ q * 2 ^ j + 0 = omega arith in f)
    ∙ blocks or-IsBitwise j 0 r q 0 h (one-le-pow j 2 (omega arith))
    ∙ rw (zero_or q, or_zero r) refl

-- `|` with a part that fits between two others.
pub or_between :
    (j k p q r : ℕ)
    → r < 2 ^ j
    → r < 2 ^ k
    → q * 2 ^ j < 2 ^ k
    → bit_or (p * 2 ^ k + r) (q * 2 ^ j) ≡ p * 2 ^ k + (q * 2 ^ j + r)
or_between j k p q r h i l =
    ap (λ (t : ℕ). bit_or (p * 2 ^ k + r) t)
      (let f : q * 2 ^ j ≡ 0 * 2 ^ k + q * 2 ^ j = omega arith in f)
    ∙ blocks or-IsBitwise k p r 0 (q * 2 ^ j) i l
    ∙ rw (or_zero p, or_below j q r h) refl
