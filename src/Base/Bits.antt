-- ===== src/Base/Bits.antt =====
-- Laws of `&`, `|` and `^` at every width, and the shifts of unsigned words.
use Prim.Native.Nat.{ℕ, zero, suc, ◌+◌, ◌-◌, ◌*◌, ◌/◌, ◌%◌, ◌^◌, ◌≤◌, ◌<◌, min, max, differ}
use Prim.Native.Nat.{bit_and, bit_or, bit_xor, digits, bitwise}
use Prim.Native.Nat.{bit_and-bitwise, bit_or-bitwise, bit_xor-bitwise}
use mathlib.Core.Path.{◌≡◌, refl, ap, ◌∙◌}
use mathlib.Core.WellFounded
use native.Mathlib.Nat.{pow-suc, one-le-pow}
use native.Mathlib.Decide.{dec_lt}
use native.Mathlib.Omega.{arith}
use ra_common_cpp.Base.Order.{lt_wf}

-- x << k and x >> k on a word of w bits that holds x.
abbrev pub shl : ℕ → ℕ → ℕ → ℕ
shl w x k = x * 2 ^ k % 2 ^ w

abbrev pub shr : ℕ → ℕ → ℕ
shr x k = x / 2 ^ k

-- The native operations stand for a recursion on digits whose fuel is the first number.
-- More fuel than that changes nothing.
module _ (rest : ℕ → ℕ) (digit : ℕ → ℕ → ℕ) where
  digits_enough : (n a b : ℕ) → a ≤ n → digits rest digit n a b ≡ digits rest digit a a b
  digits_enough n a b h =
      WellFounded.induction lt_wf
        {C = λ a. (n b : ℕ) → a ≤ n → digits rest digit n a b ≡ digits rest digit a a b} a step n b
        h
    where
      step :
          (a : ℕ)
          → ((c : ℕ)
              → c < a
              → (n b : ℕ) → c ≤ n
              → digits rest digit n c b ≡ digits rest digit c c b)
          → (n b : ℕ) → a ≤ n
          → digits rest digit n a b ≡ digits rest digit a a b
      step zero ih zero b h = refl
      step zero ih (suc n) b h = refl
      step (suc a) ih zero b h = absurd (omega arith)
      step (suc a) ih (suc n) b h = rw (
        ih (suc a / 2) (omega arith) n (b / 2) (omega arith),
        ih (suc a / 2) (omega arith) a (b / 2) (omega arith),
      )

  -- The lowest digit of the result, and the rest.
  bitwise_lowest :
      (a b : ℕ)
      → 0 < a
      → bitwise rest digit a b ≡ bitwise rest digit (a / 2) (b / 2) * 2 + digit (a % 2) (b % 2)
  bitwise_lowest zero b h = absurd (omega arith)
  bitwise_lowest (suc a) b h = rw (digits_enough a (suc a / 2) (b / 2) (omega arith))

or_lowest : (a b : ℕ) → 0 < a → bit_or a b ≡ bit_or (a / 2) (b / 2) * 2 + max (a % 2) (b % 2)
or_lowest a b h = simp bit_or-bitwise (bitwise_lowest (λ b. b) max a b h)

and_lowest : (a b : ℕ) → 0 < a → bit_and a b ≡ bit_and (a / 2) (b / 2) * 2 + min (a % 2) (b % 2)
and_lowest a b h = simp bit_and-bitwise (bitwise_lowest (λ b. 0) min a b h)

xor_lowest : (a b : ℕ) → 0 < a → bit_xor a b ≡ bit_xor (a / 2) (b / 2) * 2 + differ (a % 2) (b % 2)
xor_lowest a b h = simp bit_xor-bitwise (bitwise_lowest (λ b. b) differ a b h)

pub zero-or : (b : ℕ) → bit_or 0 b ≡ b
zero-or b = simp bit_or-bitwise refl

zero-and : (b : ℕ) → bit_and 0 b ≡ 0
zero-and b = simp bit_and-bitwise refl

pub zero-xor : (b : ℕ) → bit_xor 0 b ≡ b
zero-xor b = simp bit_xor-bitwise refl

or-zero : (a : ℕ) → bit_or a 0 ≡ a
or-zero a =
    WellFounded.induction lt_wf {C = λ a. bit_or a 0 ≡ a} a λ where_a smaller. halve where_a smaller
  where
    halve : (a : ℕ) → ((c : ℕ) → c < a → bit_or c 0 ≡ c) → bit_or a 0 ≡ a
    halve zero ih = zero-or 0
    halve (suc a) ih =
        omega (arith, or_lowest (suc a) 0 (omega arith), ih (suc a / 2) (omega arith))

shift_one_more : (q k : ℕ) → q * 2 ^ suc k ≡ q * 2 ^ k * 2
shift_one_more q k = omega (arith, ap (λ (t : ℕ). q * t) (pow-suc 2 k))

-- A shifted field and the bits below it do not overlap, so `|` adds them.
pub or_disjoint : (k high low : ℕ) → low < 2 ^ k → bit_or (high * 2 ^ k) low ≡ high * 2 ^ k + low
or_disjoint k zero low h = let e : 0 * 2 ^ k ≡ 0 = omega arith in rw e (zero-or low ∙ omega arith)
or_disjoint zero (suc high) low h = ground (arith, or-zero (suc high))
or_disjoint (suc k) (suc high) low h = ground (
  arith,
  shift_one_more (suc high) k,
  pow-suc 2 k,
  one-le-pow k 2,
  or_lowest (suc high * 2 ^ suc k) low,
  or_disjoint k (suc high) (low / 2),
)

and-zero : (a : ℕ) → bit_and a 0 ≡ 0
and-zero a = WellFounded.induction lt_wf {C = λ a. bit_and a 0 ≡ 0} a halve
  where
    halve : (a : ℕ) → ((c : ℕ) → c < a → bit_and c 0 ≡ 0) → bit_and a 0 ≡ 0
    halve zero ih = zero-and 0
    halve (suc a) ih =
        omega (arith, and_lowest (suc a) 0 (omega arith), ih (suc a / 2) (omega arith))

and_split : (k high low : ℕ) → low < 2 ^ k → bit_and (high * 2 ^ k + low) (2 ^ k - 1) ≡ low
and_split zero high low h = and-zero _ ∙ omega arith
and_split (suc k) high low h = elim (dec_lt 0 (high * 2 ^ suc k + low)) [
  | yes pos ↦ ground (
    arith,
    shift_one_more high k,
    pow-suc 2 k,
    one-le-pow k 2,
    and_lowest (high * 2 ^ suc k + low) (2 ^ suc k - 1) pos,
    and_split k high (low / 2),
  )
  | no none_left ↦ ground (arith, zero-and (2 ^ suc k - 1))
]

-- A mask of k ones keeps the remainder by 2 ^ k.
pub and_low : (k a : ℕ) → bit_and a (2 ^ k - 1) ≡ a % 2 ^ k
and_low k a = ground (arith, one-le-pow k 2, and_split k (a / 2 ^ k) (a % 2 ^ k))

-- Words differ in some bit unless they are equal.
pub xor-eq-zero : (a b : ℕ) → bit_xor a b ≡ 0 → a ≡ b
xor-eq-zero a = WellFounded.induction lt_wf {C = λ a. (b : ℕ) → bit_xor a b ≡ 0 → a ≡ b} a halve
  where
    halve :
        (a : ℕ)
        → ((c : ℕ) → c < a → (b : ℕ) → bit_xor c b ≡ 0 → c ≡ b)
        → (b : ℕ) → bit_xor a b ≡ 0
        → a ≡ b
    halve zero ih b h = omega (arith, zero-xor b)
    halve (suc a) ih b h =
        ground (arith, xor_lowest (suc a) b (omega arith), ih (suc a / 2) (omega arith) (b / 2))

differ_self : (d : ℕ) → differ d d ≡ 0
differ_self zero = refl
differ_self (suc d) = differ_self d

pub xor_self : (a : ℕ) → bit_xor a a ≡ 0
xor_self a = WellFounded.induction lt_wf {C = λ a. bit_xor a a ≡ 0} a halve
  where
    halve : (a : ℕ) → ((c : ℕ) → c < a → bit_xor c c ≡ 0) → bit_xor a a ≡ 0
    halve zero ih = zero-xor 0
    halve (suc a) ih = omega (
      arith,
      xor_lowest (suc a) (suc a) (omega arith),
      ih (suc a / 2) (omega arith),
      differ_self (suc a % 2),
    )

-- `|` gathers the bits of both.
pub or-eq-zero : (a b : ℕ) → bit_or a b ≡ 0 → (a ≡ 0) × (b ≡ 0)
or-eq-zero a =
    WellFounded.induction lt_wf {C = λ a. (b : ℕ) → bit_or a b ≡ 0 → (a ≡ 0) × (b ≡ 0)} a halve
  where
    halve :
        (a : ℕ)
        → ((c : ℕ) → c < a → (b : ℕ) → bit_or c b ≡ 0 → (c ≡ 0) × (b ≡ 0))
        → (b : ℕ) → bit_or a b ≡ 0
        → (a ≡ 0) × (b ≡ 0)
    halve zero ih b h = omega (arith, zero-or b)
    halve (suc a) ih b h =
        ground (arith, or_lowest (suc a) b (omega arith), ih (suc a / 2) (omega arith) (b / 2))

differ-lt : (a b : ℕ) → a < 2 → b < 2 → differ a b < 2
differ-lt zero b ha hb = hb
differ-lt (suc zero) zero ha hb = omega arith
differ-lt (suc zero) (suc b) ha hb = omega arith
differ-lt (suc (suc a)) b ha hb = absurd (omega arith)

-- `^` stays within the width.
pub xor-lt : (k a b : ℕ) → a < 2 ^ k → b < 2 ^ k → bit_xor a b < 2 ^ k
xor-lt k zero b ha hb = rw zero-xor hb
xor-lt zero (suc a) b ha hb = absurd (omega arith)
xor-lt (suc k) (suc a) b ha hb = omega (
  arith,
  pow-suc 2 k,
  xor_lowest (suc a) b (omega arith),
  differ-lt (suc a % 2) (b % 2) (omega arith) (omega arith),
  xor-lt k (suc a / 2) (b / 2) (omega (arith, pow-suc 2 k)) (omega (arith, pow-suc 2 k)),
)
