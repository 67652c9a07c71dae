-- ===== src/Memory/Functions/Bits.antt =====
-- Single bits of a word, as the shifts of src/memory.cpp read and set them.
use super_searcher.Base.{
  ℕ, zero, suc, ◌+◌, ◌-◌, ◌*◌, ◌/◌, ◌%◌, ◌≤◌, ◌<◌, ◌≡◌, ◌≢◌, refl, ap, ◌==◌, if◌then◌else◌,
  Bool-cases, inl, inr, eq_of_==, arith,
}

-- mask >> x
unfoldable pub shift_right : ℕ → ℕ → ℕ
shift_right mask zero = mask
shift_right mask (suc x) = shift_right (mask / 2) x

-- (mask >> x) % 2
unfoldable pub bit : ℕ → ℕ → ℕ
unfolding shift_right
bit mask x = shift_right mask x % 2

-- 1ull << x, for x below 64.
unfoldable pub one_at : ℕ → ℕ
one_at zero = 1
one_at (suc x) = 2 * one_at x

-- mask | (1ull << x)
unfoldable pub set_bit : ℕ → ℕ → ℕ
unfolding bit one_at
set_bit mask x = if bit mask x == 0 then mask + one_at x else mask

pub one_at_pos : (x : ℕ) → 0 < one_at x
unfolding one_at
one_at_pos zero = omega arith
one_at_pos (suc x) = omega (arith, one_at_pos x)

pub bit_bound : (mask x : ℕ) → bit mask x < 2
unfolding bit
bit_bound mask x = omega arith

pub bit_add_same : (mask x : ℕ) → bit mask x ≡ 0 → bit (mask + one_at x) x ≡ 1
unfolding bit one_at shift_right
bit_add_same mask zero h = omega arith
bit_add_same mask (suc x) h =
    let half : (mask + 2 * one_at x) / 2 ≡ mask / 2 + one_at x = omega arith in
    rw half (bit_add_same (mask / 2) x h)

pub bit_add_other : (mask x y : ℕ) → bit mask x ≡ 0 → y ≢ x → bit (mask + one_at x) y ≡ bit mask y
unfolding bit one_at shift_right
bit_add_other mask zero zero h ne = absurd (ne refl)
bit_add_other mask zero (suc y) h ne =
    let half : (mask + 1) / 2 ≡ mask / 2 = omega arith in rw half refl
bit_add_other mask (suc x) zero h ne = omega arith
bit_add_other mask (suc x) (suc y) h ne =
    let half : (mask + 2 * one_at x) / 2 ≡ mask / 2 + one_at x = omega arith in
    rw half (bit_add_other (mask / 2) x y h (λ e. ne (ap suc e)))

pub bit_add_bound :
    (mask x w : ℕ) → bit mask x ≡ 0 → x < w → mask < one_at w → mask + one_at x < one_at w
unfolding bit one_at shift_right
bit_add_bound mask x zero h lt small = absurd (omega arith)
bit_add_bound mask zero (suc w) h lt small = omega arith
bit_add_bound mask (suc x) (suc w) h lt small =
    omega (arith, bit_add_bound (mask / 2) x w h (omega arith) (omega arith))

-- All bits below `w` are set in the largest word of `w` bits, and in no other.
pub bit_full : (w x : ℕ) → x < w → bit (one_at w - 1) x ≡ 1
unfolding bit one_at shift_right
bit_full zero x lt = absurd (omega arith)
bit_full (suc w) zero lt = omega (arith, one_at_pos w)
bit_full (suc w) (suc x) lt =
    let half : (2 * one_at w - 1) / 2 ≡ one_at w - 1 = omega (arith, one_at_pos w) in
    rw half (bit_full w x (omega arith))

pub full_of_bits :
    (mask w : ℕ) → mask < one_at w → ((x : ℕ) → x < w → bit mask x ≡ 1) → mask ≡ one_at w - 1
unfolding bit one_at shift_right
full_of_bits mask zero small ones = omega arith
full_of_bits mask (suc w) small ones =
    let half = full_of_bits (mask / 2) w (omega arith) (λ x lt. ones (suc x) (omega arith)) in
    omega (arith, half, ones 0 (omega arith), one_at_pos w)

pub set_bit-other : (mask x y : ℕ) → y ≢ x → bit (set_bit mask x) y ≡ bit mask y
unfolding set_bit
set_bit-other mask x y ne = elim (Bool-cases (bit mask x == 0)) [
  | inl clear ↦ rw clear (bit_add_other mask x y (eq_of_== _ _ clear) ne)
  | inr set ↦ rw set refl
]

-- Bit by bit, `part` is contained in `mask`.
abbrev pub IsPart : ℕ → ℕ → Type 0
IsPart part mask = (x : ℕ) → bit part x ≤ bit mask x

pub IsPart-le :
    (part mask w : ℕ) → part < one_at w → mask < one_at w → IsPart part mask → part ≤ mask
unfolding bit one_at shift_right
IsPart-le part mask zero hp hm inside = omega arith
IsPart-le part mask (suc w) hp hm inside = omega (
  arith,
  inside 0,
  IsPart-le (part / 2) (mask / 2) w (omega arith) (omega arith) (λ x. inside (suc x)),
)

-- Where nothing is borrowed, subtraction takes single bits away.
pub bit_sub :
    (part mask x : ℕ)
    → part ≤ mask
    → IsPart part mask
    → bit (mask - part) x ≡ bit mask x - bit part x
unfolding bit shift_right
bit_sub part mask zero le inside = omega (arith, inside 0)
bit_sub part mask (suc x) le inside =
    let half : (mask - part) / 2 ≡ mask / 2 - part / 2 = omega (arith, inside 0) in
    rw half (bit_sub (part / 2) (mask / 2) x (omega arith) (λ y. inside (suc y)))
