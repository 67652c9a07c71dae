-- ===== src/Memory/Functions.antt =====
-- The pool of functions of src/memory.cpp: one bit for each function, 64 to a word, set where the
-- place is occupied. A function is its number in the pool.
pub mod Bits
pub mod Places
pub mod Allocation
pub mod Destroyed
pub mod Swept
mod Tests
use super_searcher.Base.{
  ℕ, zero, suc, ◌+◌, ◌-◌, ◌*◌, ◌/◌, ◌%◌, ◌^◌, Bool, true, false, ◌==◌, if◌then◌else◌, List, [], ◌∷◌,
  ◌++◌,
}
use super_searcher.Base.Result.{Result, ok, abort, out_of_fuel, ◌>>=◌}
use Bits.{bit, set_bit}

-- function_pool_size
abbrev pub function_pool_size : ℕ
function_pool_size = 2000 * 64

-- function_pool_flags, and sweep_function_pool_flags while a trace runs.
abbrev pub Flags : Type 0
Flags = ℕ → ℕ

-- flags[x] |= 1ull << offset
unfoldable pub mark : Flags → ℕ → ℕ → Flags
mark flags x offset y = if y == x then set_bit (flags x) offset else flags y

-- The loop of first_zero over the bits x, x + 1, ..., `count` of them.
unfoldable pub first_zero_from : ℕ → ℕ → ℕ → Result ℕ
first_zero_from mask x zero = abort
first_zero_from mask x (suc count) =
    let rest = first_zero_from mask (x + 1) count in if bit mask x == 0 then ok x else rest

unfoldable pub first_zero : ℕ → Result ℕ
unfolding first_zero_from
first_zero mask = first_zero_from mask 0 64

-- The loop of allocate_function over the words x, x + 1, ..., `count` of them.
unfoldable pub allocate_from : Flags → ℕ → ℕ → Result (ℕ × Flags)
allocate_from flags x zero = abort
allocate_from flags x (suc count) =
    let rest = allocate_from flags (x + 1) count in
    if flags x == 2 ^ 64 - 1
    then rest
    else do offset ← first_zero (flags x); ok (x * 64 + offset, mark flags x offset)

-- allocate_function; `first` is first_possible_empty_function_block.
unfoldable pub allocate_function : Flags → ℕ → Result (ℕ × Flags)
allocate_function flags first = allocate_from flags first (function_pool_size / 64 - first)

-- found_function, on sweep_function_pool_flags: was the function marked already?
unfoldable pub found_function : Flags → ℕ → Bool × Flags
found_function flags number =
    if bit (flags (number / 64)) (number % 64) == 1
    then (true, flags)
    else (false, mark flags (number / 64) (number % 64))

-- diffmask, in the half of sweepy_sweep that is about functions.
unfoldable pub diffmask : Flags → Flags → ℕ → ℕ
diffmask flags live x = (flags x + 2 ^ 64 - live x) % 2 ^ 64

-- The functions of the word `x` that the destructor is called for: the bits offset, offset + 1, ...
-- of the mask, `count` of them.
unfoldable pub destroyed_in : ℕ → ℕ → ℕ → ℕ → List ℕ
destroyed_in mask x offset zero = []
destroyed_in mask x offset (suc count) =
    let rest = destroyed_in mask x (offset + 1) count in
    if bit mask offset == 0 then rest else (x * 64 + offset) ∷ rest

-- What the loop does at the word `x`: the destructors it calls, and the flags it leaves.
unfoldable pub sweep_word : Flags → Flags → ℕ → Flags × List ℕ
unfolding diffmask destroyed_in
sweep_word flags live x =
    if diffmask flags live x == 0
    then (flags, [])
    else (λ y. if y == x then live x else flags y, destroyed_in (diffmask flags live x) x 0 64)

-- The loop over the words x, x + 1, ..., `count` of them.
unfoldable pub sweep_words : Flags → Flags → ℕ → ℕ → Flags × List ℕ
sweep_words flags live x zero = (flags, [])
sweep_words flags live x (suc count) =
    let here = sweep_word flags live x in
    let rest = sweep_words here.0 live (x + 1) count in (rest.0, here.1 ++ rest.1)

-- The end of sweepy_sweep: `live` is sweep_function_pool_flags. The result is the new
-- function_pool_flags and the functions whose destructor was called, in order.
unfoldable pub sweep_functions : Flags → Flags → Flags × List ℕ
sweep_functions flags live = sweep_words flags live 0 (function_pool_size / 64)
