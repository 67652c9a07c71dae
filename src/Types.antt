-- ===== src/Types.antt =====
-- Type objects, from src/types.h. A `Tptr` is a 64-bit word: 0 for the null type, a tag for a type
-- without fields, and otherwise the address of {tag, fields...}. Memory maps byte addresses to
-- the 64-bit words that start there; a load from an address that nobody wrote is some word.
-- Reading the descriptor table past its end, which is undefined in C++, counts as `abort`.
pub mod Tag
pub mod Descriptor
pub mod Check
pub mod Tree
pub mod Compare
pub mod Sizes
pub mod Storage
pub mod Verdicts
pub mod Unique
mod Tests
use super_searcher.Base.{
  ℕ, zero, suc, ◌+◌, ◌*◌, Bool, true, false, Option, none, some, List, [], ◌∷◌, ◌==◌, ◌||◌, ltb,
  leb, if◌then◌else◌, get_elem?,
}
use super_searcher.Base.Result.{Result, ok, abort, out_of_fuel, ◌>>=◌, ◌>>◌, check}
use Descriptor.{TypeInfo, type_descriptor, minus_one}

abbrev pub Mem : Type 0
Mem = ℕ → ℕ

-- sizeof(uint64_t)
abbrev pub word : ℕ
word = 8

abbrev pub Tptr : Type 0
Tptr = ℕ

-- Type_descriptor[tag]
unfoldable pub info : ℕ → Result TypeInfo
info tag = elim (get_elem? type_descriptor tag) [ none ↦ abort | some t ↦ ok t ]

-- Tptr::ver
unfoldable pub ver : Mem → Tptr → ℕ
ver m val = if val == 0 then 0 else if ltb Tag.never_reached val then m val else val

-- The address that Tptr::field(offset) refers to.
unfoldable pub field_address : Tptr → ℕ → Result ℕ
field_address val offset = do check (ltb Tag.never_reached val); ok (val + word * (offset + 1))

-- Tptr::field, read.
unfoldable pub field : Mem → Tptr → ℕ → Result Tptr
unfolding field_address
field m val offset = do a ← field_address val offset; ok (m a)

-- The addresses start, start + 8, ..., `count` of them.
unfoldable pub addresses : ℕ → ℕ → List ℕ
addresses start zero = []
addresses start (suc count) = start ∷ addresses (start + word) count

-- Type_pointer_range: the addresses of the fields that are types.
unfoldable pub type_pointer_range : Mem → Tptr → Result (List ℕ)
type_pointer_range m t = if t == 0 then ok [] else do
  d ← info (ver m t)
  if d.pointer_fields == 0
      then ok []
      else if ver m t == Tag.con_vec
      then (do first ← field_address t 1; count ← field m t 0; ok (addresses first count))
      else (do first ← field_address t 0; ok (addresses first d.pointer_fields))

-- total_valid_fields
unfoldable pub total_valid_fields : Mem → Tptr → Result ℕ
total_valid_fields m t =
    if ver m t == Tag.con_vec
    then (do count ← field m t 0; ok (count + 1))
    else (do d ← info (ver m t); ok d.pointer_fields)

-- get_size
unfoldable pub get_size : Mem → Tptr → Result ℕ
get_size m target = if target == 0 then ok 0 else do
  d ← info (ver m target)
  if d.size == minus_one
      then (if ver m target == Tag.con_vec
          then (do count ← field m target 0; check (ltb 1 count); ok count)
          else abort)
      else ok d.size

-- get_offset_type
unfoldable pub get_offset_type : Mem → Tptr → ℕ → Result Tptr
get_offset_type m target offset =
    if target == 0
    then abort
    else if ver m target == Tag.con_vec
    then (do
      count ← field m target 0
      if ltb offset count then field m target (offset + 1) else ok 0)
    else if offset == 0
    then ok target
    else ok 0

-- is_zeroable
unfoldable pub is_zeroable : Tptr → Bool
is_zeroable t =
    (t == Tag.integer)
    || (t == Tag.dynamic_object)
    || (t == Tag.ast_pointer)
    || (t == Tag.type_pointer)
    || (t == Tag.function_pointer)

-- The tests that `is_full` makes of a type that is no concatenation.
unfoldable pub single_is_full : ℕ → Bool
single_is_full tag =
    if tag == Tag.pointer_to_something
    then false
    else if tag == Tag.vector_of_something
    then false
    else if tag == Tag.temp_pointer
    then false
    else if tag == Tag.does_not_return
    then false
    else true

-- The loop of `is_full` over the components, each tested by `full`.
unfoldable pub all_full : (Tptr → Result Bool) → Mem → List ℕ → Result Bool
all_full full m [] = ok true
all_full full m (a ∷ rest) = do
  passed ← full (m a)
  if passed then all_full full m rest else ok false

-- is_full: may an object of the type be placed in the heap? The recursion takes fuel.
unfoldable pub is_full : ℕ → Mem → Tptr → Result Bool
is_full zero m t = out_of_fuel
is_full (suc fuel) m t =
    let con_vec : Result Bool = (do
      fields ← type_pointer_range m t
      all_full (is_full fuel m) m fields) in
    if t == 0
    then ok true
    else if ver m t == Tag.con_vec
    then con_vec
    else ok (single_is_full (ver m t))
