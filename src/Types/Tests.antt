-- ===== src/Types/Tests.antt =====
-- Runs of the functions of src/types.h and src/types.cpp on a small memory, and the theorems there.
use super_searcher.Base.{
  ℕ, ◌+◌, ◌<◌, ◌≡◌, refl, sym, ◌∙◌, ◌↔◌, ◌⊎◌, inl, true, false, none, some, List, [], ◌∷◌, ◌==◌,
  if◌then◌else◌, arith,
}
use super_searcher.Base.Result.{ok, abort}
use super_searcher.Types.{
  Mem, Tptr, info, ver, field, type_pointer_range, single_is_full, all_full, get_size,
  get_offset_type, total_valid_fields, is_zeroable, is_full, addresses,
}
use super_searcher.Types.Tag
use super_searcher.Types.Descriptor.{typen}
use super_searcher.Types.Check.{rvo, reference, perfect_fit, different, type_check}
use super_searcher.Types.Compare.{compare}
use super_searcher.Types.Compare.Code.{type_check-compare}
use super_searcher.Types.Verdicts.{type_check-eq, pointer_store_ignores_pointee}
use super_searcher.Types.Sizes.{component, perfect_fit-get_size, get_offset_type-component}
use super_searcher.Types.Storage.{
  immediate, only, pointer_to_something, concatenation, is_full-storable,
}
use super_searcher.Types.Unique.{hash, equal_to, hash_fields, fields_equal}
use super_searcher.Types.Unique.Contract.{equal_to-eq, hash-equal_to}
use super_searcher.Types.Tree.{
  integer, type_pointer, pointer, Ty, leaf, wrap, con_vec, Tys, nil, cons, IsSingle, Rep,
}

abbrev image : List (ℕ × ℕ) → Mem
image [] a = 0
image ((b, v) ∷ rest) a = if a == b then v else image rest a

-- At 96 and 112 a pointer to an integer, at 128 a pointer to a type, at 144 an integer beside the
-- pointer at 96.
abbrev sample : Mem
sample = image (
    (96, 7)
    ∷ (104, 1)
    ∷ (112, 7)
    ∷ (120, 1)
    ∷ (128, 7)
    ∷ (136, 4)
    ∷ (144, 0)
    ∷ (152, 2)
    ∷ (160, 1)
    ∷ (168, 96)
    ∷ [])

abbrev to_integer : Ty
to_integer = wrap pointer (leaf integer)

abbrev to_type : Ty
to_type = wrap pointer (leaf type_pointer)

abbrev both : Tys
both = cons (leaf integer) (cons to_integer nil)

-- The tags are the positions of the names in the table.
tags_con_vec : typen "con_vec" ≡ ok Tag.con_vec
unfolding typen
tags_con_vec = refl

tags_pointer : typen "pointer" ≡ ok Tag.pointer
unfolding typen
tags_pointer = refl

tags_vector_of_something : typen "vector of something" ≡ ok Tag.vector_of_something
unfolding typen
tags_vector_of_something = refl

tags_never_reached : typen "never reached" ≡ ok Tag.never_reached
unfolding typen
tags_never_reached = refl

tags_unknown : typen "lock" ≡ abort
unfolding typen
tags_unknown = refl

same_pointee : type_check 2 sample rvo 96 112 ≡ ok perfect_fit
unfolding type_check ver field
same_pointee = refl

other_pointee_reference : type_check 2 sample reference 96 128 ≡ ok different
unfolding type_check ver field
other_pointee_reference = refl

other_pointee_store : type_check 2 sample rvo 128 96 ≡ ok perfect_fit
unfolding type_check ver field
other_pointee_store = refl

whole_object : get_size sample 144 ≡ ok 2
unfolding get_size info ver field
whole_object = refl

gc_size : total_valid_fields sample 144 ≡ ok 3
unfolding total_valid_fields info ver field
gc_size = refl

storable_object : is_full 2 sample 144 ≡ ok true
unfolding is_full type_pointer_range single_is_full all_full info ver field addresses
storable_object = refl

zeroable : is_zeroable Tag.integer ≡ true
unfolding is_zeroable
zeroable = refl

not_zeroable : is_zeroable 96 ≡ false
unfolding is_zeroable
not_zeroable = refl

to_integer-Rep : (v : Tptr) → 12 < v → sample v ≡ 7 → sample (v + 8) ≡ 1 → Rep sample v to_integer
to_integer-Rep v h tag pointee = (h, tag, pointee)

to_type-Rep : Rep sample 128 to_type
to_type-Rep = (omega arith, refl, refl)

both-Rep : Rep sample 144 (con_vec both)
both-Rep = (omega arith, refl, refl, omega arith, (refl, tt, ((omega arith, refl, refl), tt, tt)))

type_check-compare_example :
    type_check 3 sample rvo 144 144 ≡ ok (compare rvo (con_vec both) (con_vec both))
type_check-compare_example =
    type_check-compare 3 sample rvo 144 144 (con_vec both) (con_vec both) (omega arith) both-Rep
      both-Rep

type_check-eq_example :
    (type_check 2 sample reference 96 128 ≡ ok perfect_fit) ↔ (to_integer ≡ to_type)
type_check-eq_example =
    type_check-eq 2 sample 96 128 to_integer to_type (omega arith)
      (to_integer-Rep 96 (omega arith) refl refl) to_type-Rep

pointer_store_ignores_pointee_example : type_check 2 sample rvo 128 96 ≡ ok perfect_fit
pointer_store_ignores_pointee_example =
    pointer_store_ignores_pointee 2 sample 128 96 pointer pointer (leaf type_pointer) (leaf integer)
      (omega arith) (inl refl) to_type-Rep (to_integer-Rep 96 (omega arith) refl refl)

perfect_fit-get_size_example :
    (size : ℕ) × (get_size sample 144 ≡ ok size) × (get_size sample 144 ≡ ok size)
unfolding type_check
perfect_fit-get_size_example =
    perfect_fit-get_size 3 sample rvo 144 144 (con_vec both) (con_vec both) (omega arith) both-Rep
      both-Rep refl

get_offset_type-component_example :
    ((component both 1 ≡ none) × (get_offset_type sample 144 1 ≡ ok 0))
    ⊎ ((u : Tptr) × (t : Ty) × (component both 1 ≡ some t)
        × (get_offset_type sample 144 1 ≡ ok u)
        × Rep sample u t
        × IsSingle t)
get_offset_type-component_example = get_offset_type-component sample 144 both 1 both-Rep

-- At 16 an integer beside a type that exists in functions only.
abbrev mixed : Mem
mixed = image ((16, 0) ∷ (24, 2) ∷ (32, 1) ∷ (40, 9) ∷ [])

is_full-storable_example : is_full 2 mixed 16 ≡ ok false
is_full-storable_example =
    is_full-storable 0 mixed 16 (concatenation (immediate integer ∷ only pointer_to_something ∷ []))
      (omega arith, refl, refl, omega arith, (refl, (refl, tt)))

equal_in_table : equal_to sample 96 112 ≡ ok true
unfolding equal_to fields_equal mathlib.Core.Bool.xor total_valid_fields info ver field
equal_in_table = refl

different_in_table : equal_to sample 96 128 ≡ ok false
unfolding equal_to fields_equal mathlib.Core.Bool.xor total_valid_fields info ver field
different_in_table = refl

hash_of_object : hash sample 144 ≡ ok 99
unfolding hash hash_fields total_valid_fields info ver field
hash_of_object = refl

equal_to-eq_example : (equal_to sample 96 112 ≡ ok true) ↔ (to_integer ≡ to_integer)
equal_to-eq_example =
    equal_to-eq (λ v. v ≡ 1) sample (λ v w u pv pw hv hw. pv ∙ sym pw) 96 112 to_integer to_integer
      (to_integer-Rep 96 (omega arith) refl refl) (to_integer-Rep 112 (omega arith) refl refl) refl
      refl

hash-equal_to_example : (h : ℕ) × (hash sample 96 ≡ ok h) × (hash sample 112 ≡ ok h)
hash-equal_to_example =
    hash-equal_to sample 96 112 to_integer to_integer (to_integer-Rep 96 (omega arith) refl refl)
      (to_integer-Rep 112 (omega arith) refl refl) equal_in_table
