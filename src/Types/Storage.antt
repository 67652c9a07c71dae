-- ===== src/Types/Storage.antt =====
-- `is_full` of src/types.h: which objects may be placed in the heap. It looks at the tags of a type
-- and of its components, so a type is described here by these: also the types that exist in functions
-- only, which have no tree.
use super_searcher.Base.{
  ℕ, suc, ◌+◌, ◌≤◌, ◌<◌, ◌≡◌, refl, ◌∙◌, Bool, true, false, ◌&&◌, inl, inr, Bool-cases, arith, List,
  [], ◌∷◌, ◌==◌, length,
}
use super_searcher.Base.Result.{ok}
use super_searcher.Types.{
  Mem, Tptr, ver, info, field_address, addresses, type_pointer_range, single_is_full, all_full,
  is_full,
}
use super_searcher.Types.Tag
use super_searcher.Types.Tree.{
  temp_pointer, Leaf, Wrap, con_vec, Tys, count, leaf_tag, wrap_tag, leaf_tag_bounds,
  wrap_tag_bounds, Rep, ver-address, field-address,
}

pub data FunctionOnly : Type 0 where
  pointer_to_something vector_of_something does_not_return : FunctionOnly

-- A type that is no concatenation: its tag is the word itself, or it stands in a type object.
pub data Part : Type 0 where
  immediate : Leaf → Part
  object : Wrap → Part
  only : FunctionOnly → Part

pub data Shape : Type 0 where
  null_type : Shape
  one : Part → Shape
  concatenation : List Part → Shape

abbrev only_tag : FunctionOnly → ℕ
only_tag pointer_to_something = Tag.pointer_to_something
only_tag vector_of_something = Tag.vector_of_something
only_tag does_not_return = Tag.does_not_return

abbrev pub IsPart : Mem → Tptr → Part → Type 0
IsPart m v (immediate k) = v ≡ leaf_tag k
IsPart m v (object w) = (Tag.never_reached < v) × (m v ≡ wrap_tag w)
IsPart m v (only f) = v ≡ only_tag f

abbrev pub AreParts : Mem → ℕ → List Part → Type 0
AreParts m a [] = Unit
AreParts m a (p ∷ ps) = IsPart m (m a) p × AreParts m (a + 8) ps

-- Memory has a type of this shape at the `Tptr`.
abbrev pub HasShape : Mem → Tptr → Shape → Type 0
HasShape m v null_type = v ≡ 0
HasShape m v (one p) = IsPart m v p
HasShape m v (concatenation ps) =
    (Tag.never_reached < v)
    × (m v ≡ Tag.con_vec)
    × (m (v + 8) ≡ length ps)
    × (2 ≤ length ps)
    × AreParts m (v + 16) ps

-- A temporary pointer and the types that exist in functions only are kept out of the heap, on their
-- own and as components.
abbrev pub part_storable : Part → Bool
part_storable (immediate k) = true
part_storable (object temp_pointer) = false
part_storable (object w) = true
part_storable (only f) = false

abbrev pub parts_storable : List Part → Bool
parts_storable [] = true
parts_storable (p ∷ ps) = part_storable p && parts_storable ps

abbrev pub storable : Shape → Bool
storable null_type = true
storable (one p) = part_storable p
storable (concatenation ps) = parts_storable ps

is_full-part :
    (fuel : ℕ) (m : Mem) (v : Tptr) (p : Part)
    → IsPart m v p
    → is_full (suc fuel) m v ≡ ok (part_storable p)
unfolding is_full single_is_full ver
is_full-part fuel m v (immediate k) h = ground (arith, leaf_tag_bounds k)
is_full-part fuel m v (object w) h = ground (arith, wrap_tag_bounds w)
is_full-part fuel m v (only f) h = ground arith

all_full-parts :
    (fuel : ℕ) (m : Mem) (a : ℕ) (ps : List Part)
    → AreParts m a ps
    → all_full (is_full (suc fuel) m) m (addresses a (length ps)) ≡ ok (parts_storable ps)
unfolding all_full addresses
all_full-parts fuel m a [] h = refl
all_full-parts fuel m a (p ∷ ps) h =
    rw (is_full-part fuel m (m a) p h.0) (elim (Bool-cases (part_storable p)) [
      | inl stored ↦ rw stored (all_full-parts fuel m (a + 8) ps h.1)
      | inr kept_out ↦ rw kept_out refl
    ])

-- The addresses of the components of a concatenation.
range-parts :
    (m : Mem) (v : Tptr) (n : ℕ)
    → Tag.never_reached < v
    → m v ≡ Tag.con_vec
    → m (v + 8) ≡ n
    → 2 ≤ n
    → type_pointer_range m v ≡ ok (addresses (v + 16) n)
unfolding type_pointer_range info field_address
range-parts m v n address tag size some_parts =
    let heads : (v == 0) ≡ false = ground arith in
    rw (heads, ver-address m v address ∙ tag, field-address m v 0 address, size) (ground arith)

pub range-components :
    (m : Mem) (v : Tptr) (ts : Tys)
    → Rep m v (con_vec ts)
    → type_pointer_range m v ≡ ok (addresses (v + 16) (count ts))
range-components m v ts h = range-parts m v (count ts) h.0 h.1 h.2 h.3

-- On the null type, on every type that is no concatenation, those that exist in functions only
-- included, and on every concatenation of at least two of these, two rounds are enough for `is_full`.
-- It answers false exactly for temporary pointers, for types that exist in functions only, and for
-- concatenations that have one of these as a component.
pub is_full-storable :
    (fuel : ℕ) (m : Mem) (v : Tptr) (t : Shape)
    → HasShape m v t
    → is_full (suc (suc fuel)) m v ≡ ok (storable t)
unfolding is_full
is_full-storable fuel m v null_type h = rw h refl
is_full-storable fuel m v (one p) h = is_full-part (suc fuel) m v p h
is_full-storable fuel m v (concatenation ps) h =
    let heads : (v == 0) ≡ false = ground (arith, h.0) in
    rw
      (
        heads,
        ver-address m v h.0 ∙ h.1,
        range-parts m v (length ps) h.0 h.1 h.2 h.3,
        all_full-parts fuel m (v + 16) ps h.4,
      )
      refl
