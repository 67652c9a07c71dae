-- ===== src/Runtime/Agreement.antt =====
-- Functions of src/runtime.h that repeat others: of src/ASTs.h, of src/types.h and of each other.
use super_searcher.Base.{
  ℕ, ◌+◌, ◌≡◌, refl, ◌⊎◌, inl, inr, ◌==◌, leb, if◌then◌else◌, Bool-cases, arith,
}
use super_searcher.Base.Result.{Result, ok, abort, out_of_fuel, ◌>>=◌}
use super_searcher.Types.{Mem, Tptr, ver, field, get_offset_type}
use super_searcher.Types.Tag
use super_searcher.Vector.{reference_at}
use super_searcher.Ast.{get_field_size, ast_field}
use super_searcher.Runtime.{ast_subfield, type_subfield, dynamic_subtype}

-- The functions AST_subfield, of the run time, and AST_field, of the compiler, give the same address
-- on every word and at every offset, and the same failure where a tag is not in the table.
pub ast_subfield-ast_field :
    (m : Mem) (t offset : ℕ) → ast_subfield m t offset ≡ ast_field m t offset
unfolding ast_subfield ast_field get_field_size reference_at
ast_subfield-ast_field m t offset = ground arith

ver_null : (m : Mem) → ver m 0 ≡ 0
unfolding ver
ver_null m = refl

-- A type beside its tag.
abbrev with_tag : Mem → Tptr → Result (Tptr × ℕ)
with_tag m t = ok (t, ver m t)

abbrev no_subtype : Result (Tptr × ℕ)
no_subtype = ok (0, 0)

sub_branch :
    (m : Mem) (r : Result ℕ) (sub : Result Tptr) (offset : ℕ)
    → (r >>= λ size. if leb size offset then no_subtype else sub >>= with_tag m)
      ≡ ((r >>= λ size. if leb size offset then ok 0 else sub) >>= with_tag m)
sub_branch m out_of_fuel sub offset = refl
sub_branch m abort sub offset = refl
sub_branch m (ok size) sub offset = elim (Bool-cases (leb size offset)) [
  | inl past ↦ rw (past, ver_null m) refl
  | inr inside ↦ rw inside refl
]

dynamic_subtype-type_subfield :
    (m : Mem) (t : Tptr) (offset : ℕ)
    → dynamic_subtype m t offset ≡ (type_subfield m t offset >>= λ sub. ok (sub, ver m sub))
unfolding dynamic_subtype type_subfield
dynamic_subtype-type_subfield m t offset = elim (Bool-cases (t == 0)) [
  | inl null ↦ rw (null, ver_null m) refl
  | inr some_type ↦ elim (Bool-cases (ver m t == Tag.con_vec)) [
    | inl concatenation ↦
        rw (some_type, concatenation) (sub_branch m (field m t 0) (field m t (offset + 1)) offset)
    | inr single ↦ elim (Bool-cases (offset == 0)) [
      | inl here ↦ rw (some_type, single, here) refl
      | inr past ↦ rw (some_type, single, past, ver_null m) refl
    ]
  ]
]

-- Except at the null type, type_subfield gives what get_offset_type gives; dynamic_subtype gives the
-- same type, with its tag, at the null type too.
pub type_subfield-get_offset_type :
    (m : Mem) (t : Tptr) (offset : ℕ)
    → ((t ≡ 0) ⊎ (type_subfield m t offset ≡ get_offset_type m t offset))
      × (dynamic_subtype m t offset ≡ (type_subfield m t offset >>= λ sub. ok (sub, ver m sub)))
unfolding type_subfield get_offset_type
type_subfield-get_offset_type m t offset = (ground arith, dynamic_subtype-type_subfield m t offset)
