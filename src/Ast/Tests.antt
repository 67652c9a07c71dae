-- ===== src/Ast/Tests.antt =====
-- The names of Ast/Tag against the table of src/ASTs.h, and runs of the functions there.
use Prim.Native.String.{String}
use super_searcher.Base.{ℕ, List, [], ◌∷◌, ◌≡◌, refl}
use super_searcher.Base.Result.{Result, ok, abort}
use super_searcher.Types.Descriptor.{enum_from}
use super_searcher.Ast.{get_field_size, get_full_size}
use super_searcher.Ast.Tag
use super_searcher.Ast.Descriptor.{
  astn, ast_descriptor, ast_entry, ast_info, add_pointer_fields, special_fields,
}

abbrev names : List String
names =
    "imv" ∷ "basicblock" ∷ "zero" ∷ "decrement" ∷ "increment" ∷ "random" ∷ "if" ∷ "lessu" ∷ "lesss"
    ∷ "add" ∷ "subtract" ∷ "multiply" ∷ "ushr" ∷ "sshr" ∷ "shl" ∷ "udiv" ∷ "urem" ∷ "pointer"
    ∷ "tmp_pointer" ∷ "concatenate" ∷ "nvec" ∷ "dynamify" ∷ "compile" ∷ "overfunc" ∷ "run_function"
    ∷ "goto" ∷ "label" ∷ "convert_to_AST" ∷ "imv_AST" ∷ "store" ∷ "try_store" ∷ "load_subobj"
    ∷ "load_subobj_ref" ∷ "dyn_subobj" ∷ "vecpb" ∷ "vecsz" ∷ "typeof" ∷ "system1" ∷ "system2"
    ∷ "agency1" ∷ "agency2" ∷ "load_tag" ∷ "load_imv_from_AST" ∷ "load_vector_from_BB"
    ∷ "get_event_loop" ∷ "never reached" ∷ []

abbrev tags : List ℕ
tags =
    Tag.imv ∷ Tag.basicblock ∷ Tag.zero ∷ Tag.decrement ∷ Tag.increment ∷ Tag.random ∷ Tag.if_else
    ∷ Tag.lessu ∷ Tag.lesss ∷ Tag.add ∷ Tag.subtract ∷ Tag.multiply ∷ Tag.ushr ∷ Tag.sshr ∷ Tag.shl
    ∷ Tag.udiv ∷ Tag.urem ∷ Tag.pointer ∷ Tag.tmp_pointer ∷ Tag.concatenate ∷ Tag.nvec
    ∷ Tag.dynamify ∷ Tag.compile ∷ Tag.overfunc ∷ Tag.run_function ∷ Tag.goto ∷ Tag.label
    ∷ Tag.convert_to_ast ∷ Tag.imv_ast ∷ Tag.store ∷ Tag.try_store ∷ Tag.load_subobj
    ∷ Tag.load_subobj_ref ∷ Tag.dyn_subobj ∷ Tag.vecpb ∷ Tag.vecsz ∷ Tag.typeof ∷ Tag.system1
    ∷ Tag.system2 ∷ Tag.agency1 ∷ Tag.agency2 ∷ Tag.load_tag ∷ Tag.load_imv_from_ast
    ∷ Tag.load_vector_from_bb ∷ Tag.get_event_loop ∷ Tag.never_reached ∷ []

abbrev looked_up : List String → List (Result ℕ)
unfolding astn enum_from ast_descriptor ast_info add_pointer_fields special_fields
looked_up [] = []
looked_up (name ∷ rest) = astn name ∷ looked_up rest

abbrev all_ok : List ℕ → List (Result ℕ)
all_ok [] = []
all_ok (tag ∷ rest) = ok tag ∷ all_ok rest

tags_of_table : looked_up names ≡ all_ok tags
unfolding astn enum_from ast_descriptor ast_info add_pointer_fields special_fields
tags_of_table = refl

unknown_name : astn "print" ≡ abort
unfolding astn enum_from ast_descriptor ast_info add_pointer_fields special_fields
unknown_name = refl

-- Tag 6 is "if".
sizes : (get_field_size 6 ≡ ok 3) × (get_full_size 1 ≡ ok 2) × (get_field_size 46 ≡ abort)
unfolding get_full_size get_field_size ast_entry ast_descriptor ast_info add_pointer_fields
    special_fields
sizes = (refl, refl, refl)
