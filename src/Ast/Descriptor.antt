-- ===== src/Ast/Descriptor.antt =====
-- `AST_info` and `AST_descriptor[]` of src/ASTs.h, and `ASTn`.
use Prim.Native.String.{String}
use super_searcher.Base.{ℕ, ◌+◌, List, [], ◌∷◌, none, some, leb, if◌then◌else◌, length, get_elem?}
use super_searcher.Base.Result.{Result, ok, abort}
use super_searcher.Types.{Tptr}
use super_searcher.Types.Descriptor.{enum_from}
use super_searcher.Types.Tag

pub data SpecialType : Type 0 where
  normal missing_field compile_without_type_check special_return something_strange : SpecialType

-- compile_time_typeinfo, with its constructors for a type, for a state and for no argument.
pub record CompileTimeTypeinfo : Type 0 where
  pub state : SpecialType
  pub type : Tptr

abbrev pub of_type : Tptr → CompileTimeTypeinfo
of_type t = record { state = normal; type = t }

abbrev pub of_state : SpecialType → CompileTimeTypeinfo
of_state s = record { state = s; type = 0 }

abbrev pub no_type : CompileTimeTypeinfo
no_type = record { state = missing_field; type = 0 }

-- The array of parameter types holds no_type behind the listed ones.
pub record AstInfo : Type 0 where
  pub name : String
  pub return_object : CompileTimeTypeinfo
  pub parameter_types : List CompileTimeTypeinfo
  pub pointer_fields : ℕ
  pub fields_to_compile : ℕ
  pub additional_special_fields : ℕ

-- The constructor of AST_info.
unfoldable pub ast_info : String → CompileTimeTypeinfo → List CompileTimeTypeinfo → AstInfo
ast_info a r incoming_fields = record {
  name = a;
  return_object = r;
  parameter_types = incoming_fields;
  pointer_fields = length incoming_fields;
  fields_to_compile = length incoming_fields;
  additional_special_fields = 0;
}

unfoldable pub add_pointer_fields : ℕ → AstInfo → AstInfo
add_pointer_fields x info =
    let pointer_fields = info.pointer_fields + x in
    record info {
      pointer_fields = pointer_fields;
      fields_to_compile =
          if leb pointer_fields info.fields_to_compile
          then pointer_fields
          else info.fields_to_compile;
    }

unfoldable pub special_fields : ℕ → AstInfo → AstInfo
special_fields x info = record info { additional_special_fields = x }

unfoldable pub ast_descriptor : List AstInfo
unfolding ast_info add_pointer_fields special_fields
ast_descriptor =
    special_fields 1 (ast_info "imv" (of_state special_return) [])
    ∷ special_fields 1 (ast_info "basicblock" (of_state special_return) [])
    ∷ ast_info "zero" (of_type Tag.integer) []
    ∷ ast_info "decrement" (of_type Tag.integer) (of_type Tag.integer ∷ [])
    ∷ ast_info "increment" (of_type Tag.integer) (of_type Tag.integer ∷ [])
    ∷ ast_info "random" (of_type Tag.integer) []
    ∷ add_pointer_fields 2 (ast_info "if" (of_state special_return) (of_type Tag.integer ∷ []))
    ∷ ast_info "lessu" (of_type Tag.integer) (of_type Tag.integer ∷ of_type Tag.integer ∷ [])
    ∷ ast_info "lesss" (of_type Tag.integer) (of_type Tag.integer ∷ of_type Tag.integer ∷ [])
    ∷ ast_info "add" (of_type Tag.integer) (of_type Tag.integer ∷ of_type Tag.integer ∷ [])
    ∷ ast_info "subtract" (of_type Tag.integer) (of_type Tag.integer ∷ of_type Tag.integer ∷ [])
    ∷ ast_info "multiply" (of_type Tag.integer) (of_type Tag.integer ∷ of_type Tag.integer ∷ [])
    ∷ ast_info "ushr" (of_type Tag.integer) (of_type Tag.integer ∷ of_type Tag.integer ∷ [])
    ∷ ast_info "sshr" (of_type Tag.integer) (of_type Tag.integer ∷ of_type Tag.integer ∷ [])
    ∷ ast_info "shl" (of_type Tag.integer) (of_type Tag.integer ∷ of_type Tag.integer ∷ [])
    ∷ ast_info "udiv" (of_type Tag.integer) (of_type Tag.integer ∷ of_type Tag.integer ∷ [])
    ∷ ast_info "urem" (of_type Tag.integer) (of_type Tag.integer ∷ of_type Tag.integer ∷ [])
    ∷ add_pointer_fields 1 (ast_info "pointer" (of_state special_return) [])
    ∷ ast_info "tmp_pointer" (of_state special_return) (of_state compile_without_type_check ∷ [])
    ∷ ast_info "concatenate" (of_state special_return)
        (of_state compile_without_type_check ∷ of_state compile_without_type_check ∷ [])
    ∷ ast_info "nvec" (of_state special_return) (of_type Tag.type_pointer ∷ [])
    ∷ ast_info "dynamify" (of_type Tag.dynamic_object) (of_state compile_without_type_check ∷ [])
    ∷ ast_info "compile" (of_type Tag.function_pointer) (of_state compile_without_type_check ∷ [])
    ∷ ast_info "overfunc" (of_type Tag.integer)
        (of_type Tag.function_pointer ∷ of_type Tag.function_pointer ∷ [])
    ∷ ast_info "run_function" (of_type Tag.dynamic_object) (of_type Tag.function_pointer ∷ [])
    ∷ add_pointer_fields 1 (ast_info "goto" (of_type 0) [])
    ∷ add_pointer_fields 1 (ast_info "label" (of_type 0) [])
    ∷ ast_info "convert_to_AST" (of_type Tag.ast_pointer)
        (of_type Tag.integer ∷ of_state compile_without_type_check ∷ [])
    ∷ ast_info "imv_AST" (of_type Tag.ast_pointer) (of_type Tag.dynamic_object ∷ [])
    ∷ ast_info "store" (of_type 0)
        (of_state compile_without_type_check ∷ of_state compile_without_type_check ∷ [])
    ∷ ast_info "try_store" (of_type Tag.integer)
        (of_state compile_without_type_check ∷ of_state compile_without_type_check ∷ [])
    ∷ ast_info "load_subobj" (of_state special_return)
        (of_state compile_without_type_check ∷ of_type Tag.integer ∷ [])
    ∷ add_pointer_fields 1 (
        ast_info "load_subobj_ref" (of_type 0)
          (of_state compile_without_type_check ∷ of_type Tag.integer ∷ []))
    ∷ add_pointer_fields 8 (
        ast_info "dyn_subobj" (of_type Tag.type_pointer)
          (of_state compile_without_type_check ∷ of_type Tag.integer ∷ []))
    ∷ ast_info "vecpb" (of_type 0)
        (of_state compile_without_type_check ∷ of_state compile_without_type_check ∷ [])
    ∷ ast_info "vecsz" (of_type Tag.integer) (of_state compile_without_type_check ∷ [])
    ∷ ast_info "typeof" (of_type Tag.type_pointer) (of_state compile_without_type_check ∷ [])
    ∷ ast_info "system1" (of_type Tag.integer) (of_type Tag.integer ∷ [])
    ∷ ast_info "system2" (of_type Tag.integer) (of_type Tag.integer ∷ of_type Tag.integer ∷ [])
    ∷ ast_info "agency1" (of_type 0) (of_type Tag.integer ∷ [])
    ∷ ast_info "agency2" (of_type 0) (of_type Tag.integer ∷ of_type Tag.integer ∷ [])
    ∷ ast_info "load_tag" (of_type Tag.integer) (of_state compile_without_type_check ∷ [])
    ∷ add_pointer_fields 1 (ast_info "load_imv_from_AST" (of_type 0) (of_type Tag.ast_pointer ∷ []))
    ∷ add_pointer_fields 1
        (ast_info "load_vector_from_BB" (of_type 0) (of_type Tag.ast_pointer ∷ []))
    ∷ ast_info "get_event_loop" (of_type Tag.function_pointer) []
    ∷ ast_info "never reached" (of_state special_return) []
    ∷ []

-- ASTn
unfoldable pub astn : String → Result ℕ
unfolding enum_from ast_descriptor
astn name = enum_from (λ (t : AstInfo). t.name) ast_descriptor name 0

-- AST_descriptor[tag]
unfoldable pub ast_entry : ℕ → Result AstInfo
unfolding ast_descriptor
ast_entry tag = elim (get_elem? ast_descriptor tag) [ none ↦ abort | some t ↦ ok t ]

-- parameter_types[x], for x below max_fields_in_AST.
unfoldable pub parameter_type : AstInfo → ℕ → CompileTimeTypeinfo
parameter_type info x = elim (get_elem? info.parameter_types x) [ none ↦ no_type | some c ↦ c ]
