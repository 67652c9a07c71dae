-- ===== src/Ast/FieldTypes.antt =====
-- The types of a program's fields, from src/ASTs.h.
use super_searcher.Base.{ℕ, zero, suc, List, [], ◌∷◌, ◌==◌, ltb, if◌then◌else◌}
use super_searcher.Types.{Tptr}
use super_searcher.Types.Tag as TypeTag
use super_searcher.Memory.State.{Cmd, pure, assert, read, ◌>>=◌, ◌>>◌}
use super_searcher.Creator.{concatenate_types}
use super_searcher.Ast.Tag
use super_searcher.Ast.Descriptor.{ast_entry}

-- The loop of get_AST_fields_type.
unfoldable pub ast_pointers : ℕ → List Tptr
ast_pointers zero = []
ast_pointers (suc n) = TypeTag.ast_pointer ∷ ast_pointers n

-- get_AST_fields_type; u::vector_of_ASTs is an argument.
unfoldable pub get_ast_fields_type : ℕ → Tptr → ℕ → Cmd Tptr
unfolding ast_pointers
get_ast_fields_type fuel vector_of_asts tag = do
  assert (ltb tag Tag.never_reached)
  if tag == Tag.imv
      then pure TypeTag.dynamic_object
      else if tag == Tag.basicblock
      then pure vector_of_asts
      else do
        info ← read (λ m. ast_entry tag)
        concatenate_types fuel (ast_pointers info.pointer_fields)

-- get_AST_full_type
unfoldable pub get_ast_full_type : ℕ → Tptr → ℕ → Cmd Tptr
get_ast_full_type fuel vector_of_asts tag = do
  fields ← get_ast_fields_type fuel vector_of_asts tag
  concatenate_types fuel (TypeTag.integer ∷ fields ∷ [])
