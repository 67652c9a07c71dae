-- ===== src/Runtime/Objects.antt =====
-- The functions of src/runtime.h that build programs at run time.
use super_searcher.Base.{ℕ, zero, suc, ◌+◌, List, [], ◌∷◌, ◌==◌, ltb, leb, if◌then◌else◌}
use super_searcher.Base.Result.{ok}
use super_searcher.Types.{Mem}
use super_searcher.Memory.{allocate}
use super_searcher.Memory.Objects.{read_words, store_words, new_object_value}
use super_searcher.Memory.State.{Cmd, pure, store, read, ◌>>=◌, ◌>>◌}
use super_searcher.Vector.{element}
use super_searcher.Ast.{field_at, get_field_size, get_full_size, new_ast}
use super_searcher.Ast.Tag as AstTag

-- The fields of vector_to_AST's object: the elements of the vector, then zeros.
unfoldable pub padded_fields : Mem → ℕ → ℕ → ℕ → List ℕ
padded_fields m vec x zero = []
padded_fields m vec x (suc count) =
    (if vec == 0 then 0 else if ltb x (m vec) then m (element vec x) else 0)
    ∷ padded_fields m vec (x + 1) count

-- vector_to_AST
unfoldable pub vector_to_ast : ℕ → ℕ → Cmd ℕ
vector_to_ast tag vec =
    if leb AstTag.never_reached tag
    then pure 0
    else if tag == AstTag.imv
    then pure 0
    else if tag == AstTag.basicblock
    then (if vec == 0 then new_ast tag [] else (do
      fields ← read (λ m. ok (read_words m (element vec 0) (m vec)))
      new_ast tag fields))
    else do
      field_size ← read (λ m. get_field_size tag)
      size ← read (λ m. get_full_size tag)
      ast ← allocate size
      store ast tag
      fields ← read (λ m. ok (padded_fields m vec 0 field_size))
      store_words (field_at ast 0) fields
      pure ast

unfoldable pub new_imv_ast : ℕ → Cmd ℕ
new_imv_ast dyn = new_object_value (AstTag.imv ∷ dyn ∷ [])

unfoldable pub no_vector_to_ast : ℕ → Cmd ℕ
no_vector_to_ast tag = vector_to_ast tag 0
