-- ===== src/Ast/Copy.antt =====
-- Copies of programs from src/helperfunctions.h: copy_object and deep_AST_copier.
use super_searcher.Base.{
  ℕ, zero, suc, ◌+◌, not, List, [], ◌∷◌, ◌==◌, Option, none, some, if◌then◌else◌,
}
use super_searcher.Base.Result.{ok, out_of_fuel}
use super_searcher.Memory.{allocate}
use super_searcher.Memory.State.{Cmd, pure, assert, load, store, read, ◌>>=◌, ◌>>◌}
use super_searcher.Vector
use super_searcher.Ast.{field_at, copy_ast}
use super_searcher.Ast.Descriptor.{ast_entry}

-- copy_object
unfoldable pub copy_object : ℕ → ℕ → Cmd ℕ
copy_object total_size pointer = do
  assert (not (total_size == 0))
  new_memory ← allocate total_size
  (λ s. pure new_memory (record s { mem = Vector.copy_words s.mem pointer new_memory total_size }))

-- copy_mapper, from programs to their copies.
abbrev pub Mapper : Type 0
Mapper = List (ℕ × ℕ)

unfoldable pub find_copy : ℕ → Mapper → Option ℕ
find_copy t [] = none
find_copy t ((original, copy) ∷ rest) = if t == original then some copy else find_copy t rest

-- The loop of internal_copy over the fields x, x + 1, ... of the copy, `count` of them, where `copy`
-- stands for internal_copy.
unfoldable pub copy_fields : (ℕ → Mapper → Cmd (ℕ × Mapper)) → ℕ → ℕ → ℕ → Mapper → Cmd Mapper
copy_fields copy target x zero mapper = pure mapper
copy_fields copy target x (suc count) mapper = do
  pointer ← load (field_at target x)
  copied ← copy pointer mapper
  store (field_at target x) copied.0
  copy_fields copy target (x + 1) count copied.1

-- internal_copy: the copy, and the new copy_mapper. The recursion follows programs that have no copy
-- yet, and takes fuel.
unfoldable pub internal_copy : ℕ → ℕ → Mapper → Cmd (ℕ × Mapper)
internal_copy zero user_target mapper s = out_of_fuel
internal_copy (suc fuel) user_target mapper s = elim (find_copy user_target mapper) [
  | some target ↦ ok ((target, mapper), s)
  | none ↦
      (do
        target ← copy_ast user_target
        tag ← load target
        info ← read (λ m. ast_entry tag)
        mapper' ←
            copy_fields (internal_copy fuel) target 0 info.pointer_fields
              ((user_target, target) ∷ mapper)
        pure (target, mapper'))
        s
]

-- deep_AST_copier
unfoldable pub deep_ast_copier : ℕ → ℕ → Cmd ℕ
deep_ast_copier fuel starter = do result ← internal_copy fuel starter ((0, 0) ∷ []); pure result.0
