-- ===== src/Runtime/Functions.antt =====
-- What src/runtime.h reads from a function, whose AST and return type are its first two words.
use super_searcher.Base.{ℕ, ◌+◌, ◌==◌, if◌then◌else◌}
use super_searcher.Types.{Mem, Tptr}
use super_searcher.Memory.State.{Cmd, pure, load, ◌>>=◌}
use super_searcher.Ast.Copy.{deep_ast_copier}

unfoldable pub ast_from_function : ℕ → ℕ → Cmd ℕ
ast_from_function fuel a =
    if a == 0 then pure 0 else do the_ast ← load a; deep_ast_copier fuel the_ast

unfoldable pub type_from_function : Mem → ℕ → Tptr
type_from_function m a = if a == 0 then 0 else m (a + 8)
