-- ===== src/Ast.antt =====
-- Programs as objects in memory, from src/ASTs.h, and the dynamic objects of src/dynamic.h. A uAST at
-- `t` has its tag at `t` and its fields behind; the field of a basic block is a vector, that of an
-- immediate value a dynamic object. An ArrayRef that a function takes is the list of its words.
pub mod Tag
pub mod Descriptor
pub mod Copy
pub mod FieldTypes
mod Tests
use super_searcher.Base.{
  ℕ, zero, suc, ◌+◌, ◌*◌, ◌/◌, Bool, true, false, not, List, [], ◌∷◌, ◌==◌, ltb, leb, if◌then◌else◌,
  length,
}
use super_searcher.Base.Result.{Result, ok, abort}
use super_searcher.Base.Result
use super_searcher.Types.{Mem, Tptr, addresses, get_size}
use super_searcher.Memory.{allocate}
use super_searcher.Memory.Objects.{read_words, write_words, store_words}
use super_searcher.Memory.State.{Machine, Cmd, pure, assert, write, load, store, read, ◌>>=◌, ◌>>◌}
use super_searcher.Vector
use super_searcher.Vector.{element}
use Descriptor.{AstInfo, ast_entry}

-- The address of fields[x].
abbrev pub field_at : ℕ → ℕ → ℕ
field_at t x = t + 8 * (x + 1)

-- get_field_size_of_AST
unfoldable pub get_field_size : ℕ → Result ℕ
unfolding ast_entry
get_field_size tag =
    if tag == Tag.imv
    then ok 1
    else if tag == Tag.basicblock
    then ok 1
    else Result.◌>>=◌ (ast_entry tag) (λ (info : AstInfo). ok info.pointer_fields)

-- get_full_size_of_AST
unfoldable pub get_full_size : ℕ → Result ℕ
get_full_size tag = Result.◌>>=◌ (get_field_size tag) (λ size. ok (size + 1))

-- vector_build, for the words of an ArrayRef.
unfoldable pub vector_of : List ℕ → Cmd ℕ
vector_of elements = do
  let reserved_size = 3 + length elements + length elements / 2
  new_location ← allocate (Vector.header + reserved_size)
  store new_location (length elements)
  store (new_location + 8) reserved_size
  store_words (element new_location 0) elements
  pure new_location

-- new_AST
unfoldable pub new_ast : ℕ → List ℕ → Cmd ℕ
new_ast tag fields = do
  assert (ltb tag Tag.never_reached)
  field_size ← read (λ m. get_field_size tag)
  total_full_size ← read (λ m. get_full_size tag)
  new_home ← allocate total_full_size
  store new_home tag
  if tag == Tag.basicblock
      then (do vec ← vector_of fields; store (field_at new_home 0) vec)
      else (do assert (field_size == length fields); store_words (field_at new_home 0) fields)
  pure new_home

-- new_dynamic_obj: the type is at the front, the object behind it is not written.
unfoldable pub new_dynamic_obj : Tptr → Cmd ℕ
new_dynamic_obj t = if t == 0 then pure 0 else do
  size ← read (λ m. get_size m t)
  new_dynamic ← allocate (size + 1)
  store new_dynamic t
  pure new_dynamic

-- copy_dynamic
unfoldable pub copy_dynamic : ℕ → Cmd ℕ
unfolding new_dynamic_obj
copy_dynamic dyn = if dyn == 0 then pure 0 else do
  type ← load dyn
  size ← read (λ m. get_size m type)
  assert (not (size == 0))
  mem_slot ← new_dynamic_obj type
  (λ s. pure mem_slot (record s { mem = Vector.copy_words s.mem (dyn + 8) (mem_slot + 8) size }))

-- copy_AST: the words that the fields refer to are read before the allocation, which writes none.
unfoldable pub copy_ast : ℕ → Cmd ℕ
copy_ast t = if t == 0 then pure 0 else do
  tag ← load t
  assert (ltb tag Tag.never_reached)
  total_field_size ← read (λ m. get_field_size tag)
  if tag == Tag.imv
      then (do k ← load (field_at t 0); copy ← copy_dynamic k; new_ast tag (copy ∷ []))
      else if tag == Tag.basicblock
      then (do
        k ← load (field_at t 0)
        size ← load k
        fields ← read (λ m. ok (read_words m (element k 0) size))
        new_ast tag fields)
      else (do
        fields ← read (λ m. ok (read_words m (field_at t 0) total_field_size))
        new_ast tag fields)

-- AST_field: the address of a field, or 0.
unfoldable pub ast_field : Mem → ℕ → ℕ → Result ℕ
ast_field m t offset =
    if t == 0
    then ok 0
    else if m t == Tag.imv
    then ok 0
    else if m t == Tag.basicblock
    then (let k = m (field_at t 0) in if ltb offset (m k) then ok (element k offset) else ok 0)
    else Result.◌>>=◌ (get_field_size (m t))
        (λ size. if ltb offset size then ok (field_at t offset) else ok 0)

-- AST_range: the addresses of the fields that are ASTs.
unfoldable pub ast_range : Mem → ℕ → Result (List ℕ)
ast_range m t =
    if t == 0
    then ok []
    else if m t == Tag.basicblock
    then ok (Vector.vector_range m (m (field_at t 0)))
    else Result.◌>>=◌ (ast_entry (m t))
        (λ (info : AstInfo). ok (addresses (field_at t 0) info.pointer_fields))
