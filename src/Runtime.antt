-- ===== src/Runtime.antt =====
-- The functions of src/runtime.h that compiled programs call. Runtime/Objects has those that build
-- objects.
pub mod Objects
pub mod Functions
pub mod Agreement
pub mod Made
pub mod Convert
mod Tests
use Prim.Native.Nat.{bit_and, bit_xor}
use super_searcher.Base.{
  ℕ, zero, suc, ◌+◌, ◌-◌, ◌%◌, ◌^◌, Bool, true, false, not, List, [], ◌∷◌, ◌==◌, ltb, leb,
  if◌then◌else◌,
}
use super_searcher.Base.Result.{Result, ok, abort, ◌>>=◌}
use super_searcher.Types.{Mem, Tptr, ver, field}
use super_searcher.Types.Tag
use super_searcher.Types.Descriptor.{minus_one}
use super_searcher.Memory.{allocate}
use super_searcher.Memory.Objects.{read_words, write_words, store_words, new_object_value}
use super_searcher.Memory.State.{Machine, Cmd, pure, store, read}
use super_searcher.Memory.State
use super_searcher.Vector.{element, reference_at}
use super_searcher.Ast.{field_at, get_field_size, get_full_size, new_ast}
use super_searcher.Ast.Tag as AstTag
use super_searcher.Ast.Descriptor.{AstInfo, ast_entry}

-- generate_exponential_dist, for two numbers that the generator draws.
unfoldable pub generate_exponential_dist : ℕ → ℕ → ℕ
generate_exponential_dist first second =
    bit_and second (bit_xor first ((first + 2 ^ 64 - 1) % 2 ^ 64))

-- AST_subfield: the address of a field, or 0.
unfoldable pub ast_subfield : Mem → ℕ → ℕ → Result ℕ
ast_subfield m a offset =
    if a == 0
    then ok 0
    else if m a == AstTag.basicblock
    then ok (reference_at m (m (field_at a 0)) offset)
    else do
      info ← ast_entry (m a)
      if leb info.pointer_fields offset then ok 0 else ok (field_at a offset)

-- AST_subfield_guarantee
unfoldable pub ast_subfield_guarantee : Mem → ℕ → ℕ → Result ℕ
unfolding ast_subfield
ast_subfield_guarantee m a offset = do
  result ← ast_subfield m a offset
  if result == 0 then ok 0 else ok (m result)

unfoldable pub type_subfield : Mem → Tptr → ℕ → Result Tptr
type_subfield m a offset =
    if a == 0
    then ok 0
    else if ver m a == Tag.con_vec
    then (do size ← field m a 0; if leb size offset then ok 0 else field m a (offset + 1))
    else if offset == 0
    then ok a
    else ok 0

-- dynamic_subtype: a type, and its tag to branch on.
unfoldable pub dynamic_subtype : Mem → Tptr → ℕ → Result (Tptr × ℕ)
dynamic_subtype m type offset =
    if type == 0
    then ok (0, 0)
    else if not (ver m type == Tag.con_vec)
    then (if offset == 0 then ok (type, ver m type) else ok (0, 0))
    else do
      size ← field m type 0
      if leb size offset then ok (0, 0) else do sub ← field m type (offset + 1); ok (sub, ver m sub)

-- system1, where `random` is what the generator draws.
unfoldable pub system1 : ℕ → ℕ → ℕ → ℕ
system1 finiteness random par =
    if par == 0
    then AstTag.never_reached
    else if par == 1
    then finiteness
    else if par == 2
    then random
    else 0

unfoldable pub system2 : ℕ → ℕ → Result ℕ
system2 first par =
    if first == 0
    then (if ltb par AstTag.never_reached
        then (do info ← ast_entry par; ok info.pointer_fields)
        else ok 0)
    else ok 0

-- The words that agency1 and agency2 print.
unfoldable pub agency1 : ℕ → List ℕ
agency1 par = []

unfoldable pub agency2 : ℕ → ℕ → List ℕ
agency2 first par = if first == 0 then par ∷ [] else []

unfoldable pub load_imv_from_ast : Mem → ℕ → ℕ
load_imv_from_ast m p = if p == 0 then 0 else if not (m p == AstTag.imv) then 0 else field_at p 0

unfoldable pub load_bb_from_ast : Mem → ℕ → ℕ
load_bb_from_ast m p =
    if p == 0 then 0 else if not (m p == AstTag.basicblock) then 0 else field_at p 0

unfoldable pub ast_tag : Mem → ℕ → ℕ
ast_tag m p = if p == 0 then minus_one else m p

unfoldable pub type_tag : Mem → Tptr → ℕ
type_tag m p = ver m p
