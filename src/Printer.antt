-- ===== src/Printer.antt =====
-- The printer of programs, output_AST_struct of src/debugoutput.h. Its output is a list of pieces: a
-- piece `number` is an address or a word, `name` an address behind the mark `_`.
pub mod Ends
mod Tests
use Prim.Native.String.{String}
use super_searcher.Base.{
  ℕ, zero, suc, ◌+◌, ◌-◌, Bool, true, false, not, ◌&&◌, ◌||◌, List, [], ◌∷◌, ◌++◌, ◌==◌, ltb,
  if◌then◌else◌,
}
use super_searcher.Base.Result.{Result, ok, abort, out_of_fuel, ◌>>=◌}
use super_searcher.Types.{Mem, addresses}
use super_searcher.Vector
use super_searcher.Ast.{field_at, get_field_size, ast_range}
use super_searcher.Ast.Tag
use super_searcher.Ast.Descriptor.{AstInfo, ast_entry}

pub data Piece : Type 0 where
  open_brace close_brace close_bracket space : Piece
  open_bracket : String → Piece
  name number : ℕ → Piece

-- The sets AST_list and reference_necessary, and what is printed so far.
pub record Printer : Type 0 where
  pub ast_list : List ℕ
  pub reference_necessary : List ℕ
  pub output : List Piece

unfoldable pub is_in : ℕ → List ℕ → Bool
is_in x [] = false
is_in x (y ∷ ys) = if x == y then true else is_in x ys

unfoldable pub mark_seen : ℕ → Printer → Printer
mark_seen target s = record s { ast_list = target ∷ s.ast_list }

unfoldable pub need_reference : ℕ → Printer → Printer
unfolding is_in
need_reference target s =
    if is_in target s.reference_necessary
    then s
    else record s { reference_necessary = target ∷ s.reference_necessary }

unfoldable pub emit : List Piece → Printer → Printer
emit pieces s = record s { output = s.output ++ pieces }

-- The loop of determine_references over the words at the addresses.
unfoldable pub determine_all :
    (ℕ → Printer → Result Printer) → Mem → List ℕ → Printer → Result Printer
determine_all determine m [] s = ok s
determine_all determine m (a ∷ rest) s = do
  s' ← determine (m a) s
  determine_all determine m rest s'

-- determine_references, on memory m; the recursion follows programs that are not seen yet, and takes
-- fuel.
unfoldable pub determine_references : ℕ → Mem → ℕ → Printer → Result Printer
unfolding mark_seen need_reference
determine_references zero m target s = out_of_fuel
determine_references (suc fuel) m target s =
    if is_in target s.ast_list then ok (need_reference target s) else do
      fields ← ast_range m target
      determine_all (determine_references fuel m) m fields (mark_seen target s)

module _ (print_ast : ℕ → Bool → Printer → Result Printer) (m : Mem) where
  -- The loop over the elements of a basic block, with spaces between them.
  unfoldable pub print_elements : List ℕ → Bool → Printer → Result Printer
  unfolding emit
  print_elements [] first s = ok s
  print_elements (a ∷ rest) first s = do
    s' ← print_ast (m a) true (if first then s else emit (space ∷ []) s)
    print_elements rest false s'

  -- The loop over the fields that are programs,
  unfoldable pub print_fields : List ℕ → Printer → Result Printer
  unfolding emit
  print_fields [] s = ok s
  print_fields (a ∷ rest) s = do
    s' ← print_ast (m a) true (emit (space ∷ []) s)
    print_fields rest s'

  -- and over those that are not.
  unfoldable pub print_words : List ℕ → Printer → Printer
  unfolding emit
  print_words [] s = s
  print_words (a ∷ rest) s = print_words rest (emit (space ∷ number (m a) ∷ []) s)

  -- A basic block; an empty one ends without the closing brace.
  unfoldable pub print_block : ℕ → Bool → Printer → Result Printer
  unfolding emit print_elements
  print_block vec braces s =
      let opened = if braces then emit (open_brace ∷ []) s else s in
      if m vec == 0 then ok (emit (number 0 ∷ []) opened) else do
        printed ← print_elements (Vector.vector_range m vec) true opened
        ok (if braces then emit (close_brace ∷ []) printed else printed)

  unfoldable pub print_plain : ℕ → ℕ → Printer → Result Printer
  unfolding emit print_fields print_words
  print_plain target tag s = do
    info ← ast_entry tag
    printed ←
        print_fields (addresses (field_at target 0) info.pointer_fields)
          (emit (open_bracket info.name ∷ []) s)
    size ← get_field_size tag
    ok (
        emit (close_bracket ∷ []) (
          print_words (addresses (field_at target info.pointer_fields) (size - info.pointer_fields))
            printed))

-- output_output; the recursion takes fuel like determine_references.
unfoldable pub output_output : ℕ → Mem → ℕ → Bool → Printer → Result Printer
unfolding mark_seen emit is_in
output_output zero m target braces_allowed s = out_of_fuel
output_output (suc fuel) m target braces_allowed s =
    if is_in target s.ast_list
    then ok (emit (number target ∷ []) s)
    else (let printed_reference = is_in target s.reference_necessary in
        let named =
          if printed_reference
          then emit (name target ∷ []) (mark_seen target s)
          else mark_seen target s in
        if m target == Tag.basicblock
        then (let vec = m (field_at target 0) in
            print_block (output_output fuel m) m vec
              ((printed_reference || ltb 1 (m vec)) && braces_allowed) named)
        else print_plain (output_output fuel m) m target (m target) named)

-- The constructor, which prints the program.
unfoldable pub output_ast_struct : ℕ → Mem → ℕ → Result (List Piece)
unfolding determine_references output_output
output_ast_struct fuel m target = do
  s ←
      determine_references fuel m target
        (record { ast_list = 0 ∷ []; reference_necessary = []; output = [] })
  s' ← output_output fuel m target false (record s { ast_list = 0 ∷ [] })
  ok s'.output
