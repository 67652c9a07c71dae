-- ===== src/Printer/Tests.antt =====
-- Runs of the printer (src/debugoutput.h) on small programs, and the theorem there.
use super_searcher.Base.{
  ℕ, ◌≡◌, refl, true, List, [], ◌∷◌, ◌==◌, if◌then◌else◌, All, arith, subst, sym,
}
use super_searcher.Base.Result.{ok}
use super_searcher.Types.{Mem, addresses}
use super_searcher.Vector
use super_searcher.Vector.{element}
use super_searcher.Ast.{ast_range, get_field_size}
use super_searcher.Ast.Descriptor.{
  ast_entry, ast_descriptor, ast_info, add_pointer_fields, special_fields,
}
use super_searcher.Printer.{
  Printer, open_bracket, close_bracket, space, name, number, is_in, mark_seen, need_reference, emit,
  determine_all, determine_references, print_elements, print_fields, print_words, print_block,
  print_plain, output_output, output_ast_struct,
}
use super_searcher.Printer.Ends.{IsClosed, Determined, determine_references-Determined}

abbrev image : List (ℕ × ℕ) → Mem
image [] a = 0
image ((b, v) ∷ rest) a = if a == b then v else image rest a

-- At 96 a "decrement" of itself; at 200 a basic block of the vector at 300, which has the programs at
-- 400 and 96; at 400 a "zero".
abbrev memory : Mem
memory = image (
    (96, 3)
    ∷ (104, 96)
    ∷ (200, 1)
    ∷ (208, 300)
    ∷ (300, 2)
    ∷ (308, 2)
    ∷ (316, 400)
    ∷ (324, 96)
    ∷ (400, 2)
    ∷ [])

cycle_printed :
    output_ast_struct 4 memory 200
    ≡ ok (
        open_bracket "zero"
        ∷ close_bracket
        ∷ space
        ∷ name 96
        ∷ open_bracket "decrement"
        ∷ space
        ∷ number 96
        ∷ close_bracket
        ∷ [])
unfolding output_ast_struct determine_references determine_all need_reference mark_seen is_in
    output_output print_block print_elements print_plain print_fields print_words emit ast_range
    ast_entry ast_descriptor ast_info add_pointer_fields special_fields get_field_size addresses
    Vector.vector_range
cycle_printed = refl

itself : (t : ℕ) → is_in t (96 ∷ []) ≡ true → t ≡ 96
unfolding is_in
itself t h = ground arith

itself_fields :
    (l : List ℕ) × (ast_range memory 96 ≡ ok l) × All (λ a. is_in (memory a) (96 ∷ []) ≡ true) l
unfolding is_in ast_range ast_entry ast_descriptor ast_info add_pointer_fields special_fields
    addresses
itself_fields = (104 ∷ [], refl, (refl, tt))

itself-IsClosed : IsClosed memory (96 ∷ [])
itself-IsClosed = record {
  fields = λ t h.
      subst
        (λ x.
          (l : List ℕ) × (ast_range memory x ≡ ok l)
          × All (λ a. is_in (memory a) (96 ∷ []) ≡ true) l)
        (sym (itself t h)) itself_fields;
}

abbrev printer : Printer
printer = record { ast_list = 0 ∷ []; reference_necessary = []; output = [] }

determine_references-Determined_example :
    (s' : Printer) × (determine_references 2 memory 96 printer ≡ ok s')
    × Determined printer s'
    × (is_in 96 s'.ast_list ≡ true)
unfolding is_in
determine_references-Determined_example =
    determine_references-Determined 2 memory (96 ∷ []) 96 printer itself-IsClosed refl (omega arith)
