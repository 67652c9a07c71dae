-- ===== src/Types/Tag.antt =====
-- The values of `Typen` of src/types.h at the names that the program writes; Types/Tests compares
-- them with the table.
use super_searcher.Base.{ℕ}

abbrev pub con_vec : ℕ
con_vec = 0

abbrev pub integer : ℕ
integer = 1

abbrev pub dynamic_object : ℕ
dynamic_object = 2

abbrev pub ast_pointer : ℕ
ast_pointer = 3

abbrev pub type_pointer : ℕ
type_pointer = 4

abbrev pub function_pointer : ℕ
function_pointer = 5

abbrev pub vector : ℕ
vector = 6

abbrev pub pointer : ℕ
pointer = 7

abbrev pub temp_pointer : ℕ
temp_pointer = 8

abbrev pub pointer_to_something : ℕ
pointer_to_something = 9

abbrev pub vector_of_something : ℕ
vector_of_something = 10

abbrev pub does_not_return : ℕ
does_not_return = 11

abbrev pub never_reached : ℕ
never_reached = 12
