-- ===== src/Console/Tests.antt =====
-- A program of the console that is read, and the theorem there.
use Prim.Native.String.{String}
use super_searcher.Base.{ℕ, ◌≡◌, refl, false, some, [], ◌∷◌}
use super_searcher.Base.Result.{ok}
use super_searcher.Memory.State.{write}
use super_searcher.Memory.{allocate, take_block}
use super_searcher.Memory.Blocks.{lower_bound, insert, erase_at}
use super_searcher.Memory.Objects.{write_words}
use super_searcher.Creator.{concatenate_types, true_components}
use super_searcher.Types.{get_size}
use super_searcher.Types.Descriptor.{enum_from}
use super_searcher.Ast.{new_ast, get_field_size, get_full_size}
use super_searcher.Ast.FieldTypes.{get_ast_fields_type, ast_pointers}
use super_searcher.Ast.Descriptor.{
  ast_entry, ast_descriptor, ast_info, add_pointer_fields, special_fields, astn,
}
use super_searcher.Base.Command.{on_part, pure, ◌>>=◌, ◌>>◌, modify, gets, assert}
use super_searcher.Console.Scanner.{
  get_token, skip_blanks, token_at, read_word, ends_word, is_blank, is_bracket,
}
use super_searcher.Console.Reader.{
  Reader, Settings, find_name, read_bracket, read_single_ast, next_token, lift, on_machine,
  insert_name, read_fields, zeros,
}
use super_searcher.Console.Declared.{read_bracket-Bound}

abbrev settings : Settings
settings = record { ending_char = 10; vector_of_asts = 0; type_fuel = 3 }

-- `[zero]`, behind its first bracket.
abbrev start : Reader
start = record {
  input = "zero]\n";
  ast_map = ("0", 0) ∷ [];
  machine = record {
    mem = λ a. 0;
    free_memory = (8, 1000) ∷ [];
    free_memory_count = 8;
    being_traced = false;
    type_hash_table = [];
  };
}

-- [zero] is at 1000, its tag 2.
abbrev end : Reader
end = record {
  input = "\n";
  ast_map = ("a", 1000) ∷ ("0", 0) ∷ [];
  machine = record start.machine {
    mem = write (λ a. 0) 1000 2;
    free_memory = (7, 1008) ∷ [];
    free_memory_count = 7;
  };
}

read_zero : read_bracket settings (read_single_ast settings 1) 1 "a" start ≡ ok (1000, end)
unfolding read_bracket read_single_ast next_token lift on_machine insert_name find_name read_fields
    zeros get_token skip_blanks token_at read_word ends_word is_blank is_bracket on_part pure ◌>>=◌
    ◌>>◌ modify gets assert new_ast get_field_size get_full_size ast_entry ast_descriptor ast_info
    add_pointer_fields special_fields astn enum_from get_ast_fields_type ast_pointers allocate write
    get_size take_block lower_bound concatenate_types true_components write_words insert erase_at
read_zero = refl

read_bracket-Bound_example :
    (find_name "a" end.ast_map ≡ some 1000)
    × ((other : String) (a : ℕ)
        → find_name other start.ast_map ≡ some a
        → find_name other end.ast_map ≡ some a)
unfolding find_name
read_bracket-Bound_example = read_bracket-Bound settings 1 "a" start end 1000 refl refl read_zero
