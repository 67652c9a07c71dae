-- ===== src/Console/Reader.antt =====
-- read_single_AST, create_single_basic_block and read of the source_reader (src/testdriver.cpp), which
-- make ASTs of a text.
use Prim.Native.String.{String, [], ◌∷◌}
use Prim.Native.Char.{Char, code}
use text.Mathlib.Text.{◌==◌ as str_eq}
use super_searcher.Base.{
  ℕ, zero, suc, ◌+◌, ◌-◌, ◌*◌, ◌^◌, Bool, true, false, not, ◌&&◌, Option, none, some, List, [], ◌∷◌,
  ◌==◌, ltb, leb, if◌then◌else◌,
}
use super_searcher.Base.Result.{Result, ok, abort, out_of_fuel}
use super_searcher.Base.Command.{Cmd, pure, fail, assert, gets, modify, ◌>>=◌, ◌>>◌, on_part}
use super_searcher.Types.{Tptr, get_size}
use super_searcher.Types.Tag
use super_searcher.Vector.{vector_build, pushback, element}
use super_searcher.Memory.Objects.{new_object_value}
use super_searcher.Memory.State.{Machine}
use super_searcher.Memory.State as Machines
use super_searcher.Ast.{field_at, new_ast}
use super_searcher.Ast.Tag as AstTag
use super_searcher.Ast.Descriptor.{AstInfo, astn, ast_entry}
use super_searcher.Ast.FieldTypes.{get_ast_fields_type}
use super_searcher.Console.Scanner.{get_token}

-- What is left of the stream, and ASTmap with its latest entry in front; the ASTs are made in the
-- machine. The ending character, u::vector_of_ASTs and the bound on the functions on types do not
-- change.
pub record Reader : Type 0 where
  pub input : String
  pub ast_map : List (String × ℕ)
  pub machine : Machine

pub record Settings : Type 0 where
  pub ending_char : ℕ
  pub vector_of_asts : Tptr
  pub type_fuel : ℕ

abbrev pub Read : Type 0 → Type 0
Read A = Cmd Reader A

unfoldable pub find_name : String → List (String × ℕ) → Option ℕ
find_name name [] = none
find_name name ((k, ast) ∷ rest) = if str_eq k name then some ast else find_name name rest

unfoldable pub lift : {A : Type 0} → Result A → Read A
lift (ok a) = pure a
lift abort = fail
lift out_of_fuel = λ s. out_of_fuel

unfoldable pub on_machine : {A : Type 0} → Machines.Cmd A → Read A
unfolding on_part
on_machine = on_part (λ s. s.machine) (λ machine s. record s { machine = machine })

abbrev pub put_input : Reader → Result (String × String) → Result (String × Reader)
put_input s (ok (token, rest)) = ok (token, record s { input = rest })
put_input s abort = abort
put_input s out_of_fuel = out_of_fuel

unfoldable pub next_token : Settings → Read String
next_token settings s = put_input s (get_token settings.ending_char s.input)

unfoldable pub must_find : Option ℕ → Read ℕ
must_find none = fail
must_find (some ast) = pure ast

-- ASTmap.find, where the name must be there.
unfoldable pub look_up : String → Read ℕ
unfolding find_name must_find
look_up name = do found ← gets (λ s. find_name name s.ast_map); must_find found

abbrev pub insert_new : String → ℕ → Option ℕ → Reader → Reader
insert_new name ast none s = record s { ast_map = (name, ast) ∷ s.ast_map }
insert_new name ast (some old) s = s

-- ASTmap.insert, which leaves a name that is there as it is; the empty name is no name.
unfoldable pub insert_name : String → ℕ → Read (Unit {0})
unfolding find_name
insert_name name ast =
    if str_eq name ""
    then pure tt
    else modify (λ s. insert_new name ast (find_name name s.ast_map) s)

abbrev pub is_none : {A : Type 0} → Option A → Bool
is_none none = true
is_none (some x) = false

-- isdigit, and the number that digits are.
unfoldable pub is_digit : Char → Bool
is_digit c = leb 48 (code c) && leb (code c) 57

unfoldable pub all_digits : String → Bool
all_digits [] = true
all_digits (c ∷ s) = is_digit c && all_digits s

unfoldable pub digits_value : ℕ → String → ℕ
digits_value n [] = n
digits_value n (c ∷ s) = digits_value (10 * n + (code c - 48)) s

-- std::stoull, which throws if the number does not fit.
unfoldable pub stoull : String → Read ℕ
unfolding digits_value
stoull s = do assert (ltb (digits_value 0 s) (2 ^ 64)); pure (digits_value 0 s)

-- The name after '_', where the token has one.
unfoldable pub name_in : String → Option String
name_in [] = none
name_in (c ∷ s) = if code c == 95 then some s else none

unfoldable pub zeros : ℕ → List ℕ
zeros zero = []
zeros (suc n) = 0 ∷ zeros n

-- pushback_int on a variable that holds the vector's address: the address that the vector has then.
unfoldable pub pushback_variable : ℕ → ℕ → Machines.Cmd ℕ
unfolding vector_build
pushback_variable s value = Machines.◌>>=◌ (Machines.load s) (λ size.
    Machines.◌>>=◌ (Machines.load (s + 8)) (λ reserved.
      Machines.◌>>◌ (Machines.assert (leb size reserved)) (
        Machines.◌>>=◌
          (if size == reserved then vector_build (element s 0) size else Machines.pure s)
          (λ s'. Machines.◌>>=◌ (Machines.load s') (λ size'.
            Machines.◌>>◌ (Machines.store (element s' size') value)
              (Machines.◌>>◌ (Machines.store s' (size' + 1)) (Machines.pure s')))))))

-- The loop of create_single_basic_block; each round takes a unit of fuel.
unfoldable pub block_elements : Settings → (String → Read ℕ) → ℕ → String → ℕ → Read (Unit {0})
block_elements settings single zero last_char slot = λ s. out_of_fuel
block_elements settings single (suc fuel) last_char slot =
    let rest = block_elements settings single fuel last_char slot in
    next_token settings >>= (λ next_word.
      if str_eq next_word last_char
      then pure tt
      else single next_word >>= (λ single_ast. on_machine (pushback slot single_ast) >> rest))

-- input.ignore(1), where the stream stands at the ending character.
unfoldable pub skip_end : ℕ → String → String
skip_end ending_char [] = []
skip_end ending_char (c ∷ s) = if code c == ending_char then s else c ∷ s

-- create_single_basic_block
unfoldable pub create_single_basic_block : Settings → (String → Read ℕ) → ℕ → Bool → Read ℕ
unfolding block_elements skip_end
create_single_basic_block settings single fuel create_brace_at_end = do
  bb_ast ← on_machine (new_ast AstTag.basicblock [])
  if create_brace_at_end
      then pure tt
      else modify (λ s. record s { input = skip_end settings.ending_char s.input })
  block_elements settings single fuel (if create_brace_at_end then "}" else "") (field_at bb_ast 0)
  pure bb_ast

-- A field that is a pointer to an AST, from the token that it begins with.
unfoldable pub read_pointer : Settings → (String → Read ℕ) → ℕ → String → Read ℕ
unfolding create_single_basic_block
read_pointer settings single fuel token =
    if str_eq token "{" then create_single_basic_block settings single fuel true else single token

-- The object of an immediate value: a name, or an integer.
unfoldable pub read_immediate : String → Read ℕ
unfolding stoull look_up all_digits
read_immediate token =
    if all_digits token
    then (do
      assert (not (str_eq token ""))
      n ← stoull token
      on_machine (new_object_value (Tag.integer ∷ n ∷ [])))
    else look_up token

-- One field of an AST with a tag, from the token that it begins with.
unfoldable pub read_field :
    Settings
    → (String → Read ℕ)
    → ℕ
    → AstInfo
    → (tag location field_num : ℕ) → String
    → Read (Unit {0})
unfolding read_pointer read_immediate pushback_variable
read_field settings single fuel info tag location field_num token = do
  assert (ltb field_num 40)
  if ltb field_num info.pointer_fields
      then (do
        ast ← read_pointer settings single fuel token
        on_machine (Machines.store (field_at location field_num) ast))
      else if tag == AstTag.imv
      then (do
        object ← read_immediate token
        on_machine (Machines.store (field_at location field_num) object))
      else if tag == AstTag.basicblock
      then (do
        k ← gets (λ s. s.machine.mem (field_at location 0))
        ast ← read_pointer settings single fuel token
        moved ← on_machine (pushback_variable k ast)
        pure tt)
      else fail

-- The loop over the fields, up to "]".
unfoldable pub read_fields :
    Settings → (String → Read ℕ) → ℕ → AstInfo → (tag location field_num : ℕ) → Read (Unit {0})
unfolding read_field
read_fields settings single zero info tag location field_num = λ s. out_of_fuel
read_fields settings single (suc fuel) info tag location field_num =
    let rest = read_fields settings single fuel info tag location (field_num + 1) in
    next_token settings >>= (λ token.
      if str_eq token "]"
      then pure tt
      else read_field settings single fuel info tag location field_num token >> rest)

-- An AST in brackets, whose "[" has been read.
unfoldable pub read_bracket : Settings → (String → Read ℕ) → ℕ → String → Read ℕ
unfolding read_fields insert_name zeros
read_bracket settings single fuel name = do
  tag_str ← next_token settings
  tag ← lift (astn tag_str)
  fields_type ← on_machine (get_ast_fields_type settings.type_fuel settings.vector_of_asts tag)
  size ← on_machine (Machines.read (λ m. get_size m fields_type))
  location ← on_machine (new_ast tag (zeros size))
  insert_name name location
  info ← lift (ast_entry tag)
  read_fields settings single fuel info tag location 0
  pure location

-- The rest of read_single_AST: the name, or the empty text, and the token behind it.
unfoldable pub read_named : Settings → (String → Read ℕ) → ℕ → String → String → Read ℕ
unfolding read_bracket create_single_basic_block look_up insert_name
read_named settings single fuel name first =
    if str_eq first "{"
    then (do
      location ← create_single_basic_block settings single fuel true
      insert_name name location
      pure location)
    else if str_eq first "["
    then read_bracket settings single fuel name
    else look_up first

-- A name that is declared must be new.
unfoldable pub declare : Settings → (String → Read ℕ) → ℕ → String → Option String → Read ℕ
unfolding read_named find_name
declare settings single fuel first none = read_named settings single fuel "" first
declare settings single fuel first (some name) = do
  old ← gets (λ s. find_name name s.ast_map)
  assert (if str_eq name "" then true else is_none old)
  token ← next_token settings
  read_named settings single fuel name token

-- read_single_AST, to a depth of `fuel`, from the token `continued_string` if it is not empty.
unfoldable pub read_single_ast : Settings → ℕ → String → Read ℕ
unfolding declare name_in
read_single_ast settings zero continued_string = λ s. out_of_fuel
read_single_ast settings (suc fuel) continued_string = do
  first ← if str_eq continued_string "" then next_token settings else pure continued_string
  declare settings (read_single_ast settings fuel) fuel first (name_in first)

-- read
unfoldable pub read_source : Settings → ℕ → Read ℕ
unfolding create_single_basic_block
read_source settings fuel =
    create_single_basic_block settings (read_single_ast settings fuel) fuel false
