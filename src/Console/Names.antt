-- ===== src/Console/Names.antt =====
-- The names of the console's programs: what source_reader (src/testdriver.cpp) leaves of ASTmap.
use Prim.Native.Nat.{Ordering}
use Prim.Native.String.{String, compare}
use text.Mathlib.Text.{◌==◌ as str_eq, is_eq}
use text.Mathlib.TextEquality.{path_by_compare}
use super_searcher.Base.{
  ℕ, zero, suc, ◌+◌, ◌≡◌, refl, inl, inr, Bool, true, false, Option, none, some, List, ◌==◌, ltb,
  if◌then◌else◌, arith, Bool-cases,
}
use super_searcher.Base.Result.{Result, ok, abort, out_of_fuel}
use super_searcher.Base.Command.{
  pure, fail, assert, gets, modify, ◌>>=◌, ◌>>◌, and_then, on_part, put_back,
}
use super_searcher.Memory.State.{Machine}
use super_searcher.Memory.State as Machines
use super_searcher.Ast.Tag as AstTag
use super_searcher.Ast.Descriptor.{AstInfo}
use super_searcher.Console.Scanner.{get_token}
use super_searcher.Console.Reader.{
  Reader, Settings, Read, find_name, lift, on_machine, put_input, next_token, must_find, look_up,
  insert_new, insert_name, all_digits, stoull, name_in, block_elements, create_single_basic_block,
  read_pointer, read_immediate, read_field, read_fields, read_bracket, read_named, declare,
  read_single_ast,
}

-- In the map the name stands for the AST.
abbrev pub Bound : String → ℕ → List (String × ℕ) → Type 0
Bound name ast names = find_name name names ≡ some ast

module _ {A : Type 0} where
  abbrev pub After : (A → List (String × ℕ) → Type 0) → Result (A × Reader) → Type 0
  After C (ok (a, s)) = C a s.ast_map
  After C abort = Unit
  After C out_of_fuel = Unit

  -- From a map with B, the command ends with a result and a map with C.
  pub record Triple (B : List (String × ℕ) → Type 0) (C : A → List (String × ℕ) → Type 0)
      (c : Read A) : Type 0 where
    pub run : (s : Reader) → B s.ast_map → After C (c s)

  -- The command keeps what holds of the map.
  pub record Keeps (B : List (String × ℕ) → Type 0) (c : Read A) : Type 0 where
    pub kept : (s : Reader) → B s.ast_map → After (λ _. B) (c s)

  pub ite-Keeps :
      {B : List (String × ℕ) → Type 0} (b : Bool) {m n : Read A}
      → Keeps B m
      → Keeps B n
      → Keeps B (if b then m else n)
  ite-Keeps true h h' = h
  ite-Keeps false h h' = h'

  pub pure-Keeps : {B : List (String × ℕ) → Type 0} (a : A) → Keeps B (pure a)
  unfolding pure
  pure-Keeps a = record { kept = λ s h. h }

  pub fail-Keeps : {B : List (String × ℕ) → Type 0} → Keeps B (fail {A = A})
  unfolding fail
  fail-Keeps = record { kept = λ s h. tt }

  pub lift-Keeps : {B : List (String × ℕ) → Type 0} (r : Result A) → Keeps B (lift r)
  unfolding lift fail pure
  lift-Keeps (ok a) = record { kept = λ s h. h }
  lift-Keeps abort = record { kept = λ s h. tt }
  lift-Keeps out_of_fuel = record { kept = λ s h. tt }

  machine-After :
      (B : List (String × ℕ) → Type 0) (s : Reader) (r : Result (A × Machine))
      → B s.ast_map
      → After (λ _. B) (put_back (λ m s. record s { machine = m }) s r)
  machine-After B s (ok (a, m)) h = h
  machine-After B s abort h = tt
  machine-After B s out_of_fuel h = tt

  pub machine-Keeps : {B : List (String × ℕ) → Type 0} (c : Machines.Cmd A) → Keeps B (on_machine c)
  unfolding on_machine on_part
  machine-Keeps {B} c = record { kept = λ s h. machine-After B s (c s.machine) h }

  pub gets-Keeps : {B : List (String × ℕ) → Type 0} (f : Reader → A) → Keeps B (gets f)
  unfolding gets
  gets-Keeps f = record { kept = λ s h. h }

module _ {A C : Type 0} {B : List (String × ℕ) → Type 0} where
  After-bind :
      (D : C → List (String × ℕ) → Type 0) (r : Result (A × Reader)) (k : A → Read C)
      → After (λ _. B) r
      → ((a : A) → Triple B D (k a))
      → After D (and_then r k)
  After-bind D (ok (a, s)) k h rest = (rest a).run s h
  After-bind D abort k h rest = tt
  After-bind D out_of_fuel k h rest = tt

  pub bind-Triple :
      {D : C → List (String × ℕ) → Type 0} {m : Read A} {k : A → Read C}
      → Keeps B m
      → ((a : A) → Triple B D (k a))
      → Triple B D (m >>= k)
  unfolding ◌>>=◌
  bind-Triple {D} {m} {k} h rest = record { run = λ s b. After-bind D (m s) k (h.kept s b) rest }

  pub then-Triple :
      {D : C → List (String × ℕ) → Type 0} {m : Read A} {n : Read C}
      → Keeps B m
      → Triple B D n
      → Triple B D (m >> n)
  unfolding ◌>>◌
  then-Triple {D} {m} {n} h rest = record {
    run = λ s b. After-bind D (m s) (λ _. n) (h.kept s b) (λ _. rest);
  }

  pub bind-Keeps :
      {m : Read A} {k : A → Read C} → Keeps B m → ((a : A) → Keeps B (k a)) → Keeps B (m >>= k)
  unfolding ◌>>=◌
  bind-Keeps {m} {k} h rest = record {
    kept = λ s b. After-bind (λ _. B) (m s) k (h.kept s b) (λ a. record { run = (rest a).kept });
  }

  pub then-Keeps : {m : Read A} {n : Read C} → Keeps B m → Keeps B n → Keeps B (m >> n)
  unfolding ◌>>◌
  then-Keeps {m} {n} h rest = record {
    kept = λ s b. After-bind (λ _. B) (m s) (λ _. n) (h.kept s b) (λ _. record { run = rest.kept });
  }

input-After :
    (B : List (String × ℕ) → Type 0) (s : Reader) (r : Result (String × String))
    → B s.ast_map
    → After (λ _. B) (put_input s r)
input-After B s (ok (token, rest)) h = h
input-After B s abort h = tt
input-After B s out_of_fuel h = tt

module _ {B : List (String × ℕ) → Type 0} where
  pub assert-Keeps : (b : Bool) → Keeps B (assert b)
  unfolding assert
  assert-Keeps true = record { kept = λ s h. h }
  assert-Keeps false = record { kept = λ s h. tt }

  pub next_token-Keeps : (settings : Settings) → Keeps B (next_token settings)
  unfolding next_token
  next_token-Keeps settings = record {
    kept = λ s h. input-After B s (get_token settings.ending_char s.input) h;
  }

  found-Keeps : (o : Option ℕ) → Keeps B (must_find o)
  unfolding must_find
  found-Keeps none = fail-Keeps
  found-Keeps (some ast) = pure-Keeps ast

  pub look_up-Keeps : (name : String) → Keeps B (look_up name)
  unfolding look_up
  look_up-Keeps name = bind-Keeps (gets-Keeps _) found-Keeps

-- A name that is bound is not bound again.
find-insert_new :
    (name other : String) (ast a : ℕ) (s : Reader) (o : Option ℕ)
    → find_name name s.ast_map ≡ o
    → Bound other a s.ast_map
    → Bound other a (insert_new name ast o s).ast_map
unfolding find_name
find-insert_new name other ast a s (some old) e h = h
find-insert_new name other ast a s none e h = elim (Bool-cases (str_eq name other)) [
  | inl same ↦ absurd (clash (path_by_compare name other (equal (compare name other) same)))
  | inr apart ↦ rw apart h
]
  where
    equal : (o : Ordering) → is_eq o ≡ true → o ≡ Ordering.eq
    equal o h = ground arith

    clash : name ≡ other → ⊥
    clash p = cc

insert_name-Keeps :
    (other : String) (a : ℕ) (name : String) (ast : ℕ)
    → Keeps (Bound other a) (insert_name name ast)
unfolding insert_name modify
insert_name-Keeps other a name ast =
    ite-Keeps (str_eq name "") (pure-Keeps tt) (record {
      kept = λ s h. find-insert_new name other ast a s (find_name name s.ast_map) refl h;
    })

-- The reader keeps every name that is bound.
pub record Sound (single : String → Read ℕ) : Type 0 where
  pub keeps : (other : String) (a : ℕ) (token : String) → Keeps (Bound other a) (single token)

module _ (settings : Settings) (single : String → Read ℕ) (sound : Sound single) (other : String)
    (a : ℕ) where
  block_elements-Keeps :
      (fuel : ℕ) (last_char : String) (slot : ℕ)
      → Keeps (Bound other a) (block_elements settings single fuel last_char slot)
  unfolding block_elements
  block_elements-Keeps zero last_char slot = record { kept = λ s h. tt }
  block_elements-Keeps (suc fuel) last_char slot =
      bind-Keeps (next_token-Keeps settings) (λ next_word.
        ite-Keeps (str_eq next_word last_char) (pure-Keeps tt) (
          bind-Keeps (sound.keeps other a next_word)
            (λ ast. then-Keeps (machine-Keeps _) (block_elements-Keeps fuel last_char slot))))

  block-Keeps :
      (fuel : ℕ) (brace : Bool)
      → Keeps (Bound other a) (create_single_basic_block settings single fuel brace)
  unfolding create_single_basic_block modify
  block-Keeps fuel brace = bind-Keeps (machine-Keeps _) (λ bb_ast.
      then-Keeps (ite-Keeps brace (pure-Keeps tt) (record { kept = λ s h. h }))
        (then-Keeps (block_elements-Keeps fuel _ _) (pure-Keeps bb_ast)))

  read_pointer-Keeps :
      (fuel : ℕ) (token : String) → Keeps (Bound other a) (read_pointer settings single fuel token)
  unfolding read_pointer
  read_pointer-Keeps fuel token =
      ite-Keeps (str_eq token "{") (block-Keeps fuel true) (sound.keeps other a token)

  read_immediate-Keeps : (token : String) → Keeps (Bound other a) (read_immediate token)
  unfolding read_immediate stoull
  read_immediate-Keeps token =
      ite-Keeps (all_digits token)
        (then-Keeps (assert-Keeps _)
          (bind-Keeps (then-Keeps (assert-Keeps _) (pure-Keeps _)) (λ n. machine-Keeps _)))
        (look_up-Keeps token)

  read_field-Keeps :
      (fuel : ℕ) (info : AstInfo) (tag location field_num : ℕ) (token : String)
      → Keeps (Bound other a) (read_field settings single fuel info tag location field_num token)
  unfolding read_field
  read_field-Keeps fuel info tag location field_num token = then-Keeps (assert-Keeps _) (
      ite-Keeps (ltb field_num info.pointer_fields)
        (bind-Keeps (read_pointer-Keeps fuel token) (λ ast. machine-Keeps _))
        (ite-Keeps (tag == AstTag.imv)
          (bind-Keeps (read_immediate-Keeps token) (λ object. machine-Keeps _))
          (ite-Keeps (tag == AstTag.basicblock)
            (bind-Keeps (gets-Keeps _) (λ k.
              bind-Keeps (read_pointer-Keeps fuel token)
                (λ ast. bind-Keeps (machine-Keeps _) (λ moved. pure-Keeps tt))))
            fail-Keeps)))

  pub read_fields-Keeps :
      (fuel : ℕ) (info : AstInfo) (tag location field_num : ℕ)
      → Keeps (Bound other a) (read_fields settings single fuel info tag location field_num)
  unfolding read_fields
  read_fields-Keeps zero info tag location field_num = record { kept = λ s h. tt }
  read_fields-Keeps (suc fuel) info tag location field_num =
      bind-Keeps (next_token-Keeps settings) (λ token.
        ite-Keeps (str_eq token "]") (pure-Keeps tt) (
          then-Keeps (read_field-Keeps fuel info tag location field_num token)
            (read_fields-Keeps fuel info tag location (field_num + 1))))

  pub read_bracket-Keeps :
      (fuel : ℕ) (name : String) → Keeps (Bound other a) (read_bracket settings single fuel name)
  unfolding read_bracket
  read_bracket-Keeps fuel name = bind-Keeps (next_token-Keeps settings) (λ tag_str.
      bind-Keeps (lift-Keeps _) (λ tag. bind-Keeps (machine-Keeps _) (λ fields_type.
        bind-Keeps (machine-Keeps _) (λ size. bind-Keeps (machine-Keeps _) (λ location.
          then-Keeps (insert_name-Keeps other a name location) (
            bind-Keeps (lift-Keeps _) (λ info.
              then-Keeps (read_fields-Keeps fuel info tag location 0) (pure-Keeps location))))))))

  read_named-Keeps :
      (fuel : ℕ) (name first : String)
      → Keeps (Bound other a) (read_named settings single fuel name first)
  unfolding read_named
  read_named-Keeps fuel name first =
      ite-Keeps (str_eq first "{")
        (bind-Keeps (block-Keeps fuel true)
          (λ location. then-Keeps (insert_name-Keeps other a name location) (pure-Keeps location)))
        (ite-Keeps (str_eq first "[") (read_bracket-Keeps fuel name) (look_up-Keeps first))

  declare-Keeps :
      (fuel : ℕ) (first : String) (o : Option String)
      → Keeps (Bound other a) (declare settings single fuel first o)
  unfolding declare
  declare-Keeps fuel first none = read_named-Keeps fuel "" first
  declare-Keeps fuel first (some name) = bind-Keeps (gets-Keeps _) (λ old.
      then-Keeps (assert-Keeps _)
        (bind-Keeps (next_token-Keeps settings) (λ token. read_named-Keeps fuel name token)))

pub read_single_ast-Sound : (settings : Settings) (fuel : ℕ) → Sound (read_single_ast settings fuel)
unfolding read_single_ast
read_single_ast-Sound settings zero = record {
  keeps = λ other a token. record { kept = λ s h. tt };
}
read_single_ast-Sound settings (suc fuel) = record {
  keeps = λ other a token.
      bind-Keeps (ite-Keeps (str_eq token "") (next_token-Keeps settings) (pure-Keeps token))
        (λ first.
          declare-Keeps settings (read_single_ast settings fuel)
            (read_single_ast-Sound settings fuel) other a fuel first (name_in first));
}
