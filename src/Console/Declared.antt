-- ===== src/Console/Declared.antt =====
-- A declaration of the console's programs: the name of an AST in brackets (src/testdriver.cpp).
use Prim.Native.String.{String}
use text.Mathlib.Text.{◌==◌ as str_eq, is_eq}
use text.Mathlib.TextPositions.{compare_refl}
use super_searcher.Base.{ℕ, ◌≡◌, refl, ap, subst, false, Option, none, some, List}
use super_searcher.Base.Result.{ok}
use super_searcher.Base.Command.{pure, modify, ◌>>◌}
use super_searcher.Console.Reader.{
  Reader, Settings, Read, find_name, insert_new, insert_name, read_bracket, read_single_ast,
}
use super_searcher.Console.Names.{
  Bound, After, Triple, bind-Triple, then-Triple, next_token-Keeps, lift-Keeps, machine-Keeps,
  read_fields-Keeps, read_bracket-Keeps, read_single_ast-Sound,
}

abbrev Unbound : String → List (String × ℕ) → Type 0
Unbound name names = find_name name names ≡ none

find-insert_new :
    (name : String) (ast : ℕ) (s : Reader) (o : Option ℕ)
    → o ≡ none
    → Bound name ast (insert_new name ast o s).ast_map
unfolding find_name
find-insert_new name ast s none e = rw (ap is_eq (compare_refl name)) refl
find-insert_new name ast s (some old) e = cc

module _ {A : Type 0} where
  -- A name that is no name yet is bound by insert_name.
  insert_name-Triple :
      {C : A → List (String × ℕ) → Type 0} (name : String) (ast : ℕ) {n : Read A}
      → str_eq name "" ≡ false
      → Triple (Bound name ast) C n
      → Triple (Unbound name) C (insert_name name ast >> n)
  unfolding insert_name modify ◌>>◌
  insert_name-Triple name ast {n} proper h = record {
    run = λ s free. rw proper (
        h.run (insert_new name ast (find_name name s.ast_map) s)
          (find-insert_new name ast s (find_name name s.ast_map) free));
  }

  pure-Triple : {C : A → List (String × ℕ) → Type 0} (a : A) → Triple (C a) C (pure a)
  unfolding pure
  pure-Triple a = record { run = λ s h. h }

bracket-Triple :
    (settings : Settings) (fuel : ℕ) (name : String)
    → str_eq name "" ≡ false
    → Triple
        (Unbound name)
        (λ ast. Bound name ast)
        (read_bracket settings (read_single_ast settings fuel) fuel name)
unfolding read_bracket
bracket-Triple settings fuel name proper = bind-Triple (next_token-Keeps settings) (λ tag_str.
    bind-Triple (lift-Keeps _) (λ tag. bind-Triple (machine-Keeps _) (λ fields_type.
      bind-Triple (machine-Keeps _) (λ size. bind-Triple (machine-Keeps _) (λ location.
        insert_name-Triple name location proper (
          bind-Triple (lift-Keeps _) (λ info.
            then-Triple
              (read_fields-Keeps settings (read_single_ast settings fuel)
                (read_single_ast-Sound settings fuel) name location fuel info tag location 0)
              (pure-Triple {C = λ ast. Bound name ast} location))))))))

-- Where an AST in brackets that is declared under a new name, not the empty one, is read to its end,
-- the name stands for the AST that is returned, and every name that stood for an AST before, null
-- included, still stands for it, whatever the fields declare.
pub read_bracket-Bound :
    (settings : Settings) (fuel : ℕ) (name : String) (s s' : Reader) (ast : ℕ)
    → str_eq name "" ≡ false
    → find_name name s.ast_map ≡ none
    → read_bracket settings (read_single_ast settings fuel) fuel name s ≡ ok (ast, s')
    → (find_name name s'.ast_map ≡ some ast)
      × ((other : String) (a : ℕ)
          → find_name other s.ast_map ≡ some a
          → find_name other s'.ast_map ≡ some a)
read_bracket-Bound settings fuel name s s' ast proper free e = (
  subst (After (λ ast. Bound name ast)) e ((bracket-Triple settings fuel name proper).run s free),
  λ other a h. subst (After (λ _. Bound other a)) e (
      (read_bracket-Keeps settings (read_single_ast settings fuel)
          (read_single_ast-Sound settings fuel) other a fuel name).kept
        s h),
)
