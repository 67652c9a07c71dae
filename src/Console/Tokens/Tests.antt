-- ===== src/Console/Tokens/Tests.antt =====
-- Runs of get_token (src/testdriver.cpp), and the theorem there.
use super_searcher.Base.{◌≡◌, refl}
use super_searcher.Base.Result.{ok}
use super_searcher.Console.Scanner.{
  is_blank, is_bracket, ends_word, skip_blanks, read_word, token_at, get_token,
}
use super_searcher.Console.Tokens.{get_token-append}

first_token : get_token 10 "  [zero]\n" ≡ ok ("[", "zero]\n")
unfolding get_token token_at skip_blanks read_word is_blank is_bracket ends_word
first_token = refl

second_token : get_token 10 "zero]\n" ≡ ok ("zero", "]\n")
unfolding get_token token_at skip_blanks read_word is_blank is_bracket ends_word
second_token = refl

get_token-append_example : get_token 10 "  if a" ≡ ok ("if", " a")
unfolding is_blank ends_word is_bracket
get_token-append_example =
    get_token-append 10 "  " "i" "f" " " "a" (refl, (refl, tt)) refl (refl, tt) refl
