-- ===== src/Console/Scanner.antt =====
-- The tokens of the console's language, from the source_reader of src/testdriver.cpp. The stream is the
-- text that is left in it; a character is compared by its number.
use Prim.Native.String.{String, [], ◌∷◌}
use Prim.Native.Char.{Char, code}
use super_searcher.Base.{ℕ, Bool, not, ◌&&◌, ◌||◌, ◌==◌, if◌then◌else◌}
use super_searcher.Base.Result.{Result, ok, out_of_fuel, ◌>>=◌}

-- '\n', '\t', '\r' and ' '
unfoldable pub is_blank : Char → Bool
is_blank c = code c == 10 || code c == 9 || code c == 13 || code c == 32

-- '[', ']', '{' and '}'
unfoldable pub is_bracket : Char → Bool
is_bracket c = code c == 91 || code c == 93 || code c == 123 || code c == 125

-- What ends a word, for the character `ending_char`.
unfoldable pub ends_word : ℕ → Char → Bool
ends_word ending_char c = is_bracket c || code c == ending_char || is_blank c

-- The loop over blanks, which ends at the ending character.
unfoldable pub skip_blanks : ℕ → String → String
skip_blanks ending_char [] = []
skip_blanks ending_char (c ∷ s) =
    if is_blank c && not (code c == ending_char) then skip_blanks ending_char s else c ∷ s

-- The loop over the characters of a word. At the end of the stream it never ends: what peek gives
-- there ends no word, and the word grows.
unfoldable pub read_word : ℕ → String → Result (String × String)
read_word ending_char [] = out_of_fuel
read_word ending_char (c ∷ s) =
    let rest = read_word ending_char s in
    if ends_word ending_char c
    then ok ([], c ∷ s)
    else rest >>= λ (r : String × String). ok (c ∷ r.0, r.1)

-- The token that begins here.
unfoldable pub token_at : ℕ → String → Result (String × String)
token_at ending_char [] = read_word ending_char []
token_at ending_char (c ∷ s) =
    if code c == ending_char
    then ok ([], c ∷ s)
    else if is_bracket c
    then ok (c ∷ [], s)
    else read_word ending_char (c ∷ s)

-- get_token: the token, empty at the ending character, and the rest of the stream.
unfoldable pub get_token : ℕ → String → Result (String × String)
unfolding skip_blanks token_at
get_token ending_char input = token_at ending_char (skip_blanks ending_char input)
