-- ===== src/Console/Tokens.antt =====
-- `get_token` (src/testdriver.cpp) reads the words that a text is made of.
mod Tests
use Prim.Native.String.{String, [], ◌∷◌}
use Prim.Native.Char.{Char, code}
use super_searcher.Base.{
  ℕ, ◌≡◌, refl, ◌∙◌, ◌⊎◌, inl, inr, Bool, true, false, not, ◌&&◌, ◌||◌, ◌==◌, Bool-cases,
  if◌then◌else◌, arith,
}
use super_searcher.Base.Result.{Result, ok, ◌>>=◌}
use super_searcher.Console.Scanner.{
  is_blank, is_bracket, ends_word, skip_blanks, read_word, token_at, get_token,
}

-- A predicate that holds of every character.
abbrev pub AllChars : (Char → Type 0) → String → Type 0
AllChars P [] = Unit
AllChars P (c ∷ s) = P c × AllChars P s

-- A text and the text behind it.
infixr 65 ◌++◌
abbrev pub ◌++◌ : String → String → String
[] ++ t = t
(c ∷ s) ++ t = c ∷ (s ++ t)

skip_blanks-append :
    (e : ℕ) (blanks s : String)
    → AllChars (λ c. (is_blank c && not (code c == e)) ≡ true) blanks
    → skip_blanks e (blanks ++ s) ≡ skip_blanks e s
unfolding skip_blanks
skip_blanks-append e [] s h = refl
skip_blanks-append e (c ∷ blanks) s h = rw h.0 (skip_blanks-append e blanks s h.1)

read_word-append :
    (e : ℕ) (word : String) (d : Char) (rest : String)
    → AllChars (λ c. ends_word e c ≡ false) word
    → ends_word e d ≡ true
    → read_word e (word ++ (d ∷ rest)) ≡ ok (word, d ∷ rest)
unfolding read_word
read_word-append e [] d rest h ends = rw ends refl
read_word-append e (c ∷ word) d rest h ends = rw (h.0, read_word-append e word d rest h.1 ends) refl

-- A character of a word neither ends the text, nor is a bracket, nor blank.
word_character :
    (e : ℕ) (c : Char)
    → ends_word e c ≡ false
    → ((code c == e) ≡ false) × (is_bracket c ≡ false) × ((is_blank c && not (code c == e)) ≡ false)
unfolding ends_word
word_character e c h = elim (Bool-cases (is_bracket c)) [
  | inl bracket ↦ absurd (ground (arith, h, bracket))
  | inr plain ↦ elim (Bool-cases (code c == e)) [
    | inl end ↦ absurd (ground (arith, h, plain, end))
    | inr other ↦ elim (Bool-cases (is_blank c)) [
      | inl blank ↦ absurd (ground (arith, h, plain, other, blank))
      | inr dark ↦ (other, plain, rw dark refl)
    ]
  ]
]

-- A text gives its words back. Take blanks other than the ending character, then a word of at least
-- one character, none of which is a bracket, a blank or the ending character, then one of these:
-- get_token skips the blanks, reads the word, and leaves the text from that character on.
pub get_token-append :
    (e : ℕ) (blanks : String) (c : Char) (word : String) (d : Char) (rest : String)
    → AllChars (λ b. (is_blank b && not (code b == e)) ≡ true) blanks
    → ends_word e c ≡ false
    → AllChars (λ b. ends_word e b ≡ false) word
    → ends_word e d ≡ true
    → get_token e (blanks ++ ((c ∷ word) ++ (d ∷ rest))) ≡ ok (c ∷ word, d ∷ rest)
unfolding get_token token_at skip_blanks
get_token-append e blanks c word d rest between first others ends =
    let plain = word_character e c first in
    rw (skip_blanks-append e blanks ((c ∷ word) ++ (d ∷ rest)) between, plain.2, plain.0, plain.1)
      (read_word-append e (c ∷ word) d rest (first, others) ends)
