-- ===== src/Vector/Words.antt =====
-- Runs of words in memory, and the loop of src/vector.h that copies them.
use super_searcher.Base.{
  ℕ, zero, suc, ◌+◌, ◌*◌, ◌≤◌, ◌<◌, ◌≡◌, refl, ◌∙◌, ◌⊎◌, inl, inr, List, [], ◌∷◌, ◌++◌, length,
  some, get_elem?, arith,
}
use super_searcher.Types.{Mem}
use super_searcher.Memory.State.{write}
use super_searcher.Vector.{copy_words}

-- The words from `a` on are those of the list.
abbrev pub Words : Mem → ℕ → List ℕ → Type 0
Words m a [] = Unit
Words m a (x ∷ xs) = (m a ≡ x) × Words m (a + 8) xs

pub write-ne : (m : Mem) (a v b : ℕ) → ((b < a) ⊎ (a < b)) → write m a v b ≡ m b
unfolding write
write-ne m a v b h = ground arith

pub write_self : (m : Mem) (a v : ℕ) → write m a v a ≡ v
unfolding write
write_self m a v = ground arith

pub Words-frame :
    (m m' : Mem) (a : ℕ) (xs : List ℕ)
    → ((b : ℕ) → a ≤ b → b < a + 8 * length xs → m' b ≡ m b)
    → Words m a xs
    → Words m' a xs
Words-frame m m' a [] same h = tt
Words-frame m m' a (x ∷ xs) same h = (
  same a (omega arith) (omega arith) ∙ h.0,
  Words-frame m m' (a + 8) xs (λ b lo hi. same b (omega arith) (omega arith)) h.1,
)

pub Words-snoc :
    (m : Mem) (a : ℕ) (xs : List ℕ) (v b : ℕ)
    → Words m a xs
    → b ≡ a + 8 * length xs
    → m b ≡ v
    → Words m a (xs ++ v ∷ [])
Words-snoc m a [] v b h at e = let here : a ≡ b = omega arith in (rw here e, tt)
Words-snoc m a (x ∷ xs) v b h at e = (h.0, Words-snoc m (a + 8) xs v b h.1 (omega arith) e)

pub Words-get :
    (m : Mem) (a : ℕ) (xs : List ℕ) (i b x : ℕ)
    → Words m a xs
    → b ≡ a + 8 * i
    → get_elem? xs i ≡ some x
    → (m b ≡ x) × (i < length xs)
Words-get m a [] i b x h at e = cc
Words-get m a (y ∷ xs) zero b x h at e =
    let here : b ≡ a = omega arith in (rw here (h.0 ∙ ground arith), omega arith)
Words-get m a (y ∷ xs) (suc i) b x h at e =
    let rest = Words-get m (a + 8) xs i b x h.1 (omega arith) e in (rest.0, omega (arith, rest.1))

pub copy_words-outside :
    (m : Mem) (source target count b : ℕ)
    → ((b < target) ⊎ (target + 8 * count ≤ b))
    → copy_words m source target count b ≡ m b
unfolding copy_words
copy_words-outside m source target zero b h = refl
copy_words-outside m source target (suc count) b (inl h) =
    copy_words-outside (write m target (m source)) (source + 8) (target + 8) count b
      (inl (omega arith))
    ∙ write-ne m target (m source) b (inl h)
copy_words-outside m source target (suc count) b (inr h) =
    copy_words-outside (write m target (m source)) (source + 8) (target + 8) count b
      (inr (omega arith))
    ∙ write-ne m target (m source) b (inr (omega arith))

-- Words are copied faithfully to a place apart from where they were.
pub copy_words-Words :
    (m : Mem) (source target count : ℕ) (xs : List ℕ)
    → count ≡ length xs
    → ((source + 8 * count ≤ target) ⊎ (target + 8 * count ≤ source))
    → Words m source xs
    → Words (copy_words m source target count) target xs
unfolding copy_words
copy_words-Words m source target count [] e apart h = tt
copy_words-Words m source target zero (x ∷ xs) e apart h = absurd (omega arith)
copy_words-Words m source target (suc count) (x ∷ xs) e apart h =
    let m' = write m target (m source) in
    (
      copy_words-outside m' (source + 8) (target + 8) count target (inl (omega arith))
          ∙ write_self m target (m source)
          ∙ h.0,
      copy_words-Words m' (source + 8) (target + 8) count xs (omega arith) (move apart) (
          Words-frame m m' (source + 8) xs
            (λ b lo hi. write-ne m target (m source) b (off b lo hi apart)) h.1),
    )
  where
    move :
        ((source + 8 * suc count ≤ target) ⊎ (target + 8 * suc count ≤ source))
        → (source + 8 + 8 * count ≤ target + 8) ⊎ (target + 8 + 8 * count ≤ source + 8)
    move h = omega arith

    off :
        (b : ℕ)
        → source + 8 ≤ b
        → b < source + 8 + 8 * length xs
        → ((source + 8 * suc count ≤ target) ⊎ (target + 8 * suc count ≤ source))
        → (b < target) ⊎ (target < b)
    off b lo hi h = omega arith
