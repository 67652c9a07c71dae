-- ===== src/Queue/Layout.antt =====
-- Runs of words in the queue's memory (src/generic_ipc.h), and what write_values does to them.
use super_searcher.Base.{
  ℕ, ◌+◌, ◌≤◌, ◌<◌, ◌≡◌, refl, ap, sym, subst, ◌∙◌, ◌⊎◌, inl, List, [], ◌∷◌, ◌++◌, length, arith,
}
use super_searcher.Queue.{Words, put, next_offset, write_from}

-- The words from index `i` on are those of the list.
abbrev pub Cells : Words → ℕ → List ℕ → Type 0
Cells q i [] = Unit
Cells q i (v ∷ vs) = (q i ≡ v) × Cells q (i + 1) vs

pub put-ne : (q : Words) (i v j : ℕ) → ((j < i) ⊎ (i < j)) → put q i v j ≡ q j
unfolding put
put-ne q i v j h = ground arith

pub put_self : (q : Words) (i v : ℕ) → put q i v i ≡ v
unfolding put
put_self q i v = ground arith

pub Cells-frame :
    (q q' : Words) (i : ℕ) (vs : List ℕ)
    → ((j : ℕ) → i ≤ j → j < i + length vs → q' j ≡ q j)
    → Cells q i vs
    → Cells q' i vs
Cells-frame q q' i [] same h = tt
Cells-frame q q' i (v ∷ vs) same h = (
  same i (omega arith) (omega arith) ∙ h.0,
  Cells-frame q q' (i + 1) vs (λ j lo hi. same j (omega arith) (omega arith)) h.1,
)

pub Cells-append :
    (q : Words) (i j : ℕ) (vs ws : List ℕ)
    → Cells q i vs
    → j ≡ i + length vs
    → Cells q j ws
    → Cells q i (vs ++ ws)
Cells-append q i j [] ws h e k = let here : i ≡ j = omega arith in rw here k
Cells-append q i j (v ∷ vs) ws h e k = (h.0, Cells-append q (i + 1) j vs ws h.1 (omega arith) k)

-- Up to the end of the memory, write_from fills consecutive words and no others.
pub write_from-outside :
    (mmap_size offset : ℕ) (vs : List ℕ) (q : Words) (j : ℕ)
    → offset + length vs ≤ mmap_size
    → ((j < offset) ⊎ (offset + length vs ≤ j))
    → write_from mmap_size offset vs q j ≡ q j
unfolding write_from
write_from-outside mmap_size offset [] q j room out = refl
write_from-outside mmap_size offset (v ∷ []) q j room out = put-ne q offset v j (omega arith)
write_from-outside mmap_size offset (v ∷ w ∷ vs) q j room out =
    let straight : next_offset mmap_size offset ≡ offset + 1 = ground arith in
    rw straight (
      write_from-outside mmap_size (offset + 1) (w ∷ vs) (put q offset v) j (omega arith)
        (omega arith)
      ∙ put-ne q offset v j (omega arith))

write_from-cons :
    (mmap_size offset v : ℕ) (vs : List ℕ) (q : Words)
    → offset + 1 < mmap_size
    → write_from mmap_size offset (v ∷ vs) q ≡ write_from mmap_size (offset + 1) vs (put q offset v)
unfolding write_from
write_from-cons mmap_size offset v vs q room =
    ap (λ o. write_from mmap_size o vs (put q offset v)) (straight offset room)
  where
    straight : (o : ℕ) → o + 1 < mmap_size → next_offset mmap_size o ≡ o + 1
    straight o h = unfold next_offset in ground arith

pub write_from-Cells :
    (mmap_size offset : ℕ) (vs : List ℕ) (q : Words)
    → offset + length vs < mmap_size
    → Cells (write_from mmap_size offset vs q) offset vs
write_from-Cells mmap_size offset [] q room = tt
write_from-Cells mmap_size offset (v ∷ vs) q room =
    subst (λ u. Cells u offset (v ∷ vs))
      (sym (write_from-cons mmap_size offset v vs q (omega arith)))
      (
        write_from-outside mmap_size (offset + 1) vs (put q offset v) offset (omega arith)
              (inl (omega arith))
            ∙ put_self q offset v,
        write_from-Cells mmap_size (offset + 1) vs (put q offset v) (omega arith),
      )
