-- ===== src/Memory/Sweep/Layout.antt =====
-- `sweepy_sweep` (src/memory.cpp) makes the free blocks and the living objects tile the pool.
use super_searcher.Base.{
  ℕ, zero, suc, ◌+◌, ◌-◌, ◌*◌, ◌%◌, ◌≤◌, ◌<◌, ◌≡◌, refl, subst, ◌∙◌, ◌⊎◌, inl, inr, true, none,
  some, List, [], ◌∷◌, ◌++◌, ltb, length, All, arith,
}
use mathlib.Core.List.{append_assoc}
use super_searcher.Base.Result.{ok}
use super_searcher.Memory.State.{Machine}
use super_searcher.Memory.Blocks.{within, covered, total}
use super_searcher.Memory.Sweep.{
  Living, Sweeper, next_living, release_gap, sweep_loop, sweep, pool_size,
}
use super_searcher.Memory.Sweep.Gap.{span, span-add, Freed, release_gap-Freed, sweep_end-Freed}

-- How many living objects, 0 or 1 in a layout, hold the byte at an address.
abbrev pub living_covered : List Living → ℕ → ℕ
living_covered [] b = 0
living_covered ((a, n) ∷ rest) b = within (n, a) b + living_covered rest b

abbrev pub living_total : List Living → ℕ
living_total [] = 0
living_total ((a, n) ∷ rest) = n + living_total rest

-- From `position` to `end`, objects of at least one word lie one behind the other, at whole words.
abbrev pub Layout : ℕ → List Living → ℕ → Type 0
Layout position [] end = (position ≤ end) × ((end - position) % 8 ≡ 0)
Layout position ((a, n) ∷ rest) end =
    (position ≤ a) × ((a - position) % 8 ≡ 0) × (0 < n) × Layout (a + 8 * n) rest end

Layout-le : (p : ℕ) (l : List Living) (end : ℕ) → Layout p l end → p ≤ end
Layout-le p [] end h = h.0
Layout-le p ((a, n) ∷ rest) end h = omega (arith, Layout-le (a + 8 * n) rest end h.3)

-- The objects that the loop has passed are skipped by the search.
next_living-append :
    (p : ℕ) (done rest : List Living)
    → All (λ x. x.0 < p) done
    → next_living p (done ++ rest) ≡ next_living p rest
unfolding next_living
next_living-append p [] rest h = refl
next_living-append p ((a, n) ∷ done) rest h =
    let e : ltb a p ≡ true = ground arith in rw e (next_living-append p done rest h.1)

-- What the loop has done when it has passed the objects: up to the position where it stands, each
-- byte is in a free block or in one of them, and no byte of theirs was overwritten.
record Passed (objects : List Living) (s s' : Sweeper) : Type 0 where
  forward : s.position ≤ s'.position
  tiled :
      (b : ℕ)
      → covered s'.free b + living_covered objects b
        ≡ covered s.free b + span s.position s'.position b
  words : 8 * total s'.free + 8 * living_total objects + s.position ≡ 8 * total s.free + s'.position
  kept : (b : ℕ) → ((b < s.position) ⊎ (0 < living_covered objects b)) → s'.mem b ≡ s.mem b
  beyond : (end : ℕ) → Layout s.position objects end → Layout s'.position [] end

Passed-none : (s : Sweeper) → Passed [] s s
Passed-none s = record {
  forward = omega arith;
  tiled = λ b. let none_in : span s.position s.position b ≡ 0 = ground arith in omega arith;
  words = omega arith;
  kept = λ b h. refl;
  beyond = λ end h. h;
}

Passed-cons :
    (a n : ℕ) (rest : List Living) (s t u : Sweeper)
    → s.position ≤ a
    → ((b : ℕ) → 0 < living_covered rest b → a + 8 * n ≤ b)
    → Freed s.position a s t
    → Passed rest (record t { position = a + 8 * n }) u
    → Passed ((a, n) ∷ rest) s u
Passed-cons a n rest s t u le above freed passed = record {
  forward = omega (arith, passed.forward);
  tiled = λ b. omega (
    arith,
    freed.tiled b,
    passed.tiled b,
    span-add s.position a (a + 8 * n) b le (omega arith),
    span-add s.position (a + 8 * n) u.position b (omega arith) passed.forward,
  );
  words = omega (arith, freed.words, passed.words);
  kept = λ b h. passed.kept b (later b h) ∙ freed.kept b (earlier b h);
  beyond = λ end h. passed.beyond end h.3;
}
  where
    later :
        (b : ℕ)
        → ((b < s.position) ⊎ (0 < within (n, a) b + living_covered rest b))
        → (b < a + 8 * n) ⊎ (0 < living_covered rest b)
    later b h = ground arith

    earlier :
        (b : ℕ)
        → ((b < s.position) ⊎ (0 < within (n, a) b + living_covered rest b))
        → (b < s.position) ⊎ (a ≤ b)
    earlier b h = ground (arith, above b)

living_covered-above :
    (p : ℕ) (l : List Living) (end b : ℕ) → Layout p l end → 0 < living_covered l b → p ≤ b
living_covered-above p [] end b h pos = absurd (omega arith)
living_covered-above p ((a, n) ∷ rest) end b h pos =
    ground (arith, living_covered-above (a + 8 * n) rest end b h.3)

All-snoc :
    (p q : ℕ) (l : List Living) (x : Living)
    → p ≤ q
    → x.0 < q
    → All (λ y. y.0 < p) l
    → All (λ y. y.0 < q) (l ++ x ∷ [])
All-snoc p q [] x le h k = (h, tt)
All-snoc p q (y ∷ l) x le h k = (omega arith, All-snoc p q l x le h k.1)

sweep_loop-done :
    (fuel : ℕ) (living : List Living) (s : Sweeper)
    → next_living s.position living ≡ none
    → sweep_loop (suc fuel) living s ≡ ok s
unfolding sweep_loop
sweep_loop-done fuel living s h = rw (h, sweep_loop) refl

sweep_loop-next :
    (fuel : ℕ) (living : List Living) (s t : Sweeper) (a n : ℕ)
    → next_living s.position living ≡ some (a, n)
    → release_gap pool_size a s ≡ ok t
    → sweep_loop (suc fuel) living s ≡ sweep_loop fuel living (record t { position = a + 8 * n })
unfolding sweep_loop
sweep_loop-next fuel living s t a n h k = rw (h, sweep_loop, k) refl

next_living-here :
    (a n p : ℕ) (rest : List Living) → p ≤ a → next_living p ((a, n) ∷ rest) ≡ some (a, n)
unfolding next_living
next_living-here a n p rest h = ground arith

-- The loop passes the objects that it has not passed yet, and ends by itself.
sweep_loop-Passed :
    (fuel : ℕ) (done rest : List Living) (s : Sweeper) (end : ℕ)
    → length rest < fuel
    → All (λ x. x.0 < s.position) done
    → Layout s.position rest end
    → end ≤ s.position + 8 * pool_size
    → (s' : Sweeper) × (sweep_loop fuel (done ++ rest) s ≡ ok s') × Passed rest s s'
sweep_loop-Passed zero done rest s end lt passed layout room = absurd (omega arith)
sweep_loop-Passed (suc fuel) done [] s end lt passed layout room = (
  s,
  sweep_loop-done fuel _ s
      (next_living-append s.position done [] passed ∙ unfold next_living in refl),
  Passed-none s,
)
sweep_loop-Passed (suc fuel) done ((a, n) ∷ rest) s end lt passed layout room =
    let inside = Layout-le (a + 8 * n) rest end layout.3 in
    let gap = release_gap-Freed pool_size a s layout.0 layout.1 (omega arith) in
    let t : Sweeper = record gap.0 { position = a + 8 * n } in
    let after =
      sweep_loop-Passed fuel (done ++ (a, n) ∷ []) rest t end (omega arith)
        (All-snoc s.position (a + 8 * n) done (a, n) (omega arith) (omega arith) passed) layout.3
        (omega arith) in
    (
      after.0,
      sweep_loop-next fuel _ s gap.0 a n
            (next_living-append s.position done ((a, n) ∷ rest) passed
              ∙ next_living-here a n s.position rest layout.0)
            gap.1
          ∙ subst (λ l. sweep_loop fuel l t ≡ ok after.0) (append_assoc done ((a, n) ∷ []) rest)
              after.1,
      Passed-cons a n rest s gap.0 after.0 layout.0
          (λ b. living_covered-above (a + 8 * n) rest end b layout.3) gap.2 after.2,
    )

span-lt : (p q b : ℕ) → 0 < span p q b → b < q
span-lt p q b h = ground arith

-- The free blocks and the living objects together cover each byte of the pool once and no other
-- byte; their words add up to those of the pool; a living byte keeps its value.
pub record Swept (pool : ℕ) (living : List Living) (s s' : Machine) : Type 0 where
  pub tiles :
      (b : ℕ)
      → covered s'.free_memory b + living_covered living b ≡ span pool (pool + 8 * pool_size) b
  pub words : total s'.free_memory + living_total living ≡ pool_size
  pub kept : (b : ℕ) → 0 < living_covered living b → s'.mem b ≡ s.mem b

-- If the living objects lie in the pool one behind the other, the sweep ends without an error, and
-- the free blocks and the living objects tile the pool: each byte of it is in exactly one of them,
-- no block holds a byte outside, their words add up to those of the pool, and no living byte is
-- overwritten.
pub sweep-Swept :
    (pool : ℕ) (living : List Living) (s : Machine)
    → Layout pool living (pool + 8 * pool_size)
    → (s' : Machine) × (sweep pool living s ≡ ok (tt, s')) × Swept pool living s s'
unfolding sweep
sweep-Swept pool living s layout =
    let end = pool + 8 * pool_size in
    let start : Sweeper = record { mem = s.mem; free = []; position = pool } in
    let looped =
      sweep_loop-Passed (suc (length living)) [] living start end (omega arith) tt layout
        (omega arith) in
    let left = looped.2.beyond end layout in
    let ended = sweep_end-Freed end looped.0 left.0 left.1 in
    (
      record s { mem = ended.0.mem; free_memory = ended.0.free },
      rw (looped.1, ended.1) refl,
      record {
        tiles = λ b. omega (
          arith,
          looped.2.tiled b,
          ended.2.tiled b,
          span-add pool looped.0.position end b looped.2.forward left.0,
        );
        words = omega (arith, looped.2.words, ended.2.words);
        kept = λ b living_byte.
            ended.2.kept b (
              inl (span-lt pool looped.0.position b (omega (arith, looped.2.tiled b, living_byte))))
            ∙ looped.2.kept b (inr living_byte);
      },
    )
