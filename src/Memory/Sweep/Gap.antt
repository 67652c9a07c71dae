-- ===== src/Memory/Sweep/Gap.antt =====
-- What `sweepy_sweep` (src/memory.cpp) does with one gap between living objects.
use super_searcher.Base.{
  ℕ, ◌+◌, ◌-◌, ◌*◌, ◌/◌, ◌%◌, ◌≤◌, ◌<◌, ◌≡◌, refl, sym, ◌⊎◌, inl, inr, true, false, ◌==◌, ltb, leb,
  if◌then◌else◌, arith, Bool-cases, eq_of_==, ◌&&◌,
}
use super_searcher.Base.Result.{ok}
use super_searcher.Memory.Blocks.{insert, within, covered, total, covered-insert, total-insert}
use super_searcher.Memory.Sweep.{Sweeper, fill, release_gap, sweep_end}
use super_searcher.Memory.Sweep.Fill.{fill-outside}

-- 1 if the address lies in the interval from `p` up to `q`, which is left out.
abbrev pub span : ℕ → ℕ → ℕ → ℕ
span p q b = if leb p b && ltb b q then 1 else 0

pub span-add : (p q r b : ℕ) → p ≤ q → q ≤ r → span p q b + span q r b ≡ span p r b
span-add p q r b h k = ground arith

span-within : (p q b : ℕ) → p ≤ q → (q - p) % 8 ≡ 0 → within ((q - p) / 8, p) b ≡ span p q b
span-within p q b h k = let e : p + 8 * ((q - p) / 8) ≡ q = omega arith in rw e refl

-- What a part of the sweep that frees the gap from `p` to `q` does.
pub record Freed (p q : ℕ) (s s' : Sweeper) : Type 0 where
  pub tiled : (b : ℕ) → covered s'.free b ≡ covered s.free b + span p q b
  pub words : 8 * total s'.free + p ≡ 8 * total s.free + q
  pub kept : (b : ℕ) → ((b < p) ⊎ (q ≤ b)) → s'.mem b ≡ s.mem b

-- Filling and recording a gap of whole words frees it.
gap-Freed :
    (p q : ℕ) (s : Sweeper)
    → p ≤ q
    → (q - p) % 8 ≡ 0
    → Freed p q s
        (record s { mem = fill s.mem p ((q - p) / 8); free = insert ((q - p) / 8, p) s.free })
gap-Freed p q s le whole = record {
  tiled = λ b. omega (arith, covered-insert ((q - p) / 8, p) s.free b, span-within p q b le whole);
  words = omega (arith, total-insert ((q - p) / 8, p) s.free);
  kept = λ b out. fill-outside s.mem p ((q - p) / 8) b (ends b out);
}
  where
    ends : (b : ℕ) → ((b < p) ⊎ (q ≤ b)) → (b < p) ⊎ (p + 8 * ((q - p) / 8) ≤ b)
    ends b (inl h) = inl h
    ends b (inr h) = inr (omega arith)

none-Freed : (p q : ℕ) (s : Sweeper) → q ≡ p → Freed p q s s
none-Freed p q s e = record {
  tiled = λ b. let none_in : span p q b ≡ 0 = ground arith in omega arith;
  words = omega arith;
  kept = λ b out. refl;
}

pub release_gap-Freed :
    (bound q : ℕ) (s : Sweeper)
    → s.position ≤ q
    → (q - s.position) % 8 ≡ 0
    → (q - s.position) / 8 < bound
    → (s' : Sweeper) × (release_gap bound q s ≡ ok s') × Freed s.position q s s'
unfolding release_gap
release_gap-Freed bound q s le whole fits = elim (Bool-cases (q == s.position)) [
  | inl same ↦ (s, rw same refl, none-Freed s.position q s (eq_of_== q s.position same))
  | inr gap ↦ (_, rw (gap, lt→ltb fits) refl, gap-Freed s.position q s le whole)
]
  where
    lt→ltb : {x y : ℕ} → x < y → ltb x y ≡ true
    lt→ltb h = ground arith

pub sweep_end-Freed :
    (q : ℕ) (s : Sweeper)
    → s.position ≤ q
    → (q - s.position) % 8 ≡ 0
    → (s' : Sweeper) × (sweep_end q s ≡ ok s') × Freed s.position q s s'
unfolding sweep_end
sweep_end-Freed q s le whole = elim (Bool-cases (ltb s.position q)) [
  | inl gap ↦ (_, rw gap refl, gap-Freed s.position q s le whole)
  | inr no_gap ↦ (
    s,
    rw (no_gap, at_end s.position q le no_gap) refl,
    none-Freed s.position q s (sym (eq_of_== _ _ (at_end s.position q le no_gap))),
  )
]
  where
    at_end : (x y : ℕ) → x ≤ y → ltb x y ≡ false → (x == y) ≡ true
    at_end x y h k = ground arith
