-- ===== src/Memory/Sweep/Fill.antt =====
-- What the overwriting of a free block leaves alone.
use super_searcher.Base.{ℕ, zero, suc, ◌+◌, ◌*◌, ◌≤◌, ◌<◌, ◌≡◌, refl, ◌∙◌, ◌⊎◌, inl, inr, arith}
use super_searcher.Types.{Mem}
use super_searcher.Memory.State.{write}
use super_searcher.Memory.Sweep.{fill, collected_special_value}

pub fill-outside : (m : Mem) (a n b : ℕ) → ((b < a) ⊎ (a + 8 * n ≤ b)) → fill m a n b ≡ m b
unfolding fill write
fill-outside m a zero b h = refl
fill-outside m a (suc n) b (inl h) =
    fill-outside (write m a collected_special_value) (a + 8) n b (inl (omega arith)) ∙ ground arith
fill-outside m a (suc n) b (inr h) =
    fill-outside (write m a collected_special_value) (a + 8) n b (inr (omega arith)) ∙ ground arith
