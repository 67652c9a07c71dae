-- ===== src/Types/Verdicts.antt =====
-- What the answers of `type_check` (src/types.cpp) mean.
use super_searcher.Base.{ℕ, ◌<◌, ◌≡◌, sym, ◌∙◌, ◌↔◌, ◌⊎◌, true, arith}
use super_searcher.Base.Result.{Result, ok}
use super_searcher.Types.{Mem, Tptr}
use super_searcher.Types.Check.{
  rvo, reference, TypeCheckResult, perfect_fit, is_perfect, type_check,
}
use super_searcher.Types.Compare.Laws.{compare-same}
use super_searcher.Types.Compare.Code.{type_check-compare}
use super_searcher.Types.Tree.{Ty, Wrap, wrap, pointer, temp_pointer, depth, Rep, same_iff}

perfect_iff :
    (r : TypeCheckResult)
    → (◌≡◌ {A = Result TypeCheckResult} (ok r) (ok perfect_fit)) ↔ (is_perfect r ≡ true)
perfect_iff r = ground arith

-- For references `type_check` answers with a perfect fit exactly if memory holds equal trees at the
-- two `Tptr`s, wherever they stand.
pub type_check-eq :
    (fuel : ℕ) (m : Mem) (e n : Tptr) (s t : Ty)
    → depth s < fuel
    → Rep m e s
    → Rep m n t
    → (type_check fuel m reference e n ≡ ok perfect_fit) ↔ (s ≡ t)
type_check-eq fuel m e n s t lt he hn =
    let code = type_check-compare fuel m reference e n s t lt he hn in
    let trees = compare-same s t in
    (
      λ h. (same_iff s t).0 (sym trees ∙ (perfect_iff _).0 (sym code ∙ h)),
      λ h. code ∙ (perfect_iff _).1 (trees ∙ (same_iff s t).1 h),
    )

-- For a store `type_check` answers with a perfect fit whenever both types are pointers of one kind,
-- or a pointer meets a slot for temporary pointers, whatever the two pointees are: the pointer
-- cases fall through into the integer case.
pub pointer_store_ignores_pointee :
    (fuel : ℕ) (m : Mem) (e n : Tptr) (v w : Wrap) (s t : Ty)
    → depth (wrap v s) < fuel
    → ((v ≡ w) ⊎ ((v ≡ pointer) × (w ≡ temp_pointer)))
    → Rep m e (wrap v s)
    → Rep m n (wrap w t)
    → type_check fuel m rvo e n ≡ ok perfect_fit
pointer_store_ignores_pointee fuel m e n v w s t lt kinds he hn =
    type_check-compare fuel m rvo e n (wrap v s) (wrap w t) lt he hn ∙ ground arith
