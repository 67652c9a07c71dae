-- ===== src/Types/Compare/Laws.antt =====
-- Facts about the comparison on trees: it is perfect on equal trees, and for references on no others.
use super_searcher.Base.{
  ℕ, suc, ◌+◌, ◌≡◌, refl, inl, inr, Bool, true, false, ◌&&◌, if◌then◌else◌, Bool-cases, arith,
}
use super_searcher.Types.{Mem, Tptr}
use super_searcher.Types.Tree.{
  integer, Ty, leaf, wrap, con_vec, Tys, nil, cons, count, IsSingle, Rep, RepAll, same, same_all,
  same_iff,
}
use super_searcher.Types.Check.{TypeStatus, rvo, reference, different, perfect_fit, is_perfect}
use super_searcher.Types.Compare.{fits, prefix_fits, by_count, verdict, compare}

same_all-cons :
    (s t : Ty) (ss ts : Tys) → same_all (cons s ss) (cons t ts) ≡ (same s t && same_all ss ts)
unfolding same same_all
same_all-cons s t ss ts = refl

by_count-suc : (a b : ℕ) → by_count (suc a) (suc b) ≡ by_count a b
by_count-suc a b = ground arith

prefix-same :
    (ss ts : Tys)
    → is_perfect (if prefix_fits reference ss ts then by_count (count ss) (count ts) else different)
      ≡ same_all ss ts
unfolding same_all
prefix-same nil nil = refl
prefix-same nil (cons t ts) = ground arith
prefix-same (cons s ss) nil = ground arith
prefix-same (cons s ss) (cons t ts) = elim (Bool-cases (same s t)) [
  | inl e ↦ rw (same_all-cons s t ss ts, e, by_count-suc (count ss) (count ts)) (prefix-same ss ts)
  | inr e ↦ rw (same_all-cons s t ss ts, e) refl
]

is_perfect-verdict : (b : Bool) → is_perfect (verdict b) ≡ b
is_perfect-verdict true = refl
is_perfect-verdict false = refl

pub compare-same : (s t : Ty) → is_perfect (compare reference s t) ≡ same s t
unfolding same
compare-same (leaf k) (leaf l) = is_perfect-verdict _
compare-same (leaf k) (wrap w t) = refl
compare-same (leaf k) (con_vec ts) = refl
compare-same (wrap v s) (leaf l) = refl
compare-same (wrap v s) (wrap w t) = is_perfect-verdict _
compare-same (wrap v s) (con_vec ts) = refl
compare-same (con_vec ss) (leaf l) = refl
compare-same (con_vec ss) (wrap w t) = refl
compare-same (con_vec ss) (con_vec ts) = prefix-same ss ts

abbrev pub is_con_vec : Ty → Bool
is_con_vec (con_vec ts) = true
is_con_vec _ = false

fits_self : (version : TypeStatus) (s : Ty) → IsSingle s → fits version s s ≡ true
fits_self reference s single = (same_iff s s).1 refl
fits_self rvo (leaf integer) single = refl
fits_self rvo (leaf k) single = (same_iff (leaf k) (leaf k)).1 refl
fits_self rvo (wrap w s) single = ground arith
fits_self rvo (con_vec ss) single = absurd single

prefix_fits_self :
    (version : TypeStatus) (m : Mem) (a : ℕ) (ss : Tys)
    → RepAll m a ss
    → prefix_fits version ss ss ≡ true
prefix_fits_self version m a nil h = refl
prefix_fits_self version m a (cons s ss) h =
    rw (fits_self version s h.1, prefix_fits_self version m (a + 8) ss h.2)

by_count_self : (c : ℕ) → by_count c c ≡ perfect_fit
by_count_self c = ground arith

pub compare_self :
    (version : TypeStatus) (m : Mem) (v : Tptr) (s : Ty)
    → Rep m v s
    → compare version s s ≡ perfect_fit
compare_self version m v (leaf k) h = rw (fits_self version (leaf k) tt)
compare_self version m v (wrap w s) h = rw (fits_self version (wrap w s) tt)
compare_self version m v (con_vec ss) h =
    rw (prefix_fits_self version m (v + 16) ss h.4, by_count_self (count ss))
