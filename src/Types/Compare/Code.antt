-- ===== src/Types/Compare/Code.antt =====
-- `type_check` of src/types.cpp computes the comparison of the trees that memory holds.
use super_searcher.Base.{
  ℕ, zero, suc, ◌+◌, ◌*◌, ◌≤◌, ◌<◌, ◌≡◌, refl, sym, ap, ◌∙◌, inl, inr, false, ◌==◌, ltb,
  if◌then◌else◌, Bool-cases, eq_of_==, subst, arith,
}
use Prim.Native.Nat.{min}
use super_searcher.Types.Tag
use super_searcher.Base.Result.{ok}
use super_searcher.Types.{Mem, Tptr, ver}
use super_searcher.Types.Tree.{
  Wrap, Ty, leaf, wrap, con_vec, Tys, nil, cons, count, IsSingle, Rep, RepAll, depth, depth_all,
  ver-leaf, ver-address, field-address, Rep-ne, Rep-unique, leaf_tag_bounds, wrap_tag_bounds,
}
use super_searcher.Types.Check.{
  TypeStatus, reference, TypeCheckResult, different, new_reference_too_large,
  existing_reference_too_large, perfect_fit, Checker, pointees, type_switch, type_check_once,
  check_components, check_con_vecs, type_check_step, type_check,
}
use super_searcher.Types.Compare.{fits, prefix_fits, verdict, compare}
use super_searcher.Types.Compare.Laws.{compare-same, compare_self, is_con_vec}
use super_searcher.Types.Compare.Switch.{
  switch-leaf, switch-leaf_wrap, switch-wrap_leaf, switch-wrap,
}

-- The code over memory, given that its calls for pointees of depth below `d` are right.
module _ (m : Mem) (rec : Checker) (d : ℕ)
    (rec_lem : (e n : Tptr) (s t : Ty)
      → depth s < d
      → Rep m e s
      → Rep m n t
      → rec e n ≡ ok (compare reference s t)) where
  pointees-compare :
      (e n : Tptr) (v w : Wrap) (s t : Ty)
      → depth s < d
      → Rep m e (wrap v s)
      → Rep m n (wrap w t)
      → pointees rec m e n ≡ ok (compare reference s t)
  unfolding pointees
  pointees-compare e n v w s t lt he hn =
      rw (field-address m e 0 he.0, field-address m n 0 hn.0) (rec_lem _ _ s t lt he.2 hn.2)

  once-switch :
      (version : TypeStatus) (e n : Tptr) (s t : Ty)
      → Rep m e s
      → Rep m n t
      → type_check_once rec m version e n
        ≡ type_switch version (pointees rec m e n) (ver m e) (ver m n)
  unfolding type_check_once
  once-switch version e n s t he hn = rw ((Rep-ne m e s he).1, (Rep-ne m n t hn).1) refl

  once-fits :
      (version : TypeStatus) (e n : Tptr) (s t : Ty)
      → IsSingle s
      → IsSingle t
      → depth s ≤ d
      → Rep m e s
      → Rep m n t
      → type_check_once rec m version e n ≡ ok (verdict (fits version s t))
  once-fits version e n (leaf k) (leaf l) _ _ le he hn =
      rw (once-switch version e n (leaf k) (leaf l) he hn, ver-leaf m e k he, ver-leaf m n l hn)
        (switch-leaf version _ k l)
  once-fits version e n (leaf k) (wrap w t) _ _ le he hn =
      rw
        (
          once-switch version e n (leaf k) (wrap w t) he hn,
          ver-leaf m e k he,
          ver-address m n hn.0 ∙ hn.1,
        )
        (switch-leaf_wrap version _ k w t)
  once-fits version e n (wrap v s) (leaf l) _ _ le he hn =
      rw
        (
          once-switch version e n (wrap v s) (leaf l) he hn,
          ver-address m e he.0 ∙ he.1,
          ver-leaf m n l hn,
        )
        (switch-wrap_leaf version _ v s l)
  once-fits version e n (wrap v s) (wrap w t) _ _ le he hn =
      rw
        (
          once-switch version e n (wrap v s) (wrap w t) he hn,
          pointees-compare e n v w s t (omega arith) he hn,
          ver-address m e he.0 ∙ he.1,
          ver-address m n hn.0 ∙ hn.1,
        )
        (switch-wrap version _ v w s t (compare-same s t))
  once-fits version e n (con_vec ss) t bad _ le he hn = absurd bad
  once-fits version e n (leaf k) (con_vec ts) _ bad le he hn = absurd bad
  once-fits version e n (wrap v s) (con_vec ts) _ bad le he hn = absurd bad

  components-prefix :
      (version : TypeStatus) (e n x c a b : ℕ) (best : TypeCheckResult) (ss ts : Tys)
      → Tag.never_reached < e
      → Tag.never_reached < n
      → a ≡ e + 8 * (x + 1)
      → b ≡ n + 8 * (x + 1)
      → c ≡ min (count ss) (count ts)
      → depth_all ss ≤ d
      → RepAll m a ss
      → RepAll m b ts
      → check_components rec m version e n x c best
        ≡ ok (if prefix_fits version ss ts then best else different)
  unfolding check_components
  components-prefix version e n x zero a b best nil ts pe pn ea eb ec le hs ht = refl
  components-prefix version e n x (suc c) a b best nil ts pe pn ea eb ec le hs ht =
      absurd (omega arith)
  components-prefix version e n x zero a b best (cons s ss) nil pe pn ea eb ec le hs ht = refl
  components-prefix version e n x (suc c) a b best (cons s ss) nil pe pn ea eb ec le hs ht =
      absurd (omega arith)
  components-prefix version e n x zero a b best (cons s ss) (cons t ts) pe pn ea eb ec le hs ht =
      absurd (omega arith)
  components-prefix version e n x (suc c) a b best (cons s ss) (cons t ts) pe pn ea eb ec le hs ht =
      rw
        (
          field-address m e x pe,
          field-address m n x pn,
          ← ea,
          ← eb,
          once-fits version (m a) (m b) s t hs.1 ht.1 (omega arith) hs.0 ht.0,
        )
        (elim (Bool-cases (fits version s t)) [
          | inl yes_fits ↦ rw yes_fits (
              components-prefix version e n (x + 1) c (a + 8) (b + 8) best ss ts pe pn (omega arith)
                (omega arith) (omega arith) (omega arith) hs.2 ht.2)
          | inr no_fits ↦ rw no_fits refl
        ])

  con_vecs-compare :
      (version : TypeStatus) (e n : ℕ) (ss ts : Tys)
      → depth_all ss ≤ d
      → Rep m e (con_vec ss)
      → Rep m n (con_vec ts)
      → check_con_vecs rec m version e n ≡ ok (compare version (con_vec ss) (con_vec ts))
  unfolding check_con_vecs
  con_vecs-compare version e n ss ts le he hn =
      let run = λ (c : ℕ) (best : TypeCheckResult) (ec : c ≡ min (count ss) (count ts)).
        components-prefix version e n 1 c (e + 16) (n + 16) best ss ts he.0 hn.0 (omega arith)
          (omega arith) ec le he.4 hn.4 in
      rw (field-address m e 0 he.0, field-address m n 0 hn.0, he.2, hn.2)
        (elim (Bool-cases (ltb (count ts) (count ss))) [
          | inl less ↦ rw less (run (count ts) existing_reference_too_large (ground arith))
          | inr more ↦ rw more (elim (Bool-cases (ltb (count ss) (count ts))) [
            | inl less ↦ rw less (run (count ss) new_reference_too_large (ground arith))
            | inr not_less ↦ rw not_less (run (count ss) perfect_fit (ground arith))
          ])
        ])

  ver-is_con_vec : (v : Tptr) (s : Ty) → Rep m v s → (ver m v == Tag.con_vec) ≡ is_con_vec s
  ver-is_con_vec v (leaf k) h = rw (ver-leaf m v k h) (ground (arith, leaf_tag_bounds k))
  ver-is_con_vec v (wrap w t) h = rw (ver-address m v h.0, h.1) (ground (arith, wrap_tag_bounds w))
  ver-is_con_vec v (con_vec ts) h = rw (ver-address m v h.0, h.1) refl

  step-distinct :
      (version : TypeStatus) (e n : Tptr) (s t : Ty)
      → (e == n) ≡ false
      → depth s ≤ d
      → Rep m e s
      → Rep m n t
      → type_check_step rec m version e n ≡ ok (compare version s t)
  unfolding type_check_step
  step-distinct version e n s t ne le he hn =
      rw
        (
          (Rep-ne m e s he).0,
          (Rep-ne m n t hn).0,
          ne,
          (Rep-ne m e s he).1,
          ver-is_con_vec e s he,
          ver-is_con_vec n t hn,
        )
        (by_kind s t le he hn)
    where
      by_kind :
          (s t : Ty)
          → depth s ≤ d
          → Rep m e s
          → Rep m n t
          → (if is_con_vec s
              then if is_con_vec t then check_con_vecs rec m version e n else ok different
              else if is_con_vec t
              then ok different
              else type_check_once rec m version e n)
            ≡ ok (compare version s t)
      by_kind (con_vec ss) (con_vec ts) le he hn = con_vecs-compare version e n ss ts le he hn
      by_kind (con_vec ss) (leaf l) le he hn = refl
      by_kind (con_vec ss) (wrap w t) le he hn = refl
      by_kind (leaf k) (con_vec ts) le he hn = refl
      by_kind (wrap v s) (con_vec ts) le he hn = refl
      by_kind (leaf k) (leaf l) le he hn = once-fits version e n _ _ tt tt le he hn
      by_kind (leaf k) (wrap w t) le he hn = once-fits version e n _ _ tt tt le he hn
      by_kind (wrap v s) (leaf l) le he hn = once-fits version e n _ _ tt tt le he hn
      by_kind (wrap v s) (wrap w t) le he hn = once-fits version e n _ _ tt tt le he hn

  step-compare :
      (version : TypeStatus) (e n : Tptr) (s t : Ty)
      → depth s ≤ d
      → Rep m e s
      → Rep m n t
      → type_check_step rec m version e n ≡ ok (compare version s t)
  unfolding type_check_step
  step-compare version e n s t le he hn = elim (Bool-cases (e == n)) [
    | inr ne ↦ step-distinct version e n s t ne le he hn
    | inl eq ↦
        let one : s ≡ t =
          Rep-unique m e s t he (subst (λ v. Rep m v t) (sym (eq_of_== e n eq)) hn) in
        rw (
          (Rep-ne m e s he).0,
          (Rep-ne m n t hn).0,
          eq,
          ap ok (sym (ap (compare version s) (sym one) ∙ compare_self version m e s he)),
        )
  ]

-- `type_check` follows at most as many pointers as the existing type is deep, and computes
-- `compare` of the two trees.
pub type_check-compare :
    (fuel : ℕ) (m : Mem) (version : TypeStatus) (e n : Tptr) (s t : Ty)
    → depth s < fuel
    → Rep m e s
    → Rep m n t
    → type_check fuel m version e n ≡ ok (compare version s t)
unfolding type_check
type_check-compare zero m version e n s t lt he hn = absurd (omega arith)
type_check-compare (suc fuel) m version e n s t lt he hn =
    step-compare m (type_check fuel m reference) fuel
      (λ e' n' s' t' lt' he' hn'. type_check-compare fuel m reference e' n' s' t' lt' he' hn')
      version e n s t (omega arith) he hn
