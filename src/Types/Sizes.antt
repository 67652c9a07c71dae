-- ===== src/Types/Sizes.antt =====
-- `get_size` and `get_offset_type` of src/types.h against the tree, and what a perfect fit of
-- `type_check` says about sizes.
use super_searcher.Base.{
  ℕ, zero, suc, ◌+◌, ◌*◌, ◌≤◌, ◌<◌, ◌≡◌, refl, sym, ◌∙◌, true, false, ◌==◌, inl, inr, Bool-cases,
  Option-cases, Option, none, some, ◌⊎◌, ap, subst, arith,
}
use mathlib.Core.Bool.{false≢true}
use super_searcher.Base.Result.{ok}
use super_searcher.Types.{Mem, Tptr, info, ver, get_size, get_offset_type}
use super_searcher.Types.Descriptor.{TypeInfo, minus_one}
use super_searcher.Types.Check.{TypeStatus, is_perfect, type_check, perfect_fit}
use super_searcher.Types.Compare.{by_count, prefix_fits, compare}
use super_searcher.Types.Compare.Code.{type_check-compare}
use super_searcher.Types.Tree.{
  Leaf, integer, dynamic_object, ast_pointer, type_pointer, function_pointer, vector, pointer,
  temp_pointer, Wrap, Ty, leaf, wrap, con_vec, Tys, nil, cons, count, Rep, RepAll, depth, IsSingle,
  ver-leaf, ver-address, field-address, Rep-ne, leaf_tag, wrap_tag,
}

-- The size in words of the objects that a tree describes.
abbrev pub ty_size : Ty → ℕ
ty_size (leaf k) = 1
ty_size (wrap w t) = 1
ty_size (con_vec ts) = count ts

-- The descriptor table gives every type that is no concatenation size 1.
leaf_info : (k : Leaf) → (d : TypeInfo) × (info (leaf_tag k) ≡ ok d) × (d.size ≡ 1)
unfolding info
leaf_info integer = (_, refl, refl)
leaf_info dynamic_object = (_, refl, refl)
leaf_info ast_pointer = (_, refl, refl)
leaf_info type_pointer = (_, refl, refl)
leaf_info function_pointer = (_, refl, refl)

wrap_info : (w : Wrap) → (d : TypeInfo) × (info (wrap_tag w) ≡ ok d) × (d.size ≡ 1)
unfolding info
wrap_info vector = (_, refl, refl)
wrap_info pointer = (_, refl, refl)
wrap_info temp_pointer = (_, refl, refl)

-- `get_size` gives the size that the tree describes.
pub get_size-ty_size : (m : Mem) (v : Tptr) (t : Ty) → Rep m v t → get_size m v ≡ ok (ty_size t)
unfolding get_size
get_size-ty_size m v (leaf k) h =
    let (d, e, one) = leaf_info k in
    rw ((Rep-ne m v (leaf k) h).0, ver-leaf m v k h, e) (ground arith)
get_size-ty_size m v (wrap w t) h =
    let (d, e, one) = wrap_info w in
    rw ((Rep-ne m v (wrap w t) h).0, ver-address m v h.0 ∙ h.1, e) (ground arith)
get_size-ty_size m v (con_vec ts) h =
    rw
      (
        (Rep-ne m v (con_vec ts) h).0,
        ver-address m v h.0 ∙ h.1,
        con_vec_info,
        field-address m v 0 h.0,
        h.2,
      )
      (ground arith)
  where
    con_vec_info :
        info 0 ≡ ok (record { name = "con_vec"; pointer_fields = minus_one; size = minus_one })
    con_vec_info = unfold info in refl

by_count-perfect : (a b : ℕ) → is_perfect (by_count a b) ≡ true → a ≡ b
by_count-perfect a b h = ground arith

-- A perfect fit of trees is a fit of sizes.
compare-size :
    (version : TypeStatus) (s t : Ty)
    → is_perfect (compare version s t) ≡ true
    → ty_size s ≡ ty_size t
compare-size version (leaf k) (leaf l) h = refl
compare-size version (leaf k) (wrap w t) h = refl
compare-size version (leaf k) (con_vec ts) h = cc
compare-size version (wrap v s) (leaf l) h = refl
compare-size version (wrap v s) (wrap w t) h = refl
compare-size version (wrap v s) (con_vec ts) h = cc
compare-size version (con_vec ss) (leaf l) h = cc
compare-size version (con_vec ss) (wrap w t) h = cc
compare-size version (con_vec ss) (con_vec ts) h = elim (Bool-cases (prefix_fits version ss ts)) [
  | inl yes_fits ↦ by_count-perfect _ _ (rw yes_fits at h)
  | inr no_fits ↦ absurd (false≢true (rw no_fits at h))
]

-- For two words that hold trees, with fuel above the depth of the existing type: if `type_check`
-- finds a perfect fit, for a store or for a reference, then `get_size` succeeds on both and gives the
-- same number of words. "Does not return", which holds no tree and fits types of other sizes too, is
-- not among these words.
pub perfect_fit-get_size :
    (fuel : ℕ) (m : Mem) (version : TypeStatus) (e n : Tptr) (s t : Ty)
    → depth s < fuel
    → Rep m e s
    → Rep m n t
    → type_check fuel m version e n ≡ ok perfect_fit
    → (size : ℕ) × (get_size m e ≡ ok size) × (get_size m n ≡ ok size)
perfect_fit-get_size fuel m version e n s t lt he hn h =
    let same_size : ty_size s ≡ ty_size t =
      compare-size version s t
        (perfect (sym (type_check-compare fuel m version e n s t lt he hn) ∙ h)) in
    (ty_size s, get_size-ty_size m e s he, get_size-ty_size m n t hn ∙ ap ok (sym same_size))
  where
    perfect : ok (compare version s t) ≡ ok perfect_fit → is_perfect (compare version s t) ≡ true
    perfect eq = ground arith

-- The component of a concatenation at an offset.
abbrev pub component : Tys → ℕ → Option Ty
component nil i = none
component (cons t ts) zero = some t
component (cons t ts) (suc i) = component ts i

RepAll-component :
    (m : Mem) (a b i : ℕ) (ts : Tys) (t : Ty)
    → RepAll m a ts
    → component ts i ≡ some t
    → b ≡ a + 8 * i
    → Rep m (m b) t × IsSingle t × (i < count ts)
RepAll-component m a b i nil t h e eb = cc
RepAll-component m a b zero (cons s ts) t h e eb =
    let at : b ≡ a = omega arith in
    let is : s ≡ t = cc in
    (rw at (subst (λ u. Rep m (m a) u) is h.0), subst IsSingle is h.1, omega arith)
RepAll-component m a b (suc i) (cons s ts) t h e eb =
    let rest = RepAll-component m (a + 8) b i ts t h.2 e (omega arith) in
    (rest.0, rest.1, omega (arith, rest.2))

component-none : (i : ℕ) (ts : Tys) → component ts i ≡ none → count ts ≤ i
component-none i nil e = omega arith
component-none zero (cons t ts) e = cc
component-none (suc i) (cons t ts) e = omega (arith, component-none i ts e)

-- `get_offset_type` of a concatenation: at an offset inside, a `Tptr` of that component; at any
-- other offset, the null type.
pub get_offset_type-component :
    (m : Mem) (v : Tptr) (ts : Tys) (i : ℕ)
    → Rep m v (con_vec ts)
    → ((component ts i ≡ none) × (get_offset_type m v i ≡ ok 0))
      ⊎ ((u : Tptr) × (t : Ty) × (component ts i ≡ some t)
          × (get_offset_type m v i ≡ ok u)
          × Rep m u t
          × IsSingle t)
unfolding get_offset_type
get_offset_type-component m v ts i h = elim (Option-cases (component ts i)) [
  | inl out ↦ inl (
    out,
    rw (heads, ver_con, field-address m v 0 h.0, h.2) (ground (arith, component-none i ts out)),
  )
  | inr (t, at) ↦
      let rest = RepAll-component m (v + 16) (v + 8 * (i + 1 + 1)) i ts t h.4 at (omega arith) in
      inr (
        m (v + 8 * (i + 1 + 1)),
        t,
        at,
        rw (heads, ver_con, field-address m v 0 h.0, h.2, field-address m v (i + 1) h.0)
            (ground (arith, rest.2)),
        rest.0,
        rest.1,
      )
]
  where
    heads : (v == 0) ≡ false
    heads = (Rep-ne m v (con_vec ts) h).0

    ver_con : ver m v ≡ 0
    ver_con = ver-address m v h.0 ∙ h.1
