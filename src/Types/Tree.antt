-- ===== src/Types/Tree.antt =====
-- Types as trees, the independent description of what src/types.h keeps behind a `Tptr`, and when
-- memory holds a tree. The types that exist in functions only ("... of something", "does not
-- return") have no tree.
use super_searcher.Base.{
  ℕ, suc, ◌+◌, ◌≤◌, ◌<◌, ◌≡◌, refl, sym, ◌∙◌, ap, ◌↔◌, Bool, true, false, ◌&&◌, &&-eq_true,
  eq_of_==, ◌*◌, ◌==◌, arith,
}
use Prim.Native.Nat.{max}
use super_searcher.Base.Result.{ok}
use super_searcher.Types.{Mem, Tptr, ver, field}
use super_searcher.Types.Tag

pub data Leaf : Type 0 where
  integer dynamic_object ast_pointer type_pointer function_pointer : Leaf

pub data Wrap : Type 0 where
  vector pointer temp_pointer : Wrap

mutual
  pub data Ty : Type 0 where
    leaf : Leaf → Ty
    wrap : Wrap → Ty → Ty
    con_vec : Tys → Ty

  pub data Tys : Type 0 where
    nil : Tys
    cons : Ty → Tys → Tys

abbrev pub leaf_tag : Leaf → ℕ
leaf_tag integer = Tag.integer
leaf_tag dynamic_object = Tag.dynamic_object
leaf_tag ast_pointer = Tag.ast_pointer
leaf_tag type_pointer = Tag.type_pointer
leaf_tag function_pointer = Tag.function_pointer

abbrev pub wrap_tag : Wrap → ℕ
wrap_tag vector = Tag.vector
wrap_tag pointer = Tag.pointer
wrap_tag temp_pointer = Tag.temp_pointer

abbrev pub count : Tys → ℕ
count nil = 0
count (cons t ts) = suc (count ts)

abbrev pub IsSingle : Ty → Type 0
IsSingle (leaf k) = Unit
IsSingle (wrap w t) = Unit
IsSingle (con_vec ts) = ⊥

-- Memory `m` holds the tree at the `Tptr`. A component of a concatenation is no concatenation.
abbrev mutual
  pub Rep : Mem → Tptr → Ty → Type 0
  Rep m v (leaf k) = v ≡ leaf_tag k
  Rep m v (wrap w t) = (Tag.never_reached < v) × (m v ≡ wrap_tag w) × Rep m (m (v + 8)) t
  Rep m v (con_vec ts) =
      (Tag.never_reached < v)
      × (m v ≡ Tag.con_vec)
      × (m (v + 8) ≡ count ts)
      × (2 ≤ count ts)
      × RepAll m (v + 16) ts

  pub RepAll : Mem → ℕ → Tys → Type 0
  RepAll m a nil = Unit
  RepAll m a (cons t ts) = Rep m (m a) t × IsSingle t × RepAll m (a + 8) ts

-- How many pointers lead from a type to its innermost parts.
abbrev mutual
  pub depth : Ty → ℕ
  depth (leaf k) = 0
  depth (wrap w t) = suc (depth t)
  depth (con_vec ts) = depth_all ts

  pub depth_all : Tys → ℕ
  depth_all nil = 0
  depth_all (cons t ts) = max (depth t) (depth_all ts)

-- Equality of trees as a test.
unfoldable mutual
  pub same : Ty → Ty → Bool
  same (leaf k) (leaf l) = leaf_tag k == leaf_tag l
  same (wrap v s) (wrap w t) = (wrap_tag v == wrap_tag w) && same s t
  same (con_vec ss) (con_vec ts) = same_all ss ts
  same _ _ = false

  pub same_all : Tys → Tys → Bool
  same_all nil nil = true
  same_all (cons s ss) (cons t ts) = same s t && same_all ss ts
  same_all _ _ = false

pub leaf_tag-injective : (k l : Leaf) → leaf_tag k ≡ leaf_tag l → k ≡ l
leaf_tag-injective k l h = ground arith

pub wrap_tag-injective : (v w : Wrap) → wrap_tag v ≡ wrap_tag w → v ≡ w
wrap_tag-injective v w h = ground arith

pub leaf_tag_bounds : (k : Leaf) → (1 ≤ leaf_tag k) × (leaf_tag k ≤ 5)
leaf_tag_bounds k = ground arith

pub wrap_tag_bounds : (w : Wrap) → (6 ≤ wrap_tag w) × (wrap_tag w ≤ 8)
wrap_tag_bounds w = ground arith

mutual
  unfolding same same_all

  eq_of_same : (s t : Ty) → same s t ≡ true → s ≡ t
  eq_of_same (leaf k) (leaf l) h = ap leaf (leaf_tag-injective k l (ground arith))
  eq_of_same (leaf k) (wrap w t) h = cc
  eq_of_same (leaf k) (con_vec ts) h = cc
  eq_of_same (wrap v s) (leaf l) h = cc
  eq_of_same (wrap v s) (wrap w t) h =
      let both = &&-eq_true (wrap_tag v == wrap_tag w) (same s t) h in
      cc (wrap_tag-injective v w (eq_of_== _ _ both.0), eq_of_same s t both.1)
  eq_of_same (wrap v s) (con_vec ts) h = cc
  eq_of_same (con_vec ss) (leaf l) h = cc
  eq_of_same (con_vec ss) (wrap w t) h = cc
  eq_of_same (con_vec ss) (con_vec ts) h = ap con_vec (eq_of_same_all ss ts h)

  eq_of_same_all : (ss ts : Tys) → same_all ss ts ≡ true → ss ≡ ts
  eq_of_same_all nil nil h = refl
  eq_of_same_all nil (cons t ts) h = cc
  eq_of_same_all (cons s ss) nil h = cc
  eq_of_same_all (cons s ss) (cons t ts) h =
      let both = &&-eq_true (same s t) (same_all ss ts) h in
      cc (eq_of_same s t both.0, eq_of_same_all ss ts both.1)

mutual
  unfolding same same_all

  same_refl : (s : Ty) → same s s ≡ true
  same_refl (leaf k) = ground arith
  same_refl (wrap w s) = ground (arith, same_refl s)
  same_refl (con_vec ss) = same_all_refl ss

  same_all_refl : (ss : Tys) → same_all ss ss ≡ true
  same_all_refl nil = refl
  same_all_refl (cons s ss) = ground (arith, same_refl s, same_all_refl ss)

pub same_iff : (s t : Ty) → (same s t ≡ true) ↔ (s ≡ t)
same_iff s t = (eq_of_same s t, λ e. rw e (same_refl t))

-- What the accessors read at an address.
pub ver-leaf : (m : Mem) (v : Tptr) (k : Leaf) → v ≡ leaf_tag k → ver m v ≡ leaf_tag k
unfolding ver
ver-leaf m v k h = ground (arith, leaf_tag_bounds k)

pub ver-address : (m : Mem) (v : Tptr) → Tag.never_reached < v → ver m v ≡ m v
unfolding ver
ver-address m v h = ground arith

pub field-address :
    (m : Mem) (v i : ℕ) → Tag.never_reached < v → field m v i ≡ ok (m (v + 8 * (i + 1)))
unfolding field
field-address m v i h = ground arith

-- A `Tptr` with a tree is neither null nor "does not return".
pub Rep-ne : (m : Mem) (v : Tptr) (t : Ty) → Rep m v t → ((v == 0) ≡ false) × ((v == 11) ≡ false)
Rep-ne m v (leaf k) h = ground (arith, leaf_tag_bounds k)
Rep-ne m v (wrap w t) h = ground arith
Rep-ne m v (con_vec ts) h = ground arith

-- Memory holds at most one tree at a `Tptr`.
mutual
  pub Rep-unique : (m : Mem) (v : Tptr) (s t : Ty) → Rep m v s → Rep m v t → s ≡ t
  Rep-unique m v (leaf k) (leaf l) h h' = ap leaf (leaf_tag-injective k l (sym h ∙ h'))
  Rep-unique m v (leaf k) (wrap w t) h h' = absurd (omega (arith, leaf_tag_bounds k))
  Rep-unique m v (leaf k) (con_vec ts) h h' = absurd (omega (arith, leaf_tag_bounds k))
  Rep-unique m v (wrap w s) (leaf l) h h' = absurd (omega (arith, leaf_tag_bounds l))
  Rep-unique m v (wrap w s) (wrap x t) h h' =
      cc (wrap_tag-injective w x (sym h.1 ∙ h'.1), Rep-unique m (m (v + 8)) s t h.2 h'.2)
  Rep-unique m v (wrap w s) (con_vec ts) h h' = absurd (omega (arith, wrap_tag_bounds w))
  Rep-unique m v (con_vec ss) (leaf l) h h' = absurd (omega (arith, leaf_tag_bounds l))
  Rep-unique m v (con_vec ss) (wrap w t) h h' = absurd (omega (arith, wrap_tag_bounds w))
  Rep-unique m v (con_vec ss) (con_vec ts) h h' =
      ap con_vec (RepAll-unique m (v + 16) ss ts h.4 h'.4 (sym h.2 ∙ h'.2))

  RepAll-unique :
      (m : Mem) (a : ℕ) (ss ts : Tys)
      → RepAll m a ss
      → RepAll m a ts
      → count ss ≡ count ts
      → ss ≡ ts
  RepAll-unique m a nil nil h h' e = refl
  RepAll-unique m a nil (cons t ts) h h' e = absurd (omega arith)
  RepAll-unique m a (cons s ss) nil h h' e = absurd (omega arith)
  RepAll-unique m a (cons s ss) (cons t ts) h h' e =
      cc (Rep-unique m (m a) s t h.0 h'.0, RepAll-unique m (a + 8) ss ts h.2 h'.2 (omega arith))
