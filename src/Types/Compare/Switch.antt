-- ===== src/Types/Compare/Switch.antt =====
-- The switches of `type_check_once` (src/types.cpp) over the tags of two trees.
use super_searcher.Base.{◌≡◌, arith}
use super_searcher.Base.Result.{Result, ok}
use super_searcher.Types.Tree.{Leaf, Wrap, Ty, leaf, wrap, leaf_tag, wrap_tag, same}
use super_searcher.Types.Check.{
  TypeStatus, rvo, reference, TypeCheckResult, is_perfect, type_switch,
}
use super_searcher.Types.Compare.{fits, verdict}

pub switch-leaf :
    (version : TypeStatus) (p : Result TypeCheckResult) (k l : Leaf)
    → type_switch version p (leaf_tag k) (leaf_tag l)
      ≡ ok (verdict (fits version (leaf k) (leaf l)))
unfolding type_switch same
switch-leaf rvo p k l = ground arith
switch-leaf reference p k l = ground arith

pub switch-leaf_wrap :
    (version : TypeStatus) (p : Result TypeCheckResult) (k : Leaf) (w : Wrap) (t : Ty)
    → type_switch version p (leaf_tag k) (wrap_tag w)
      ≡ ok (verdict (fits version (leaf k) (wrap w t)))
unfolding type_switch same
switch-leaf_wrap rvo p k w t = ground arith
switch-leaf_wrap reference p k w t = ground arith

pub switch-wrap_leaf :
    (version : TypeStatus) (p : Result TypeCheckResult) (v : Wrap) (s : Ty) (l : Leaf)
    → type_switch version p (wrap_tag v) (leaf_tag l)
      ≡ ok (verdict (fits version (wrap v s) (leaf l)))
unfolding type_switch same
switch-wrap_leaf rvo p v s l = ground arith
switch-wrap_leaf reference p v s l = ground arith

pub switch-wrap :
    (version : TypeStatus) (r : TypeCheckResult) (v w : Wrap) (s t : Ty)
    → is_perfect r ≡ same s t
    → type_switch version (ok r) (wrap_tag v) (wrap_tag w)
      ≡ ok (verdict (fits version (wrap v s) (wrap w t)))
unfolding type_switch same
switch-wrap rvo r v w s t h = ground arith
switch-wrap reference r v w s t h = ground arith
