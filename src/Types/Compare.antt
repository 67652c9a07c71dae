-- ===== src/Types/Compare.antt =====
-- The comparison of types that `type_check` of src/types.cpp makes, described on trees.
pub mod Laws
pub mod Switch
pub mod Code
use super_searcher.Base.{
  ℕ, zero, suc, ◌+◌, ◌*◌, ◌≤◌, ◌<◌, ◌≡◌, refl, sym, ap, ◌∙◌, inl, inr, Bool, true, false, not, ◌&&◌,
  ◌||◌, ◌==◌, ltb, if◌then◌else◌, Bool-cases, eq_of_==, subst, arith,
}
use Prim.Native.Nat.{min}
use super_searcher.Types.Tag
use super_searcher.Base.Result.{Result, ok, ◌>>=◌}
use super_searcher.Types.{Mem, Tptr, ver, field}
use super_searcher.Types.Tree.{
  Leaf, integer, dynamic_object, ast_pointer, type_pointer, function_pointer, Wrap, vector, pointer,
  temp_pointer, Ty, leaf, wrap, con_vec, Tys, nil, cons, leaf_tag, wrap_tag, count, IsSingle, Rep,
  RepAll, depth, depth_all, same, same_all, same_iff, ver-leaf, ver-address, field-address, Rep-ne,
  Rep-unique, leaf_tag_bounds, wrap_tag_bounds,
}
use super_searcher.Types.Check.{
  TypeStatus, rvo, reference, TypeCheckResult, different, new_reference_too_large,
  existing_reference_too_large, perfect_fit, is_perfect, Checker, pointees, type_switch,
  type_check_once, check_components, check_con_vecs, type_check_step, type_check,
}

-- What may be stored in a slot for integers.
abbrev pub into_integer : Ty → Bool
into_integer (leaf dynamic_object) = false
into_integer (leaf _) = true
into_integer (wrap vector t) = false
into_integer (wrap _ t) = true
into_integer (con_vec ts) = false

-- What the kinds of two pointers must be; the pointees play no part.
abbrev pub wrap_accepts : Wrap → Wrap → Bool
wrap_accepts vector vector = true
wrap_accepts pointer pointer = true
wrap_accepts pointer temp_pointer = true
wrap_accepts temp_pointer temp_pointer = true
wrap_accepts _ _ = false

-- May an object of the first type be stored in a slot of the second? Neither is a concatenation.
abbrev pub slot_accepts : Ty → Ty → Bool
slot_accepts s (leaf integer) = into_integer s
slot_accepts s (leaf l) = same s (leaf l)
slot_accepts (wrap v s) (wrap w t) = wrap_accepts v w
slot_accepts _ _ = false

abbrev pub fits : TypeStatus → Ty → Ty → Bool
fits rvo s t = slot_accepts s t
fits reference s t = same s t

abbrev pub prefix_fits : TypeStatus → Tys → Tys → Bool
prefix_fits version nil ts = true
prefix_fits version (cons s ss) nil = true
prefix_fits version (cons s ss) (cons t ts) = fits version s t && prefix_fits version ss ts

abbrev pub by_count : ℕ → ℕ → TypeCheckResult
by_count ce cn =
    if ltb cn ce
    then existing_reference_too_large
    else if ltb ce cn
    then new_reference_too_large
    else perfect_fit

abbrev pub verdict : Bool → TypeCheckResult
verdict true = perfect_fit
verdict false = different

abbrev pub compare : TypeStatus → Ty → Ty → TypeCheckResult
compare version (con_vec ss) (con_vec ts) =
    if prefix_fits version ss ts then by_count (count ss) (count ts) else different
compare version (con_vec ss) t = different
compare version s (con_vec ts) = different
compare version s t = verdict (fits version s t)
