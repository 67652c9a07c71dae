-- ===== src/Types/Check.antt =====
-- `type_check` and `type_check_once` of src/types.cpp: may an object or a reference of the existing
-- type be used where the new type is expected? The recursion follows the pointee, and takes fuel.
use super_searcher.Base.{
  ℕ, zero, suc, ◌+◌, Bool, true, false, not, ◌&&◌, ◌||◌, ◌==◌, ltb, if◌then◌else◌,
}
use super_searcher.Base.Result.{Result, ok, abort, out_of_fuel, ◌>>=◌, ◌>>◌, check}
use super_searcher.Types.{Mem, Tptr, ver, field}
use super_searcher.Types.Tag

pub data TypeStatus : Type 0 where
  rvo reference : TypeStatus

pub data TypeCheckResult : Type 0 where
  different new_reference_too_large existing_reference_too_large perfect_fit : TypeCheckResult

abbrev pub is_perfect : TypeCheckResult → Bool
is_perfect perfect_fit = true
is_perfect _ = false

-- What `type_check_once` calls for the pointees, always with `reference`.
abbrev pub Checker : Type 0
Checker = Tptr → Tptr → Result TypeCheckResult

abbrev perfect_if : Bool → Result TypeCheckResult
perfect_if true = ok perfect_fit
perfect_if false = ok different

-- `case Typen("integer")` of the RVO switch, which the pointer cases fall into.
unfoldable pub integer_case : ℕ → ℕ → Result TypeCheckResult
integer_case te tn = perfect_if (
    (te == tn)
    || (te == Tag.pointer)
    || (te == Tag.type_pointer)
    || (te == Tag.function_pointer)
    || (te == Tag.ast_pointer)
    || (te == Tag.temp_pointer))

-- Is the tag one of "vector", "pointer", "temp pointer"?
abbrev pub has_pointee : ℕ → Bool
has_pointee t = (t == Tag.vector) || (t == Tag.pointer) || (t == Tag.temp_pointer)

-- Is the tag one of "dynamic object", "AST pointer", "function pointer", "type pointer"?
abbrev pub is_handle : ℕ → Bool
is_handle t =
    (t == Tag.dynamic_object)
    || (t == Tag.ast_pointer)
    || (t == Tag.function_pointer)
    || (t == Tag.type_pointer)

abbrev pub is_something : ℕ → Bool
is_something t = (t == Tag.vector_of_something) || (t == Tag.pointer_to_something)

-- `type_check(reference, iter[0].field(0), iter[1].field(0))`, with `rec` for type_check.
unfoldable pub pointees : Checker → Mem → Tptr → Tptr → Result TypeCheckResult
pointees rec m e n = do fe ← field m e 0; fn ← field m n 0; rec fe fn

-- The switch of type_check_once for RVO, over the tags. Its pointer cases return only on a perfect
-- fit of the pointees.
unfoldable pub rvo_switch : Result TypeCheckResult → ℕ → ℕ → Result TypeCheckResult
unfolding integer_case
rvo_switch pointee_result te tn =
    if has_pointee tn
    then (if (te == tn) || ((te == Tag.pointer) && (tn == Tag.temp_pointer))
        then (do
          result ← pointee_result
          if is_perfect result then ok perfect_fit else integer_case te tn)
        else ok different)
    else if tn == Tag.integer
    then integer_case te tn
    else if is_handle tn
    then perfect_if (te == tn)
    else if is_something tn
    then ok different
    else abort

-- The branch of type_check_once for references, over the tags.
unfoldable pub reference_switch : Result TypeCheckResult → ℕ → ℕ → Result TypeCheckResult
reference_switch pointee_result te tn =
    if tn == te
    then (if has_pointee tn
        then (do result ← pointee_result; perfect_if (is_perfect result))
        else if (tn == Tag.integer) || is_handle tn
        then ok perfect_fit
        else if is_something tn
        then ok different
        else abort)
    else ok different

unfoldable pub type_switch : TypeStatus → Result TypeCheckResult → ℕ → ℕ → Result TypeCheckResult
unfolding rvo_switch reference_switch
type_switch rvo pointee_result te tn = rvo_switch pointee_result te tn
type_switch reference pointee_result te tn = reference_switch pointee_result te tn

unfoldable pub type_check_once : Checker → Mem → TypeStatus → Tptr → Tptr → Result TypeCheckResult
unfolding pointees type_switch
type_check_once rec m version e n = do
  check (not (e == Tag.does_not_return))
  check (not (n == Tag.does_not_return))
  type_switch version (pointees rec m e n) (ver m e) (ver m n)

-- The loop over the components x, x + 1, ... of two concatenations, `count` of them.
unfoldable pub check_components :
    Checker → Mem → TypeStatus → Tptr → Tptr → ℕ → ℕ → TypeCheckResult → Result TypeCheckResult
check_components rec m version e n x zero best = ok best
check_components rec m version e n x (suc count) best = do
  fe ← field m e x
  fn ← field m n x
  result ← type_check_once rec m version fe fn
  if is_perfect result then check_components rec m version e n (x + 1) count best else ok different

-- Two concatenations: the shorter one decides how many components are compared.
unfoldable pub check_con_vecs : Checker → Mem → TypeStatus → Tptr → Tptr → Result TypeCheckResult
unfolding check_components
check_con_vecs rec m version e n = do
  ce ← field m e 0
  cn ← field m n 0
  if ltb cn ce
      then check_components rec m version e n 1 cn existing_reference_too_large
      else if ltb ce cn
      then check_components rec m version e n 1 ce new_reference_too_large
      else check_components rec m version e n 1 ce perfect_fit

-- type_check once its recursive calls are known.
unfoldable pub type_check_step : Checker → Mem → TypeStatus → Tptr → Tptr → Result TypeCheckResult
type_check_step rec m version e n =
    if (e == 0) || (n == 0)
    then (if (e == 0) && (n == 0)
        then ok perfect_fit
        else if n == 0
        then ok existing_reference_too_large
        else ok new_reference_too_large)
    else if e == n
    then ok perfect_fit
    else if e == Tag.does_not_return
    then ok perfect_fit
    else if ver m e == Tag.con_vec
    then (if ver m n == Tag.con_vec then check_con_vecs rec m version e n else ok different)
    else if ver m n == Tag.con_vec
    then ok different
    else type_check_once rec m version e n

unfoldable pub type_check : ℕ → Mem → TypeStatus → Tptr → Tptr → Result TypeCheckResult
unfolding type_check_step type_check_once check_con_vecs
type_check zero m version e n = out_of_fuel
type_check (suc fuel) m version e n = type_check_step (type_check fuel m reference) m version e n
