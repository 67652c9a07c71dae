-- ===== src/Creator/Unchanged.antt =====
-- `get_unique_type_internal` (src/type_creator.cpp) on types whose fields are unique already: the
-- loop over the fields changes nothing.
use mathlib.Core.Path.{fun_ext}
use Prim.Native.Nat.{max}
use super_searcher.Base.{ℕ, zero, suc, ◌+◌, ◌*◌, ◌<◌, ◌≡◌, refl, ◌∙◌, ◌⊎◌, inr, Bool, false, arith}
use super_searcher.Base.Result.{ok}
use super_searcher.Types.{Mem, Tptr, info, addresses, field_address, type_pointer_range}
use super_searcher.Types.Tag
use super_searcher.Types.Tree.{
  Ty, Tys, leaf, wrap, con_vec, nil, cons, count, Rep, Rep-ne, ver-leaf, ver-address,
}
use super_searcher.Types.Storage.{range-components}
use super_searcher.Memory.State.{Machine, Cmd, write}
use super_searcher.Creator.{unique_fields}

-- How many type objects stand one behind the other.
abbrev mutual
  pub height : Ty → ℕ
  height (leaf k) = 0
  height (wrap w t) = suc (height t)
  height (con_vec ts) = suc (height_all ts)

  pub height_all : Tys → ℕ
  height_all nil = 0
  height_all (cons t ts) = max (height t) (height_all ts)

-- Where the fields of a type with this tree start, and how many they are.
abbrev pub fields_start : Tptr → Ty → ℕ
fields_start v (con_vec ts) = v + 16
fields_start v t = v + 8

abbrev pub fields_count : Ty → ℕ
fields_count (leaf k) = 0
fields_count (wrap w t) = 1
fields_count (con_vec ts) = count ts

pub type_pointer_range-Rep :
    (m : Mem) (v : Tptr) (t : Ty)
    → Rep m v t
    → type_pointer_range m v ≡ ok (addresses (fields_start v t) (fields_count t))
unfolding type_pointer_range info field_address addresses
type_pointer_range-Rep m v (leaf k) h =
    rw ((Rep-ne m v (leaf k) h).0, ver-leaf m v k h) (ground arith)
type_pointer_range-Rep m v (wrap w t) h =
    rw ((Rep-ne m v (wrap w t) h).0, ver-address m v h.0 ∙ h.1) (ground arith)
type_pointer_range-Rep m v (con_vec ts) h = range-components m v ts h

write_same : (m : Mem) (a : ℕ) → write m a (m a) ≡ m
unfolding write
write_same m a = fun_ext (λ b. ground arith)

-- The calls for the `n` words from `a` on give these words back, and change nothing.
abbrev pub Known : (Tptr → Cmd (Tptr × Bool)) → Machine → ℕ → ℕ → Type 0
Known unique s a zero = Unit
Known unique s a (suc n) =
    (unique (s.mem a) s ≡ ok ((s.mem a, false), s)) × Known unique s (a + 8) n

field_address-ok : (v i : ℕ) → Tag.never_reached < v → field_address v i ≡ ok (v + 8 * (i + 1))
unfolding field_address
field_address-ok v i h = ground arith

pub unique_fields-Known :
    (unique : Tptr → Cmd (Tptr × Bool)) (model counter a n : ℕ) (s : Machine)
    → ((n ≡ 0) ⊎ (Tag.never_reached < model))
    → a ≡ model + 8 * (counter + 1)
    → Known unique s a n
    → unique_fields unique model (addresses a n) counter false s ≡ ok (false, s)
unfolding unique_fields addresses
unique_fields-Known unique model counter a zero s address e known = refl
unique_fields-Known unique model counter a (suc n) s address e known =
    let big : Tag.never_reached < model = omega arith in
    let place = field_address-ok model counter big in
    let again : write s.mem (model + 8 * (counter + 1)) (s.mem a) ≡ s.mem =
      rw (← e) (write_same s.mem a) in
    let rest =
      unique_fields-Known unique model (counter + 1) (a + 8) n s (inr big) (omega arith) known.1 in
    rw (known.0, place, again) rest
