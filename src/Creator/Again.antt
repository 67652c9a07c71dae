-- ===== src/Creator/Again.antt =====
-- `get_unique_type_internal` (src/type_creator.cpp) on a type whose fields are unique already: an
-- entry with a tree is found again, another type becomes an entry.
use super_searcher.Base.{
  ℕ, zero, suc, ◌+◌, ◌*◌, ◌<◌, ◌≡◌, refl, ◌∙◌, ◌⊎◌, inl, inr, Bool, true, false, ◌==◌, ltb, arith,
  subst, if◌then◌else◌,
}
use super_searcher.Base.Result.{ok}
use super_searcher.Types.{Tptr}
use super_searcher.Types.Tag
use super_searcher.Types.Tree.{
  Ty, Tys, leaf, wrap, con_vec, nil, cons, count, Rep, RepAll, Rep-ne, Rep-unique, wrap_tag_bounds,
  leaf_tag_bounds,
}
use super_searcher.Types.Unique.Agreement.{tag_of, ver-Rep}
use super_searcher.Types.Unique.Contract.{AllFields, Fields}
use super_searcher.Memory.State.{Machine}
use super_searcher.Creator.{find_or_create, get_unique_type_internal}
use super_searcher.Creator.Table.{In, IsUnique, IsFunctionOnly-Rep, find_type_self}
use super_searcher.Creator.Unchanged.{
  height, height_all, fields_start, fields_count, type_pointer_range-Rep, Known,
  unique_fields-Known,
}

-- Where a field of the tree is looked for first.
abbrev first_field : Ty → ℕ
first_field t = if tag_of t == Tag.con_vec then 1 else 0

first_field-start : (v : Tptr) (t : Ty) → fields_start v t ≡ v + 8 * (first_field t + 1)
first_field-start v (leaf k) = ground (arith, leaf_tag_bounds k)
first_field-start v (wrap w t) = ground (arith, wrap_tag_bounds w)
first_field-start v (con_vec ts) = refl

address_or_none :
    (s : Machine) (v : Tptr) (t : Ty)
    → Rep s.mem v t
    → (fields_count t ≡ 0) ⊎ (Tag.never_reached < v)
address_or_none s v (leaf k) h = inl refl
address_or_none s v (wrap w t) h = inr h.0
address_or_none s v (con_vec ts) h = inr h.0

tag_small : (t : Ty) → ltb (tag_of t) Tag.never_reached ≡ true
tag_small (leaf k) = ground (arith, leaf_tag_bounds k)
tag_small (wrap w t) = ground (arith, wrap_tag_bounds w)
tag_small (con_vec ts) = refl

not_seven : (s : Machine) (v : Tptr) (t : Ty) → Rep s.mem v t → (v == Tag.pointer) ≡ false
not_seven s v (leaf k) h = ground (arith, leaf_tag_bounds k)
not_seven s v (wrap w t) h = ground arith
not_seven s v (con_vec ts) h = ground arith

-- Where the calls for the fields change nothing, the table is searched next.
pub unchanged_fields :
    (fuel : ℕ) (reuse : Bool) (v : Tptr) (t : Ty) (s : Machine)
    → Rep s.mem v t
    → Known (get_unique_type_internal fuel reuse) s (fields_start v t) (fields_count t)
    → get_unique_type_internal (suc fuel) reuse v s ≡ find_or_create v reuse false s
unfolding get_unique_type_internal
unchanged_fields fuel reuse v t s h known =
    let loop =
      unique_fields-Known (get_unique_type_internal fuel reuse) v (first_field t) (fields_start v t)
        (fields_count t) s (address_or_none s v t h) (first_field-start v t) known in
    rw
      (
        (Rep-ne s.mem v t h).0,
        not_seven s v t h,
        ver-Rep s.mem v t h,
        tag_small t,
        type_pointer_range-Rep s.mem v t h,
        loop,
      )
      refl

module _ (reuse : Bool) (s : Machine) where
  -- The calls find every entry of at most this height again.
  abbrev Again : ℕ → Type 0
  Again fuel =
      (e : Tptr) (t : Ty)
      → height t < fuel
      → In e s.type_hash_table
      → Rep s.mem e t
      → Fields (λ w. In w s.type_hash_table) s.mem e t
      → get_unique_type_internal fuel reuse e s ≡ ok ((e, false), s)

  module _ (table : IsUnique s.mem s.type_hash_table) where
    pub found-Again :
        (fuel : ℕ) (e : Tptr) (t : Ty)
        → Again fuel
        → height t < fuel
        → In e s.type_hash_table
        → Rep s.mem e t
        → get_unique_type_internal fuel reuse e s ≡ ok ((e, false), s)
    found-Again fuel e t again low here h = elim (table.entries e here) [
      | inr only ↦ absurd (IsFunctionOnly-Rep s.mem e t only h)
      | inl entry ↦
          let same : entry.0 ≡ t = Rep-unique s.mem e entry.0 t entry.1 h in
          again e t low here h
            (subst (λ u. Fields (λ w. In w s.type_hash_table) s.mem e u) same entry.2)
    ]

    all_Known :
        (fuel a : ℕ) (ts : Tys)
        → Again fuel
        → height_all ts < fuel
        → RepAll s.mem a ts
        → AllFields (λ w. In w s.type_hash_table) s.mem a ts
        → Known (get_unique_type_internal fuel reuse) s a (count ts)
    all_Known fuel a nil again low all fields = tt
    all_Known fuel a (cons t ts) again low all fields = (
      found-Again fuel (s.mem a) t again (omega arith) fields.0 all.0,
      all_Known fuel (a + 8) ts again (omega arith) all.2 fields.1,
    )

    pub Fields-Known :
        (fuel : ℕ) (v : Tptr) (t : Ty)
        → Again fuel
        → height t < suc fuel
        → Rep s.mem v t
        → Fields (λ w. In w s.type_hash_table) s.mem v t
        → Known (get_unique_type_internal fuel reuse) s (fields_start v t) (fields_count t)
    Fields-Known fuel v (leaf k) again low h fields = tt
    Fields-Known fuel v (wrap w t) again low h fields =
        (found-Again fuel (s.mem (v + 8)) t again (omega arith) fields h.2, tt)
    Fields-Known fuel v (con_vec ts) again low h fields =
        all_Known fuel (v + 16) ts again (omega arith) h.4 fields

    -- An entry that holds a tree is found again.
    pub entry-Again : (fuel : ℕ) → Again fuel
    unfolding find_or_create
    entry-Again zero e t low here h fields = absurd (omega arith)
    entry-Again (suc fuel) e t low here h fields =
        let known = Fields-Known fuel e t (entry-Again fuel) low h fields in
        unchanged_fields fuel reuse e t s h known
        ∙ rw (find_type_self s.mem s.type_hash_table table e t here h fields) refl
