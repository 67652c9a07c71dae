-- ===== src/Creator.antt =====
-- New type objects: new_local_type, copy_type and new_unique_type of src/types.h, the table of unique
-- types of src/type_creator.cpp and concatenate_types of src/types.cpp. The table is a
-- std::unordered_set, here the list of its entries: a search finds the entry that equal_to finds
-- equal. The parameter can_reuse_parameter is `reuse`.
pub mod Table
pub mod Unchanged
pub mod Again
pub mod Insert
mod Tests
use super_searcher.Base.{
  ℕ, zero, suc, ◌+◌, ◌*◌, Bool, true, false, not, ◌&&◌, ◌||◌, Option, none, some, List, [], ◌∷◌,
  ◌++◌, ◌==◌, ltb, leb, if◌then◌else◌, length,
}
use super_searcher.Base.Result.{Result, ok, abort, out_of_fuel}
use super_searcher.Base.Result
use super_searcher.Types.{
  Mem, Tptr, ver, info, field, field_address, type_pointer_range, total_valid_fields,
}
use super_searcher.Types.Tag
use super_searcher.Types.Descriptor.{TypeInfo}
use super_searcher.Types.Unique.{equal_to}
use super_searcher.Memory.{allocate}
use super_searcher.Memory.Objects.{read_words, store_words}
use super_searcher.Memory.State.{Machine, Cmd, pure, assert, load, store, read, ◌>>=◌, ◌>>◌}

-- The number of fields that new_local_type wants; for a concatenation, as many as it is given.
unfoldable pub wanted_fields : ℕ → List Tptr → Result ℕ
wanted_fields tag fields =
    if tag == Tag.con_vec
    then ok (length fields)
    else Result.◌>>=◌ (info tag) (λ (d : TypeInfo). ok d.pointer_fields)

-- new_local_type, with the allocator `allocator`.
unfoldable pub new_local_type : (ℕ → Cmd ℕ) → ℕ → List Tptr → Cmd Tptr
new_local_type allocator tag fields = do
  no_of_fields ← read (λ m. wanted_fields tag fields)
  assert (no_of_fields == length fields)
  assert (not (tag == Tag.con_vec) || leb 2 no_of_fields)
  if no_of_fields == 0 then pure tag else do
    new_home ← allocator (no_of_fields + 1 + (if tag == Tag.con_vec then 1 else 0))
    store new_home tag
    if not (tag == Tag.con_vec)
        then store_words (new_home + 8) fields
        else (do store (new_home + 8) (length fields); store_words (new_home + 16) fields)
    pure new_home

-- copy_type
unfoldable pub copy_type : Tptr → Cmd Tptr
copy_type t = do
  fields ← read (λ m. total_valid_fields m t)
  if fields == 0 then pure t else do
    new_type ← allocate (fields + 1)
    words ← read (λ m. ok (read_words m t (fields + 1)))
    store_words new_type words
    pure new_type

-- type_hash_table.find
unfoldable pub find_type : Mem → List Tptr → Tptr → Result (Option Tptr)
find_type m [] model = ok none
find_type m (e ∷ rest) model =
    Result.◌>>=◌ (equal_to m e model) (λ same. if same then ok (some e) else find_type m rest model)

abbrev pub find_unique : Tptr → Cmd (Option Tptr)
find_unique model s = Result.◌>>=◌ (find_type s.mem s.type_hash_table model) (λ r. ok (r, s))

-- type_hash_table.insert, which leaves a table alone that has an equal entry.
unfoldable pub insert_unique : Tptr → Cmd (Unit {0})
insert_unique t s = Result.◌>>=◌ (find_type s.mem s.type_hash_table t) (λ (found : Option Tptr).
    elim found [
      | none ↦ ok (tt, record s { type_hash_table = t ∷ s.type_hash_table })
      | some e ↦ ok (tt, s)
    ])

-- The loop over the subfields: `counter` counts the fields, the list has their addresses. The
-- answer is whether some call of `unique`, for get_unique_type_internal, made a new type.
unfoldable pub unique_fields : (Tptr → Cmd (Tptr × Bool)) → Tptr → List ℕ → ℕ → Bool → Cmd Bool
unique_fields unique model [] counter created = pure created
unique_fields unique model (a ∷ rest) counter created = do
  pointer ← load a
  result ← unique pointer
  place ← read (λ m. field_address model counter)
  store place result.0
  unique_fields unique model rest (counter + 1) (created || result.1)

-- get_unique_type_internal behind the loop.
unfoldable pub find_or_create : Tptr → Bool → Bool → Cmd (Tptr × Bool)
find_or_create model reuse create_new_for_sure =
    if create_new_for_sure
    then (do handle ← copy_type model; insert_unique handle; pure (handle, true))
    else do
      existing_type ← find_unique model
      elim existing_type [
        | none ↦ (do
          model' ← (if reuse then pure model else copy_type model)
          insert_unique model'
          pure (model', true))
        | some e ↦ pure (e, false)
      ]

-- get_unique_type_internal; the recursion follows the subfields, and takes fuel.
unfoldable pub get_unique_type_internal : ℕ → Bool → Tptr → Cmd (Tptr × Bool)
get_unique_type_internal zero reuse model s = out_of_fuel
get_unique_type_internal (suc fuel) reuse model s =
    (do
      assert (not (model == 0) && not (model == Tag.pointer))
      tag ← read (λ m. ok (ver m model))
      assert (ltb tag Tag.never_reached)
      fields ← read (λ m. type_pointer_range m model)
      created ←
          unique_fields (get_unique_type_internal fuel reuse) model fields
            (if tag == Tag.con_vec then 1 else 0) false
      find_or_create model reuse created)
      s

-- uniquefy_premade_type
unfoldable pub uniquefy_premade_type : ℕ → Tptr → Bool → Cmd Tptr
uniquefy_premade_type fuel model reuse = if model == 0 then pure 0 else do
  tag ← read (λ m. ok (ver m model))
  big ← read (λ m.
      if tag == 0 then Result.◌>>=◌ (field m model 0) (λ count. ok (ltb 1 count)) else ok true)
  assert big
  result ← get_unique_type_internal fuel reuse model
  pure result.0

-- new_unique_type
unfoldable pub new_unique_type : ℕ → ℕ → List Tptr → Cmd Tptr
new_unique_type fuel tag fields = do
  t ← new_local_type allocate tag fields
  uniquefy_premade_type fuel t true

-- The words at the addresses.
unfoldable pub words_at : Mem → List ℕ → List ℕ
words_at m [] = []
words_at m (a ∷ rest) = m a ∷ words_at m rest

-- The loop of concatenate_types: the components, with each concatenation replaced by its own.
unfoldable pub true_components : Mem → List Tptr → Result (List Tptr)
unfolding words_at
true_components m [] = ok []
true_components m (x ∷ rest) =
    let later = true_components m rest in
    if x == 0
    then later
    else if ver m x == Tag.con_vec
    then Result.◌>>=◌ (type_pointer_range m x)
        (λ fields. Result.◌>>=◌ later (λ r. ok (words_at m fields ++ r)))
    else Result.◌>>=◌ later (λ r. ok (x ∷ r))

-- The end of concatenate_types: a single component stands for itself.
unfoldable pub from_components : ℕ → List Tptr → Cmd Tptr
from_components fuel [] = pure 0
from_components fuel (t ∷ []) = pure t
from_components fuel (t ∷ u ∷ rest) = new_unique_type fuel Tag.con_vec (t ∷ u ∷ rest)

-- concatenate_types
unfoldable pub concatenate_types : ℕ → List Tptr → Cmd Tptr
unfolding from_components
concatenate_types fuel components = do
  flat ← read (λ m. true_components m components)
  from_components fuel flat
