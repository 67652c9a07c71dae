-- ===== src/Collector/Uniquefied.antt =====
-- While a trace runs, src/type_creator.cpp cannot allocate: `get_unique_type_internal` leaves the
-- free blocks alone or fails.
use super_searcher.Base.{
  ℕ, zero, suc, ◌+◌, refl, Bool, true, false, not, ◌&&◌, ◌||◌, ◌==◌, ltb, List, [], ◌∷◌, Option,
  none, some, if◌then◌else◌, arith,
}
use super_searcher.Base.Result.{Result, ok, abort, out_of_fuel}
use super_searcher.Base.Result
use super_searcher.Types.{Tptr, ver, field, total_valid_fields, type_pointer_range, field_address}
use super_searcher.Types.Tag
use super_searcher.Memory.{allocate}
use super_searcher.Memory.State.{Machine, Cmd, pure, ◌>>=◌, ◌>>◌}
use super_searcher.Memory.Objects.{store_words, read_words}
use super_searcher.Collector.Kept.{
  Same-refl, AfterMachine, cmd_given, SafeCmd, cmd_bind, cmd_then, cmd_pure, cmd_if, cmd_assert,
  cmd_load, cmd_store, cmd_read,
}
use super_searcher.Creator.{
  copy_type, find_unique, find_type, insert_unique, unique_fields, find_or_create,
  get_unique_type_internal, uniquefy_premade_type,
}

cmd_allocate : (size : ℕ) → SafeCmd (allocate size)
unfolding allocate
cmd_allocate size = record { run = λ s traced. ground (arith, traced) }

cmd_store_words : (a : ℕ) (vs : List ℕ) → SafeCmd (store_words a vs)
cmd_store_words a vs = record {
  run = λ s traced. record { free = refl; traced = refl; count = refl };
}

cmd_copy_type : (t : Tptr) → SafeCmd (copy_type t)
unfolding copy_type
cmd_copy_type t = cmd_bind (cmd_read (λ m. total_valid_fields m t)) (λ fields.
    cmd_if (fields == 0) (cmd_pure t) (
      cmd_bind (cmd_allocate (fields + 1)) (λ place.
        cmd_bind (cmd_read (λ m. ok (read_words m t (fields + 1))))
          (λ words. cmd_then (cmd_store_words place words) (cmd_pure place)))))

cmd_find_unique : (model : Tptr) → SafeCmd (find_unique model)
cmd_find_unique model = record {
  run = λ s traced. cmd_given s (find_type s.mem s.type_hash_table model);
}

inserted :
    (t : Tptr) (s : Machine) (r : Result (Option Tptr))
    → AfterMachine {A = Unit {0}} s (
        Result.◌>>=◌ r (λ (found : Option Tptr). elim found [
          | none ↦ ok (tt, record s { type_hash_table = t ∷ s.type_hash_table })
          | some e ↦ ok (tt, s)
        ]))
inserted t s (ok none) = record { free = refl; traced = refl; count = refl }
inserted t s (ok (some e)) = Same-refl s
inserted t s abort = tt
inserted t s out_of_fuel = tt

cmd_insert_unique : (t : Tptr) → SafeCmd (insert_unique t)
unfolding insert_unique
cmd_insert_unique t = record {
  run = λ s traced. inserted t s (find_type s.mem s.type_hash_table t);
}

cmd_unique_fields :
    (unique : Tptr → Cmd (Tptr × Bool)) (model : Tptr) (l : List ℕ) (counter : ℕ) (created : Bool)
    → ((t : Tptr) → SafeCmd (unique t))
    → SafeCmd (unique_fields unique model l counter created)
unfolding unique_fields
cmd_unique_fields unique model [] counter created h = cmd_pure created
cmd_unique_fields unique model (a ∷ rest) counter created h = cmd_bind (cmd_load a) (λ pointer.
    cmd_bind (h pointer) (λ result. cmd_bind (cmd_read (λ m. field_address model counter)) (λ place.
      cmd_then (cmd_store place result.0)
        (cmd_unique_fields unique model rest (counter + 1) (created || result.1) h))))

cmd_existing :
    (model : Tptr) (reuse : Bool) (existing : Option Tptr)
    → SafeCmd (elim existing as (λ x. Cmd (Tptr × Bool)) [
      | none ↦ (do
        model' ← (if reuse then pure model else copy_type model)
        insert_unique model'
        pure (model', true))
      | some e ↦ pure (e, false)
    ])
cmd_existing model reuse none =
    cmd_bind (cmd_if reuse (cmd_pure model) (cmd_copy_type model))
      (λ handle. cmd_then (cmd_insert_unique handle) (cmd_pure (handle, true)))
cmd_existing model reuse (some e) = cmd_pure (e, false)

cmd_find_or_create :
    (model : Tptr) (reuse create : Bool) → SafeCmd (find_or_create model reuse create)
unfolding find_or_create
cmd_find_or_create model reuse true =
    cmd_bind (cmd_copy_type model)
      (λ handle. cmd_then (cmd_insert_unique handle) (cmd_pure (handle, true)))
cmd_find_or_create model reuse false = cmd_bind (cmd_find_unique model) (cmd_existing model reuse)

cmd_get_unique :
    (fuel : ℕ) (reuse : Bool) (model : Tptr) → SafeCmd (get_unique_type_internal fuel reuse model)
unfolding get_unique_type_internal
cmd_get_unique zero reuse model = record { run = λ s traced. tt }
cmd_get_unique (suc fuel) reuse model =
    cmd_then (cmd_assert (not (model == 0) && not (model == Tag.pointer))) (
      cmd_bind (cmd_read (λ m. ok (ver m model))) (λ tag.
        cmd_then (cmd_assert (ltb tag Tag.never_reached)) (
          cmd_bind (cmd_read (λ m. type_pointer_range m model)) (λ fields.
            cmd_bind
              (cmd_unique_fields (get_unique_type_internal fuel reuse) model fields
                (if tag == Tag.con_vec then 1 else 0) false (cmd_get_unique fuel reuse))
              (cmd_find_or_create model reuse)))))

-- While a trace runs, uniquefy_premade_type leaves the free blocks alone, or fails.
pub cmd_uniquefy :
    (fuel : ℕ) (model : Tptr) (reuse : Bool) → SafeCmd (uniquefy_premade_type fuel model reuse)
unfolding uniquefy_premade_type
cmd_uniquefy fuel model reuse = cmd_if (model == 0) (cmd_pure 0) (
    cmd_bind (cmd_read (λ m. ok (ver m model))) (λ tag.
      cmd_bind
        (cmd_read (λ m.
          if tag == 0 then Result.◌>>=◌ (field m model 0) (λ count. ok (ltb 1 count)) else ok true))
        (λ big.
          cmd_then (cmd_assert big)
            (cmd_bind (cmd_get_unique fuel reuse model) (λ result. cmd_pure result.0)))))
