-- ===== src/Compiler/Emission.antt =====
-- The helpers of src/helperfunctions.h that emit code, and memory_allocation.
use super_searcher.Base.{
  ℕ, zero, suc, Bool, true, false, Option, none, some, List, [], ◌∷◌, ◌++◌, ◌==◌, if◌then◌else◌,
  length, get_elem?,
}
use super_searcher.Base.Result.{Result, ok, abort, out_of_fuel}
use super_searcher.Types.{Mem}
use super_searcher.Memory.State.{Machine}
use super_searcher.Memory.State as Machines
use super_searcher.Base.Command.{Cmd, pure, fail, gets, modify, ◌>>=◌, ◌>>◌, on_part}
use super_searcher.Compiler.Llvm.{
  Llvm, LlvmType, integer_type, pointer_type, void_type, array_type, struct_type, Instruction,
  Callee, create_call,
}

-- memory_allocation
pub record MemoryAllocation (Value : Type 0) : Type 0 where
  pub allocation : Value
  pub self_is_full : Bool

-- What code that is emitted reads and changes: the machine, on which the compiler makes types; the
-- builder IRB; and the deque of allocations, where a pointer to an element is its index.
pub record Emission (llvm : Llvm) : Type 0 where
  pub machine : Machine
  pub builder : llvm.Builder
  pub allocations : List (MemoryAllocation llvm.Value)

abbrev pub Emit : Llvm → Type 0 → Type 0
Emit llvm A = Cmd (Emission llvm) A

-- llvm_array, with its check.
unfoldable pub llvm_array : ℕ → Result LlvmType
llvm_array size = if size == 0 then abort else ok (array_type size)

-- getNumElements, or 1.
unfoldable pub size_of_type : LlvmType → Result ℕ
size_of_type integer_type = ok 1
size_of_type pointer_type = ok 1
size_of_type (array_type n) = ok n
size_of_type (struct_type n) = ok n
size_of_type void_type = abort

unfoldable pub replace_at : {A : Type 0} → List A → ℕ → A → List A
replace_at [] i x = []
replace_at (y ∷ ys) zero x = x ∷ ys
replace_at (y ∷ ys) (suc i) x = y ∷ replace_at ys i x

module _ {llvm : Llvm} where
  -- A value that is used must not be null.
  unfoldable pub value : Option llvm.Value → Emit llvm llvm.Value
  value none = fail
  value (some v) = pure v

  unfoldable pub lift : {A : Type 0} → Result A → Emit llvm A
  lift (ok a) = pure a
  lift abort = fail
  lift out_of_fuel = λ s. out_of_fuel

  -- Code that reads memory and may fail.
  unfoldable pub read : {A : Type 0} → (Mem → Result A) → Emit llvm A
  unfolding lift
  read f s = lift (f s.machine.mem) s

  unfoldable pub on_machine : {A : Type 0} → Machines.Cmd A → Emit llvm A
  unfolding on_part
  on_machine = on_part (λ s. s.machine) (λ machine s. record s { machine = machine })

  abbrev put_builder : {A : Type 0} → A × llvm.Builder → Emission llvm → Result (A × Emission llvm)
  put_builder (a, builder) s = ok (a, record s { builder = builder })

  -- IRB->Create...
  unfoldable pub create : Instruction llvm.Value llvm.Block → Emit llvm llvm.Value
  create i s = put_builder (llvm.create i s.builder) s

  -- BasicBlock::Create, in the function of the builder.
  unfoldable pub new_block : Emit llvm llvm.Block
  new_block s = put_builder (llvm.new_block s.builder) s

  unfoldable pub insert_block : Emit llvm llvm.Block
  insert_block = gets (λ s. llvm.insert_block s.builder)

  unfoldable pub set_insert_point : llvm.Block → Emit llvm (Unit {0})
  set_insert_point b = modify (λ s. record s { builder = llvm.set_insert_point b s.builder })

  -- create_actual_alloca
  unfoldable pub create_actual_alloca : ℕ → Emit llvm llvm.Value
  create_actual_alloca size s = put_builder (llvm.create_alloca size s.builder) s

  -- A call of a function that llvm_int_only_func or llvm_function gives.
  unfoldable pub call : Callee → List llvm.Value → Emit llvm llvm.Value
  unfolding create
  call f arguments = create (create_call f arguments)

  -- size_of_Value
  unfoldable pub size_of_value : Option llvm.Value → Emit llvm ℕ
  unfolding size_of_type lift
  size_of_value none = pure 0
  size_of_value (some v) = lift (size_of_type (llvm.type_of v))

  -- allocations.push_back, and the pointer to the new element.
  unfoldable pub push_allocation : llvm.Value → Emit llvm ℕ
  push_allocation v = do
    place ← gets (λ s. length s.allocations)
    modify (λ s. record s {
      allocations = s.allocations ++ (record { allocation = v; self_is_full = false } ∷ []);
    })
    pure place

  -- The memory_allocation that a pointer into the deque points to.
  unfoldable pub allocation_at : ℕ → Emit llvm (MemoryAllocation llvm.Value)
  allocation_at place = do
    found ← gets (λ s. get_elem? s.allocations place)
    elim found [ none ↦ fail | some m ↦ pure m ]

  abbrev known_size : Option ℕ → Emit llvm ℕ
  known_size none = fail
  known_size (some size) = pure size

  -- memory_allocation::turn_full
  unfoldable pub turn_full : ℕ → Emit llvm (Unit {0})
  unfolding allocation_at replace_at
  turn_full place = do
    m ← allocation_at place
    if m.self_is_full then pure tt else (do
      size ← known_size (llvm.alloca_size m.allocation)
      new_alloca ←
          (λ s. put_builder (llvm.replace_by_call m.allocation Callee.allocate size s.builder) s)
      modify (λ s. record s {
        allocations =
            replace_at s.allocations place
              (record { allocation = new_alloca; self_is_full = true });
      }))
