-- ===== src/Compiler/Arithmetic.antt =====
-- The cases of generate_IR (src/cs11.cpp) for numbers.
use super_searcher.Base.{ℕ, some, List, []}
use super_searcher.Base.Command.{pure, ◌>>=◌}
use super_searcher.Compiler.Llvm.{
  Llvm, Callee, BinaryOp, udiv_op, urem_op, Comparison, icmp_ne, icmp_ult, create_binary,
  create_compare, create_zext,
}
use super_searcher.Compiler.Emission.{Emit, create, call}
use super_searcher.Compiler.State.{ReturnInfo, on_emission}
use super_searcher.Compiler.Finish.{Out, Frame, finish, operand, create_if_value}

module _ {llvm : Llvm} where
  unfoldable pub zero_case : Frame → Out llvm
  unfolding finish
  zero_case f = finish f (some (llvm.integer 0))

  -- increment and decrement.
  unfoldable pub step_case : BinaryOp → Frame → List (ReturnInfo llvm.Value) → Out llvm
  step_case op f results = do
    v ← on_emission (do a ← operand results 0; create (create_binary op a (llvm.integer 1)))
    finish f (some v)

  unfoldable pub binary : BinaryOp → List (ReturnInfo llvm.Value) → Emit llvm llvm.Value
  binary op results = do a ← operand results 0; b ← operand results 1; create (create_binary op a b)

  -- add, subtract and multiply.
  unfoldable pub binary_case : BinaryOp → Frame → List (ReturnInfo llvm.Value) → Out llvm
  unfolding binary
  binary_case op f results = do v ← on_emission (binary op results); finish f (some v)

  unfoldable pub random_case : Frame → Out llvm
  random_case f = do v ← on_emission (call Callee.generate_random []); finish f (some v)

  -- lessu and lesss.
  unfoldable pub less_case : Comparison → Frame → List (ReturnInfo llvm.Value) → Out llvm
  less_case predicate f results = do
    v ← on_emission (do
      a ← operand results 0
      b ← operand results 1
      less ← create (create_compare predicate a b)
      create (create_zext less))
    finish f (some v)

  -- A case whose operation is carried out if a test of the second field is true.
  unfoldable pub guarded_case :
      Comparison
      → ℕ
      → BinaryOp
      → Emit llvm llvm.Value
      → Frame
      → List (ReturnInfo llvm.Value)
      → Out llvm
  unfolding binary
  guarded_case predicate bound op otherwise f results = do
    comparison ←
        on_emission
          (do b ← operand results 1; create (create_compare predicate b (llvm.integer bound)))
    (done, v) ←
        create_if_value comparison (do v ← on_emission (binary op results); pure (tt, some v))
          (do v ← on_emission otherwise; pure (some v))
    finish f v

  unfoldable pub udiv_case : Frame → List (ReturnInfo llvm.Value) → Out llvm
  unfolding guarded_case
  udiv_case f results = guarded_case icmp_ne 0 udiv_op (pure (llvm.integer 0)) f results

  unfoldable pub urem_case : Frame → List (ReturnInfo llvm.Value) → Out llvm
  unfolding guarded_case
  urem_case f results = guarded_case icmp_ne 0 urem_op (operand results 0) f results

  -- ushr, sshr and shl.
  unfoldable pub shift_case : BinaryOp → Frame → List (ReturnInfo llvm.Value) → Out llvm
  unfolding guarded_case
  shift_case op f results = guarded_case icmp_ult 64 op (pure (llvm.integer 0)) f results
