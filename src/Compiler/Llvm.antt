-- ===== src/Compiler/Llvm.antt =====
-- What src/cs11.cpp, src/cs11.h and src/helperfunctions.h use of LLVM: values, basic blocks and a
-- builder, which holds the function that is being generated. LLVM is not part of the repository, so
-- it is a parameter; a null pointer to a value is `none`.
use super_searcher.Base.{ℕ, List, Option}

-- Types of values, with the number of elements where there is one.
pub data LlvmType : Type 0 where
  integer_type pointer_type void_type : LlvmType
  array_type struct_type : ℕ → LlvmType

pub data BinaryOp : Type 0 where
  add_op sub_op mul_op udiv_op urem_op lshr_op ashr_op shl_op : BinaryOp

pub data Comparison : Type 0 where
  icmp_eq icmp_ne icmp_ult icmp_slt : Comparison

-- The run-time functions that generated code calls, by the address that llvm_function and
-- llvm_int_only_func turn into a pointer.
pub data Callee : Type 0 where
  generate_random new_vector allocate dynamic_subtype reference_at ast_subfield pushback vector_size
        new_dynamic_obj compile_returning_just_function overwrite_func no_vector_to_ast
        vector_to_ast new_imv_ast type_tag ast_tag load_imv_from_ast load_bb_from_ast
        run_null_parameter_function type_subfield ast_subfield_guarantee vector_load
        ast_from_function type_from_function system1 system2 agency1 agency2 :
      Callee

pub data Attribute : Type 0 where
  no_unwind read_only : Attribute

-- The methods of IRBuilder that make a value, with those of PHINode, SwitchInst and CallInst that add
-- to one.
pub data Instruction (Value Block : Type 0) : Type 0 where
  create_binary : BinaryOp → Value → Value → Instruction Value Block
  create_compare : Comparison → Value → Value → Instruction Value Block
  create_zext create_load create_int_to_ptr create_ptr_to_int : Value → Instruction Value Block
  create_store : Value → Value → Instruction Value Block
  create_gep : Value → Value → Instruction Value Block
  create_const_gep create_extract_value : Value → ℕ → Instruction Value Block
  create_insert_value : Value → Value → ℕ → Instruction Value Block
  create_call : Callee → List Value → Instruction Value Block
  add_attribute : Value → Attribute → Instruction Value Block
  create_br : Block → Instruction Value Block
  create_cond_br : Value → Block → Block → Instruction Value Block
  create_switch : Value → Block → ℕ → Instruction Value Block
  add_case : Value → ℕ → Block → Instruction Value Block
  create_phi : LlvmType → ℕ → Instruction Value Block
  add_incoming : Value → Value → Block → Instruction Value Block
  create_ret : Value → Instruction Value Block
  create_ret_void : Instruction Value Block

-- `constant_value` is dyn_cast<ConstantInt>; `alloca_size` is the size of a value that is an AllocaInst
-- of constant size; `create_alloca` puts one into the entry block; `replace_by_call` puts a call with
-- one constant argument in the place of an instruction.
pub record Llvm : Type 1 where
  pub Value : Type 0
  pub Block : Type 0
  pub Builder : Type 0
  pub type_of : Value → LlvmType
  pub integer : ℕ → Value
  pub constant_array : List ℕ → Value
  pub undef : LlvmType → Value
  pub constant_value : Value → Option ℕ
  pub alloca_size : Value → Option ℕ
  pub create : Instruction Value Block → Builder → Value × Builder
  pub create_alloca : ℕ → Builder → Value × Builder
  pub replace_by_call : Value → Callee → ℕ → Builder → Value × Builder
  pub new_block : Builder → Block × Builder
  pub insert_block : Builder → Block
  pub set_insert_point : Block → Builder → Builder
