-- ===== src/Lib.antt =====
-- Super-Searcher keeps a small typed language at run time: objects, types and programs live in one
-- pool of 64-bit words, a compiler turns programs into machine code, a collector rebuilds the
-- table of free blocks, and processes talk through a queue in shared memory. This library models
-- its memory with the collector, its types, its vectors, its programs as objects, the reader and the
-- printer of programs, the compiler, the functions that compiled programs call, its queue, and the
-- processes and users around it.
--
-- Files and code. Paths are from the repository's root.
--   Base, Base/*: names shared by all modules. Base/Result is the outcome of a call: a value,
--     `abort` for error() and a failed check() of src/globalinfo.h, or no fuel left. Base/Command:
--     commands over a state.
--   Types, Types/Tag, Types/Descriptor: src/types.h. A Tptr is a word; `ver`, `field`,
--     `type_pointer_range`, `total_valid_fields`, `get_size`, `get_offset_type`, `is_zeroable` and
--     `is_full` are the functions of these names, Types/Descriptor has Type_descriptor and Typen.
--   Types/Check: type_check and type_check_once of src/types.cpp.
--   Types/Tree, Types/Compare: the independent description. A type is a finite tree, `Rep` says
--     that memory holds a tree behind a word, `compare` is the comparison on trees. Types/Storage
--     describes types by their tags, also those that exist in functions only, which have no tree.
--   Types/Unique: the hash and the equality of the table of unique types, src/type_creator.h.
--   Memory, Memory/State, Memory/Blocks: the globals of src/memory.cpp as a record, free_memory as
--     the list of a multimap's entries in order, and allocate.
--   Memory/Sweep: the half of sweepy_sweep that rebuilds free_memory from living_objects.
--   Memory/Functions: the pool of functions of src/memory.cpp, first_zero, allocate_function,
--     found_function and the half of sweepy_sweep about functions; a destructor that runs is a number
--     in a list, and first_possible_empty_function_block is an argument.
--   Memory/Living: found_living_object of src/memory.cpp.
--   Memory/Objects: src/memory.h, objects written word by word.
--   Vector: src/vector.h over that allocator.
--   Creator: new types. new_local_type, copy_type and new_unique_type of src/types.h,
--     get_unique_type_internal and uniquefy_premade_type of src/type_creator.cpp, concatenate_types of
--     src/types.cpp. type_hash_table, a hash set, is the list of its entries.
--   Ast, Ast/Descriptor, Ast/Tag, Ast/FieldTypes: src/ASTs.h, with AST_descriptor in full, and
--     src/dynamic.h. Ast/Copy: copy_object and deep_AST_copier of src/helperfunctions.h.
--   Runtime, Runtime/Objects, Runtime/Functions: the functions of src/runtime.h that compiled programs
--     call. A function is the address of its words.
--   Collector, Collector/State: mark_target, initialize_roots, sweepy_sweep, trace_objects and start_GC
--     of src/memory.cpp, on a record of the globals. It calls the parts above: found_living_object,
--     found_function, both halves of the sweep, and uniquefy_premade_type.
--   Printer: output_AST_struct of src/debugoutput.h, with its output as a list of pieces.
--   Compiler/Llvm: what the compiler uses of LLVM, as a parameter. Compiler/Emission,
--     Compiler/Aggregates: the helpers of src/helperfunctions.h that emit code. Compiler/State,
--     Compiler/Finish: the members of compiler_object (src/cs11.h), Return_Info, clear_stack,
--     create_if_value and finish. Compiler/Arithmetic, Compiler/Control, Compiler/Stores,
--     Compiler/Subobjects, Compiler/References, Compiler/Calls: the cases of the switch of generate_IR
--     (src/cs11.cpp), each a function of the frame, the results of the fields and generate_IR itself.
--     Compiler/Generate: generate_IR, and compile_AST up to the finished function. The compiler reads
--     programs and makes types in the memory of the parts above.
--   Console/Scanner, Console/Reader: the source_reader of src/testdriver.cpp, which makes ASTs of a
--     text: get_token, read_single_AST, create_single_basic_block and read.
--   Queue: multiple_sender_queue of src/generic_ipc.h.
--   Events: the events of src/generic_ipc.h and their handlers in user_admin/mmap.cpp and
--     user_admin/slave.cpp, over the queue.
--   Ancestry: the tree of users of src/ancestry.h, as a map from addresses to nodes.
--   Proofs stand in the child modules named for what they prove; runs on concrete memories and
--     inputs in the Tests modules.
--
-- Conventions. Memory maps byte addresses to words, and an aligned object's words are 8 apart;
-- sizes are in words, as in the source. Addresses and sizes are natural numbers without wrap-around
-- where the pool bounds them; free_memory_count and the positions of the queue are 64-bit words.
-- DEBUG_GC is on, as in a build without NOCHECK; output under the VERBOSE flags is left out.
--
-- Fuel. type_check follows one pointer for each unit, and takes one more than the depth of the
-- existing type; is_full takes two, since a concatenation holds no concatenation; the sweep takes
-- one more than there are living objects; commit_memory takes one where no other process moves the
-- position it waits for. get_unique_type_internal takes one more than the height of the type.
-- mark_target and deep_AST_copier follow the objects that they have not met, and death the tree of
-- users; for these no bound is given, and what is said of them holds for every fuel. The printer
-- takes one more than there are programs it has not seen.
--
-- generate_IR and the console's reader follow one AST for each unit of fuel; what is said of them
-- holds for every fuel.
--
-- Not modelled: the optimisation passes of src/cs11.cpp and the transfer of a module to the JIT, and
-- what runs compiled code (overwrite_func, run_null_parameter_function and compile_specifying_location
-- of src/runtime.h), the fuzzer and the command line (src/testdriver.cpp) and the debugging
-- output (pfAST and pftype of src/debugoutput.h). Snapshots are file input and output, and src/orc.h
-- only calls LLVM. The set-up of processes and mappings in user_admin is system calls. The queue is
-- modelled for one process at a time.
pub mod Base
pub mod Types
pub mod Memory
pub mod Vector
pub mod Queue
pub mod Creator
pub mod Ast
pub mod Runtime
pub mod Collector
pub mod Events
pub mod Ancestry
pub mod Printer
pub mod Compiler
pub mod Console
