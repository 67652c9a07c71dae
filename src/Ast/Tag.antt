-- ===== src/Ast/Tag.antt =====
-- The values of `ASTn` of src/ASTs.h at the names that the program writes; Ast/Tests compares them
-- with the table.
use super_searcher.Base.{ℕ}

abbrev pub imv : ℕ
imv = 0

abbrev pub basicblock : ℕ
basicblock = 1

abbrev pub zero : ℕ
zero = 2

abbrev pub decrement : ℕ
decrement = 3

abbrev pub increment : ℕ
increment = 4

abbrev pub random : ℕ
random = 5

abbrev pub if_else : ℕ
if_else = 6

abbrev pub lessu : ℕ
lessu = 7

abbrev pub lesss : ℕ
lesss = 8

abbrev pub add : ℕ
add = 9

abbrev pub subtract : ℕ
subtract = 10

abbrev pub multiply : ℕ
multiply = 11

abbrev pub ushr : ℕ
ushr = 12

abbrev pub sshr : ℕ
sshr = 13

abbrev pub shl : ℕ
shl = 14

abbrev pub udiv : ℕ
udiv = 15

abbrev pub urem : ℕ
urem = 16

abbrev pub pointer : ℕ
pointer = 17

abbrev pub tmp_pointer : ℕ
tmp_pointer = 18

abbrev pub concatenate : ℕ
concatenate = 19

abbrev pub nvec : ℕ
nvec = 20

abbrev pub dynamify : ℕ
dynamify = 21

abbrev pub compile : ℕ
compile = 22

abbrev pub overfunc : ℕ
overfunc = 23

abbrev pub run_function : ℕ
run_function = 24

abbrev pub goto : ℕ
goto = 25

abbrev pub label : ℕ
label = 26

abbrev pub convert_to_ast : ℕ
convert_to_ast = 27

abbrev pub imv_ast : ℕ
imv_ast = 28

abbrev pub store : ℕ
store = 29

abbrev pub try_store : ℕ
try_store = 30

abbrev pub load_subobj : ℕ
load_subobj = 31

abbrev pub load_subobj_ref : ℕ
load_subobj_ref = 32

abbrev pub dyn_subobj : ℕ
dyn_subobj = 33

abbrev pub vecpb : ℕ
vecpb = 34

abbrev pub vecsz : ℕ
vecsz = 35

abbrev pub typeof : ℕ
typeof = 36

abbrev pub system1 : ℕ
system1 = 37

abbrev pub system2 : ℕ
system2 = 38

abbrev pub agency1 : ℕ
agency1 = 39

abbrev pub agency2 : ℕ
agency2 = 40

abbrev pub load_tag : ℕ
load_tag = 41

abbrev pub load_imv_from_ast : ℕ
load_imv_from_ast = 42

abbrev pub load_vector_from_bb : ℕ
load_vector_from_bb = 43

abbrev pub get_event_loop : ℕ
get_event_loop = 44

abbrev pub never_reached : ℕ
never_reached = 45
