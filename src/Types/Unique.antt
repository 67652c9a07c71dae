-- ===== src/Types/Unique.antt =====
-- The hash and the equality of the table of unique types, from src/type_creator.h. Both look at the
-- words of one type object only, not at the objects behind them.
pub mod Words
pub mod Agreement
pub mod Contract
use Prim.Native.Nat.{bit_xor}
use mathlib.Core.Bool.{xor}
use super_searcher.Base.{ℕ, zero, suc, ◌+◌, Bool, true, false, ◌&&◌, ◌==◌, if◌then◌else◌}
use super_searcher.Base.Result.{Result, ok, abort, out_of_fuel, ◌>>=◌}
use super_searcher.Types.{Mem, Tptr, ver, field, total_valid_fields}

-- The loop of the hash over the fields x, x + 1, ..., `count` of them.
unfoldable pub hash_fields : Mem → Tptr → ℕ → ℕ → ℕ → Result ℕ
hash_fields m f x zero hash = ok hash
hash_fields m f x (suc count) hash = do
  word ← field m f x
  hash_fields m f (x + 1) count (bit_xor hash word)

-- hash<Tptr>
unfoldable pub hash : Mem → Tptr → Result ℕ
hash m f = do no_of_fields ← total_valid_fields m f; hash_fields m f 0 no_of_fields (ver m f)

-- The loop of the comparison over the fields x, x + 1, ..., `count` of them.
unfoldable pub fields_equal : Mem → Tptr → Tptr → ℕ → ℕ → Result Bool
fields_equal m l r x zero = ok true
fields_equal m l r x (suc count) = do
  fl ← field m l x
  fr ← field m r x
  if fl == fr then fields_equal m l r (x + 1) count else ok false

-- equal_to<Tptr>
unfoldable pub equal_to : Mem → Tptr → Tptr → Result Bool
equal_to m l r =
    if xor (l == 0) (r == 0)
    then ok false
    else if (l == 0) && (r == 0)
    then ok true
    else if ver m l == ver m r
    then (do no_of_fields ← total_valid_fields m l; fields_equal m l r 0 no_of_fields)
    else ok false
