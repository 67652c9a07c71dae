-- ===== src/Types/Descriptor.antt =====
-- `Type_info`, `Type_descriptor[]`, `get_enum_from_name` and `Typen` of src/types.h.
use Prim.Native.String.{String}
use text.Mathlib.Text.{◌==◌ as str_eq}
use super_searcher.Base.{ℕ, ◌-◌, ◌^◌, ◌+◌, List, [], ◌∷◌, if◌then◌else◌}
use super_searcher.Base.Result.{Result, ok, abort}

pub record TypeInfo : Type 0 where
  pub name : String
  pub pointer_fields : ℕ
  pub size : ℕ

-- ~0ull
abbrev pub minus_one : ℕ
minus_one = 2 ^ 64 - 1

abbrev type_info : String → ℕ → ℕ → TypeInfo
type_info a n s = record { name = a; pointer_fields = n; size = s }

abbrev pub type_descriptor : List TypeInfo
type_descriptor =
    type_info "con_vec" minus_one minus_one
    ∷ type_info "integer" 0 1
    ∷ type_info "dynamic object" 0 1
    ∷ type_info "AST pointer" 0 1
    ∷ type_info "type pointer" 0 1
    ∷ type_info "function pointer" 0 1
    ∷ type_info "vector" 1 1
    ∷ type_info "pointer" 1 1
    ∷ type_info "temp pointer" 1 1
    ∷ type_info "pointer to something" 0 1
    ∷ type_info "vector of something" 0 1
    ∷ type_info "does not return" 0 0
    ∷ type_info "never reached" 0 0
    ∷ []

-- The search stops at the entry "never reached", with an error unless that is the name sought.
unfoldable pub enum_from {ℓ} : {Info : Type ℓ} → (Info → String) → List Info → String → ℕ → Result ℕ
enum_from name_of [] name k = abort
enum_from name_of (t ∷ ts) name k =
    let rest = enum_from name_of ts name (k + 1) in
    if str_eq (name_of t) name
    then ok k
    else if str_eq (name_of t) "never reached"
    then abort
    else rest

unfoldable pub typen : String → Result ℕ
unfolding enum_from
typen name = enum_from (λ (t : TypeInfo). t.name) type_descriptor name 0
