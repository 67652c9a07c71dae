-- ===== src/Runtime/Convert.antt =====
-- `vector_to_AST` of src/runtime.h, by which a program makes new programs.
use super_searcher.Base.{
  ℕ, ◌+◌, ◌*◌, ◌≤◌, ◌<◌, ◌≡◌, refl, ◌∙◌, ap, ◌⊎◌, inl, inr, true, false, ◌==◌, ltb, leb,
  if◌then◌else◌, Bool-cases, arith, Option-cases, get_elem?, get_elem?-none, List, length, All,
}
use super_searcher.Base.Result.{ok, abort}
use super_searcher.Types.{Mem}
use super_searcher.Memory.{allocate}
use super_searcher.Memory.State.{Machine, write}
use super_searcher.Memory.Blocks.{covered}
use super_searcher.Memory.Objects.{write_words}
use super_searcher.Memory.Objects.Made.{
  IsIdle, Made, allocate-Made, write_words-outside, write_words-Words, Made-apart,
}
use super_searcher.Vector.Words.{write-ne, write_self}
use super_searcher.Vector.Steps.{IsVector-frame}
use super_searcher.Ast.{field_at, get_field_size, get_full_size, ast_field}
use super_searcher.Ast.Tag as AstTag
use super_searcher.Ast.Descriptor.{AstInfo, ast_entry, ast_descriptor}
use super_searcher.Runtime.Objects.{padded_fields, vector_to_ast}
use super_searcher.Runtime.Made.{
  or_zero, pad, length-pad, or_zero-pad, Words-or_zero, Elements, padded_fields-pad,
}

-- The table has an entry for each tag up to the last.
pub ast_entry-ok : (tag : ℕ) → tag < 45 → (info : AstInfo) × (ast_entry tag ≡ ok info)
unfolding ast_entry ast_descriptor
ast_entry-ok tag lt = elim (Option-cases (get_elem? ast_descriptor tag)) [
  | inl past ↦ absurd (omega (arith, get_elem?-none {A = AstInfo} ast_descriptor tag past))
  | inr (info, e) ↦ (info, rw e refl)
]

pub get_field_size-ok : (tag : ℕ) → tag < 45 → (n : ℕ) × (get_field_size tag ≡ ok n)
unfolding get_field_size
get_field_size-ok tag lt = elim (Bool-cases (tag == AstTag.imv)) [
  | inl imv ↦ (1, rw imv refl)
  | inr other ↦ elim (Bool-cases (tag == AstTag.basicblock)) [
    | inl block ↦ (1, rw (other, block) refl)
    | inr plain ↦
        let entry = ast_entry-ok tag lt in (entry.0.pointer_fields, rw (other, plain, entry.1) refl)
  ]
]

vector_to_ast-ok :
    (tag vec n place : ℕ) (s s' : Machine)
    → 1 < tag
    → tag < 45
    → get_field_size tag ≡ ok n
    → allocate (n + 1) s ≡ ok (place, s')
    → vector_to_ast tag vec s
      ≡ ok (
        place,
        record s' {
          mem =
              write_words
                (write s'.mem place tag)
                (field_at place 0)
                (padded_fields (write s'.mem place tag) vec 0 n);
        },
      )
unfolding vector_to_ast get_full_size
vector_to_ast-ok tag vec n place s s' big lt size got =
    let low : leb 45 tag ≡ false = ground arith in
    let not_imv : (tag == 0) ≡ false = ground arith in
    let not_block : (tag == 1) ≡ false = ground arith in
    rw (low, not_imv, not_block, size, got) refl

vector_to_ast-abort :
    (tag vec n : ℕ) (s : Machine)
    → 1 < tag
    → tag < 45
    → get_field_size tag ≡ ok n
    → allocate (n + 1) s ≡ abort
    → vector_to_ast tag vec s ≡ abort
unfolding vector_to_ast get_full_size
vector_to_ast-abort tag vec n s big lt size got =
    let low : leb 45 tag ≡ false = ground arith in
    let not_imv : (tag == 0) ≡ false = ground arith in
    let not_block : (tag == 1) ≡ false = ground arith in
    rw (low, not_imv, not_block, size, got) refl

-- The program at `t` has the tag, and the elements of the list as its fields, with zeros behind them.
pub record Converted (tag : ℕ) (xs : List ℕ) (s : Machine) (t : ℕ) (s' : Machine) : Type 0 where
  pub count : ℕ
  pub sized : get_field_size tag ≡ ok count
  pub made : Made (count + 1) s t s'
  pub has_tag : s'.mem t ≡ tag
  pub inside :
      (i : ℕ)
      → i < count
      → (ast_field s'.mem t i ≡ ok (field_at t i)) × (s'.mem (field_at t i) ≡ or_zero xs i)
  pub outside : (i : ℕ) → count ≤ i → ast_field s'.mem t i ≡ ok 0

ast_field-plain :
    (m : Mem) (t tag n i : ℕ)
    → 0 < t
    → m t ≡ tag
    → 1 < tag
    → get_field_size tag ≡ ok n
    → ast_field m t i ≡ (if ltb i n then ok (field_at t i) else ok 0)
unfolding ast_field
ast_field-plain m t tag n i pos e big size =
    let real : (t == 0) ≡ false = ground arith in
    let not_imv : (tag == 0) ≡ false = ground arith in
    let not_block : (tag == 1) ≡ false = ground arith in rw (real, e, not_imv, not_block, size) refl

Elements-frame :
    (m m' : Mem) (vec room : ℕ) (xs : List ℕ)
    → ((b : ℕ) → vec ≤ b → b < vec + 8 * (2 + room) → m' b ≡ m b)
    → Elements m vec room xs
    → Elements m' vec room xs
Elements-frame m m' vec room xs same (inl null) = inl null
Elements-frame m m' vec room xs same (inr (pos, is)) =
    inr (pos, IsVector-frame m m' vec room xs same is)

module _ (tag vec room n place : ℕ) (xs : List ℕ) (s s' : Machine) (big : 1 < tag)
    (size : get_field_size tag ≡ ok n) (pos : 0 < place) (elements : Elements s.mem vec room xs)
    (owned : (b : ℕ) → vec ≤ b → b < vec + 8 * (2 + room) → covered s.free_memory b ≡ 0)
    (same : s'.mem ≡ s.mem) (made : Made (n + 1) s place s') where
  -- The memory once the tag is written, and at the end.
  abbrev tagged : Mem
  tagged = write s'.mem place tag

  abbrev converted : Mem
  converted = write_words tagged (field_at place 0) (padded_fields tagged vec 0 n)

  fields_pad : padded_fields tagged vec 0 n ≡ pad xs 0 n
  fields_pad =
      let apart =
        Made-apart (n + 1) place vec (2 + room) s s' (omega arith) (omega arith) owned made in
      padded_fields-pad tagged vec room xs 0 n (
        Elements-frame s.mem tagged vec room xs
          (λ b lo hi. write-ne s'.mem place tag b (omega arith) ∙ ap (λ (m : Mem). m b) same)
          elements)

  converted_outside :
      (b : ℕ) → ((b < place + 8) ⊎ (place + 8 * (n + 1) ≤ b)) → converted b ≡ tagged b
  converted_outside b out =
      write_words-outside tagged (field_at place 0) (padded_fields tagged vec 0 n) b
        (let long = ap length fields_pad in omega (arith, length-pad xs 0 n))

  has_tag : converted place ≡ tag
  has_tag = converted_outside place (omega arith) ∙ write_self s'.mem place tag

  field_words : (i : ℕ) → i < n → converted (field_at place i) ≡ or_zero xs i
  field_words i lt =
      let words = write_words-Words tagged (field_at place 0) (padded_fields tagged vec 0 n) in
      let here =
        Words-or_zero converted (field_at place 0) (padded_fields tagged vec 0 n) i
          (field_at place i) words
          (let long = ap length fields_pad in omega (arith, length-pad xs 0 n)) (omega arith) in
      let e : 0 + i ≡ i = omega arith in
      here ∙ ap (λ l. or_zero l i) fields_pad ∙ or_zero-pad xs 0 n i lt ∙ ap (or_zero xs) e

  -- The program that vector_to_AST made.
  converted-Converted : Converted tag xs s place (record s' { mem = converted })
  converted-Converted = record {
    count = n;
    sized = size;
    made = record {
      splits = made.splits;
      table = record {
        disjoint = made.table.disjoint;
        counted = made.table.counted;
        is_word = made.table.is_word;
      };
      idle = made.idle;
      frame = λ b out.
          converted_outside b (omega arith)
          ∙ write-ne s'.mem place tag b (omega arith)
          ∙ made.frame b out;
    };
    has_tag = has_tag;
    inside = λ i lt.
        let test : ltb i n ≡ true = ground arith in
        (
          ast_field-plain converted place tag n i pos has_tag big size ∙ rw test refl,
          field_words i lt,
        );
    outside = λ i le.
        let test : ltb i n ≡ false = ground arith in
        ast_field-plain converted place tag n i pos has_tag big size ∙ rw test refl;
  }

-- Where a tag is neither that of immediate values nor that of basic blocks, nothing is traced, the
-- vector (or null pointer) is in no free block and no free block holds null: vector_to_AST ends the program exactly if no free
-- block is big enough. Otherwise it makes a program in fresh words, whose fields, as AST_field finds
-- them, are the elements of the vector, with zeros behind the last; what is more than the fields is
-- left off.
pub vector_to_ast-Converted :
    (tag vec room : ℕ) (xs : List ℕ) (s : Machine)
    → 1 < tag
    → tag < 45
    → IsIdle s
    → Elements s.mem vec room xs
    → ((b : ℕ) → vec ≤ b → b < vec + 8 * (2 + room) → covered s.free_memory b ≡ 0)
    → covered s.free_memory 0 ≡ 0
    → ((n : ℕ) × (get_field_size tag ≡ ok n)
        × (vector_to_ast tag vec s ≡ abort)
        × All (λ b. b.0 < n + 1) s.free_memory)
      ⊎ ((t : ℕ) × (s' : Machine) × (vector_to_ast tag vec s ≡ ok (t, s'))
          × Converted tag xs s t s')
vector_to_ast-Converted tag vec room xs s big lt idle elements owned null =
    let size = get_field_size-ok tag lt in
    elim (allocate-Made (size.0 + 1) s (omega arith) idle) [
      | inl failed ↦
          inl
            (size.0, size.1, vector_to_ast-abort tag vec size.0 s big lt size.1 failed.0, failed.1)
      | inr got ↦ inr (
        got.0,
        _,
        vector_to_ast-ok tag vec size.0 got.0 s got.1 big lt size.1 got.2,
        converted-Converted tag vec room size.0 got.0 xs s got.1 big size.1
            (ground (arith, got.4.splits 0, null)) elements owned got.3 got.4,
      )
    ]
