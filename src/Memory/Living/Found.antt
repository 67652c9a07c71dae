-- ===== src/Memory/Living/Found.antt =====
-- `found_living_object` (src/memory.cpp) keeps the living objects in the order that the sweep needs.
use super_searcher.Base.{
  ℕ, ◌+◌, ◌-◌, ◌*◌, ◌%◌, ◌^◌, ◌≤◌, ◌<◌, ◌≡◌, ◌⊎◌, inl, inr, refl, Bool, true, false, List, [], ◌∷◌,
  ◌==◌, ltb, Bool-cases, All, arith,
}
use super_searcher.Base.Result.{ok}
use super_searcher.Memory.Sweep.{Living, pool_size}
use super_searcher.Memory.Sweep.Layout.{Layout, living_total}
use super_searcher.Memory.Living.{is_living, insert_living, found_living_object}

-- The objects share no byte with the `n` words at `a`.
abbrev pub ApartFrom : ℕ → ℕ → List Living → Type 0
ApartFrom a n living = All (λ o. (o.0 + 8 * o.1 ≤ a) ⊎ (a + 8 * n ≤ o.0)) living

insert_living-Layout :
    (p end a n : ℕ) (l : List Living)
    → Layout p l end
    → p ≤ a
    → (a - p) % 8 ≡ 0
    → 0 < n
    → a + 8 * n ≤ end
    → ApartFrom a n l
    → Layout p (insert_living (a, n) l) end
unfolding insert_living
insert_living-Layout p end a n [] h lo al pos hi apart = (lo, al, pos, (hi, omega arith))
insert_living-Layout p end a n ((b, k) ∷ rest) h lo al pos hi apart = elim (Bool-cases (ltb a b)) [
  | inl before ↦
      let below : a < b = ground arith in
      rw before (lo, al, pos, (omega (arith, apart.0), omega arith, h.2, h.3))
  | inr behind ↦
      let above : b ≤ a = ground arith in
      rw behind (
        h.0,
        h.1,
        h.2,
        insert_living-Layout (b + 8 * k) end a n rest h.3 (omega (arith, apart.0)) (omega arith) pos
            hi apart.1,
      )
]

pub insert_living-total :
    (a n : ℕ) (l : List Living) → living_total (insert_living (a, n) l) ≡ n + living_total l
unfolding insert_living
insert_living-total a n [] = refl
insert_living-total a n ((b, k) ∷ rest) = ground (arith, insert_living-total a n rest)

is_living-insert_living : (a n : ℕ) (l : List Living) → is_living a (insert_living (a, n) l) ≡ true
unfolding is_living insert_living
is_living-insert_living a n [] = let self : (a == a) ≡ true = ground arith in rw self refl
is_living-insert_living a n ((b, k) ∷ rest) = elim (Bool-cases (ltb a b)) [
  | inl before ↦ let self : (a == a) ≡ true = ground arith in rw (before, self) refl
  | inr behind ↦ rw behind (elim (Bool-cases (a == b)) [
    | inl same ↦ rw same refl
    | inr other ↦ rw other (is_living-insert_living a n rest)
  ])
]

-- What found_living_object leaves, for either answer.
pub record Registered (pool memory size : ℕ) (living : List Living) (count : ℕ) : Type 0 where
  pub was : Bool
  pub living' : List Living
  pub count' : ℕ
  pub returns : found_living_object pool memory size living count ≡ ok (was, living', count')
  pub answer : was ≡ is_living memory living
  pub present : is_living memory living' ≡ true
  pub layout : Layout pool living' (pool + 8 * pool_size)
  pub conserved : count' + living_total living' ≡ count + living_total living

-- In a pool that does not begin at null, take an object of at least one word at a whole word of the
-- pool, which is known already or shares no byte with the known ones, and a 64-bit count of at least
-- its size. The call succeeds and answers whether the object was known; afterwards it is, the living
-- objects still lie one behind the other, and what free_memory_count loses the living words gain.
pub found_living_object-Registered :
    (pool memory size count : ℕ) (living : List Living)
    → 0 < pool
    → 0 < size
    → size ≤ count
    → count < 2 ^ 64
    → pool ≤ memory
    → (memory - pool) % 8 ≡ 0
    → memory + 8 * size ≤ pool + 8 * pool_size
    → Layout pool living (pool + 8 * pool_size)
    → ((is_living memory living ≡ true) ⊎ ApartFrom memory size living)
    → Registered pool memory size living count
unfolding found_living_object
found_living_object-Registered pool memory size count living hp hs enough word lo al hi layout
      known =
    elim (Bool-cases (is_living memory living)) [
      | inl old ↦ record {
        was = true;
        living' = living;
        count' = count;
        returns = ground (arith, old);
        answer = ground (arith, old);
        present = old;
        layout = layout;
        conserved = refl;
      }
      | inr new ↦
          let apart : ApartFrom memory size living = elim known [
            | inl old ↦ ground (arith, old, new)
            | inr a ↦ a
          ] in
          record {
            was = false;
            living' = insert_living (memory, size) living;
            count' = (count + 2 ^ 64 - size) % 2 ^ 64;
            returns = ground (arith, new);
            answer = ground (arith, new);
            present = is_living-insert_living memory size living;
            layout = insert_living-Layout pool _ memory size living layout lo al hs hi apart;
            conserved = omega (arith, insert_living-total memory size living);
          }
    ]
