-- ===== src/Vector/Steps.antt =====
-- The steps of `pushback` of src/vector.h: the append in place, and `grow` with and without room.
use super_searcher.Base.{
  ℕ, ◌+◌, ◌*◌, ◌≤◌, ◌<◌, ◌≡◌, ◌∙◌, true, false, List, [], ◌∷◌, ◌++◌, length, length-append, ◌==◌,
  leb, arith,
}
use super_searcher.Base.Result.{ok, abort}
use super_searcher.Types.{Mem}
use super_searcher.Memory.State.{Machine, write}
use super_searcher.Vector.{element, vector_build, grow, pushback}
use super_searcher.Vector.Words.{write-ne, write_self, Words-frame, Words-snoc}
use super_searcher.Vector.Reads.{IsVector}

-- Appending in place.
pub append-IsVector :
    (m : Mem) (p room at : ℕ) (xs : List ℕ) (v : ℕ)
    → IsVector m p room xs
    → length xs < room
    → at ≡ element p (length xs)
    → IsVector (write (write m at v) p (length xs + 1)) p room (xs ++ v ∷ [])
append-IsVector m p room at xs v is space e = record {
  size = write_self _ p _ ∙ omega (arith, length-append xs (v ∷ []));
  reserved =
      write-ne _ p _ (p + 8) (omega arith) ∙ write-ne m at v (p + 8) (omega arith) ∙ is.reserved;
  fits = omega (arith, length-append xs (v ∷ []));
  contents =
      Words-snoc _ (p + 16) xs v at
        (Words-frame m _ (p + 16) xs
          (λ b lo hi. write-ne _ p _ b (omega arith) ∙ write-ne m at v b (omega arith)) is.contents)
        (omega arith) (write-ne _ p _ at (omega arith) ∙ write_self m at v);
}

pub IsVector-frame :
    (m m' : Mem) (p room : ℕ) (xs : List ℕ)
    → ((b : ℕ) → p ≤ b → b < p + 8 * (2 + room) → m' b ≡ m b)
    → IsVector m p room xs
    → IsVector m' p room xs
IsVector-frame m m' p room xs same is = record {
  size = same p (omega arith) (omega arith) ∙ is.size;
  reserved = same (p + 8) (omega arith) (omega arith) ∙ is.reserved;
  fits = is.fits;
  contents =
      Words-frame m m' (p + 16) xs (λ b lo hi. same b (omega arith) (omega (arith, is.fits)))
        is.contents;
}

-- The words that pushback writes once there is room.
abbrev pub appended : Mem → ℕ → ℕ → ℕ → Mem
appended m p n v = write (write m (element p n) v) p (n + 1)

pub pushback-grow :
    (slot v p n : ℕ) (s s' : Machine)
    → leb (s.mem (s.mem slot)) (s.mem (s.mem slot + 8)) ≡ true
    → grow slot s ≡ ok (tt, s')
    → s'.mem slot ≡ p
    → s'.mem p ≡ n
    → pushback slot v s ≡ ok (tt, record s' { mem = appended s'.mem p n v })
unfolding pushback
pushback-grow slot v p n s s' fits grown at size = simp (fits, grown, at, size)

pub grow-room :
    (slot : ℕ) (s : Machine)
    → (s.mem (s.mem slot) == s.mem (s.mem slot + 8)) ≡ false
    → grow slot s ≡ ok (tt, s)
unfolding grow
grow-room slot s room = simp room

pub grow-full :
    (slot p n place : ℕ) (s s' : Machine)
    → s.mem slot ≡ p
    → s.mem p ≡ n
    → s.mem (p + 8) ≡ n
    → vector_build (element p 0) n s ≡ ok (place, s')
    → grow slot s ≡ ok (tt, record s' { mem = write s'.mem slot place })
unfolding grow
grow-full slot p n place s s' at size full got =
    let same : (n == n) ≡ true = ground arith in simp (at, size, full, same, got)

pub grow-abort :
    (slot p n : ℕ) (s : Machine)
    → s.mem slot ≡ p
    → s.mem p ≡ n
    → s.mem (p + 8) ≡ n
    → vector_build (element p 0) n s ≡ abort
    → grow slot s ≡ abort
unfolding grow
grow-abort slot p n s at size full failed =
    let same : (n == n) ≡ true = ground arith in simp (at, size, full, same, failed)

pub pushback-abort :
    (slot v : ℕ) (s : Machine)
    → leb (s.mem (s.mem slot)) (s.mem (s.mem slot + 8)) ≡ true
    → grow slot s ≡ abort
    → pushback slot v s ≡ abort
unfolding pushback
pushback-abort slot v s fits failed = simp (fits, failed)
