-- ===== src/Memory/Living/Tests.antt =====
-- Runs of found_living_object of src/memory.cpp, and the theorem there.
use super_searcher.Base.{◌≡◌, refl, true, false, List, [], ◌∷◌, inl, inr, arith}
use super_searcher.Base.Result.{ok, abort}
use super_searcher.Memory.Sweep.{Living}
use super_searcher.Memory.Living.{found_living_object, is_living, insert_living}
use super_searcher.Memory.Living.Found.{Registered, found_living_object-Registered}

abbrev known : List Living
known = (8000, 2) ∷ (8040, 1) ∷ []

between :
    found_living_object 8000 8024 2 known 100
    ≡ ok (false, (8000, 2) ∷ (8024, 2) ∷ (8040, 1) ∷ [], 98)
unfolding found_living_object is_living insert_living
between = refl

again : found_living_object 8000 8040 1 known 100 ≡ ok (true, known, 100)
unfolding found_living_object is_living
again = refl

no_size : found_living_object 8000 8024 0 known 100 ≡ abort
unfolding found_living_object
no_size = refl

found_living_object-Registered_example : Registered 8000 8024 2 known 100
found_living_object-Registered_example =
    found_living_object-Registered 8000 8024 2 100 known (omega arith) (omega arith) (omega arith)
      (omega arith) (omega arith) (omega arith) (omega arith) (omega arith)
      (inr (inl (omega arith), (inr (omega arith), tt)))
