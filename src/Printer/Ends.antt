-- ===== src/Printer/Ends.antt =====
-- `determine_references` (src/debugoutput.h) ends on every finite set of programs, cycles included.
use super_searcher.Base.{
  ℕ, zero, suc, ◌+◌, ◌≤◌, ◌<◌, ◌≡◌, refl, ◌∙◌, ◌⊎◌, inl, inr, true, false, Bool-cases, List, [],
  ◌∷◌, ◌==◌, if◌then◌else◌, All, arith, eq_of_==,
}
use super_searcher.Base.Result.{Result, ok}
use super_searcher.Types.{Mem}
use super_searcher.Ast.{ast_range}
use super_searcher.Printer.{
  Printer, is_in, mark_seen, need_reference, determine_all, determine_references,
}

-- How many of the programs are not in the list.
abbrev pub unseen : List ℕ → List ℕ → ℕ
unseen [] seen = 0
unseen (x ∷ u) seen = (if is_in x seen then 0 else 1) + unseen u seen

abbrev pub Within : List ℕ → List ℕ → Type 0
Within a b = (x : ℕ) → is_in x a ≡ true → is_in x b ≡ true

unseen-Within : (u a b : List ℕ) → Within a b → unseen u b ≤ unseen u a
unseen-Within [] a b h = omega arith
unseen-Within (x ∷ u) a b h = elim (Bool-cases (is_in x a)) [
  | inl here ↦ ground (arith, here, h x here, unseen-Within u a b h)
  | inr away ↦ ground (arith, away, unseen-Within u a b h)
]

Within-cons : (t : ℕ) (a : List ℕ) → Within a (t ∷ a)
unfolding is_in
Within-cons t a x h = elim (Bool-cases (x == t)) [ inl e ↦ rw e refl | inr other ↦ rw other h ]

is_in_self : (t : ℕ) (a : List ℕ) → is_in t (t ∷ a) ≡ true
unfolding is_in
is_in_self t a = let self : (t == t) ≡ true = ground arith in rw self refl

is_in-cases : (x t : ℕ) (a : List ℕ) → is_in x (t ∷ a) ≡ true → (x ≡ t) ⊎ (is_in x a ≡ true)
unfolding is_in
is_in-cases x t a h = elim (Bool-cases (x == t)) [
  | inl e ↦ inl (eq_of_== x t e)
  | inr other ↦ inr (rw other at h)
]

unseen-cons :
    (u a : List ℕ) (t : ℕ) → is_in t u ≡ true → is_in t a ≡ false → unseen u (t ∷ a) < unseen u a
unfolding is_in
unseen-cons [] a t h away = cc
unseen-cons (x ∷ u) a t h away = elim (Bool-cases (t == x)) [
  | inl e ↦
      let same : t ≡ x = eq_of_== t x e in
      let later = unseen-Within u a (t ∷ a) (Within-cons t a) in
      let self : (x == t) ≡ true = ground (arith, same) in
      let missing : is_in x a ≡ false = rw (← same) away in ground (arith, later, self, missing)
  | inr other ↦
      let rest : is_in t u ≡ true = rw other at h in
      let later = unseen-cons u a t rest away in
      let this : (x == t) ≡ false = ground (arith, other) in
      elim (Bool-cases (is_in x a)) [
        | inl here ↦ ground (arith, later, this, here)
        | inr missing ↦ ground (arith, later, this, missing)
      ]
]

-- The fields of the programs of the list are programs of the list.
pub record IsClosed (m : Mem) (u : List ℕ) : Type 0 where
  pub fields :
      (t : ℕ)
      → is_in t u ≡ true
      → (l : List ℕ) × (ast_range m t ≡ ok l) × All (λ a. is_in (m a) u ≡ true) l

-- Nothing is printed, what was seen stays seen, and what needs a name was seen.
pub record Determined (s s' : Printer) : Type 0 where
  pub seen : Within s.ast_list s'.ast_list
  pub output : s'.output ≡ s.output
  pub named : Within s.reference_necessary s.ast_list → Within s'.reference_necessary s'.ast_list

Determined-trans : (s s' s'' : Printer) → Determined s s' → Determined s' s'' → Determined s s''
Determined-trans s s' s'' h h' = record {
  seen = λ x e. h'.seen x (h.seen x e);
  output = h'.output ∙ h.output;
  named = λ before. h'.named (h.named before);
}

Determined-mark_seen : (t : ℕ) (s : Printer) → Determined s (mark_seen t s)
unfolding mark_seen
Determined-mark_seen t s = record {
  seen = Within-cons t s.ast_list;
  output = refl;
  named = λ before x e. Within-cons t s.ast_list x (before x e);
}

Determined-need_reference :
    (t : ℕ) (s : Printer) → is_in t s.ast_list ≡ true → Determined s (need_reference t s)
unfolding need_reference is_in
Determined-need_reference t s here = elim (Bool-cases (is_in t s.reference_necessary)) [
  | inl old ↦ rw old (record { seen = λ x e. e; output = refl; named = λ before. before })
  | inr new ↦ rw new (record {
    seen = λ x e. e;
    output = refl;
    named = λ before x e. elim (is_in-cases x t s.reference_necessary e) [
      | inl same ↦ rw same here
      | inr later ↦ before x later
    ];
  })
]

-- The call ends, and has seen the program.
abbrev Ends : (ℕ → Printer → Result Printer) → ℕ → Printer → Type 0
Ends determine t s =
    (s' : Printer) × (determine t s ≡ ok s') × Determined s s' × (is_in t s'.ast_list ≡ true)

determine_all-Determined :
    (determine : ℕ → Printer → Result Printer) (m : Mem) (u : List ℕ) (fuel : ℕ)
    → ((t : ℕ) (s : Printer) → is_in t u ≡ true → unseen u s.ast_list < fuel → Ends determine t s)
    → (l : List ℕ) (s : Printer) → All (λ a. is_in (m a) u ≡ true) l
    → unseen u s.ast_list < fuel
    → (s' : Printer) × (determine_all determine m l s ≡ ok s') × Determined s s'
unfolding determine_all
determine_all-Determined determine m u fuel h [] s inside low =
    (s, refl, record { seen = λ x e. e; output = refl; named = λ before. before })
determine_all-Determined determine m u fuel h (a ∷ l) s inside low =
    let first = h (m a) s inside.0 low in
    let fewer = unseen-Within u s.ast_list first.0.ast_list first.2.seen in
    let rest = determine_all-Determined determine m u fuel h l first.0 inside.1 (omega arith) in
    (rest.0, rw first.1 rest.1, Determined-trans s first.0 rest.0 first.2 rest.2)

-- determine_references ends. Take a program of a finite list, closed under the fields of programs,
-- and fuel above the number of the programs in the list that are not seen yet; cycles are allowed.
-- The call returns, has seen the program, forgets no program that was seen, prints nothing, and, if
-- every program that needs a name was seen before, leaves it so.
pub determine_references-Determined :
    (fuel : ℕ) (m : Mem) (u : List ℕ) (t : ℕ) (s : Printer)
    → IsClosed m u
    → is_in t u ≡ true
    → unseen u s.ast_list < fuel
    → (s' : Printer) × (determine_references fuel m t s ≡ ok s')
      × Determined s s'
      × (is_in t s'.ast_list ≡ true)
unfolding determine_references mark_seen
determine_references-Determined zero m u t s closed inside low = absurd (omega arith)
determine_references-Determined (suc fuel) m u t s closed inside low =
    elim (Bool-cases (is_in t s.ast_list)) [
      | inl old ↦ (
        need_reference t s,
        rw old refl,
        Determined-need_reference t s old,
        (Determined-need_reference t s old).seen t old,
      )
      | inr new ↦
          let fields = closed.fields t inside in
          let fewer = unseen-cons u s.ast_list t inside new in
          let loop =
            determine_all-Determined (determine_references fuel m) m u fuel
              (λ t' s' inside' low'.
                determine_references-Determined fuel m u t' s' closed inside' low')
              fields.0 (mark_seen t s) fields.2 (omega arith) in
          (
            loop.0,
            rw (new, fields.1) loop.1,
            Determined-trans s (mark_seen t s) loop.0 (Determined-mark_seen t s) loop.2,
            loop.2.seen t (is_in_self t s.ast_list),
          )
    ]
