-- ===== src/Client/Paging/Gathered.antt =====
-- What a run of FetchAllPages in pkg/client/pagination.go has together at its end, said without its loop.
use mcp_sdk_go.Base.{
  ℕ, zero, suc, ◌+◌, ◌-◌, ◌≤◌, ◌<◌, ◌≡◌, ◌∙◌, inl, inr, refl, sym, ap, subst, true, false, List, [],
  ◌∷◌, ◌++◌, append-nil, All, length-append, length-take, if◌then◌else◌, length, take, drop,
  take_of_length_le, length-drop, arith, ltb, Bool-cases,
}

module _ {A : Type 0} (P : A → Type 0) where
  All-append : (xs ys : List A) → All P xs → All P ys → All P (xs ++ ys)
  All-append [] ys a b = b
  All-append (x ∷ xs) ys (p, a) b = (p, All-append xs ys a b)

  All-take : (n : ℕ) (xs : List A) → All P xs → All P (take n xs)
  All-take zero xs a = tt
  All-take (suc n) [] a = tt
  All-take (suc n) (x ∷ xs) (p, a) = (p, All-take n xs a)

  All-drop : (n : ℕ) (xs : List A) → All P xs → All P (drop n xs)
  All-drop zero xs a = a
  All-drop (suc n) [] a = tt
  All-drop (suc n) (x ∷ xs) (p, a) = All-drop n xs a

empty_take : {A : Type 0} (n : ℕ) (xs : List A) → length xs ≡ 0 → take n xs ≡ []
empty_take n [] h = take_of_length_le n [] (omega arith)
empty_take n (x ∷ xs) h = absurd (omega arith)

module _ {A : Type 0} (items : ℕ → List A) (total : ℕ) where
  -- The pages of one run from the `n`-th call on: each call adds the next `l` items of its own listing,
  -- until all have been passed.
  abbrev pub gathered : ℕ → ℕ → ℕ → ℕ → List A
  gathered zero n l start = []
  gathered (suc f) n l start =
      let rest = gathered f (suc n) l (start + l) in
      take l (drop start (items n)) ++ (if ltb (start + l) total then rest else [])

  pub gathered_on :
      (f n l start : ℕ)
      → ltb (start + l) total ≡ true
      → gathered (suc f) n l start
        ≡ take l (drop start (items n)) ++ gathered f (suc n) l (start + l)
  gathered_on f n l start h = rw h refl

  pub gathered_end :
      (f n l start : ℕ)
      → ltb (start + l) total ≡ false
      → gathered (suc f) n l start ≡ take l (drop start (items n))
  gathered_end f n l start h = rw h (append-nil (take l (drop start (items n))))

  module _ (same : (n : ℕ) → length (items n) ≡ total) where
    pub nothing_first : (f : ℕ) → ltb 0 total ≡ false → gathered (suc f) 0 50 0 ≡ []
    nothing_first f h' =
        gathered_end f 0 50 0 (ground arith) ∙ empty_take 50 (items 0) (ground (arith, same 0))

    length-gathered :
        (f n l start : ℕ)
        → 0 < l
        → start < total
        → total - start ≤ f
        → length (gathered f n l start) ≡ total - start
    length-gathered zero n l start p k h = omega arith
    length-gathered (suc f) n l start p k h = elim (Bool-cases (ltb (start + l) total)) [
      | inl rest ↦
          ap length (gathered_on f n l start rest)
          ∙ length-append (take l (drop start (items n))) (gathered f (suc n) l (start + l))
          ∙ ground (
            arith,
            length-gathered f (suc n) l (start + l) p (ground arith) (ground arith),
            length-take l (drop start (items n)),
            length-drop start (items n),
            same n,
          )
      | inr last ↦
          ap length (gathered_end f n l start last)
          ∙ ground
              (arith, length-take l (drop start (items n)), length-drop start (items n), same n)
    ]

    pub length-gathered_all : (fuel : ℕ) → total < fuel → length (gathered fuel 0 50 0) ≡ total
    length-gathered_all zero h = absurd (omega arith)
    length-gathered_all (suc f) h = elim (Bool-cases (ltb 0 total)) [
      | inl some_left ↦
          length-gathered (suc f) 0 50 0 (omega arith) (ground arith) (omega arith) ∙ omega arith
      | inr h' ↦
          ap length (gathered_end f 0 50 0 (ground arith))
          ∙ ap length (empty_take 50 (items 0) (ground (arith, same 0)))
          ∙ ground arith
    ]

    pub All-gathered :
        (P : A → Type 0) (f n l start : ℕ)
        → ((i : ℕ) → All P (items i))
        → All P (gathered f n l start)
    All-gathered P zero n l start a = tt
    All-gathered P (suc f) n l start a = elim (Bool-cases (ltb (start + l) total)) [
      | inl rest ↦ subst (All P) (sym (gathered_on f n l start rest)) (
          All-append P _ _ (All-take P l _ (All-drop P start (items n) (a n)))
            (All-gathered P f (suc n) l (start + l) a))
      | inr last ↦
          subst (All P) (sym (gathered_end f n l start last))
            (All-take P l _ (All-drop P start (items n) (a n)))
    ]
