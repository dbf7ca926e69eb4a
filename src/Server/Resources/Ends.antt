-- ===== src/Server/Resources/Ends.antt =====
-- ListResources of pkg/server/providers.go: the ends of its two slices, within the range of an int.
use mcp_sdk_go.Base.Int.{
  pos, max_int, add_int_exact, sub_int_exact, sub_int_negative, sub_int_below,
}
use mcp_sdk_go.Base.{
  ℕ, zero, suc, ◌+◌, ◌-◌, ◌≤◌, ◌<◌, ◌≡◌, ◌∙◌, inl, inr, refl, ap, List, [], ◌∷◌, length, take, drop,
  drop-nil, some, arith, ltb, leb, min, Bool-cases,
}
use mcp_sdk_go.Server.Listing.{slice}
use mcp_sdk_go.Server.Listing.Pages.{take_clipped}
use mcp_sdk_go.Server.Resources.{res_end, templ_start, templ_end, actual_end, cut}

module _ (n m l start : ℕ) (room : n + m + start + start + l ≤ max_int) where
  pub res_end_pos : res_end n m (pos l) start ≡ pos (min n (start + l))
  unfolding res_end
  res_end_pos = rw (add_int_exact start l (omega arith)) (ground arith)

  pub res_end_late : n < start → res_end n m (pos l) start ≡ pos n
  res_end_late h = res_end_pos ∙ ap (λ k. pos k) {x = min n (start + l)} {y = n} (ground arith)

  pub templ_start_pos : templ_start n m (pos l) start ≡ pos (start - n)
  unfolding templ_start
  templ_start_pos = elim (Bool-cases (leb n start)) [
    | inl late ↦ rw (sub_int_exact start n (ground arith) (omega arith)) (ground arith)
    | inr early ↦ rw (sub_int_negative start n (ground arith) (omega arith)) (ground arith)
  ]

  -- Among the resources the templates get what the resources leave of the limit.
  pub templ_end_early : start ≤ n → templ_end n m (pos l) start ≡ pos (min m (l - (n - start)))
  unfolding templ_end
  templ_end_early h =
      rw (templ_start_pos, res_end_pos)
        (rw (add_int_exact (start - n) l (omega arith)) (
          rw (sub_int_exact (min n (start + l)) start (ground arith) (ground arith)) (
            rw
              (sub_int_exact (start - n + l) (min n (start + l) - start) (ground arith)
                (ground arith))
              (ground arith))))

  -- Past the resources the difference of the two ends is negative, and adds to the limit.
  pub templ_end_late :
      n < start → templ_end n m (pos l) start ≡ pos (min m ((start - n) + (l + (start - n))))
  unfolding templ_end
  templ_end_late h =
      rw (templ_start_pos, res_end_late h)
        (rw (add_int_exact (start - n) l (omega arith)) (
          rw (sub_int_negative n start h (omega arith))
            (rw (sub_int_below (start - n + l) (start - n - 1) (ground arith)) (ground arith))))

  pub actual_end_early : start ≤ n → actual_end n m (pos l) start ≡ pos (min (n + m) (start + l))
  unfolding actual_end
  actual_end_early h =
      rw (templ_end_early h, res_end_pos)
        (rw (add_int_exact n (min m (l - (n - start))) (ground arith)) (
          rw (add_int_exact (min n (start + l)) (min m (l - (n - start))) (ground arith))
            (ground arith)))

  pub actual_end_late :
      n < start → actual_end n m (pos l) start ≡ pos (n + min m ((start - n) + (l + (start - n))))
  unfolding actual_end
  actual_end_late h =
      rw (templ_end_late h, res_end_late h)
        (rw (add_int_exact n (min m ((start - n) + (l + (start - n)))) (ground arith))
          (ground arith))

-- The rest from an offset past the end.
drop_all : {A : Type 0} (items : List A) (start : ℕ) → length items ≤ start → drop start items ≡ []
drop_all [] start h = drop-nil start
drop_all (x ∷ items) zero h = absurd (omega arith)
drop_all (x ∷ items) (suc n) h = drop_all items n (omega arith)

pub take-nil : {A : Type 0} (n : ℕ) → take {A = A} n [] ≡ []
take-nil zero = refl
take-nil (suc n) = refl

-- A slice up to a clipped end.
pub cut_clipped :
    {A : Type 0} (items : List A) (start l end : ℕ)
    → end ≡ min (length items) (start + l)
    → cut items (pos start) (pos end) ≡ some (take l (drop start items))
unfolding cut slice
cut_clipped items start l end e = elim (Bool-cases (ltb start (length items))) [
  | inl inside ↦ rw inside (ground (arith, inside, take_clipped items start l))
  | inr outside ↦ rw (outside, drop_all items start (ground (arith, outside)), take-nil l) refl
]
