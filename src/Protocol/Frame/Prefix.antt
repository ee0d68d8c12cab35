-- ===== src/Protocol/Frame/Prefix.antt =====
-- `is_frame_end` looks at the part of a buffer that has been filled, and at nothing behind it.
use stiebel_eltron_heatpump.Prelude.{
  ℕ, zero, suc, ◌-◌, ◌≤◌, ◌≡◌, refl, sym, ap, ◌∙◌, take, get_or-take, Bool-cases, ltb, inl, inr,
  arith,
}
use stiebel_eltron_heatpump.Protocol.Frame.{Bytes, count_escapes, is_frame_end_at}

count_escapes-take :
    (n : ℕ) (xs : Bytes) (k : ℕ) → k ≤ n → count_escapes (take n xs) k ≡ count_escapes xs k
unfolding count_escapes
count_escapes-take n xs zero h = refl
count_escapes-take n xs (suc k) h =
    rw (get_or-take n xs k 0 h, count_escapes-take n xs k (omega arith))

is_frame_end_at-take : (n : ℕ) (xs : Bytes) → is_frame_end_at (take n xs) n ≡ is_frame_end_at xs n
unfolding is_frame_end_at
is_frame_end_at-take n xs = elim (Bool-cases (ltb n 2)) [
  | inl short ↦ rw short
  | inr long ↦ rw (
    get_or-take n xs (n - 1) 0 (ground arith),
    get_or-take n xs (n - 2) 0 (ground arith),
    count_escapes-take n xs (n - 1) (ground arith),
  )
]

pub is_frame_end_at-prefix :
    (n : ℕ) (xs ys : Bytes) → take n xs ≡ take n ys → is_frame_end_at xs n ≡ is_frame_end_at ys n
is_frame_end_at-prefix n xs ys h =
    sym (is_frame_end_at-take n xs)
    ∙ ap (λ (zs : Bytes). is_frame_end_at zs n) h
    ∙ is_frame_end_at-take n ys
