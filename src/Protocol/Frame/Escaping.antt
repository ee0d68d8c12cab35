-- ===== src/Protocol/Frame/Escaping.antt =====
-- `fix_duplicated_bytes` undoes `add_duplicated_bytes`.
use stiebel_eltron_heatpump.Prelude.{
  ◌≤◌, ℕ, ◌+◌, ◌-◌, ◌≡◌, ◌≢◌, refl, ap, ap₂, ◌∙◌, false, [], ◌∷◌, ◌++◌, length, length-append, take,
  drop, take-append, drop-append, arith, ◌==◌, ==_ne, ltb, if◌then◌else◌,
}
use stiebel_eltron_heatpump.Protocol.Frame.{
  Bytes, footer, escape_bytes, add_duplicated_bytes, replace_pair, fix_duplicated_bytes,
}

-- No byte that the escaping touches.
abbrev pub IsPlain : ℕ → Type 0
IsPlain b = (b ≢ 0x10) × (b ≢ 0x2B)

-- The frame with this header, these bytes between header and footer, and the footer.
abbrev pub framed : ℕ → ℕ → Bytes → Bytes
framed h0 h1 middle = h0 ∷ h1 ∷ (middle ++ footer)

pub length-framed : (h0 h1 : ℕ) (middle : Bytes) → length (framed h0 h1 middle) ≡ length middle + 4
length-framed h0 h1 middle = omega (arith, length-append middle footer)

pub take-framed :
    (h0 h1 : ℕ) (middle : Bytes)
    → take (length (framed h0 h1 middle) - 2) (framed h0 h1 middle) ≡ h0 ∷ h1 ∷ middle
take-framed h0 h1 middle =
    take-append _ (h0 ∷ h1 ∷ middle) footer (omega (arith, length-append middle footer))

pub drop-framed :
    (h0 h1 : ℕ) (middle : Bytes)
    → drop (length (framed h0 h1 middle) - 2) (framed h0 h1 middle) ≡ footer
drop-framed h0 h1 middle =
    drop-append _ (h0 ∷ h1 ∷ middle) footer (omega (arith, length-append middle footer))

pub add_duplicated_bytes-framed :
    (h0 h1 : ℕ) (middle : Bytes)
    → add_duplicated_bytes (framed h0 h1 middle) ≡ framed h0 h1 (escape_bytes middle)
unfolding add_duplicated_bytes
add_duplicated_bytes-framed h0 h1 middle =
    let e : take (length (framed h0 h1 middle) - 4) (middle ++ footer) ≡ middle =
      take-append _ middle footer (omega (arith, length-append middle footer)) in
    ap (λ (ts : Bytes). h0 ∷ h1 ∷ ts)
      (ap₂ (λ (xs ys : Bytes). escape_bytes xs ++ ys) e (drop-framed h0 h1 middle))

-- What the first `replace` leaves of the escaped bytes.
half_escaped : Bytes → Bytes
half_escaped [] = []
half_escaped (b ∷ bs) = b ∷ (if b == 0x2B then 0x18 ∷ half_escaped bs else half_escaped bs)

replace_pair-cons :
    (a b : ℕ) {x : ℕ} (rest : Bytes)
    → x ≢ a
    → replace_pair a b (x ∷ rest) ≡ x ∷ replace_pair a b rest
unfolding replace_pair
replace_pair-cons a b [] h = refl
replace_pair-cons a b (y ∷ rest) h = rw (replace_pair, ==_ne h)

replace_pair-escape_bytes :
    (middle : Bytes) → replace_pair 0x10 0x10 (escape_bytes middle) ≡ half_escaped middle
unfolding replace_pair escape_bytes half_escaped
replace_pair-escape_bytes [] = refl
replace_pair-escape_bytes (b ∷ bs) = ground (
  arith,
  replace_pair-escape_bytes bs,
  replace_pair-cons 0x10 0x10 {x = b} (escape_bytes bs),
  replace_pair-cons 0x10 0x10 {x = b} (0x18 ∷ escape_bytes bs),
  replace_pair-cons 0x10 0x10 {x = 0x18} (escape_bytes bs),
)

replace_pair-half_escaped : (middle : Bytes) → replace_pair 0x2B 0x18 (half_escaped middle) ≡ middle
unfolding replace_pair half_escaped
replace_pair-half_escaped [] = refl
replace_pair-half_escaped (b ∷ bs) =
    ground
      (arith, replace_pair-half_escaped bs, replace_pair-cons 0x2B 0x18 {x = b} (half_escaped bs))

replace_pair-plain :
    (a b h0 h1 : ℕ) (rest : Bytes)
    → h0 ≢ a
    → h1 ≢ a
    → replace_pair a b (h0 ∷ h1 ∷ rest) ≡ h0 ∷ h1 ∷ replace_pair a b rest
replace_pair-plain a b h0 h1 rest p q =
    replace_pair-cons a b (h1 ∷ rest) p ∙ ap (◌∷◌ h0) (replace_pair-cons a b rest q)

pub fix_duplicated_bytes-framed :
    (h0 h1 : ℕ) (middle : Bytes)
    → IsPlain h0
    → IsPlain h1
    → fix_duplicated_bytes (framed h0 h1 middle)
      ≡ framed h0 h1 (replace_pair 0x2B 0x18 (replace_pair 0x10 0x10 middle))
unfolding fix_duplicated_bytes
fix_duplicated_bytes-framed h0 h1 middle p q =
    let short : ltb (length (framed h0 h1 middle)) 2 ≡ false = ground arith in
    rw short (
      rw take-framed (
        rw (replace_pair-plain 0x10 0x10 h0 h1 middle p.0 q.0)
          (rw (replace_pair-plain 0x2B 0x18 h0 h1 (replace_pair 0x10 0x10 middle) p.1 q.1))))

-- De-escaping what the escaping sends gives back the frame, whatever bytes it carries, when neither
-- header byte is an escape.
pub fix-add_duplicated_bytes :
    (h0 h1 : ℕ) (middle : Bytes)
    → IsPlain h0
    → IsPlain h1
    → fix_duplicated_bytes (add_duplicated_bytes (framed h0 h1 middle)) ≡ framed h0 h1 middle
fix-add_duplicated_bytes h0 h1 middle p q =
    ap fix_duplicated_bytes (add_duplicated_bytes-framed h0 h1 middle)
    ∙ fix_duplicated_bytes-framed h0 h1 (escape_bytes middle) p q
    ∙ ap (framed h0 h1) (
        ap (replace_pair 0x2B 0x18) (replace_pair-escape_bytes middle)
        ∙ replace_pair-half_escaped middle)

-- Escaping adds bytes, at most one for each.
pub length-escape_bytes :
    (middle : Bytes)
    → (length middle ≤ length (escape_bytes middle))
      × (length (escape_bytes middle) ≤ length middle + length middle)
unfolding escape_bytes
length-escape_bytes [] = omega arith
length-escape_bytes (b ∷ bs) = ground (arith, length-escape_bytes bs)
