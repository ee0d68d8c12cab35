-- ===== src/Protocol/Number/Bits.antt =====
-- A bit that `_set_bit` writes is the bit that `_get_bit_from_bytes` reads, and the others keep
-- their values. Over bytes and positions the laws are checked value by value.
use stiebel_eltron_heatpump.Prelude.{
  bool_eq, inr, ==_iff, inl, Bool-cases, ◌≤◌, ltb→lt, [], ◌∷◌, ℕ, zero, suc, ◌+◌, ◌-◌, ◌%◌, ◌/◌,
  ◌^◌, ◌<◌, ◌≡◌, refl, Bool, true, false, ◌&&◌, leb, ltb, ◌==◌, if◌then◌else◌, arith,
}
use stiebel_eltron_heatpump.Protocol.Number.{ok, get_bit_from_bytes, set_bit}

-- The test holds at every number from `first` on, `count` of them.
holds_from : (ℕ → Bool) → ℕ → ℕ → Bool
holds_from test first zero = true
holds_from test first (suc count) =
    let rest = holds_from test (suc first) count in if test first then rest else false

holds_from_lem :
    (test : ℕ → Bool) (first count n : ℕ)
    → holds_from test first count ≡ true
    → first ≤ n
    → n < first + count
    → test n ≡ true
unfolding holds_from
holds_from_lem test first zero n all low high = absurd (omega arith)
holds_from_lem test first (suc count) n all low high = elim (Bool-cases (first == n)) [
  | inl e ↦ let same : first ≡ n = (==_iff first n).0 e in ground arith
  | inr e ↦
      let more : suc first ≤ n = ground arith in
      ground (arith, holds_from_lem test (suc first) count n)
]

-- The bit at a position below 8, as `_get_bit_from_bytes` computes it.
abbrev pub bit_at : ℕ → ℕ → Bool
bit_at byte p = leb 1 (byte / 2 ^ (8 - (p % 8 + 1)) % 2)

abbrev law : Bool → ℕ → ℕ → ℕ → Bool
law value byte p q =
    bool_eq (bit_at (set_bit byte p value) q) (if p == q then value else bit_at byte q)
    && ltb (set_bit byte p value) 256

table :
    (value : Bool)
    → holds_from (λ byte. holds_from (λ p. holds_from (law value byte p) 0 8) 0 8) 0 256 ≡ true
unfolding holds_from set_bit
table true = refl
table false = refl

bool_eq_sound : (a b c : Bool) → (bool_eq a b && c) ≡ true → (a ≡ b) × (c ≡ true)
bool_eq_sound true true true h = (refl, refl)
bool_eq_sound false false true h = (refl, refl)
bool_eq_sound true true false h = (refl, h)
bool_eq_sound false false false h = (refl, h)
bool_eq_sound true false c h = cc
bool_eq_sound false true c h = cc

-- Writing a bit of a byte changes that bit and no other, and leaves a byte.
pub set_bit_lem :
    (byte p q : ℕ) (value : Bool)
    → byte < 256
    → p < 8
    → q < 8
    → (bit_at (set_bit byte p value) q ≡ (if p == q then value else bit_at byte q))
      × (set_bit byte p value < 256)
set_bit_lem byte p q value small lp lq =
    let all_p =
      holds_from_lem (λ b. holds_from (λ x. holds_from (law value b x) 0 8) 0 8) 0 256 byte
        (table value) (omega arith) small in
    let all_q =
      holds_from_lem (λ x. holds_from (law value byte x) 0 8) 0 8 p all_p (omega arith) lp in
    let at_q = holds_from_lem (law value byte p) 0 8 q all_q (omega arith) lq in
    let both = bool_eq_sound (bit_at (set_bit byte p value) q) _ _ at_q in
    (both.0, ltb→lt _ _ both.1)

pub get_bit_from_bytes-one :
    (byte p : ℕ) → p < 8 → get_bit_from_bytes (byte ∷ []) p ≡ ok (bit_at byte p)
unfolding get_bit_from_bytes
get_bit_from_bytes-one byte p h = let e : p / 8 ≡ 0 = omega arith in rw e
