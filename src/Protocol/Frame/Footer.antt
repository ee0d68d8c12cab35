-- ===== src/Protocol/Frame/Footer.antt =====
-- `is_frame_end` finds the footer of an escaped frame, and nothing before it.
use stiebel_eltron_heatpump.Prelude.{
  ℕ, zero, suc, ◌+◌, ◌-◌, ◌%◌, ◌<◌, ◌≤◌, ◌≡◌, ◌≢◌, refl, ap, ◌∙◌, true, false, [], ◌∷◌, ◌++◌,
  length, drop, get_or-drop, drop-suc, length-drop_cons, arith, ◌==◌, if◌then◌else◌, Bool-cases,
  inl, inr, ◌⊎◌,
}
use stiebel_eltron_heatpump.Protocol.Frame.{
  Bytes, footer, escape_bytes, count_escapes, is_frame_end_at,
}
use stiebel_eltron_heatpump.Protocol.Frame.Escaping.{framed}

count_escapes-suc :
    (w : Bytes) (k : ℕ) {x : ℕ} {rest : Bytes}
    → drop k w ≡ x ∷ rest
    → count_escapes w (suc k) ≡ (if x == 0x10 then count_escapes w k + 1 else 0)
unfolding count_escapes
count_escapes-suc w k h = rw (get_or-drop w k 0 h)

-- An even run of escapes before the last byte, or another last byte: no footer.
no_end-even : (w : Bytes) (k : ℕ) → count_escapes w k % 2 ≡ 0 → is_frame_end_at w (suc k) ≡ false
unfolding is_frame_end_at
no_end-even w k h = let e : suc k - 1 ≡ k = omega arith in rw e (ground arith)

no_end-byte :
    (w : Bytes) (k : ℕ) {x : ℕ} {rest : Bytes}
    → drop k w ≡ x ∷ rest
    → x ≢ 0x03
    → is_frame_end_at w (suc k) ≡ false
unfolding is_frame_end_at
no_end-byte w k h ne =
    let e : suc k - 1 ≡ k = omega arith in rw e (ground (arith, get_or-drop w k 0 h))

end-odd :
    (w : Bytes) (k : ℕ)
    → drop k w ≡ footer
    → count_escapes w k % 2 ≡ 0
    → is_frame_end_at w (suc (suc k)) ≡ true
unfolding is_frame_end_at
end-odd w k h even =
    let e : suc (suc k) - 1 ≡ suc k = omega arith in
    let f : suc (suc k) - 2 ≡ k = omega arith in
    rw (e, f)
      (ground (
        arith,
        get_or-drop w k 0 h,
        get_or-drop w (suc k) 0 (drop-suc w k h),
        count_escapes-suc w k h,
      ))

next_or_later : (k n : ℕ) → k < n → (n ≡ suc k) ⊎ (suc k < n)
next_or_later k n h = omega arith

-- From every later place on the footer is found here the end only.
abbrev EndsOnce : Bytes → ℕ → Type 0
EndsOnce w k = (n : ℕ) → k < n → n ≤ length w → is_frame_end_at w n ≡ (n == length w)

EndsOnce-step :
    (w : Bytes) (k : ℕ) {x y : ℕ} {rest : Bytes}
    → drop k w ≡ x ∷ y ∷ rest
    → is_frame_end_at w (suc k) ≡ false
    → EndsOnce w (suc k)
    → EndsOnce w k
EndsOnce-step w k h quiet later n after fits = elim (next_or_later k n after) [
  | inl e ↦ rw e (quiet ∙ ground (arith, length-drop_cons w k h))
  | inr more ↦ later n more fits
]

EndsOnce-footer : (w : Bytes) (k : ℕ) → drop k w ≡ footer → count_escapes w k % 2 ≡ 0 → EndsOnce w k
EndsOnce-footer w k h even = EndsOnce-step w k h (no_end-even w k even) (λ n after fits.
    let e : n ≡ suc (suc k) = omega (arith, length-drop_cons w k h) in
    rw e (end-odd w k h even ∙ ground (arith, length-drop_cons w k h)))

-- Two bytes that come as one escape.
EndsOnce-pair :
    (w : Bytes) (k x y : ℕ) {z : ℕ} {rest : Bytes}
    → drop k w ≡ x ∷ y ∷ z ∷ rest
    → x ≢ 0x03
    → y ≢ 0x03
    → EndsOnce w (suc (suc k))
    → EndsOnce w k
EndsOnce-pair w k x y h p q later =
    EndsOnce-step w k h (no_end-byte w k h p)
      (EndsOnce-step w (suc k) (drop-suc w k h) (no_end-byte w (suc k) (drop-suc w k h) q) later)

-- What comes after place `k` is quiet if it follows an even run of escapes.
abbrev QuietFrom : Bytes → ℕ → Type 0
QuietFrom w k = count_escapes w k % 2 ≡ 0 → EndsOnce w k

module _ (w : Bytes) (k : ℕ) {y : ℕ} {rest : Bytes} where
  QuietFrom-ten : drop k w ≡ 0x10 ∷ 0x10 ∷ y ∷ rest → QuietFrom w (suc (suc k)) → QuietFrom w k
  QuietFrom-ten h later even =
      let one = count_escapes-suc w k h in
      let two = count_escapes-suc w (suc k) (drop-suc w k h) in
      EndsOnce-pair w k 0x10 0x10 h (omega arith) (omega arith) (later (ground (arith, one, two)))

  QuietFrom-plus : drop k w ≡ 0x2B ∷ 0x18 ∷ y ∷ rest → QuietFrom w (suc (suc k)) → QuietFrom w k
  QuietFrom-plus h later even =
      let two = count_escapes-suc w (suc k) (drop-suc w k h) in
      EndsOnce-pair w k 0x2B 0x18 h (omega arith) (omega arith) (later (ground (arith, two)))

  QuietFrom-other :
      (x : ℕ) → drop k w ≡ x ∷ y ∷ rest → x ≢ 0x10 → QuietFrom w (suc k) → QuietFrom w k
  QuietFrom-other x h ne later even =
      let one = count_escapes-suc w k h in
      EndsOnce-step w k h (no_end-even w k even) (later (ground (arith, one)))

-- There is a byte in front of the footer's end, so every place in the frame has a next byte.
next_byte : (middle : Bytes) → (y : ℕ) × (rest : Bytes) × (escape_bytes middle ++ footer ≡ y ∷ rest)
unfolding escape_bytes
next_byte [] = (0x10, 0x03 ∷ [], refl)
next_byte (b ∷ bs) = (b, _, refl)

QuietFrom-escape_bytes :
    (w : Bytes) (k : ℕ) (middle : Bytes) → drop k w ≡ escape_bytes middle ++ footer → QuietFrom w k
unfolding escape_bytes
QuietFrom-escape_bytes w k [] h = EndsOnce-footer w k h
QuietFrom-escape_bytes w k (b ∷ bs) h =
    let (y, rest, e) = next_byte bs in
    let rec = λ (j : ℕ). QuietFrom-escape_bytes w j bs in
    elim (Bool-cases (b == 0x10)) [
      | inl ten ↦
          let p : drop k w ≡ 0x10 ∷ 0x10 ∷ (escape_bytes bs ++ footer) = ground arith in
          QuietFrom-ten w k (p ∙ ap (λ (t : Bytes). 0x10 ∷ 0x10 ∷ t) e)
            (rec (suc (suc k)) (drop-suc w (suc k) (drop-suc w k p)))
      | inr other ↦ elim (Bool-cases (b == 0x2B)) [
        | inl plus ↦
            let p : drop k w ≡ 0x2B ∷ 0x18 ∷ (escape_bytes bs ++ footer) = ground arith in
            QuietFrom-plus w k (p ∙ ap (λ (t : Bytes). 0x2B ∷ 0x18 ∷ t) e)
              (rec (suc (suc k)) (drop-suc w (suc k) (drop-suc w k p)))
        | inr plain ↦
            let p : drop k w ≡ b ∷ (escape_bytes bs ++ footer) = ground arith in
            QuietFrom-other w k b (p ∙ ap (◌∷◌ b) e) (ground arith) (rec (suc k) (drop-suc w k p))
      ]
    ]

-- In a frame sent escaped, whose header bytes are no escapes, the receiver's test recognises the
-- footer after the last byte and after no earlier one, whatever bytes the frame carries.
pub is_frame_end-escaped :
    (h0 h1 : ℕ) (middle : Bytes) (n : ℕ)
    → h0 ≢ 0x10
    → h1 ≢ 0x10
    → n ≤ length (framed h0 h1 (escape_bytes middle))
    → is_frame_end_at (framed h0 h1 (escape_bytes middle)) n
      ≡ (n == length (framed h0 h1 (escape_bytes middle)))
is_frame_end-escaped h0 h1 middle zero p q fits = unfold is_frame_end_at in ground arith
is_frame_end-escaped h0 h1 middle (suc n) p q fits =
    let w = framed h0 h1 (escape_bytes middle) in
    let (y, rest, e) = next_byte middle in
    let payload = QuietFrom-escape_bytes w 2 middle refl in
    let second = QuietFrom-other w 1 h1 (ap (◌∷◌ h1) e) q payload in
    QuietFrom-other w 0 h0 refl p second (unfold count_escapes in refl) (suc n) (omega arith) fits
