-- ===== src/Simulator/Matching/Round.antt =====
-- One round of the loop of `_match_command`: the size of what is found grows.
use stiebel_eltron_heatpump.Prelude.{
  ℕ, suc, ◌≤◌, ◌<◌, ◌≡◌, refl, ap, ◌∙◌, sym, subst, [], ◌∷◌, length, Option, none, some, true,
  false, ◌⊎◌, inl, inr, Bool-cases, arith, ltb, if◌then◌else◌,
}
use stiebel_eltron_heatpump.Errors.{ok, Result-cases, ◌>>=◌, ok-injective}
use stiebel_eltron_heatpump.Dict.{Dict}
use stiebel_eltron_heatpump.Models.{Text}
use stiebel_eltron_heatpump.Config.{from_hex}
use stiebel_eltron_heatpump.Protocol.Frame.{Bytes}
use stiebel_eltron_heatpump.Simulator.{carries, is_longer, match_step}

-- The keys of a dictionary.
abbrev pub IsKey : {V : Type 0} → Text → Dict V → Type 0
IsKey key [] = ⊥
IsKey key ((k, _) ∷ d) = (k ≡ key) ⊎ IsKey key d

-- A command's text that decodes to a command which the frame carries.
pub record IsCarried (frame : Bytes) (command_hex : Text) (command : Bytes) : Type 0 where
  pub named : from_hex command_hex ≡ ok command
  pub carried : carries frame command ≡ true

-- One more than the length of the command, and 0 for none.
pub data HasSize (frame : Bytes) (best : Option Text) (n : ℕ) : Type 0 where
  no_match : best ≡ none → n ≡ 0 → HasSize frame best n
  one_match :
      (command_hex : Text) (command : Bytes)
      → best ≡ some command_hex
      → IsCarried frame command_hex command
      → n ≡ suc (length command)
      → HasSize frame best n

-- No carried command of the keys is as long as that.
abbrev pub Below : {V : Type 0} → Bytes → ℕ → Dict V → Type 0
Below frame n d =
    (key : Text) (command : Bytes) → IsKey key d → IsCarried frame key command → length command < n

match_step-carried :
    (key : Text) (frame command : Bytes) (best : Option Text)
    → IsCarried frame key command
    → match_step key frame best
      ≡ (do longer ← is_longer command best; ok (if longer then some key else best))
unfolding match_step
match_step-carried key frame command best c = rw (c.named, c.carried)

match_step-other :
    (key : Text) (frame command : Bytes) (best : Option Text)
    → from_hex key ≡ ok command
    → carries frame command ≡ false
    → match_step key frame best ≡ ok best
unfolding match_step
match_step-other key frame command best e c = rw (e, c)

match_step-ok :
    (key : Text) (frame : Bytes) (best best' : Option Text)
    → match_step key frame best ≡ ok best'
    → (command : Bytes) × (from_hex key ≡ ok command)
unfolding match_step
match_step-ok key frame best best' h = elim (Result-cases (from_hex key)) [
  | inl (command, e) ↦ (command, e)
  | inr (x, e) ↦ absurd (cc)
]

-- What one round of the loop does to the size.
pub record Grows (frame : Bytes) (key : Text) (best best' : Option Text) (n : ℕ) : Type 0 where
  pub size : ℕ
  pub sized : HasSize frame best' size
  pub grows : n ≤ size
  pub bounds : (command : Bytes) → IsCarried frame key command → length command < size
  pub origin : (best' ≡ best) ⊎ (best' ≡ some key)

module _ (key : Text) (frame command : Bytes) (best best' : Option Text) (n : ℕ)
    (c : IsCarried frame key command) where
  one_length : (command' : Bytes) → IsCarried frame key command' → length command' ≡ length command
  one_length command' c' = ap length (ok-injective (sym c'.named ∙ c.named))

  Grows-taken : best' ≡ some key → n ≤ suc (length command) → Grows frame key best best' n
  Grows-taken e h = record {
    size = suc (length command);
    sized = one_match key command e c refl;
    grows = h;
    bounds = λ command' c'. omega (arith, one_length command' c');
    origin = inr e;
  }

  Grows-kept :
      HasSize frame best n → best' ≡ best → length command < n → Grows frame key best best' n
  Grows-kept h e small = record {
    size = n;
    sized = subst (λ (b : Option Text). HasSize frame b n) (sym e) h;
    grows = omega arith;
    bounds = λ command' c'. omega (arith, one_length command' c');
    origin = inl e;
  }

  Grows-carried :
      HasSize frame best n
      → (do longer ← is_longer command best; ok (if longer then some key else best)) ≡ ok best'
      → Grows frame key best best' n
  unfolding is_longer
  Grows-carried (no_match p q) e = Grows-taken (ground arith) (omega arith)
  Grows-carried (one_match command_hex other p c' q) e =
      elim (Bool-cases (ltb (length other) (length command))) [
        | inl is ↦ Grows-taken (ground (arith, c'.named)) (ground arith)
        | inr not_is ↦
            Grows-kept (one_match command_hex other p c' q) (ground (arith, c'.named))
              (ground arith)
      ]

pub match_step-Grows :
    (key : Text) (frame : Bytes) (best best' : Option Text) (n : ℕ)
    → HasSize frame best n
    → match_step key frame best ≡ ok best'
    → Grows frame key best best' n
match_step-Grows key frame best best' n h e =
    let (command, named) = match_step-ok key frame best best' e in
    elim (Bool-cases (carries frame command)) [
      | inl is ↦
          let c : IsCarried frame key command = record { named = named; carried = is } in
          Grows-carried key frame command best best' n c h
            (sym (match_step-carried key frame command best c) ∙ e)
      | inr not_is ↦
          let same : best' ≡ best =
            ok-injective (sym e ∙ match_step-other key frame command best named not_is) in
          record {
            size = n;
            sized = subst (λ (b : Option Text). HasSize frame b n) (sym same) h;
            grows = omega arith;
            bounds = λ command' c. absurd (cc (c.named, c.carried));
            origin = inl same;
          }
    ]

abbrev pub Names : Text → Type 0
Names key = (command : Bytes) × (from_hex key ≡ ok command)

abbrev pub NamesOption : Option Text → Type 0
NamesOption none = Unit
NamesOption (some key) = Names key

pub match_step-total :
    (key : Text) (frame : Bytes) (best : Option Text)
    → Names key
    → NamesOption best
    → (found : Option Text) × (match_step key frame best ≡ ok found) × NamesOption found
unfolding match_step is_longer
match_step-total key frame none (command, e) named = elim (Bool-cases (carries frame command)) [
  | inl is ↦ (some key, rw (e, is), (command, e))
  | inr not_is ↦ (none, rw (e, not_is), tt)
]
match_step-total key frame (some best) (command, e) (other, f) =
    elim (Bool-cases (carries frame command)) [
      | inl is ↦ elim (Bool-cases (ltb (length other) (length command))) [
        | inl more ↦ (some key, ground (arith, e, f), (command, e))
        | inr less ↦ (some best, ground (arith, e, f), (other, f))
      ]
      | inr not_is ↦ (some best, rw (e, not_is), (other, f))
    ]
