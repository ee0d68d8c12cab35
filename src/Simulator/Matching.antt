-- ===== src/Simulator/Matching.antt =====
-- `_match_command` finds the longest known command that a frame carries.
pub mod Round
use stiebel_eltron_heatpump.Prelude.{
  ℕ, suc, ◌≤◌, ◌<◌, ◌≡◌, refl, ap, ◌∙◌, sym, subst, [], ◌∷◌, length, Option, none, some, true,
  false, ◌⊎◌, inl, inr, Bool-cases, arith, ltb, if◌then◌else◌,
}
use stiebel_eltron_heatpump.Errors.{chain-ok, Result, ok, err, Result-cases, ◌>>=◌, ok-injective}
use stiebel_eltron_heatpump.Dict.{Dict}
use stiebel_eltron_heatpump.Models.{Text}
use stiebel_eltron_heatpump.Config.{Request, from_hex}
use stiebel_eltron_heatpump.Protocol.Frame.{Bytes}
use stiebel_eltron_heatpump.Simulator.Matching.Round.{
  IsKey, IsCarried, HasSize, no_match, one_match, Below, Grows, match_step-Grows, Names,
  NamesOption, match_step-total,
}
use stiebel_eltron_heatpump.Simulator.{
  Simulator, carries, is_longer, match_step, match_loop, match_command,
}

-- What the loop does.
record Loops {V : Type 0} (frame : Bytes) (d : Dict V) (best best' : Option Text) (n : ℕ)
    : Type 0 where
  size : ℕ
  sized : HasSize frame best' size
  grows : n ≤ size
  bounds : Below frame size d
  origin : (best' ≡ best) ⊎ ((key : Text) × (best' ≡ some key) × IsKey key d)

some-injective {ℓ} : {A : Type ℓ} {a b : A} → some a ≡ some b → a ≡ b
some-injective h = cc

module _ {V : Type 0} (key : Text) (v : V) (d : Dict V) where
  Below-cons :
      (frame : Bytes) (m n : ℕ)
      → ((command : Bytes) → IsCarried frame key command → length command < m)
      → m ≤ n
      → Below frame n d
      → Below frame n ((key, v) ∷ d)
  Below-cons frame m n first h others key' command (inl same) c =
      let at_key : IsCarried frame key command =
        subst (λ (k : Text). IsCarried frame k command) (sym same) c in
      omega (arith, first command at_key)
  Below-cons frame m n first h others key' command (inr k) c = others key' command k c

  origin-cons :
      (best middle best' : Option Text)
      → (middle ≡ best) ⊎ (middle ≡ some key)
      → (best' ≡ middle) ⊎ ((k : Text) × (best' ≡ some k) × IsKey k d)
      → (best' ≡ best) ⊎ ((k : Text) × (best' ≡ some k) × IsKey k ((key, v) ∷ d))
  origin-cons best middle best' (inl p) (inl q) = inl (q ∙ p)
  origin-cons best middle best' (inr p) (inl q) = inr (key, q ∙ p, inl refl)
  origin-cons best middle best' p (inr (k, q, is)) = inr (k, q, inr is)

module _ {F : Type 0} where
  match_loop-Loops :
      (d : Dict (Request F)) (frame : Bytes) (best best' : Option Text) (n : ℕ)
      → HasSize frame best n
      → match_loop d frame best ≡ ok best'
      → Loops frame d best best' n
  unfolding match_loop
  match_loop-Loops [] frame best best' n h e = record {
    size = n;
    sized = subst (λ (b : Option Text). HasSize frame b n) (ok-injective e) h;
    grows = omega arith;
    bounds = λ key command k c. absurd k;
    origin = inl (sym (ok-injective e));
  }
  match_loop-Loops ((key, v) ∷ d) frame best best' n h e =
      let (middle, first, others) = chain-ok (match_loop d frame) (match_step key frame best) e in
      let g = match_step-Grows key frame best middle n h first in
      let l = match_loop-Loops d frame middle best' g.size g.sized others in
      record {
        size = l.size;
        sized = l.sized;
        grows = omega (arith, g.grows, l.grows);
        bounds = Below-cons key v d frame g.size l.size g.bounds l.grows l.bounds;
        origin = origin-cons key v d best middle best' g.origin l.origin;
      }

  -- What `_match_command` finds: nothing, when the frame carries no known command, or a known command
  -- that the frame carries, when no known command that it carries is longer.
  pub data Finds (frame : Bytes) (commands : Dict (Request F)) (found : Option Text) : Type 0 where
    nothing :
        found ≡ none
        → ((key : Text) (command : Bytes) → IsKey key commands → ¬ (IsCarried frame key command))
        → Finds frame commands found
    longest :
        (command_hex : Text) (command : Bytes)
        → found ≡ some command_hex
        → IsKey command_hex commands
        → IsCarried frame command_hex command
        → ((key : Text) (other : Bytes)
            → IsKey key commands
            → IsCarried frame key other
            → length other ≤ length command)
        → Finds frame commands found

  found-Finds :
      (commands : Dict (Request F)) (frame : Bytes) (found : Option Text)
      → Loops frame commands none found 0
      → Finds frame commands found
  found-Finds commands frame found l = by_size l.sized l.bounds l.origin
    where
      by_size :
          {n : ℕ}
          → HasSize frame found n
          → Below frame n commands
          → (found ≡ none) ⊎ ((key : Text) × (found ≡ some key) × IsKey key commands)
          → Finds frame commands found
      by_size (no_match e z) below o =
          nothing e (λ key command k c. absurd (omega (arith, below key command k c)))
      by_size (one_match command_hex command e c z) below (inl o) = absurd (cc)
      by_size (one_match command_hex command e c z) below (inr (key, o, k)) =
          longest command_hex command e
            (subst (λ (t : Text). IsKey t commands) (some-injective (sym o ∙ e)) k) c
            (λ key' other k' c'. omega (arith, below key' other k' c'))

  match_loop-total :
      (d : Dict (Request F)) (frame : Bytes) (best : Option Text)
      → ((key : Text) → IsKey key d → Names key)
      → NamesOption best
      → (found : Option Text) × (match_loop d frame best ≡ ok found)
  unfolding match_loop
  match_loop-total [] frame best names named = (best, refl)
  match_loop-total ((key, v) ∷ d) frame best names named =
      let (middle, e, named') = match_step-total key frame best (names key (inl refl)) named in
      let (found, f) = match_loop-total d frame middle (λ k is. names k (inr is)) named' in
      (found, rw e f)

  -- If the texts of the known commands are hexadecimal, then `_match_command` comes to its end, and it
  -- finds the longest known command that the frame carries, and nothing only if it carries none.
  pub match_command-Finds :
      (s : Simulator F) (frame : Bytes)
      → ((key : Text) → IsKey key s.commands → (command : Bytes) × (from_hex key ≡ ok command))
      → (found : Option Text) × (match_command s frame ≡ ok found) × Finds frame s.commands found
  unfolding match_command
  match_command-Finds s frame names =
      let (found, e) = match_loop-total s.commands frame none names tt in
      (
        found,
        e,
        found-Finds s.commands frame found
            (match_loop-Loops s.commands frame none found 0 (no_match refl refl) e),
      )
