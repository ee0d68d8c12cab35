-- ===== src/Simulator/Known.antt =====
-- The simulator holds a frame for every command that it knows.
pub mod Start
pub mod Feeding
use stiebel_eltron_heatpump.Prelude.{
  ℕ, ◌≡◌, refl, sym, ap, ◌∙◌, subst, List, [], ◌∷◌, Option, none, some, Bool, true, false, ◌⊎◌, inl,
  inr, Bool-cases, list_eq, list_eq_iff, ◌==◌, arith, if◌then◌else◌, pos, mod_ℤ, div_ℤ,
}
use stiebel_eltron_heatpump.Errors.{Result, ok, err, chain-ok, Result-cases, ok-injective}
use stiebel_eltron_heatpump.Exec.{next-ok, next}
use stiebel_eltron_heatpump.Dict.{Dict, lookup, insert, lookup-insert, lookup-insert_self}
use stiebel_eltron_heatpump.Models.{Text, FloatOps, Conversions, Value, int, ChannelDefinition}
use stiebel_eltron_heatpump.Config.{
  HeatPumpConfig, Request, from_hex, given, requests, channel, request_for_channel,
}
use stiebel_eltron_heatpump.Protocol.Frame.{Bytes}
use stiebel_eltron_heatpump.Simulator.{Simulator, mark_get, match_command, or_key_error}
use stiebel_eltron_heatpump.Simulator.Matching.Round.{IsKey}
use stiebel_eltron_heatpump.Simulator.Seeding.{
  modify, encode, encode_parts, int_of_value, second_command, set_in_request, set_in_channel,
  set_value, build_frame,
}
use stiebel_eltron_heatpump.Simulator.Seeding.Start.{
  add_command, add_second, add_requests, set_values, default_version, new_simulator,
}

-- Every key of the first has a value in the second.
abbrev pub Covers : {V : Type 0} → Dict V → Dict Bytes → Type 0
Covers d frames = (key : Text) → IsKey key d → (frame : Bytes) × (lookup key frames ≡ some frame)

-- Every key of the first is a key of the second.
abbrev pub Keeps : Dict Bytes → Dict Bytes → Type 0
Keeps frames frames' =
    (key : Text) (frame : Bytes)
    → lookup key frames ≡ some frame
    → (frame' : Bytes) × (lookup key frames' ≡ some frame')

pub Keeps-insert : (k : Text) (v : Bytes) (frames : Dict Bytes) → Keeps frames (insert k v frames)
Keeps-insert k v frames key frame h = elim (Bool-cases (list_eq k key)) [
  | inl same ↦ (v, lookup-insert k key v frames ∙ rw same)
  | inr other ↦ (frame, lookup-insert k key v frames ∙ rw other h)
]

pub Keeps-trans : (a b c : Dict Bytes) → Keeps a b → Keeps b c → Keeps a c
Keeps-trans a b c h g key frame is = let (frame', is') = h key frame is in g key frame' is'

pub Covers-Keeps :
    {V : Type 0} (d : Dict V) (frames frames' : Dict Bytes)
    → Covers d frames
    → Keeps frames frames'
    → Covers d frames'
Covers-Keeps d frames frames' c k key is = let (frame, e) = c key is in k key frame e

add-IsKey :
    {V : Type 0} (key k j : Text) (v w : V) (d d' : Dict V) (same : Bool)
    → (IsKey key d' → (k ≡ key) ⊎ IsKey key d)
    → IsKey key (if same then (j, v) ∷ d else (j, w) ∷ d')
    → (k ≡ key) ⊎ IsKey key ((j, w) ∷ d)
add-IsKey key k j v w d d' true rest (inl e) = inr (inl e)
add-IsKey key k j v w d d' true rest (inr x) = inr (inr x)
add-IsKey key k j v w d d' false rest (inl e) = inr (inl e)
add-IsKey key k j v w d d' false rest (inr x) = elim (rest x) [
  | inl e ↦ inl e
  | inr y ↦ inr (inr y)
]

IsKey-insert :
    {V : Type 0} (key k : Text) (v : V) (d : Dict V)
    → IsKey key (insert k v d)
    → (k ≡ key) ⊎ IsKey key d
unfolding insert
IsKey-insert key k v [] (inl e) = inl e
IsKey-insert key k v [] (inr x) = inr x
IsKey-insert key k v ((j, w) ∷ d) h =
    add-IsKey key k j v w d (insert k v d) (list_eq j k) (IsKey-insert key k v d) h

pub Covers-insert :
    {V : Type 0} (k : Text) (v : V) (frame : Bytes) (d : Dict V) (frames : Dict Bytes)
    → Covers d frames
    → Covers (insert k v d) (insert k frame frames)
Covers-insert k v frame d frames c key is = elim (IsKey-insert key k v d is) [
  | inl e ↦ (
    frame,
    ap (λ (x : Text). lookup x (insert k frame frames)) (sym e) ∙ lookup-insert_self k frame frames,
  )
  | inr old ↦ Covers-Keeps d frames (insert k frame frames) c (Keeps-insert k frame frames) key old
]

pub modify-Keeps :
    (key : Text) (change : Bytes → Result Bytes) (frames frames' : Dict Bytes)
    → modify key change frames ≡ ok frames'
    → Keeps frames frames'
unfolding modify
modify-Keeps key change frames frames' h =
    let (frame, e, h1) = chain-ok _ (or_key_error (lookup key frames)) h in
    let (changed, f, h2) = chain-ok _ (change frame) h1 in
    subst (λ (x : Dict Bytes). Keeps frames x) (ok-injective h2) (Keeps-insert key changed frames)

-- The simulator holds a frame for every command that it knows.
abbrev pub HasFrames : {F : Type 0} → Simulator F → Type 0
HasFrames s = Covers s.commands s.frames
