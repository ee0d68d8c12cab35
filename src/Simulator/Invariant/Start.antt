-- ===== src/Simulator/Invariant/Start.antt =====
-- The simulator starts with frames that pass the header check.
use stiebel_eltron_heatpump.Prelude.{
  arith, ◌≡◌, refl, sym, ◌∙◌, ap, subst, ℕ, ◌≤◌, [], ◌∷◌, Option, none, some, Bool, true, false,
  ◌&&◌, ◌||◌, not, list_eq, inl, inr, Bool-cases, Option-cases, pos, mod_ℤ, div_ℤ,
}
use stiebel_eltron_heatpump.Errors.{Result, ok, chain-ok, ok-injective}
use stiebel_eltron_heatpump.Dict.{Dict, lookup, insert, lookup-insert}
use stiebel_eltron_heatpump.Models.{Text, FloatOps, Conversions, Value, int, ChannelDefinition}
use stiebel_eltron_heatpump.Config.{HeatPumpConfig, Request, channel, request_for_channel}
use stiebel_eltron_heatpump.Protocol.Frame.{Bytes, header_check}
use stiebel_eltron_heatpump.Simulator.{Simulator, mark_get, or_key_error}
use stiebel_eltron_heatpump.Simulator.Seeding.{
  modify, encode, encode_parts, int_of_value, second_command, set_in_request, set_in_channel,
  set_value,
}
use stiebel_eltron_heatpump.Simulator.Seeding.Start.{set_values}
use stiebel_eltron_heatpump.Simulator.Invariant.{AllChecked}
use stiebel_eltron_heatpump.Simulator.Invariant.Behind.{FindsBehind}
use stiebel_eltron_heatpump.Simulator.Invariant.Frames.{
  IsMarked, mark_get-checked, header_check-IsMarked, encode-IsMarked,
}

-- Every frame begins as a frame does, and passes the header check unless its key is one of those
-- that are being changed.
abbrev AllBut : (Text → Bool) → Dict Bytes → Type 0
AllBut changing frames =
    (key : Text) (frame : Bytes)
    → lookup key frames ≡ some frame
    → ((mark : ℕ) × IsMarked mark frame) × (changing key ≡ false → header_check frame ≡ true)

AllChecked-AllBut : (frames : Dict Bytes) → AllChecked frames → AllBut (λ key. false) frames
AllChecked-AllBut frames all key frame is =
    let checked = all key frame is in (header_check-IsMarked frame checked, λ h. checked)

AllBut-AllChecked :
    (changing : Text → Bool) (frames : Dict Bytes)
    → ((key : Text) → changing key ≡ false)
    → AllBut changing frames
    → AllChecked frames
AllBut-AllChecked changing frames over all key frame is = (all key frame is).1 (over key)

-- What a change of one frame does to the whole store.
module _ (key : Text) (change : Bytes → Result Bytes) (changing : Text → Bool)
    (frames frames' : Dict Bytes) where
  modified :
      modify key change frames ≡ ok frames'
      → (frame : Bytes) × (changed : Bytes) × (lookup key frames ≡ some frame)
        × (change frame ≡ ok changed)
        × (insert key changed frames ≡ frames')
  unfolding modify
  modified h =
      let (frame, e, h1) = chain-ok _ (or_key_error (lookup key frames)) h in
      let (changed, f, h2) = chain-ok _ (change frame) h1 in
      (frame, changed, ground arith, f, ok-injective h2)

  -- A change that keeps the beginning of a frame.
  modify-AllBut :
      ((mark : ℕ) (frame changed : Bytes)
        → change frame ≡ ok changed
        → IsMarked mark frame
        → IsMarked mark changed)
      → modify key change frames ≡ ok frames'
      → AllBut changing frames
      → AllBut (λ k. changing k || list_eq key k) frames'
  modify-AllBut keeps h all k frame is =
      let (old, changed, was, e, f) = modified h in
      let law = sym (lookup-insert key k changed frames) ∙ (ap (lookup k) f ∙ is) in
      elim (Bool-cases (list_eq key k)) [
        | inl same ↦
            let here : changed ≡ frame = ground arith in
            let (mark, marked) = (all key old was).0 in
            (
              (mark, subst (IsMarked mark) here (keeps mark old changed e marked)),
              λ over. ground arith,
            )
        | inr other ↦
            let there : lookup k frames ≡ some frame = ground arith in
            ((all k frame there).0, λ over. (all k frame there).1 (ground arith))
      ]

  -- Marking makes a frame valid again.
  modify_mark-AllBut :
      ((frame changed : Bytes)
        → change frame ≡ ok changed
        → (mark : ℕ) × IsMarked mark frame
        → header_check changed ≡ true)
      → modify key change frames ≡ ok frames'
      → AllBut changing frames
      → AllBut (λ k. changing k && not (list_eq key k)) frames'
  modify_mark-AllBut marks h all k frame is =
      let (old, changed, was, e, f) = modified h in
      let law = sym (lookup-insert key k changed frames) ∙ (ap (lookup k) f ∙ is) in
      elim (Bool-cases (list_eq key k)) [
        | inl same ↦
            let here : changed ≡ frame = ground arith in
            let checked = ap header_check (sym here) ∙ marks old changed e (all key old was).0 in
            (header_check-IsMarked frame checked, λ over. checked)
        | inr other ↦
            let there : lookup k frames ≡ some frame = ground arith in
            ((all k frame there).0, λ over. (all k frame there).1 (ground arith))
      ]

gone_one : (a : Bool) → ((false || a) && not a) ≡ false
gone_one a = ground arith

gone_two : (a b : Bool) → (((((false || a) || b) && not b)) && not a) ≡ false
gone_two a b = ground arith

module _ {F : Type 0} (ops : FloatOps F) (conv : Conversions F) where
  module _ (r : ChannelDefinition F) (behind : 3 ≤ r.position) (request : Request F) where
    encoding :
        (value : Value F) (mark : ℕ) (frame changed : Bytes)
        → encode ops frame r value ≡ ok changed
        → IsMarked mark frame
        → IsMarked mark changed
    encoding value mark frame changed = encode-IsMarked ops r behind mark frame changed value

    marking :
        (frame changed : Bytes)
        → mark_get frame ≡ ok changed
        → (mark : ℕ) × IsMarked mark frame
        → header_check changed ≡ true
    marking frame changed e (mark, m) = mark_get-checked mark frame changed e m

    set_in_request-AllChecked :
        (value : Value F) (second : Option Text) (frames encoded frames' : Dict Bytes)
        → encode_parts ops conv request r value second frames ≡ ok encoded
        → modify request.request_byte mark_get encoded ≡ ok frames'
        → AllChecked frames
        → AllChecked frames'
    unfolding encode_parts
    set_in_request-AllChecked value none frames encoded frames' h g all =
        let start = AllChecked-AllBut frames all in
        let key = request.request_byte in
        let one = modify-AllBut key _ _ frames encoded (encoding value) h start in
        AllBut-AllChecked _ frames' (λ k. gone_one (list_eq key k))
          (modify_mark-AllBut key mark_get _ encoded frames' marking g one)
    set_in_request-AllChecked value (some key2) frames encoded frames' h g all =
        let start = AllChecked-AllBut frames all in
        let key = request.request_byte in
        let (n, e, h1) = chain-ok _ (int_of_value conv value) h in
        let (lower, e1, h2) =
          chain-ok _ (modify key (λ frame. encode ops frame r (int (pos (mod_ℤ n 1000)))) frames)
            h1 in
        let (upper, e2, h3) =
          chain-ok _ (modify key2 (λ frame. encode ops frame r (int (div_ℤ n 1000))) lower) h2 in
        let one =
          modify-AllBut key _ _ frames lower (encoding (int (pos (mod_ℤ n 1000)))) e1 start in
        let two = modify-AllBut key2 _ _ lower upper (encoding (int (div_ℤ n 1000))) e2 one in
        let three = modify_mark-AllBut key2 mark_get _ upper encoded marking h3 two in
        AllBut-AllChecked _ frames' (λ k. gone_two (list_eq key k) (list_eq key2 k))
          (modify_mark-AllBut key mark_get _ encoded frames' marking g three)

  set_in_channel-AllChecked :
      (config : HeatPumpConfig F) (value : Value F) (r : Option (ChannelDefinition F))
      (channel_id : Text) (frames frames' : Dict Bytes)
      → ((c : ChannelDefinition F) → r ≡ some c → 3 ≤ c.position)
      → set_in_channel ops conv config value r channel_id frames ≡ ok frames'
      → AllChecked frames
      → AllChecked frames'
  unfolding set_in_channel set_in_request
  set_in_channel-AllChecked config value none channel_id frames frames' behind h all =
      subst AllChecked (ok-injective h) all
  set_in_channel-AllChecked config value (some r) channel_id frames frames' behind h all =
      elim (Option-cases (request_for_channel config channel_id)) [
        | inl none_ ↦
            subst AllChecked (ok-injective (sym (rw (none_, set_in_request) refl) ∙ h)) all
        | inr (request, e) ↦
            let second = second_command request.request_byte2 value in
            let h' = sym (rw (e, set_in_request) refl) ∙ h in
            let (encoded, f, h1) =
              chain-ok (λ encoded. modify request.request_byte mark_get encoded)
                (encode_parts ops conv request r value second frames) h' in
            set_in_request-AllChecked r (behind r refl) request value second frames encoded frames'
              f h1 all
      ]

  pub set_values-AllChecked :
      (seeds : Dict (Value F)) (s s' : Simulator F)
      → FindsBehind s.config
      → set_values ops conv seeds s ≡ ok s'
      → AllChecked s.frames
      → AllChecked s'.frames
  unfolding set_values set_value
  set_values-AllChecked [] s s' behind h all =
      subst (λ (x : Simulator F). AllChecked x.frames) (ok-injective h) all
  set_values-AllChecked ((channel_id, value) ∷ seeds) s s' behind h all =
      let (next, e, h1) = chain-ok _ (set_value ops conv channel_id value s) h in
      let found = channel s.config channel_id in
      let (frames, f, e1) =
        chain-ok _ (set_in_channel ops conv s.config value found channel_id s.frames) e in
      let here =
        set_in_channel-AllChecked s.config value found channel_id s.frames frames
          (behind channel_id) f all in
      let (kept, held) =
        subst (λ (x : Simulator F). FindsBehind x.config × AllChecked x.frames) (ok-injective e1)
          (behind, here) in
      set_values-AllChecked seeds next s' kept h1 held
