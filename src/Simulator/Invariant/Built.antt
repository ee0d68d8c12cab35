-- ===== src/Simulator/Invariant/Built.antt =====
-- The frames that `_build_frame` makes.
use stiebel_eltron_heatpump.Prelude.{
  arith, ◌≡◌, refl, sym, ◌∙◌, ap, subst, ℕ, zero, suc, ◌+◌, ◌-◌, ◌≤◌, List, [], ◌∷◌, ◌++◌, length,
  length-append, drop, set, replicate, true, ltb, if◌then◌else◌,
}
use stiebel_eltron_heatpump.Errors.{ok, chain-ok}
use stiebel_eltron_heatpump.Models.{ChannelDefinition}
use stiebel_eltron_heatpump.Config.{Request}
use stiebel_eltron_heatpump.Protocol.Frame.{
  Bytes, escape, end, header_start, get_mark, header_check,
}
use stiebel_eltron_heatpump.Protocol.Number.{store}
use stiebel_eltron_heatpump.Simulator.{with_checksum, mark_get}
use stiebel_eltron_heatpump.Simulator.Seeding.{
  put_command, put_footer, data_end_from, data_end, build_frame,
}
use stiebel_eltron_heatpump.Simulator.Invariant.Frames.{
  IsMarked, store-set, store-IsMarked, mark_get-checked,
}

length-drop : (n : ℕ) (bytes : Bytes) → length bytes ≤ n + length (drop n bytes)
length-drop zero bytes = omega arith
length-drop (suc n) [] = omega arith
length-drop (suc n) (b ∷ bytes) = omega (arith, length-drop n bytes)

-- Five bytes or more keep the beginning when the command is put behind it.
put_command-IsMarked :
    (mark a : ℕ) (rest command : Bytes)
    → 2 ≤ length rest
    → IsMarked mark (put_command (header_start ∷ mark ∷ a ∷ rest) command)
unfolding put_command
put_command-IsMarked mark a rest command long =
    let e : 3 + length command ≡ suc (suc (suc (length command))) = omega arith in
    let tail = drop (length command) rest in
    rw e (
      two (command ++ tail)
        (omega (arith, long, length-append command tail, length-drop (length command) rest)))
  where
    two : (bytes : Bytes) → 2 ≤ length bytes → IsMarked mark (header_start ∷ mark ∷ a ∷ bytes)
    two [] h = absurd (omega arith)
    two (d ∷ []) h = absurd (omega arith)
    two (d ∷ e ∷ bytes) h = (a, d, e, bytes, refl)

put_footer-IsMarked :
    (mark : ℕ) (frame frame' : Bytes)
    → put_footer frame ≡ ok frame'
    → IsMarked mark frame
    → IsMarked mark frame'
unfolding put_footer
put_footer-IsMarked mark frame frame' h m =
    let (escaped, e, h1) = chain-ok _ (store frame (length frame - 2) escape) h in
    let before : IsMarked mark escaped =
      store-IsMarked mark escape (length frame - 2) frame escaped e m (long frame m) in
    store-IsMarked mark end (length escaped - 1) escaped frame' h1 before
      (omega (arith, long escaped before))
  where
    long : (bytes : Bytes) → IsMarked mark bytes → 3 ≤ length bytes - 2
    long bytes (c, d, e, rest, is) = rw is (omega arith)

with_checksum-checked :
    (frame frame' : Bytes)
    → with_checksum frame ≡ ok frame'
    → IsMarked get_mark frame
    → header_check frame' ≡ true
with_checksum-checked frame frame' h (c, d, e, rest, is) =
    let same : mark_get frame ≡ with_checksum frame =
      rw is (unfold mark_get store in ground arith) in
    mark_get-checked get_mark frame frame' (same ∙ h) (c, d, e, rest, is)

module _ {F : Type 0} where
  -- Every record lies behind the header.
  abbrev pub AllBehind : List (ChannelDefinition F) → Type 0
  AllBehind [] = Unit
  AllBehind (r ∷ records) = (3 ≤ r.position) × AllBehind records

  data_end_from-le :
      (so_far : ℕ) (records : List (ChannelDefinition F)) → so_far ≤ data_end_from so_far records
  unfolding data_end_from
  data_end_from-le so_far [] = omega arith
  data_end_from-le so_far (r ∷ records) =
      let end_of = r.position + r.length in
      ground (arith, data_end_from-le (if ltb so_far end_of then end_of else so_far) records)

  data_end-le : (records : List (ChannelDefinition F)) → AllBehind records → 3 ≤ data_end records
  unfolding data_end
  data_end-le [] h = omega arith
  data_end-le (r ∷ records) h = omega (arith, h.0, data_end_from-le (r.position + r.length) records)

  -- A frame that `_build_frame` makes passes the header check, if its records lie behind the header.
  pub build_frame-checked :
      (request : Request F) (command frame : Bytes)
      → AllBehind request.records
      → build_frame request command ≡ ok frame
      → header_check frame ≡ true
  unfolding build_frame
  build_frame-checked request command frame behind h =
      let n = data_end request.records in
      let long : 3 ≤ n = data_end-le request.records behind in
      let size : n + 2 ≡ suc (suc (suc (suc (suc (n - 3))))) = omega arith in
      let (started, e, h1) = chain-ok _ (store (replicate (n + 2) 0) 0 header_start) h in
      let (marked, f, h2) = chain-ok _ (store started 1 get_mark) h1 in
      let (closed, g, h3) = chain-ok _ (put_footer (put_command marked command)) h2 in
      let first : header_start ∷ 0 ∷ 0 ∷ 0 ∷ 0 ∷ replicate (n - 3) 0 ≡ started =
        ap (λ k. set (replicate k 0) 0 header_start) (sym size)
        ∙ store-set (replicate (n + 2) 0) started 0 header_start e in
      let second : header_start ∷ get_mark ∷ 0 ∷ 0 ∷ 0 ∷ replicate (n - 3) 0 ≡ marked =
        ap (λ x. set x 1 get_mark) first ∙ store-set started marked 1 get_mark f in
      let put =
        put_command-IsMarked get_mark 0 (0 ∷ 0 ∷ replicate (n - 3) 0) command (omega arith) in
      with_checksum-checked closed frame h3 (
        put_footer-IsMarked get_mark (put_command marked command) closed g
          (subst (λ x. IsMarked get_mark (put_command x command)) second put))
