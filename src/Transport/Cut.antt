-- ===== src/Transport/Cut.antt =====
-- protocol_transport.cpp, `process_data` on frames that arrive in parts.
use mathlib.Core.Option.{some-injective}
use haier_protocol.Prelude.{
  ℕ, ◌*◌, ◌≤◌, ◌≡◌, refl, sym, ap, ap₂, subst, ◌∙◌, Bool, false, List, [], ◌++◌, append-nil, arith,
  length, take, take_all, empty-length, replicate, length-replicate, All, size_mod,
}
use haier_protocol.Circular.{Circular, IsValid, get_size, push_all, capacity_for, minimum_size}
use haier_protocol.Circular
use haier_protocol.Circular.Contents.{contents, length-contents, make-IsValid}
use haier_protocol.Circular.Append.{push_all_lem}
use haier_protocol.Frame.Types.{HaierFrame, empty_frame}
use haier_protocol.Transport.State.{Transport}
use haier_protocol.Transport.Noise.{IsNoise, trailing}
use haier_protocol.Transport.Line.{Piece, line, frames_of, IsPiece}
use haier_protocol.Transport.Frames.{AtRest, Recovers, process_data_line}
use haier_protocol.Transport.Alike.{Alike}
use haier_protocol.Transport.InParts.{IsSettled, together, Arrives, process_data-Arrives}

-- A ring that is large enough for the bytes.
room_for :
    (bytes : List ℕ)
    → 2 * length bytes ≤ size_mod
    → (c : Circular) × IsValid c × (contents c ≡ bytes)
unfolding Circular.make get_size
room_for bytes small =
    let n = length bytes in
    let storage : List ℕ = replicate (capacity_for n) 0 in
    let (valid, empty) =
      make-IsValid storage n (length-replicate {A = ℕ} (capacity_for n) 0) small in
    let c = Circular.make storage n in
    let (count, added) = push_all_lem bytes valid in
    let none_held : get_size c ≡ 0 = sym (length-contents c) ∙ ap length empty in
    let all : (push_all c bytes).1 ≡ n = ground (arith, count, none_held) in
    (
      (push_all c bytes).0,
      added.valid,
      added.bytes ∙ ap₂ (λ l k. l ++ take k bytes) empty all ∙ take_all n bytes (omega arith),
    )

Alike-Recovers :
    (t w v : Transport) (fs : List HaierFrame) (k : ℕ)
    → Alike [] w v
    → Recovers t v fs k
    → Recovers t w fs k
Alike-Recovers t w v fs k a r =
    let searching : ℕ → Bool → HaierFrame → Transport = λ sep found frame. record w {
      pos = 0;
      sep_count = sep;
      frame_start_found = found;
      current_frame = frame;
    } in
    let sep = ap (λ (u : Transport). u.sep_count) r.waits ∙ a.same_sep in
    let found = ap (λ (u : Transport). u.frame_start_found) r.waits ∙ a.same_found in
    let frame = ap (λ (u : Transport). u.current_frame) r.waits ∙ a.same_frame in
    record {
      queue = sym a.same_queue ∙ r.queue;
      held = sym (append-nil (contents w.buffer)) ∙ sym a.rings.bytes ∙ r.held;
      valid = a.rings.valid;
      looked = sym a.same_pos ∙ r.looked;
      waits = ap (λ n. searching n false empty_frame) sep ∙ ap₂ (searching w.sep_count) found frame;
    }

-- Frames are recovered in whatever parts their bytes arrive. At a handler at rest with an empty buffer,
-- let any sequence of pieces and then noise arrive in parts, cut anywhere, with `process_data` after
-- each part, at any times. Then exactly the frames among the pieces that are as they were sent have been
-- queued, in order, and the handler waits for the start of a frame; of the bytes it keeps only the
-- one or two 0xFF that the noise ends in. There are at most half as many bytes in all as a `size_t` can
-- count, and every part has found room in the buffer.
pub Arrives-Recovers :
    (parts : List (List ℕ)) (t w : Transport) (ps : List Piece) (tail : List ℕ)
    → IsSettled t
    → AtRest t
    → All IsPiece ps
    → IsNoise tail
    → Arrives parts t w
    → together parts ≡ line ps ++ tail
    → 2 * length (together parts) ≤ size_mod
    → Recovers t w (frames_of ps) (trailing 0 tail)
Arrives-Recovers parts t w ps tail r rest pieces quiet arrived e small =
    let (c, valid, held) = room_for (together parts) small in
    let v : Transport = record t { buffer = c } in
    let none_looked : t.pos ≡ 0 = sym (ap (λ (u : Transport). u.pos) rest) in
    let none_held : contents t.buffer ≡ [] =
      empty-length (contents t.buffer) (length-contents t.buffer ∙ sym r.looked ∙ none_looked) in
    let all_at_once : Alike (together parts) t v = record {
      rings = record {
        valid = r.ready.valid;
        valid' = valid;
        bytes = held ∙ ap (λ l. l ++ together parts) (sym none_held);
      };
      same_pos = refl;
      same_sep = refl;
      same_found = refl;
      same_frame = refl;
      same_start = refl;
      same_queue = refl;
    } in
    let (v1, run, same) = process_data-Arrives 0 parts t w v r arrived all_at_once in
    let (v2, run2, recovers) =
      process_data_line 0 v ps tail (ap (λ (u : Transport). record u { buffer = c }) rest) valid
        pieces quiet (held ∙ e) in
    let once : v2 ≡ v1 = some-injective v2 v1 (sym run2 ∙ run) in
    let whole : Recovers t v2 (frames_of ps) (trailing 0 tail) = record {
      queue = recovers.queue;
      held = recovers.held;
      valid = recovers.valid;
      looked = recovers.looked;
      waits = recovers.waits;
    } in
    Alike-Recovers t w v1 _ _ same
      (subst (λ u. Recovers t u (frames_of ps) (trailing 0 tail)) once whole)
