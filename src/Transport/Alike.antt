-- ===== src/Transport/Alike.antt =====
-- protocol_transport.cpp: two handlers, and two states of the loop, one of which has more bytes behind
-- those at hand.
use haier_protocol.Prelude.{
  ℕ, suc, ◌+◌, ◌-◌, ◌≤◌, ◌<◌, ◌≡◌, ◌≢◌, inl, inr, refl, sym, ap, ap₂, ◌∙◌, true, false, List, [],
  ◌∷◌, ◌++◌, arith, ltb, ◌==◌, if◌then◌else◌, Bool-cases, size_add, size_sub,
}
use haier_protocol.Prelude
use haier_protocol.Circular.{Circular}
use haier_protocol.Circular.Contents.{contents}
use haier_protocol.Frame.Types.{HaierFrame, FrameError, header_only, complete_frame}
use haier_protocol.Transport.State.{Transport, rescan}
use haier_protocol.Transport.Scan.{Scan, after_header, after_body}
use haier_protocol.Transport.Extend.{Extends}

-- Two handlers, the second with more bytes at the end of its buffer and otherwise the same.
pub record Alike (more : List ℕ) (t t' : Transport) : Type 0 where
  pub rings : Extends more t.buffer t'.buffer
  pub same_pos : t'.pos ≡ t.pos
  pub same_sep : t'.sep_count ≡ t.sep_count
  pub same_found : t'.frame_start_found ≡ t.frame_start_found
  pub same_frame : t'.current_frame ≡ t.current_frame
  pub same_start : t'.frame_start ≡ t.frame_start
  pub same_queue : t'.incoming_queue ≡ t.incoming_queue

-- The same of the loop, where what was passed over does not count.
pub record Follows (more : List ℕ) (s s' : Scan) : Type 0 where
  pub bytes :
      Prelude.drop s'.bytes_to_drop (contents s'.buffer)
      ≡ Prelude.drop s.bytes_to_drop (contents s.buffer) ++ more
  pub place : s'.pos - s'.bytes_to_drop ≡ s.pos - s.bytes_to_drop
  pub same_sep : s'.sep_count ≡ s.sep_count
  pub same_found : s'.frame_start_found ≡ s.frame_start_found
  pub same_frame : s'.current_frame ≡ s.current_frame
  pub same_start : s'.handler.frame_start ≡ s.handler.frame_start
  pub same_queue : s'.handler.incoming_queue ≡ s.handler.incoming_queue

abbrev pub with_ring : Circular → ℕ → Scan → Scan
with_ring c n s = record s { handler = record s.handler { buffer = c }; buf_size = n }

module _ (more : List ℕ) where
  pub Alike-Follows :
      (s s' : Scan)
      → s.bytes_to_drop ≡ 0
      → s'.bytes_to_drop ≡ 0
      → Alike more s.handler s'.handler
      → Follows more s s'
  Alike-Follows s s' none_passed none_passed' a = record {
    bytes =
        ap (λ d. Prelude.drop d (contents s'.buffer)) none_passed'
        ∙ a.rings.bytes
        ∙ ap (λ d. Prelude.drop d (contents s.buffer) ++ more) (sym none_passed);
    place = omega (arith, none_passed, none_passed', a.same_pos);
    same_sep = a.same_sep;
    same_found = a.same_found;
    same_frame = a.same_frame;
    same_start = a.same_start;
    same_queue = a.same_queue;
  }

  pub after_header-Alike :
      (err : FrameError) (t t' : Transport)
      → Alike more t t'
      → Alike more (after_header err t) (after_header err t')
  unfolding after_header
  after_header-Alike header_only t t' a = a
  after_header-Alike _ t t' a = record {
    rings = a.rings;
    same_pos = a.same_pos;
    same_sep = a.same_sep;
    same_found = refl;
    same_frame = refl;
    same_start = a.same_start;
    same_queue = a.same_queue;
  }

  pub after_body-Alike :
      (err : FrameError) (f : HaierFrame) (t t' : Transport)
      → Alike more t t'
      → Alike more (after_body err f t) (after_body err f t')
  unfolding after_body
  after_body-Alike complete_frame f t t' a = record {
    rings = a.rings;
    same_pos = a.same_pos;
    same_sep = a.same_sep;
    same_found = a.same_found;
    same_frame = a.same_frame;
    same_start = a.same_start;
    same_queue =
        ap₂ (λ q time. q ++ record { frame = f; timestamp = time } ∷ []) a.same_queue a.same_start;
  }
  after_body-Alike _ f t t' a = a

  pub rescan-Alike : (t t' : Transport) → Alike more t t' → Alike more (rescan t) (rescan t')
  rescan-Alike t t' a = record {
    rings = a.rings;
    same_pos = refl;
    same_sep = refl;
    same_found = refl;
    same_frame = refl;
    same_start = a.same_start;
    same_queue = a.same_queue;
  }
