-- ===== src/Protocol/Ends.antt =====
-- haier_protocol.cpp over the ends of the line of test/utils/virtual_stream.cpp.
use haier_protocol.Prelude.{
  ℕ, ◌≤◌, ◌≡◌, refl, sym, ap, ◌∙◌, Bool, List, [], ◌∷◌, ◌++◌, append-nil, length, take, take_all,
  arith, if-both,
}
use haier_protocol.Message.{HaierMessage}
use haier_protocol.Message.Payload.{payload}
use haier_protocol.Circular.{get_size, push_all, pop}
use haier_protocol.Circular.Contents.{contents, length-contents}
use haier_protocol.Circular.Append.{push_all_lem}
use haier_protocol.Frame.Types.{HaierFrame}
use haier_protocol.Frame.Wire.{wire}
use haier_protocol.Frame.Accounts.{described, make_lem}
use haier_protocol.VirtualStream.{Ring, VirtualStream, virtual_stream, write_array}
use haier_protocol.Transport.State.{Transport}
use haier_protocol.Transport.Io.{read_data, read_twice, read_into}
use haier_protocol.Transport.Taken.{IsSent, wires}
use haier_protocol.Protocol.Replies.{message_wire}

-- A direction of the line with nothing on it and room for a frame.
pub record IsFree (r : Ring) : Type 0 where
  pub empty : contents r.0 ≡ []
  pub room : 255 ≤ r.0.capacity

-- the frame that carries a message
abbrev pub carried : HaierMessage → Bool → HaierFrame
carried m use_crc = described m.frame_type (payload m) use_crc

pub carried-IsSent : (m : HaierMessage) (c : Bool) → length (payload m) ≤ 233 → IsSent (carried m c)
carried-IsSent m c h = record {
  frame_type = m.frame_type;
  bytes = payload m;
  use_crc = c;
  short = h;
  made = sym (make_lem m.frame_type (payload m) c (omega (arith, h)));
}

pub carried-wires :
    (m : HaierMessage) (c : Bool)
    → length (payload m) ≤ 233
    → message_wire m c ≡ wires (carried m c ∷ [])
carried-wires m c h =
    ap wire (make_lem m.frame_type (payload m) c (omega (arith, h)))
    ∙ sym (append-nil (wire (carried m c)))

-- Reading leaves the other direction alone.
pub read_data-tx :
    (s : VirtualStream) (t : Transport) → (read_data virtual_stream s t).0.tx_buffer ≡ s.tx_buffer
unfolding read_data read_twice read_into
read_data-tx s t =
    if-both {A = VirtualStream × Transport × ℕ} (λ r. r.0.tx_buffer ≡ s.tx_buffer) _ (λ _. refl)
      (λ _. refl)

-- What was written to a free direction is on it.
pub write_array-free :
    (s : VirtualStream) (bytes : List ℕ)
    → IsFree s.tx_buffer
    → length bytes ≤ 255
    → contents (write_array s bytes).tx_buffer.0 ≡ bytes
write_array-free s bytes free fits =
    let (count, added) = push_all_lem bytes s.tx_buffer.1 in
    let none_held : get_size s.tx_buffer.0 ≡ 0 =
      sym (length-contents s.tx_buffer.0) ∙ ap length free.empty in
    let n = (push_all s.tx_buffer.0 bytes).1 in
    added.bytes
    ∙ ap (λ l. l ++ take n bytes) free.empty
    ∙ take_all n bytes (omega (arith, count, none_held, free.room, fits))

pub read_data-capacity :
    (s : VirtualStream) (t : Transport)
    → (read_data virtual_stream s t).0.rx_buffer.0.capacity ≡ s.rx_buffer.0.capacity
unfolding read_data read_twice read_into pop
read_data-capacity s t =
    if-both {A = VirtualStream × Transport × ℕ}
      (λ r. r.0.rx_buffer.0.capacity ≡ s.rx_buffer.0.capacity) _ (λ _. refl) (λ _. refl)
