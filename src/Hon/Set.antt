-- ===== src/Hon/Set.antt =====
-- tools/utils/hon_server.cpp, `process_single_parameter`: what it makes of the status.
use native.Mathlib.Nat.{mod-mod}
use haier_protocol.Prelude.{
  ℕ, ◌/◌, ◌^◌, ◌%◌, ◌≤◌, ◌<◌, ◌≡◌, refl, sym, ap, ◌∙◌, Bool, true, false, List, [], ◌∷◌, length,
  get_or, Option, none, some, arith, leb, ◌==◌, if-both, subst,
}
use haier_protocol.Bits.{BitField, load}
use haier_protocol.Bits.Fields.{Apart, load-assign, load-assign-Apart}
use haier_protocol.Protocol.State.{
  send_answer, HandlerError, handler_ok, unsupported_message, unsupported_subcommand,
}
use haier_protocol.Message
use haier_protocol.Hon.Packet.{Control, control, control_size, user_data_size}
use haier_protocol.Hon.Server.{Server}
use haier_protocol.Hon.Parameters.{
  Handled, reject, status_message, set_if_different, store_in, answer_parameter,
  process_single_parameter,
}
use haier_protocol.Hon.Members.{member, store_member, single_parameter-member}
use haier_protocol.Hon.Layout.{control-Fits}
use haier_protocol.Hon.Group.{status_bytes}

-- The value is in the member, modulo its width, and every other member reads as before.
pub record Stored (f : BitField) (value : ℕ) (before after : List ℕ) : Type 0 where
  pub here : load f after ≡ value % 2 ^ f.width
  pub elsewhere : (g : BitField) → Apart f g → load g after ≡ load g before

set_if_different-Stored :
    (f : BitField) (value : ℕ) (before : List ℕ)
    → f.position < length before
    → Stored f value before (set_if_different f value before)
unfolding set_if_different load
set_if_different-Stored f value before h =
    if-both (Stored f value before) (load f before == value)
      (λ e. record { here = same (ground (arith, e)); elsewhere = λ g a. refl })
      (λ e. record {
        here = load-assign f value before h;
        elsewhere = λ g a. load-assign-Apart f g value before h a;
      })
  where
    same : load f before ≡ value → load f before ≡ value % 2 ^ f.width
    same e =
        sym (mod-mod (get_or before f.position 0 / 2 ^ f.shift) (2 ^ f.width))
        ∙ ap (λ n. n % 2 ^ f.width) e

-- The parameter was set: the answer has the new status, and nothing else of the appliance changed.
pub record TakesValue (now value : ℕ) (c : Control) (server : Server) (h : Handled) : Type 0 where
  pub stored : Stored (control c) value server.ac_status h.0.ac_status
  pub rest : h.0 ≡ record server { ac_status = h.0.ac_status }
  pub calls : h.1 ≡ send_answer now (status_bytes 0x6d01 user_data_size h.0.ac_status) ∷ []
  pub result : h.2 ≡ handler_ok

-- The three ways in which a parameter is dealt with.
pub data Outcome (now parameter value : ℕ) (server : Server) (h : Handled) : Type 0 where
  unknown :
      member parameter ≡ none
      → h ≡ reject now server unsupported_subcommand
      → Outcome now parameter value server h
  out_of_range :
      (c : Control)
      → member parameter ≡ some (c, true)
      → 1 < value
      → h ≡ reject now server unsupported_message
      → Outcome now parameter value server h
  is_set :
      (c : Control) (is_flag : Bool)
      → member parameter ≡ some (c, is_flag)
      → (is_flag ≡ true → value ≤ 1)
      → TakesValue now value c server h
      → Outcome now parameter value server h

module _ (now parameter value : ℕ) (server : Server) where
  abbrev answer_with : List ℕ × HandlerError → Handled
  answer_with r = answer_parameter now (record server { ac_status = r.0 }) r.1

  store_in-TakesValue :
      (c : Control)
      → control_size ≤ length server.ac_status
      → TakesValue now value c server (answer_with (store_in (control c) value server.ac_status))
  unfolding status_message Message.make
  store_in-TakesValue c h = record {
    stored =
        set_if_different-Stored (control c) value server.ac_status
          (omega (arith, (control-Fits c).0));
    rest = refl;
    calls = refl;
    result = refl;
  }

  member-Outcome :
      (m : Option (Control × Bool))
      → member parameter ≡ m
      → control_size ≤ length server.ac_status
      → Outcome now parameter value server (answer_with (store_member m value server.ac_status))
  member-Outcome none e h = unknown e refl
  member-Outcome (some (c, false)) e h = is_set c false e (λ q. cc) (store_in-TakesValue c h)
  member-Outcome (some (c, true)) e h =
      if-both (λ r. Outcome now parameter value server (answer_with r)) (leb value 1)
        (λ q. is_set c true e (λ _. ground (arith, q)) (store_in-TakesValue c h))
        (λ q. out_of_range c e (ground (arith, q)) refl)

  -- For every parameter and value, on an appliance with a status of at least ten bytes, where `member`
  -- says which member a parameter is for and whether it takes 0 and 1 alone. A parameter without a
  -- member is refused as an unsupported subcommand, and a value above 1 for a flag as an unsupported
  -- message. Else the member holds the value modulo its width, each bit-field that shares no digit
  -- with it reads as before, nothing else of the appliance changes, and the answer has the new status.
  pub process_single_parameter-Outcome :
      control_size ≤ length server.ac_status
      → Outcome now parameter value server (process_single_parameter now parameter value server)
  unfolding process_single_parameter
  process_single_parameter-Outcome h =
      subst (λ r. Outcome now parameter value server (answer_with r))
        (sym (single_parameter-member parameter value server.ac_status))
        (member-Outcome (member parameter) refl h)
