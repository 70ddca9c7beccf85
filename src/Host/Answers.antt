-- ===== src/Host/Answers.antt =====
-- What the host makes of the lines that dispatch of firmware/main/control.c prints.
use Prim.Native.String.{String}
use esp_now_harness.Common.{
  ℕ, ◌^◌, ◌<◌, ◌≡◌, refl, ap, ◌∙◌, Bool, true, false, List, [], ◌∷◌, ◌++◌, Option, none, some, ◌==◌,
  if◌then◌else◌, arith,
}
use esp_now_harness.Common.Text.{codes, str_eq}
use esp_now_harness.Runtime.{EspErr}
use esp_now_harness.Output.{Builder, Fields, is_fresh, is_distinct, field, string, add_fields}
use esp_now_harness.Output.Object.{Reader, Reads, get-object}
use esp_now_harness.Metrics.Rates.{Doubles, DoubleReport}
use esp_now_harness.Metrics.Tree.{report_tree}
use esp_now_harness.Control.Json.{Double, whole}
use esp_now_harness.Control.Dispatch.{
  Body, info_body, state_body, result_body, error_body, failure_body,
}
use esp_now_harness.Control.Response.{
  About, response_fields, response, send_error, send_info, info_tree, reply_tree,
}
use esp_now_harness.Host.Envelope.{
  Outcome, skipped, failed, answered, optional, read_envelope, outcome_of, outcome, text_or,
  outcome_read,
}

-- What the host says of a body.
unfoldable pub said : (EspErr → List ℕ) → Body → Outcome
said err_to_name (error_body code message) = failed (codes code) (codes message)
said err_to_name (failure_body code error) = failed (codes code) (err_to_name error)
said err_to_name _ = answered

module _ {J D : Type 0} (b : Builder J D) (d : Doubles D) (r : Reader J) (x : Reads b d r)
    (info_of : J → Option (Unit {0})) (double : Double → D) (err_to_name : EspErr → List ℕ)
    (same_number : (n : ℕ) → double (whole n) ≡ d.of_nat n) where
  -- An object with the fields of a response first.
  module _ (n : ℕ) (ok : Bool) (more : Fields J) (small : n < 10 ^ 15) where
    abbrev line : J
    line = add_fields b (response b d double err_to_name (whole n) ok) more

    abbrev line_fields : Fields J
    line_fields = response_fields b d double err_to_name (whole n) ok ++ more

    envelope_line :
        (code message : Option (List ℕ)) (info : Option (Unit {0}))
        → is_distinct line_fields ≡ true
        → optional (field "code" more) r.as_str ≡ some code
        → optional (field "message" more) r.as_str ≡ some message
        → optional (field "info" more) info_of ≡ some info
        → read_envelope r info_of line
          ≡ some (record {
            kind = codes "response";
            id = some n;
            ok = some ok;
            code = code;
            message = message;
          })
    unfolding read_envelope response response_fields add_fields optional field str_eq
    envelope_line code message info distinct c m i =
        let at : (name : String) → r.get line name ≡ field name line_fields =
          λ name. get-object b d r x name line_fields distinct in
        let number = ap r.as_u64 (ap b.create_number (same_number n)) ∙ x.whole n small in
        rw (at "type", at "id", at "ok", at "code", at "message", at "info")
          (rw (x.string_kept (codes "response"), number, x.bool_kept ok, c, m, i) refl)

  abbrev error_fields : List ℕ → List ℕ → Fields J
  error_fields code message =
      ("code", b.create_string code) ∷ ("message", b.create_string message) ∷ []

  outcome_line :
      (n m : ℕ) (ok : Bool) (code message : Option (List ℕ))
      → outcome_of r info_of m (record {
        kind = codes "response";
        id = some n;
        ok = some ok;
        code = code;
        message = message;
      })
        ≡ (if n == m
            then (if ok
                then answered
                else failed (text_or (codes "node_error") code) (text_or [] message))
            else skipped)
  unfolding outcome_of str_eq
  outcome_line n m ok code message = ground arith

  -- The host takes the line of a reply as the answer to its request with the same id, and to no other:
  -- as a failure with the reply's code and message where the command was refused or a call failed, and
  -- as a success in every other case. The id is below 10^15, and the host can read the fields of `info`.
  pub outcome-reply_tree :
      (about : About) (doubles : DoubleReport D) (n m : ℕ) (body : Body)
      → n < 10 ^ 15
      → info_of (info_tree b d double err_to_name about) ≡ some tt
      → outcome r info_of m
          (reply_tree b d double err_to_name about doubles (record { id = whole n; body = body }))
        ≡ (if n == m then said err_to_name body else skipped)
  unfolding outcome reply_tree said send_info send_error optional field str_eq is_distinct is_fresh
      response_fields
  outcome-reply_tree about doubles n m info_body small read =
      ap (outcome_read r info_of m) (
        envelope_line n true (("info", info_tree b d double err_to_name about) ∷ []) small none none
          (some tt) refl refl refl (rw read refl))
      ∙ (outcome_line n m true none none)
  outcome-reply_tree about doubles n m (state_body name) small read =
      ap (outcome_read r info_of m) (
        envelope_line n true (("state", string b name) ∷ []) small none none none refl refl refl
          refl)
      ∙ (outcome_line n m true none none)
  outcome-reply_tree about doubles n m (result_body report) small read =
      ap (outcome_read r info_of m) (
        envelope_line n true (("result", report_tree b d report doubles) ∷ []) small none none none
          refl refl refl refl)
      ∙ (outcome_line n m true none none)
  outcome-reply_tree about doubles n m (error_body code message) small read =
      ap (outcome_read r info_of m) (
        envelope_line n false (error_fields (codes code) (codes message)) small (some (codes code))
          (some (codes message)) none refl (rw (x.string_kept (codes code)) refl)
          (rw (x.string_kept (codes message)) refl) refl)
      ∙ (outcome_line n m false (some (codes code)) (some (codes message)))
  outcome-reply_tree about doubles n m (failure_body code error) small read =
      ap (outcome_read r info_of m) (
        envelope_line n false (error_fields (codes code) (err_to_name error)) small
          (some (codes code)) (some (err_to_name error)) none refl
          (rw (x.string_kept (codes code)) refl) (rw (x.string_kept (err_to_name error)) refl) refl)
      ∙ (outcome_line n m false (some (codes code)) (some (err_to_name error)))
