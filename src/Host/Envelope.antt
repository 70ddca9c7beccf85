-- ===== src/Host/Envelope.antt =====
-- How the host takes a line of the node: request_with_timeout of host/src/device.rs and Envelope of
-- host/src/protocol.rs.
use esp_now_harness.Common.{ℕ, Bool, false, not, List, [], Option, none, some, ◌==◌, if◌then◌else◌}
use esp_now_harness.Common.Text.{codes, str_eq}
use esp_now_harness.Output.Object.{Reader}
use esp_now_harness.Host.{bind}

pub record Envelope : Type 0 where
  pub kind : List ℕ
  pub id : Option ℕ
  pub ok : Option Bool
  pub code : Option (List ℕ)
  pub message : Option (List ℕ)

-- What becomes of a line: it is passed over, the request fails, or it is answered.
pub data Outcome : Type 0 where
  skipped : Outcome
  failed : List ℕ → List ℕ → Outcome
  answered : Outcome

-- A field that may be missing: it is not there, or it is read, or it is of the wrong type.
unfoldable pub optional : {J A : Type 0} → Option J → (J → Option A) → Option (Option A)
optional none read = some none
optional (some j) read = elim (read j) [ none ↦ none | some a ↦ some (some a) ]

-- `env.id != Some(id)` and `env.ok == Some(false)`
abbrev pub is_id : Option ℕ → ℕ → Bool
is_id none id = false
is_id (some n) id = n == id

abbrev pub is_failure : Option Bool → Bool
is_failure none = false
is_failure (some ok) = not ok

abbrev pub text_or : List ℕ → Option (List ℕ) → List ℕ
text_or other none = other
text_or other (some text) = text

-- `info_of` is whether serde reads the object `info`.
module _ {J : Type 0} (r : Reader J) (info_of : J → Option (Unit {0})) where
  open r use {get, as_u64, as_str, as_bool}

  unfoldable pub read_envelope : J → Option Envelope
  unfolding optional
  read_envelope line = bind (bind (get line "type") as_str) (λ kind.
      bind (optional (get line "id") as_u64) (λ id. bind (optional (get line "ok") as_bool) (λ ok.
        bind (optional (get line "code") as_str) (λ code.
          bind (optional (get line "message") as_str) (λ message.
            bind (optional (get line "info") info_of) (λ info.
              some (record { kind = kind; id = id; ok = ok; code = code; message = message })))))))

  unfoldable pub outcome_of : ℕ → Envelope → Outcome
  outcome_of id env =
      if str_eq env.kind (codes "event")
      then skipped
      else if not (is_id env.id id)
      then skipped
      else if is_failure env.ok
      then failed (text_or (codes "node_error") env.code) (text_or [] env.message)
      else answered

  -- A line that is no envelope is passed over.
  abbrev pub outcome_read : ℕ → Option Envelope → Outcome
  outcome_read id none = skipped
  outcome_read id (some env) = outcome_of id env

  unfoldable pub outcome : ℕ → J → Outcome
  outcome id line = outcome_read id (read_envelope line)
