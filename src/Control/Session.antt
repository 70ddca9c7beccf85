-- ===== src/Control/Session.antt =====
-- control_run of firmware/main/control.c, over any number of the rounds of its endless loop.
use esp_now_harness.Common.{
  ℕ, zero, suc, Bool, true, false, List, [], ◌∷◌, Option, none, some, arith, if◌then◌else◌,
}
use esp_now_harness.Harness.{State, boot, idle}
use esp_now_harness.Runtime.{Node, System, M, Platform, pure, ◌>>=◌, ◌>>◌, get_node, set_state}
use esp_now_harness.Metrics.Distribution.Quantile.{Quantile}
use esp_now_harness.Control.Json.{Cjson, whole}
use esp_now_harness.Control.Calm.{IsCalm, CalmServices}
use esp_now_harness.Control.Dispatch.{Services, Reply, error_body, dispatch}
use esp_now_harness.Control.Step.{Step, Calm-Step}
use esp_now_harness.Control.Transitions.{dispatch-Step}
use esp_now_harness.Control.Valid.{IsValid, IsValid-after, Calm-Renews, dispatch-Renews}

-- fgets(line, sizeof(line), stdin), which is `none` at NULL, and cJSON_Parse(line).
pub record Console (W J : Type 0) : Type 0 where
  pub fgets : M W (Option (List ℕ))
  pub parse : List ℕ → Option J

abbrev pub is_boot : State → Bool
is_boot boot = true
is_boot _ = false

module _ {W J : Type 0} (v : Services W) (c : Cjson J) (sscanf : List ℕ → List ℕ)
    (ceil_times : Quantile → ℕ → ℕ) (p : Platform W) (io : Console W J) where
  open p use {task_delay, ms_to_ticks}
  open io use {fgets, parse}

  unfoldable pub answer : Option J → M W Reply
  answer none = pure (record {
    id = whole 0;
    body = error_body "invalid_json" "expected one JSON object per line";
  })
  answer (some root) = dispatch v c sscanf ceil_times root

  -- What a round prints.
  unfoldable pub handle_line : Option (List ℕ) → M W (List Reply)
  unfolding answer
  handle_line none = do task_delay (ms_to_ticks 10); pure []
  handle_line (some line) = do reply ← answer (parse line); pure (reply ∷ [])

  unfoldable pub control_rounds : ℕ → M W (List (List Reply))
  unfolding handle_line
  control_rounds zero = pure []
  control_rounds (suc rounds) = do
    line ← fgets
    printed ← handle_line line
    later ← control_rounds rounds
    pure (printed ∷ later)

  unfoldable pub control_run : ℕ → M W (List (List Reply))
  unfolding control_rounds
  control_run rounds = do
    n ← get_node
    set_state (if is_boot n.state then idle else n.state)
    control_rounds rounds

-- States in the order in which a node may pass them, by the steps of requests and of the other tasks.
pub data Passes : State → State → Type 0 where
  here : {a : State} → Passes a a
  onward : {a b c : State} (task : Bool) → Step task a b → Passes b c → Passes a c

-- The node between two rounds.
abbrev Leads : Node → Node → Type 0
Leads n n' = Passes n.state n'.state × (IsValid n → IsValid n')

Passes-trans : {a b c : State} → Passes a b → Passes b c → Passes a c
Passes-trans here h = h
Passes-trans (onward task st h) k = onward task st (Passes-trans h k)

Leads-trans : (a b c : Node) → Leads a b → Leads b c → Leads a c
Leads-trans a b c h k = (Passes-trans h.0 k.0, λ v. k.1 (h.1 v))

IsValid-from_boot :
    (b : Bool) (n : Node) → IsValid n → IsValid (record n { state = if b then idle else n.state })
IsValid-from_boot true n valid l = absurd (ground (arith, l))
IsValid-from_boot false n valid l = valid l

module _ {W J : Type 0} (v : Services W) (c : Cjson J) (sscanf : List ℕ → List ℕ)
    (ceil_times : Quantile → ℕ → ℕ) (p : Platform W) (io : Console W J) (laws : CalmServices v)
    (delay_calm : (ticks : ℕ) → IsCalm (p.task_delay ticks)) (fgets_calm : IsCalm io.fgets) where
  calm-Leads : {A : Type 0} (m : M W A) → IsCalm m → (s : System W) → Leads s.node (m s).1.node
  unfolding IsCalm
  calm-Leads m h s = (
    onward s.node.handle (Calm-Step _ _ (h s)) here,
    λ valid. IsValid-after _ _ valid (Calm-Renews _ _ (h s)),
  )

  dispatch-Leads :
      (root : J) (s : System W) → Leads s.node (dispatch v c sscanf ceil_times root s).1.node
  dispatch-Leads root s = (
    onward s.node.handle (dispatch-Step v c sscanf ceil_times laws root s).0 here,
    λ valid. IsValid-after _ _ valid (dispatch-Renews v c sscanf ceil_times laws root s),
  )

  answer-Leads :
      (request : Option J) (s : System W)
      → Leads s.node (answer v c sscanf ceil_times p io request s).1.node
  unfolding answer
  answer-Leads none s = (here, λ valid. valid)
  answer-Leads (some root) s = dispatch-Leads root s

  handle_line-Leads :
      (line : Option (List ℕ)) (s : System W)
      → Leads s.node (handle_line v c sscanf ceil_times p io line s).1.node
  unfolding handle_line
  handle_line-Leads none s =
      calm-Leads (p.task_delay (p.ms_to_ticks 10)) (delay_calm (p.ms_to_ticks 10)) s
  handle_line-Leads (some line) s = answer-Leads (io.parse line) s

  control_rounds-Leads :
      (rounds : ℕ) (s : System W)
      → Leads s.node (control_rounds v c sscanf ceil_times p io rounds s).1.node
  unfolding control_rounds
  control_rounds-Leads zero s = (here, λ valid. valid)
  control_rounds-Leads (suc rounds) s =
      let (line, t) = io.fgets s in
      let (_, u) = handle_line v c sscanf ceil_times p io line t in
      let end = (control_rounds v c sscanf ceil_times p io rounds u).1 in
      Leads-trans s.node t.node end.node (calm-Leads io.fgets fgets_calm s) (
        Leads-trans t.node u.node end.node (handle_line-Leads line t)
          (control_rounds-Leads rounds u))

  -- At every round of control_run, whatever lines come and whatever the other tasks do meanwhile: a
  -- node that is CONFIGURED, ARMED or RUNNING has a configuration that parse_config's checks accept,
  -- with every range of theirs, if this holds at the start.
  pub control_run-IsValid :
      (rounds : ℕ) (s : System W)
      → IsValid s.node
      → IsValid (control_run v c sscanf ceil_times p io rounds s).1.node
  unfolding control_run
  control_run-IsValid rounds s valid =
      let n = s.node in
      let t : System W = record s {
        node = record n { state = if is_boot n.state then idle else n.state };
      } in
      (control_rounds-Leads rounds t).1 (IsValid-from_boot (is_boot n.state) n valid)

  -- The states that a node passes in control_run lead from IDLE, if it starts in BOOT, or else from the
  -- state that it has, by the steps of `Step`, which requests and the generator's task make.
  control_run-Passes :
      (rounds : ℕ) (s : System W)
      → Passes
          (if is_boot s.node.state then idle else s.node.state)
          (control_run v c sscanf ceil_times p io rounds s).1.node.state
  unfolding control_run
  control_run-Passes rounds s =
      let n = s.node in
      let t : System W = record s {
        node = record n { state = if is_boot n.state then idle else n.state };
      } in
      (control_rounds-Leads rounds t).0
