-- ===== src/Startup/Ready.antt =====
-- What app_main of firmware/main/app_main.c leaves.
use esp_now_harness.Common.{
  ℕ, ◌≡◌, ◌≢◌, ◌⊎◌, inl, inr, refl, ap, sym, ◌∙◌, true, ◌||◌, if◌then◌else◌,
}
use esp_now_harness.Harness.{error}
use esp_now_harness.Runtime.{
  EspErr, esp_ok, esp_err_invalid_state, is_ok, is_invalid_state, Node, M, System, pure, set_state,
}
use esp_now_harness.Radio.{and_then}
use esp_now_harness.Radio.Configure.{try_call}
use esp_now_harness.Startup.{
  Boot, try_again, register_callbacks, radio_init, receiver_start, app_main,
}

unfoldable pub Untouched : {W A : Type 0} → (W → ℕ) → M W A → Type 0
Untouched free m = (s : _) → ((m s).1.node ≡ s.node) × (free (m s).1.world ≡ free s.world)

-- `free` is the count of the semaphore tx_ready. Nothing runs yet that uses it or the globals: the
-- receiver's task waits for its first event, and the control task is created last.
pub record Fresh {W : Type 0} (b : Boot W) : Type 0 where
  pub free : W → ℕ
  pub netif_keeps : Untouched free b.netif_init
  pub loop_keeps : Untouched free b.event_loop_create_default
  pub init_keeps : Untouched free b.wifi_init
  pub storage_keeps : Untouched free b.wifi_set_storage
  pub mode_keeps : Untouched free b.wifi_set_mode
  pub start_keeps : Untouched free b.wifi_start
  pub ps_keeps : Untouched free b.wifi_set_ps
  pub now_keeps : Untouched free b.now_init
  pub send_cb_keeps : Untouched free b.register_send_cb
  pub recv_cb_keeps : Untouched free b.register_recv_cb
  pub queue_keeps : (n : ℕ) → Untouched free (b.queue_create n)
  pub receiver_keeps : Untouched free b.create_receiver
  pub control_keeps : Untouched free b.create_control
  pub semaphore_is :
      (most first : ℕ) (s : System W)
      → ((b.semaphore_create most first s).1.node ≡ s.node)
        × (free (b.semaphore_create most first s).1.world ≡ first)

module _ {W : Type 0} (b : Boot W) (x : Fresh b) where
  open x use {free}

  -- A call of radio_init's chain: the globals stay, and after a success the semaphore has one slot.
  abbrev Inits : M W EspErr → Type 0
  Inits m = (s : System W) → ((m s).1.node ≡ s.node) × ((m s).0 ≡ esp_ok → free (m s).1.world ≡ 1)

  and_then-Inits :
      (e : EspErr) (next : M W EspErr) (n : Node) (t : System W)
      → t.node ≡ n
      → Inits next
      → ((and_then e next t).1.node ≡ n)
        × ((and_then e next t).0 ≡ esp_ok → free (and_then e next t).1.world ≡ 1)
  and_then-Inits esp_ok next n t h k = ((k t).0 ∙ h, (k t).1)
  and_then-Inits _ next n t h k = (h, λ e. cc)

  try_call-Inits :
      (call next : M W EspErr) → Untouched free call → Inits next → Inits (try_call call next)
  unfolding Untouched
  try_call-Inits call next h k s = let (e, t) = call s in and_then-Inits e next s.node t (h s).0 k

  again-Inits :
      (e : EspErr) (next : M W EspErr) (n : Node) (t : System W)
      → t.node ≡ n
      → Inits next
      → let m = if is_ok e || is_invalid_state e then next else pure e in
        ((m t).1.node ≡ n) × ((m t).0 ≡ esp_ok → free (m t).1.world ≡ 1)
  again-Inits esp_ok next n t h k = ((k t).0 ∙ h, (k t).1)
  again-Inits esp_err_invalid_state next n t h k = ((k t).0 ∙ h, (k t).1)
  again-Inits _ next n t h k = (h, λ e. cc)

  try_again-Inits :
      (call next : M W EspErr) → Untouched free call → Inits next → Inits (try_again call next)
  unfolding Untouched
  try_again-Inits call next h k s = let (e, t) = call s in again-Inits e next s.node t (h s).0 k

  -- The last call, which finds the slot there.
  last-Inits :
      (e : EspErr) (next : M W EspErr) (n : Node) (t : System W)
      → t.node ≡ n
      → free t.world ≡ 1
      → Untouched free next
      → ((and_then e next t).1.node ≡ n) × (free (and_then e next t).1.world ≡ 1)
  unfolding Untouched
  last-Inits esp_ok next n t h k u = ((u t).0 ∙ h, (u t).1 ∙ k)
  last-Inits _ next n t h k u = (h, k)

  register_callbacks-Inits : Inits (register_callbacks b)
  unfolding register_callbacks Untouched
  register_callbacks-Inits s =
      let u = (b.semaphore_create 32 1 s).1 in
      let (made, one) = x.semaphore_is 32 1 s in
      let (e, t) = b.register_send_cb u in
      let (same, still) = x.send_cb_keeps u in
      let (same', one') =
        last-Inits e b.register_recv_cb s.node t (same ∙ made) (still ∙ one) x.recv_cb_keeps in
      (same', λ _. one')

  radio_init-Inits : Inits (radio_init b)
  unfolding radio_init
  radio_init-Inits = try_again-Inits _ _ x.netif_keeps (
      try_again-Inits _ _ x.loop_keeps (
        try_call-Inits _ _ x.init_keeps (
          try_call-Inits _ _ x.storage_keeps (
            try_call-Inits _ _ x.mode_keeps (
              try_call-Inits _ _ x.start_keeps (
                try_call-Inits _ _ x.ps_keeps
                  (try_call-Inits _ _ x.now_keeps register_callbacks-Inits)))))))

  -- What is left: a node that can be configured, or one in ERROR.
  abbrev Left : EspErr → Node → System W → Type 0
  Left e n t =
      ((e ≡ esp_ok) × (t.node ≡ record n { queue = true }) × (free t.world ≡ 1))
      ⊎ ((e ≢ esp_ok) × (t.node ≡ record n { queue = true; state = error }))

  after_init-Left :
      (e : EspErr) (n : Node) (t : System W)
      → t.node ≡ record n { queue = true }
      → (e ≡ esp_ok → free t.world ≡ 1)
      → Left e n ((if is_ok e then pure tt else set_state error) t).1
  after_init-Left esp_ok n t h k = inl (refl, h, k refl)
  after_init-Left _ n t h k = inr (λ q. cc, ap (λ (m : Node). record m { state = error }) h)

  -- Where radio_init, called after receiver_start, returns ESP_OK, app_main leaves a node with a queue
  -- whose globals are else as they were and whose semaphore has as many slots as the window that
  -- current_tx_window starts with; where radio_init returns an error, it leaves a node in ERROR with a
  -- queue, whose globals are else as they were. Nothing else uses the globals before the control task
  -- runs.
  pub app_main_ready :
      (s : System W)
      → s.node.current_tx_window ≡ 1
      → let t = (app_main b s).1 in
        let e = (radio_init b (receiver_start b s).1).0 in
        ((e ≡ esp_ok)
          × (t.node ≡ record s.node { queue = true })
          × (free t.world ≡ t.node.current_tx_window))
        ⊎ ((e ≢ esp_ok) × (t.node ≡ record s.node { queue = true; state = error }))
  unfolding app_main receiver_start Untouched
  app_main_ready s h =
      let r = (b.queue_create 64 s).1 in
      let n = r.node in
      let r' : System W = record r { node = record n { queue = true } } in
      let u = (b.create_receiver r').1 in
      let (e, w) = radio_init b u in
      let t = ((if is_ok e then pure tt else set_state error) w).1 in
      let kept : u.node ≡ record s.node { queue = true } =
        (x.receiver_keeps r').0
        ∙ ap (λ (m : Node). record m { queue = true }) (x.queue_keeps 64 s).0 in
      let (same, one) = radio_init-Inits u in
      let (last, still) = x.control_keeps t in
      elim (after_init-Left e s.node w (same ∙ kept) one) [
        | inl (o, k, f) ↦
            let is = last ∙ k in
            inl (o, is, still ∙ f ∙ sym (ap (λ (m : Node). m.current_tx_window) is ∙ h))
        | inr (o, k) ↦ inr (o, last ∙ k)
      ]
