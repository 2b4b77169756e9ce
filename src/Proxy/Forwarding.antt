-- ===== src/Proxy/Forwarding.antt =====
-- What the two loops of src/jdwpy/proxy.py pass on.
use jdwpy.Prelude.{
  Bool, Bool-cases, List, Option-cases, [], ap, append-nil, append_assoc, false, inl, inr, length,
  refl, suc, sym, take, true, ℕ, ◌++◌, ◌∙◌, ◌∷◌, ◌≡◌, ◌⊎◌,
}
use jdwpy.Prelude.Int.{pos, ◌==ℤ◌}
use jdwpy.Struct.{Result-cases}
use jdwpy.Io.{Platform}
use jdwpy.Dict.{lookup, remove}
use jdwpy.Packet.{JdwpPacket, JdwpReplyPacket, command_packet, reply_packet}
use jdwpy.Proxy.{
  JdwpProxySession, Turn, attempt_debugger_packet, done, forget_command, handle_debugger_packet,
  handle_exception, handle_vm_packet, intercept, log_fails, note_command, passes, raised, read_spec,
  run_dbg_loop, run_vm_loop, send_fails, send_to_debugger,
}

intercept-dbg_sent :
    (p : Platform) (r : JdwpReplyPacket) (session : JdwpProxySession)
    → ((s : JdwpProxySession) × (intercept p r session ≡ done s)
        × (s.dbg_sent ≡ session.dbg_sent)
        × (s.close_event ≡ session.close_event))
      ⊎ ((s : JdwpProxySession) × (intercept p r session ≡ raised s)
          × (s.dbg_sent ≡ session.dbg_sent))
unfolding intercept
intercept-dbg_sent p r session = elim (Option-cases (lookup r.id session.idsizes_cmd_ids)) [
  | inl e ↦ inl (session, rw (intercept, e) refl, refl, refl)
  | inr (u, e) ↦ elim (Bool-cases (r.error_code ==ℤ pos 0)) [
    | inl good ↦ elim (Result-cases (read_spec p session.spec r)) [
      | inl (s, h) ↦ inl (
        record session { idsizes_cmd_ids = remove r.id session.idsizes_cmd_ids; spec = s },
        rw (intercept, e, good, h) refl,
        refl,
        refl,
      )
      | inr (x, h) ↦ inr (
        record session { idsizes_cmd_ids = remove r.id session.idsizes_cmd_ids },
        rw (intercept, e, good, h) refl,
        refl,
      )
    ]
    | inr bad ↦ inl (
      record session { idsizes_cmd_ids = remove r.id session.idsizes_cmd_ids },
      rw (intercept, e, bad) refl,
      refl,
      refl,
    )
  ]
]

-- A handled packet is passed on last, or the handler raised and passed nothing on.
handle_vm_packet-dbg_sent :
    (p : Platform) (packet : JdwpPacket) (session : JdwpProxySession)
    → ((s : JdwpProxySession) × (handle_vm_packet p packet session ≡ done s)
        × (s.dbg_sent ≡ session.dbg_sent ++ packet ∷ [])
        × (s.close_event ≡ session.close_event))
      ⊎ ((s : JdwpProxySession) × (handle_vm_packet p packet session ≡ raised s)
          × (s.dbg_sent ≡ session.dbg_sent))
unfolding handle_vm_packet forget_command
handle_vm_packet-dbg_sent p (command_packet c) session =
    inl (send_to_debugger (command_packet c) session, refl, refl, refl)
handle_vm_packet-dbg_sent p (reply_packet r) session = elim (intercept-dbg_sent p r session) [
  | inl (s, e, same, close) ↦ inl (
    forget_command (reply_packet r) (send_to_debugger (reply_packet r) s),
    rw e refl,
    ap (λ l. l ++ reply_packet r ∷ []) same,
    close,
  )
  | inr (s, e, same) ↦ inr (s, rw e refl, same)
]

module _ (p : Platform) (packet : JdwpPacket) (rest : List JdwpPacket)
    (session : JdwpProxySession) where
  run_vm_loop-closed : session.close_event ≡ true → run_vm_loop p (packet ∷ rest) session ≡ session
  unfolding run_vm_loop
  run_vm_loop-closed h = simp (run_vm_loop, h)

  pub run_vm_loop-done :
      (s : JdwpProxySession)
      → session.close_event ≡ false
      → handle_vm_packet p packet session ≡ done s
      → run_vm_loop p (packet ∷ rest) session ≡ run_vm_loop p rest s
  unfolding run_vm_loop
  run_vm_loop-done s h e = simp (run_vm_loop, h, e)

  pub run_vm_loop-raised :
      (s : JdwpProxySession)
      → session.close_event ≡ false
      → handle_vm_packet p packet session ≡ raised s
      → run_vm_loop p (packet ∷ rest) session ≡ handle_exception s
  unfolding run_vm_loop
  run_vm_loop-raised s h e = simp (run_vm_loop, h, e)

-- What the VM sends reaches the debugger unchanged and in order, without a gap: the debugger is sent the
-- first n of the packets that come, and all of them unless the session has ended.
pub run_vm_loop-forwards :
    (p : Platform) (packets : List JdwpPacket) (session : JdwpProxySession)
    → (n : ℕ) × ((run_vm_loop p packets session).dbg_sent ≡ session.dbg_sent ++ take n packets)
      × (((run_vm_loop p packets session).close_event ≡ true) ⊎ (n ≡ length packets))
unfolding run_vm_loop
run_vm_loop-forwards p [] session = (0, sym (append-nil session.dbg_sent), inr refl)
run_vm_loop-forwards p (packet ∷ rest) session = elim (Bool-cases session.close_event) [
  | inl closed ↦
      let stop : run_vm_loop p (packet ∷ rest) session ≡ session =
        run_vm_loop-closed p packet rest session closed in
      (
        0,
        ap (λ s. s.dbg_sent) stop ∙ sym (append-nil session.dbg_sent),
        inl (ap (λ s. s.close_event) stop ∙ closed),
      )
  | inr running ↦ elim (handle_vm_packet-dbg_sent p packet session) [
    | inl (s, e, sent, close) ↦
        let turn : run_vm_loop p (packet ∷ rest) session ≡ run_vm_loop p rest s =
          run_vm_loop-done p packet rest session s running e in
        let (n, all_sent, ends) = run_vm_loop-forwards p rest s in
        (
          suc n,
          ap (λ s. s.dbg_sent) turn
              ∙ all_sent
              ∙ ap (λ l. l ++ take n rest) sent
              ∙ append_assoc session.dbg_sent (packet ∷ []) (take n rest),
          elim ends [
            | inl c ↦ inl (ap (λ s. s.close_event) turn ∙ c)
            | inr whole ↦ inr (ap suc whole)
          ],
        )
    | inr (s, e, same) ↦
        let stop : run_vm_loop p (packet ∷ rest) session ≡ handle_exception s =
          run_vm_loop-raised p packet rest session s running e in
        (
          0,
          ap (λ s. s.dbg_sent) stop ∙ same ∙ sym (append-nil session.dbg_sent),
          inl (ap (λ s. s.close_event) stop),
        )
  ]
]

handle_debugger_packet-vm_sent :
    (packet : JdwpPacket) (session : JdwpProxySession)
    → ((handle_debugger_packet packet session).vm_sent ≡ session.vm_sent ++ packet ∷ [])
      × ((handle_debugger_packet packet session).close_event ≡ session.close_event)
unfolding handle_debugger_packet note_command
handle_debugger_packet-vm_sent (command_packet c) session = (refl, refl)
handle_debugger_packet-vm_sent (reply_packet r) session = (refl, refl)

module _ (turn : Turn) (packet : JdwpPacket) (rest : List (Turn × JdwpPacket))
    (session : JdwpProxySession) where
  run_dbg_loop-done :
      (s : JdwpProxySession)
      → session.close_event ≡ false
      → attempt_debugger_packet turn packet session ≡ done s
      → run_dbg_loop ((turn, packet) ∷ rest) session ≡ run_dbg_loop rest s
  unfolding run_dbg_loop
  run_dbg_loop-done s h e = simp (run_dbg_loop, h, e)

  run_dbg_loop-raised :
      (s : JdwpProxySession)
      → session.close_event ≡ false
      → attempt_debugger_packet turn packet session ≡ raised s
      → run_dbg_loop ((turn, packet) ∷ rest) session ≡ handle_exception s
  unfolding run_dbg_loop
  run_dbg_loop-raised s h e = simp (run_dbg_loop, h, e)

-- The packets that a loop passes on whose calls end so: those of the turns that pass, up to the first turn
-- in which a call raises, and the packet of this turn too where it was the log that raised.
abbrev pub passed_on : List (Turn × JdwpPacket) → List JdwpPacket
passed_on [] = []
passed_on ((passes, packet) ∷ rest) = packet ∷ passed_on rest
passed_on ((log_fails, packet) ∷ rest) = packet ∷ []
passed_on ((send_fails, packet) ∷ rest) = []

-- Whether a turn raises.
abbrev pub has_failure : List (Turn × JdwpPacket) → Bool
has_failure [] = false
has_failure ((passes, packet) ∷ rest) = has_failure rest
has_failure ((log_fails, packet) ∷ rest) = true
has_failure ((send_fails, packet) ∷ rest) = true

attempt-send_fails :
    (packet : JdwpPacket) (session : JdwpProxySession)
    → (s : JdwpProxySession) × (attempt_debugger_packet send_fails packet session ≡ raised s)
      × (s.vm_sent ≡ session.vm_sent)
unfolding attempt_debugger_packet note_command
attempt-send_fails (command_packet c) session = (note_command c session, refl, refl)
attempt-send_fails (reply_packet r) session = (session, refl, refl)

-- What the debugger sends to a session that has not ended reaches the VM unchanged and in order, up to the
-- first call that raises, and the session ends exactly where one does: while none raises, all of it does.
pub run_dbg_loop-forwards :
    (packets : List (Turn × JdwpPacket)) (session : JdwpProxySession)
    → session.close_event ≡ false
    → ((run_dbg_loop packets session).vm_sent ≡ session.vm_sent ++ passed_on packets)
      × ((run_dbg_loop packets session).close_event ≡ has_failure packets)
unfolding run_dbg_loop
run_dbg_loop-forwards [] session h = (sym (append-nil session.vm_sent), h)
run_dbg_loop-forwards ((passes, packet) ∷ rest) session h =
    let (sent, still) = handle_debugger_packet-vm_sent packet session in
    let next : JdwpProxySession = handle_debugger_packet packet session in
    let turn : run_dbg_loop ((passes, packet) ∷ rest) session ≡ run_dbg_loop rest next =
      run_dbg_loop-done passes packet rest session next h
        (unfold attempt_debugger_packet in refl) in
    let (others, ends) = run_dbg_loop-forwards rest next (still ∙ h) in
    (
      ap (λ s. s.vm_sent) turn
          ∙ others
          ∙ ap (λ l. l ++ passed_on rest) sent
          ∙ append_assoc session.vm_sent (packet ∷ []) (passed_on rest),
      ap (λ s. s.close_event) turn ∙ ends,
    )
run_dbg_loop-forwards ((log_fails, packet) ∷ rest) session h =
    let (sent, _) = handle_debugger_packet-vm_sent packet session in
    let turn : run_dbg_loop ((log_fails, packet) ∷ rest) session
        ≡ handle_exception (handle_debugger_packet packet session) =
      run_dbg_loop-raised log_fails packet rest session _ h
        (unfold attempt_debugger_packet in refl) in
    (ap (λ s. s.vm_sent) turn ∙ sent, ap (λ s. s.close_event) turn)
run_dbg_loop-forwards ((send_fails, packet) ∷ rest) session h =
    let (s, e, same) = attempt-send_fails packet session in
    let turn : run_dbg_loop ((send_fails, packet) ∷ rest) session ≡ handle_exception s =
      run_dbg_loop-raised send_fails packet rest session s h e in
    (
      ap (λ s. s.vm_sent) turn ∙ same ∙ sym (append-nil session.vm_sent),
      ap (λ s. s.close_event) turn,
    )
