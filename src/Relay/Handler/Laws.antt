-- ===== src/Relay/Handler/Laws.antt =====
-- What `handle_c` and the signal handler do from start to end.
use eng_project.Base.{
  ℕ, ◌≡◌, refl, sym, ap, ◌∙◌, true, false, List, [], ◌∷◌, ◌++◌, append-nil, append_assoc, map,
  ==_refl, ◌==◌, is_pos, count, payload, All,
}
use eng_project.Relay.Handler.{
  Event, Send, close, broadcast, remove_client, farewell, Turn, returned, handle_c, Waited, reap,
  sigchld_handler,
}
use eng_project.Relay.System.Ownership.{occurs, occurs-remove_client}
use eng_project.Relay.System.Delivery.{
  messages, messages-append, messages-broadcast, messages-farewell,
}

-- A turn in which bytes have come, and one in which the connection ends.
abbrev pub IsData : Turn → Type 0
IsData t = is_pos (count t.received) ≡ true

-- All that the thread sends while data comes.
unfoldable pub relayed : Send → ℕ → List Turn → List Event
relayed send_result fd [] = []
relayed send_result fd (t ∷ ts) =
    broadcast send_result (payload t.received) fd t.clients ++ relayed send_result fd ts

pub handle_c-returned :
    (send_result : Send) (fd : ℕ) (turns : List Turn) (end : Turn) (rest : List Turn)
    → All IsData turns
    → is_pos (count end.received) ≡ false
    → handle_c send_result fd (turns ++ end ∷ rest)
      ≡ returned
          (relayed send_result fd turns ++ (farewell (count end.received) ++ close fd ∷ []))
          (remove_client fd end.clients)
unfolding handle_c relayed
handle_c-returned send_result fd [] end rest h e = rw (e, handle_c)
handle_c-returned send_result fd (t ∷ turns) end rest h e =
    rw (h.0, handle_c, handle_c-returned send_result fd turns end rest h.1 e)
      (ap (λ (es : List Event). returned es (remove_client fd end.clients))
        (sym (
          append_assoc (broadcast send_result (payload t.received) fd t.clients)
            (relayed send_result fd turns) _)))

messages-relayed :
    (send_result : Send) (fd g : ℕ) (turns : List Turn)
    → (fd == g) ≡ false
    → All (λ t. occurs g t.clients ≡ 1) turns
    → messages g (relayed send_result fd turns) ≡ map (λ t. payload t.received) turns
unfolding relayed messages
messages-relayed send_result fd g [] other once = refl
messages-relayed send_result fd g (t ∷ turns) other once =
    messages-append g (broadcast send_result (payload t.received) fd t.clients)
      (relayed send_result fd turns)
    ∙ rw (
      messages-broadcast send_result (payload t.received) fd g t.clients,
      other,
      once.0,
      messages-relayed send_result fd g turns other once.1,
    )

-- The handler leaves `errno` as the last `waitpid` left it: after any number of reaped children,
-- `errno` is what the call that reaped none wrote, not what it was before the signal.
errno-not_restored :
    (errno : ℕ) (reaped : List Waited) (w : Waited) (rest : List Waited)
    → All (λ v. is_pos v.result ≡ true) reaped
    → is_pos w.result ≡ false
    → sigchld_handler errno (reaped ++ w ∷ rest) ≡ w.errno_after
unfolding sigchld_handler
errno-not_restored errno reaped w rest h e = go errno reaped h
  where
    go :
        (now : ℕ) (reaped : List Waited)
        → All (λ v. is_pos v.result ≡ true) reaped
        → reap errno now (reaped ++ w ∷ rest) ≡ w.errno_after
    go now [] h = rw (e, reap)
    go now (v ∷ reaped) h = rw (h.0, reap) (go errno reaped h.1)

-- The life of a client's thread: after turns in which bytes come and a first one in which the
-- connection ends or fails, `handle_c` returns; its last act is to close its socket; before that it
-- has sent to any other client, if that stands once in the list at every turn, exactly what was
-- received, in order; it leaves its client in the list no more, and another client as often as
-- before.
pub handle_c-session :
    (send_result : Send) (fd g : ℕ) (turns : List Turn) (end : Turn) (rest : List Turn)
    → All IsData turns
    → is_pos (count end.received) ≡ false
    → (fd == g) ≡ false
    → All (λ t. occurs g t.clients ≡ 1) turns
    → (es : List Event) × (clients : List ℕ) × (handle_c send_result fd (turns ++ end ∷ rest)
        ≡ returned (es ++ close fd ∷ []) clients)
      × (messages g es ≡ map (λ t. payload t.received) turns)
      × (occurs fd clients ≡ 0)
      × (occurs g clients ≡ occurs g end.clients)
handle_c-session send_result fd g turns end rest data_in ended other once = (
  relayed send_result fd turns ++ farewell (count end.received),
  remove_client fd end.clients,
  handle_c-returned send_result fd turns end rest data_in ended
      ∙ ap (λ (es : List Event). returned es (remove_client fd end.clients))
          (sym (
            append_assoc (relayed send_result fd turns) (farewell (count end.received))
              (close fd ∷ []))),
  messages-append g (relayed send_result fd turns) (farewell (count end.received))
      ∙ (rw
          (
            messages-relayed send_result fd g turns other once,
            messages-farewell g (count end.received),
          )
          (append-nil _)),
  occurs-remove_client fd fd end.clients ∙ rw (==_refl fd),
  occurs-remove_client fd g end.clients ∙ rw other,
)
