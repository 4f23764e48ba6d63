-- ===== src/Client/Notices.antt =====
-- Notices of the server in the message queue of the client.
use client_server_architectu.Json.{Json}
use client_server_architectu.Client.Output.{string_item, ClientContext}
use client_server_architectu.Client.Tokens.{prefix-size, size, prefix}
use client_server_architectu.Client.{Library}
use client_server_architectu.Client.Ipc.{
  enqueue_if_open, max_msg_size, enqueue_message, category_priority, ipc_send_message, notice,
  udp_listener, priority_check, Notice,
}
use client_server_architectu.Prelude.{
  All, ◌==◌, ◌≤◌, ◌≡◌, ◌∷◌, ◌∙◌, ◌++◌, ℕ, zero, true, sym, suc, some, refl, none, leb, false, arith,
  ap, [], String, Option, List,
}
use mathlib.Core.List.{append_assoc, append-nil}

size-prefix : (n : ℕ) (s : String) → size (prefix n s) ≤ n
unfolding prefix
size-prefix zero s = omega arith
size-prefix (suc n) String.[] = omega arith
size-prefix (suc n) (String.◌∷◌ c s) = omega (arith, size-prefix n s)

-- datagrams that arrive, each of which `mq_send` takes
abbrev pub arriving : List String → List Notice
arriving [] = []
arriving (t ∷ ts) = notice t true ∷ arriving ts

-- `recv` gives 0 for an empty datagram.
abbrev pub IsDatagram : String → Type 0
IsDatagram text = (text == "") ≡ false

module _ ⦃l : Library⦄ where
  abbrev entry : Option ℕ → String → List (ℕ × String)
  entry none t = []
  entry (some priority) t = (priority, t) ∷ []

  -- what the message queue gets of a list of datagrams
  abbrev pub queued : List String → List (ℕ × String)
  queued [] = []
  queued (t ∷ ts) = entry (priority_check (prefix 255 t)) (prefix 255 t) ++ queued ts

  queued-append : (ts us : List String) → queued (ts ++ us) ≡ queued ts ++ queued us
  queued-append [] us = refl
  queued-append (t ∷ ts) us =
      ap (λ q. entry (priority_check (prefix 255 t)) (prefix 255 t) ++ q) (queued-append ts us)
      ∙ sym (
          append_assoc (entry (priority_check (prefix 255 t)) (prefix 255 t)) (queued ts)
            (queued us))

  ipc_send_message-queue :
      (context : ClientContext) (q : List (ℕ × String)) (message : String)
      → context.ipc_queue ≡ some q
      → size message ≤ 255
      → (ipc_send_message context message true).1.ipc_queue
        ≡ some (q ++ entry (priority_check message) message)
  unfolding ipc_send_message
  ipc_send_message-queue context q message e short =
      let fits : leb max_msg_size (size message) ≡ false = ground arith in
      ap (λ (o : Option (List (ℕ × String))). (enqueue_if_open context o message true).1.ipc_queue)
        e
      ∙ rw fits (go (priority_check message))
    where
      go :
          (o : Option ℕ)
          → (enqueue_message context q message o true).1.ipc_queue ≡ some (q ++ entry o message)
      go none = e ∙ ap some (sym (append-nil q))
      go (some priority) = refl

  udp_listener-queued :
      (ts : List String) (context : ClientContext) (q : List (ℕ × String))
      → All IsDatagram ts
      → context.ipc_queue ≡ some q
      → (udp_listener (arriving ts) context).ipc_queue ≡ some (q ++ queued ts)
  unfolding udp_listener
  udp_listener-queued [] context q h e = e ∙ ap some (sym (append-nil q))
  udp_listener-queued (t ∷ ts) context q (full, h) e =
      rw full refl
      ∙ udp_listener-queued ts (ipc_send_message context (prefix 255 t) true).1
          (q ++ entry (priority_check (prefix 255 t)) (prefix 255 t)) h
          (ipc_send_message-queue context q (prefix 255 t) e (size-prefix 255 t))
      ∙ ap some (append_assoc q (entry (priority_check (prefix 255 t)) (prefix 255 t)) (queued ts))

  -- An alert of at most 255 characters that arrives among other datagrams, none of them empty, while
  -- the message queue is open and `mq_send` takes every message, is sent to the queue with priority
  -- 2, after the messages of the datagrams before it and before those of the datagrams after it,
  -- whether the others are JSON or not.
  pub udp_listener-alert :
      (before after : List String) (text : String) (root : Json) (context : ClientContext)
      (q : List (ℕ × String))
      → All IsDatagram (before ++ text ∷ after)
      → context.ipc_queue ≡ some q
      → size text ≤ 255
      → l.parse text ≡ some root
      → string_item root "category" ≡ some "alert"
      → (udp_listener (arriving (before ++ text ∷ after)) context).ipc_queue
        ≡ some (q ++ (queued before ++ (2, text) ∷ queued after))
  unfolding priority_check category_priority
  udp_listener-alert before after text root context q full e short parsed category =
      let high : priority_check text ≡ some 2 = rw (priority_check, parsed, category) refl in
      udp_listener-queued (before ++ text ∷ after) context q full e
      ∙ ap (λ n. some (q ++ n))
          (queued-append before (text ∷ after) ∙ rw (prefix-size 255 text short, high) refl)
