-- ===== src/Server/Kept.antt =====
-- What an event of a client leaves as it was: the descriptors and the sessions of the map.
use mathlib.Core.Option
use client_server_architectu.Prelude.Options.{some-injective}
use client_server_architectu.ClientSession.Run.{has_pending_messages, try_send_pending_message}
use client_server_architectu.ClientSession.{Output}
use client_server_architectu.World.{ok, err, World, Result}
use client_server_architectu.Platform.{Platform}
use client_server_architectu.Prelude.{
  none, Option, if◌then◌else◌, true, subst, some, false, ◌≡◌, ◌∙◌, ℕ, sym, refl, inr, inl, eqb,
  arith, ap, Bool-cases, Bool,
}
use client_server_architectu.Server.Steps.{IsServed}
use client_server_architectu.Server.{
  every_event, sent_pending, pending_messages, client_event, invalid_session, client_input,
  Interest, set_at, Entry, Server, tcp_handling, change_interest, held, absent, vacant,
}

-- No descriptor is opened or closed and no session is lost.
pub record KeepsSessions (s t : Server) : Type 0 where
  pub open_fds : t.open_fd ≡ s.open_fd
  pub kept : (k n : ℕ) → s.client_sessions k ≡ held n → t.client_sessions k ≡ held n

pub keeps_IsServed : {s t : Server} → KeepsSessions s t → IsServed s → IsServed t
keeps_IsServed h served k is_open =
    let (n, e) = served k (ap (λ (f : ℕ → Bool). f k) (sym h.open_fds) ∙ is_open) in
    (n, h.kept k n e)

keeps_trans : {s t u : Server} → KeepsSessions s t → KeepsSessions t u → KeepsSessions s u
keeps_trans h h' = record {
  open_fds = h'.open_fds ∙ h.open_fds;
  kept = λ k n e. h'.kept k n (h.kept k n e);
}

set_at-vacant :
    (f : ℕ → Entry) (fd k n : ℕ) → f fd ≡ absent → f k ≡ held n → set_at fd vacant f k ≡ held n
set_at-vacant f fd k n e h = elim (Bool-cases (eqb k fd)) [
  | inl same ↦ let q : k ≡ fd = ground arith in cc (ap f q)
  | inr other ↦ rw (other) h
]

pub change_interest-KeepsSessions :
    (fd : ℕ) (i : Interest) (s : Server) → KeepsSessions s (change_interest fd i s)
unfolding change_interest
change_interest-KeepsSessions fd i s = record {
  open_fds = ground arith;
  kept = λ k n e. ground (arith, e);
}

same_sessions :
    {s t : Server}
    → t.open_fd ≡ s.open_fd
    → t.client_sessions ≡ s.client_sessions
    → KeepsSessions s t
same_sessions o e = record { open_fds = o; kept = λ k n h. ap (λ (f : ℕ → Entry). f k) e ∙ h }

module _ ⦃p : Platform⦄ where
  -- A null pointer is put only where there was no entry.
  invalid_session-KeepsSessions :
      (fd : ℕ) (s : Server)
      → s.client_sessions fd ≡ absent
      → KeepsSessions s
          (invalid_session fd (record s { client_sessions = set_at fd vacant s.client_sessions }))
  invalid_session-KeepsSessions fd s e = record {
    open_fds = refl;
    kept = λ k n h. set_at-vacant s.client_sessions fd k n e h;
  }

  tcp_handling-KeepsSessions : (fd : ℕ) (s : Server) → KeepsSessions s (tcp_handling fd s)
  unfolding tcp_handling
  tcp_handling-KeepsSessions fd s = go (s.client_sessions fd) refl
    where
      go : (e : Entry) → s.client_sessions fd ≡ e → KeepsSessions s (tcp_handling fd s)
      go (held m) e = rw (tcp_handling, e) (same_sessions refl refl)
      go vacant e = rw (tcp_handling, e) (same_sessions refl refl)
      go absent e = rw (tcp_handling, e) (invalid_session-KeepsSessions fd s e)

  client_input-KeepsSessions : (fd : ℕ) (s : Server) → KeepsSessions s (client_input fd s)
  unfolding client_input
  client_input-KeepsSessions fd s = go (s.client_sessions fd) refl
    where
      go : (e : Entry) → s.client_sessions fd ≡ e → KeepsSessions s (client_input fd s)
      go (held m) e = rw (client_input, e) (tcp_handling-KeepsSessions fd s)
      go vacant e = rw (client_input, e) (tcp_handling-KeepsSessions fd s)
      go absent e = rw (client_input, e) (same_sessions refl refl)

  sent_pending-KeepsSessions :
      (fd n : ℕ) (s : Server) (r : Result Bool × World) {t : Server}
      → sent_pending fd n s r ≡ some t
      → KeepsSessions s t
  sent_pending-KeepsSessions fd n s (err e, w) h = cc
  sent_pending-KeepsSessions fd n s (ok b, w) h =
      subst (KeepsSessions s) (some-injective h) (go (has_pending_messages n w))
    where
      go :
          (b' : Bool)
          → KeepsSessions s (
              if b'
              then record s { world = w }
              else change_interest fd every_event (record s { world = w }))
      go true = same_sessions refl refl
      go false =
          keeps_trans (same_sessions refl refl)
            (change_interest-KeepsSessions fd every_event (record s { world = w }))

  pending_messages-KeepsSessions :
      (fd : ℕ) (out : Output) (s : Server) {t : Server}
      → pending_messages fd out s ≡ some t
      → KeepsSessions s t
  unfolding pending_messages
  pending_messages-KeepsSessions fd out s h = go (s.client_sessions fd) refl h
    where
      go :
          {t : Server} (e : Entry)
          → s.client_sessions fd ≡ e
          → pending_messages fd out s ≡ some t
          → KeepsSessions s t
      go (held n) e h =
          sent_pending-KeepsSessions fd n s (try_send_pending_message n out s.world)
            (rw (pending_messages, e) at h)
      go vacant e h =
          subst (KeepsSessions s) (some-injective (rw (pending_messages, e) at h))
            (same_sessions refl refl)
      go absent e h =
          subst (KeepsSessions s) (some-injective (rw (pending_messages, e) at h))
            (invalid_session-KeepsSessions fd s e)

  pub client_event-KeepsSessions :
      (fd : ℕ) (writable : Bool) (out : Output) (s : Server) {t : Server}
      → client_event fd writable out s ≡ some t
      → KeepsSessions s t
  unfolding client_event
  client_event-KeepsSessions fd true out s h = go (pending_messages fd out s) refl h
    where
      go :
          {t : Server} (o : Option Server)
          → pending_messages fd out s ≡ o
          → Option.map (client_input fd) o ≡ some t
          → KeepsSessions s t
      go none e h = cc
      go (some u) e h =
          keeps_trans (pending_messages-KeepsSessions fd out s e)
            (subst (KeepsSessions u) (some-injective h) (client_input-KeepsSessions fd u))
  client_event-KeepsSessions fd false out s h =
      subst (KeepsSessions s) (some-injective h) (client_input-KeepsSessions fd s)
