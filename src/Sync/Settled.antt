-- ===== src/Sync/Settled.antt =====
-- The state of the synchronisation, and what the windows know of it.
use church_presenter.Common.{
  ℕ, ◌≡◌, ◌≢◌, refl, ◌∙◌, ◌&&◌, List, [], ◌∷◌, ◌++◌, ltb, Bool-cases, inl, inr,
}
use church_presenter.Sync.{
  Sync, Link, ConnectionState, online, offline, syncing, sync_error, Message, state_change,
  conflict_warning, set_state, pull, warn, push_and_pull, push_offline_changes, initialize,
  check_and_reconnect, periodic_pull, is_busy, is_online, Event, started, checked_connection,
  pulled, edited, others_edited, handle_event, handle_events,
}

-- What a window shows that was told the messages, and showed `shown` before.
unfoldable pub shown_after : ConnectionState → List Message → ConnectionState
shown_after shown [] = shown
shown_after shown (state_change state ∷ rest) = shown_after state rest
shown_after shown (conflict_warning n ∷ rest) = shown_after shown rest

-- No call is under way, and a window that showed `first` before the first message shows the state.
pub record IsSettled (first : ConnectionState) (w : Sync) : Type 0 where
  pub idle : w.state ≢ syncing
  pub shown : shown_after first w.sent ≡ w.state

shown_after-append :
    (first : ConnectionState) (messages : List Message) (message : Message)
    → shown_after first (messages ++ message ∷ [])
      ≡ shown_after (shown_after first messages) (message ∷ [])
unfolding shown_after
shown_after-append first [] message = refl
shown_after-append first (state_change state ∷ rest) message = shown_after-append state rest message
shown_after-append first (conflict_warning n ∷ rest) message = shown_after-append first rest message

module _ (first : ConnectionState) where
  set_state-IsSettled :
      (state : ConnectionState) (w : Sync) → state ≢ syncing → IsSettled first (set_state state w)
  unfolding set_state shown_after
  set_state-IsSettled state w ne = record {
    idle = ne;
    shown = shown_after-append first w.sent (state_change state);
  }

  pull-IsSettled : (link : Link) (w : Sync) → IsSettled first (pull link w)
  unfolding pull
  pull-IsSettled link w = elim (Bool-cases link.pull_breaks) [
    | inl b ↦ rw b (set_state-IsSettled sync_error w (λ q. cc))
    | inr b ↦ rw b (set_state-IsSettled online _ (λ q. cc))
  ]

  warn-IsSettled : (n : ℕ) (w : Sync) → IsSettled first w → IsSettled first (warn n w)
  unfolding warn shown_after
  warn-IsSettled n w s = elim (Bool-cases (is_online w.state && ltb 0 n)) [
    | inl e ↦ rw e (record {
      idle = s.idle;
      shown = shown_after-append first w.sent (conflict_warning n) ∙ s.shown;
    })
    | inr e ↦ rw e s
  ]

  push_and_pull-IsSettled : (link : Link) (w : Sync) → IsSettled first (push_and_pull link w)
  unfolding push_and_pull
  push_and_pull-IsSettled link w = elim (Bool-cases (push_offline_changes w link).has_failed) [
    | inl f ↦ rw f (set_state-IsSettled sync_error _ (λ q. cc))
    | inr f ↦ rw f (warn-IsSettled _ _ (pull-IsSettled link _))
  ]

  initialize-IsSettled : (link : Link) (w : Sync) → IsSettled first (initialize link w)
  unfolding initialize set_state shown_after
  initialize-IsSettled link w = elim (Bool-cases link.is_configured) [
    | inr c ↦ rw c (set_state-IsSettled offline w (λ q. cc))
    | inl c ↦ elim (Bool-cases link.is_reachable) [
      | inl r ↦ rw (c, r) (pull-IsSettled _ (set_state syncing w))
      | inr r ↦
          rw (c, r)
            (record {
              idle = λ q. cc;
              shown =
                  shown_after-append first (w.sent ++ state_change offline ∷ [])
                    (state_change offline);
            })
    ]
  ]

  check_and_reconnect-IsSettled :
      (link : Link) (w : Sync) → IsSettled first w → IsSettled first (check_and_reconnect link w)
  unfolding check_and_reconnect
  check_and_reconnect-IsSettled link w s = elim (Bool-cases (is_busy w.state)) [
    | inl b ↦ rw b s
    | inr b ↦ elim (Bool-cases link.is_reachable) [
      | inl r ↦ rw (b, r) (push_and_pull-IsSettled _ (set_state syncing w))
      | inr r ↦ rw (b, r) s
    ]
  ]

  periodic_pull-IsSettled :
      (link : Link) (w : Sync) → IsSettled first w → IsSettled first (periodic_pull link w)
  unfolding periodic_pull
  periodic_pull-IsSettled link w s = elim (Bool-cases (is_online w.state)) [
    | inl o ↦ rw o (pull-IsSettled link (set_state syncing w))
    | inr o ↦ rw o s
  ]

  handle_event-IsSettled :
      (event : Event) (w : Sync) → IsSettled first w → IsSettled first (handle_event event w)
  unfolding handle_event
  handle_event-IsSettled (started link) w s = initialize-IsSettled link w
  handle_event-IsSettled (checked_connection link) w s = check_and_reconnect-IsSettled link w s
  handle_event-IsSettled (pulled link) w s = periodic_pull-IsSettled link w s
  handle_event-IsSettled (edited change) w s = record { idle = s.idle; shown = s.shown }
  handle_event-IsSettled (others_edited change) w s = record { idle = s.idle; shown = s.shown }

  -- Between two events no synchronisation is under way, and a window that was told every change of
  -- the state shows the state, if this was so at the start.
  pub handle_events-IsSettled :
      (events : List Event) (w : Sync)
      → IsSettled first w
      → IsSettled first (handle_events events w)
  unfolding handle_events
  handle_events-IsSettled [] w s = s
  handle_events-IsSettled (event ∷ rest) w s =
      handle_events-IsSettled rest (handle_event event w) (handle_event-IsSettled event w s)
