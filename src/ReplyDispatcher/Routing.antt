-- ===== src/ReplyDispatcher/Routing.antt =====
-- To which task a reply goes.
use hermes_codex_bridge.Base.{
  ◌≡◌, ◌⊎◌, inl, inr, refl, Bool, not, ◌&&◌, none, some, List, length, ◌∷◌, either_branch,
}
use hermes_codex_bridge.Contracts.Shape.{Event, Reply}
use hermes_codex_bridge.ReplyDispatcher.Apply.{
  Call, enqueue, resolve_hook, resolve_interaction, reply_thread, Sinks, Outcome, rejected,
  enqueued, resolve, is_text_reply, is_live_question, is_next_turn, reply_mode_of, dispatch, apply,
}

-- The call carries the event's own identifier, as its idempotency key too, and the reply's action
-- and text: a queued answer has the whole event and the whole reply, a hook the whole reply, and
-- where a call names a task, it is the task that the event came from.
abbrev pub IsForEvent : Event → Reply → Call → Type 0
IsForEvent e a (enqueue event sent) = (event ≡ e) × (sent ≡ a)
IsForEvent e a (resolve_hook id sent key) = (id ≡ e.id) × (sent ≡ a) × (key ≡ e.id)
IsForEvent e a (resolve_interaction id thread action text key) =
    (id ≡ e.id) × (thread ≡ e.thread_id) × (action ≡ a.action) × (text ≡ a.text) × (key ≡ e.id)
IsForEvent e a (reply_thread id thread turn text key) =
    (id ≡ e.id)
    × (thread ≡ e.thread_id)
    × ((turn ≡ none) ⊎ (turn ≡ some e.turn_id))
    × (text ≡ a.text)
    × (key ≡ e.id)

-- No call was made, or one that `IsForEvent`.
abbrev pub IsExact : Event → Reply → List Call → List Call → Type 0
IsExact e a calls calls' = (calls' ≡ calls) ⊎ ((c : Call) × (calls' ≡ c ∷ calls) × IsForEvent e a c)

unfoldable Ends : Event → Reply → List Call → Outcome × List Call → Type 0
Ends e a calls out = IsExact e a calls out.1

no_call : (e : Event) (a : Reply) (calls : List Call) (out : Outcome) → Ends e a calls (out, calls)
unfolding Ends
no_call e a calls out = inl refl

one_call :
    (e : Event) (a : Reply) (calls : List Call) (out : Outcome) (c : Call)
    → IsForEvent e a c
    → Ends e a calls (out, c ∷ calls)
unfolding Ends
one_call e a calls out c h = inr (c, refl, h)

resolve-Ends :
    (sinks : Sinks) (e : Event) (a : Reply) (calls : List Call)
    → Ends e a calls (resolve sinks e a calls)
resolve-Ends sinks e a calls =
    either_branch (Ends e a calls) sinks.has_resolver
      (one_call e a calls _ (resolve_interaction e.id e.thread_id a.action a.text e.id)
        (refl, refl, refl, refl, refl))
      (no_call e a calls _)

dispatch-Ends :
    (sinks : Sinks) (e : Event) (a : Reply) (calls : List Call)
    → Ends e a calls (dispatch sinks e a calls)
unfolding dispatch
dispatch-Ends sinks e a calls =
    either_branch (Ends e a calls) (is_text_reply a.action && is_next_turn (reply_mode_of e))
      (either_branch (Ends e a calls) sinks.has_reply
        (one_call e a calls _ (reply_thread e.id e.thread_id (some e.turn_id) a.text e.id)
          (refl, refl, inr refl, refl, refl))
        (no_call e a calls _))
      (either_branch (Ends e a calls) (is_live_question e a) (resolve-Ends sinks e a calls) (
        either_branch (Ends e a calls) (not (is_text_reply a.action))
          (either_branch (Ends e a calls) (sinks.hook_has e.id)
            (one_call e a calls _ (resolve_hook e.id a e.id) (refl, refl, refl))
            (resolve-Ends sinks e a calls))
          (either_branch (Ends e a calls) sinks.has_reply
            (one_call e a calls _ (reply_thread e.id e.thread_id none a.text e.id)
              (refl, refl, inl refl, refl, refl))
            (no_call e a calls _))))

apply-Ends :
    (sinks : Sinks) (e : Event) (a : Reply) (already : Bool) (calls : List Call)
    → Ends e a calls (apply sinks e a already calls)
unfolding apply
apply-Ends sinks e a already calls =
    let ordinary = is_text_reply a.action && not (is_live_question e a) in
    let stale = sinks.has_reply_guard && not (sinks.is_reply_current e.id) in
    either_branch (Ends e a calls) (ordinary && sinks.has_ui_action_store)
      (either_branch (Ends e a calls) (not already && stale)
        (no_call e a calls (rejected (some "STALE")))
        (one_call e a calls (enqueued (sinks.answer (length calls))) (enqueue e a) (refl, refl)))
      (either_branch (Ends e a calls) (ordinary && stale)
        (no_call e a calls (rejected (some "STALE"))) (dispatch-Ends sinks e a calls))

pub apply-IsExact :
    (sinks : Sinks) (e : Event) (a : Reply) (already : Bool) (calls : List Call)
    → IsExact e a calls (apply sinks e a already calls).1
unfolding Ends
apply-IsExact sinks e a already calls = apply-Ends sinks e a already calls
