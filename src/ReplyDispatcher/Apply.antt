-- ===== src/ReplyDispatcher/Apply.antt =====
-- `apply` of bridge/src/reply-dispatcher.mjs. The thread driver, the hook resolver, the reply guard
-- and the UI action store are handed to the dispatcher: `Sinks` tells which of them are there, what
-- the guard says, and how the n-th call of a sink ends.
use hermes_codex_bridge.Base.{
  ℕ, String, Bool, true, false, not, ◌&&◌, Option, none, some, List, ◌∷◌, length, if◌then◌else◌,
  str_eq,
}
use hermes_codex_bridge.Base.Json.{or_else}
use hermes_codex_bridge.Contracts.Shape.{
  EventKind, question, ReplyAction, reply, ReplyMode, live_request, next_turn, no_reply, Event,
  Reply,
}

-- A call of a sink, with its arguments; `key` is the idempotency key.
pub data Call : Type 0 where
  enqueue : (event : Event) → (reply : Reply) → Call
  resolve_hook : (event_id : String) → (reply : Reply) → (key : String) → Call
  resolve_interaction :
      (event_id thread_id : String)
      → (action : ReplyAction) → (text : Option String) → (key : String) → Call
  reply_thread :
      (event_id thread_id : String)
      → (expected_turn : Option String) → (text : Option String) → (key : String) → Call

-- how a call ends: a throw, or a result with its `rejected`, `routed` and `idempotencyKey`
pub data Answer : Type 0 where
  threw : Answer
  returned : (rejected routed : Bool) → (code key : Option String) → Answer

pub record Sinks : Type 0 where
  pub has_ui_action_store : Bool
  pub has_reply_guard : Bool
  pub is_reply_current : String → Bool
  pub hook_has : String → Bool
  pub has_resolver : Bool
  pub has_reply : Bool
  pub answer : ℕ → Answer

-- what `apply` ends with
pub data Outcome : Type 0 where
  failed : Outcome
  rejected : (code : Option String) → Outcome
  routed : Outcome
  applied : Outcome

abbrev is_question : EventKind → Bool
is_question question = true
is_question _ = false

abbrev pub is_text_reply : ReplyAction → Bool
is_text_reply reply = true
is_text_reply _ = false

abbrev is_live : ReplyMode → Bool
is_live live_request = true
is_live _ = false

abbrev pub is_next_turn : ReplyMode → Bool
is_next_turn next_turn = true
is_next_turn _ = false

-- `event.message.reply_mode ?? (event.kind === "QUESTION" ? "LIVE_REQUEST" : "NONE")`
unfoldable pub reply_mode_of : Event → ReplyMode
reply_mode_of e = or_else e.reply_mode (if is_question e.kind then live_request else no_reply)

unfoldable pub is_live_question : Event → Reply → Bool
unfolding reply_mode_of
is_live_question e a = is_question e.kind && is_text_reply a.action && is_live (reply_mode_of e)

-- `result?.rejected === true`, then `result?.routed === true`
abbrev outcome_of : Answer → Outcome
outcome_of threw = failed
outcome_of (returned true t code key) = rejected code
outcome_of (returned false true code key) = routed
outcome_of (returned false false code key) = applied

-- the acknowledgment check of the last branch
abbrev acknowledged : String → Answer → Outcome
acknowledged id (returned r t code (some key)) =
    if str_eq key id then outcome_of (returned r t code (some key)) else failed
acknowledged id a = outcome_of a

abbrev pub enqueued : Answer → Outcome
enqueued threw = failed
enqueued (returned r t code key) = routed

module _ (sinks : Sinks) where
  abbrev pub ask : Call → (Answer → Outcome) → List Call → Outcome × List Call
  ask call end calls = (end (sinks.answer (length calls)), call ∷ calls)

  abbrev pub resolve : Event → Reply → List Call → Outcome × List Call
  resolve e a calls =
      if sinks.has_resolver
      then ask (resolve_interaction e.id e.thread_id a.action a.text e.id) outcome_of calls
      else (failed, calls)

  -- the branches behind the two guards
  unfoldable pub dispatch : Event → Reply → List Call → Outcome × List Call
  unfolding is_live_question
  dispatch e a calls =
      if is_text_reply a.action && is_next_turn (reply_mode_of e)
      then (if sinks.has_reply
          then ask (reply_thread e.id e.thread_id (some e.turn_id) a.text e.id) outcome_of calls
          else (failed, calls))
      else if is_live_question e a
      then resolve e a calls
      else if not (is_text_reply a.action)
      then (if sinks.hook_has e.id
          then ask (resolve_hook e.id a e.id) outcome_of calls
          else resolve e a calls)
      else if sinks.has_reply
      then ask (reply_thread e.id e.thread_id none a.text e.id) (acknowledged e.id) calls
      else (failed, calls)

  unfoldable pub apply : Event → Reply → Bool → List Call → Outcome × List Call
  unfolding is_live_question
  apply e a already_routed calls =
      let ordinary = is_text_reply a.action && not (is_live_question e a) in
      let stale = sinks.has_reply_guard && not (sinks.is_reply_current e.id) in
      if ordinary && sinks.has_ui_action_store
      then (if not already_routed && stale
          then (rejected (some "STALE"), calls)
          else ask (enqueue e a) enqueued calls)
      else if ordinary && stale
      then (rejected (some "STALE"), calls)
      else dispatch e a calls
