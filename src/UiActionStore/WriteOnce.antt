-- ===== src/UiActionStore/WriteOnce.antt =====
-- Over any run of the methods of bridge/src/ui-action-store.mjs, what was published stays.
use hermes_codex_bridge.Base.{
  ℕ, String, ◌≡◌, Bool, true, false, not, refl, Option, none, some, List, [], ◌∷◌, str_eq,
}
use hermes_codex_bridge.Base.Actions.{Action}
use hermes_codex_bridge.Base.Assoc.{lookup}
use hermes_codex_bridge.Base.Json.{Json, is_member, Fields}
use hermes_codex_bridge.Base.Text.{is_event_id}
use hermes_codex_bridge.Runtime.{Runtime}
use hermes_codex_bridge.ReplyDispatcher.Process.{Leaf}
use hermes_codex_bridge.UiActionStore.Files.{Code, World, leaves_of}
use hermes_codex_bridge.UiActionStore.Load.{Context, remove_exact_claim, terminal}
use hermes_codex_bridge.UiActionStore.Methods.{
  enqueue, random, not_terminal, not_expired, take_over, clear_claim, write_claim, claim_in_time,
  claim_open, claim_context, claim, release, applied_receipt, applied_proof, applied_received,
  applied_context, mark_applied, reject,
}
use hermes_codex_bridge.UiActionStore.Queue.{
  is_free, open_entry, Ready, safe_names, push, list_entry, list_before, list_entries, list_ready,
  change_router, new_router, registered_router, register_router, beat, health_snapshot,
}
use hermes_codex_bridge.UiActionStore.Kept.{
  Keeps, same_folders-Keeps, IsKeeping, bind-IsKeeping, reads-IsKeeping, pure-IsKeeping,
  throw-IsKeeping, require-IsKeeping, now-IsKeeping, if-IsKeeping, write_json_once-IsKeeping,
  write_once_or_same-IsKeeping, register_once-IsKeeping, atomic_replace-IsKeeping,
  remove_claim-IsKeeping,
}

ruleset keeping = (
  bind-IsKeeping, reads-IsKeeping, pure-IsKeeping, throw-IsKeeping, require-IsKeeping,
  now-IsKeeping, if-IsKeeping, write_json_once-IsKeeping, write_once_or_same-IsKeeping,
  register_once-IsKeeping, atomic_replace-IsKeeping, remove_claim-IsKeeping,
)

module _ (r : Runtime) (plain : String → r.Document) (date_parse : String → Option ℕ)
    (faults : ℕ → Bool) (iso : ℕ → String) (clock : ℕ → ℕ) (random_id : ℕ → String)
    (locale_lt : String → String → Bool) where
  open r use {Document}

  terminal-IsKeeping :
      (id status : String) (details : Fields)
      → IsKeeping (terminal r faults iso clock id status details)
  unfolding terminal
  terminal-IsKeeping id status details = search keeping

  remove_exact_claim-IsKeeping :
      (id : String) (c : Context) (lease_id : String)
      → IsKeeping (remove_exact_claim r plain date_parse id c lease_id)
  unfolding remove_exact_claim
  remove_exact_claim-IsKeeping id c lease_id = search keeping

  enqueue-IsKeeping :
      (v u : Json) → IsKeeping (enqueue r plain date_parse faults iso clock random_id v u)
  unfolding enqueue
  enqueue-IsKeeping v u = search keeping depth 12

  not_terminal-IsKeeping :
      (id : String) → IsKeeping (not_terminal r plain date_parse faults iso clock random_id id)
  unfolding not_terminal
  not_terminal-IsKeeping id = search (keeping) depth 14

  not_expired-IsKeeping :
      (id : String) (c : Context)
      → IsKeeping (not_expired r plain date_parse faults iso clock random_id id c)
  unfolding not_expired
  not_expired-IsKeeping id c = search (keeping, terminal-IsKeeping) depth 14

  take_over-IsKeeping :
      (id : String) (c : Context) (v : Json × Document)
      → IsKeeping (take_over r plain date_parse faults iso clock random_id id c v)
  unfolding take_over
  take_over-IsKeeping id c v = search (keeping) depth 14

  random-IsKeeping : IsKeeping (random r plain date_parse faults iso clock random_id)
  unfolding random
  random-IsKeeping = record { keeps = λ w. same_folders-Keeps w _ refl }

  write_claim-IsKeeping :
      (id : String) (c : Context)
      → IsKeeping (write_claim r plain date_parse faults iso clock random_id id c)
  unfolding write_claim
  write_claim-IsKeeping id c = search (keeping, random-IsKeeping) depth 14

  pub clear_claim-IsKeeping :
      (id : String) (c : Context) (existing : Option (Json × Document))
      → IsKeeping (clear_claim r plain date_parse faults iso clock random_id id c existing)
  unfolding clear_claim
  clear_claim-IsKeeping id c none = pure-IsKeeping tt
  clear_claim-IsKeeping id c (some v) = take_over-IsKeeping id c v

  claim_in_time-IsKeeping :
      (id : String) (c : Context)
      → IsKeeping (claim_in_time r plain date_parse faults iso clock random_id id c)
  unfolding claim_in_time
  claim_in_time-IsKeeping id c =
      search (keeping, clear_claim-IsKeeping, write_claim-IsKeeping) depth 14

  claim_open-IsKeeping :
      (id : String) (c : Context)
      → IsKeeping (claim_open r plain date_parse faults iso clock random_id id c)
  unfolding claim_open
  claim_open-IsKeeping id c =
      search (keeping, not_expired-IsKeeping, claim_in_time-IsKeeping) depth 14

  claim_context-IsKeeping :
      (id : String) (c : Context)
      → IsKeeping (claim_context r plain date_parse faults iso clock random_id id c)
  unfolding claim_context
  claim_context-IsKeeping id c =
      search (keeping, not_terminal-IsKeeping, claim_open-IsKeeping) depth 14

  claim-IsKeeping :
      (id : String) → IsKeeping (claim r plain date_parse faults iso clock random_id id)
  unfolding claim
  claim-IsKeeping id = search (keeping, claim_context-IsKeeping) depth 14

  release-IsKeeping :
      (id lease_id why : String)
      → IsKeeping (release r plain date_parse faults iso clock random_id id lease_id why)
  unfolding release
  release-IsKeeping id lease_id why = search (keeping, remove_exact_claim-IsKeeping) depth 14

  applied_receipt-IsKeeping :
      (id : String) (receipt : Option (Json × Document))
      → IsKeeping (applied_receipt r plain date_parse faults iso clock random_id id receipt)
  unfolding applied_receipt
  applied_receipt-IsKeeping id none = terminal-IsKeeping id _ _
  applied_receipt-IsKeeping id (some v) = require-IsKeeping _ _

  applied_proof-IsKeeping :
      (id lease_id turn_id : String) (c : Context) (proof : Option (Json × Document))
      → IsKeeping
          (applied_proof r plain date_parse faults iso clock random_id id lease_id turn_id c proof)
  unfolding applied_proof
  applied_proof-IsKeeping id lease_id turn_id c (some v) = require-IsKeeping _ _
  applied_proof-IsKeeping id lease_id turn_id c none = search keeping depth 14

  applied_received-IsKeeping :
      (id lease_id turn_id : String) (c : Context)
      → IsKeeping
          (applied_received r plain date_parse faults iso clock random_id id lease_id turn_id c)
  unfolding applied_received
  applied_received-IsKeeping id lease_id turn_id c =
      search (keeping, applied_proof-IsKeeping) depth 14

  applied_context-IsKeeping :
      (id lease_id turn_id : String) (c : Context)
      → IsKeeping
          (applied_context r plain date_parse faults iso clock random_id id lease_id turn_id c)
  unfolding applied_context
  applied_context-IsKeeping id lease_id turn_id c =
      search (keeping, applied_receipt-IsKeeping, applied_received-IsKeeping) depth 14

  mark_applied-IsKeeping :
      (id lease_id turn_id : String)
      → IsKeeping (mark_applied r plain date_parse faults iso clock random_id id lease_id turn_id)
  unfolding mark_applied
  mark_applied-IsKeeping id lease_id turn_id = search (keeping, applied_context-IsKeeping) depth 14

  reject-IsKeeping :
      (id lease_id why : String)
      → IsKeeping (reject r plain date_parse faults iso clock random_id id lease_id why)
  unfolding reject
  reject-IsKeeping id lease_id why = search (keeping, terminal-IsKeeping) depth 14

  is_free-IsKeeping :
      (id : String) (c : Context) (claim : Option (Json × Document))
      → IsKeeping (is_free r plain date_parse faults iso clock locale_lt id c claim)
  unfolding is_free
  is_free-IsKeeping id c none = pure-IsKeeping true
  is_free-IsKeeping id c (some v) = search keeping depth 14

  open_entry-IsKeeping :
      (id : String) (c : Context)
      → IsKeeping (open_entry r plain date_parse faults iso clock locale_lt id c)
  unfolding open_entry
  open_entry-IsKeeping id c = search (keeping, terminal-IsKeeping, is_free-IsKeeping) depth 14

  list_entry-IsKeeping :
      (id : String) → IsKeeping (list_entry r plain date_parse faults iso clock locale_lt id)
  unfolding list_entry
  list_entry-IsKeeping id = search (keeping, open_entry-IsKeeping) depth 14

  list_before-IsKeeping :
      (id : String) (others : Action (World Document) Code (List Ready))
      → IsKeeping others
      → IsKeeping (list_before r plain date_parse faults iso clock locale_lt id others)
  unfolding list_before
  list_before-IsKeeping id others h = if-IsKeeping (not (is_event_id id)) h (
      bind-IsKeeping (reads-IsKeeping (safe_names r plain date_parse faults iso clock locale_lt id))
        λ names.
          bind-IsKeeping
            (if-IsKeeping (is_member names "ui-action.json") (list_entry-IsKeeping id)
              (pure-IsKeeping none))
            λ entry. bind-IsKeeping h λ rest.
              pure-IsKeeping (push r plain date_parse faults iso clock locale_lt entry rest))

  list_entries-IsKeeping :
      (ids : List String)
      → IsKeeping (list_entries r plain date_parse faults iso clock locale_lt ids)
  unfolding list_entries
  list_entries-IsKeeping [] = pure-IsKeeping []
  list_entries-IsKeeping (id ∷ ids) = list_before-IsKeeping id _ (list_entries-IsKeeping ids)

  list_ready-IsKeeping :
      (n : ℕ) → IsKeeping (list_ready r plain date_parse faults iso clock locale_lt n)
  unfolding list_ready
  list_ready-IsKeeping n = search (keeping, list_entries-IsKeeping) depth 14

  new_router-IsKeeping :
      (thread_id automation_id : String)
      → IsKeeping (new_router r plain date_parse faults iso clock locale_lt thread_id automation_id)
  unfolding new_router
  new_router-IsKeeping thread_id automation_id = search (keeping) depth 14

  change_router-IsKeeping :
      (thread_id automation_id : String) (v : Json × Document)
      → IsKeeping
          (change_router r plain date_parse faults iso clock locale_lt thread_id automation_id v)
  unfolding change_router
  change_router-IsKeeping thread_id automation_id v = search (keeping) depth 14

  registered_router-IsKeeping :
      (thread_id automation_id : String) (current : Option (Json × Document))
      → IsKeeping (
          registered_router r plain date_parse faults iso clock locale_lt thread_id automation_id
            current)
  unfolding registered_router
  registered_router-IsKeeping thread_id automation_id none =
      new_router-IsKeeping thread_id automation_id
  registered_router-IsKeeping thread_id automation_id (some v) =
      change_router-IsKeeping thread_id automation_id v

  register_router-IsKeeping :
      (thread_id automation_id : String)
      → IsKeeping
          (register_router r plain date_parse faults iso clock locale_lt thread_id automation_id)
  unfolding register_router
  register_router-IsKeeping thread_id automation_id =
      search (keeping, registered_router-IsKeeping) depth 14

  beat-IsKeeping :
      (thread_id : String)
      → IsKeeping (beat r plain date_parse faults iso clock locale_lt thread_id)
  unfolding beat
  beat-IsKeeping thread_id = search keeping depth 16

  health_snapshot-IsKeeping :
      IsKeeping (health_snapshot r plain date_parse faults iso clock locale_lt)
  unfolding health_snapshot
  health_snapshot-IsKeeping = search (keeping, list_ready-IsKeeping) depth 14

  -- one call of a method, by a reply's sender, a router or the bridge
  pub data Call : Type 0 where
    enqueue_call : (event reply : Json) → Call
    claim_call : (id : String) → Call
    release_call : (id lease_id why : String) → Call
    applied_call : (id lease_id turn_id : String) → Call
    reject_call : (id lease_id why : String) → Call
    list_call : (n : ℕ) → Call
    register_call : (thread_id automation_id : String) → Call
    heartbeat_call : (thread_id : String) → Call
    health_call : Call

  unfoldable pub perform : Call → World Document → World Document
  perform (enqueue_call v u) w = (enqueue r plain date_parse faults iso clock random_id v u w).1
  perform (claim_call id) w = (claim r plain date_parse faults iso clock random_id id w).1
  perform (release_call id lease_id why) w =
      (release r plain date_parse faults iso clock random_id id lease_id why w).1
  perform (applied_call id lease_id turn_id) w =
      (mark_applied r plain date_parse faults iso clock random_id id lease_id turn_id w).1
  perform (reject_call id lease_id why) w =
      (reject r plain date_parse faults iso clock random_id id lease_id why w).1
  perform (list_call n) w = (list_ready r plain date_parse faults iso clock locale_lt n w).1
  perform (register_call thread_id automation_id) w =
      (register_router r plain date_parse faults iso clock locale_lt thread_id automation_id w).1
  perform (heartbeat_call thread_id) w =
      (beat r plain date_parse faults iso clock locale_lt thread_id w).1
  perform health_call w = (health_snapshot r plain date_parse faults iso clock locale_lt w).1

  unfoldable pub perform_all : List Call → World Document → World Document
  unfolding perform
  perform_all [] w = w
  perform_all (call ∷ calls) w = perform_all calls (perform call w)

  perform-Keeps : (call : Call) (w : World Document) → Keeps w (perform call w)
  unfolding perform
  perform-Keeps (enqueue_call v u) = (enqueue-IsKeeping v u).keeps
  perform-Keeps (claim_call id) = (claim-IsKeeping id).keeps
  perform-Keeps (release_call id lease_id why) = (release-IsKeeping id lease_id why).keeps
  perform-Keeps (applied_call id lease_id turn_id) =
      (mark_applied-IsKeeping id lease_id turn_id).keeps
  perform-Keeps (reject_call id lease_id why) = (reject-IsKeeping id lease_id why).keeps
  perform-Keeps (list_call n) = (list_ready-IsKeeping n).keeps
  perform-Keeps (register_call thread_id automation_id) =
      (register_router-IsKeeping thread_id automation_id).keeps
  perform-Keeps (heartbeat_call thread_id) = (beat-IsKeeping thread_id).keeps
  perform-Keeps health_call = health_snapshot-IsKeeping.keeps

  -- Over any calls, failed ones included, a file of an interaction that is there keeps its content,
  -- unless it is a claim: an action, a proof or a receipt is written once and for all.
  pub perform_all-Keeps :
      (calls : List Call) (w : World Document) (id name : String) (l : Leaf Document)
      → str_eq name "ui-claim.json" ≡ false
      → lookup name (leaves_of id w) ≡ some l
      → lookup name (leaves_of id (perform_all calls w)) ≡ some l
  unfolding perform_all Keeps
  perform_all-Keeps [] w id name l other there = there
  perform_all-Keeps (call ∷ calls) w id name l other there =
      perform_all-Keeps calls (perform call w) id name l other
        (perform-Keeps call w id name l other there)
