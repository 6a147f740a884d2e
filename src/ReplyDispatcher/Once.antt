-- ===== src/ReplyDispatcher/Once.antt =====
-- A reply that was dealt with is not dealt with again.
use hermes_codex_bridge.Base.{
  ℕ, String, ◌≡◌, inl, inr, refl, Bool, true, false, false≢true, Option, none, some, List, [], ◌∷◌,
  Result, ok, err, arith, Bool-cases, Result-cases, Option-cases, str_eq, map, sym, ◌∙◌, any,
}
use hermes_codex_bridge.Base.Json.{Json, is_member}
use hermes_codex_bridge.Runtime.{Runtime}
use hermes_codex_bridge.Contracts.Shape.{Event, Reply}
use hermes_codex_bridge.ReplyDispatcher.Apply.{Sinks, Outcome}
use hermes_codex_bridge.ReplyDispatcher.Process.{
  Code, World, find_text, names, now, after_bind, same_action, terminal, write_once_or_same,
  claim_once_or_same,
}
use hermes_codex_bridge.ReplyDispatcher.Handle.{
  Ending, declined, expired, rejected, applied, open_pair, is_expired, claim_name, claim_of,
  close_with, finish, answer, process_body,
}
use hermes_codex_bridge.ReplyDispatcher.Admission.{process_body-calls, sent}

-- The reply was delivered or refused for good.
abbrev pub is_final : Ending → Bool
is_final declined = true
is_final expired = true
is_final rejected = true
is_final applied = true
is_final _ = false

abbrev HasReceipt : {D : Type 0} → World D → Type 0
HasReceipt w = is_member (names w.folder) "receipt.json" ≡ true

is_member-find_text :
    {A : Type 0} (name : String) (leaves : List (String × A)) (a : A)
    → find_text name leaves ≡ some a
    → is_member (map (λ l. l.0) leaves) name ≡ true
unfolding find_text
is_member-find_text name [] a h = absurd (ground arith)
is_member-find_text name ((n, b) ∷ rest) a h = elim (Bool-cases (str_eq n name)) [
  | inl e ↦ rw e refl
  | inr e ↦ rw e (is_member-find_text name rest a (rw e at h))
]

module _ (r : Runtime) (faults : ℕ → Bool) where
  open r use {Document}

  write_once_or_same-receipt :
      (v : Json) (w : World Document)
      → (write_once_or_same r faults "receipt.json" v w).0 ≡ ok tt
      → HasReceipt (write_once_or_same r faults "receipt.json" v w).1
  unfolding write_once_or_same
  write_once_or_same-receipt v w h = elim (Bool-cases (faults w.writes)) [
    | inl bad ↦ absurd (ground arith)
    | inr works ↦ elim (Option-cases (find_text "receipt.json" w.folder.leaves)) [
      | inl e ↦ rw (works, e) refl
      | inr (l, e) ↦ rw (works, e) (is_member-find_text "receipt.json" w.folder.leaves l e)
    ]
  ]

  terminal-receipt :
      (iso : ℕ → String) (clock : ℕ → ℕ) (id status : String) (code : Option String)
      (w : World Document)
      → (terminal r faults iso clock id status code w).0 ≡ ok tt
      → HasReceipt (terminal r faults iso clock id status code w).1
  unfolding terminal
  terminal-receipt iso clock id status code w = write_once_or_same-receipt _ _

module _ (r : Runtime) (date_parse : String → ℕ) (iso : ℕ → String) (plain : String → r.Document)
    (clock : ℕ → ℕ) (faults : ℕ → Bool) (sinks : Sinks) where
  open r use {Document}

  -- an end that is final leaves a receipt
  abbrev Receipted : Ending → Result Code Ending × World Document → Type 0
  Receipted e out = out.0 ≡ ok e → is_final e ≡ true → HasReceipt out.1

  close_with-receipt :
      (name status : String) (code : Option String) (end e : Ending) (w : World Document)
      → Receipted e (close_with r date_parse iso plain clock faults sinks name status code end w)
  close_with-receipt name status code end e w =
      ended (terminal r faults iso clock name status code w)
        (terminal-receipt r faults iso clock name status code w)
    where
      ended :
          (out : Result Code (Unit {0}) × World Document)
          → (out.0 ≡ ok tt → HasReceipt out.1)
          → Receipted e (elim out.0 [ ok _ ↦ (ok end, out.1) | err c ↦ (err c, out.1) ])
      ended (ok tt, w') k h final = k refl
      ended (err c, w') k h final = absurd (ground arith)

  finish-receipt :
      (name : String) (out : Outcome) (e : Ending) (w : World Document)
      → Receipted e (finish r date_parse iso plain clock faults sinks name out w)
  unfolding finish
  finish-receipt name Outcome.failed e w h final = absurd (ground arith)
  finish-receipt name (Outcome.rejected code) e w h final =
      close_with-receipt name _ _ _ e w h final
  finish-receipt name Outcome.routed e w h final = absurd (ground arith)
  finish-receipt name Outcome.applied e w h final = close_with-receipt name _ _ _ e w h final

  answer-receipt :
      (name : String) (v : Event) (a : Reply) (already : Bool) (e : Ending) (w : World Document)
      → Receipted e (answer r date_parse iso plain clock faults sinks name v a already w)
  unfolding answer
  answer-receipt name v a already e w =
      elim (Bool-cases (any (same_action a.action) v.allowed_actions)) [
        | inr h ↦ rw h (close_with-receipt name _ _ _ e w)
        | inl allowed ↦ elim (Bool-cases (is_expired date_parse v a (clock w.clock_reads))) [
          | inl h ↦ rw (allowed, h) (close_with-receipt name _ _ _ e _)
          | inr in_time ↦
              rw (allowed, in_time)
                (after_bind (Receipted e)
                  (claim_once_or_same r faults (claim_name name) (claim_of name))
                  (λ _. sent r date_parse iso plain clock faults sinks name v a already)
                  (now clock w).1 (λ _. finish-receipt name _ e _)
                  (λ c h final. absurd (ground arith)))
        ]
      ]

  process_body-receipt :
      (name : String) (e : Ending) (w : World Document)
      → Receipted e (process_body r date_parse iso plain clock faults sinks name w)
  unfolding process_body
  process_body-receipt name e w = elim (Result-cases (open_pair r plain name w.folder)) [
    | inr (c, k) ↦ rw (process_body, k) (λ h final. absurd (ground arith))
    | inl (none, k) ↦ rw (process_body, k) (λ h final. absurd (ground arith))
    | inl (some (v, a), k) ↦
        rw (process_body, k)
          (answer-receipt name v a (is_member (names w.folder) "ui-action.json") e w)
  ]

  -- Once processDirectory has ended with a reply applied, rejected, declined or expired, processing
  -- the same directory again, at any time and with any sinks, calls no sink.
  pub process_body-once :
      (name : String) (e : Ending) (w : World Document) (clock' : ℕ → ℕ) (faults' : ℕ → Bool)
      (sinks' : Sinks)
      → (process_body r date_parse iso plain clock faults sinks name w).0 ≡ ok e
      → is_final e ≡ true
      → let w' = (process_body r date_parse iso plain clock faults sinks name w).1 in
        (process_body r date_parse iso plain clock' faults' sinks' name w').1.calls ≡ w'.calls
  process_body-once name e w clock' faults' sinks' h final =
      let w' = (process_body r date_parse iso plain clock faults sinks name w).1 in
      elim (process_body-calls r date_parse iso plain clock' faults' sinks' name w') [
        | inl same ↦ same
        | inr (c, v, a, grown, absent, pair, allowed, in_time, k) ↦
            absurd (false≢true (sym absent ∙ process_body-receipt name e w h final))
      ]
