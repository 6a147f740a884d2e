-- ===== src/ReplyDispatcher/Admission.antt =====
-- When a reply reaches a sink: what `processDirectory` has checked by then.
use mathlib.Core.List.{Mem}
use hermes_codex_bridge.Base.{
  ℕ, String, ◌≡◌, ◌⊎◌, inl, inr, refl, sym, subst, ◌∙◌, ap, Bool, true, false, Option, none, some,
  ◌∷◌, any, Result, ok, err, arith, Bool-cases, Result-cases,
}
use hermes_codex_bridge.Base.Json.{Json, is_member}
use hermes_codex_bridge.Runtime.{Runtime}
use hermes_codex_bridge.Contracts.Shape.{Event, Reply}
use hermes_codex_bridge.ReplyDispatcher.Apply.{Call, Sinks, Outcome, apply}
use hermes_codex_bridge.ReplyDispatcher.Process.{
  Code, Folder, Counts, World, names, after_bind, pure, ◌>>=◌, same_action, now, terminal,
  write_once_or_same, claim_once_or_same, record_failure,
}
use hermes_codex_bridge.ReplyDispatcher.Handle.{
  Ending, read_pair, open_pair, is_expired, claim_name, claim_of, close_with, call_apply, finish,
  answer, settle, process_body, process_directory,
}
use hermes_codex_bridge.ReplyDispatcher.Admitted.{
  IsPair, IsInTime, any-Mem, is_expired-IsInTime, read_pair-IsPair,
}
use hermes_codex_bridge.ReplyDispatcher.Routing.{IsForEvent, apply-IsExact}

module _ (r : Runtime) (faults : ℕ → Bool) where
  open r use {Document}

  write_once_or_same-calls :
      (name : String) (v : Json) (w : World Document)
      → (write_once_or_same r faults name v w).1.calls ≡ w.calls
  unfolding write_once_or_same
  write_once_or_same-calls name v w = ground arith

  claim_once_or_same-calls :
      (name : String) (v : Json) (w : World Document)
      → (claim_once_or_same r faults name v w).1.calls ≡ w.calls
  unfolding claim_once_or_same
  claim_once_or_same-calls name v w = ground arith

  module _ (iso : ℕ → String) (clock : ℕ → ℕ) where
    terminal-calls :
        (id status : String) (code : Option String) (w : World Document)
        → (terminal r faults iso clock id status code w).1.calls ≡ w.calls
    unfolding terminal
    terminal-calls id status code w = write_once_or_same-calls _ _ _

    record_failure-calls :
        (id : String) (code : Code) (w : World Document)
        → (record_failure r faults iso clock id code w).calls ≡ w.calls
    unfolding record_failure
    record_failure-calls id code w = write_once_or_same-calls _ _ _

module _ (r : Runtime) (date_parse : String → ℕ) (iso : ℕ → String) (plain : String → r.Document)
    (clock : ℕ → ℕ) (faults : ℕ → Bool) (sinks : Sinks) where
  open r use {Document}

  close-calls :
      (name status : String) (code : Option String) (end : Ending) (w : World Document)
      → (close_with r date_parse iso plain clock faults sinks name status code end w).1.calls
        ≡ w.calls
  close-calls name status code end w =
      let frame = terminal-calls r faults iso clock name status code w in
      after_bind (λ out. out.1.calls ≡ w.calls) (terminal r faults iso clock name status code)
        (λ _. pure end) w (λ _. frame) (λ _. frame)

  finish-calls :
      (name : String) (out : Outcome) (w : World Document)
      → (finish r date_parse iso plain clock faults sinks name out w).1.calls ≡ w.calls
  unfolding finish
  finish-calls name Outcome.failed w = refl
  finish-calls name (Outcome.rejected code) w = close-calls name _ _ _ w
  finish-calls name Outcome.routed w = refl
  finish-calls name Outcome.applied w = close-calls name _ _ _ w

  -- what a reply fulfils whose call was made at the time `t`
  abbrev pub IsAdmitted : Event → Reply → ℕ → Call → Type 0
  IsAdmitted e a t c =
      (any (same_action a.action) e.allowed_actions ≡ true)
      × (is_expired date_parse e a t ≡ false)
      × IsForEvent e a c

  -- no call, or an admitted one
  abbrev HasCalls : Event → Reply → World Document → World Document → Type 0
  HasCalls e a w w' =
      (w'.calls ≡ w.calls)
      ⊎ ((c : Call) × (w'.calls ≡ c ∷ w.calls) × IsAdmitted e a (clock w.clock_reads) c)

  abbrev pub sent :
      String → Event → Reply → Bool → World Document → Result Code Ending × World Document
  sent name e a already =
      call_apply r date_parse iso plain clock faults sinks e a already
      >>= finish r date_parse iso plain clock faults sinks name

  -- the rest behind the two checks
  call_finish :
      (name : String) (e : Event) (a : Reply) (already : Bool) (w w' : World Document)
      → any (same_action a.action) e.allowed_actions ≡ true
      → is_expired date_parse e a (clock w.clock_reads) ≡ false
      → w'.calls ≡ w.calls
      → HasCalls e a w (sent name e a already w').1
  call_finish name e a already w w' allowed in_time same =
      let (out, calls') = apply sinks e a already w'.calls in
      let frame = finish-calls name out (record w' { calls = calls' }) in
      elim (apply-IsExact sinks e a already w'.calls) [
        | inl h ↦ inl (frame ∙ (h ∙ same))
        | inr (c, h, k) ↦ inr (c, frame ∙ (h ∙ ap (λ cs. c ∷ cs) same), (allowed, in_time, k))
      ]

  pub answer-accepted :
      (name : String) (e : Event) (a : Reply) (already : Bool) (w : World Document)
      → any (same_action a.action) e.allowed_actions ≡ true
      → is_expired date_parse e a (clock w.clock_reads) ≡ false
      → answer r date_parse iso plain clock faults sinks name e a already w
        ≡ (claim_once_or_same r faults (claim_name name) (claim_of name) >>= λ _.
              sent name e a already)
            (now clock w).1
  unfolding answer
  answer-accepted name e a already w allowed in_time = rw (allowed, in_time) refl

  answer_calls :
      (name : String) (e : Event) (a : Reply) (already : Bool) (w : World Document)
      → HasCalls e a w (answer r date_parse iso plain clock faults sinks name e a already w).1
  unfolding answer
  answer_calls name e a already w =
      elim (Bool-cases (any (same_action a.action) e.allowed_actions)) [
        | inr h ↦ rw h (inl (close-calls name _ _ _ w))
        | inl allowed ↦ elim (Bool-cases (is_expired date_parse e a (clock w.clock_reads))) [
          | inl h ↦ rw (allowed, h) (inl (close-calls name _ _ _ _))
          | inr in_time ↦
              subst (λ out. HasCalls e a w out.1)
                (sym (answer-accepted name e a already w allowed in_time))
                (after_bind (λ out. HasCalls e a w out.1)
                  (claim_once_or_same r faults (claim_name name) (claim_of name))
                  (λ _. sent name e a already) (now clock w).1
                  (λ _.
                    call_finish name e a already w _ allowed in_time
                      (claim_once_or_same-calls r faults _ _ _))
                  (λ _. inl (claim_once_or_same-calls r faults _ _ _)))
        ]
      ]

  settle-calls :
      (name : String) (counts : Counts) (out : Result Code Ending × World Document)
      → (settle r date_parse iso plain clock faults sinks name counts out).0.calls ≡ out.1.calls
  settle-calls name counts (ok e, w) = refl
  settle-calls name counts (err c, w) = record_failure-calls r faults iso clock name c w

  open_pair-ok :
      (name : String) (f : Folder Document) (p : Event × Reply)
      → open_pair r plain name f ≡ ok (some p)
      → (is_member (names f) "receipt.json" ≡ false) × (read_pair r plain name f ≡ ok p)
  unfolding open_pair
  open_pair-ok name f p h = ground arith

  -- No call, or one for the pair of this directory: no receipt is there, the event allows the
  -- action, and the clock's reading is in time.
  abbrev pub HasOneCall : String → World Document → World Document → Type 0
  HasOneCall name w w' =
      (w'.calls ≡ w.calls)
      ⊎ ((c : Call) × (e : Event) × (a : Reply) × (w'.calls ≡ c ∷ w.calls)
          × (is_member (names w.folder) "receipt.json" ≡ false)
          × IsPair r plain name w.folder e a
          × Mem a.action e.allowed_actions
          × IsInTime date_parse e a (clock w.clock_reads)
          × IsForEvent e a c)

  pub process_body-calls :
      (name : String) (w : World Document)
      → HasOneCall name w (process_body r date_parse iso plain clock faults sinks name w).1
  unfolding process_body
  process_body-calls name w = elim (Result-cases (open_pair r plain name w.folder)) [
    | inr (c, h) ↦ inl (rw (process_body, h) refl)
    | inl (none, h) ↦ inl (rw (process_body, h) refl)
    | inl (some (e, a), h) ↦
        let already = is_member (names w.folder) "ui-action.json" in
        rw (process_body, h)
          (elim (answer_calls name e a already w) [
            | inl same ↦ inl same
            | inr (c, grown, (allowed, in_time, k)) ↦ inr (
              c,
              e,
              a,
              grown,
              (open_pair-ok name w.folder (e, a) h).0,
              read_pair-IsPair r plain name w.folder e a (open_pair-ok name w.folder (e, a) h).1,
              any-Mem a.action e.allowed_actions allowed,
              is_expired-IsInTime date_parse e a (clock w.clock_reads) in_time,
              k,
            )
          ])
  ]

  -- One pass over a directory calls a sink at most once, and only when the directory has no receipt,
  -- event.json and reply.json are plain files within their limits that hold a valid event and a valid
  -- reply, both of the directory's name, the event's hash is that of its summary or of the file that
  -- it names, the event lists the action, and the clock and the reply are neither past the declared
  -- end nor past twelve hours (an approval request) or seven days (any other event), the reply not
  -- being older than the event. The call is for this event and this reply.
  pub process_directory-calls :
      (name : String) (w : World Document) (counts : Counts)
      → HasOneCall name w
          (process_directory r date_parse iso plain clock faults sinks name w counts).0
  unfolding process_directory
  process_directory-calls name w counts =
      let out = process_body r date_parse iso plain clock faults sinks name w in
      elim (process_body-calls name w) [
        | inl same ↦ inl (settle-calls name counts out ∙ same)
        | inr (c, e, a, grown, absent, pair, allowed, in_time, k) ↦
            inr (c, e, a, settle-calls name counts out ∙ grown, absent, pair, allowed, in_time, k)
      ]
