-- ===== src/Contracts/Tests.antt =====
-- The theorems on bridge/src/contracts.mjs, applied to a time stamp and to an event.
use hermes_codex_bridge.Base.{◌≡◌, ◌↔◌, refl, asserts, true, some, ok}
use hermes_codex_bridge.Base.Text.{codes, is_event_id, is_sha256}
use hermes_codex_bridge.Base.Json.{
  Json, end, field, null, bool, str, obj, arr, nil, cons, get, has_own_fields, at, string_is,
}
use hermes_codex_bridge.Runtime.Sample.{zeros}
use hermes_codex_bridge.Contracts.Timestamp.{
  in_range, days_in_month, Stamp, exec_rfc3339, is_rfc3339,
}
use hermes_codex_bridge.Contracts.Calendar.{IsCalendarTime, is_rfc3339_iff}
use hermes_codex_bridge.Contracts.Shape.{
  is_reply_mode, is_message, is_thread, has_allowed_actions, validate_event, event_of,
}
use hermes_codex_bridge.Contracts.Accepted.{IsEventOf, accepted_event}

is_rfc3339_iff_example :
    (is_rfc3339 "2024-02-29T23:59:59Z" ≡ true)
    ↔ ((s : Stamp) × (exec_rfc3339 (codes "2024-02-29T23:59:59Z") ≡ some s) × IsCalendarTime s)
is_rfc3339_iff_example = is_rfc3339_iff "2024-02-29T23:59:59Z"

abbrev pub question : Json
question = obj (
    field "schema" (str "hermes-codex-interaction-event/v3") (
      field "event_id" (str "evt_00000000-0000-5000-8000-000000000001") (
        field "kind" (str "QUESTION") (
          field "created_at" (str "2026-01-01T00:00:00Z") (
            field "expires_at" (str "2026-01-02T00:00:00Z") (
              field "thread"
                (obj (
                  field "id" (str "thread") (
                    field "turn_id" (str "turn") (
                      field "title" (str "Title") (
                        field "project_label" (str "Project")
                          (field "cwd_label" (str "repo") end))))))
                (field "message"
                  (obj (
                    field "summary" (str "Go on?")
                      (field "markdown_path" null (field "is_replyable" (bool true) end))))
                  (field "allowed_actions" (arr (cons (str "REPLY") nil)) (
                    field "integrity"
                      (obj
                        (field "producer" (str "bridge") (field "content_sha256" (str zeros) end)))
                      end)))))))))

question-valid : validate_event question ≡ ok tt
unfolding validate_event asserts has_own_fields string_is is_event_id is_rfc3339 exec_rfc3339
    in_range days_in_month at is_sha256 get is_reply_mode is_message is_thread has_allowed_actions
question-valid = refl

accepted_event_example : IsEventOf question (event_of question)
accepted_event_example = accepted_event question question-valid
